-- ===== src/Main/Returns.antt =====
-- What `main` of src/main.cpp returns and has printed, for all arguments.
use dpaste.Prelude.{
  ℕ, Bool, true, false, [], ◌∷◌, ◌++◌, Bytes, is_empty, ◌≡◌, ap, ◌∙◌, ◌⊎◌, inl, inr, arith,
  Bool-cases, if◌then◌else◌,
}
use dpaste.Effects.{ok, Result, Result-cases, follow, give, ◌>>◌, ◌>>=◌}
use dpaste.Args.{ParsedArgs, params_from_args}
use dpaste.Platform.{Platform, Process, Do}
use dpaste.Cipher.{cipher_init}
use dpaste.Gpg.{gpg_init}
use dpaste.Bin.{Bin, make_bin, bin_paste, bin_paste_stream, data_from_stream}
use dpaste.Bin.Start.{make_bin-world}
use dpaste.Frame.Kept.{bin_get-Kept, bin_paste-Kept}
use dpaste.Main.{run_get, run_paste, run_args, print}

module _ (P : Platform) where
  -- What a code says of the output, before and after.
  abbrev pub Returned : ℕ → Bytes → Bytes → Type 0
  Returned n before after =
      (n ≡ 0) ⊎ ((n ≡ 1) × ((after ≡ before) ⊎ (after ≡ before ++ b'\n' ∷ [])))

  run_get-Returned :
      (b : Bin) (uri : Bytes) (no_decrypt : Bool) (n : ℕ) (s : Process P)
      → (run_get P b uri no_decrypt s).0 ≡ ok n
      → Returned n s.out (run_get P b uri no_decrypt s).1.out
  unfolding run_get
  run_get-Returned b uri no_decrypt n s h =
      let k = (bin_get-Kept b uri no_decrypt s).0 in ground (arith, h, k)

  run_paste-Returned :
      (b : Bin) (input : Bytes) (pa : ParsedArgs) (n : ℕ) (s : Process P)
      → (run_paste P b input pa s).0 ≡ ok n
      → Returned n s.out (run_paste P b input pa s).1.out
  unfolding run_paste bin_paste_stream
  run_paste-Returned b input pa n s h =
      let text = data_from_stream P input in
      let params = params_from_args P.garbage pa in
      pasted (bin_paste P b text params s).0 (bin_paste P b text params s).1
        (bin_paste-Kept b text params s).0 h
    where
      pasted :
          (r : Result Bytes) (t : Process P)
          → t.out ≡ s.out
          → (follow {B = ℕ} r t
              (λ uri. print P (uri ++ b'\n' ∷ []) >> give (if is_empty uri then 1 else 0))).0
            ≡ ok n
          → Returned n s.out
              (follow {B = ℕ} r t
                (λ uri. print P (uri ++ b'\n' ∷ []) >> give (if is_empty uri then 1 else 0))).1.out
      pasted r t k e = ground (arith, k, e)

  make_bin-out : (s : Process P) → ((make_bin P s).1.out ≡ s.out)
  make_bin-out s = ap (λ t. t.out) (make_bin-world P s)

  cipher_init-out : (s : Process P) → (cipher_init P s).1.out ≡ s.out
  unfolding cipher_init gpg_init
  cipher_init-out s = ground arith

  -- The object is made, the ciphers are set up, and a text is got or pasted.
  abbrev work : ParsedArgs → Bytes → Do P ℕ
  work pa input = do
    b ← make_bin P
    cipher_init P
    elim (is_empty pa.code) [
      | false ↦ run_get P b pa.code pa.no_decrypt
      | true ↦ run_paste P b input pa
    ]

  working :
      (pa : ParsedArgs) (input : Bytes) (n : ℕ) (s : Process P)
      → (work pa input s).0 ≡ ok n
      → Returned n s.out (work pa input s).1.out
  working pa input n s h =
      let t = (make_bin P s).1 in
      let u = (cipher_init P t).1 in
      let same : u.out ≡ s.out = cipher_init-out t ∙ make_bin-out s in
      elim (Result-cases (make_bin P s).0) [
        | inr (x, m) ↦ cc (rw (m, follow) at h)
        | inl (b, m) ↦ elim (Result-cases (cipher_init P t).0) [
          | inr (x, c) ↦ cc (rw (c, follow) at (rw (m, follow) at h))
          | inl (_, c) ↦ elim (Bool-cases (is_empty pa.code)) [
            | inl e ↦
                let k =
                  run_paste-Returned b input pa n u
                    (rw e at (rw (c, follow) at (rw (m, follow) at h))) in
                rw (m, follow) (rw (c, follow) (rw e (rw same at k)))
            | inr e ↦
                let k =
                  run_get-Returned b pa.code pa.no_decrypt n u
                    (rw e at (rw (c, follow) at (rw (m, follow) at h))) in
                rw (m, follow) (rw (c, follow) (rw e (rw same at k)))
          ]
        ]
      ]

  -- Whatever the arguments are, and whatever the libraries do: if `main` returns a code, it is 0 or
  -- 1, and if it is 1, nothing was printed on the standard output, or an empty line: no part of a
  -- text and no address.
  pub run_args-Returned :
      (pa : ParsedArgs) (input : Bytes) (n : ℕ) (s : Process P)
      → (run_args P pa input s).0 ≡ ok n
      → Returned n s.out (run_args P pa input s).1.out
  unfolding run_args
  run_args-Returned pa input n s h = elim (Bool-cases pa.fail) [
    | inl f ↦ ground (arith, h, f)
    | inr f ↦ elim (Bool-cases pa.help) [
      | inl p ↦ ground (arith, h, f, p)
      | inr p ↦ elim (Bool-cases pa.version) [
        | inl v ↦ ground (arith, h, f, p, v)
        | inr v ↦
            rw (f, run_args)
              (rw (p, run_args)
                (rw (v, run_args)
                  (working pa input n s
                    (rw (v, run_args) at (rw (p, run_args) at (rw (f, run_args) at h))))))
      ]
    ]
  ]
