-- ===== src/Main/Phases.antt =====
-- The parts of `main` of src/main.cpp: what comes before the paste or the get, and what is printed
-- after.
use dpaste.Prelude.{
  ℕ, Bool, true, false, [], ◌∷◌, ◌++◌, none, Bytes, is_empty, ◌≡◌, ◌≢◌, refl, ap, ◌∙◌, inl, inr,
  arith, Bool-cases,
}
use dpaste.Effects.{ok, Result-cases, ok-inj, follow}
use dpaste.Args.{ParsedArgs, params_from_args}
use dpaste.Platform.{Platform, Process}
use dpaste.Cipher.{cipher_init}
use dpaste.Gpg.{gpg_init}
use dpaste.Bin.{Bin, make_bin, bin_get, bin_paste, bin_paste_stream, data_from_stream}
use dpaste.Bin.Start.{bootstrapped, make_bin-world}
use dpaste.Frame.Kept.{bin_get-Kept, bin_paste-Kept}
use dpaste.Main.{run_get, run_paste, run_args}

one_zero : ◌≢◌ {A = ℕ} 1 0
one_zero h = omega arith

module _ (P : Platform) where
  -- An exit code of 0 after a paste: an address was printed, and nothing else.
  pub run_paste-ok :
      (b : Bin) (input : Bytes) (pa : ParsedArgs) (s : Process P)
      → (run_paste P b input pa s).0 ≡ ok 0
      → (uri : Bytes) × ((bin_paste P b
            (data_from_stream P input)
            (params_from_args P.garbage pa)
            s).0
          ≡ ok uri)
        × (is_empty uri ≡ false)
        × ((run_paste P b input pa s).1.out ≡ s.out ++ (uri ++ b'\n' ∷ []))
        × ((run_paste P b input pa s).1.world
            ≡ (bin_paste P b (data_from_stream P input) (params_from_args P.garbage pa) s).1.world)
  unfolding run_paste bin_paste_stream
  run_paste-ok b input pa s h =
      let done = bin_paste P b (data_from_stream P input) (params_from_args P.garbage pa) s in
      elim (Result-cases done.0) [
        | inr (x, f) ↦ cc (rw (f, run_paste, follow) at h)
        | inl (uri, f) ↦
            let h1 = ok-inj (rw (f, run_paste, follow) at h) in
            elim (Bool-cases (is_empty uri)) [
              | inl e ↦ absurd (one_zero (rw e at h1))
              | inr e ↦ (
                uri,
                f,
                e,
                rw (f, follow)
                    (ap (λ o. o ++ (uri ++ b'\n' ∷ []))
                      (bin_paste-Kept b (data_from_stream P input) (params_from_args P.garbage pa)
                        s).0),
                rw (f, follow) refl,
              )
            ]
      ]

  pub run_get-ok :
      (b : Bin) (uri text : Bytes) (no_decrypt : Bool) (s : Process P)
      → (bin_get P b uri no_decrypt s).0 ≡ ok (true, text)
      → ((run_get P b uri no_decrypt s).0 ≡ ok 0)
        × ((run_get P b uri no_decrypt s).1.out ≡ s.out ++ text)
  unfolding run_get
  run_get-ok b uri text no_decrypt s h = (
    rw (h, follow) refl,
    rw (h, follow) (ap (λ o. o ++ text) (bin_get-Kept b uri no_decrypt s).0),
  )

  cipher_init-ok :
      (s : Process P)
      → ((w : P.World) → P.gpgme.check_engine w ≡ none)
      → ((cipher_init P s).0 ≡ ok tt)
        × ((cipher_init P s).1.world ≡ s.world)
        × ((cipher_init P s).1.out ≡ s.out)
  unfolding cipher_init gpg_init
  cipher_init-ok s e = ground (arith, e s.world)

  -- The state in which the object is used.
  abbrev pub ready : Process P → Process P
  ready s = (cipher_init P (make_bin P s).1).1

  abbrev pub IsWork : ParsedArgs → Type 0
  IsWork pa = (pa.fail ≡ false) × (pa.help ≡ false) × (pa.version ≡ false)

  pub run_args-paste :
      (b : Bin) (pa : ParsedArgs) (input : Bytes) (s : Process P)
      → (make_bin P s).0 ≡ ok b
      → ((w : P.World) → P.gpgme.check_engine w ≡ none)
      → IsWork pa
      → is_empty pa.code ≡ true
      → run_args P pa input s ≡ run_paste P b input pa (ready s)
  unfolding run_args run_paste params_from_args
  run_args-paste b pa input s m engine (f, h, v) c =
      rw (f, run_args)
        (rw (h, run_args)
          (rw (v, run_args)
            (rw (m, follow) (rw ((cipher_init-ok (make_bin P s).1 engine).0, follow) (rw c refl)))))

  pub run_args-get :
      (b : Bin) (pa : ParsedArgs) (input : Bytes) (s : Process P)
      → (make_bin P s).0 ≡ ok b
      → ((w : P.World) → P.gpgme.check_engine w ≡ none)
      → IsWork pa
      → is_empty pa.code ≡ false
      → run_args P pa input s ≡ run_get P b pa.code pa.no_decrypt (ready s)
  unfolding run_args
  run_args-get b pa input s m engine (f, h, v) c =
      rw (f, run_args)
        (rw (h, run_args)
          (rw (v, run_args)
            (rw (m, follow) (rw ((cipher_init-ok (make_bin P s).1 engine).0, follow) (rw c refl)))))

  pub ready-world :
      (s : Process P)
      → ((w : P.World) → P.gpgme.check_engine w ≡ none)
      → (ready s).world ≡ (bootstrapped P s).world
  ready-world s engine =
      (cipher_init-ok (make_bin P s).1 engine).1 ∙ ap (λ r. r.world) (make_bin-world P s)

  pub ready-out :
      (s : Process P) → ((w : P.World) → P.gpgme.check_engine w ≡ none) → (ready s).out ≡ s.out
  ready-out s engine =
      (cipher_init-ok (make_bin P s).1 engine).2 ∙ ap (λ r. r.out) (make_bin-world P s)
