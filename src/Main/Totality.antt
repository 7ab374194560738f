-- ===== src/Main/Totality.antt =====
-- `main` of src/main.cpp, where it pastes with no GPG: every run ends.
use dpaste.Prelude.{
  Bool, true, false, [], ◌∷◌, ◌++◌, Bytes, Option, none, is_empty, if◌then◌else◌, ◌≡◌, refl, ap,
  ◌∙◌, ◌⊎◌, inl, inr, Bool-cases,
}
use dpaste.Effects.{ok, follow}
use dpaste.Params.{no_scheme, Parameters}
use dpaste.Args.{ParsedArgs, params_from_args}
use dpaste.Pin.Format.{IsPin}
use dpaste.Uri.{dpaste_uri_prefix}
use dpaste.Platform.{Platform, Process}
use dpaste.Http.{put_request, is_stored, http_put}
use dpaste.Node.{new_value, wait_result, node_paste}
use dpaste.Packet.{Packet, serialize}
use dpaste.Bin.{Bin, make_bin, prepare_data, publish, bin_paste, bin_paste_stream, data_from_stream}
use dpaste.Bin.Published.{InRange, prepare_plain, announced, bin_paste_lem}
use dpaste.Bin.RoundTrip.{next_pin, after_pin, next_pin-IsPin, fresh_pin_lem}
use dpaste.Bin.Secret.{AesFull, prepare_aes, encrypted}
use dpaste.Frame.Kept.{bin_paste-Kept}
use dpaste.Main.{run_paste, run_args}
use dpaste.Main.Phases.{ready, run_args-paste, ready-out}

module _ (P : Platform) where
  node_paste-ok :
      (code blob : Bytes) (s : Process P)
      → (success : Bool) × ((node_paste P code blob s).0 ≡ ok success)
  unfolding node_paste
  node_paste-ok code blob s =
      elim (Bool-cases (P.dht.put (P.dht.info_hash code) (new_value P blob) s.world).0) [
        | inl t ↦ (wait_result P.garbage.done P.garbage.late true, rw t refl)
        | inr f ↦ (wait_result P.garbage.done P.garbage.late false, rw f refl)
      ]

  publish-ok :
      (b : Bin) (code blob : Bytes) (s : Process P)
      → (success : Bool) × ((publish P b code blob s).0 ≡ ok success)
  unfolding publish http_put
  publish-ok b code blob s =
      elim (Bool-cases
        (is_stored P (P.http.perform (put_request P b.http_client code blob) s.world).0)) [
          | inl t ↦ (true, rw t refl)
          | inr f ↦
              let (success, e) = node_paste-ok code blob (record s {
                world = (P.http.perform (put_request P b.http_client code blob) s.world).1;
              }) in
              (success, rw f e)
        ]

  -- A paste throws only what the preparation throws.
  bin_paste-ok :
      (b : Bin) (text pwd : Bytes) (params : Option Parameters) (p : Packet) (s : Process P)
      → (prepare_data P b text params (after_pin P b s)).0 ≡ ok (p, pwd)
      → ((bin_paste P b text params s).0 ≡ ok [])
        ⊎ ((bin_paste P b text params s).0 ≡ ok (dpaste_uri_prefix ++ (next_pin P b s ++ pwd)))
  bin_paste-ok b text pwd params p s h =
      let ready = prepare_data P b text params (after_pin P b s) in
      let done =
        bin_paste_lem P b text (next_pin P b s) pwd params p s (after_pin P b s) ready.1
          (fresh_pin_lem P b s) (ap (λ o. (o, ready.1)) h) in
      let (success, e) =
        publish-ok b (next_pin P b s) (serialize P.msgpack p) (announced P b ready.1) in
      elim (Bool-cases success) [
        | inl t ↦ inr (rw (done, e) (rw t refl))
        | inr f ↦ inl (rw (done, e) (rw f refl))
      ]

  run_paste_lem :
      (b : Bin) (input uri : Bytes) (pa : ParsedArgs) (s : Process P)
      → (bin_paste P b (data_from_stream P input) (params_from_args P.garbage pa) s).0 ≡ ok uri
      → ((run_paste P b input pa s).0 ≡ ok (if is_empty uri then 1 else 0))
        × ((run_paste P b input pa s).1.out ≡ s.out ++ (uri ++ b'\n' ∷ []))
  unfolding run_paste bin_paste_stream
  run_paste_lem b input uri pa s h = (
    rw (h, follow) refl,
    rw (h, follow)
        (ap (λ o. o ++ (uri ++ b'\n' ∷ []))
          (bin_paste-Kept b (data_from_stream P input) (params_from_args P.garbage pa) s).0),
  )

  -- What is prepared with AES or as it is, and the password.
  prepare-ok :
      (b : Bin) (text : Bytes) (pa : ParsedArgs) (s : Process P)
      → AesFull P
      → P.garbage.scheme ≡ no_scheme
      → (pa.aes_encrypt ≡ true) ⊎ ((pa.gpg_encrypt ≡ false) × (pa.sign ≡ false))
      → (p : Packet) × ((prepare_data P b text (params_from_args P.garbage pa) s).0
          ≡ ok (p, if pa.aes_encrypt then next_pin P b s else []))
  unfolding params_from_args
  prepare-ok b text pa s A scheme plain = elim (Bool-cases pa.aes_encrypt) [
    | inl e ↦
        let made = prepare_aes P b text (record { password = [] }) s A in
        (record { payload = (encrypted P b text s).0; signature = [] }, rw e (ap (λ r. r.0) made))
    | inr e ↦ elim plain [
      | inl aes ↦ cc (e, aes)
      | inr (g, f) ↦
          let made = prepare_plain P b text s scheme in
          (record { payload = text; signature = [] }, rw (e, g, f) (ap (λ r. r.0) made))
    ]
  ]

  -- The address: a location code, and a password only with AES.
  abbrev pub IsAddress : Bool → Bytes → Type 0
  IsAddress aes uri =
      (code : Bytes) × (pwd : Bytes) × IsPin code
      × IsPin pwd
      × (uri ≡ dpaste_uri_prefix ++ (code ++ (if aes then pwd else [])))

  -- A run that pastes, with AES or with neither encryption nor signature, always ends, whatever the
  -- server and the table answer. Either it prints an address, the prefix and eight characters or the
  -- prefix and sixteen with AES, and ends with 0, or it prints an empty line and ends with 1. The
  -- engine of GpgME is there, the scheme that is never set reads as none, the generator draws 32-bit
  -- numbers, and AES never gives an empty cipher text.
  pub run_args_total :
      (b : Bin) (pa : ParsedArgs) (input : Bytes) (s : Process P)
      → InRange P b
      → AesFull P
      → ((w : P.World) → P.gpgme.check_engine w ≡ none)
      → P.garbage.scheme ≡ no_scheme
      → (make_bin P s).0 ≡ ok b
      → (pa.fail ≡ false) × (pa.help ≡ false) × (pa.version ≡ false)
      → is_empty pa.code ≡ true
      → (pa.aes_encrypt ≡ true) ⊎ ((pa.gpg_encrypt ≡ false) × (pa.sign ≡ false))
      → (uri : Bytes) × ((run_args P pa input s).1.out ≡ s.out ++ (uri ++ b'\n' ∷ []))
        × (((run_args P pa input s).0 ≡ ok 0) × IsAddress pa.aes_encrypt uri
            ⊎ ((run_args P pa input s).0 ≡ ok 1) × (uri ≡ []))
  run_args_total b pa input s S A engine scheme m work none_asked plain =
      let t = ready P s in
      let text = data_from_stream P input in
      let code = next_pin P b t in
      let pwd = next_pin P b (after_pin P b t) in
      let (p, made) = prepare-ok b text pa (after_pin P b t) A scheme plain in
      let same = run_args-paste P b pa input s m engine work none_asked in
      let out = ready-out P s engine in
      elim (bin_paste-ok b text _ (params_from_args P.garbage pa) p t made) [
        | inl e ↦
            let (rc, printed) = run_paste_lem b input [] pa t e in
            ([], rw same (printed ∙ ap (λ o. o ++ b'\n' ∷ []) out), inr (rw same rc, refl))
        | inr e ↦
            let uri = dpaste_uri_prefix ++ (code ++ (if pa.aes_encrypt then pwd else [])) in
            let (rc, printed) = run_paste_lem b input uri pa t e in
            (
              uri,
              rw same (printed ∙ ap (λ o. o ++ (uri ++ b'\n' ∷ [])) out),
              inl (
                rw same rc,
                (code, pwd, next_pin-IsPin P b t S, next_pin-IsPin P b (after_pin P b t) S, refl),
              ),
            )
      ]
