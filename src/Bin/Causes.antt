-- ===== src/Bin/Causes.antt =====
-- When `Bin::get` of src/bin.cpp throws: the address is short, the server's reply cannot be read, or
-- the blob cannot be unpacked.
use dpaste.Prelude.{
  ℕ, ◌<◌, ◌≤◌, Bool, true, false, none, Bytes, is_empty, length, take, drop, leb, ◌≡◌, ◌⊎◌, ◌↔◌,
  ◌≢◌, inl, inr, refl, sym, ap, ◌∙◌, arith, Bool-cases, Option-cases,
}
use dpaste.Effects.{
  Exception, out_of_range, bad_variant_access, json_error, gpgme_error, decrypt_error, type_error,
  unpack_error, null_pointer, Result-cases, ok, throw, follow, try_catch,
}
use dpaste.Uri.{code_from_dpaste_uri, substr}
use dpaste.Platform.{Platform, Process}
use dpaste.Http.{get_request}
use dpaste.Packet.{deserialize, read_field, find_map_value, convert_found}
use dpaste.Log.{dpaste_msg}
use dpaste.Bin.Published.{bin_get_lem}
use dpaste.Bin.Errors.{open_packet-throw, bin_get-short, bin_get-unpack_error}
use dpaste.Bin.{Bin, fetch, open_packet, recover, bin_get}
use dpaste.Bin.Refused.{IsRefused, fetch-IsRefused, IsRefused-fetch}
use dpaste.Bin.Outcomes.{
  passes-deserialize, is_opening, is_opened-open_packet, is_deciphered-open_packet,
}

substr-long : (code : Bytes) (n : ℕ) → n ≤ length code → substr code n ≡ ok (drop n code)
substr-long code n h = ground arith

module _ (P : Platform) (b : Bin) where
  deserialize-unpack_error :
      (blob : Bytes)
      → deserialize P.msgpack blob ≡ throw unpack_error
      → P.msgpack.unpack blob ≡ none
  unfolding deserialize read_field find_map_value convert_found
  deserialize-unpack_error blob h = elim (Option-cases (P.msgpack.unpack blob)) [
    | inl n ↦ n
    | inr ((o, rest), y) ↦ ground arith
  ]

  open_packet-unpack :
      (blob code pwd : Bytes) (no_decrypt : Bool) (s : Process P)
      → (open_packet P blob code pwd no_decrypt s).0 ≡ throw unpack_error
      → P.msgpack.unpack blob ≡ none
  open_packet-unpack blob code pwd no_decrypt s h =
      elim (Result-cases (deserialize P.msgpack blob)) [
        | inl (p, d) ↦
            let t = is_deciphered-open_packet P true (λ h. cc) blob code pwd p no_decrypt s d in
            ground arith
        | inr (x, d) ↦
            let t = open_packet-throw P b blob code pwd no_decrypt x s d in
            deserialize-unpack_error blob (ground arith)
      ]

  -- Where GpgME always gives a context, no call goes through an empty pointer.
  open_packet-null_pointer :
      (blob code pwd : Bytes) (no_decrypt : Bool) (s : Process P)
      → ((w : P.World) → P.gpgme.has_context w ≡ true)
      → (open_packet P blob code pwd no_decrypt s).0 ≢ throw null_pointer
  open_packet-null_pointer blob code pwd no_decrypt s context h =
      elim (Result-cases (deserialize P.msgpack blob)) [
        | inl (p, d) ↦
            let t =
              is_deciphered-open_packet P false (λ f. context) blob code pwd p no_decrypt s d in
            ground arith
        | inr (x, d) ↦
            let t = open_packet-throw P b blob code pwd no_decrypt x s d in
            let r = passes-deserialize P blob in ground arith
      ]

  recover-throw :
      (blob : Bytes) (d e : Exception) (s : Process P)
      → is_opening d ≡ true
      → (recover P blob d s).0 ≡ throw e
      → (d ≡ e) × ((e ≡ unpack_error) ⊎ (e ≡ null_pointer))
  unfolding dpaste_msg
  recover-throw blob d e s o h = ground arith

  caught-throw :
      (blob code pwd : Bytes) (no_decrypt : Bool) (e : Exception) (s : Process P)
      → (try_catch (open_packet P blob code pwd no_decrypt) (recover P blob) s).0 ≡ throw e
      → ((e ≡ unpack_error) × (P.msgpack.unpack blob ≡ none))
        ⊎ ((e ≡ null_pointer) × ((open_packet P blob code pwd no_decrypt s).0 ≡ throw null_pointer))
  caught-throw blob code pwd no_decrypt e s h =
      let o = is_opened-open_packet P blob code pwd no_decrypt s in
      elim (Result-cases (open_packet P blob code pwd no_decrypt s).0) [
        | inl (r, y) ↦ ground arith
        | inr (d, y) ↦
            let (same, why) =
              recover-throw blob d e (open_packet P blob code pwd no_decrypt s).1
                (ground (arith, o, y)) (ground (arith, h, y)) in
            elim why [
              | inl u ↦
                  inl (u, open_packet-unpack blob code pwd no_decrypt s (y ∙ ap throw (same ∙ u)))
              | inr n ↦ inr (n, y ∙ ap throw (same ∙ n))
            ]
      ]

  abbrev IsUnpackable : Bytes → Process P → Type 0
  IsUnpackable code s =
      (blob : Bytes) × ((fetch P b code s).0 ≡ ok blob)
      × (is_empty blob ≡ false)
      × (P.msgpack.unpack blob ≡ none)

  -- What is behind an exception of `get`, by the exception; the others have none.
  abbrev pub Cause : Exception → Bytes → Process P → Type 0
  Cause out_of_range code s = length code < 8
  Cause json_error code s =
      (8 ≤ length code)
      × IsRefused P (P.http.perform (get_request P b.http_client (take 8 code)) s.world).0
  Cause unpack_error code s = (8 ≤ length code) × IsUnpackable (take 8 code) s
  Cause e code s = ⊥

  bin_get-refused :
      (uri code pwd : Bytes) (no_decrypt : Bool) (e : Exception) (s : Process P)
      → code_from_dpaste_uri uri ≡ ok code
      → substr code 8 ≡ ok pwd
      → (fetch P b (take 8 code) s).0 ≡ throw e
      → (bin_get P b uri no_decrypt s).0 ≡ throw e
  unfolding bin_get
  bin_get-refused uri code pwd no_decrypt e s c p f = rw c (rw p (rw (f, follow) refl))

  bin_get-nothing :
      (uri code pwd blob : Bytes) (no_decrypt : Bool) (s : Process P)
      → code_from_dpaste_uri uri ≡ ok code
      → substr code 8 ≡ ok pwd
      → (fetch P b (take 8 code) s).0 ≡ ok blob
      → is_empty blob ≡ true
      → (bin_get P b uri no_decrypt s).0 ≡ ok (true, blob)
  unfolding bin_get
  bin_get-nothing uri code pwd blob no_decrypt s c p f n = rw c (rw p (rw (f, follow) (rw n refl)))

  bin_get-Cause :
      (uri code : Bytes) (no_decrypt : Bool) (e : Exception) (s : Process P)
      → code_from_dpaste_uri uri ≡ ok code
      → (e ≡ null_pointer → (w : P.World) → P.gpgme.has_context w ≡ true)
      → (bin_get P b uri no_decrypt s).0 ≡ throw e
      → Cause e code s
  bin_get-Cause uri code no_decrypt e s c context h = elim (Bool-cases (leb 8 (length code))) [
    | inr short ↦
        let t = bin_get-short P b uri code no_decrypt s c (ground (arith, short)) in
        let x : e ≡ out_of_range = cc in rw x (ground (arith, short))
    | inl long ↦
        let enough : 8 ≤ length code = ground (arith, long) in
        let p : substr code 8 ≡ ok (drop 8 code) = substr-long code 8 enough in
        elim (Result-cases (fetch P b (take 8 code) s).0) [
          | inr (d, f) ↦
              let x = bin_get-refused uri code (drop 8 code) no_decrypt d s c p f in
              let (j, refused) = fetch-IsRefused P b (take 8 code) d s f in
              let y : e ≡ json_error = cc in rw y (enough, refused)
          | inl (blob, f) ↦ elim (Bool-cases (is_empty blob)) [
            | inl n ↦ let x = bin_get-nothing uri code (drop 8 code) blob no_decrypt s c p f n in cc
            | inr n ↦
                let x = bin_get_lem P b uri code (drop 8 code) blob no_decrypt s c p f n in
                let t = (fetch P b (take 8 code) s).1 in
                elim (caught-throw blob code (drop 8 code) no_decrypt e t
                  (ap (λ q. q.0) (sym x) ∙ h)) [
                    | inl (u, v) ↦ rw u (enough, (blob, f, n, v))
                    | inr (v, y) ↦ absurd (
                        open_packet-null_pointer blob code (drop 8 code) no_decrypt t (context v) y)
                  ]
          ]
        ]
  ]

  Cause-bin_get :
      (uri code : Bytes) (no_decrypt : Bool) (e : Exception) (s : Process P)
      → code_from_dpaste_uri uri ≡ ok code
      → Cause e code s
      → (bin_get P b uri no_decrypt s).0 ≡ throw e
  Cause-bin_get uri code no_decrypt out_of_range s c short =
      rw (bin_get-short P b uri code no_decrypt s c short) refl
  Cause-bin_get uri code no_decrypt json_error s c (enough, refused) =
      bin_get-refused uri code (drop 8 code) no_decrypt json_error s c (substr-long code 8 enough)
        (IsRefused-fetch P b (take 8 code) s refused)
  Cause-bin_get uri code no_decrypt unpack_error s c (enough, (blob, f, m, v)) =
      rw
        (bin_get-unpack_error P b uri code (drop 8 code) blob no_decrypt s c
          (substr-long code 8 enough) f m v)
        refl
  Cause-bin_get uri code no_decrypt null_pointer s c h = absurd h
  Cause-bin_get uri code no_decrypt bad_variant_access s c h = absurd h
  Cause-bin_get uri code no_decrypt type_error s c h = absurd h
  Cause-bin_get uri code no_decrypt (gpgme_error x m) s c h = absurd h
  Cause-bin_get uri code no_decrypt (decrypt_error m) s c h = absurd h

  -- For a code, `get` throws an exception exactly where it has its cause. `substr` throws for a
  -- code of fewer than eight characters. For a longer one, the JSON library throws where the server
  -- answers with status 200 and a body that is not JSON, or whose first value is neither an object
  -- nor null, and `unpack` throws where the blob that was fetched cannot be unpacked. No other
  -- exception leaves `get`; that the crash of a call through an empty pointer does not is said if
  -- GpgME always gives a context.
  pub bin_get-throw_iff :
      (uri code : Bytes) (no_decrypt : Bool) (e : Exception) (s : Process P)
      → code_from_dpaste_uri uri ≡ ok code
      → (e ≡ null_pointer → (w : P.World) → P.gpgme.has_context w ≡ true)
      → ((bin_get P b uri no_decrypt s).0 ≡ throw e) ↔ Cause e code s
  bin_get-throw_iff uri code no_decrypt e s c context =
      (bin_get-Cause uri code no_decrypt e s c context, Cause-bin_get uri code no_decrypt e s c)
