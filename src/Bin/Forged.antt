-- ===== src/Bin/Forged.antt =====
-- What the check of a signature in `Bin::get` of src/bin.cpp is worth: `GPG::verify` of
-- src/gpgcrypto.cpp calls `verifyOpaqueSignature`, which writes the text that was signed to its
-- second argument, and the code does not compare it with the text that it shows.
use dpaste.Prelude.{
  arith, ◌<◌, ◌^◌, Bool, true, false, none, Bytes, is_empty, length, take, ◌==◌, ◌≡◌, refl, ap, sym,
  ◌∙◌, Bool-cases, inl, inr,
}
use dpaste.Effects.{Result, ok, throw, give, follow, handle}
use dpaste.Platform.{Platform, Process, IsLawful}
use dpaste.Uri.{code_from_dpaste_uri, substr}
use dpaste.Log.{dpaste_msg}
use dpaste.Gpg.{is_gpg_encrypted, make_gpg, verify, comment_on_first, comment_on_signature}
use dpaste.Cipher.{cipher_of_scheme}
use dpaste.Packet.{Packet, serialize, deserialize}
use dpaste.Packet.Laws.{deserialize-serialize, serialize-full}
use dpaste.Bin.{Bin, fetch, check, check_signature, open_packet, recover, bin_get}
use dpaste.Bin.Outcomes.{is_deciphered, is_deciphered-open_packet}
use dpaste.Bin.Published.{bin_get_lem, cipher_of_text-none}

module _ (P : Platform) where
  -- In the two worlds GpgME has the same keys, and what stands in the second argument of
  -- `verifyOpaqueSignature` before it writes there makes no difference.
  pub record Alike (w x : P.World) : Type 0 where
    pub context : P.gpgme.has_context w ≡ P.gpgme.has_context x
    pub opaque :
        (signature text other : Bytes)
        → (P.gpgme.verify signature text w).0 ≡ (P.gpgme.verify signature other x).0

  -- The same result, and the same messages.
  abbrev Same : {A : Type 0} → Result A × Process P → Result A × Process P → Type 0
  Same a b = (a.0 ≡ b.0) × (a.1.err ≡ b.1.err)

  check_signature-Same :
      (signature text other : Bytes) (s t : Process P)
      → Alike s.world t.world
      → s.err ≡ t.err
      → Same (check_signature P signature text s) (check_signature P signature other t)
  unfolding check_signature verify cipher_of_scheme make_gpg dpaste_msg comment_on_first
      comment_on_signature
  check_signature-Same signature text other s t A e =
      ground (arith, A.context, A.opaque signature text other, e)

  check-Same :
      (p : Packet) (text : Bytes) (s t : Process P)
      → Alike s.world t.world
      → s.err ≡ t.err
      → Same (check P none p p.payload s) (check P none (record p { payload = text }) text t)
  check-Same p text s t A e = elim (Bool-cases (is_empty p.signature)) [
    | inl none_left ↦ rw (none_left, check) (refl, e)
    | inr signed ↦ rw (signed, check) (check_signature-Same p.signature p.payload text s t A e)
  ]

  -- A packet that is not encrypted, and whose signature is checked.
  open_packet_signed :
      (b : Bin) (blob code pwd : Bytes) (no_decrypt : Bool) (p : Packet) (s : Process P)
      → deserialize P.msgpack blob ≡ ok p
      → is_gpg_encrypted P p.payload ≡ false
      → (length code == 16) ≡ false
      → open_packet P blob code pwd no_decrypt s
        ≡ follow
            (check P none p p.payload s).0
            (check P none p p.payload s).1
            (λ _. give (true, p.payload))
  unfolding open_packet
  open_packet_signed b blob code pwd no_decrypt p s d g l =
      rw (d, follow) (rw (cipher_of_text-none P b code p.payload s g l, follow) refl)

  abbrev ending : Result (Unit {0}) → Process P → Bytes → Bytes → Result (Bool × Bytes) × Process P
  ending r s blob text =
      let opened = follow r s (λ _. give (true, text)) in handle opened.0 opened.1 (recover P blob)

  -- Where the text of one packet is shown, no exception is handled, and so the other's is.
  ending-ok :
      (r : Result (Unit {0})) (v y : Process P) (blob forged text other : Bytes)
      → is_deciphered true (follow r v (λ _. give (true, text))).0 ≡ true
      → (ending r v blob text).0 ≡ ok (true, text)
      → v.err ≡ y.err
      → ((ending r y forged other).0 ≡ ok (true, other))
        × ((ending r v blob text).1.err ≡ (ending r y forged other).1.err)
  unfolding dpaste_msg
  ending-ok (ok a) v y blob forged text other t h e = (refl, e)
  ending-ok (throw x) v y blob forged text other t h e = ground (arith, t, h)

  bin_get-ending :
      (b : Bin) (uri code pwd blob : Bytes) (no_decrypt : Bool) (p : Packet) (s : Process P)
      → code_from_dpaste_uri uri ≡ ok code
      → substr code 8 ≡ ok pwd
      → (length code == 16) ≡ false
      → (fetch P b (take 8 code) s).0 ≡ ok blob
      → is_empty blob ≡ false
      → deserialize P.msgpack blob ≡ ok p
      → is_gpg_encrypted P p.payload ≡ false
      → let c = check P none p p.payload (fetch P b (take 8 code) s).1 in
        bin_get P b uri no_decrypt s ≡ ending c.0 c.1 blob p.payload
  bin_get-ending b uri code pwd blob no_decrypt p s c w l f full d g =
      let u = (fetch P b (take 8 code) s).1 in
      bin_get_lem P b uri code pwd blob no_decrypt s c w f full
      ∙ ap (λ r. handle r.0 r.1 (recover P blob))
          (open_packet_signed b blob code pwd no_decrypt p u d g l)

  -- Whoever can write to the stores can put another text beside the signature of a packet that is
  -- signed and not encrypted: if `get` shows the text that was signed to somebody, it shows the
  -- other text to somebody with the same keys, and with the same messages, that of a valid
  -- signature included. GpgME and msgpack behave as documented, and the sizes are those that
  -- msgpack can express.
  pub bin_get-forged :
      (b : Bin) (uri code pwd blob text : Bytes) (no_decrypt : Bool) (p : Packet) (s t : Process P)
      → IsLawful P.msgpack
      → code_from_dpaste_uri uri ≡ ok code
      → (substr code 8 ≡ ok pwd) × ((length code == 16) ≡ false)
      → ((fetch P b (take 8 code) s).0 ≡ ok blob) × (is_empty blob ≡ false)
      → deserialize P.msgpack blob ≡ ok p
      → (is_gpg_encrypted P p.payload ≡ false) × (is_gpg_encrypted P text ≡ false)
      → (length text < 2 ^ 32) × (length p.signature < 2 ^ 32)
      → (fetch P b (take 8 code) t).0 ≡ ok (serialize P.msgpack (record p { payload = text }))
      → Alike (fetch P b (take 8 code) s).1.world (fetch P b (take 8 code) t).1.world
      → (fetch P b (take 8 code) s).1.err ≡ (fetch P b (take 8 code) t).1.err
      → (bin_get P b uri no_decrypt s).0 ≡ ok (true, p.payload)
      → ((bin_get P b uri no_decrypt t).0 ≡ ok (true, text))
        × ((bin_get P b uri no_decrypt s).1.err ≡ (bin_get P b uri no_decrypt t).1.err)
  bin_get-forged b uri code pwd blob text no_decrypt p s t L c (w, l) (f, full) d (g, h) (m, n) k A
        e shown =
      let other : Packet = record p { payload = text } in
      let forged = serialize P.msgpack other in
      let u = (fetch P b (take 8 code) s).1 in
      let x = (fetch P b (take 8 code) t).1 in
      let (same, said) = check-Same p text u x A e in
      let real = bin_get-ending b uri code pwd blob no_decrypt p s c w l f full d g in
      let fake =
        bin_get-ending b uri code pwd forged no_decrypt other t c w l k
          (serialize-full P.msgpack L other m n) (deserialize-serialize P.msgpack L other m n) h in
      let safe = is_deciphered-open_packet P true (λ z. cc) blob code pwd p no_decrypt u d in
      let checked = check P none p p.payload u in
      rw real (
        rw fake (
          rw (sym same) (
            ending-ok checked.0 checked.1 (check P none other text x).1 blob forged p.payload text
              (rw (open_packet_signed b blob code pwd no_decrypt p u d g l) at safe)
              (ap (λ r. r.0) (sym real) ∙ shown) said)))
