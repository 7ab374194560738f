-- ===== src/Bin/Sealed.antt =====
-- `Bin::paste` of src/bin.cpp and then `Bin::get`, for texts pasted with the parameters of GPG.
use mathlib.Core.List.{Memᴰ}
use dpaste.Prelude.{
  ◌<◌, ◌^◌, Bool, true, false, List, [], ◌∷◌, ◌++◌, none, some, Bytes, is_empty, length, ◌≡◌, ◌≢◌,
  refl, ap, inl, inr, arith, ◌==◌, append-nil, Bool-cases, Option, codes,
}
use dpaste.Effects.{ok, follow, handle}
use dpaste.Params.{GpgParameters, gpg_parameters}
use dpaste.Platform.{Platform, Process}
use dpaste.Log.{dpaste_msg}
use dpaste.Gpg.{Gpg, on_error, make_gpg, is_gpg_encrypted, verify}
use dpaste.Gpg.Message.{readers, IsMessage, IsMessageTo, IsMessageTo-IsMessage}
use dpaste.Gpg.RoundTrip.{Opens, IsOwn, gpg_process_cipher_text-IsMessageTo, comment_on_first-ok}
use dpaste.Cipher.{cipher_of_text, cipher_of_scheme, process_cipher_text}
use dpaste.Packet.{Packet, deserialize}
use dpaste.Packet.Laws.{deserialize-serialize}
use dpaste.Bin.{conf_at, Bin, open_packet, check, check_signature, bin_get, bin_paste}
use dpaste.Bin.Published.{Sound, cipher_of_text-none}
use dpaste.Bin.RoundTrip.{next_pin, after_pin, next_pin-IsPin, IsUnused}
use dpaste.Bin.Paste.{bin_paste-opens}
use dpaste.Bin.Reading.{Opened}
use dpaste.Bin.Recipients.{IsSignature, prepare_data-IsSealedTo, prepare_data-clear}

-- What is relied on of GpgME: there is a context; messages are known as such, are opened with the
-- keys that are held, and are not much longer than their texts, nor are signatures; what was signed
-- with no error is checked with none.
pub record GpgSound (P : Platform) (held : P.gpgme.Key → Type 0) : Type 0 where
  pub opens : Opens P held
  pub context : (w : P.World) → P.gpgme.has_context w ≡ true
  pub known : (text c : Bytes) → IsMessage P text c → is_gpg_encrypted P c ≡ true
  pub message_size :
      (text c : Bytes) → length text < 2 ^ 31 → IsMessage P text c → length c < 2 ^ 32
  pub signature_size :
      (keys : List P.gpgme.Key) (text : Bytes) (w : P.World)
      → length text < 2 ^ 31
      → length (P.gpgme.sign keys text w).0.signature < 2 ^ 32
  pub verify-sign :
      (keys : List P.gpgme.Key) (text : Bytes) (w u : P.World)
      → (P.gpgme.sign keys text w).0.error ≡ none
      → (P.gpgme.verify (P.gpgme.sign keys text w).0.signature text u).0.error ≡ none

module _ (P : Platform) (held : P.gpgme.Key → Type 0) (G : GpgSound P held) where
  pub open_packet_gpg :
      (signers : Option (List P.gpgme.Key)) (names : List Bytes) (blob code pwd own text : Bytes)
      (p : Packet) (s : Process P)
      → deserialize P.msgpack blob ≡ ok p
      → IsMessageTo P signers names text p.payload
      → Memᴰ own names
      → IsOwn P held own
      → (open_packet P blob code pwd false s).0 ≡ ok (true, text)
  unfolding open_packet cipher_of_text make_gpg process_cipher_text
  open_packet_gpg signers names blob code pwd own text p s d m among mine =
      let g : Gpg P = record { ctx = some []; signer_key = [] } in
      rw (d, follow)
        (rw
          (
            G.known text p.payload (IsMessageTo-IsMessage P signers names text p.payload m),
            cipher_of_text,
          )
          (rw (G.context s.world, make_gpg)
            (rw
              (
                gpg_process_cipher_text-IsMessageTo P held g signers names own text p.payload [] s
                    G.opens among mine m refl,
                follow,
              )
              refl)))

  check_signature-ok :
      (signature text : Bytes) (s : Process P)
      → IsSignature P text signature
      → is_empty signature ≡ false
      → (check_signature P signature text s).0 ≡ ok tt
  unfolding check_signature cipher_of_scheme make_gpg verify dpaste_msg
  check_signature-ok signature text s (inl e) full = cc
  check_signature-ok signature text s (inr (keys, w, worked, e)) full =
      rw (G.context s.world, make_gpg)
        (rw e (
          rw (G.verify-sign keys text w s.world worked, on_error, follow)
            (comment_on_first-ok P _ _)))

  check_clear :
      (p : Packet) (s : Process P)
      → IsSignature P p.payload p.signature
      → (check P none p p.payload s).0 ≡ ok tt
  check_clear p s signature = elim (Bool-cases (is_empty p.signature)) [
    | inl f ↦ rw (f, check) refl
    | inr f ↦ rw (f, check) (check_signature-ok p.signature p.payload s signature f)
  ]

  open_packet_clear :
      (b : Bin) (blob code pwd text : Bytes) (no_decrypt : Bool) (p : Packet) (s : Process P)
      → deserialize P.msgpack blob ≡ ok p
      → is_gpg_encrypted P p.payload ≡ false
      → (length code == 16) ≡ false
      → p.payload ≡ text
      → IsSignature P text p.signature
      → (open_packet P blob code pwd no_decrypt s).0 ≡ ok (true, text)
  unfolding open_packet
  open_packet_clear b blob code pwd text no_decrypt p s d g l e signature =
      rw (d, follow)
        (rw (cipher_of_text-none P b code p.payload s g l, follow)
          (rw (check_clear p s (rw e signature), follow) (ap (λ t. ok (true, t)) e)))

  signature_lt :
      (text signature : Bytes)
      → length text < 2 ^ 31
      → IsSignature P text signature
      → length signature < 2 ^ 32
  signature_lt text signature small (inl e) = rw e (omega arith)
  signature_lt text signature small (inr (keys, w, _, e)) =
      rw e (G.signature_size keys text w small)

  short_code : (code : Bytes) → length code ≡ 8 → (length (code ++ []) == 16) ≡ false
  short_code code l = rw (append-nil code, l) refl

  -- As is what is signed and not encrypted.
  pub Opened-clear :
      (b : Bin) (text : Bytes) (gp : GpgParameters) (s : Process P)
      → gp.recipients ≡ []
      → is_gpg_encrypted P text ≡ false
      → length text < 2 ^ 31
      → Sound P b
      → Opened P b text (some (gpg_parameters gp)) text s
  Opened-clear b text gp s none_given plain small S = record {
    at = λ p pwd code t l h.
        let (clear, signature, e) =
          prepare_data-clear P b text pwd gp p (after_pin P b s) G.opens.reads none_given h in
        let size : length p.payload < 2 ^ 32 = rw clear (omega (arith, small)) in
        let room = signature_lt text p.signature small signature in
        (
          size,
          room,
          open_packet_clear b _ (code ++ pwd) pwd text false p t
              (deserialize-serialize P.msgpack S.packing p size room) (rw clear plain)
              (rw e (short_code code l)) clear signature,
        );
  }

  -- A text pasted for recipients by GPG is what `get` returns for the address, but with a null byte
  -- at its end, to who holds the key of one of the recipients, or that of the sender if it was
  -- pasted with --self-recipient: if the paste succeeds, if nothing was there under its pin, the
  -- text is not too long, and the libraries behave as documented.
  pub bin_get-bin_paste_gpg :
      (b : Bin) (text uri keyid own : Bytes) (gp : GpgParameters) (s : Process P)
      → Sound P b
      → conf_at b.conf (codes "pgp_key_id") ≡ ok keyid
      → is_empty gp.recipients ≡ false
      → Memᴰ own (readers keyid gp)
      → IsOwn P held own
      → length (text ++ 0 ∷ []) < 2 ^ 31
      → IsUnused P b text (some (gpg_parameters gp)) s
      → (bin_paste P b text (some (gpg_parameters gp)) s).0 ≡ ok uri
      → uri ≢ []
      → (bin_get P b uri false (bin_paste P b text (some (gpg_parameters gp)) s).1).0
        ≡ ok (true, text ++ 0 ∷ [])
  bin_get-bin_paste_gpg b text uri keyid own gp s S configured some_given among mine small unused h
        ne =
      let (p, pwd, ready, opens) =
        bin_paste-opens P b text uri (some (gpg_parameters gp)) false s S unused h ne in
      let ((signing, w, _, m), bare, e) =
        prepare_data-IsSealedTo P b text pwd keyid gp p (after_pin P b s) G.opens.reads configured
          some_given ready in
      let size = G.message_size _ p.payload small (IsMessageTo-IsMessage P _ _ _ p.payload m) in
      let bare_size : length p.signature < 2 ^ 32 = rw bare (omega arith) in
      let (t, got) = opens size bare_size in
      rw got (
        rw
          (
            open_packet_gpg _ (readers keyid gp) _ (next_pin P b s ++ pwd) pwd own (text ++ 0 ∷ [])
                p t (deserialize-serialize P.msgpack S.packing p size bare_size) m among mine,
            handle,
          )
          refl)

  -- A text pasted with the parameters of GPG that name no recipient is what `get` returns for the
  -- address, with or without `--no-decrypt`, to a user that need not hold any key: if the paste
  -- succeeds, nothing was there under its pin, GpgME does not take the text for an encrypted one,
  -- the text has fewer than 2 ^ 31 bytes, and the libraries behave as documented.
  pub bin_get-bin_paste_clear :
      (b : Bin) (text uri : Bytes) (no_decrypt : Bool) (gp : GpgParameters) (s : Process P)
      → Sound P b
      → gp.recipients ≡ []
      → is_gpg_encrypted P text ≡ false
      → length text < 2 ^ 31
      → IsUnused P b text (some (gpg_parameters gp)) s
      → (bin_paste P b text (some (gpg_parameters gp)) s).0 ≡ ok uri
      → uri ≢ []
      → (bin_get P b uri no_decrypt (bin_paste P b text (some (gpg_parameters gp)) s).1).0
        ≡ ok (true, text)
  bin_get-bin_paste_clear b text uri no_decrypt gp s S none_given plain small unused h ne =
      let (p, pwd, ready, opens) =
        bin_paste-opens P b text uri (some (gpg_parameters gp)) no_decrypt s S unused h ne in
      let (clear, signature, e) =
        prepare_data-clear P b text pwd gp p (after_pin P b s) G.opens.reads none_given ready in
      let size : length p.payload < 2 ^ 32 = rw clear (omega (arith, small)) in
      let room = signature_lt text p.signature small signature in
      let (t, got) = opens size room in
      let l = (next_pin-IsPin P b s S.draw-lt).0 in
      rw got (
        rw
          (
            open_packet_clear b _ (next_pin P b s ++ pwd) pwd text no_decrypt p t
                (deserialize-serialize P.msgpack S.packing p size room) (rw clear plain)
                (rw e (short_code (next_pin P b s) l)) clear signature,
            handle,
          )
          refl)
