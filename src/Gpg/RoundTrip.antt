-- ===== src/Gpg/RoundTrip.antt =====
-- `GPG::processPlainText` and `GPG::processCipherText` of src/gpgcrypto.cpp, one after the other.
use mathlib.Core.List.{Memᴰ}
use dpaste.Prelude.{
  [], ◌∷◌, ◌++◌, List, Option, none, some, Bytes, codes, ◌≡◌, ◌≢◌, refl, inl, inr, Bool-cases,
}
use dpaste.Effects.{ok, follow, when, give, ◌>>◌}
use dpaste.Params.{GpgParameters, gpg_parameters}
use dpaste.Platform.{Platform, Process, Signature, key}
use dpaste.Log.{dpaste_msg}
use dpaste.Gpg.{
  Gpg, on_error, decrypt_and_verify, comment_on_signature, comment_on_first, gpg_process_plain_text,
  gpg_process_cipher_text,
}
use dpaste.Gpg.Data.{Reads, data_to_vector-all}
use dpaste.Gpg.Message.{readers, IsMessageTo, Found-key, gpg_process_plain_text-IsMessageTo}

module _ (P : Platform) where
  pub comment_on_first-ok :
      (signatures : List Signature) (s : Process P) → (comment_on_first P signatures s).0 ≡ ok tt
  unfolding comment_on_first comment_on_signature dpaste_msg
  comment_on_first-ok [] s = refl
  comment_on_first-ok (sig ∷ more) s = elim (Bool-cases sig.valid) [
    | inl e ↦ rw (e, when) refl
    | inr e ↦ rw (e, when) refl
  ]

  commented :
      (signatures : List Signature) (text : Bytes) (s : Process P)
      → ((do comment_on_first P signatures; give text) s).0 ≡ ok text
  commented signatures text s = rw (comment_on_first-ok signatures s, follow) refl

  decrypt_and_verify-ok :
      (o : Gpg P) (c : Bytes) (keys : List P.gpgme.Key) (text : Bytes) (u : Process P)
      → Reads P
      → o.ctx ≡ some keys
      → let opened = (P.gpgme.decrypt_verify c u.world).0 in
        (opened.plain_text ≡ text) × (opened.dec_error ≡ none) × (opened.verify_error ≡ none)
        → (decrypt_and_verify P o c u).0 ≡ ok (text, opened.signatures)
  unfolding decrypt_and_verify
  decrypt_and_verify-ok o c keys text u R k (t, d, v) =
      rw (k, decrypt_and_verify)
        (rw (d, on_error) (rw (v, on_error) (rw (data_to_vector-all P R, t) refl)))

module _ (P : Platform) (held : P.gpgme.Key → Type 0) where
  -- What is relied on of GpgME: a message made with no error is opened again, also with the
  -- null byte that the program adds to it, by a user that holds a key of a recipient.
  pub record Opens : Type 0 where
    pub reads : Reads P
    pub decrypt-encrypt :
        (signers : Option (List P.gpgme.Key)) (keys : List P.gpgme.Key) (k : P.gpgme.Key)
        (text : Bytes) (w u : P.World)
        → let message = (P.gpgme.encrypt signers keys text w).0 in
          let opened = (P.gpgme.decrypt_verify (message.cipher_text ++ 0 ∷ []) u).0 in
          Memᴰ k keys
          → held k
          → message.enc_error ≡ none
          → (opened.plain_text ≡ text) × (opened.dec_error ≡ none) × (opened.verify_error ≡ none)

  -- The user holds whatever key has this name.
  abbrev pub IsOwn : Bytes → Type 0
  IsOwn name = (k : P.gpgme.Key) (w : P.World) → P.gpgme.find_key name w ≡ key k → held k

  pub gpg_process_cipher_text-IsMessageTo :
      (o : Gpg P) (signers : Option (List P.gpgme.Key)) (names : List Bytes) (own text c : Bytes)
      (keys : List P.gpgme.Key) (u : Process P)
      → Opens
      → Memᴰ own names
      → IsOwn own
      → IsMessageTo P signers names text c
      → o.ctx ≡ some keys
      → (gpg_process_cipher_text P o c none u).0 ≡ ok text
  unfolding gpg_process_cipher_text dpaste_msg
  gpg_process_cipher_text-IsMessageTo o signers names own text c keys u S among mine
        (ks, w, f, e, m) made =
      let t = (dpaste_msg P (codes "Decrypting (gpg)...") u).1 in
      let (k, is_key, q) = Found-key P w names ks own f among in
      rw m (
        rw
          (
            decrypt_and_verify-ok P o _ keys text t S.reads made
                (S.decrypt-encrypt signers ks k text w u.world is_key (mine k w q) e),
            follow,
          )
          (commented P _ text _))

  -- A text that `processPlainText` encrypts, signed or not, is what `processCipherText` gives for the
  -- message to a user that holds the key of a recipient, or of the sender where he is to read it,
  -- but with a null byte at its end.
  pub gpg_process_cipher_text-gpg_process_plain_text :
      (g o : Gpg P) (text c own : Bytes) (keys : List P.gpgme.Key) (gp : GpgParameters)
      (s u : Process P)
      → Opens
      → Memᴰ own (readers g.signer_key gp)
      → IsOwn own
      → (gpg_process_plain_text P g text (some (gpg_parameters gp)) s).0 ≡ ok c
      → c ≢ []
      → o.ctx ≡ some keys
      → (gpg_process_cipher_text P o c none u).0 ≡ ok (text ++ 0 ∷ [])
  gpg_process_cipher_text-gpg_process_plain_text g o text c own keys gp s u S among mine h ne k =
      let (signers, m) = gpg_process_plain_text-IsMessageTo P g text c gp s S.reads h ne in
      gpg_process_cipher_text-IsMessageTo o signers (readers g.signer_key gp) own (text ++ 0 ∷ []) c
        keys u S among mine m k
