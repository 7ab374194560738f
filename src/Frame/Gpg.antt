-- ===== src/Frame/Gpg.antt =====
-- The calls of src/gpgcrypto.cpp, and the predicates that they respect.
use dpaste.Prelude.{Bool, List, [], ◌∷◌, Option, none, some, Bytes, arith, Option-cases, inl, inr}
use dpaste.Params.{Parameters, gpg_parameters, aes_parameters}
use dpaste.Platform.{Platform, Process, Signature}
use dpaste.Log.{dpaste_msg}
use dpaste.Gpg.{
  Gpg, get_key, get_keys, make_gpg, encrypt_with, encrypt, decrypt_and_verify, sign, verify,
  comment_on_signature, comment_on_first, gpg_process_plain_text, gpg_process_cipher_text,
}
use dpaste.Frame.{View, At, Respects}

module _ {P : Platform} {W : View P → Type 0} (H : Respects P W) where
  get_key-Respects : (id : Bytes) (s : Process P) → At W s → At W (get_key P id s).1
  unfolding get_key
  get_key-Respects id s h = ground arith

  get_keys-Respects : (ids : List Bytes) (s : Process P) → At W s → At W (get_keys P ids s).1
  unfolding get_keys
  get_keys-Respects [] s h = ground arith
  get_keys-Respects (id ∷ ids) s h = ground (arith, get_keys-Respects ids s)

  pub make_gpg-Respects : (signer : Bytes) (s : Process P) → At W s → At W (make_gpg P signer s).1
  unfolding make_gpg
  make_gpg-Respects signer s h = ground (arith, get_key-Respects signer s)

  encrypt_with-Respects :
      (keys : List P.gpgme.Key) (ids : List Bytes) (text : Bytes) (b : Bool) (s : Process P)
      → At W s
      → At W (encrypt_with P keys ids text b s).1
  unfolding encrypt_with
  encrypt_with-Respects keys ids text b s h = grind (arith, get_keys-Respects, H.encrypt)

  encrypt-Respects :
      (g : Gpg P) (ids : List Bytes) (text : Bytes) (b : Bool) (s : Process P)
      → At W s
      → At W (encrypt P g ids text b s).1
  unfolding encrypt
  encrypt-Respects g ids text b s h = elim (Option-cases g.ctx) [
    | inl e ↦ ground arith
    | inr (keys, e) ↦ rw (e, encrypt) (ground (arith, encrypt_with-Respects keys ids text b s))
  ]

  decrypt_and_verify-Respects :
      (g : Gpg P) (text : Bytes) (s : Process P) → At W s → At W (decrypt_and_verify P g text s).1
  unfolding decrypt_and_verify
  decrypt_and_verify-Respects g text s h = grind (arith, H.decrypt_verify)

  pub sign-Respects : (g : Gpg P) (text : Bytes) (s : Process P) → At W s → At W (sign P g text s).1
  unfolding sign
  sign-Respects g text s h = grind (arith, H.sign)

  pub verify-Respects :
      (g : Gpg P) (signature text : Bytes) (s : Process P)
      → At W s
      → At W (verify P g signature text s).1
  unfolding verify
  verify-Respects g signature text s h = grind (arith, H.verify)

  pub comment_on_first-Respects :
      (sigs : List Signature) (s : Process P) → At W s → At W (comment_on_first P sigs s).1
  unfolding comment_on_first comment_on_signature dpaste_msg
  comment_on_first-Respects [] s h = ground arith
  comment_on_first-Respects (sig ∷ sigs) s h = ground arith

  pub gpg_process_plain_text-Respects :
      (g : Gpg P) (text : Bytes) (params : Option Parameters) (s : Process P)
      → At W s
      → At W (gpg_process_plain_text P g text params s).1
  unfolding gpg_process_plain_text dpaste_msg
  gpg_process_plain_text-Respects g text none s h = ground arith
  gpg_process_plain_text-Respects g text (some (aes_parameters p)) s h = ground arith
  gpg_process_plain_text-Respects g text (some (gpg_parameters p)) s h =
      grind (arith, encrypt-Respects)

  pub gpg_process_cipher_text-Respects :
      (g : Gpg P) (text : Bytes) (params : Option Parameters) (s : Process P)
      → At W s
      → At W (gpg_process_cipher_text P g text params s).1
  unfolding gpg_process_cipher_text dpaste_msg
  gpg_process_cipher_text-Respects g text params s h =
      grind (arith, decrypt_and_verify-Respects, comment_on_first-Respects)
