-- ===== src/Cipher.antt =====
-- src/cipher.h and src/cipher.cpp: the choice of a cipher, and its virtual methods.
pub mod Init
use dpaste.Prelude.{List, true, false, Option, none, some, Bytes, length, ◌==◌}
use dpaste.Effects.{ok, ◌>>=◌, ◌>>◌, give}
use dpaste.Params.{Scheme, no_scheme, gpg_scheme, aes_scheme, Parameters, get_if_gpg}
use dpaste.Platform.{Platform, Do}
use dpaste.Aes.{pin_with_pass_len, aes_process_plain_text, aes_process_cipher_text}
use dpaste.Gpg.{
  Gpg, make_gpg, gpg_init, is_gpg_encrypted, gpg_process_plain_text, gpg_process_cipher_text,
}

module _ (P : Platform) where
  -- The subclasses of `Cipher`.
  pub data Cipher : Type 0 where
    gpg_cipher : Gpg P → Cipher
    aes_cipher : Cipher

  -- `Cipher::init`
  unfoldable pub cipher_init : Do P (Unit {0})
  cipher_init s = elim s.cipher_initialized [
    | true ↦ (ok tt, s)
    | false ↦ (do gpg_init P; λ t. (ok tt, record t { cipher_initialized = true })) s
  ]

  -- `Cipher::get(cipher_text, pin)`
  unfoldable pub cipher_of_text : Bytes → Bytes → Do P (Option Cipher)
  cipher_of_text cipher_text pin = elim (is_gpg_encrypted P cipher_text) [
    | true ↦ do g ← make_gpg P List.[]; give (some (gpg_cipher g))
    | false ↦ elim (length pin == pin_with_pass_len) [
      | true ↦ give (some aes_cipher)
      | false ↦ give none
    ]
  ]

  -- `Cipher::get(scheme, params)`
  unfoldable pub cipher_of_scheme : Scheme → Option Parameters → Do P (Option Cipher)
  cipher_of_scheme aes_scheme params = give (some aes_cipher)
  cipher_of_scheme gpg_scheme params = elim (get_if_gpg params) [
    | some p ↦ do g ← make_gpg P p.key_id; give (some (gpg_cipher g))
    | none ↦ do g ← make_gpg P List.[]; give (some (gpg_cipher g))
  ]
  cipher_of_scheme no_scheme params = give none

  unfoldable pub process_plain_text : Cipher → Bytes → Option Parameters → Do P Bytes
  process_plain_text (gpg_cipher g) text params = gpg_process_plain_text P g text params
  process_plain_text aes_cipher text params = aes_process_plain_text P text params

  unfoldable pub process_cipher_text : Cipher → Bytes → Option Parameters → Do P Bytes
  process_cipher_text (gpg_cipher g) text params = gpg_process_cipher_text P g text params
  process_cipher_text aes_cipher text params = aes_process_cipher_text P text params
