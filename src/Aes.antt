-- ===== src/Aes.antt =====
-- src/aescrypto.h and src/aescrypto.cpp
use dpaste.Prelude.{ℕ, Option, none, some, [], Bytes, codes}
use dpaste.Effects.{Result, ok, throw, decrypt_error, ◌>>◌, lift}
use dpaste.Params.{Parameters, get_if_aes}
use dpaste.Platform.{Platform, Do, on_world}
use dpaste.Log.{dpaste_msg}

abbrev pub pin_with_pass_len : ℕ
pin_with_pass_len = 16

abbrev pub code_pass_offset : ℕ
code_pass_offset = 4

unfoldable pub get_password : Option Parameters → Bytes
get_password params = elim (get_if_aes params) [ none ↦ [] | some p ↦ p.password ]

module _ (P : Platform) where
  -- `dht::crypto::aesDecrypt`
  abbrev pub aes_decrypt : Bytes → Bytes → Result Bytes
  aes_decrypt cipher_text password = elim (P.aes.decrypt cipher_text password) [
    | none ↦ throw (decrypt_error P.aes.decrypt_message)
    | some text ↦ ok text
  ]

  unfoldable pub aes_process_plain_text : Bytes → Option Parameters → Do P Bytes
  unfolding get_password
  aes_process_plain_text plain_text params = do
    dpaste_msg P (codes "Encrypting (aes-gcm) data...")
    on_world P (P.aes.encrypt plain_text (get_password params))

  unfoldable pub aes_process_cipher_text : Bytes → Option Parameters → Do P Bytes
  unfolding get_password
  aes_process_cipher_text cipher_text params = do
    dpaste_msg P (codes "Decrypting (aes-gcm)...")
    lift (aes_decrypt cipher_text (get_password params))
