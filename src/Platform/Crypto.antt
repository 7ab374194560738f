-- ===== src/Platform/Crypto.antt =====
-- The encryption libraries that the program calls: GpgME, and the AES functions of OpenDHT. Each
-- call of an engine reads and changes the outside world.
use dpaste.Prelude.{ℕ, Bool, List, Option, Bytes}

-- A key that was looked up, or the error of the look-up.
pub data Lookup (K : Type 0) : Type 0 where
  key : K → Lookup K
  no_key : Bytes → Lookup K

-- `GpgME::Signature`: whether `summary() & Valid`, and the fingerprint.
pub record Signature : Type 0 where
  pub valid : Bool
  pub fingerprint : Bytes

-- What `encrypt` and `signAndEncrypt` write and report. A result that is null has no error.
pub record Encrypted : Type 0 where
  pub cipher_text : Bytes
  pub enc_error : Option Bytes
  pub sign_error : Option Bytes

pub record Decrypted : Type 0 where
  pub plain_text : Bytes
  pub dec_error : Option Bytes
  pub verify_error : Option Bytes
  pub signatures : List Signature

pub record Signed : Type 0 where
  pub signature : Bytes
  pub error : Option Bytes

pub record Verified : Type 0 where
  pub error : Option Bytes
  pub signatures : List Signature

pub record Gpgme (World : Type 0) : Type 1 where
  pub Key : Type 0
  -- `checkEngine`
  pub check_engine : World → Option Bytes
  -- Whether `createForProtocol` gives a context.
  pub has_context : World → Bool
  -- `Context::key(id, err, false)`
  pub find_key : Bytes → World → Lookup Key
  pub fingerprint : Key → Bytes
  -- The signing keys, unless nothing is signed; the recipients; the text.
  pub encrypt : Option (List Key) → List Key → Bytes → World → Encrypted × World
  pub decrypt_verify : Bytes → World → Decrypted × World
  pub sign : List Key → Bytes → World → Signed × World
  pub verify : Bytes → Bytes → World → Verified × World
  -- `Data::type() == PGPEncrypted`
  pub is_pgp_encrypted : Bytes → Bool
  -- How many bytes `Data::read` gives at most that many, with these unread.
  pub read_size : ℕ → Bytes → ℕ
  -- `Exception::what`, of an error and a message.
  pub what : Bytes → Bytes → Bytes

-- `dht::crypto::aesEncrypt` draws a salt and a nonce. `aesDecrypt` throws a `DecryptError`, here
-- an `Option` of the text, with the exception's message beside it.
pub record Aes (World : Type 0) : Type 0 where
  pub encrypt : Bytes → Bytes → World → Bytes × World
  pub decrypt : Bytes → Bytes → Option Bytes
  pub decrypt_message : Bytes
