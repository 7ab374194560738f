-- ===== src/Params.antt =====
-- The types of src/cipher.h: the schemes, and the parameters of a cipher.
use dpaste.Prelude.{ℤ, Bool, List, Option, none, some, Bytes}
use dpaste.Effects.{Result, ok, throw, bad_variant_access}

-- `Cipher::Scheme`
pub data Scheme : Type 0 where
  no_scheme gpg_scheme aes_scheme : Scheme

pub record GpgParameters : Type 0 where
  pub key_id : Bytes
  pub recipients : List Bytes
  pub self_recipient : Bool
  pub sign : Bool

pub record AesParameters : Type 0 where
  pub password : Bytes

-- `std::variant<GPGParameters, AESParameters>`
pub data Parameters : Type 0 where
  gpg_parameters : GpgParameters → Parameters
  aes_parameters : AesParameters → Parameters

-- The values that the program reads from variables it never set: the scheme of `prepare_data`, a
-- `bool` member of `GPGParameters`, the port of `Bin::Bin`, and the flag `done` of `Node::paste`,
-- with `late` for the order of that function's two threads. A scheme that is none of the three acts
-- as `no_scheme`.
pub record Garbage : Type 0 where
  pub scheme : Scheme
  pub flag : Bool
  pub port : ℤ
  pub done : Bool
  pub late : Bool

-- The constructor of one string leaves both flags unset.
abbrev pub gpg_of_key : Garbage → Bytes → GpgParameters
gpg_of_key g key_id = record {
  key_id = key_id;
  recipients = List.[];
  self_recipient = g.flag;
  sign = g.flag;
}

-- `std::get_if<GPGParameters>(p)`, on a pointer that may be empty.
abbrev pub get_if_gpg : Option Parameters → Option GpgParameters
get_if_gpg (some (gpg_parameters g)) = some g
get_if_gpg _ = none

abbrev pub get_if_aes : Option Parameters → Option AesParameters
get_if_aes (some (aes_parameters a)) = some a
get_if_aes _ = none

-- `std::get<GPGParameters>(v)`
abbrev pub get_gpg : Parameters → Result GpgParameters
get_gpg (gpg_parameters g) = ok g
get_gpg (aes_parameters a) = throw bad_variant_access
