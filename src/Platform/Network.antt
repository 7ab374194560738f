-- ===== src/Platform/Network.antt =====
-- The network libraries that the program calls: cURLpp, JSON for Modern C++, libb64 and OpenDHT.
use dpaste.Prelude.{ℕ, ℤ, Bool, List, Option, Bytes}

-- One transfer of `curlpp::Easy`: the port, the address, and the form fields of a POST.
pub record Request : Type 0 where
  pub port : ℤ
  pub url : Bytes
  pub form : Option (List (Bytes × Bytes))

-- `curlpp::LogicError`, `curlpp::RuntimeError`, or the status and the body.
pub data Reply : Type 0 where
  logic_error : Reply
  runtime_error : Reply
  response : ℕ → Bytes → Reply

pub record Http (World : Type 0) : Type 1 where
  pub perform : Request → World → Reply × World
  -- A value of `nlohmann::json`, and what is read of it.
  pub Json : Type 0
  pub parse : Bytes → Option Json
  pub is_empty : Json → Bool
  pub first : Json → Json
  -- `v["base64"]`, which throws where `v` is neither an object nor null.
  pub at_base64 : Json → Option Json
  pub dump : Json → Bytes
  -- `base64::decoder::decode`
  pub decode : Bytes → Bytes

-- `dht::Value`
pub record Value : Type 0 where
  pub blob : Bytes
  pub user_type : Bytes

pub record Dht (World : Type 0) : Type 0 where
  -- `DhtRunner::run` with a fresh identity, then `bootstrap`.
  pub run : ℕ → World → World
  pub bootstrap : Bytes → Bytes → World → World
  pub shutdown : World → World
  pub join : World → World
  -- `InfoHash::get(code)`, printed.
  pub info_hash : Bytes → Bytes
  -- The value that the done callback gets.
  pub put : Bytes → Value → World → Bool × World
  -- The values under a hash that have a user type, and whether the operation succeeded.
  pub get : Bytes → Bytes → World → (List Value × Bool) × World
  pub max_value_size : ℕ
