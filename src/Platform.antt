-- ===== src/Platform.antt =====
-- What the program does not implement: the libraries, the file system and the outside world, with
-- the values of variables that are read before they are set.
mod Crypto
mod Network
mod Packing
pub use Crypto.*
pub use Network.*
pub use Packing.*
use dpaste.Prelude.{Bool, Option, Bytes}
use dpaste.Params.{Garbage}
use dpaste.Pin.{Rng, Statics}
use dpaste.Effects.{M, Result, ok}

pub record Platform : Type 1 where
  pub World : Type 0
  pub rng : Rng
  pub msgpack : Msgpack
  pub gpgme : Gpgme World
  pub aes : Aes World
  pub http : Http World
  pub dht : Dht World
  -- The text of a file that can be opened, and `Glib::get_user_config_dir()`.
  pub disk : Bytes → Option Bytes
  pub config_dir : Bytes
  -- `PACKAGE_NAME` and `VERSION` of the generated config.h.
  pub package_name : Bytes
  pub version : Bytes
  pub garbage : Garbage

-- The program's own state that outlives a call, and its two output streams.
pub record Process (P : Platform) : Type 0 where
  pub world : P.World
  pub statics : Statics P.rng
  pub cipher_initialized : Bool
  pub gpg_initialized : Bool
  pub out : Bytes
  pub err : Bytes

module _ (P : Platform) where
  abbrev pub Do : Type 0 → Type 0
  Do A = M (Process P) A

  -- A call that changes the outside world, and one that only reads it.
  abbrev pub on_world : {A : Type 0} → (P.World → A × P.World) → Do A
  on_world f s = let r = f s.world in (ok r.0, record s { world = r.1 })

  abbrev pub change_world : (P.World → P.World) → Do (Unit {0})
  change_world f s = (ok tt, record s { world = f s.world })

  abbrev pub see_world : {A : Type 0} → (P.World → A) → Do A
  see_world f s = (ok (f s.world), s)
