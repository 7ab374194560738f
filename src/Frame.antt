-- ===== src/Frame.antt =====
-- What the calls below `main` may change: predicates of the process that they respect, whatever they
-- return or throw.
pub mod Gpg
pub mod Bin
pub mod Kept
pub mod Session
use dpaste.Prelude.{Bool, List, Option, Bytes}
use dpaste.Pin.{Statics, random_pin}
use dpaste.Platform.{Platform, Process}
use dpaste.Http.{HttpClient, get_request, put_request}
use dpaste.Node.{dpaste_user_type, new_value}

module _ (P : Platform) where
  -- A process, but for its error stream.
  abbrev pub View : Type 0
  View = P.World × Statics P.rng × Bytes × Bool × Bool

abbrev pub At : {P : Platform} → (View P → Type 0) → Process P → Type 0
At W s = W (s.world, s.statics, s.out, s.cipher_initialized, s.gpg_initialized)

module _ (P : Platform) where
  -- The predicate survives the drawing of a pin, each call that encrypts, decrypts, signs or
  -- verifies, and each that asks a store.
  pub record Respects (W : View P → Type 0) : Type 0 where
    pub draw :
        (w : P.World) (v : Statics P.rng) (o : Bytes) (c g : Bool)
        → W (w, v, o, c, g)
        → W (w, (random_pin P.rng v).1, o, c, g)
    pub encrypt :
        (signers : Option (List P.gpgme.Key)) (keys : List P.gpgme.Key) (text : Bytes) (w : P.World)
        (v : Statics P.rng) (o : Bytes) (c g : Bool)
        → W (w, v, o, c, g)
        → W ((P.gpgme.encrypt signers keys text w).1, v, o, c, g)
    pub decrypt_verify :
        (text : Bytes) (w : P.World) (v : Statics P.rng) (o : Bytes) (c g : Bool)
        → W (w, v, o, c, g)
        → W ((P.gpgme.decrypt_verify text w).1, v, o, c, g)
    pub sign :
        (keys : List P.gpgme.Key) (text : Bytes) (w : P.World) (v : Statics P.rng) (o : Bytes)
        (c g : Bool)
        → W (w, v, o, c, g)
        → W ((P.gpgme.sign keys text w).1, v, o, c, g)
    pub verify :
        (signature text : Bytes) (w : P.World) (v : Statics P.rng) (o : Bytes) (c g : Bool)
        → W (w, v, o, c, g)
        → W ((P.gpgme.verify signature text w).1, v, o, c, g)
    pub aes_encrypt :
        (text pwd : Bytes) (w : P.World) (v : Statics P.rng) (o : Bytes) (c g : Bool)
        → W (w, v, o, c, g)
        → W ((P.aes.encrypt text pwd w).1, v, o, c, g)
    pub ask :
        (h : HttpClient) (code : Bytes) (w : P.World) (v : Statics P.rng) (o : Bytes) (c g : Bool)
        → W (w, v, o, c, g)
        → W ((P.http.perform (get_request P h code) w).1, v, o, c, g)
    pub search :
        (code : Bytes) (w : P.World) (v : Statics P.rng) (o : Bytes) (c g : Bool)
        → W (w, v, o, c, g)
        → W ((P.dht.get (P.dht.info_hash code) dpaste_user_type w).1, v, o, c, g)

  -- And those that put a value under this code.
  pub record RespectsPut (W : View P → Type 0) (h : HttpClient) (code : Bytes) : Type 0 where
    pub put_server :
        (blob : Bytes) (w : P.World) (v : Statics P.rng) (o : Bytes) (c g : Bool)
        → W (w, v, o, c, g)
        → W ((P.http.perform (put_request P h code blob) w).1, v, o, c, g)
    pub put_table :
        (blob : Bytes) (w : P.World) (v : Statics P.rng) (o : Bytes) (c g : Bool)
        → W (w, v, o, c, g)
        → W ((P.dht.put (P.dht.info_hash code) (new_value P blob) w).1, v, o, c, g)
