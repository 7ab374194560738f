-- ===== src/Store.antt =====
-- What the calls below `main` do to the outside world, as far as a client of the stores sees it: a
-- predicate of the world that no library call breaks but, perhaps, one that puts a value.
pub mod Posts
pub mod Board
pub mod Refinement
use dpaste.Prelude.{List, Option, Bytes}
use dpaste.Platform.{Platform}
use dpaste.Http.{HttpClient, get_request, put_request}
use dpaste.Node.{dpaste_user_type, new_value}
use dpaste.Frame.{Respects, RespectsPut}

module _ (P : Platform) where
  -- The calls that encrypt and decrypt, and those that ask a store, keep the predicate.
  pub record Steady (W : P.World → Type 0) : Type 0 where
    pub encrypt :
        (signers : Option (List P.gpgme.Key)) (keys : List P.gpgme.Key) (text : Bytes) (w : P.World)
        → W w
        → W (P.gpgme.encrypt signers keys text w).1
    pub decrypt_verify : (text : Bytes) (w : P.World) → W w → W (P.gpgme.decrypt_verify text w).1
    pub sign :
        (keys : List P.gpgme.Key) (text : Bytes) (w : P.World)
        → W w
        → W (P.gpgme.sign keys text w).1
    pub verify :
        (signature text : Bytes) (w : P.World) → W w → W (P.gpgme.verify signature text w).1
    pub aes_encrypt : (text pwd : Bytes) (w : P.World) → W w → W (P.aes.encrypt text pwd w).1
    pub ask :
        (c : HttpClient) (code : Bytes) (w : P.World)
        → W w
        → W (P.http.perform (get_request P c code) w).1
    pub search :
        (code : Bytes) (w : P.World)
        → W w
        → W (P.dht.get (P.dht.info_hash code) dpaste_user_type w).1

  -- So do those that put a value under this code.
  pub record Spared (W : P.World → Type 0) (c : HttpClient) (code : Bytes) : Type 0 where
    pub put_server :
        (blob : Bytes) (w : P.World) → W w → W (P.http.perform (put_request P c code blob) w).1
    pub put_table :
        (blob : Bytes) (w : P.World)
        → W w
        → W (P.dht.put (P.dht.info_hash code) (new_value P blob) w).1

module _ {P : Platform} {W : P.World → Type 0} where
  -- Such a predicate is one that the calls respect.
  pub Steady-Respects : Steady P W → Respects P (λ v. W v.0)
  Steady-Respects S = record {
    draw = λ w v o c g h. h;
    encrypt = λ signers keys text w v o c g h. S.encrypt signers keys text w h;
    decrypt_verify = λ text w v o c g h. S.decrypt_verify text w h;
    sign = λ keys text w v o c g h. S.sign keys text w h;
    verify = λ signature text w v o c g h. S.verify signature text w h;
    aes_encrypt = λ text pwd w v o c g h. S.aes_encrypt text pwd w h;
    ask = λ client code w v o c g h. S.ask client code w h;
    search = λ code w v o c g h. S.search code w h;
  }

  pub Spared-RespectsPut :
      (client : HttpClient) (code : Bytes)
      → Spared P W client code
      → RespectsPut P (λ v. W v.0) client code
  Spared-RespectsPut client code S = record {
    put_server = λ blob w v o c g h. S.put_server blob w h;
    put_table = λ blob w v o c g h. S.put_table blob w h;
  }
