-- ===== src/Tests/Toy.antt =====
-- A platform on which the program can run: a server and a table that keep what is put, a counter for
-- a generator, and a cipher that marks its texts.
use dpaste.Prelude.{
  ℕ, ◌+◌, ◌%◌, ◌^◌, ◌<◌, Bool, true, false, List, [], ◌∷◌, ◌++◌, Option, none, some, Bytes, codes,
  equal, equal_refl, is_empty, length, take, ◌≡◌, refl, inl, inr, arith, ◌==◌, if◌then◌else◌, pos,
  min,
}
use dpaste.Effects.{ok}
use dpaste.Params.{Scheme, no_scheme}
use dpaste.Pin.{Rng, Statics}
use dpaste.Platform.{
  Platform, Process, Value, Gpgme, Aes, Http, Dht, Request, Reply, response, key, no_key,
}
use dpaste.Http.{read_body}
use dpaste.Bin.{Bin}
use dpaste.Bin.Published.{Sound}
use dpaste.Bin.Secret.{AesSound}
use dpaste.Bin.Store.{Keeps, IsFree}
use dpaste.Tests.ToyPacking.{toy_packing, toy_packing-IsLawful}

-- The texts that the server has, by their addresses, and those of the table, by their hashes behind a
-- number sign, which starts no address.
abbrev pub World : Type 0
World = List (Bytes × Bytes)

unfoldable pub stored : Bytes → World → Bytes
stored url [] = []
stored url ((k, v) ∷ w) = if equal k url then v else stored url w

abbrev pub query : Bytes
query = codes "?user_type=dpaste"

abbrev pub form_data : List (Bytes × Bytes) → Bytes
form_data (a ∷ (name, v) ∷ r) = v
form_data _ = []

-- A POST keeps the text under its address, and a GET at that address with the query gives it.
unfoldable pub serve : Request → World → Reply × World
serve r w = elim r.form [
  | some fields ↦ (response 200 [], (r.url ++ query, form_data fields) ∷ w)
  | none ↦ (response 200 (stored r.url w), w)
]

abbrev pub after_mark : ℕ → Bytes → Option Bytes
after_mark mark [] = none
after_mark mark (c ∷ text) = if c == mark then some text else none

abbrev pub has_mark : ℕ → Bytes → Bool
has_mark mark [] = false
has_mark mark (c ∷ text) = c == mark

-- The values of the table under a hash.
unfoldable pub kept : Bytes → World → List Value
kept hash [] = []
kept hash ((k, v) ∷ w) =
    let rest = kept hash w in
    if equal k (b'#' ∷ hash) then record { blob = v; user_type = codes "dpaste" } ∷ rest else rest

-- A message is a mark, the size of the text, and the text.
abbrev pub toy_message : Bytes → Bytes
toy_message text = 254 ∷ length text ∷ text

abbrev pub toy_open : Bytes → Bytes
toy_open (mark ∷ n ∷ text) = take n text
toy_open _ = []

abbrev pub toy_gpgme : Gpgme World
toy_gpgme = record {
  Key = Bytes;
  check_engine = λ w. none;
  has_context = λ w. true;
  find_key = λ id w. if is_empty id then no_key (codes "no key") else key id;
  fingerprint = λ k. k;
  encrypt = λ signers keys text w.
      (record { cipher_text = toy_message text; enc_error = none; sign_error = none }, w);
  decrypt_verify = λ text w. (
    record { plain_text = toy_open text; dec_error = none; verify_error = none; signatures = [] },
    w,
  );
  sign = λ keys text w. (record { signature = codes "signed"; error = none }, w);
  verify = λ signature text w. (
    record { error = none; signatures = record { valid = true; fingerprint = codes "ABCD" } ∷ [] },
    w,
  );
  is_pgp_encrypted = has_mark 254;
  read_size = λ n unread. min n (length unread);
  what = λ error message. message ++ error;
}

abbrev pub toy_aes : Aes World
toy_aes = record {
  encrypt = λ text pwd w. (255 ∷ text, w);
  decrypt = λ text pwd. after_mark 255 text;
  decrypt_message = codes "Can't decrypt data";
}

abbrev pub toy_http : Http World
toy_http = record {
  perform = serve;
  Json = Bytes;
  parse = λ body. some body;
  is_empty = λ v. is_empty v;
  first = λ v. v;
  at_base64 = λ v. some v;
  dump = λ v. v;
  decode = λ text. text;
}

abbrev pub toy_dht : Dht World
toy_dht = record {
  run = λ port w. w;
  bootstrap = λ host port w. w;
  shutdown = λ w. w;
  join = λ w. w;
  info_hash = λ code. code;
  put = λ hash v w. (true, (b'#' ∷ hash, v.blob) ∷ w);
  get = λ hash user_type w. ((kept hash w, true), w);
  max_value_size = 65536;
}

abbrev pub toy_rng : Rng
toy_rng = record { Engine = ℕ; Seed = ℕ; seeded = λ seed. seed; draw = λ e. (e % 2 ^ 32, e + 1) }

abbrev pub toy_with : Scheme → Platform
toy_with scheme = record {
  World = World;
  rng = toy_rng;
  msgpack = toy_packing;
  gpgme = toy_gpgme;
  aes = toy_aes;
  http = toy_http;
  dht = toy_dht;
  disk = λ path. none;
  config_dir = codes "/home/me/.config";
  package_name = codes "dpaste";
  version = codes "0.3.3";
  garbage = record { scheme = scheme; flag = false; port = pos 0; done = false; late = true };
}

abbrev pub toy : Platform
toy = toy_with no_scheme

-- The seed is the number of the pin 74236E62.
abbrev pub toy_start : (P : Platform) → P.World → Statics P.rng → Process P
toy_start P w statics = record {
  world = w;
  statics = statics;
  cipher_initialized = false;
  gpg_initialized = false;
  out = [];
  err = [];
}

abbrev pub start : Process toy
start = toy_start toy [] (record { rand = 0; seed = 0x74236e62; initialized = false })

abbrev pub toy_bin : Bin
toy_bin = record {
  conf =
      (codes "host", codes "127.0.0.1")
      ∷ (codes "port", codes "6509")
      ∷ (codes "pgp_key_id", codes "ABCD")
      ∷ [];
  http_client = record { host = codes "127.0.0.1"; port = pos 6509 };
  node = record { running = true };
}

stored_head : (k v : Bytes) (w : World) → stored k ((k, v) ∷ w) ≡ v
unfolding stored
stored_head k v w = rw equal_refl

toy_draw-lt : (e : ℕ) → e % 2 ^ 32 < 2 ^ 32
toy_draw-lt e = omega arith

kept_head :
    (hash v : Bytes) (w : World)
    → kept hash ((b'#' ∷ hash, v) ∷ w)
      ≡ record { blob = v; user_type = codes "dpaste" } ∷ kept hash w
unfolding kept
kept_head hash v w = rw equal_refl

-- Another value of the table is nothing to the server.
pub stored_kept :
    (url hash v : Bytes) (w : World)
    → stored (b'h' ∷ url) ((b'#' ∷ hash, v) ∷ w) ≡ stored (b'h' ∷ url) w
unfolding stored equal
stored_kept url hash v w = refl

read_stored : (s : Process toy) (v : Bytes) → read_body toy v s ≡ (ok v, s)
unfolding read_body
read_stored s [] = refl
read_stored s (x ∷ v) = refl

pub toy-Keeps : Keeps toy toy_bin.http_client
unfolding serve
toy-Keeps = record {
  server_keeps = λ code blob w free h. inl (λ s. rw stored_head (read_stored s blob));
  table_keeps = λ code blob w free h.
      inr ((λ s. rw (stored_kept _ code blob w) (free.0 s)), rw kept_head refl);
}

-- Nothing is in the stores at the start.
pub toy-IsFree : (code blob : Bytes) → IsFree toy toy_bin.http_client [] code blob
unfolding serve stored kept read_body
toy-IsFree code blob = ((λ s. refl, refl), λ h. cc)

pub toy-Sound : Sound toy toy_bin
toy-Sound = record { draw-lt = toy_draw-lt; packing = toy_packing-IsLawful; keeps = toy-Keeps }

pub toy-AesSound : AesSound toy
toy-AesSound = record {
  decrypt-encrypt = λ text pwd w. refl;
  encrypt-full = λ text pwd w. refl;
  encrypt-size = λ text pwd w h. omega arith;
}
