-- ===== src/Bin.antt =====
-- src/bin.h and src/bin.cpp: publishing a text under a fresh pin, and getting it back.
pub mod Store
pub mod Published
pub mod RoundTrip
pub mod Secret
pub mod Configured
pub mod Errors
pub mod Refused
pub mod Causes
pub mod Outcomes
pub mod Reading
pub mod Readable
pub mod Forged
pub mod Sealed
pub mod Made
pub mod Port
pub mod Recipients
pub mod Stream
pub mod Paste
pub mod Start
pub mod Unknown
use dpaste.Prelude.{
  ℕ, ℤ, zero, suc, ◌+◌, ◌-◌, ◌*◌, ◌^◌, pos, negsuc, Bool, true, false, not, ◌&&◌, ◌||◌, List, [],
  ◌∷◌, ◌++◌, Option, none, some, Bytes, codes, is_empty, leb, ltb, ◌==◌, if◌then◌else◌, take,
}
use dpaste.Effects.{
  Exception, out_of_range, gpgme_error, decrypt_error, type_error, null_pointer, Result, ok, throw,
  ◌>>=◌, ◌>>◌, give, fail, lift, try_catch,
}
use dpaste.Conf.{ConfigurationFile, Config, lookup, make_file, load}
use dpaste.Params.{
  Scheme, gpg_scheme, aes_scheme, Parameters, gpg_parameters, aes_parameters, GpgParameters,
  gpg_of_key,
}
use dpaste.Pin.{random_pin}
use dpaste.Uri.{dpaste_uri_prefix, code_from_dpaste_uri, substr}
use dpaste.Platform.{Platform, Process, Do, Signature}
use dpaste.Log.{dpaste_msg}
use dpaste.Aes.{code_pass_offset}
use dpaste.Gpg.{Gpg, sign, verify, comment_on_first}
use dpaste.Cipher.{
  Cipher, gpg_cipher, aes_cipher, cipher_of_text, cipher_of_scheme, process_plain_text,
  process_cipher_text,
}
use dpaste.Http.{HttpClient, http_get, http_put}
use dpaste.Node.{
  Node, new_node, node_run, node_get, node_paste, default_bootstrap_node, default_bootstrap_port,
}
use dpaste.Packet.{Packet, serialize, deserialize}

pub record Bin : Type 0 where
  pub conf : Config
  pub http_client : HttpClient
  pub node : Node

abbrev pub is_space : ℕ → Bool
is_space c = c == 32 || (leb 9 c && leb c 13)

abbrev pub is_digit : ℕ → Bool
is_digit c = leb b'0' c && leb c b'9'

-- The number in front of the text, from the digits read so far.
unfoldable pub read_digits : ℕ → Bytes → ℕ
read_digits n [] = n
read_digits n (c ∷ s) =
    let rest = read_digits (n * 10 + (c - b'0')) s in if is_digit c then rest else n

-- A `long` of 64 bits; what does not fit becomes the nearest `long`.
abbrev pub to_long : Bool → ℕ → ℤ
to_long false n = if ltb n (2 ^ 63) then pos n else pos (2 ^ 63 - 1)
to_long true zero = pos 0
to_long true (suc n) = if ltb n (2 ^ 63) then negsuc n else negsuc (2 ^ 63 - 1)

-- `conv >> port`: white space, a sign, digits. Where nothing but white space is there, `port` stays
-- as it was; otherwise, without digits, the result is 0.
unfoldable pub read_long : ℤ → Bytes → ℤ
unfolding read_digits
read_long unset [] = unset
read_long unset (c ∷ s) =
    let rest = read_long unset s in
    if is_space c
    then rest
    else if c == b'-'
    then to_long true (read_digits 0 s)
    else if c == b'+'
    then to_long false (read_digits 0 s)
    else to_long false (read_digits 0 (c ∷ s))

-- `conf_.at(key)`
unfoldable pub conf_at : Config → Bytes → Result Bytes
unfolding lookup
conf_at c k = elim (lookup k c) [ none ↦ throw out_of_range | some v ↦ ok v ]

module _ (P : Platform) where
  -- The configuration of the constructor.
  unfoldable pub loaded_config : Config
  unfolding load make_file
  loaded_config = (load P.disk (make_file P.config_dir [])).1.config

  -- `Bin::Bin`
  unfoldable pub make_bin : Do P Bin
  make_bin = do
    port_text ← lift (conf_at loaded_config (codes "port"))
    node ← node_run P new_node 0 default_bootstrap_node default_bootstrap_port
    host ← lift (conf_at loaded_config (codes "host"))
    give (record {
      conf = loaded_config;
      http_client = record { host = host; port = read_long P.garbage.port port_text };
      node = node;
    })

  unfoldable pub fresh_pin : Do P Bytes
  fresh_pin s = let r = random_pin P.rng s.statics in (ok r.0, record s { statics = r.1 })

  -- `data_from_stream`, on the text of the stream.
  unfoldable pub data_from_stream : Bytes → Bytes
  data_from_stream input = take P.dht.max_value_size input

  abbrev pub front_or : List Bytes → Bytes → Bytes
  front_or [] other = other
  front_or (b ∷ bs) other = b

  -- The server first, then the local node.
  unfoldable pub fetch : Bin → Bytes → Do P Bytes
  fetch b lcode = do
    data_str ← http_get P b.http_client lcode
    elim (is_empty data_str) [
      | false ↦ give data_str
      | true ↦ do values ← node_get P lcode; give (front_or values data_str)
    ]

  abbrev pub decrypt_params : Cipher P → Bytes → Option Parameters
  decrypt_params aes_cipher pwd = some (aes_parameters (record { password = pwd }))
  decrypt_params (gpg_cipher g) pwd = none

  abbrev pub decrypt : Option (Cipher P) → Packet → Bytes → Bool → Do P Bytes
  decrypt (some c) p pwd false = process_cipher_text P c p.payload (decrypt_params c pwd)
  decrypt (some c) p pwd true = give p.payload
  decrypt none p pwd no_decrypt = give p.payload

  -- A call through an empty pointer where the cast gives none.
  abbrev as_gpg : Option (Cipher P) → Do P (Gpg P)
  as_gpg (some (gpg_cipher g)) = give g
  as_gpg (some aes_cipher) = fail null_pointer
  as_gpg none = fail null_pointer

  unfoldable pub check_signature : Bytes → Bytes → Do P (Unit {0})
  check_signature signature text = do
    cipher ← cipher_of_scheme P gpg_scheme none
    gc ← as_gpg cipher
    dpaste_msg P (codes "Data is GPG signed. Verifying...")
    signatures ← verify P gc signature text
    comment_on_first P signatures

  abbrev pub check : Option (Cipher P) → Packet → Bytes → Do P (Unit {0})
  check (some c) p text = give tt
  check none p text = elim (is_empty p.signature) [
    | true ↦ give tt
    | false ↦ check_signature p.signature text
  ]

  -- The body of the `try` block of `get`.
  unfoldable pub open_packet : Bytes → Bytes → Bytes → Bool → Do P (Bool × Bytes)
  open_packet blob code pwd no_decrypt = do
    p ← lift (deserialize P.msgpack blob)
    cipher ← cipher_of_text P p.payload code
    text ← decrypt cipher p pwd no_decrypt
    check cipher p text
    give (true, text)

  -- Its handlers; `blob` is what was fetched.
  abbrev pub recover : Bytes → Exception → Do P (Bool × Bytes)
  recover blob (gpgme_error e m) = do dpaste_msg P (P.gpgme.what e m); give (false, [])
  recover blob (decrypt_error m) = do dpaste_msg P m; give (false, [])
  recover blob type_error = give (true, blob)
  recover blob e = fail e

  -- `Bin::get`
  unfoldable pub bin_get : Bin → Bytes → Bool → Do P (Bool × Bytes)
  bin_get b uri no_decrypt = do
    code ← lift (code_from_dpaste_uri uri)
    pwd ← lift (substr code (code_pass_offset * 2))
    blob ← fetch b (take (code_pass_offset * 2) code)
    elim (is_empty blob) [
      | true ↦ give (true, blob)
      | false ↦ try_catch (open_packet blob code pwd no_decrypt) (recover blob)
    ]

  -- What the parameters say: the scheme, the parameters to initialise a cipher with, those to
  -- encrypt with, the password, and whether to sign.
  pub record Plan : Type 0 where
    pub scheme : Scheme
    pub init_params : Option Parameters
    pub params : Option Parameters
    pub pwd : Bytes
    pub to_sign : Bool

  -- With no parameters the scheme is never set.
  unfoldable pub make_plan : Config → Option Parameters → Do P Plan
  make_plan conf none = give (record {
    scheme = P.garbage.scheme;
    init_params = none;
    params = none;
    pwd = [];
    to_sign = false;
  })
  make_plan conf (some (gpg_parameters gp)) = do
    keyid ← lift (conf_at conf (codes "pgp_key_id"))
    give (record {
      scheme = gpg_scheme;
      init_params = some (gpg_parameters (gpg_of_key P.garbage keyid));
      params = some (gpg_parameters gp);
      pwd = [];
      to_sign = gp.sign && not (is_empty keyid);
    })
  make_plan conf (some (aes_parameters ap)) = do
    pwd ← fresh_pin
    give (record {
      scheme = aes_scheme;
      init_params = none;
      params = some (aes_parameters (record { password = pwd }));
      pwd = pwd;
      to_sign = false;
    })

  abbrev plain_packet : Bytes → Packet
  plain_packet text = record { payload = text; signature = [] }

  abbrev sign_packet : Cipher P → Bytes → Do P Packet
  sign_packet c text = do
    dpaste_msg P (codes "Signing data...")
    g ← as_gpg (some c)
    signature ← sign P g text
    give (record { payload = text; signature = signature })

  unfoldable pub make_packet : Option (Cipher P) → Bytes → Plan → Do P Packet
  make_packet none text plan = give (plain_packet text)
  make_packet (some c) text plan = do
    cipher_text ← process_plain_text P c text plan.params
    elim (is_empty cipher_text) [
      | false ↦ give (plain_packet cipher_text)
      | true ↦ elim plan.to_sign [ true ↦ sign_packet c text | false ↦ give (plain_packet text) ]
    ]

  -- `Bin::prepare_data`
  unfoldable pub prepare_data : Bin → Bytes → Option Parameters → Do P (Packet × Bytes)
  prepare_data b text params = do
    plan ← make_plan b.conf params
    cipher ← cipher_of_scheme P plan.scheme plan.init_params
    p ← make_packet cipher text plan
    give (p, plan.pwd)

  -- The server first, then the local node.
  unfoldable pub publish : Bin → Bytes → Bytes → Do P Bool
  publish b code blob = do
    success ← http_put P b.http_client code blob
    elim success [ true ↦ give true | false ↦ node_paste P code blob ]

  -- `Bin::paste`
  unfoldable pub bin_paste : Bin → Bytes → Option Parameters → Do P Bytes
  bin_paste b text params = do
    code ← fresh_pin
    pp ← prepare_data b text params
    dpaste_msg P (codes "Pasting data...")
    success ← publish b code (serialize P.msgpack pp.0)
    give (if success then dpaste_uri_prefix ++ (code ++ pp.1) else [])

  -- `Bin::paste` of a stream.
  unfoldable pub bin_paste_stream : Bin → Bytes → Option Parameters → Do P Bytes
  bin_paste_stream b input params = bin_paste b (data_from_stream input) params
