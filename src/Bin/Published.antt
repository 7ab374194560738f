-- ===== src/Bin/Published.antt =====
-- The steps of `Bin::paste` and `Bin::get` of src/bin.cpp, alone and one after the other.
use dpaste.Prelude.{
  ◌<◌, ◌^◌, Bool, true, false, [], ◌∷◌, ◌++◌, Option, none, some, Bytes, codes, is_empty, length,
  take, take-append, ◌≡◌, ◌≢◌, refl, sym, ap, ◌∙◌, ◌==◌, if◌then◌else◌,
}
use dpaste.Effects.{Result, ok, throw, follow, give, try_catch}
use dpaste.Params.{no_scheme, Parameters}
use dpaste.Uri.{dpaste_uri_prefix, code_from_dpaste_uri, substr}
use dpaste.Uri.Laws.{code-of_prefixed, substr_split}
use dpaste.Platform.{Platform, Process, IsLawful}
use dpaste.Log.{dpaste_msg}
use dpaste.Gpg.{is_gpg_encrypted}
use dpaste.Cipher.{aes_cipher, cipher_of_text, cipher_of_scheme}
use dpaste.Packet.{Packet, serialize, deserialize}
use dpaste.Packet.Laws.{serialize-full}
use dpaste.Bin.{
  Bin, fetch, open_packet, recover, bin_get, fresh_pin, make_plan, make_packet, prepare_data,
  publish, bin_paste,
}
use dpaste.Bin.Store.{Keeps, Answers, IsFree, fetch-Answers, publish-Answers}

module _ (P : Platform) (b : Bin) where
  -- The draws stay in the range of the distribution.
  abbrev pub InRange : Type 0
  InRange = (e : P.rng.Engine) → (P.rng.draw e).0 < 2 ^ 32

  -- They do, msgpack reads what it writes, and the stores keep what is put where there was nothing.
  pub record Sound : Type 0 where
    pub draw-lt : InRange
    pub packing : IsLawful P.msgpack
    pub keeps : Keeps P b.http_client

  pub bin_get_lem :
      (uri code pwd blob : Bytes) (no_decrypt : Bool) (s : Process P)
      → code_from_dpaste_uri uri ≡ ok code
      → substr code 8 ≡ ok pwd
      → (fetch P b (take 8 code) s).0 ≡ ok blob
      → is_empty blob ≡ false
      → bin_get P b uri no_decrypt s
        ≡ try_catch
            (open_packet P blob code pwd no_decrypt)
            (recover P blob)
            (fetch P b (take 8 code) s).1
  unfolding bin_get
  bin_get_lem uri code pwd [] no_decrypt s c p f e = cc
  bin_get_lem uri code pwd (x ∷ blob) no_decrypt s c p f e = rw c (rw p (rw f))

  pub cipher_of_text-none :
      (code text : Bytes) (s : Process P)
      → is_gpg_encrypted P text ≡ false
      → (length code == 16) ≡ false
      → cipher_of_text P text code s ≡ (ok none, s)
  unfolding cipher_of_text
  cipher_of_text-none code text s g l = rw (g, cipher_of_text) (rw l)

  pub cipher_of_text_aes :
      (code text : Bytes) (s : Process P)
      → is_gpg_encrypted P text ≡ false
      → (length code == 16) ≡ true
      → cipher_of_text P text code s ≡ (ok (some aes_cipher), s)
  unfolding cipher_of_text
  cipher_of_text_aes code text s g l = rw (g, cipher_of_text) (rw l)

  -- A packet that is not encrypted.
  pub open_packet_plain :
      (blob code pwd text : Bytes) (no_decrypt : Bool) (s : Process P)
      → deserialize P.msgpack blob ≡ ok (record { payload = text; signature = [] })
      → is_gpg_encrypted P text ≡ false
      → (length code == 16) ≡ false
      → open_packet P blob code pwd no_decrypt s ≡ (ok (true, text), s)
  unfolding open_packet
  open_packet_plain blob code pwd text no_decrypt s d g l =
      rw d (rw (cipher_of_text-none code text s g l, follow))

  pub prepare_plain :
      (text : Bytes) (s : Process P)
      → P.garbage.scheme ≡ no_scheme
      → prepare_data P b text none s ≡ (ok (record { payload = text; signature = [] }, []), s)
  unfolding prepare_data make_plan make_packet cipher_of_scheme
  prepare_plain text s h = rw h

  -- The end of `paste`.
  abbrev pub finish : Bytes → Bytes → Result Bool × Process P → Result Bytes × Process P
  finish code pwd r =
      follow r.0 r.1 (λ success. give (if success then dpaste_uri_prefix ++ (code ++ pwd) else []))

  -- The state in which `paste` publishes.
  abbrev pub announced : Process P → Process P
  announced s = (dpaste_msg P (codes "Pasting data...") s).1

  pub bin_paste_lem :
      (text code pwd : Bytes) (params : Option Parameters) (p : Packet) (s t u : Process P)
      → fresh_pin P s ≡ (ok code, t)
      → prepare_data P b text params t ≡ (ok (p, pwd), u)
      → bin_paste P b text params s
        ≡ finish code pwd (publish P b code (serialize P.msgpack p) (announced u))
  unfolding bin_paste dpaste_msg
  bin_paste_lem text code pwd params p s t u f e = rw f (rw e)

  pub finish-ok :
      (code pwd uri : Bytes) (r : Result Bool × Process P)
      → (finish code pwd r).0 ≡ ok uri
      → uri ≢ []
      → (r.0 ≡ ok true) × (uri ≡ dpaste_uri_prefix ++ (code ++ pwd)) × ((finish code pwd r).1 ≡ r.1)
  finish-ok code pwd uri (ok true, s) h ne = (refl, cc, refl)
  finish-ok code pwd uri (ok false, s) h ne = absurd (ne (cc))
  finish-ok code pwd uri (throw e, s) h ne = cc

  take_pin : (code pwd : Bytes) → length code ≡ 8 → take 8 (code ++ pwd) ≡ code
  take_pin code pwd l = ap (λ n. take n (code ++ pwd)) (sym l) ∙ take-append code pwd

  -- Where the stores have a packet under the location code, `get` of the address opens it.
  pub get_stored :
      (code pwd : Bytes) (no_decrypt : Bool) (p : Packet) (s : Process P)
      → IsLawful P.msgpack
      → length code ≡ 8
      → length p.payload < 2 ^ 32
      → length p.signature < 2 ^ 32
      → let blob = serialize P.msgpack p in
        Answers P b.http_client s.world code blob
        → (t : Process P) × (bin_get P b (dpaste_uri_prefix ++ (code ++ pwd)) no_decrypt s
            ≡ try_catch (open_packet P blob (code ++ pwd) pwd no_decrypt) (recover P blob) t)
  get_stored code pwd no_decrypt p s L l d g stored =
      let blob = serialize P.msgpack p in
      let full = serialize-full P.msgpack L p d g in
      (
        (fetch P b (take 8 (code ++ pwd)) s).1,
        bin_get_lem (dpaste_uri_prefix ++ (code ++ pwd)) (code ++ pwd) pwd blob no_decrypt s
            (code-of_prefixed (code ++ pwd)) (substr_split code pwd (code ++ pwd) 8 refl l)
            (rw (take_pin code pwd l) (fetch-Answers P b code blob s full stored)) full,
      )

  -- After a paste that returns an address, `get` opens the packet that was published.
  pub get_published :
      (code pwd uri : Bytes) (no_decrypt : Bool) (p : Packet) (s : Process P)
      → Sound
      → length code ≡ 8
      → length p.payload < 2 ^ 32
      → length p.signature < 2 ^ 32
      → IsFree P b.http_client s.world code (serialize P.msgpack p)
      → let blob = serialize P.msgpack p in
        let r = finish code pwd (publish P b code blob s) in
        r.0 ≡ ok uri
        → uri ≢ []
        → (t : Process P) × (bin_get P b uri no_decrypt r.1
            ≡ try_catch (open_packet P blob (code ++ pwd) pwd no_decrypt) (recover P blob) t)
  get_published code pwd uri no_decrypt p s S l d g free h ne =
      let blob = serialize P.msgpack p in
      let (put, e, same) = finish-ok code pwd uri (publish P b code blob s) h ne in
      rw (same, e)
        (get_stored code pwd no_decrypt p (publish P b code blob s).1 S.packing l d g
          (publish-Answers P b code blob s S.keeps free put))
