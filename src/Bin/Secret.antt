-- ===== src/Bin/Secret.antt =====
-- `Bin::paste` of src/bin.cpp and then `Bin::get`, for texts encrypted with AES.
use dpaste.Prelude.{
  ◌<◌, ◌^◌, true, false, [], ◌∷◌, ◌++◌, Option, none, some, Bytes, codes, is_empty, length,
  length-append, ◌≡◌, ◌≢◌, refl, sym, ap, ◌∙◌, arith, ◌==◌, ==_iff,
}
use dpaste.Effects.{Result, ok, follow}
use dpaste.Params.{aes_scheme, Parameters, aes_parameters, AesParameters}
use dpaste.Pin.Repeats.{after_calls, random_pin_repeats}
use dpaste.Uri.{dpaste_uri_prefix}
use dpaste.Platform.{Platform, Process}
use dpaste.Log.{dpaste_msg}
use dpaste.Aes.{aes_decrypt, aes_process_plain_text, aes_process_cipher_text}
use dpaste.Gpg.{is_gpg_encrypted}
use dpaste.Cipher.{Cipher, aes_cipher, cipher_of_scheme, process_plain_text, process_cipher_text}
use dpaste.Packet.{Packet, deserialize, serialize}
use dpaste.Packet.Laws.{deserialize-serialize}
use dpaste.Bin.{
  Bin, Plan, open_packet, bin_get, make_plan, make_packet, prepare_data, publish, bin_paste,
}
use dpaste.Bin.Published.{
  Sound, cipher_of_text_aes, finish, finish-ok, announced, bin_paste_lem, get_published,
}
use dpaste.Bin.RoundTrip.{
  next_pin, after_pin, fresh_pin_lem, next_pin-IsPin, IsUnused, IsUnused-IsFree,
}

-- No cipher text of the AES functions is empty.
abbrev pub AesFull : Platform → Type 0
AesFull P = (text pwd : Bytes) (w : P.World) → is_empty (P.aes.encrypt text pwd w).0 ≡ false

-- What is relied on of the AES functions: a text comes back under its password, and what is written is
-- not empty and not much longer than the text.
pub record AesSound (P : Platform) : Type 0 where
  pub decrypt-encrypt :
      (text pwd : Bytes) (w : P.World) → P.aes.decrypt (P.aes.encrypt text pwd w).0 pwd ≡ some text
  pub encrypt-full : AesFull P
  pub encrypt-size :
      (text pwd : Bytes) (w : P.World)
      → length text < 2 ^ 31
      → length (P.aes.encrypt text pwd w).0 < 2 ^ 32

module _ (P : Platform) (b : Bin) where
  -- The cipher text of a paste, from the state in which the password is drawn.
  abbrev pub encrypted : Bytes → Process P → Bytes × P.World
  encrypted text s = P.aes.encrypt text (next_pin P b s) s.world

  abbrev after_encryption : Bytes → Process P → Process P
  after_encryption text s =
      record (dpaste_msg P (codes "Encrypting (aes-gcm) data...") (after_pin P b s)).1 {
        world = (encrypted text s).1;
      }

  random_pin_repeats_once :
      (s : Process P)
      → s.statics.initialized ≡ false
      → next_pin P b (after_pin P b s) ≡ next_pin P b s
  unfolding after_calls
  random_pin_repeats_once s h = random_pin_repeats P.rng 1 s.statics h

  abbrev with_password : Bytes → Option Parameters
  with_password pwd = some (aes_parameters (record { password = pwd }))

  process_plain_text_aes :
      (text pwd : Bytes) (s : Process P)
      → process_plain_text P aes_cipher text (with_password pwd) s ≡ (
        ok (P.aes.encrypt text pwd s.world).0,
        record (dpaste_msg P (codes "Encrypting (aes-gcm) data...") s).1 {
          world = (P.aes.encrypt text pwd s.world).1;
        },
      )
  unfolding process_plain_text aes_process_plain_text dpaste_msg
  process_plain_text_aes text pwd s = refl

  -- A cipher text that is not empty makes the packet.
  make_packet_full :
      (c : Cipher P) (text cipher_text : Bytes) (plan : Plan P) (s t : Process P)
      → process_plain_text P c text plan.params s ≡ (ok cipher_text, t)
      → is_empty cipher_text ≡ false
      → make_packet P (some c) text plan s
        ≡ (ok (record { payload = cipher_text; signature = [] }), t)
  unfolding make_packet
  make_packet_full c text [] plan s t e h = cc
  make_packet_full c text (x ∷ cipher_text) plan s t e h = rw e

  abbrev aes_plan : Bytes → Plan P
  aes_plan pwd = record {
    scheme = aes_scheme;
    init_params = none;
    params = with_password pwd;
    pwd = pwd;
    to_sign = false;
  }

  pub prepare_aes :
      (text : Bytes) (given : AesParameters) (s : Process P)
      → AesFull P
      → prepare_data P b text (some (aes_parameters given)) s ≡ (
        ok (record { payload = (encrypted text s).0; signature = [] }, next_pin P b s),
        after_encryption text s,
      )
  unfolding prepare_data make_plan cipher_of_scheme
  prepare_aes text given s A = rw (fresh_pin_lem P b s) (
      rw (
        make_packet_full aes_cipher text (encrypted text s).0 (aes_plan (next_pin P b s))
          (after_pin P b s) (after_encryption text s)
          (process_plain_text_aes text (next_pin P b s) (after_pin P b s))
          (A text (next_pin P b s) s.world)))

  abbrev after_decryption : Process P → Process P
  after_decryption s = (dpaste_msg P (codes "Decrypting (aes-gcm)...") s).1

  process_cipher_text_aes :
      (cipher_text pwd text : Bytes) (s : Process P)
      → P.aes.decrypt cipher_text pwd ≡ some text
      → process_cipher_text P aes_cipher cipher_text (with_password pwd) s
        ≡ (ok text, after_decryption s)
  unfolding process_cipher_text aes_process_cipher_text dpaste_msg
  process_cipher_text_aes cipher_text pwd text s e = rw (e, aes_decrypt)

  pub open_packet_aes :
      (blob code pwd cipher_text text : Bytes) (s : Process P)
      → deserialize P.msgpack blob ≡ ok (record { payload = cipher_text; signature = [] })
      → is_gpg_encrypted P cipher_text ≡ false
      → (length code == 16) ≡ true
      → P.aes.decrypt cipher_text pwd ≡ some text
      → open_packet P blob code pwd false s ≡ (ok (true, text), after_decryption s)
  unfolding open_packet
  open_packet_aes blob code pwd cipher_text text s d g l e = rw d (
      rw (cipher_of_text_aes P b code cipher_text s g l, follow)
        (rw (process_cipher_text_aes cipher_text pwd text s e, follow)))

  -- What `paste` of a text with AES does before it publishes.
  abbrev pasted_packet : Bytes → Process P → Packet
  pasted_packet text s = record { payload = (encrypted text (after_pin P b s)).0; signature = [] }

  abbrev pasted_password : Process P → Bytes
  pasted_password s = next_pin P b (after_pin P b s)

  abbrev pasted : Bytes → Process P → Result Bytes × Process P
  pasted text s = finish P b (next_pin P b s) (pasted_password s) (
      publish P b (next_pin P b s) (serialize P.msgpack (pasted_packet text s))
        (announced P b (after_encryption text (after_pin P b s))))

  bin_paste_aes :
      (text : Bytes) (given : AesParameters) (s : Process P)
      → AesFull P
      → bin_paste P b text (some (aes_parameters given)) s ≡ pasted text s
  bin_paste_aes text given s A =
      bin_paste_lem P b text (next_pin P b s) (pasted_password s) _ (pasted_packet text s) s
        (after_pin P b s) _ (fresh_pin_lem P b s) (prepare_aes text given (after_pin P b s) A)

  pub address_length :
      (code pwd : Bytes) → length code ≡ 8 → length pwd ≡ 8 → (length (code ++ pwd) == 16) ≡ true
  address_length code pwd l m = (==_iff _ 16).1 (omega (arith, length-append code pwd, l, m))

  -- A text of fewer than 2 ^ 31 bytes pasted with AES is what `get` returns for the address, if the
  -- paste succeeds, if nothing was there under its pin, if GpgME does not take the cipher text for a
  -- message of its own, which is what `get` asks first, and if the libraries behave as documented.
  pub bin_get-bin_paste_aes :
      (text uri : Bytes) (given : AesParameters) (s : Process P)
      → Sound P b
      → AesSound P
      → length text < 2 ^ 31
      → is_gpg_encrypted P (encrypted text (after_pin P b s)).0 ≡ false
      → IsUnused P b text (some (aes_parameters given)) s
      → (bin_paste P b text (some (aes_parameters given)) s).0 ≡ ok uri
      → uri ≢ []
      → (bin_get P b uri false (bin_paste P b text (some (aes_parameters given)) s).1).0
        ≡ ok (true, text)
  bin_get-bin_paste_aes text uri given s S A small bare unused h ne =
      let done = bin_paste_aes text given s A.encrypt-full in
      let code = next_pin P b s in
      let pwd = pasted_password s in
      let p = pasted_packet text s in
      let l = (next_pin-IsPin P b s S.draw-lt).0 in
      let m = (next_pin-IsPin P b (after_pin P b s) S.draw-lt).0 in
      let size = A.encrypt-size text pwd s.world small in
      let (t, e) =
        get_published P b code pwd uri false p
          (announced P b (after_encryption text (after_pin P b s))) S l size (omega arith)
          (IsUnused-IsFree P b text pwd (some (aes_parameters given)) p s _ unused
            (prepare_aes text given (after_pin P b s) A.encrypt-full))
          (ap (λ r. r.0) (sym done) ∙ h) ne in
      rw (done, e)
        (rw (
          open_packet_aes _ (code ++ pwd) pwd p.payload text t
            (deserialize-serialize P.msgpack S.packing p size (omega arith)) bare
            (address_length code pwd l m) (A.decrypt-encrypt text pwd s.world)))

  -- The password of a paste with AES is its location code: if the paste succeeds, `initialized` is
  -- false as it is at the start, and no cipher text is empty, the address is the prefix and the
  -- same pin twice, whatever the generator and the seed, since every call of `random_pin` seeds
  -- anew.
  pub bin_paste_password :
      (text uri : Bytes) (given : AesParameters) (s : Process P)
      → AesFull P
      → s.statics.initialized ≡ false
      → (bin_paste P b text (some (aes_parameters given)) s).0 ≡ ok uri
      → uri ≢ []
      → uri ≡ dpaste_uri_prefix ++ (next_pin P b s ++ next_pin P b s)
  bin_paste_password text uri given s A fresh h ne =
      let done = bin_paste_aes text given s A in
      let (put, e, same) =
        finish-ok P b (next_pin P b s) (pasted_password s) uri _ (ap (λ r. r.0) (sym done) ∙ h)
          ne in
      e ∙ ap (λ pwd. dpaste_uri_prefix ++ (next_pin P b s ++ pwd)) (random_pin_repeats_once s fresh)
