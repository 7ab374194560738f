-- ===== src/Bin/RoundTrip.antt =====
-- `Bin::paste` of src/bin.cpp and then `Bin::get`, for plain texts.
use dpaste.Prelude.{
  ◌<◌, ◌^◌, Bool, true, false, [], ◌++◌, none, Option, Bytes, length, ◌≡◌, ◌≢◌, refl, sym, ap, ◌∙◌,
  arith, ◌==◌, append-nil,
}
use dpaste.Effects.{ok}
use dpaste.Params.{no_scheme, Parameters}
use dpaste.Pin.{random_pin}
use dpaste.Pin.Format.{IsPin, format_pin-IsPin}
use dpaste.Platform.{Platform, Process}
use dpaste.Log.{dpaste_msg}
use dpaste.Gpg.{is_gpg_encrypted}
use dpaste.Packet.{Packet, serialize}
use dpaste.Packet.Laws.{deserialize-serialize}
use dpaste.Bin.{Bin, bin_get, fresh_pin, prepare_data, bin_paste}
use dpaste.Bin.Store.{IsFree}
use dpaste.Bin.Published.{
  InRange, Sound, open_packet_plain, prepare_plain, announced, bin_paste_lem, get_published,
}

module _ (P : Platform) (b : Bin) where
  -- The pin that `random_pin` gives in a state, and the state after it.
  abbrev pub next_pin : Process P → Bytes
  next_pin s = (random_pin P.rng s.statics).0

  abbrev pub after_pin : Process P → Process P
  after_pin s = record s { statics = (random_pin P.rng s.statics).1 }

  pub fresh_pin_lem : (s : Process P) → fresh_pin P s ≡ (ok (next_pin s), after_pin s)
  unfolding fresh_pin
  fresh_pin_lem s = refl

  pub next_pin-IsPin : (s : Process P) → InRange P b → IsPin (next_pin s)
  unfolding random_pin
  next_pin-IsPin s draw = format_pin-IsPin _ (draw _)

  -- Nobody has put anything under the pin that the paste draws, when it comes to publish.
  abbrev pub IsUnused : Bytes → Option Parameters → Process P → Type 0
  IsUnused text params s =
      let ready = prepare_data P b text params (after_pin s) in
      (p : Packet) (pwd : Bytes)
      → ready.0 ≡ ok (p, pwd)
      → IsFree P b.http_client ready.1.world (next_pin s) (serialize P.msgpack p)

  pub IsUnused-IsFree :
      (text pwd : Bytes) (params : Option Parameters) (p : Packet) (s t : Process P)
      → IsUnused text params s
      → prepare_data P b text params (after_pin s) ≡ (ok (p, pwd), t)
      → IsFree P b.http_client (announced P b t).world (next_pin s) (serialize P.msgpack p)
  unfolding dpaste_msg
  IsUnused-IsFree text pwd params p s t unused e =
      rw (ap (λ r. r.1) e) at (unused p pwd (ap (λ r. r.0) e))

  pub code_length : (code : Bytes) → length code ≡ 8 → (length (code ++ []) == 16) ≡ false
  code_length code l = rw (append-nil code, l)

  -- A text pasted with no encryption is what `get` returns for the address, with or without `--no-
  -- decrypt`: if the paste succeeds, if nothing was there under its pin, if the scheme that is
  -- never set reads as none, if GpgME does not take the text for an encrypted one, if the text has
  -- fewer than 2 ^ 32 bytes, and if the libraries behave as documented.
  pub bin_get-bin_paste :
      (text uri : Bytes) (no_decrypt : Bool) (s : Process P)
      → Sound P b
      → P.garbage.scheme ≡ no_scheme
      → is_gpg_encrypted P text ≡ false
      → length text < 2 ^ 32
      → IsUnused text none s
      → (bin_paste P b text none s).0 ≡ ok uri
      → uri ≢ []
      → (bin_get P b uri no_decrypt (bin_paste P b text none s).1).0 ≡ ok (true, text)
  bin_get-bin_paste text uri no_decrypt s S scheme plain small unused h ne =
      let code = next_pin s in
      let p : Packet = record { payload = text; signature = [] } in
      let ready = prepare_plain P b text (after_pin s) scheme in
      let pasted =
        bin_paste_lem P b text code [] none p s (after_pin s) (after_pin s) (fresh_pin_lem s)
          ready in
      let l = (next_pin-IsPin s S.draw-lt).0 in
      let (t, e) =
        get_published P b code [] uri no_decrypt p (announced P b (after_pin s)) S l small
          (omega arith) (IsUnused-IsFree text [] none p s (after_pin s) unused ready)
          (ap (λ r. r.0) (sym pasted) ∙ h) ne in
      rw (pasted, e)
        (rw (
          open_packet_plain P b _ (code ++ []) [] text no_decrypt t
            (deserialize-serialize P.msgpack S.packing p small (omega arith)) plain
            (code_length code l)))
