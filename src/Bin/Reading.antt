-- ===== src/Bin/Reading.antt =====
-- `Bin::paste` and `Bin::get` of src/bin.cpp in different runs of the program, which share nothing
-- but the outside world.
use dpaste.Prelude.{
  ◌<◌, ◌^◌, true, false, [], ◌++◌, Option, none, some, Bytes, length, ◌≡◌, ◌≢◌, refl, sym, ap, ◌∙◌,
  arith,
}
use dpaste.Effects.{ok, ok-inj, handle}
use dpaste.Params.{no_scheme, Parameters, aes_parameters, AesParameters}
use dpaste.Platform.{Platform, Process}
use dpaste.Gpg.{is_gpg_encrypted}
use dpaste.Packet.{Packet, serialize}
use dpaste.Packet.Laws.{deserialize-serialize}
use dpaste.Bin.{Bin, prepare_data, open_packet, bin_get, bin_paste}
use dpaste.Bin.Store.{Answers}
use dpaste.Bin.Published.{Sound, prepare_plain, open_packet_plain, get_stored}
use dpaste.Bin.RoundTrip.{next_pin, after_pin, next_pin-IsPin, IsUnused, code_length}
use dpaste.Bin.Secret.{AesSound, prepare_aes, encrypted, open_packet_aes, address_length}
use dpaste.Bin.Paste.{bin_paste-Answers}

module _ (P : Platform) (b : Bin) where
  -- A packet that is prepared from the text with these parameters, after a pin is drawn in this
  -- state, has the sizes of the format, and the address of which it is a part opens it in any
  -- state, and shows this text.
  pub record Opened (text : Bytes) (params : Option Parameters) (shown : Bytes) (s : Process P)
      : Type 0 where
    pub at :
        (p : Packet) (pwd code : Bytes) (t : Process P)
        → length code ≡ 8
        → (prepare_data P b text params (after_pin P b s)).0 ≡ ok (p, pwd)
        → (length p.payload < 2 ^ 32)
          × (length p.signature < 2 ^ 32)
          × ((open_packet P (serialize P.msgpack p) (code ++ pwd) pwd false t).0 ≡ ok (true, shown))

  pub Opened-plain :
      (text : Bytes) (s : Process P)
      → Sound P b
      → P.garbage.scheme ≡ no_scheme
      → is_gpg_encrypted P text ≡ false
      → length text < 2 ^ 32
      → Opened text none text s
  Opened-plain text s S scheme plain small = record {
    at = λ p pwd code t l h.
        let e = ok-inj (sym h ∙ ap (λ r. r.0) (prepare_plain P b text (after_pin P b s) scheme)) in
        rw (ap (λ r. r.0) e, ap (λ r. r.1) e)
          (
            small,
            omega arith,
            ap (λ r. r.0)
                (open_packet_plain P b _ (code ++ []) [] text false t
                  (deserialize-serialize P.msgpack S.packing
                    (record { payload = text; signature = [] }) small (omega arith))
                  plain (code_length P b code l)),
          );
  }

  pub Opened-aes :
      (text : Bytes) (given : AesParameters) (s : Process P)
      → Sound P b
      → AesSound P
      → length text < 2 ^ 31
      → is_gpg_encrypted P (encrypted P b text (after_pin P b s)).0 ≡ false
      → Opened text (some (aes_parameters given)) text s
  Opened-aes text given s S A small bare = record {
    at = λ p pwd code t l h.
        let u = after_pin P b s in
        let c = (encrypted P b text u).0 in
        let key = next_pin P b u in
        let e = ok-inj (sym h ∙ ap (λ r. r.0) (prepare_aes P b text given u A.encrypt-full)) in
        let size = A.encrypt-size text key u.world small in
        rw (ap (λ r. r.0) e, ap (λ r. r.1) e)
          (
            size,
            omega arith,
            ap (λ r. r.0)
                (open_packet_aes P b _ (code ++ key) key c text t
                  (deserialize-serialize P.msgpack S.packing
                    (record { payload = c; signature = [] }) size (omega arith))
                  bare (address_length P b code key l (next_pin-IsPin P b u S.draw-lt).0)
                  (A.decrypt-encrypt text key u.world)),
          );
  }

  -- The stores have it still.
  pub bin_get-later :
      (text shown uri : Bytes) (params : Option Parameters) (s t : Process P)
      → Sound P b
      → Opened text params shown s
      → IsUnused P b text params s
      → (bin_paste P b text params s).0 ≡ ok uri
      → uri ≢ []
      → ((code blob : Bytes)
          → Answers P b.http_client (bin_paste P b text params s).1.world code blob
          → Answers P b.http_client t.world code blob)
      → (bin_get P b uri false t).0 ≡ ok (true, shown)
  bin_get-later text shown uri params s t S O unused h ne still =
      let (p, pwd, ready, e, stored) =
        bin_paste-Answers P b text uri params s S.keeps unused h ne in
      let code = next_pin P b s in
      let l = (next_pin-IsPin P b s S.draw-lt).0 in
      let (d, g, _) = O.at p pwd code t l ready in
      let (u, got) = get_stored P b code pwd false p t S.packing l d g (still code _ stored) in
      rw e (rw got (rw ((O.at p pwd code u l ready).2, handle) refl))
