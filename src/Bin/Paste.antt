-- ===== src/Bin/Paste.antt =====
-- `Bin::paste` of src/bin.cpp, whatever the encryption: the addresses that it returns.
use dpaste.Prelude.{
  Bool, length, ◌<◌, ◌^◌, ◌++◌, [], Bytes, Option, ◌≡◌, ◌≢◌, refl, sym, ap, ◌∙◌, inl, inr,
}
use dpaste.Effects.{ok, throw, Exception, Result-cases, follow, try_catch}
use dpaste.Params.{Parameters}
use dpaste.Uri.{dpaste_uri_prefix}
use dpaste.Platform.{Platform, Process}
use dpaste.Log.{dpaste_msg}
use dpaste.Packet.{Packet, serialize}
use dpaste.Bin.{Bin, bin_get, open_packet, recover, prepare_data, bin_paste}
use dpaste.Bin.Published.{Sound, get_published, announced, finish-ok, bin_paste_lem}
use dpaste.Bin.Store.{Keeps, Answers, IsTaken, publish-IsTaken, IsTaken-Answers}
use dpaste.Bin.RoundTrip.{
  next_pin, after_pin, fresh_pin_lem, next_pin-IsPin, IsUnused, IsUnused-IsFree,
}

module _ (P : Platform) (b : Bin) where
  bin_paste-throw :
      (text : Bytes) (params : Option Parameters) (e : Exception) (s : Process P)
      → (prepare_data P b text params (after_pin P b s)).0 ≡ throw e
      → (bin_paste P b text params s).0 ≡ throw e
  unfolding bin_paste
  bin_paste-throw text params e s h = rw (fresh_pin_lem P b s) (rw (h, follow) refl)

  -- An address returned by `paste` is the prefix, the location code and the password of a packet
  -- that was prepared from the text, and whose blob was put under that code: the server took it, or
  -- the server refused it and the table took it, and the outside world is left so.
  pub bin_paste-publish :
      (text uri : Bytes) (params : Option Parameters) (s : Process P)
      → (bin_paste P b text params s).0 ≡ ok uri
      → uri ≢ []
      → (p : Packet) × (pwd : Bytes) × (t : Process P) × (prepare_data P b text params
            (after_pin P b s)
          ≡ (ok (p, pwd), t))
        × IsTaken P b
            (next_pin P b s)
            (serialize P.msgpack p)
            t.world
            (bin_paste P b text params s).1.world
        × (uri ≡ dpaste_uri_prefix ++ (next_pin P b s ++ pwd))
  unfolding dpaste_msg
  bin_paste-publish text uri params s h ne =
      let ready = prepare_data P b text params (after_pin P b s) in
      elim (Result-cases ready.0) [
        | inr (e, r) ↦ cc (bin_paste-throw text params e s r)
        | inl ((p, pwd), r) ↦
            let done =
              bin_paste_lem P b text (next_pin P b s) pwd params p s (after_pin P b s) ready.1
                (fresh_pin_lem P b s) (ap (λ o. (o, ready.1)) r) in
            let (put, e, same) =
              finish-ok P b (next_pin P b s) pwd uri _ (ap (λ q. q.0) (sym done) ∙ h) ne in
            let taken =
              publish-IsTaken P b (next_pin P b s) (serialize P.msgpack p) (announced P b ready.1)
                put in
            (p, pwd, ready.1, ap (λ o. (o, ready.1)) r, rw (done, same) taken, e)
      ]

  -- The packet behind an address, and that `get` opens it.
  pub bin_paste-opens :
      (text uri : Bytes) (params : Option Parameters) (no_decrypt : Bool) (s : Process P)
      → Sound P b
      → IsUnused P b text params s
      → (bin_paste P b text params s).0 ≡ ok uri
      → uri ≢ []
      → (p : Packet) × (pwd : Bytes) × ((prepare_data P b text params (after_pin P b s)).0
          ≡ ok (p, pwd))
        × (length p.payload < 2 ^ 32
            → length p.signature < 2 ^ 32
            → (t : Process P) × (bin_get P b uri no_decrypt (bin_paste P b text params s).1
                ≡ try_catch
                    (open_packet P (serialize P.msgpack p) (next_pin P b s ++ pwd) pwd no_decrypt)
                    (recover P (serialize P.msgpack p))
                    t))
  bin_paste-opens text uri params no_decrypt s S unused h ne =
      let (p, pwd, t, ready, _, _) = bin_paste-publish text uri params s h ne in
      let done =
        bin_paste_lem P b text (next_pin P b s) pwd params p s (after_pin P b s) t
          (fresh_pin_lem P b s) ready in
      (
        p,
        pwd,
        ap (λ r. r.0) ready,
        λ l m. rw done (
            get_published P b (next_pin P b s) pwd uri no_decrypt p (announced P b t) S
              (next_pin-IsPin P b s S.draw-lt).0 l m
              (IsUnused-IsFree P b text pwd params p s t unused ready)
              (ap (λ r. r.0) (sym done) ∙ h) ne),
      )

  -- After a paste that returns an address, the stores have the packet under its location code.
  pub bin_paste-Answers :
      (text uri : Bytes) (params : Option Parameters) (s : Process P)
      → Keeps P b.http_client
      → IsUnused P b text params s
      → (bin_paste P b text params s).0 ≡ ok uri
      → uri ≢ []
      → (p : Packet) × (pwd : Bytes) × ((prepare_data P b text params (after_pin P b s)).0
          ≡ ok (p, pwd))
        × (uri ≡ dpaste_uri_prefix ++ (next_pin P b s ++ pwd))
        × Answers P b.http_client
            (bin_paste P b text params s).1.world
            (next_pin P b s)
            (serialize P.msgpack p)
  unfolding dpaste_msg
  bin_paste-Answers text uri params s k unused h ne =
      let (p, pwd, t, ready, taken, e) = bin_paste-publish text uri params s h ne in
      (
        p,
        pwd,
        ap (λ r. r.0) ready,
        e,
        IsTaken-Answers P b (next_pin P b s) (serialize P.msgpack p) t.world _ k
            (IsUnused-IsFree P b text pwd params p s t unused ready) taken,
      )
