-- ===== src/Store/Refinement.antt =====
-- `Bin::get` of src/bin.cpp implements the board.
use dpaste.Prelude.{
  ◌<◌, ◌^◌, true, false, [], ◌∷◌, ◌++◌, List, Option, Bytes, All, length, ◌≡◌, ◌≢◌, refl, sym, ap,
}
use dpaste.Effects.{ok, handle}
use dpaste.Params.{Parameters}
use dpaste.Uri.{dpaste_uri_prefix}
use dpaste.Platform.{Platform, Process}
use dpaste.Packet.{Packet, serialize}
use dpaste.Bin.{Bin, open_packet, bin_get, bin_paste}
use dpaste.Bin.Store.{Answers}
use dpaste.Bin.Published.{get_stored}
use dpaste.Bin.RoundTrip.{next_pin, next_pin-IsPin, IsUnused}
use dpaste.Bin.Paste.{bin_paste-Answers}
use dpaste.Bin.Readable.{shown, Reliable, IsReadable, IsReadable-Opened}
use dpaste.Store.{Steady-Respects, Spared-RespectsPut}
use dpaste.Frame.Bin.{bin_get-Respects, bin_paste-Respects}
use mathlib.Core.Quot
use dpaste.Store.Posts.{Post, Board, pin_up, holds, is_fresh, holds-All, is_fresh-All}
use dpaste.Store.Board.{Network, History, blank, post, miss, ask, join}

All-unit : (board : List Post) → All (λ q. Unit {0}) board
All-unit [] = tt
All-unit (q ∷ board) = (tt, All-unit board)

module _ (P : Platform) (b : Bin) where
  -- The stores have the packet of a post, and it is opened by the address.
  abbrev Stored : P.World → Post → Type 0
  Stored w q =
      (p : Packet) × (pwd : Bytes) × (q.uri ≡ dpaste_uri_prefix ++ (q.pin ++ pwd))
      × (length q.pin ≡ 8)
      × (length p.payload < 2 ^ 32)
      × (length p.signature < 2 ^ 32)
      × ((t : Process P)
          → (open_packet P (serialize P.msgpack p) (q.pin ++ pwd) pwd false t).0
            ≡ ok (true, q.text))
      × Answers P b.http_client w q.pin (serialize P.msgpack p)

  Stored-still :
      (q : Post) (w u : P.World)
      → ((blob : Bytes)
          → Answers P b.http_client w q.pin blob
          → Answers P b.http_client u q.pin blob)
      → Stored w q
      → Stored u q
  Stored-still q w u still (p, pwd, e, l, d, g, opens, stored) =
      (p, pwd, e, l, d, g, opens, still (serialize P.msgpack p) stored)

  Stored-All :
      (board : List Post) (w u : P.World) (Still : Post → Type 0)
      → All Still board
      → ((q : Post) → Still q → Stored w q → Stored u q)
      → All (Stored w) board
      → All (Stored u) board
  Stored-All [] w u Still k f h = h
  Stored-All (q ∷ board) w u Still k f h = (f q k.0 h.0, Stored-All board w u Still k.1 f h.1)

  -- A post that the stores have is read.
  bin_get-Stored :
      (q : Post) (t : Process P) (held : P.gpgme.Key → Type 0) (keyid : Bytes)
      → Reliable P held b keyid
      → Stored t.world q
      → (bin_get P b q.uri false t).0 ≡ ok (true, q.text)
  bin_get-Stored q t held keyid R (p, pwd, e, l, d, g, opens, stored) =
      let (u, got) = get_stored P b q.pin pwd false p t R.sound.packing l d g stored in
      rw e (rw got (rw (opens u, handle) refl))

  module _ (held : P.gpgme.Key → Type 0) (keyid : Bytes) (R : Reliable P held b keyid)
      (N : Network P b) where
    -- Posts under pins with other hashes are left alone by a paste.
    paste-Stored :
        (board : List Post) (text : Bytes) (params : Option Parameters) (s : Process P)
        → All (λ q. P.dht.info_hash q.pin ≢ P.dht.info_hash (next_pin P b s)) board
        → All (Stored s.world) board
        → All (Stored (bin_paste P b text params s).1.world) board
    paste-Stored board text params s fresh h =
        Stored-All board s.world (bin_paste P b text params s).1.world
          (λ q. P.dht.info_hash q.pin ≢ P.dht.info_hash (next_pin P b s)) fresh
          (λ q apart. Stored-still q _ _ (λ blob stored.
            bin_paste-Respects (Steady-Respects (N.steady q.pin blob)) b text params s
              (Spared-RespectsPut b.http_client (next_pin P b s)
                (N.spared q.pin (next_pin P b s) blob apart))
              stored))
          h

    posted-Stored :
        (text uri : Bytes) (params : Option Parameters) (s : Process P)
        → IsUnused P b text params s
        → IsReadable P held b s keyid params text
        → (bin_paste P b text params s).0 ≡ ok uri
        → uri ≢ []
        → Stored
            (bin_paste P b text params s).1.world
            (record { pin = next_pin P b s; uri = uri; text = shown params text })
    posted-Stored text uri params s unused readable h ne =
        let (p, pwd, ready, e, stored) =
          bin_paste-Answers P b text uri params s R.sound.keeps unused h ne in
        let O = IsReadable-Opened P held b keyid R text params s readable in
        let pin = next_pin P b s in
        let l = (next_pin-IsPin P b s R.sound.draw-lt).0 in
        let (d, g, _) = O.at p pwd pin s l ready in
        (p, pwd, e, l, d, g, λ t. (O.at p pwd pin t l ready).2, stored)

    -- The board, as a list of posts in some order, all of which the stores have.
    abbrev Kept : Board → P.World → Type 0
    Kept board w =
        (posts : List Post) × (◌≡◌ {A = Board} (Quot.mk posts) board) × All (Stored w) posts

    -- A call that leaves every post alone.
    still-Kept :
        (board : Board) (w u : P.World)
        → ((pin blob : Bytes)
            → Answers P b.http_client w pin blob
            → Answers P b.http_client u pin blob)
        → Kept board w
        → Kept board u
    still-Kept board w u still (posts, same, h) = (
      posts,
      same,
      Stored-All posts w u (λ q. Unit) (All-unit posts) (λ q _. Stored-still q w u (still q.pin)) h,
    )

    paste-Kept :
        (board : Board) (text : Bytes) (params : Option Parameters) (s : Process P)
        → is_fresh P.dht.info_hash (next_pin P b s) board ≡ true
        → Kept board s.world
        → Kept board (bin_paste P b text params s).1.world
    paste-Kept board text params s fresh (posts, same, h) = (
      posts,
      same,
      paste-Stored posts text params s
          (is_fresh-All P.dht.info_hash (next_pin P b s) posts (rw (sym same) at fresh)) h,
    )

    pin_up-Kept :
        (board : Board) (q : Post) (w : P.World)
        → Stored w q
        → Kept board w
        → Kept (pin_up q board) w
    unfolding pin_up
    pin_up-Kept board q w stored (posts, same, h) = (q ∷ posts, ap (pin_up q) same, (stored, h))

    History-Kept : (board : Board) (w : P.World) → History P b held keyid board w → Kept board w
    History-Kept _ _ (blank w) = ([], refl, tt)
    History-Kept _ _ (post {board} s text uri params past fresh unused readable h ne) =
        pin_up-Kept board _ _ (posted-Stored text uri params s unused readable h ne)
          (paste-Kept board text params s fresh (History-Kept board s.world past))
    History-Kept _ _ (miss {board} s text params past fresh) =
        paste-Kept board text params s fresh (History-Kept board s.world past)
    History-Kept _ _ (ask {board} s uri no_decrypt past) =
        still-Kept board s.world (bin_get P b uri no_decrypt s).1.world
          (λ pin blob. bin_get-Respects (Steady-Respects (N.steady pin blob)) b uri no_decrypt s)
          (History-Kept board s.world past)
    History-Kept _ _ (join {board} w host port n past) =
        still-Kept board w (P.dht.bootstrap host port (P.dht.run n w))
          (λ pin blob. N.joining pin blob host port n w) (History-Kept board w past)

    -- The bin is a board of texts in no order: whoever asks for the address of a text that is on
    -- the board, in any state of a process, gets that text, after any history of pastes, gets and
    -- runs in one outside world. The pins in use have different hashes, nothing was in the stores
    -- under the pin of a text that is posted, the texts that are posted are readable (the cipher
    -- text of AES is not one that GpgME takes for its own), the server and the table keep what they
    -- took under a free pin, the network loses nothing, the scheme that is never set reads as none,
    -- a key is configured, and the other libraries behave as documented.
    pub bin_get-holds :
        (board : Board) (w : P.World) (t : Process P) (uri text : Bytes)
        → History P b held keyid board w
        → t.world ≡ w
        → holds uri text board ≡ true
        → (bin_get P b uri false t).0 ≡ ok (true, text)
    bin_get-holds board w t uri text past e there =
        let (posts, same, kept) = History-Kept board w past in
        let (q, stored, at, shows) =
          holds-All (Stored w) uri text posts kept (rw (sym same) at there) in
        rw (sym at, sym shows) (bin_get-Stored q t held keyid R (rw (sym e) at stored))
