-- ===== src/Store/Board.antt =====
-- The bin of src/bin.cpp as its users see it: a board of texts by their addresses, which many runs of
-- the program, by anybody, put texts on and read.
use dpaste.Prelude.{ℕ, Bool, true, [], Option, Bytes, ◌≡◌, ◌≢◌}
use dpaste.Effects.{ok}
use dpaste.Params.{Parameters}
use dpaste.Platform.{Platform, Process}
use dpaste.Bin.{Bin, bin_get, bin_paste}
use dpaste.Bin.Store.{Answers}
use dpaste.Bin.RoundTrip.{next_pin, IsUnused}
use dpaste.Bin.Readable.{shown, IsReadable}
use dpaste.Store.{Steady, Spared}
use dpaste.Store.Posts.{Board, empty_board, pin_up, is_fresh}

module _ (P : Platform) (b : Bin) where
  -- What is relied on of the stores: no value is lost by asking, by encrypting, by joining the
  -- network, or by putting a value under a pin with another hash.
  pub record Network : Type 0 where
    pub steady : (pin blob : Bytes) → Steady P (λ w. Answers P b.http_client w pin blob)
    pub spared :
        (pin other blob : Bytes)
        → P.dht.info_hash pin ≢ P.dht.info_hash other
        → Spared P (λ w. Answers P b.http_client w pin blob) b.http_client other
    pub joining :
        (pin blob host port : Bytes) (n : ℕ) (w : P.World)
        → Answers P b.http_client w pin blob
        → Answers P b.http_client (P.dht.bootstrap host port (P.dht.run n w)) pin blob

  module _ (held : P.gpgme.Key → Type 0) (keyid : Bytes) where
    -- The boards, and the outside worlds, that calls of processes lead to, one after the other. The
    -- processes share nothing but the world. A paste that returns an address puts a text on the
    -- board; one that fails, or throws, none. Each draws a pin that is not in use on the
    -- board; where one posts, the stores have nothing under it.
    pub data History : Board → P.World → Type 0 where
      blank : (w : P.World) → History empty_board w
      post :
          {board : Board} (s : Process P) (text uri : Bytes) (params : Option Parameters)
          → History board s.world
          → is_fresh P.dht.info_hash (next_pin P b s) board ≡ true
          → IsUnused P b text params s
          → IsReadable P held b s keyid params text
          → (bin_paste P b text params s).0 ≡ ok uri
          → uri ≢ []
          → History
              (pin_up (record { pin = next_pin P b s; uri = uri; text = shown params text }) board)
              (bin_paste P b text params s).1.world
      miss :
          {board : Board} (s : Process P) (text : Bytes) (params : Option Parameters)
          → History board s.world
          → is_fresh P.dht.info_hash (next_pin P b s) board ≡ true
          → History board (bin_paste P b text params s).1.world
      ask :
          {board : Board} (s : Process P) (uri : Bytes) (no_decrypt : Bool)
          → History board s.world
          → History board (bin_get P b uri no_decrypt s).1.world
      join :
          {board : Board} (w : P.World) (host port : Bytes) (n : ℕ)
          → History board w
          → History board (P.dht.bootstrap host port (P.dht.run n w))
