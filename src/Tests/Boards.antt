-- ===== src/Tests/Boards.antt =====
-- A history of pastes by two processes on the toy platform.
use mathlib.Core.List.{append_cancel_left, append_cancel_right}
use mathlib.Core.List.Memᴰ.{head}
use dpaste.Prelude.{
  true, false, [], ◌∷◌, ◌++◌, Option, some, Bytes, codes, equal, equal_iff, ◌≡◌, ◌≢◌, refl, sym,
  inl, inr, arith, Bool-cases,
}
use dpaste.Effects.{ok}
use dpaste.Params.{Parameters, gpg_parameters, aes_parameters}
use dpaste.Conf.{lookup}
use dpaste.Platform.{Process}
use dpaste.Http.{value_url}
use dpaste.Bin.{
  bin_get, bin_paste, conf_at, fresh_pin, publish, prepare_data, make_plan, make_packet,
}
use dpaste.Pin.{random_pin, format_pin}
use dpaste.Http.{http_put, read_body}
use dpaste.Packet.{serialize}
use dpaste.Log.{dpaste_msg}
use dpaste.Aes.{aes_process_plain_text}
use dpaste.Gpg.{
  is_gpg_encrypted, make_gpg, get_key, get_keys, encrypt, encrypt_with, data_to_vector, read_loop,
  all_recipients, gpg_process_plain_text,
}
use dpaste.Cipher.{cipher_of_scheme, process_plain_text}
use dpaste.Bin.RoundTrip.{next_pin, IsUnused}
use dpaste.Bin.Readable.{Reliable}
use dpaste.Store.{Spared}
use dpaste.Store.Posts.{Post, Board, empty_board, pin_up, holds, is_fresh}
use dpaste.Store.Board.{Network, History, blank, post, ask}
use dpaste.Store.Refinement.{bin_get-holds}
use dpaste.Bin.Store.{Answers}
use dpaste.Tests.Toy.{
  World, toy, toy_bin, start, toy_start, toy-Sound, toy-AesSound, toy-IsFree, serve, stored,
  stored_kept, kept, query,
}
use dpaste.Tests.Reads.{ToyHeld, alice-IsOwn}
use dpaste.Tests.Sealing.{toy-GpgSound, configured}

toy-Reliable : Reliable toy ToyHeld toy_bin (codes "ABCD")
toy-Reliable = record {
  sound = toy-Sound;
  aes = toy-AesSound;
  gpg = toy-GpgSound;
  scheme = refl;
  configured = configured;
}

-- A text put under another pin is not at the address.
stored_other :
    (pin other v : Bytes) (w : World)
    → pin ≢ other
    → stored
        (value_url toy toy_bin.http_client pin ++ query)
        ((value_url toy toy_bin.http_client other ++ query, v) ∷ w)
      ≡ stored (value_url toy toy_bin.http_client pin ++ query) w
unfolding stored
stored_other pin other v w apart =
    let here = value_url toy toy_bin.http_client pin ++ query in
    let there = value_url toy toy_bin.http_client other ++ query in
    elim (Bool-cases (equal there here)) [
      | inl e ↦
          let same = (equal_iff there here).0 e in
          let pins =
            append_cancel_right other pin query (
              append_cancel_left (codes "http://127.0.0.1/") (other ++ query) (pin ++ query)
                same) in
          absurd (apart (sym pins))
      | inr e ↦ rw e refl
    ]

-- Nor is a value of the table there under another pin, or for what the server takes.
kept_other :
    (pin other v : Bytes) (w : World) → pin ≢ other → kept pin ((b'#' ∷ other, v) ∷ w) ≡ kept pin w
unfolding kept
kept_other pin other v w apart = elim (Bool-cases (equal (b'#' ∷ other) (b'#' ∷ pin))) [
  | inl e ↦ absurd (apart (sym (append_cancel_left (b'#' ∷ []) other pin ((equal_iff _ _).0 e))))
  | inr e ↦ rw e refl
]

kept_stored : (pin url v : Bytes) (w : World) → kept pin ((b'h' ∷ url, v) ∷ w) ≡ kept pin w
unfolding kept equal
kept_stored pin url v w = refl

toy-Spared :
    (pin other blob : Bytes)
    → pin ≢ other
    → Spared toy (λ w. Answers toy toy_bin.http_client w pin blob) toy_bin.http_client other
unfolding serve
toy-Spared pin other blob apart = record {
  put_server = λ v w h. rw (stored_other pin other v w apart, kept_stored pin _ v w) h;
  put_table = λ v w h. rw (stored_kept _ other v w, kept_other pin other v w apart) h;
}

toy-Network : Network toy toy_bin
unfolding serve
toy-Network = record {
  steady = λ pin blob. record {
    encrypt = λ signers keys text w h. h;
    decrypt_verify = λ text w h. h;
    sign = λ keys text w h. h;
    verify = λ signature text w h. h;
    aes_encrypt = λ text pwd w h. h;
    ask = λ c code w h. h;
    search = λ code w h. h;
  };
  spared = toy-Spared;
  joining = λ pin blob host port n w h. h;
}

-- Somebody pastes a note with AES, somebody else with another seed pastes one for alice, and a
-- third process gets an address that is not there.
abbrev secret : Option Parameters
secret = some (aes_parameters (record { password = [] }))

abbrev for_alice : Option Parameters
for_alice = some (
    gpg_parameters (record {
      key_id = [];
      recipients = codes "alice" ∷ [];
      self_recipient = false;
      sign = false;
    }))

abbrev first : Process toy
first = (bin_paste toy toy_bin (codes "hi") secret start).1

abbrev other : Process toy
other = toy_start toy first.world (record { rand = 1; seed = 5; initialized = false })

abbrev second : Process toy
second = (bin_paste toy toy_bin (codes "dear") for_alice other).1

addresses :
    ((bin_paste toy toy_bin (codes "hi") secret start).0 ≡ ok (codes "dpaste:74236E6274236E62"))
    × ((bin_paste toy toy_bin (codes "dear") for_alice other).0 ≡ ok (codes "dpaste:00000005"))
unfolding bin_paste fresh_pin random_pin format_pin publish http_put serve serialize prepare_data
    make_plan conf_at lookup equal cipher_of_scheme make_gpg get_key get_keys make_packet
    process_plain_text gpg_process_plain_text aes_process_plain_text all_recipients encrypt
    encrypt_with data_to_vector read_loop dpaste_msg
addresses = (refl, refl)

pins :
    (next_pin toy toy_bin start ≡ codes "74236E62")
    × (next_pin toy toy_bin other ≡ codes "00000005")
unfolding random_pin format_pin bin_paste
pins = (refl, refl)

abbrev dear : Post
dear = record {
  pin = next_pin toy toy_bin other;
  uri = codes "dpaste:00000005";
  text = codes "dear" ++ 0 ∷ [];
}

abbrev hi : Post
hi = record {
  pin = next_pin toy toy_bin start;
  uri = codes "dpaste:74236E6274236E62";
  text = codes "hi";
}

abbrev board : Board
board = pin_up dear (pin_up hi empty_board)

apart : is_fresh toy.dht.info_hash (next_pin toy toy_bin other) (pin_up hi empty_board) ≡ true
unfolding is_fresh pin_up equal random_pin format_pin bin_paste
apart = refl

first_of_all : is_fresh toy.dht.info_hash (next_pin toy toy_bin start) empty_board ≡ true
unfolding is_fresh
first_of_all = refl

-- The second pin is not in use in the stores, where the first note is.
free : IsUnused toy toy_bin (codes "dear") for_alice other
unfolding serve stored kept equal read_body bin_paste fresh_pin random_pin format_pin publish
    http_put serialize prepare_data make_plan conf_at lookup cipher_of_scheme make_gpg get_key
    get_keys make_packet process_plain_text gpg_process_plain_text aes_process_plain_text
    all_recipients encrypt encrypt_with data_to_vector read_loop dpaste_msg
free = λ p pwd e. ((λ s. refl, refl), λ h. cc)

past :
    History toy toy_bin ToyHeld
      (codes "ABCD")
      board
      (bin_get toy toy_bin (codes "nope") false second).1.world
unfolding is_gpg_encrypted prepare_data make_plan make_packet cipher_of_scheme process_plain_text
    aes_process_plain_text fresh_pin dpaste_msg
past = ask second (codes "nope") false (
    post other (codes "dear") (codes "dpaste:00000005") for_alice
      (post start (codes "hi") (codes "dpaste:74236E6274236E62") secret (blank []) first_of_all
        (λ p pwd e. toy-IsFree _ _) (omega arith, refl) addresses.0 (λ e. cc))
      apart free (inr (refl, omega arith, (codes "alice", head refl, alice-IsOwn))) addresses.1
      (λ e. cc))

bin_get-holds_example :
    (bin_get toy toy_bin
      (codes "dpaste:74236E6274236E62")
      false
      (bin_get toy toy_bin (codes "nope") false second).1).0
    ≡ ok (true, codes "hi")
unfolding holds pin_up equal
bin_get-holds_example =
    bin_get-holds toy toy_bin ToyHeld (codes "ABCD") toy-Reliable toy-Network board _ _
      (codes "dpaste:74236E6274236E62") (codes "hi") past refl refl
