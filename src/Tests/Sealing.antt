-- ===== src/Tests/Sealing.antt =====
-- Pastes with the parameters of GPG on the toy platform.
use mathlib.Core.List.Memᴰ.{head, tail}
use dpaste.Prelude.{
  true, false, [], ◌∷◌, ◌++◌, some, Bytes, codes, equal, length, length-append, ◌≡◌, refl, ◌^◌, ◌<◌,
  arith,
}
use dpaste.Effects.{Exception, Result, ok, throw}
use dpaste.Params.{GpgParameters, gpg_parameters}
use dpaste.Pin.{random_pin, format_pin}
use dpaste.Platform.{Process}
use dpaste.Log.{dpaste_msg}
use dpaste.Gpg.{
  is_gpg_encrypted, make_gpg, get_key, get_keys, encrypt, encrypt_with, data_to_vector, read_loop,
  sign, all_recipients, gpg_process_plain_text,
}
use dpaste.Gpg.Message.{IsMessage}
use dpaste.Cipher.{cipher_of_scheme, process_plain_text}
use dpaste.Http.{http_put}
use dpaste.Packet.{Packet, serialize}
use dpaste.Bin.{
  bin_get, bin_paste, conf_at, fresh_pin, prepare_data, make_plan, make_packet, publish,
}
use dpaste.Conf.{lookup}
use dpaste.Bin.Recipients.{IsSealedTo, prepare_data-IsSealedTo}
use dpaste.Bin.RoundTrip.{after_pin}
use dpaste.Bin.Unknown.{bin_paste-unknown}
use dpaste.Bin.Sealed.{GpgSound, bin_get-bin_paste_gpg}
use dpaste.Tests.Toy.{toy, toy_bin, start, toy-Sound, toy-IsFree, serve, toy_message}
use dpaste.Tests.Reads.{ToyHeld, alice-IsOwn, toy-Reads, toy-Opens}

abbrev pub note : Bytes
note = codes "hi"

abbrev for_alice : GpgParameters
for_alice = record {
  key_id = [];
  recipients = codes "alice" ∷ [];
  self_recipient = true;
  sign = true;
}

abbrev for_nobody : GpgParameters
for_nobody = record { key_id = []; recipients = []; self_recipient = true; sign = true }

known : (text c : Bytes) → IsMessage toy text c → is_gpg_encrypted toy c ≡ true
unfolding is_gpg_encrypted
known text c (signers, keys, w, e, m) = rw m refl

message_size : (text c : Bytes) → length text < 2 ^ 31 → IsMessage toy text c → length c < 2 ^ 32
message_size text c h (signers, keys, w, e, m) =
    rw m (omega (arith, length-append (toy_message text) (0 ∷ [])))

pub toy-GpgSound : GpgSound toy ToyHeld
toy-GpgSound = record {
  opens = toy-Opens;
  context = λ w. refl;
  known = known;
  message_size = message_size;
  signature_size = λ keys text w h. omega arith;
  verify-sign = λ keys text w u h. refl;
}

unfoldable pub prepared : GpgParameters → Result (Packet × Bytes)
unfolding prepare_data make_plan conf_at lookup equal cipher_of_scheme make_gpg get_key get_keys
    make_packet process_plain_text gpg_process_plain_text all_recipients encrypt encrypt_with
    data_to_vector read_loop sign dpaste_msg
prepared gp = (prepare_data toy toy_bin note (some (gpg_parameters gp)) start).0

abbrev pub message : Bytes
message = 254 ∷ 3 ∷ note ++ 0 ∷ 0 ∷ []

sealed : prepared for_alice ≡ ok (record { payload = message; signature = [] }, [])
unfolding prepared
sealed = refl

open_note : prepared for_nobody ≡ ok (record { payload = note; signature = codes "signed" }, [])
unfolding prepared
open_note = refl

pub configured : conf_at toy_bin.conf (codes "pgp_key_id") ≡ ok (codes "ABCD")
unfolding conf_at lookup equal
configured = refl

prepare_data-IsSealedTo_example :
    IsSealedTo toy (codes "ABCD") for_alice note message
    × (◌≡◌ {A = Bytes} [] [])
    × (◌≡◌ {A = Bytes} [] [])
unfolding prepared
prepare_data-IsSealedTo_example =
    prepare_data-IsSealedTo toy toy_bin note [] (codes "ABCD") for_alice
      (record { payload = message; signature = [] }) start toy-Reads configured refl sealed

pasted : GpgParameters → Result Bytes
unfolding bin_paste fresh_pin random_pin format_pin publish http_put serve serialize prepared
pasted gp = (bin_paste toy toy_bin note (some (gpg_parameters gp)) start).0

pasted_address :
    (pasted for_alice ≡ ok (codes "dpaste:74236E62"))
    × (pasted for_nobody ≡ ok (codes "dpaste:74236E62"))
unfolding pasted
pasted_address = (refl, refl)

bin_get-bin_paste_gpg_example :
    (bin_get toy toy_bin
      (codes "dpaste:74236E62")
      false
      (bin_paste toy toy_bin note (some (gpg_parameters for_alice)) start).1).0
    ≡ ok (true, note ++ 0 ∷ [])
unfolding pasted prepared
bin_get-bin_paste_gpg_example =
    bin_get-bin_paste_gpg toy ToyHeld toy-GpgSound toy_bin note (codes "dpaste:74236E62")
      (codes "ABCD") (codes "alice") for_alice start toy-Sound configured refl (head refl)
      alice-IsOwn (omega arith) (λ p pwd e. toy-IsFree _ _) pasted_address.0 (λ e. cc)

-- The second recipient has an empty name, which the toy platform knows no key of.
abbrev for_no_name : GpgParameters
for_no_name = record {
  key_id = [];
  recipients = codes "alice" ∷ [] ∷ [];
  self_recipient = true;
  sign = true;
}

abbrev ready_for_no_name : Result (Packet × Bytes) × Process toy
ready_for_no_name =
    prepare_data toy toy_bin note (some (gpg_parameters for_no_name)) (after_pin toy toy_bin start)

bin_paste-unknown_example :
    (e : Exception) × (ready_for_no_name.0 ≡ throw e)
    × (bin_paste toy toy_bin note (some (gpg_parameters for_no_name)) start
        ≡ (throw e, ready_for_no_name.1))
bin_paste-unknown_example =
    bin_paste-unknown toy toy_bin note (codes "ABCD") [] for_no_name start toy-Reads configured
      (tail (head refl)) (λ w. (codes "no key", refl))
