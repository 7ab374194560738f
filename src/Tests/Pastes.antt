-- ===== src/Tests/Pastes.antt =====
-- Pastes and gets on the toy platform.
use dpaste.Prelude.{
  Bool, true, false, [], ◌++◌, Option, none, some, Bytes, codes, equal, ◌≡◌, refl, arith,
}
use dpaste.Effects.{Result, ok}
use dpaste.Params.{Parameters, aes_parameters, AesParameters}
use dpaste.Pin.{format_pin, random_pin}
use dpaste.Uri.{code_from_dpaste_uri}
use dpaste.Platform.{Process}
use dpaste.Log.{dpaste_msg, print_log}
use dpaste.Aes.{aes_process_plain_text, aes_process_cipher_text}
use dpaste.Gpg.{is_gpg_encrypted}
use dpaste.Cipher.{cipher_of_text, cipher_of_scheme, process_plain_text, process_cipher_text}
use dpaste.Http.{http_get, http_put, read_body}
use dpaste.Packet.{Packet, serialize, deserialize}
use dpaste.Bin.{
  bin_get, bin_paste, fresh_pin, prepare_data, make_plan, make_packet, publish, fetch, open_packet,
}
use dpaste.Bin.Store.{IsTaken}
use dpaste.Bin.Paste.{bin_paste-publish}
use dpaste.Bin.RoundTrip.{next_pin, after_pin, bin_get-bin_paste}
use dpaste.Bin.Secret.{bin_get-bin_paste_aes, bin_paste_password}
use dpaste.Tests.ToyPacking.{unpack, unpack_pairs, unpack_pair, unpack_leaf}
use dpaste.Tests.Toy.{toy, toy_bin, start, toy-Sound, toy-AesSound, toy-IsFree, serve, stored}

-- A text, and the parameters of `--aes-encrypt`.
abbrev note : Bytes
note = codes "hello"

abbrev no_password : AesParameters
no_password = record { password = [] }

pasted : Option Parameters → Result Bytes × Process toy
unfolding bin_paste fresh_pin random_pin format_pin prepare_data make_plan make_packet
    cipher_of_scheme process_plain_text aes_process_plain_text publish http_put serve dpaste_msg
    print_log serialize
pasted params = bin_paste toy toy_bin note params start

got : Bytes → Process toy → Result (Bool × Bytes)
unfolding bin_get code_from_dpaste_uri fetch http_get read_body serve stored equal open_packet
    deserialize unpack unpack_pairs unpack_pair unpack_leaf cipher_of_text is_gpg_encrypted
    process_cipher_text aes_process_cipher_text dpaste_msg print_log
got uri s = (bin_get toy toy_bin uri false s).0

plain_address : (pasted none).0 ≡ ok (codes "dpaste:74236E62")
unfolding pasted
plain_address = refl

aes_address : (pasted (some (aes_parameters no_password))).0 ≡ ok (codes "dpaste:74236E6274236E62")
unfolding pasted
aes_address = refl

plain_got : got (codes "dpaste:74236E62") (pasted none).1 ≡ ok (true, note)
unfolding got pasted
plain_got = refl

bin_get-bin_paste_example :
    (bin_get toy toy_bin
      (codes "dpaste:74236E62")
      false
      (bin_paste toy toy_bin note none start).1).0
    ≡ ok (true, note)
unfolding pasted is_gpg_encrypted
bin_get-bin_paste_example =
    bin_get-bin_paste toy toy_bin note (codes "dpaste:74236E62") false start toy-Sound refl refl
      (omega arith) (λ p pwd e. toy-IsFree _ _) plain_address (λ e. cc)

bin_get-bin_paste_aes_example :
    (bin_get toy toy_bin
      (codes "dpaste:74236E6274236E62")
      false
      (bin_paste toy toy_bin note (some (aes_parameters no_password)) start).1).0
    ≡ ok (true, note)
unfolding pasted is_gpg_encrypted
bin_get-bin_paste_aes_example =
    bin_get-bin_paste_aes toy toy_bin note (codes "dpaste:74236E6274236E62") no_password start
      toy-Sound toy-AesSound (omega arith) refl (λ p pwd e. toy-IsFree _ _) aes_address (λ e. cc)

bin_paste_password_example :
    codes "dpaste:74236E6274236E62"
    ≡ codes "dpaste:" ++ (next_pin toy toy_bin start ++ next_pin toy toy_bin start)
unfolding pasted
bin_paste_password_example =
    bin_paste_password toy toy_bin note (codes "dpaste:74236E6274236E62") no_password start
      toy-AesSound.encrypt-full refl aes_address (λ e. cc)

bin_paste-publish_example :
    (p : Packet) × (pwd : Bytes) × (t : Process toy) × (prepare_data toy toy_bin note none
        (after_pin toy toy_bin start)
      ≡ (ok (p, pwd), t))
    × IsTaken toy toy_bin
        (next_pin toy toy_bin start)
        (serialize toy.msgpack p)
        t.world
        (bin_paste toy toy_bin note none start).1.world
    × (codes "dpaste:74236E62" ≡ codes "dpaste:" ++ (next_pin toy toy_bin start ++ pwd))
unfolding pasted
bin_paste-publish_example =
    bin_paste-publish toy toy_bin note (codes "dpaste:74236E62") none start plain_address (λ e. cc)
