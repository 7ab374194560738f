-- ===== src/Tests/Runs.antt =====
-- Two runs of the program on the toy platform, and one run with several calls.
use dpaste.Prelude.{
  ◌⊎◌, inl, ◌∷◌, ◌++◌, pos, true, false, [], ◌++◌, none, Bytes, codes, equal, ◌≡◌, refl, arith,
}
use dpaste.Effects.{ok}
use dpaste.Args.{ParsedArgs, no_args, params_from_args}
use dpaste.Platform.{Process}
use dpaste.Conf.{default_config, lookup, load, make_file}
use dpaste.Pin.{random_pin, format_pin}
use dpaste.Log.{dpaste_msg}
use dpaste.Gpg.{is_gpg_encrypted, gpg_init}
use dpaste.Cipher.{cipher_init, cipher_of_scheme, process_plain_text}
use dpaste.Aes.{aes_process_plain_text}
use dpaste.Http.{http_put}
use dpaste.Node.{node_run}
use dpaste.Packet.{serialize}
use dpaste.Bin.{
  Bin, read_long, read_digits, make_bin, conf_at, loaded_config, fresh_pin, prepare_data, make_plan,
  make_packet, publish, bin_paste, bin_get, bin_paste_stream, data_from_stream,
}
use dpaste.Bin.Published.{Sound}
use dpaste.Bin.RoundTrip.{next_pin}
use dpaste.Main.{run_args, run_paste}
use dpaste.Main.Totality.{IsAddress, run_args_total}
use dpaste.Bin.Readable.{Reliable}
use dpaste.Main.RoundTrip.{Lasting, get_args, run_args-run_args}
use dpaste.Frame.Session.{Session, begin, paste, get, Session-next_pin}
use dpaste.Tests.Toy.{toy, toy_bin, start, toy_start, toy-Sound, toy-AesSound, toy-IsFree, serve}
use dpaste.Tests.Sealing.{toy-GpgSound}
use dpaste.Tests.Reads.{ToyHeld}

abbrev note : Bytes
note = codes "hello"

-- The object of a run with no configuration file.
abbrev pub bare_bin : Bin
bare_bin = record {
  conf = default_config;
  http_client = record { host = codes "127.0.0.1"; port = pos 6509 };
  node = record { running = true };
}

pub bare_made : (make_bin toy start).0 ≡ ok bare_bin
unfolding make_bin conf_at loaded_config load make_file lookup equal node_run read_long read_digits
bare_made = refl

bare-Sound : Sound toy bare_bin
bare-Sound = record {
  draw-lt = toy-Sound.draw-lt;
  packing = toy-Sound.packing;
  keeps = toy-Sound.keeps;
}

bare-Lasting : Lasting toy bare_bin.http_client
bare-Lasting = record { engine = λ w. refl; joining = λ code blob host port n w h. h }

bare-Reliable : Reliable toy ToyHeld bare_bin []
unfolding conf_at lookup equal
bare-Reliable = record {
  sound = bare-Sound;
  aes = toy-AesSound;
  gpg = toy-GpgSound;
  scheme = refl;
  configured = refl;
}

-- The command line --aes-encrypt.
abbrev with_aes : ParsedArgs
with_aes = record no_args { aes_encrypt = true }

-- A run that pastes the note.
abbrev after_first : Process toy
after_first = (run_args toy with_aes note start).1

first_run : (run_args toy with_aes note start).0 ≡ ok 0
unfolding run_args run_paste cipher_init gpg_init bin_paste_stream data_from_stream params_from_args
    make_bin conf_at loaded_config load make_file lookup equal node_run read_long read_digits
    bin_paste fresh_pin random_pin format_pin prepare_data make_plan make_packet cipher_of_scheme
    publish http_put serve dpaste_msg serialize process_plain_text aes_process_plain_text
first_run = refl

first_line : after_first.out ≡ codes "dpaste:74236E6274236E62\n"
unfolding run_args run_paste cipher_init gpg_init bin_paste_stream data_from_stream params_from_args
    make_bin conf_at loaded_config load make_file lookup equal node_run read_long read_digits
    bin_paste fresh_pin random_pin format_pin prepare_data make_plan make_packet cipher_of_scheme
    publish http_put serve dpaste_msg serialize process_plain_text aes_process_plain_text
first_line = refl

-- Another run, with nothing of the first but its outside world.
abbrev second_start : Process toy
second_start = toy_start toy after_first.world (record { rand = 1; seed = 2; initialized = false })

run_args-run_args_example :
    ((run_args toy (get_args (codes "dpaste:74236E6274236E62")) [] second_start).0 ≡ ok 0)
    × ((run_args toy (get_args (codes "dpaste:74236E6274236E62")) [] second_start).1.out
        ≡ [] ++ note)
unfolding data_from_stream params_from_args is_gpg_encrypted prepare_data make_plan make_packet
    cipher_of_scheme process_plain_text aes_process_plain_text dpaste_msg fresh_pin cipher_init
    gpg_init serialize make_bin conf_at loaded_config equal node_run
run_args-run_args_example =
    run_args-run_args toy ToyHeld bare_bin with_aes [] note (codes "dpaste:74236E6274236E62") []
      start second_start bare-Reliable bare-Lasting bare_made (refl, refl, refl) refl
      (λ p pwd e. toy-IsFree _ _) (omega arith, refl) first_run first_line refl

run_args_total_example :
    (uri : Bytes) × (after_first.out ≡ [] ++ (uri ++ b'\n' ∷ []))
    × (((run_args toy with_aes note start).0 ≡ ok 0) × IsAddress toy true uri
        ⊎ ((run_args toy with_aes note start).0 ≡ ok 1) × (uri ≡ []))
run_args_total_example =
    run_args_total toy bare_bin with_aes note start toy-Sound.draw-lt toy-AesSound.encrypt-full
      (λ w. refl) refl bare_made (refl, refl, refl) refl (inl refl)

-- A paste, a get of nonsense that throws, and another paste.
abbrev calls : Process toy
calls =
    (bin_paste toy toy_bin note none
      (bin_get toy toy_bin (codes "nope") false (bin_paste toy toy_bin note none start).1).1).1

calls-Session : Session toy toy_bin start calls
calls-Session = paste note none (get (codes "nope") false (paste note none begin))

Session-next_pin_example : next_pin toy toy_bin calls ≡ next_pin toy toy_bin start
Session-next_pin_example = Session-next_pin toy toy_bin start calls calls-Session refl
