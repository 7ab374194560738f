-- ===== src/Tests/Options.antt =====
-- What the options of a command line do to a paste on the toy platform.
use dpaste.Prelude.{List, [], ◌∷◌, Bytes, codes, ◌≡◌, refl}
use dpaste.Effects.{Result, ok}
use dpaste.Args.{Opt, params_from_args, parse_opts, parse_opt}
use dpaste.Args.Laws.{given, arguments}
use dpaste.Packet.{Packet}
use dpaste.Bin.{prepare_data}
use dpaste.Main.Encryption.{params_of, IsSealed, prepare_data-IsSealed, prepare_data_unsealed}
use dpaste.Tests.Toy.{toy, toy_bin, start, toy-AesSound}
use dpaste.Tests.Reads.{toy-Reads}
use dpaste.Tests.Sealing.{configured, prepared, message, note}

-- --gpg-encrypt -r alice, and -r alice alone
abbrev sealing : List Opt
sealing = (b'4', []) ∷ (b'r', codes "alice") ∷ []

abbrev forgotten : List Opt
forgotten = (b'r', codes "alice") ∷ []

prepared_by : List Opt → Result (Packet × Bytes)
unfolding prepared params_from_args parse_opts parse_opt
prepared_by os = (prepare_data toy toy_bin note (params_of toy toy_bin os) start).0

sealing_sealed : prepared_by sealing ≡ ok (record { payload = message; signature = [] }, [])
unfolding prepared_by
sealing_sealed = refl

forgotten_open : prepared_by forgotten ≡ ok (record { payload = note; signature = [] }, [])
unfolding prepared_by
forgotten_open = refl

prepare_data-IsSealed_example : IsSealed toy toy_bin sealing (codes "ABCD") note [] message
unfolding prepared_by given arguments
prepare_data-IsSealed_example =
    prepare_data-IsSealed toy toy_bin sealing note [] (codes "ABCD")
      (record { payload = message; signature = [] }) start toy-Reads toy-AesSound.encrypt-full
      configured (refl, (refl, tt)) refl sealing_sealed

prepare_data_unsealed_example : note ≡ note
unfolding prepared_by given arguments
prepare_data_unsealed_example =
    prepare_data_unsealed toy toy_bin forgotten note [] (record { payload = note; signature = [] })
      start toy-Reads refl (refl, tt) refl forgotten_open
