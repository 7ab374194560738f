-- ===== src/Tests/Starts.antt =====
-- The program started on the toy platform: what it prints and logs, and its object.
use dpaste.Prelude.{
  ℕ, All, pos, ◌-◌, true, [], ◌∷◌, ◌++◌, some, Bytes, codes, replicate, length-replicate, take, ◌≡◌,
  arith,
}
use dpaste.Effects.{ok}
use dpaste.Args.{ParsedArgs, no_args}
use dpaste.Log.{dpaste_msg_prefix, buffer_size, print_log}
use dpaste.Log.Truncation.{print_log-truncated}
use dpaste.Bin.{make_bin, conf_at, loaded_config, is_space, read_long}
use dpaste.Bin.Start.{make_bin-ok}
use dpaste.Tests.Toy.{toy, start}

abbrev version_args : ParsedArgs
version_args = record no_args { version = true }

make_bin-ok_example :
    (host port : Bytes) × (conf_at (loaded_config toy) (codes "host") ≡ ok host)
    × (conf_at (loaded_config toy) (codes "port") ≡ ok port)
    × (make_bin toy start ≡ (
      ok (record {
        conf = loaded_config toy;
        http_client = record { host = host; port = read_long (pos 0) port };
        node = record { running = true };
      }),
      start,
    ))
    × (All (λ c. is_space c ≡ true) port → read_long (pos 0) port ≡ pos 0)
make_bin-ok_example = make_bin-ok toy start

abbrev dots : Bytes
dots = replicate 9000 b'.'

print_log-truncated_example :
    print_log (some dots)
    ≡ dpaste_msg_prefix
      ++ (take (buffer_size - 1) dots ++ (0 ∷ codes "[[TRUNCATED]]" ++ b'\n' ∷ []))
print_log-truncated_example =
    print_log-truncated dots (omega (arith, length-replicate {A = ℕ} 9000 b'.'))
