-- ===== src/Tests/Setup.antt =====
-- A configuration file on the toy platform, the object made from it, and a get of nothing.
use dpaste.Prelude.{
  ◌-◌, ◌^◌, pos, negsuc, true, false, [], ◌∷◌, List, some, Bytes, codes, equal, ◌≡◌, refl, arith,
}
use dpaste.Effects.{ok}
use dpaste.Args.{no_args}
use dpaste.Uri.{code_from_dpaste_uri}
use dpaste.Conf.{
  lookup, load, make_file, default_config, trim_str, find_first_not_of, find_last_not_of,
}
use dpaste.Conf.Trim.{trim_str-IsTrimmed}
use dpaste.Conf.Options.{IsWritable}
use dpaste.Conf.RoundTrip.{render, override}
use dpaste.Platform.{Platform, Process}
use dpaste.Gpg.{gpg_init}
use dpaste.Cipher.{cipher_init}
use dpaste.Cipher.Init.{InitOutcome, cipher_init-again}
use dpaste.Node.{node_run}
use dpaste.Bin.{Bin, make_bin, conf_at, loaded_config, read_long, to_long}
use dpaste.Bin.Port.{decimal, minus, read_long-decimal}
use dpaste.Bin.Configured.{make_bin-render}
use dpaste.Main.{run_args}
use dpaste.Main.Missing.{IsMissing, run_args-missing}
use dpaste.Main.Phases.{ready}
use dpaste.Http.{read_body}
use dpaste.Tests.Toy.{toy, toy_start, start, serve, stored, kept}
use dpaste.Tests.Configs.{host_IsWritable}
use dpaste.Tests.Runs.{bare_bin, bare_made}

-- Too small for a `long`.
read_long-decimal_example :
    read_long (pos 4222) (codes " -9223372036854775809 km")
    ≡ to_long true (decimal (codes "9223372036854775809"))
read_long-decimal_example =
    read_long-decimal (pos 4222) (codes " ") minus (codes "9223372036854775809") (codes " km")
      (ground arith) (ground arith) (λ e. cc) refl

smallest : to_long true (decimal (codes "9223372036854775809")) ≡ negsuc (2 ^ 63 - 1)
smallest = refl

abbrev options : List (Bytes × Bytes)
options = (codes "host", codes "10.0.0.1") ∷ (codes "port", codes "6500") ∷ []

port_IsWritable : IsWritable (codes "port") (codes "6500")
unfolding trim_str find_first_not_of find_last_not_of
port_IsWritable = record {
  key_trimmed = trim_str-IsTrimmed (codes "port");
  key_free = ground arith;
  value_trimmed = trim_str-IsTrimmed (codes "6500");
  value_free = ground arith;
  value_given = λ e. cc;
}

abbrev with_file : Platform
with_file = record toy { disk = λ path. some (render options) }

abbrev file_start : Process with_file
file_start = toy_start with_file [] (record { rand = 0; seed = 0; initialized = false })

make_bin-render_example :
    (b : Bin) × ((make_bin with_file file_start).0 ≡ ok b)
    × (b.http_client ≡ record { host = codes "10.0.0.1"; port = pos (decimal (codes "6500")) })
    × ((k : Bytes) → lookup k b.conf ≡ override (lookup k options) (lookup k default_config))
unfolding lookup equal
make_bin-render_example =
    make_bin-render with_file options (codes "10.0.0.1") (codes "6500") file_start refl
      (host_IsWritable, ground arith, (port_IsWritable, ground arith, tt))
      ((codes "127.0.0.1", refl), refl, ((codes "6509", refl), refl, tt)) refl refl (ground arith)
      (λ e. cc) (omega arith)

-- The engine of GpgME is not there.
abbrev no_engine : Platform
no_engine = record toy { gpgme = record toy.gpgme { check_engine = λ w. some (codes "none") } }

abbrev engine_start : Process no_engine
engine_start = toy_start no_engine [] (record { rand = 0; seed = 0; initialized = false })

cipher_init-again_example : InitOutcome no_engine engine_start
cipher_init-again_example = cipher_init-again no_engine engine_start

nothing_there : IsMissing toy bare_bin (codes "74236E62") (ready toy start).world
unfolding cipher_init gpg_init make_bin conf_at loaded_config load make_file lookup equal node_run
    serve stored read_body kept
nothing_there = (λ s. refl, refl)

run_args-missing_example :
    ((run_args toy (record no_args { code = codes "dpaste:74236E62" }) [] start).0 ≡ ok 0)
    × ((run_args toy (record no_args { code = codes "dpaste:74236E62" }) [] start).1.out ≡ [])
unfolding code_from_dpaste_uri
run_args-missing_example =
    run_args-missing toy bare_bin (record no_args { code = codes "dpaste:74236E62" })
      (codes "74236E62") [] start bare_made (λ w. refl) (refl, refl, refl) refl refl (omega arith)
      nothing_there
