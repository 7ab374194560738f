-- ===== src/Tests/Configs.antt =====
-- The configuration files of tests/misc and of config/, and the theorems at lines of them.
use dpaste.Prelude.{
  ℕ, [], ◌∷◌, ◌++◌, Option, none, some, Bytes, codes, equal, getline, replicate, ◌≡◌, ◌≢◌, refl,
  arith, map,
}
use dpaste.Conf.{
  Config, blank, trim_str, find_first_not_of, find_last_not_of, lookup, assign, store_arg,
  scan_line, scan_file, load_line, load_text, load, make_file, default_config, ConfigurationFile,
}
use dpaste.Conf.Trim.{IsTrimmed, trim_str-IsTrimmed, trim_str_blanks}
use dpaste.Conf.Options.{IsWritable, load_line-embedded}
use dpaste.Conf.RoundTrip.{render, lookup-load_text}

-- tests/misc/dpaste.conf.1 and dpaste.conf.2
abbrev good_file : Bytes
good_file = codes "host = 192.168.1.100\nport = 6500\n"

abbrev bad_file : Bytes
bad_file = codes "host 192.168.1.100\nport = 6500\n"

abbrev disk : Bytes → Option Bytes
disk path = some bad_file

abbrev file : ConfigurationFile
file = record { file_path = codes "dpaste.conf"; config = default_config }

loads :
    (lookup (codes "host") (load_text default_config good_file) ≡ some (codes "192.168.1.100"))
    × (lookup (codes "port") (load_text default_config good_file) ≡ some (codes "6500"))
    × (lookup (codes "host") (load_text default_config bad_file) ≡ some (codes "127.0.0.1"))
    × (lookup (codes "port") (load_text default_config bad_file) ≡ some (codes "6500"))
unfolding scan_file scan_line store_arg assign trim_str lookup equal getline find_first_not_of
    find_last_not_of
loads = (refl, refl, refl, refl)

missing : (load (λ path. none) (make_file (codes "/x") [])).0 ≡ 1
unfolding load make_file
missing = refl

trims : trim_str (codes "  a b ") ≡ codes "a b"
unfolding trim_str find_first_not_of find_last_not_of
trims = refl

host_IsTrimmed : IsTrimmed (codes "host")
unfolding trim_str find_first_not_of find_last_not_of
host_IsTrimmed = trim_str-IsTrimmed (codes "host")

address_IsTrimmed : IsTrimmed (codes "10.0.0.1")
unfolding trim_str find_first_not_of find_last_not_of
address_IsTrimmed = trim_str-IsTrimmed (codes "10.0.0.1")

pub host_IsWritable : IsWritable (codes "host") (codes "10.0.0.1")
host_IsWritable = record {
  key_trimmed = host_IsTrimmed;
  key_free = ground arith;
  value_trimmed = address_IsTrimmed;
  value_free = ground arith;
  value_given = λ e. cc;
}

known_host : lookup (codes "host") default_config ≡ some (codes "127.0.0.1")
unfolding lookup equal
known_host = refl

trim_str_blanks_example :
    ((m n : ℕ) × (codes " a " ≡ replicate m blank ++ (trim_str (codes " a ") ++ replicate n blank))
      × IsTrimmed (trim_str (codes " a ")))
    × ((t : Bytes) (m n : ℕ)
        → IsTrimmed t
        → codes " a " ≡ replicate m blank ++ (t ++ replicate n blank)
        → trim_str (codes " a ") ≡ t)
trim_str_blanks_example = trim_str_blanks (codes " a ")

unknown_note : lookup (trim_str (codes "# note ")) default_config ≡ none
unfolding lookup equal trim_str find_first_not_of find_last_not_of
unknown_note = refl

abbrev noted : Config
noted = load_line default_config (codes "# note =host = 10.0.0.1")

load_line-embedded_example :
    (noted ≡ load_line default_config (codes "host = 10.0.0.1"))
    × (lookup (codes "host") noted ≡ some (codes "10.0.0.1"))
    × ((other : Bytes) → codes "host" ≢ other → lookup other noted ≡ lookup other default_config)
    × (map (λ e. e.0) noted ≡ map (λ e. e.0) default_config)
load_line-embedded_example =
    load_line-embedded default_config 0 1 1 0 (codes "# note ") (codes "host") (codes "10.0.0.1")
      (codes "127.0.0.1") (ground arith) unknown_note host_IsWritable known_host

lookup-load_text_example :
    lookup
      (codes "host")
      (load_text default_config (render ((codes "host", codes "10.0.0.1") ∷ [])))
    ≡ some (codes "10.0.0.1")
unfolding lookup equal
lookup-load_text_example =
    lookup-load_text ((codes "host", codes "10.0.0.1") ∷ []) default_config
      (host_IsWritable, (ground arith), tt) ((codes "127.0.0.1", known_host), refl, tt)
      (codes "host")
