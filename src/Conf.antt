-- ===== src/Conf.antt =====
-- src/conf.h and src/conf.cpp: the configuration file. The map `config_` is an association list
-- over its fixed keys; the file system is a function from a path to the text of a readable file.
pub mod Trim
pub mod Lines
pub mod Options
pub mod RoundTrip
use dpaste.Prelude.{
  ℕ, zero, suc, ◌+◌, ◌-◌, min, String, Bool, true, false, List, [], ◌∷◌, ◌++◌, Option, none, some,
  ◌==◌, if◌then◌else◌, length, Bytes, codes, equal, is_empty, later, slice, getline,
}

abbrev pub blank : ℕ
blank = b' '

-- `str.find_first_not_of(" ")`, with `none` for `npos`.
unfoldable pub find_first_not_of : ℕ → Bytes → Option ℕ
find_first_not_of d [] = none
find_first_not_of d (c ∷ s) = if c == d then later (find_first_not_of d s) else some 0

-- `str.find_last_not_of(" ")`
unfoldable pub find_last_not_of : ℕ → Bytes → Option ℕ
find_last_not_of d [] = none
find_last_not_of d (c ∷ s) = elim (find_last_not_of d s) [
  | some i ↦ some (suc i)
  | none ↦ if c == d then none else some 0
]

-- `std::min(str.size(), position)`; `npos` is above every size.
abbrev pub min_size : Bytes → Option ℕ → ℕ
min_size s none = length s
min_size s (some i) = min (length s) i

unfoldable pub trim_str : Bytes → Bytes
unfolding find_first_not_of find_last_not_of
trim_str s =
    let first = min_size s (find_first_not_of blank s) in
    let last = min_size s (find_last_not_of blank s) in slice s first (last - first + 1)

abbrev pub Config : Type 0
Config = List (Bytes × Bytes)

-- `config_.find(key)`, and `config_.at(key)`
unfoldable pub lookup : Bytes → Config → Option Bytes
lookup k [] = none
lookup k ((j, v) ∷ m) = if equal j k then some v else lookup k m

-- `ait->second = value`
unfoldable pub assign : Bytes → Bytes → Config → Config
assign k v [] = []
assign k v ((j, w) ∷ m) = if equal j k then (j, v) ∷ m else (j, w) ∷ assign k v m

pub record ConfigurationFile : Type 0 where
  pub file_path : Bytes
  pub config : Config

abbrev pub config_file_name : Bytes
config_file_name = codes "dpaste.conf"

abbrev pub default_config : Config
default_config =
    (codes "host", codes "127.0.0.1") ∷ (codes "port", codes "6509") ∷ (codes "pgp_key_id", []) ∷ []

-- The constructor; the first argument is `Glib::get_user_config_dir()`.
unfoldable pub make_file : Bytes → Bytes → ConfigurationFile
make_file config_dir file_path = record {
  file_path = if is_empty file_path then config_dir ++ (b'/' ∷ config_file_name) else file_path;
  config = default_config;
}

-- `if (not arg.empty()) ait->second = arg`, after `trim_str(arg)`.
unfoldable pub store_arg : Bytes → Bytes → Config → Config
store_arg name arg c = if is_empty (trim_str arg) then c else assign name (trim_str arg) c

-- The inner loop, over the unread part of one line.
unfoldable pub scan_line : ℕ → Config → Bytes → Config
unfolding store_arg
scan_line zero c ss = c
scan_line (suc fuel) c ss = elim (getline b'=' ss) [
  | none ↦ c
  | some (arg_name, rest) ↦ elim (lookup (trim_str arg_name) c) [
    | none ↦ scan_line fuel c rest
    | some _ ↦ elim (getline b'\n' rest) [
      | none ↦ c
      | some (arg, rest') ↦ scan_line fuel (store_arg (trim_str arg_name) arg c) rest'
    ]
  ]
]

-- One line: every round takes a byte at least, so that this fuel is enough.
abbrev pub load_line : Config → Bytes → Config
load_line c line = scan_line (suc (length line)) c line

-- The outer loop, over the unread part of the file.
unfoldable pub scan_file : ℕ → Config → Bytes → Config
unfolding scan_line
scan_file zero c text = c
scan_file (suc fuel) c text = elim (getline b'\n' text) [
  | none ↦ c
  | some (line, rest) ↦ scan_file fuel (load_line c line) rest
]

abbrev pub load_text : Config → Bytes → Config
load_text c text = scan_file (suc (length text)) c text

-- The return code and the object afterwards.
unfoldable pub load : (Bytes → Option Bytes) → ConfigurationFile → ℕ × ConfigurationFile
unfolding scan_file
load disk f = elim (disk f.file_path) [
  | none ↦ (1, f)
  | some text ↦ (0, record f { config = load_text f.config text })
]
