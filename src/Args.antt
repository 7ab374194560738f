-- ===== src/Args.antt =====
-- src/main.cpp: the command line. `getopt_long` is a parameter: from the arguments, the short options
-- and the long ones it makes the options read, each with its argument, up to the end of the options
-- or to one that it refuses and the text of its complaint.
pub mod Laws
use dpaste.Prelude.{
  ℕ, Bool, true, false, List, [], ◌∷◌, ◌++◌, Option, none, some, Bytes, codes, ◌==◌, if◌then◌else◌,
}
use dpaste.Params.{Garbage, Parameters, gpg_parameters, aes_parameters}

pub record ParsedArgs : Type 0 where
  pub fail : Bool
  pub help : Bool
  pub version : Bool
  pub sign : Bool
  pub aes_encrypt : Bool
  pub gpg_encrypt : Bool
  pub no_decrypt : Bool
  pub self_recipient : Bool
  pub code : Bytes
  pub recipients : List Bytes

abbrev pub no_args : ParsedArgs
no_args = record {
  fail = false;
  help = false;
  version = false;
  sign = false;
  aes_encrypt = false;
  gpg_encrypt = false;
  no_decrypt = false;
  self_recipient = false;
  code = [];
  recipients = [];
}

-- An entry of `long_options`: the name, whether an argument is required, and the value.
pub record LongOption : Type 0 where
  pub name : Bytes
  pub has_arg : Bool
  pub val : ℕ

abbrev long_option : Bytes → Bool → ℕ → LongOption
long_option name has_arg val = record { name = name; has_arg = has_arg; val = val }

abbrev pub long_options : List LongOption
long_options =
    long_option (codes "help") false b'h'
    ∷ long_option (codes "version") false b'v'
    ∷ long_option (codes "get") true b'g'
    ∷ long_option (codes "aes-encrypt") false b'3'
    ∷ long_option (codes "gpg-encrypt") false b'4'
    ∷ long_option (codes "recipients") true b'r'
    ∷ long_option (codes "sign") false b's'
    ∷ long_option (codes "no-decrypt") false b'1'
    ∷ long_option (codes "self-recipient") false b'2'
    ∷ []

abbrev pub short_options : Bytes
short_options = codes "hvg:r:s"

-- One option as `getopt_long` returns it, with `optarg`.
abbrev pub Opt : Type 0
Opt = ℕ × Bytes

-- The body of the loop; `none` is the early return.
unfoldable pub parse_opt : Opt → ParsedArgs → Option ParsedArgs
parse_opt (opt, optarg) pa =
    if opt == b'h'
    then some (record pa { help = true })
    else if opt == b'v'
    then some (record pa { version = true })
    else if opt == b'g'
    then some (record pa { code = optarg })
    else if opt == b'3'
    then some (record pa { aes_encrypt = true })
    else if opt == b'4'
    then some (record pa { gpg_encrypt = true })
    else if opt == b'r'
    then some (record pa { recipients = pa.recipients ++ optarg ∷ [] })
    else if opt == b's'
    then some (record pa { sign = true })
    else if opt == b'1'
    then some (record pa { no_decrypt = true })
    else if opt == b'2'
    then some (record pa { self_recipient = true })
    else none

unfoldable pub parse_opts : List Opt → ParsedArgs → ParsedArgs
unfolding parse_opt
parse_opts [] pa = pa
parse_opts (o ∷ os) pa = elim (parse_opt o pa) [
  | none ↦ record pa { fail = true }
  | some next ↦ parse_opts os next
]

-- `parseArgs`
unfoldable pub parse_args :
    (List Bytes → Bytes → List LongOption → List Opt) → List Bytes → ParsedArgs
unfolding parse_opts
parse_args getopt_long argv = parse_opts (getopt_long argv short_options long_options) no_args

unfoldable pub params_from_args : Garbage → ParsedArgs → Option Parameters
params_from_args g pa =
    if pa.aes_encrypt
    then some (aes_parameters (record { password = [] }))
    else if pa.gpg_encrypt
    then some (
        gpg_parameters (record {
          key_id = [];
          recipients = pa.recipients;
          self_recipient = pa.self_recipient;
          sign = pa.sign;
        }))
    else if pa.sign
    then some (
        gpg_parameters
          (record { key_id = []; recipients = []; self_recipient = g.flag; sign = pa.sign }))
    else none

abbrev unlines : List Bytes → Bytes
unlines [] = []
unlines (l ∷ ls) = l ++ (b'\n' ∷ unlines ls)

-- What `print_help` writes.
unfoldable pub print_help : Bytes → Bytes
print_help package_name = unlines (
    (package_name
      ++ (codes
          " -- A simple pastebin for light values (max 64KB) using OpenDHT distributed hash table."))
    ∷ []
    ∷ (codes "SYNOPSIS")
    ∷ (codes "    " ++ (package_name ++ (codes " [-h]")))
    ∷ (codes "    " ++ (package_name ++ (codes " [-v]")))
    ∷ (codes "    " ++ (package_name ++ (codes " [-g code]")))
    ∷ (codes "OPTIONS")
    ∷ (codes "    -h|--help")
    ∷ (codes "        Prints this help text.")
    ∷ (codes "    -v|--version")
    ∷ (codes "        Prints the program's version number.")
    ∷ (codes "    -g|--get {code}")
    ∷ (codes "        Get the pasted file under the code {code}.")
    ∷ (codes "    --aes-encrypt")
    ∷ (codes "        Use AES scheme for encryption. Password is automatically saved in ")
    ∷ (codes "        the returned code (\"dpaste:XXXXXX\").")
    ∷ (codes "    --gpg-encrypt")
    ∷ (codes "        Use GPG scheme for encryption/signing.")
    ∷ (codes "    -r|--recipients {recipient}")
    ∷ (codes "        Specify the list of recipients to use for GPG encryption (--gpg--encrypt). ")
    ∷ (codes "        Use '-r' multiple times to specify a list of recipients")
    ∷ (codes "    -s|--sign")
    ∷ (codes
        "        Tells wether message should be signed using the user's GPG key. The key has to be configured")
    ∷ (codes
        "        through the configuration file ($XDG_CONFIG_DIR/dpaste.conf, keyword: pgp_key_id).")
    ∷ (codes "    --no-decrypt")
    ∷ (codes "        Tells dpaste not to decrypt PGP data and rather output it on stdout.")
    ∷ (codes "    --self-recipient")
    ∷ (codes "        Include self as recipient. Self refers to the key id configured for signing")
    ∷ (codes
        "        (see --sign description). This only takes effect if option \"-e\" is also used.")
    ∷ []
    ∷ (codes "When -g option is ommited, "
        ++ (package_name ++ (codes " will read its standard input for a file to paste.")))
    ∷ [])
