-- ===== src/Main.antt =====
-- `main` of src/main.cpp.
pub mod Usage
pub mod Encryption
pub mod Phases
pub mod Missing
pub mod Returns
pub mod RoundTrip
pub mod Totality
use dpaste.Prelude.{ℕ, Bool, true, false, List, [], ◌∷◌, ◌++◌, Bytes, is_empty, if◌then◌else◌}
use dpaste.Effects.{ok, ◌>>=◌, ◌>>◌, give}
use dpaste.Args.{ParsedArgs, LongOption, Opt, parse_args, params_from_args, print_help}
use dpaste.Platform.{Platform, Do}
use dpaste.Cipher.{cipher_init}
use dpaste.Bin.{Bin, make_bin, bin_get, bin_paste_stream}

module _ (P : Platform) where
  -- `std::cout << text`
  abbrev pub print : Bytes → Do P (Unit {0})
  print text s = (ok tt, record s { out = s.out ++ text })

  unfoldable pub run_get : Bin → Bytes → Bool → Do P ℕ
  run_get b code no_decrypt = do
    r ← bin_get P b code no_decrypt
    elim r.0 [ true ↦ do print r.1; give 0 | false ↦ give 1 ]

  unfoldable pub run_paste : Bin → Bytes → ParsedArgs → Do P ℕ
  run_paste b input pa = do
    uri ← bin_paste_stream P b input (params_from_args P.garbage pa)
    print (uri ++ b'\n' ∷ [])
    give (if is_empty uri then 1 else 0)

  -- What follows the parsing; `input` is the standard input.
  unfoldable pub run_args : ParsedArgs → Bytes → Do P ℕ
  run_args pa input = elim pa.fail [
    | true ↦ give 1
    | false ↦ elim pa.help [
      | true ↦ do print (print_help P.package_name); give 0
      | false ↦ elim pa.version [
        | true ↦ do print (P.version ++ b'\n' ∷ []); give 0
        | false ↦ do
          b ← make_bin P
          cipher_init P
          elim (is_empty pa.code) [
            | false ↦ run_get b pa.code pa.no_decrypt
            | true ↦ run_paste b input pa
          ]
      ]
    ]
  ]

  unfoldable pub main :
      (List Bytes → Bytes → List LongOption → List Opt) → List Bytes → Bytes → Do P ℕ
  main getopt_long argv input = run_args (parse_args getopt_long argv) input
