-- ===== src/Main/Usage.antt =====
-- `main` of src/main.cpp where it only prints: refused arguments, the help text and the version.
use dpaste.Prelude.{
  true, ◌||◌, [], ◌∷◌, ◌++◌, Bytes, if◌then◌else◌, ◌≡◌, Bool-cases, inl, inr, append-nil,
}
use dpaste.Effects.{ok}
use dpaste.Args.{ParsedArgs, print_help}
use dpaste.Platform.{Platform, Process}
use dpaste.Main.{run_args}

module _ (P : Platform) where
  -- What is printed, the help text first.
  abbrev pub usage : ParsedArgs → Bytes
  usage pa =
      if pa.fail then [] else if pa.help then print_help P.package_name else P.version ++ b'\n' ∷ []

  -- If the arguments are refused, or the help text or the version is asked for, then nothing is
  -- done but to print, and the return code is 1 exactly if the arguments are refused.
  pub run_args-usage :
      (pa : ParsedArgs) (input : Bytes) (s : Process P)
      → (pa.fail || (pa.help || pa.version)) ≡ true
      → run_args P pa input s
        ≡ (ok (if pa.fail then 1 else 0), record s { out = s.out ++ usage pa })
  unfolding run_args
  run_args-usage pa input s h = elim (Bool-cases pa.fail) [
    | inl f ↦ rw (f, run_args) (rw append-nil)
    | inr f ↦ elim (Bool-cases pa.help) [
      | inl e ↦ rw (f, run_args) (rw (e, run_args))
      | inr e ↦ rw (f, run_args) (rw (e, run_args) (rw (rw (f, e) at h, run_args)))
    ]
  ]
