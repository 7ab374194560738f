-- ===== src/Conf/Options.antt =====
-- `ConfigurationFile::load` of src/conf.cpp: the options that lines and files set.
use dpaste.Prelude.{
  ℕ, zero, suc, false, [], ◌∷◌, ◌++◌, Option, none, some, ◌≡◌, ◌≢◌, refl, ap, ◌∙◌, inl, inr,
  Option-cases, ◌==◌, length, All-append, replicate, map, Bytes,
}
use dpaste.Conf.{
  blank, trim_str, Config, lookup, assign, store_arg, load_line, ConfigurationFile, load,
}
use dpaste.Conf.Lines.{
  Free, lookup-assign_self, lookup-assign_ne, load_line-known, load_line-unknown, keys-scan_file,
  keys-assign,
}
use dpaste.Conf.Trim.{IsTrimmed, trim_str_of_trimmed}

abbrev pub padded : ℕ → ℕ → Bytes → Bytes
padded m n t = replicate m blank ++ (t ++ replicate n blank)

replicate-Free : (d n : ℕ) → (blank == d) ≡ false → Free d (replicate n blank)
replicate-Free d zero h = tt
replicate-Free d (suc n) h = (h, replicate-Free d n h)

pub padded-Free : (d m n : ℕ) (t : Bytes) → (blank == d) ≡ false → Free d t → Free d (padded m n t)
padded-Free d m n t h f =
    All-append _ (replicate m blank) _ (replicate-Free d m h)
      (All-append _ t _ f (replicate-Free d n h))

store_arg_lem :
    (name arg value : Bytes) (c : Config)
    → trim_str arg ≡ value
    → value ≢ []
    → store_arg name arg c ≡ assign name value c
unfolding store_arg
store_arg_lem name arg [] c e ne = absurd (ne refl)
store_arg_lem name arg (x ∷ v) c e ne = rw e

-- The text `key = value`, with blanks as the numbers say.
abbrev pub pair_line : ℕ → ℕ → ℕ → ℕ → Bytes → Bytes → Bytes
pair_line m n p q key value = padded m n key ++ (b'=' ∷ padded p q value)

-- A key that can stand before the `=`, and a value that can stand behind it.
pub record IsWritable (key value : Bytes) : Type 0 where
  pub key_trimmed : IsTrimmed key
  pub key_free : Free b'=' key
  pub value_trimmed : IsTrimmed value
  pub value_free : Free b'\n' value
  pub value_given : value ≢ []

pub load_line-pair :
    (c : Config) (m n p q : ℕ) (key value old : Bytes)
    → IsWritable key value
    → lookup key c ≡ some old
    → load_line c (pair_line m n p q key value) ≡ assign key value c
load_line-pair c m n p q key value old w has =
    let named = trim_str_of_trimmed m n key w.key_trimmed in
    let known : lookup (trim_str (padded m n key)) c ≡ some old = rw named has in
    load_line-known c (padded m n key) (padded p q value) old
      (padded-Free b'=' m n key refl w.key_free) (padded-Free b'\n' p q value refl w.value_free)
      known
    ∙ rw named (
        store_arg_lem key (padded p q value) value c (trim_str_of_trimmed p q value w.value_trimmed)
          w.value_given)

-- A line `key = value`, with any blanks round the key and the value, whose key is an option and
-- whose value is not empty, gives that option that value and leaves every other option alone.
pub load_line-assign :
    (c : Config) (m n p q : ℕ) (key value old : Bytes)
    → IsWritable key value
    → lookup key c ≡ some old
    → (lookup key (load_line c (pair_line m n p q key value)) ≡ some value)
      × ((other : Bytes)
          → key ≢ other
          → lookup other (load_line c (pair_line m n p q key value)) ≡ lookup other c)
load_line-assign c m n p q key value old w has =
    rw (load_line-pair c m n p q key value old w has)
      (lookup-assign_self key value old c has, λ other ne. lookup-assign_ne key other value c ne)

-- Text before an `=` that names no option is dropped with its `=`: the whole configuration is as
-- after the line `key = value` alone. That option has the value, every other one is left alone, and
-- no option is added, for the text or otherwise.
pub load_line-embedded :
    (c : Config) (m n p q : ℕ) (junk key value old : Bytes)
    → Free b'=' junk
    → lookup (trim_str junk) c ≡ none
    → IsWritable key value
    → lookup key c ≡ some old
    → let line = junk ++ (b'=' ∷ pair_line m n p q key value) in
      (load_line c line ≡ load_line c (pair_line m n p q key value))
      × (lookup key (load_line c line) ≡ some value)
      × ((other : Bytes) → key ≢ other → lookup other (load_line c line) ≡ lookup other c)
      × (map (λ e. e.0) (load_line c line) ≡ map (λ e. e.0) c)
load_line-embedded c m n p q junk key value old f unknown w has =
    let dropped = load_line-unknown c junk (pair_line m n p q key value) f unknown in
    let (set, others) = load_line-assign c m n p q key value old w has in
    rw dropped (
      refl,
      set,
      others,
      ap (map (λ e. e.0)) (load_line-pair c m n p q key value old w has) ∙ keys-assign key value c,
    )

-- The return code for a file that can be opened, or not.
abbrev pub status : Option Bytes → ℕ
status none = 1
status (some text) = 0

-- Keys are neither added nor removed by loading a file, and the path stays. The return code is 0
-- where the file can be opened, and 1 where it cannot.
pub load-keys :
    (disk : Bytes → Option Bytes) (f : ConfigurationFile)
    → (map (λ e. e.0) (load disk f).1.config ≡ map (λ e. e.0) f.config)
      × ((load disk f).1.file_path ≡ f.file_path)
      × ((load disk f).0 ≡ status (disk f.file_path))
unfolding load
load-keys disk f = elim (Option-cases (disk f.file_path)) [
  | inl e ↦ rw (e, load) (refl, refl, refl)
  | inr (text, e) ↦ rw (e, load) (keys-scan_file (suc (length text)) f.config text, refl, refl)
]
