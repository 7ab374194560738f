-- ===== src/Conf/RoundTrip.antt =====
-- `ConfigurationFile::load` of src/conf.cpp on a file that is written from options.
use dpaste.Prelude.{
  List, [], ◌∷◌, ◌++◌, Option, none, some, ◌≡◌, refl, ap, ◌∙◌, inl, inr, if◌then◌else◌, Bool-cases,
  All-append, Bytes, equal, equal_iff, equal_refl, getline,
}
use dpaste.Conf.{Config, lookup, assign, scan_file, load_text}
use dpaste.Conf.Lines.{Free, lookup-assign_self, lookup-assign_ne, load_text-cons}
use dpaste.Conf.Options.{padded, padded-Free, pair_line, IsWritable, load_line-pair}

-- The file that lists the given options, each on a line of its own.
pub render : List (Bytes × Bytes) → Bytes
render [] = []
render ((k, v) ∷ es) = pair_line 0 1 1 0 k v ++ (b'\n' ∷ render es)

abbrev pub Writable : List (Bytes × Bytes) → Type 0
Writable [] = Unit
Writable ((k, v) ∷ es) = IsWritable k v × Free b'\n' k × Writable es

-- Every listed key is an option, and none is listed twice.
abbrev pub Fits : Config → List (Bytes × Bytes) → Type 0
Fits c [] = Unit
Fits c ((k, v) ∷ es) = ((old : Bytes) × (lookup k c ≡ some old)) × (lookup k es ≡ none) × Fits c es

abbrev pub override : Option Bytes → Option Bytes → Option Bytes
override none old = old
override (some v) old = some v

Fits-assign :
    (k v w : Bytes) (c : Config) (es : List (Bytes × Bytes))
    → lookup k c ≡ some w
    → Fits c es
    → Fits (assign k v c) es
Fits-assign k v w c [] has f = tt
Fits-assign k v w c ((j, u) ∷ es) has ((old, e), fresh, f) = elim (Bool-cases (equal k j)) [
  | inl same ↦ (
    (v, rw (← (equal_iff k j).0 same) (lookup-assign_self k v w c has)),
    fresh,
    Fits-assign k v w c es has f,
  )
  | inr other ↦ (
    (old, lookup-assign_ne k j v c (λ s. cc (s, other, equal_refl k)) ∙ e),
    fresh,
    Fits-assign k v w c es has f,
  )
]

pair_line-Free : (k v : Bytes) → IsWritable k v → Free b'\n' k → Free b'\n' (pair_line 0 1 1 0 k v)
pair_line-Free k v w f =
    All-append _ (padded 0 1 k) _ (padded-Free b'\n' 0 1 k refl f)
      (refl, padded-Free b'\n' 1 0 v refl w.value_free)

load_text-render_cons :
    (c : Config) (k v old : Bytes) (es : List (Bytes × Bytes))
    → IsWritable k v
    → Free b'\n' k
    → lookup k c ≡ some old
    → load_text c (render ((k, v) ∷ es)) ≡ load_text (assign k v c) (render es)
unfolding render
load_text-render_cons c k v old es w f has =
    load_text-cons c (pair_line 0 1 1 0 k v) (render es) (pair_line-Free k v w f)
    ∙ ap (λ d. load_text d (render es)) (load_line-pair c 0 1 1 0 k v old w has)

lookup-cons :
    (j k v : Bytes) (c : Config)
    → lookup j ((k, v) ∷ c) ≡ (if equal k j then some v else lookup j c)
unfolding lookup
lookup-cons j k v c = refl

-- Loading a file written from options gives every listed option its value, and every other option
-- the value it had, whatever the values are (not empty, no blank at an end, on one line).
pub lookup-load_text :
    (es : List (Bytes × Bytes)) (c : Config)
    → Writable es
    → Fits c es
    → (j : Bytes) → lookup j (load_text c (render es)) ≡ override (lookup j es) (lookup j c)
lookup-load_text [] c w f j = unfold render scan_file getline lookup in refl
lookup-load_text ((k, v) ∷ es) c (w, free, ws) ((old, has), fresh, f) j =
    rw (load_text-render_cons c k v old es w free has) (
      lookup-load_text es (assign k v c) ws (Fits-assign k v old c es has f) j
      ∙ elim (Bool-cases (equal k j)) [
        | inl same ↦
            let e : k ≡ j = (equal_iff k j).0 same in
            rw (lookup-cons j k v es, same, ← e) (rw (fresh, lookup-assign_self k v old c has))
        | inr other ↦
            rw (lookup-cons j k v es, other)
              (rw (lookup-assign_ne k j v c (λ s. cc (s, other, equal_refl k))))
      ])
