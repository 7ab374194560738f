-- ===== src/Conf/Lines.antt =====
-- The loops of `ConfigurationFile::load` of src/conf.cpp, line by line.
use dpaste.Prelude.{
  ℕ, zero, suc, ◌<◌, false, [], ◌∷◌, ◌++◌, none, some, ◌≡◌, ◌≢◌, refl, sym, ◌∙◌, inl, inr, arith,
  ◌==◌, Option-cases, length, length-append, All, map, Bytes, equal_iff, getline,
}
use dpaste.Conf.{
  trim_str, Config, lookup, assign, store_arg, scan_line, load_line, scan_file, load_text,
}

-- The text does not hold the byte.
abbrev pub Free : ℕ → Bytes → Type 0
Free d = All (λ c. (c == d) ≡ false)

pub getline-Free : (d : ℕ) (a r : Bytes) → Free d a → getline d (a ++ (d ∷ r)) ≡ some (a, r)
unfolding getline
getline-Free d [] r h = ground arith
getline-Free d (c ∷ a) r h = rw (h.0, getline-Free d a r h.1)

pub getline_last : (d c : ℕ) (a : Bytes) → Free d (c ∷ a) → getline d (c ∷ a) ≡ some (c ∷ a, [])
unfolding getline
getline_last d c [] h = rw h.0
getline_last d c (x ∷ a) h = rw (h.0, getline_last d x a h.1)

-- Every call takes a byte at least.
pub getline-lt : (d : ℕ) (s a r : Bytes) → getline d s ≡ some (a, r) → length r < length s
unfolding getline
getline-lt d [] a r e = cc
getline-lt d (c ∷ s) a r e = elim (Option-cases (getline d s)) [
  | inl n ↦ ground arith
  | inr ((b, q), n) ↦ ground (arith, getline-lt d s b q n)
]

pub keys-assign : (k v : Bytes) (m : Config) → map (λ e. e.0) (assign k v m) ≡ map (λ e. e.0) m
unfolding assign
keys-assign k v [] = refl
keys-assign k v ((j, w) ∷ m) = ground (arith, keys-assign k v m)

pub lookup-assign_self :
    (k v w : Bytes) (m : Config) → lookup k m ≡ some w → lookup k (assign k v m) ≡ some v
unfolding lookup assign
lookup-assign_self k v w [] h = cc
lookup-assign_self k v w ((j, u) ∷ m) h = ground (arith, lookup-assign_self k v w m)

pub lookup-assign_ne : (k j v : Bytes) (m : Config) → k ≢ j → lookup j (assign k v m) ≡ lookup j m
unfolding lookup assign
lookup-assign_ne k j v [] h = refl
lookup-assign_ne k j v ((i, u) ∷ m) h =
    ground (arith, lookup-assign_ne k j v m h, equal_iff i k, equal_iff i j)

module _ (f : ℕ) (c : Config) (s : Bytes) where
  scan_line-end : getline b'=' s ≡ none → scan_line (suc f) c s ≡ c
  unfolding scan_line
  scan_line-end e = rw (e, scan_line)

  scan_line-unknown :
      (a r : Bytes)
      → getline b'=' s ≡ some (a, r)
      → lookup (trim_str a) c ≡ none
      → scan_line (suc f) c s ≡ scan_line f c r
  unfolding scan_line
  scan_line-unknown a r e n = rw (e, scan_line) (rw n)

  scan_line-bare :
      (a r w : Bytes)
      → getline b'=' s ≡ some (a, r)
      → lookup (trim_str a) c ≡ some w
      → getline b'\n' r ≡ none
      → scan_line (suc f) c s ≡ c
  unfolding scan_line
  scan_line-bare a r w e n g = rw (e, scan_line) (rw (n, g))

  scan_line-known :
      (a r w b q : Bytes)
      → getline b'=' s ≡ some (a, r)
      → lookup (trim_str a) c ≡ some w
      → getline b'\n' r ≡ some (b, q)
      → scan_line (suc f) c s ≡ scan_line f (store_arg (trim_str a) b c) q
  unfolding scan_line
  scan_line-known a r w b q e n g = rw (e, scan_line) (rw (n, g))

scan_line-nil : (f : ℕ) (c : Config) → scan_line f c [] ≡ c
unfolding scan_line getline
scan_line-nil zero c = refl
scan_line-nil (suc f) c = refl

-- The loop over a line does not depend on its fuel, once there is more of it than bytes.
pub scan_line_fuel :
    (f g : ℕ) (c : Config) (s : Bytes)
    → length s < f
    → length s < g
    → scan_line f c s ≡ scan_line g c s
scan_line_fuel zero g c s h k = absurd (omega arith)
scan_line_fuel (suc f) zero c s h k = absurd (omega arith)
scan_line_fuel (suc f) (suc g) c s h k = elim (Option-cases (getline b'=' s)) [
  | inl e ↦ scan_line-end f c s e ∙ sym (scan_line-end g c s e)
  | inr ((a, r), e) ↦
      let below : length r < length s = getline-lt b'=' s a r e in
      elim (Option-cases (lookup (trim_str a) c)) [
        | inl n ↦
            scan_line-unknown f c s a r e n
            ∙ scan_line_fuel f g c r (omega arith) (omega arith)
            ∙ sym (scan_line-unknown g c s a r e n)
        | inr (w, n) ↦ elim (Option-cases (getline b'\n' r)) [
          | inl m ↦ scan_line-bare f c s a r w e n m ∙ sym (scan_line-bare g c s a r w e n m)
          | inr ((b, q), m) ↦
              let under : length q < length r = getline-lt b'\n' r b q m in
              scan_line-known f c s a r w b q e n m
              ∙ scan_line_fuel f g _ q (omega arith) (omega arith)
              ∙ sym (scan_line-known g c s a r w b q e n m)
        ]
      ]
]

-- `key = value` with any blanks: the key's value is replaced, or kept if the new one is empty.
pub load_line-known :
    (c : Config) (lhs rhs w : Bytes)
    → Free b'=' lhs
    → Free b'\n' rhs
    → lookup (trim_str lhs) c ≡ some w
    → load_line c (lhs ++ (b'=' ∷ rhs)) ≡ store_arg (trim_str lhs) rhs c
load_line-known c lhs [] w h k n =
    scan_line-bare _ c _ lhs [] w (getline-Free b'=' lhs [] h) n (unfold getline in refl)
    ∙ unfold store_arg trim_str in refl
load_line-known c lhs (x ∷ rhs) w h k n =
    scan_line-known (length (lhs ++ (b'=' ∷ x ∷ rhs))) c _ lhs (x ∷ rhs) w (x ∷ rhs) []
      (getline-Free b'=' lhs (x ∷ rhs) h) n (getline_last b'\n' x rhs k)
    ∙ scan_line-nil (length (lhs ++ (b'=' ∷ x ∷ rhs))) _

-- Where the text before the first `=` is no key, the line counts from behind that `=`.
pub load_line-unknown :
    (c : Config) (lhs rest : Bytes)
    → Free b'=' lhs
    → lookup (trim_str lhs) c ≡ none
    → load_line c (lhs ++ (b'=' ∷ rest)) ≡ load_line c rest
load_line-unknown c lhs rest h n =
    scan_line-unknown _ c _ lhs rest (getline-Free b'=' lhs rest h) n
    ∙ scan_line_fuel _ _ c rest (omega (arith, length-append lhs (b'=' ∷ rest))) (omega arith)

-- A line with no `=` changes nothing.
pub load_line-Free : (c : Config) (line : Bytes) → Free b'=' line → load_line c line ≡ c
load_line-Free c [] h = unfold scan_line getline in refl
load_line-Free c (x ∷ s) h = elim (Option-cases (lookup (trim_str (x ∷ s)) c)) [
  | inl n ↦
      scan_line-unknown _ c _ (x ∷ s) [] (getline_last b'=' x s h) n
      ∙ scan_line-nil (suc (length s)) c
  | inr (w, n) ↦
      scan_line-bare _ c _ (x ∷ s) [] w (getline_last b'=' x s h) n (unfold getline in refl)
]

scan_file-cons :
    (f : ℕ) (c : Config) (s a r : Bytes)
    → getline b'\n' s ≡ some (a, r)
    → scan_file (suc f) c s ≡ scan_file f (load_line c a) r
unfolding scan_file
scan_file-cons f c s a r e = rw (e, scan_file)

-- The outer loop does not depend on its fuel either.
pub scan_file_fuel :
    (f g : ℕ) (c : Config) (s : Bytes)
    → length s < f
    → length s < g
    → scan_file f c s ≡ scan_file g c s
scan_file_fuel zero g c s h k = absurd (omega arith)
scan_file_fuel (suc f) zero c s h k = absurd (omega arith)
scan_file_fuel (suc f) (suc g) c s h k = elim (Option-cases (getline b'\n' s)) [
  | inl e ↦ unfold scan_file in rw (e, scan_file)
  | inr ((a, r), e) ↦
      let below : length r < length s = getline-lt b'\n' s a r e in
      scan_file-cons f c s a r e
      ∙ scan_file_fuel f g (load_line c a) r (omega arith) (omega arith)
      ∙ sym (scan_file-cons g c s a r e)
]

-- The first line acts, then the rest of the file.
pub load_text-cons :
    (c : Config) (line rest : Bytes)
    → Free b'\n' line
    → load_text c (line ++ (b'\n' ∷ rest)) ≡ load_text (load_line c line) rest
load_text-cons c line rest h =
    scan_file-cons _ c _ line rest (getline-Free b'\n' line rest h)
    ∙ scan_file_fuel _ _ (load_line c line) rest (omega (arith, length-append line (b'\n' ∷ rest)))
        (omega arith)

keys-store_arg :
    (name arg : Bytes) (c : Config) → map (λ e. e.0) (store_arg name arg c) ≡ map (λ e. e.0) c
unfolding store_arg
keys-store_arg name arg c = ground (arith, keys-assign name (trim_str arg) c)

-- Loading a line or a text keeps the keys, at any fuel.
pub keys-scan_line :
    (f : ℕ) (c : Config) (s : Bytes) → map (λ e. e.0) (scan_line f c s) ≡ map (λ e. e.0) c
keys-scan_line zero c s = unfold scan_line in refl
keys-scan_line (suc f) c s = elim (Option-cases (getline b'=' s)) [
  | inl e ↦ rw (scan_line-end f c s e)
  | inr ((a, r), e) ↦ elim (Option-cases (lookup (trim_str a) c)) [
    | inl n ↦ rw (scan_line-unknown f c s a r e n) (keys-scan_line f c r)
    | inr (w, n) ↦ elim (Option-cases (getline b'\n' r)) [
      | inl m ↦ rw (scan_line-bare f c s a r w e n m)
      | inr ((b, q), m) ↦
          rw (scan_line-known f c s a r w b q e n m)
            (keys-scan_line f _ q ∙ keys-store_arg (trim_str a) b c)
    ]
  ]
]

pub keys-scan_file :
    (f : ℕ) (c : Config) (s : Bytes) → map (λ e. e.0) (scan_file f c s) ≡ map (λ e. e.0) c
keys-scan_file zero c s = unfold scan_file in refl
keys-scan_file (suc f) c s = elim (Option-cases (getline b'\n' s)) [
  | inl e ↦ unfold scan_file in rw (e, scan_file)
  | inr ((a, r), e) ↦
      rw (scan_file-cons f c s a r e) (keys-scan_file f (load_line c a) r ∙ keys-scan_line _ c a)
]
