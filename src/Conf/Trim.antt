-- ===== src/Conf/Trim.antt =====
-- `trim_str` of src/conf.cpp, and a reference that strips one end after the other.
use dpaste.Prelude.{
  ℕ, zero, suc, ◌+◌, ◌-◌, ◌≤◌, true, false, [], ◌∷◌, ◌++◌, Option, none, some, ◌≡◌, refl, sym, ap,
  ◌∙◌, inl, inr, arith, ◌==◌, if◌then◌else◌, Bool-cases, ==_iff, ◌≢◌, length, take, drop, replicate,
  Bytes, later, slice,
}
use dpaste.Conf.{blank, find_first_not_of, find_last_not_of, min_size, trim_str}

abbrev pub strip_left : Bytes → Bytes
strip_left [] = []
strip_left (c ∷ s) = if c == blank then strip_left s else c ∷ s

abbrev cons_right : ℕ → Bytes → Bytes
cons_right c [] = if c == blank then [] else c ∷ []
cons_right c (x ∷ s) = c ∷ x ∷ s

abbrev pub strip_right : Bytes → Bytes
strip_right [] = []
strip_right (c ∷ s) = cons_right c (strip_right s)

-- The number of bytes that `take` keeps of a text whose last solid byte is at `o`.
abbrev kept : Option ℕ → ℕ
kept none = 0
kept (some i) = suc i

take-last : (s : Bytes) → take (kept (find_last_not_of blank s)) s ≡ strip_right s
unfolding find_last_not_of
take-last [] = refl
take-last (c ∷ []) = ground arith
take-last (c ∷ d ∷ s) = ground (arith, take-last (d ∷ s))

-- Positions of a text are below its size.
last-lt : (s : Bytes) → kept (find_last_not_of blank s) ≤ length s
unfolding find_last_not_of
last-lt [] = omega arith
last-lt (c ∷ s) = ground (arith, last-lt s)

abbrev trim_at : Bytes → Option ℕ → Option ℕ → Bytes
trim_at s first last = slice s (min_size s first) (min_size s last - min_size s first + 1)

min_size-later :
    (c : ℕ) (s : Bytes) (o : Option ℕ) → min_size (c ∷ s) (later o) ≡ suc (min_size s o)
min_size-later c s none = refl
min_size-later c s (some i) = omega arith

trim_at-later :
    (c : ℕ) (s : Bytes) (o p : Option ℕ) → trim_at (c ∷ s) (later o) (later p) ≡ trim_at s o p
trim_at-later c s o p = rw (min_size-later c s o) (
    rw (min_size-later c s p) (
      ap (λ n. take n (drop (min_size s o) s))
        (let e : suc (min_size s p) - suc (min_size s o) + 1 ≡ min_size s p - min_size s o + 1 =
            omega arith in
          e)))

first-blank :
    (c : ℕ) (s : Bytes)
    → (c == blank) ≡ true
    → find_first_not_of blank (c ∷ s) ≡ later (find_first_not_of blank s)
unfolding find_first_not_of
first-blank c s h = rw h

last-blank :
    (c : ℕ) (s : Bytes)
    → (c == blank) ≡ true
    → find_last_not_of blank (c ∷ s) ≡ later (find_last_not_of blank s)
unfolding find_last_not_of
last-blank c s h = ground arith

-- A first byte that is not blank stays, whatever follows.
trim_at_zero :
    (c : ℕ) (s : Bytes)
    → (c == blank) ≡ false
    → trim_at (c ∷ s) (some 0) (find_last_not_of blank (c ∷ s)) ≡ strip_right (c ∷ s)
unfolding find_last_not_of
trim_at_zero c s h = ground (arith, take-last (c ∷ s), last-lt (c ∷ s))

trim_str_lem :
    (s : Bytes) → trim_str s ≡ trim_at s (find_first_not_of blank s) (find_last_not_of blank s)
unfolding trim_str
trim_str_lem s = refl

first-solid : (c : ℕ) (s : Bytes) → (c == blank) ≡ false → find_first_not_of blank (c ∷ s) ≡ some 0
unfolding find_first_not_of
first-solid c s h = rw h

-- `trim_str` is: strip the blanks on the left, then those on the right.
pub trim_str-strip : (s : Bytes) → trim_str s ≡ strip_right (strip_left s)
trim_str-strip [] = unfold trim_str in refl
trim_str-strip (c ∷ s) = elim (Bool-cases (c == blank)) [
  | inl b ↦
      trim_str_lem (c ∷ s)
      ∙ rw (first-blank c s b, last-blank c s b) (trim_at-later c s _ _)
      ∙ sym (trim_str_lem s)
      ∙ trim_str-strip s
      ∙ rw b
  | inr n ↦ trim_str_lem (c ∷ s) ∙ rw (n, first-solid c s n) (trim_at_zero c s n)
]

-- No blank at either end.
pub record IsTrimmed (t : Bytes) : Type 0 where
  pub head_solid : (c : ℕ) (s : Bytes) → t ≡ c ∷ s → c ≢ blank
  pub last_solid : (c : ℕ) (s : Bytes) → t ≡ s ++ c ∷ [] → c ≢ blank

strip_left-split : (s : Bytes) → (n : ℕ) × (s ≡ replicate n blank ++ strip_left s)
strip_left-split [] = (0, refl)
strip_left-split (c ∷ s) = elim (Bool-cases (c == blank)) [
  | inl b ↦ let (n, e) = strip_left-split s in (suc n, rw b (cc ((==_iff c blank).0 b, e)))
  | inr n ↦ (0, rw n)
]

strip_left_head : (s : Bytes) (c : ℕ) (r : Bytes) → strip_left s ≡ c ∷ r → c ≢ blank
strip_left_head [] c r e = cc
strip_left_head (d ∷ s) c r e = ground (arith, strip_left_head s c r)

cons_right-split :
    (c n : ℕ) (s r : Bytes)
    → s ≡ r ++ replicate n blank
    → (m : ℕ) × (c ∷ s ≡ cons_right c r ++ replicate m blank)
cons_right-split c n s [] e = elim (Bool-cases (c == blank)) [
  | inl b ↦ (suc n, rw b (cc ((==_iff c blank).0 b, e)))
  | inr k ↦ (n, rw k (ap (◌∷◌ c) e))
]
cons_right-split c n s (x ∷ r) e = (n, ap (◌∷◌ c) e)

strip_right-split : (s : Bytes) → (n : ℕ) × (s ≡ strip_right s ++ replicate n blank)
strip_right-split [] = (0, refl)
strip_right-split (c ∷ s) =
    let (n, e) = strip_right-split s in cons_right-split c n s (strip_right s) e

cons_right_last :
    (d : ℕ) (r : Bytes)
    → ((c : ℕ) (s : Bytes) → r ≡ s ++ c ∷ [] → c ≢ blank)
    → (c : ℕ) (s : Bytes) → cons_right d r ≡ s ++ c ∷ []
    → c ≢ blank
cons_right_last d [] h c [] e = ground arith
cons_right_last d [] h c (x ∷ []) e = ground arith
cons_right_last d [] h c (x ∷ y ∷ s) e = ground arith
cons_right_last d (x ∷ r) h c [] e = cc
cons_right_last d (x ∷ r) h c (y ∷ s) e = h c s (cc)

strip_right_last : (s : Bytes) (c : ℕ) (r : Bytes) → strip_right s ≡ r ++ c ∷ [] → c ≢ blank
strip_right_last [] c [] e = cc
strip_right_last [] c (x ∷ r) e = cc
strip_right_last (d ∷ s) c r e = cons_right_last d (strip_right s) (strip_right_last s) c r e

-- Stripping on the right keeps the first byte, unless nothing is left.
cons_right_head : (d : ℕ) (r : Bytes) (c : ℕ) (s : Bytes) → cons_right d r ≡ c ∷ s → c ≡ d
cons_right_head d [] c s e = ground arith
cons_right_head d (x ∷ r) c s e = cc

strip_head :
    (s : Bytes) (c : ℕ) (r : Bytes)
    → ((d : ℕ) (q : Bytes) → s ≡ d ∷ q → d ≢ blank)
    → strip_right s ≡ c ∷ r
    → c ≢ blank
strip_head [] c r h e = cc
strip_head (d ∷ s) c r h e = rw (cons_right_head d (strip_right s) c r e) (h d s refl)

pub trim_str-IsTrimmed : (s : Bytes) → IsTrimmed (trim_str s)
trim_str-IsTrimmed s = rw (trim_str-strip s) (record {
  head_solid = λ c r. strip_head (strip_left s) c r (strip_left_head s);
  last_solid = λ c r. strip_right_last (strip_left s) c r;
})

-- The text is its trimmed part between blanks.
trim_str-split :
    (s : Bytes) → (m n : ℕ) × (s ≡ replicate m blank ++ (trim_str s ++ replicate n blank))
trim_str-split s =
    let (m, e) = strip_left-split s in
    let (n, d) = strip_right-split (strip_left s) in
    (m, n, rw (trim_str-strip s) (e ∙ ap (◌++◌ (replicate m blank)) d))

strip_left-replicate : (n : ℕ) (s : Bytes) → strip_left (replicate n blank ++ s) ≡ strip_left s
strip_left-replicate zero s = refl
strip_left-replicate (suc n) s = strip_left-replicate n s

strip_left_blanks : (n : ℕ) → strip_left (replicate n blank) ≡ []
strip_left_blanks zero = refl
strip_left_blanks (suc n) = strip_left_blanks n

strip_left_self : (s : Bytes) → ((c : ℕ) (r : Bytes) → s ≡ c ∷ r → c ≢ blank) → strip_left s ≡ s
strip_left_self [] h = refl
strip_left_self (c ∷ s) h = ground (arith, h c s refl)

strip_right-replicate : (n : ℕ) → strip_right (replicate n blank) ≡ []
strip_right-replicate zero = refl
strip_right-replicate (suc n) = rw (strip_right-replicate n)

strip_right_self :
    (s : Bytes) (n : ℕ)
    → ((c : ℕ) (r : Bytes) → s ≡ r ++ c ∷ [] → c ≢ blank)
    → strip_right (s ++ replicate n blank) ≡ s
strip_right_self [] n h = strip_right-replicate n
strip_right_self (c ∷ []) n h = rw (strip_right-replicate n) (ground (arith, h c [] refl))
strip_right_self (c ∷ d ∷ s) n h =
    rw (strip_right_self (d ∷ s) n (λ x r e. h x (c ∷ r) (ap (◌∷◌ c) e)))

-- Blanks round a trimmed text do not matter.
pub trim_str_of_trimmed :
    (m n : ℕ) (t : Bytes)
    → IsTrimmed t
    → trim_str (replicate m blank ++ (t ++ replicate n blank)) ≡ t
trim_str_of_trimmed m n [] h =
    trim_str-strip _ ∙ rw (strip_left-replicate m (replicate n blank)) (rw (strip_left_blanks n))
trim_str_of_trimmed m n (c ∷ t) h =
    trim_str-strip _
    ∙ rw (strip_left-replicate m ((c ∷ t) ++ replicate n blank)) (
        rw (strip_left_self ((c ∷ t) ++ replicate n blank) (λ d r e. h.head_solid d t (cc)))
          (strip_right_self (c ∷ t) n h.last_solid))

-- The trimmed text has no blank at either end, and only blanks are taken off: the text is its
-- trimmed part between blanks. It is the only such part: any text with no blank at either end is
-- what trimming gives, whatever blanks are put round it.
pub trim_str_blanks :
    (s : Bytes)
    → ((m n : ℕ) × (s ≡ replicate m blank ++ (trim_str s ++ replicate n blank))
        × IsTrimmed (trim_str s))
      × ((t : Bytes) (m n : ℕ)
          → IsTrimmed t
          → s ≡ replicate m blank ++ (t ++ replicate n blank)
          → trim_str s ≡ t)
trim_str_blanks s =
    let (m, n, e) = trim_str-split s in
    ((m, n, e, trim_str-IsTrimmed s), λ t i j h d. rw d (trim_str_of_trimmed i j t h))
