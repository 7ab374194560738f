-- ===== src/Uri/Laws.antt =====
-- `Bin::code_from_dpaste_uri` of src/bin.cpp, for every text.
use dpaste.Prelude.{
  ℕ, suc, ◌+◌, ◌≤◌, true, false, [], ◌∷◌, ◌++◌, none, some, Bytes, length, length-append,
  drop-append, find, starts_with, later, ◌≡◌, ◌≢◌, refl, sym, ap, ◌∙◌, ◌⊎◌, inl, inr, arith,
  Bool-cases, Option-cases, append_assoc,
}
use dpaste.Effects.{ok}
use dpaste.Uri.{dpaste_uri_prefix, substr, code_start, code_from_dpaste_uri}

starts_with-append : (p s : Bytes) → starts_with p (p ++ s) ≡ true
unfolding starts_with
starts_with-append [] s = refl
starts_with-append (x ∷ p) s = ground (arith, starts_with-append p s)

starts_with-split : (p s : Bytes) → starts_with p s ≡ true → (r : Bytes) × (s ≡ p ++ r)
unfolding starts_with
starts_with-split [] s h = (s, refl)
starts_with-split (x ∷ p) [] h = cc
starts_with-split (x ∷ p) (c ∷ s) h =
    let (r, e) = starts_with-split p s (ground arith) in (r, ground arith)

-- The text splits round the pattern at that place, and at no earlier one.
pub record FirstAt (p s : Bytes) (i : ℕ) : Type 0 where
  pub before : Bytes
  pub after : Bytes
  pub splits : s ≡ before ++ (p ++ after)
  pub place : length before ≡ i
  pub first : (a b : Bytes) → s ≡ a ++ (p ++ b) → i ≤ length a

find_here : (p s : Bytes) → starts_with p s ≡ true → find p s ≡ some 0
unfolding find
find_here p [] h = rw (h, find)
find_here p (c ∷ s) h = rw (h, find)

find_nil : (p : Bytes) → starts_with p [] ≡ false → find p [] ≡ none
unfolding find
find_nil p h = rw (h, find)

find-later :
    (p : Bytes) (c : ℕ) (s : Bytes)
    → starts_with p (c ∷ s) ≡ false
    → find p (c ∷ s) ≡ later (find p s)
unfolding find
find-later p c s h = rw (h, find)

starts_with_of_split : (p s b : Bytes) → s ≡ p ++ b → starts_with p s ≡ true
starts_with_of_split p s b e = rw e (starts_with-append p b)

find-none : (p s : Bytes) → find p s ≡ none → (a b : Bytes) → s ≢ a ++ (p ++ b)
find-none p s h [] b e = cc (find_here p s (starts_with_of_split p s b e))
find-none p [] h (x ∷ a) b e = cc
find-none p (c ∷ s) h (x ∷ a) b e = elim (Bool-cases (starts_with p (c ∷ s))) [
  | inl t ↦ cc (find_here p (c ∷ s) t)
  | inr f ↦ elim (Option-cases (find p s)) [
    | inl n ↦ find-none p s n a b (cc)
    | inr (i, n) ↦ cc (find-later p c s f, n)
  ]
]

FirstAt-here : (p s : Bytes) → starts_with p s ≡ true → FirstAt p s 0
FirstAt-here p s h =
    let (r, e) = starts_with-split p s h in
    record { before = []; after = r; splits = e; place = refl; first = λ a b d. omega arith }

FirstAt-later :
    (p : Bytes) (c : ℕ) (s : Bytes) (i : ℕ)
    → starts_with p (c ∷ s) ≡ false
    → FirstAt p s i
    → FirstAt p (c ∷ s) (suc i)
FirstAt-later p c s i no_start f = record {
  before = c ∷ f.before;
  after = f.after;
  splits = ap (◌∷◌ c) f.splits;
  place = ap suc f.place;
  first = earlier;
}
  where
    earlier : (a b : Bytes) → c ∷ s ≡ a ++ (p ++ b) → suc i ≤ length a
    earlier [] b d = cc (starts_with_of_split p (c ∷ s) b d)
    earlier (x ∷ a) b d = let le : i ≤ length a = f.first a b (cc) in omega arith

find-some : (p s : Bytes) (i : ℕ) → find p s ≡ some i → FirstAt p s i
find-some p [] i h = elim (Bool-cases (starts_with p [])) [
  | inl t ↦ let e : 0 ≡ i = cc (find_here p [] t) in rw (← e) (FirstAt-here p [] t)
  | inr f ↦ cc (find_nil p f)
]
find-some p (c ∷ s) i h = elim (Bool-cases (starts_with p (c ∷ s))) [
  | inl t ↦ let e : 0 ≡ i = cc (find_here p (c ∷ s) t) in rw (← e) (FirstAt-here p (c ∷ s) t)
  | inr f ↦ elim (Option-cases (find p s)) [
    | inl n ↦ cc (find-later p c s f, n)
    | inr (j, n) ↦
        let e : suc j ≡ i = cc (find-later p c s f, n) in
        rw (← e) (FirstAt-later p c s j f (find-some p s j n))
  ]
]

-- A text that does not hold the prefix is a code as it stands.
pub code-of_bare :
    (uri : Bytes) → find dpaste_uri_prefix uri ≡ none → code_from_dpaste_uri uri ≡ ok uri
unfolding code_from_dpaste_uri
code-of_bare uri h = rw (h, find) (ground arith)

pub substr_split : (a b s : Bytes) (n : ℕ) → s ≡ a ++ b → length a ≡ n → substr s n ≡ ok b
substr_split a b s n e l =
    rw (e, ← l)
      (rw (drop-append a b)
        (let le : length a ≤ length (a ++ b) = omega (arith, length-append a b) in ground arith))

code_from_dpaste_uri_lem :
    (uri : Bytes) → code_from_dpaste_uri uri ≡ substr uri (code_start (find dpaste_uri_prefix uri))
unfolding code_from_dpaste_uri
code_from_dpaste_uri_lem uri = refl

-- The code is what follows the first prefix.
code-of_first :
    (uri : Bytes) (i : ℕ) (f : FirstAt dpaste_uri_prefix uri i)
    → find dpaste_uri_prefix uri ≡ some i
    → code_from_dpaste_uri uri ≡ ok f.after
code-of_first uri i f h =
    code_from_dpaste_uri_lem uri
    ∙ rw h (
        substr_split (f.before ++ dpaste_uri_prefix) f.after uri (i + 7)
          (f.splits ∙ sym (append_assoc f.before dpaste_uri_prefix f.after))
          (omega (arith, length-append f.before dpaste_uri_prefix, f.place)))

-- The prefix in front of any text is taken off.
pub code-of_prefixed : (s : Bytes) → code_from_dpaste_uri (dpaste_uri_prefix ++ s) ≡ ok s
code-of_prefixed s =
    code_from_dpaste_uri_lem (dpaste_uri_prefix ++ s)
    ∙ rw
        (find_here dpaste_uri_prefix (dpaste_uri_prefix ++ s)
          (starts_with-append dpaste_uri_prefix s))
        (substr_split dpaste_uri_prefix s (dpaste_uri_prefix ++ s) 7 refl refl)

-- For every text: it holds `dpaste:`, and the code is all that follows its first occurrence; or it
-- holds none, and the code is the text. The call never throws.
pub code_from_dpaste_uri_total :
    (uri : Bytes)
    → ((i : ℕ) × (f : FirstAt dpaste_uri_prefix uri i) × (code_from_dpaste_uri uri ≡ ok f.after))
      ⊎ (((a b : Bytes) → uri ≢ a ++ (dpaste_uri_prefix ++ b))
          × (code_from_dpaste_uri uri ≡ ok uri))
code_from_dpaste_uri_total uri = elim (Option-cases (find dpaste_uri_prefix uri)) [
  | inl n ↦ inr (find-none dpaste_uri_prefix uri n, code-of_bare uri n)
  | inr (i, n) ↦ let f = find-some dpaste_uri_prefix uri i n in inl (i, f, code-of_first uri i f n)
]
