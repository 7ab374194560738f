-- ===== src/Bin/Port.antt =====
-- The port of `Bin::Bin` of src/bin.cpp, as the stream reads it from the text of the configuration.
use native.Mathlib.Numerals.{unary_clauses}
use dpaste.Prelude.{
  ℕ, ℤ, suc, ◌+◌, ◌-◌, ◌*◌, ◌^◌, Bool, true, false, [], ◌∷◌, ◌++◌, Bytes, All, length, ◌==◌,
  if◌then◌else◌, ◌≡◌, ◌≢◌, refl, ap, ◌∙◌, arith, inl, inr, Bool-cases,
}
use dpaste.Bin.{is_space, is_digit, read_digits, to_long, read_long}

abbrev pub Digits : Bytes → Type 0
Digits = All (λ c. is_digit c ≡ true)

-- The number that digits stand for: each counts by its place from the right.
abbrev pub decimal : Bytes → ℕ
decimal [] = 0
decimal (c ∷ ds) = (c - b'0') * 10 ^ length ds + decimal ds

-- The text does not go on with a digit.
abbrev pub ends_number : Bytes → Bool
ends_number [] = true
ends_number (c ∷ rest) = if is_digit c then false else true

read_digits-end : (n : ℕ) (rest : Bytes) → ends_number rest ≡ true → read_digits n rest ≡ n
unfolding read_digits
read_digits-end n [] h = refl
read_digits-end n (c ∷ rest) h = elim (Bool-cases (is_digit c)) [
  | inl e ↦ cc (rw e at h)
  | inr e ↦ rw e refl
]

horner : (n d p v : ℕ) → (n * 10 + d) * p + v ≡ n * (10 * p) + (d * p + v)
horner n d p v = omega arith

power : (k : ℕ) → 10 ^ suc k ≡ 10 * 10 ^ k
power k = simp unary_clauses (omega arith)

read_digits-decimal :
    (ds rest : Bytes) (n : ℕ)
    → Digits ds
    → ends_number rest ≡ true
    → read_digits n (ds ++ rest) ≡ n * 10 ^ length ds + decimal ds
unfolding read_digits
read_digits-decimal [] rest n h e = read_digits-end n rest e ∙ omega arith
read_digits-decimal (c ∷ ds) rest n h e =
    rw (h.0, power (length ds))
      (read_digits-decimal ds rest (n * 10 + (c - b'0')) h.1 e
        ∙ horner n (c - b'0') (10 ^ length ds) (decimal ds))

read_digits-start :
    (ds rest : Bytes)
    → Digits ds
    → ends_number rest ≡ true
    → read_digits 0 (ds ++ rest) ≡ decimal ds
read_digits-start ds rest h e = read_digits-decimal ds rest 0 h e ∙ omega arith

-- What may stand in front of the digits.
pub data Sign : Type 0 where
  no_sign plus minus : Sign

abbrev pub sign_text : Sign → Bytes
sign_text no_sign = []
sign_text plus = b'+' ∷ []
sign_text minus = b'-' ∷ []

abbrev pub is_minus : Sign → Bool
is_minus minus = true
is_minus _ = false

digit-not_space : (c : ℕ) → is_digit c ≡ true → is_space c ≡ false
digit-not_space c h = ground arith

digit-not_sign : (c : ℕ) → is_digit c ≡ true → ((c == b'-') ≡ false) × ((c == b'+') ≡ false)
digit-not_sign c h = ground arith

read_long-number :
    (unset : ℤ) (sign : Sign) (ds rest : Bytes)
    → Digits ds
    → ds ≢ []
    → ends_number rest ≡ true
    → read_long unset (sign_text sign ++ (ds ++ rest)) ≡ to_long (is_minus sign) (decimal ds)
unfolding read_long
read_long-number unset no_sign [] rest h ne e = absurd (ne refl)
read_long-number unset no_sign (c ∷ ds) rest h ne e =
    rw (digit-not_space c h.0, (digit-not_sign c h.0).0, (digit-not_sign c h.0).1)
      (ap (to_long false) (read_digits-start (c ∷ ds) rest h e))
read_long-number unset plus ds rest h ne e = ap (to_long false) (read_digits-start ds rest h e)
read_long-number unset minus ds rest h ne e = ap (to_long true) (read_digits-start ds rest h e)

-- A number in decimal digits, with white space and a sign in front of it or not, and with any text
-- behind it that does not go on with a digit, is read as its value, and as the nearest `long` where
-- the value does not fit.
pub read_long-decimal :
    (unset : ℤ) (blanks : Bytes) (sign : Sign) (ds rest : Bytes)
    → All (λ c. is_space c ≡ true) blanks
    → Digits ds
    → ds ≢ []
    → ends_number rest ≡ true
    → read_long unset (blanks ++ (sign_text sign ++ (ds ++ rest)))
      ≡ to_long (is_minus sign) (decimal ds)
unfolding read_long
read_long-decimal unset [] sign ds rest b h ne e = read_long-number unset sign ds rest h ne e
read_long-decimal unset (c ∷ blanks) sign ds rest b h ne e =
    rw b.0 (read_long-decimal unset blanks sign ds rest b.1 h ne e)
