-- ===== src/Pin/Codes.antt =====
-- The pins of `Bin::random_pin` of src/bin.cpp as a type, and the 32-bit numbers.
use std.Equiv.{IsEquiv, iso_to_equiv}
use dpaste.Prelude.{
  ℕ, suc, ◌+◌, ◌*◌, ◌/◌, ◌%◌, ◌^◌, ◌<◌, true, [], ◌∷◌, ◌++◌, map, length, Bytes, All, ◌≡◌, refl,
  sym, ap, ◌∙◌, arith, append_assoc, append-nil,
}
use mathlib.Core.HLevel.{Σ_prop_path, Σ_prop}
use mathlib.Core.Bool.{Bool-set}
use native.Mathlib.Bridge.{le_prop}
use native.Mathlib.Nat.{ℕ_set}
use dpaste.Pin.{hex_digit, to_upper, format_pin}
use dpaste.Pin.Format.{
  Room, digits, is_pin_digit, IsPin, digit_value, value_onto, pin_value, upper_digits,
  format_pin-digits, format_pin-IsPin, format_pin-value,
}

-- The digit of a value, and the value of a digit.
digit_lem :
    (c : ℕ)
    → is_pin_digit c ≡ true
    → (digit_value c < 16) × (to_upper (hex_digit (digit_value c)) ≡ c)
digit_lem c h = ground arith

upper_cons :
    (j v c : ℕ)
    → is_pin_digit c ≡ true
    → map to_upper (digits (suc j) (v * 16 + digit_value c)) ≡ map to_upper (digits j v) ++ c ∷ []
upper_cons j v c h =
    let (small, same) = digit_lem c h in
    let q : (v * 16 + digit_value c) / 16 ≡ v = omega arith in
    let r : (v * 16 + digit_value c) % 16 ≡ digit_value c = omega arith in
    upper_digits j (v * 16 + digit_value c) ∙ rw (q, r) (rw same refl)

digits-value_onto :
    (s : Bytes) (j m v : ℕ)
    → All (λ c. is_pin_digit c ≡ true) s
    → m ≡ j + length s
    → map to_upper (digits m (value_onto v s)) ≡ map to_upper (digits j v) ++ s
digits-value_onto [] j m v h e = let same : m ≡ j = omega arith in rw same (sym (append-nil _))
digits-value_onto (c ∷ s) j m v h e =
    digits-value_onto s (suc j) m (v * 16 + digit_value c) h.1 (omega arith)
    ∙ (ap (λ t. t ++ s) (upper_cons j v c h.0) ∙ append_assoc _ (c ∷ []) s)

Room-value_onto :
    (s : Bytes) (j m v : ℕ)
    → All (λ c. is_pin_digit c ≡ true) s
    → m ≡ j + length s
    → Room j v
    → Room m (value_onto v s)
Room-value_onto [] j m v h e room = let same : m ≡ j = omega arith in rw same room
Room-value_onto (c ∷ s) j m v h e room =
    let q : (v * 16 + digit_value c) / 16 ≡ v = omega (arith, (digit_lem c h.0).0) in
    Room-value_onto s (suc j) m (v * 16 + digit_value c) h.1 (omega arith) (rw q room)

pub pin_value-lt : (s : Bytes) → IsPin s → pin_value s < 2 ^ 32
pin_value-lt s (l, h) =
    let room : Room 8 (pin_value s) = Room-value_onto s 0 8 0 h (omega arith) refl in omega arith

format_pin-pin_value : (s : Bytes) → IsPin s → format_pin (pin_value s) ≡ s
format_pin-pin_value s (l, h) =
    format_pin-digits (pin_value s) (pin_value-lt s (l, h))
    ∙ digits-value_onto s 0 8 0 h (omega arith)

-- What the generator draws, and the texts that pins are.
abbrev pub Number : Type 0
Number = (n : ℕ) × (n < 2 ^ 32)

abbrev pub Pin : Type 0
Pin = (s : Bytes) × IsPin s

All-prop : (s : Bytes) → IsProp (All (λ c. is_pin_digit c ≡ true) s)
All-prop [] = λ a b. refl
All-prop (c ∷ s) = Σ_prop (Bool-set _ _) (λ _. All-prop s)

IsPin-prop : (s : Bytes) → IsProp (IsPin s)
IsPin-prop s = Σ_prop (ℕ_set _ _) (λ _. All-prop s)

-- The number as a pin, with the proof that it is one.
unfoldable pub to_pin : Number → Pin
to_pin (n, h) = (format_pin n, format_pin-IsPin n h)

unfoldable pub of_pin : Pin → Number
of_pin (s, h) = (pin_value s, pin_value-lt s h)

-- `format_pin` is an equivalence between the numbers of 32 bits and the texts of eight digits and
-- letters from `A` to `F`: each such text is the pin of exactly one number.
pub to_pin-IsEquiv : IsEquiv to_pin
unfolding to_pin of_pin
to_pin-IsEquiv =
    (iso_to_equiv record {
      fun = to_pin;
      inv = of_pin;
      rinv = λ (s, h). Σ_prop_path IsPin-prop (format_pin-pin_value s h);
      linv = λ (n, h). Σ_prop_path (λ n. le_prop) (format_pin-value n h).1;
    }).1
