-- ===== src/Pin/Format.antt =====
-- The text of a pin of `Bin::random_pin` of src/bin.cpp.
use dpaste.Prelude.{
  ℕ, zero, suc, ◌+◌, ◌-◌, ◌*◌, ◌/◌, ◌%◌, ◌^◌, ◌≤◌, ◌<◌, Bool, true, ◌&&◌, ◌||◌, [], ◌∷◌, ◌++◌, map,
  ltb, leb, if◌then◌else◌, length, length-append, replicate, Bytes, All, All-append, ◌≡◌, refl, sym,
  ap, ◌∙◌, inl, inr, arith, Bool-cases, append_assoc, append-nil,
}
use mathlib.Core.List.{map-append}
use dpaste.Pin.{dpaste_pin_len, hex_digit, hex_text, pad_left, to_upper, format_pin}

-- There is room for the number in that many hexadecimal digits.
abbrev pub Room : ℕ → ℕ → Type 0
Room zero n = n ≡ 0
Room (suc k) n = Room k (n / 16)

-- The last `k` hexadecimal digits.
abbrev pub digits : ℕ → ℕ → Bytes
digits zero n = []
digits (suc k) n = digits k (n / 16) ++ hex_digit (n % 16) ∷ []

hex_text-digits :
    (f n : ℕ) (done : Bytes)
    → Room (suc f) n
    → (d : ℕ) × (d ≤ f) × Room (suc d) n × (hex_text (suc f) n done ≡ digits (suc d) n ++ done)
unfolding hex_text
hex_text-digits zero n done h = (0, omega arith, h, ground arith)
hex_text-digits (suc f) n done h = elim (Bool-cases (ltb n 16)) [
  | inl small ↦ (0, omega arith, ground arith, ground arith)
  | inr large ↦
      let (d, le, room, e) = hex_text-digits f (n / 16) (hex_digit (n % 16) ∷ done) h in
      (suc d, omega arith, room, rw large (e ∙ sym (append_assoc (digits (suc d) (n / 16)) _ done)))
]

replicate-concat : (n c : ℕ) → replicate n c ++ c ∷ [] ≡ c ∷ replicate n c
replicate-concat zero c = refl
replicate-concat (suc n) c = ap (◌∷◌ c) (replicate-concat n c)

digits_zero : (k n : ℕ) → n ≡ 0 → digits k n ≡ replicate k b'0'
digits_zero zero n h = refl
digits_zero (suc k) n h =
    rw (digits_zero k (n / 16) (omega arith))
      (let e : n % 16 ≡ 0 = omega arith in rw e (replicate-concat k b'0'))

digits-pad : (d k m n : ℕ) → m ≡ k + d → Room d n → digits m n ≡ replicate k b'0' ++ digits d n
digits-pad zero k m n e h =
    let same : m ≡ k = omega arith in rw same (digits_zero k n h ∙ sym (append-nil _))
digits-pad (suc d) k zero n e h = absurd (omega arith)
digits-pad (suc d) k (suc m) n e h =
    rw (digits-pad d k m (n / 16) (omega arith) h) (append_assoc (replicate k b'0') _ _)

length-digits : (k n : ℕ) → length (digits k n) ≡ k
length-digits zero n = refl
length-digits (suc k) n =
    omega
      (arith, length-append (digits k (n / 16)) (hex_digit (n % 16) ∷ []), length-digits k (n / 16))

pad_left-digits :
    (d n : ℕ) (s : Bytes)
    → d ≤ 7
    → Room (suc d) n
    → s ≡ digits (suc d) n ++ []
    → pad_left dpaste_pin_len b'0' s ≡ digits 8 n
pad_left-digits d n s le room e =
    let bare : s ≡ digits (suc d) n = e ∙ append-nil _ in
    rw (bare, length-digits (suc d) n) (sym (digits-pad (suc d) (8 - suc d) 8 n (omega arith) room))

pub format_pin-digits : (n : ℕ) → n < 2 ^ 32 → format_pin n ≡ map to_upper (digits 8 n)
unfolding format_pin
format_pin-digits n h =
    let (d, le, room, e) = hex_text-digits 7 n [] (omega arith) in
    ap (map to_upper) (pad_left-digits d n (hex_text 8 n []) le room e)

-- `0` to `9`, and `A` to `F`.
abbrev pub is_pin_digit : ℕ → Bool
is_pin_digit c = (leb b'0' c && leb c b'9') || (leb b'A' c && leb c b'F')

abbrev pub IsPin : Bytes → Type 0
IsPin s = (length s ≡ 8) × All (λ c. is_pin_digit c ≡ true) s

-- The value of a digit, and of a text of digits.
abbrev pub digit_value : ℕ → ℕ
digit_value c = if leb c b'9' then c - b'0' else c - 55

abbrev pub value_onto : ℕ → Bytes → ℕ
value_onto v [] = v
value_onto v (c ∷ s) = value_onto (v * 16 + digit_value c) s

abbrev pub pin_value : Bytes → ℕ
pin_value = value_onto 0

to_upper-hex_digit :
    (v : ℕ)
    → v < 16
    → (is_pin_digit (to_upper (hex_digit v)) ≡ true) × (digit_value (to_upper (hex_digit v)) ≡ v)
to_upper-hex_digit v h = ground arith

value_onto-append : (v : ℕ) (s t : Bytes) → value_onto v (s ++ t) ≡ value_onto (value_onto v s) t
value_onto-append v [] t = refl
value_onto-append v (c ∷ s) t = value_onto-append (v * 16 + digit_value c) s t

pub upper_digits :
    (k n : ℕ)
    → map to_upper (digits (suc k) n)
      ≡ map to_upper (digits k (n / 16)) ++ to_upper (hex_digit (n % 16)) ∷ []
upper_digits k n = map-append to_upper (digits k (n / 16)) _

digits_value : (k n : ℕ) → Room k n → pin_value (map to_upper (digits k n)) ≡ n
digits_value zero n h = omega arith
digits_value (suc k) n h =
    rw (upper_digits k n, value_onto-append 0 (map to_upper (digits k (n / 16))))
      (omega (arith, digits_value k (n / 16) h, (to_upper-hex_digit (n % 16) (omega arith)).1))

digits-All : (k n : ℕ) → All (λ c. is_pin_digit c ≡ true) (map to_upper (digits k n))
digits-All zero n = tt
digits-All (suc k) n = rw (upper_digits k n) (
    All-append _ (map to_upper (digits k (n / 16))) _ (digits-All k (n / 16))
      ((to_upper-hex_digit (n % 16) (omega arith)).0, tt))

length-upper : (s : Bytes) → length (map to_upper s) ≡ length s
length-upper [] = refl
length-upper (c ∷ s) = ap suc (length-upper s)

pub format_pin-IsPin : (n : ℕ) → n < 2 ^ 32 → IsPin (format_pin n)
format_pin-IsPin n h =
    rw (format_pin-digits n h) (length-upper (digits 8 n) ∙ length-digits 8 n, digits-All 8 n)

-- The pin of a 32-bit number has eight characters, each a digit or a letter from `A` to `F`, and
-- reading it as a hexadecimal number gives the number back, so that no two numbers share a pin.
pub format_pin-value : (n : ℕ) → n < 2 ^ 32 → IsPin (format_pin n) × (pin_value (format_pin n) ≡ n)
format_pin-value n h =
    (format_pin-IsPin n h, rw (format_pin-digits n h) (digits_value 8 n (omega arith)))
