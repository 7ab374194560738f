-- ===== src/Pin.antt =====
-- `Bin::random_pin` of src/bin.cpp. The generator and the seed are those of the standard library;
-- the stream that prints the number is modelled digit by digit.
pub mod Format
pub mod Repeats
pub mod Codes
use dpaste.Prelude.{
  ℕ, zero, suc, ◌+◌, ◌-◌, ◌/◌, ◌%◌, Bool, false, ◌&&◌, List, [], ◌∷◌, ◌++◌, map, ltb, leb,
  if◌then◌else◌, length, replicate, Bytes,
}

-- `std::mt19937_64` with `std::uniform_int_distribution<uint32_t>`: a seeded engine, and a draw.
pub record Rng : Type 1 where
  pub Engine : Type 0
  pub Seed : Type 0
  pub seeded : Seed → Engine
  pub draw : Engine → ℕ × Engine

abbrev pub dpaste_pin_len : ℕ
dpaste_pin_len = 8

-- A digit as `std::hex` prints it.
abbrev pub hex_digit : ℕ → ℕ
hex_digit v = if ltb v 10 then b'0' + v else 87 + v

-- `ss << std::hex << n`: the digits in front of those already there. The fuel is the number of
-- digits that there is room for, 8 for 32 bits.
unfoldable pub hex_text : ℕ → ℕ → Bytes → Bytes
hex_text zero n done = done
hex_text (suc room) n done =
    let rest = hex_text room (n / 16) (hex_digit (n % 16) ∷ done) in
    if ltb n 16 then hex_digit n ∷ done else rest

-- `std::setw(width)` with `std::setfill(fill)`
abbrev pub pad_left : ℕ → ℕ → Bytes → Bytes
pad_left width fill s = replicate (width - length s) fill ++ s

-- `::toupper` in the C locale.
abbrev pub to_upper : ℕ → ℕ
to_upper c = if leb b'a' c && leb c b'z' then c - 32 else c

unfoldable pub format_pin : ℕ → Bytes
unfolding hex_text
format_pin pin = map to_upper (pad_left dpaste_pin_len b'0' (hex_text 8 pin []))

module _ (R : Rng) where
  -- The variables of `random_pin` that are `static`.
  pub record Statics : Type 0 where
    pub rand : R.Engine
    pub seed : R.Seed
    pub initialized : Bool

  unfoldable pub random_pin : Statics → Bytes × Statics
  random_pin s =
      let engine = if s.initialized then s.rand else R.seeded s.seed in
      (format_pin (R.draw engine).0, record s { rand = (R.draw engine).1 })
