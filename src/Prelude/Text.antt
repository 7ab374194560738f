-- ===== src/Prelude/Text.antt =====
-- `std::string` and `std::vector<uint8_t>` as lists of byte values, with the members of
-- `std::string` and the stream functions that the program calls.
use Prim.Native.Char.{code}
use Prim.Native.Nat.{ℕ, suc}
use Prim.Native.String.{String}
use mathlib.Core.Bool.{Bool, true, false, ◌&&◌}
use mathlib.Core.List.{List, [], ◌∷◌}
use mathlib.Core.Logic.{◌↔◌}
use mathlib.Core.Option.{Option, none, some}
use mathlib.Core.Path.{◌≡◌, refl}
use native.Mathlib.Omega.{arith}
use dpaste.Prelude.Lists.{take, drop}
use dpaste.Prelude.Tests.{◌==◌, if◌then◌else◌}

abbrev pub Bytes : Type 0
Bytes = List ℕ

-- The bytes of an ASCII literal.
abbrev pub codes : String → Bytes
codes String.[] = []
codes (String.◌∷◌ c s) = code c ∷ codes s

-- `a == b` on strings.
unfoldable pub equal : Bytes → Bytes → Bool
equal [] [] = true
equal [] (d ∷ t) = false
equal (c ∷ s) [] = false
equal (c ∷ s) (d ∷ t) = c == d && equal s t

pub equal_iff : (s t : Bytes) → (equal s t ≡ true) ↔ (s ≡ t)
unfolding equal
equal_iff [] [] = ground arith
equal_iff [] (d ∷ t) = ground arith
equal_iff (c ∷ s) [] = ground arith
equal_iff (c ∷ s) (d ∷ t) = ground (arith, equal_iff s t)

pub equal_refl : (a : Bytes) → equal a a ≡ true
equal_refl a = (equal_iff a a).1 refl

-- `s.empty()`
abbrev pub is_empty {ℓ} : {A : Type ℓ} → List A → Bool
is_empty [] = true
is_empty (_ ∷ _) = false

-- Does the text begin with the pattern?
unfoldable pub starts_with : Bytes → Bytes → Bool
starts_with [] s = true
starts_with (x ∷ p) [] = false
starts_with (x ∷ p) (c ∷ s) = x == c && starts_with p s

abbrev pub later : Option ℕ → Option ℕ
later none = none
later (some i) = some (suc i)

-- `s.find(pattern)`, with `none` for `npos`.
unfoldable pub find : Bytes → Bytes → Option ℕ
unfolding starts_with
find p [] = if starts_with p [] then some 0 else none
find p (c ∷ s) = if starts_with p (c ∷ s) then some 0 else later (find p s)

-- `s.substr(pos, n)` for a position inside the text or at its end.
abbrev pub slice : Bytes → ℕ → ℕ → Bytes
slice s pos n = take n (drop pos s)

abbrev keep : ℕ → Option (Bytes × Bytes) → Bytes × Bytes
keep c none = (c ∷ [], [])
keep c (some (a, r)) = (c ∷ a, r)

-- `std::getline(stream, out, delim)` on the unread bytes: what it stores, and what stays unread;
-- `none` where nothing can be extracted, and the stream turns false.
unfoldable pub getline : ℕ → Bytes → Option (Bytes × Bytes)
getline d [] = none
getline d (c ∷ s) = let rest = keep c (getline d s) in if c == d then some ([], s) else some rest
