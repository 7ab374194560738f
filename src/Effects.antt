-- ===== src/Effects.antt =====
-- The exceptions of the program and of the libraries it calls, results, and computations on a
-- state that an exception leaves as it stood when it was thrown.
use dpaste.Prelude.{Bool, true, false, Bytes, ◌≡◌, refl, ◌⊎◌, inl, inr}

-- An exception of GpgME carries its error and the message given by the code. `null_pointer` is
-- the crash of a call through an empty pointer.
pub data Exception : Type 0 where
  out_of_range bad_variant_access null_pointer type_error unpack_error json_error : Exception
  gpgme_error : Bytes → Bytes → Exception
  decrypt_error : Bytes → Exception

pub data Result {ℓ} (A : Type ℓ) : Type ℓ where
  ok : A → Result A
  throw : Exception → Result A

pub Result-cases {ℓ} :
    {A : Type ℓ} (r : Result A) → ((a : A) × (r ≡ ok a)) ⊎ ((e : Exception) × (r ≡ throw e))
Result-cases (ok a) = inl (a, refl)
Result-cases (throw e) = inr (e, refl)

pub ok-inj {ℓ} : {A : Type ℓ} {a b : A} → ◌≡◌ {A = Result A} (ok a) (ok b) → a ≡ b
ok-inj h = cc

abbrev pub M : Type 0 → Type 0 → Type 0
M S A = S → Result A × S

abbrev pub give : {S A : Type 0} → A → M S A
give a s = (ok a, s)

abbrev pub fail : {S A : Type 0} → Exception → M S A
fail e s = (throw e, s)

abbrev pub lift : {S A : Type 0} → Result A → M S A
lift r s = (r, s)

-- What follows a result and the state that came with it.
abbrev pub follow : {S A B : Type 0} → Result A → S → (A → M S B) → Result B × S
follow (ok a) s f = f a s
follow (throw e) s f = (throw e, s)

infixl 5 ◌>>=◌ ◌>>◌
abbrev pub ◌>>=◌ : {S A B : Type 0} → M S A → (A → M S B) → M S B
◌>>=◌ m f s = follow (m s).0 (m s).1 f

abbrev pub ◌>>◌ : {S B : Type 0} → M S (Unit {0}) → M S B → M S B
m >> k = m >>= λ _. k

abbrev pub handle : {S A : Type 0} → Result A → S → (Exception → M S A) → Result A × S
handle (ok a) s f = (ok a, s)
handle (throw e) s f = f e s

-- `try m catch f`; the handler throws again what it does not catch.
abbrev pub try_catch : {S A : Type 0} → M S A → (Exception → M S A) → M S A
try_catch m f s = handle (m s).0 (m s).1 f

abbrev pub when : {S : Type 0} → Bool → M S (Unit {0}) → M S (Unit {0})
when true m = m
when false m = give tt
