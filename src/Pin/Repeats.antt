-- ===== src/Pin/Repeats.antt =====
-- Several calls of `Bin::random_pin` of src/bin.cpp in one run.
use dpaste.Prelude.{ℕ, zero, suc, false, ◌≡◌, refl}
use dpaste.Pin.{Rng, Statics, random_pin}

module _ (R : Rng) where
  -- The static variables after that many calls.
  unfoldable pub after_calls : ℕ → Statics R → Statics R
  after_calls zero s = s
  after_calls (suc n) s = after_calls n (random_pin R s).1

  random_pin_same :
      (s t : Statics R)
      → s.initialized ≡ false
      → t.initialized ≡ false
      → s.seed ≡ t.seed
      → (random_pin R s).0 ≡ (random_pin R t).0
  unfolding random_pin
  random_pin_same s t h k e = cc

  after_calls_same :
      (n : ℕ) (s : Statics R)
      → s.initialized ≡ false
      → ((after_calls n s).initialized ≡ false) × ((after_calls n s).seed ≡ s.seed)
  unfolding after_calls random_pin
  after_calls_same zero s h = (h, refl)
  after_calls_same (suc n) s h = after_calls_same n (random_pin R s).1 h

  -- Whatever the generator and its seed, every later call of `random_pin` in one run of the
  -- program gives the pin of the first call.
  pub random_pin_repeats :
      (n : ℕ) (s : Statics R)
      → s.initialized ≡ false
      → (random_pin R (after_calls n s)).0 ≡ (random_pin R s).0
  random_pin_repeats n s h =
      let (i, e) = after_calls_same n s h in random_pin_same (after_calls n s) s i h e
