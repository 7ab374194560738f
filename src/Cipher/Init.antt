-- ===== src/Cipher/Init.antt =====
-- `Cipher::init` of src/cipher.cpp and `GPG::init` of src/gpgcrypto.cpp, called once or more.
use dpaste.Prelude.{
  true, false, none, refl, ◌∙◌, Bytes, codes, some, ◌≡◌, ap, arith, ◌⊎◌, inl, inr, Bool-cases,
  Option-cases,
}
use dpaste.Effects.{gpgme_error, ok, throw}
use dpaste.Platform.{Platform, Process}
use dpaste.Gpg.{gpg_init}
use dpaste.Cipher.{cipher_init}

module _ (P : Platform) where
  cipher_init-done : (s : Process P) → s.cipher_initialized ≡ true → cipher_init P s ≡ (ok tt, s)
  unfolding cipher_init
  cipher_init-done s h = ground (arith, h)

  gpg_init-done : (s : Process P) → s.gpg_initialized ≡ true → gpg_init P s ≡ (ok tt, s)
  unfolding gpg_init
  gpg_init-done s h = ground (arith, h)

  -- The end of a call of `Cipher::init`, and what further calls do.
  abbrev pub InitOutcome : Process P → Type 0
  InitOutcome s =
      let after = (cipher_init P s).1 in
      ((cipher_init P s).0 ≡ ok tt)
        × (after.world ≡ s.world)
        × ((u : Process P)
            → u.cipher_initialized ≡ after.cipher_initialized
            → cipher_init P u ≡ (ok tt, u))
        × (s.cipher_initialized ≡ false
            → (u : Process P) → u.gpg_initialized ≡ after.gpg_initialized
            → gpg_init P u ≡ (ok tt, u))
      ⊎ (e : Bytes) × (P.gpgme.check_engine s.world ≡ some e)
        × (cipher_init P s
            ≡ (throw (gpgme_error e (codes "Failed to initialize OpenPGP engine")), s))

  -- A first call, once `GPG::init` has succeeded.
  cipher_init-first :
      (s t : Process P)
      → s.cipher_initialized ≡ false
      → gpg_init P s ≡ (ok tt, t)
      → t.world ≡ s.world
      → t.gpg_initialized ≡ true
      → InitOutcome s
  unfolding cipher_init
  cipher_init-first s t c e w g =
      let made : cipher_init P s ≡ (ok tt, record t { cipher_initialized = true }) =
        ground (arith, c, e) in
      rw made (inl (refl, w, λ u h. cipher_init-done u h, λ f u h. gpg_init-done u (h ∙ g)))

  gpg_init-engine :
      (s : Process P)
      → s.gpg_initialized ≡ false
      → P.gpgme.check_engine s.world ≡ none
      → gpg_init P s ≡ (ok tt, record s { gpg_initialized = true })
  unfolding gpg_init
  gpg_init-engine s g n = ground (arith, g, n)

  -- A call either succeeds and leaves the outside world alone, and then every further call of
  -- `Cipher::init` does nothing, whatever the rest of the state has become, be it that the engine has
  -- gone, and so does every further call of `GPG::init` if this one was the first; or it fails with
  -- the message of the missing engine, and leaves the state as it was, so that a further call tries
  -- again.
  pub cipher_init-again : (s : Process P) → InitOutcome s
  unfolding cipher_init gpg_init
  cipher_init-again s = elim (Bool-cases s.cipher_initialized) [
    | inl c ↦
        let same = cipher_init-done s c in
        inl (
          ap (λ r. r.0) same,
          ap (λ r. r.1.world) same,
          (λ u e. cipher_init-done u (e ∙ ap (λ r. r.1.cipher_initialized) same ∙ c)),
          (λ f. cc),
        )
    | inr c ↦ elim (Bool-cases s.gpg_initialized) [
      | inl g ↦ cipher_init-first s s c (gpg_init-done s g) refl g
      | inr g ↦ elim (Option-cases (P.gpgme.check_engine s.world)) [
        | inl n ↦
            cipher_init-first s (record s { gpg_initialized = true }) c (gpg_init-engine s g n) refl
              refl
        | inr (x, e) ↦ inr (x, e, ground arith)
      ]
    ]
  ]
