-- ===== src/Frame/Session.antt =====
-- Many calls of `Bin::paste` and `Bin::get` of src/bin.cpp in one run, in any order.
use dpaste.Prelude.{Bool, false, Option, Bytes, ◌≡◌, refl, sym, ◌∙◌, ap}
use dpaste.Params.{Parameters}
use dpaste.Pin.{random_pin, format_pin}
use dpaste.Platform.{Platform, Process}
use dpaste.Bin.{Bin, bin_get, bin_paste}
use dpaste.Bin.RoundTrip.{next_pin}
use dpaste.Frame.Kept.{Kept, bin_get-Kept, bin_paste-Kept}

module _ (P : Platform) (b : Bin) where
  -- The states that calls lead to, whether they return or throw.
  pub data Session (s : Process P) : Process P → Type 0 where
    begin : Session s s
    paste :
        {t : Process P} (text : Bytes) (params : Option Parameters)
        → Session s t
        → Session s (bin_paste P b text params t).1
    get :
        {t : Process P} (uri : Bytes) (no_decrypt : Bool)
        → Session s t
        → Session s (bin_get P b uri no_decrypt t).1

  Kept-trans : (s t u : Process P) → Kept s t → Kept t u → Kept s u
  Kept-trans s t u h k = (k.0 ∙ h.0, k.1 ∙ h.1, k.2 ∙ h.2, k.3 ∙ h.3, k.4 ∙ h.4)

  -- Whatever is pasted and got, in any order and with any outcome, the standard output, the flags of
  -- `Cipher::init`, `GPG::init` and `random_pin`, and the seed stay as they are.
  pub Session-Kept : (s t : Process P) → Session s t → Kept s t
  Session-Kept s t begin = (refl, refl, refl, refl, refl)
  Session-Kept s u (paste {t} text params r) =
      Kept-trans s t u (Session-Kept s t r) (bin_paste-Kept b text params t)
  Session-Kept s u (get {t} uri no_decrypt r) =
      Kept-trans s t u (Session-Kept s t r) (bin_get-Kept b uri no_decrypt t)

  next_pin_lem :
      (s : Process P)
      → s.statics.initialized ≡ false
      → next_pin P b s ≡ format_pin (P.rng.draw (P.rng.seeded s.statics.seed)).0
  unfolding random_pin
  next_pin_lem s h = rw h refl

  -- In one run all pins are equal: the pin that is drawn after any pastes and gets is the one that
  -- was to be drawn before them, if `initialized` is false as it is at the start.
  pub Session-next_pin :
      (s t : Process P)
      → Session s t
      → s.statics.initialized ≡ false
      → next_pin P b t ≡ next_pin P b s
  Session-next_pin s t r h =
      let k = Session-Kept s t r in
      next_pin_lem t (k.3 ∙ h)
      ∙ (ap (λ e. format_pin (P.rng.draw (P.rng.seeded e)).0) k.4 ∙ sym (next_pin_lem s h))
