-- ===== src/Node/Wait.antt =====
-- The two threads of the blocking `Node::paste`: the callback of `put`, and the waiting caller.
-- The callback writes `success_`, then `done` under the lock; the caller, woken or not, leaves the
-- wait when it sees `done`, and returns `success_`. Any interleaving is a sequence of steps.
use dpaste.Prelude.{
  Bool, true, false, Option, none, some, ◌≡◌, refl, ◌⊎◌, inl, inr, arith, if◌then◌else◌,
}
use dpaste.Node.{wait_result}

-- How far the callback has come.
pub data Callback : Type 0 where
  pending told finished : Callback

pub record Waiting : Type 0 where
  pub done : Bool
  pub success : Bool
  pub callback : Callback
  pub returned : Option Bool

-- The variables when `put` is called; `done` is not initialised.
abbrev pub begin : Bool → Waiting
begin done = record { done = done; success = false; callback = pending; returned = none }

Callback-cases : (c : Callback) → (c ≡ pending) ⊎ ((c ≡ told) ⊎ (c ≡ finished))
Callback-cases pending = inl refl
Callback-cases told = inr (inl refl)
Callback-cases finished = inr (inr refl)

module _ (answer : Bool) where
  -- One step of either thread, where the callback's argument is `answer`.
  pub data Step (w u : Waiting) : Type 0 where
    tell :
        w.callback ≡ pending
        → u ≡ record w { success = (if answer then true else w.success); callback = told }
        → Step w u
    finish : w.callback ≡ told → u ≡ record w { done = true; callback = finished } → Step w u
    wake : w.done ≡ true → w.returned ≡ none → u ≡ record w { returned = some w.success } → Step w u

  pub data Reach (w : Waiting) : Waiting → Type 0 where
    here : Reach w w
    next : {t u : Waiting} → Reach w t → Step t u → Reach w u

  -- What `success_` and `done` are at each stage of the callback, if the flag was `flag`.
  abbrev Consistent : Bool → Callback → Bool → Bool → Type 0
  Consistent flag pending done success = (success ≡ false) × (done ≡ flag)
  Consistent flag told done success = (success ≡ answer) × (done ≡ flag)
  Consistent flag finished done success = (success ≡ answer) × (done ≡ true)

  -- A result is the answer, unless the flag was set from the start.
  abbrev Returned : Bool → Callback → Option Bool → Type 0
  Returned flag c none = Unit
  Returned flag finished (some b) = (b ≡ answer) ⊎ ((flag ≡ true) × (b ≡ false))
  Returned flag c (some b) = (flag ≡ true) × ((b ≡ answer) ⊎ (b ≡ false))

  abbrev InvAt : Bool → Callback → Bool → Bool → Option Bool → Type 0
  InvAt flag c done success returned = Consistent flag c done success × Returned flag c returned

  abbrev Inv : Bool → Waiting → Type 0
  Inv flag w = InvAt flag w.callback w.done w.success w.returned

  tell-InvAt :
      (flag d s : Bool) (r : Option Bool)
      → InvAt flag pending d s r
      → InvAt flag told d (if answer then true else s) r
  tell-InvAt flag d s none h = ground arith
  tell-InvAt flag d s (some b) h = ground arith

  finish-InvAt :
      (flag d s : Bool) (r : Option Bool) → InvAt flag told d s r → InvAt flag finished true s r
  finish-InvAt flag d s none h = ground arith
  finish-InvAt flag d s (some b) h = ground arith

  wake-InvAt :
      (flag s : Bool) (c : Callback) → InvAt flag c true s none → InvAt flag c true s (some s)
  wake-InvAt flag s pending h = ground arith
  wake-InvAt flag s told h = ground arith
  wake-InvAt flag s finished h = ground arith

  Step-Inv : (flag : Bool) (w u : Waiting) → Step w u → Inv flag w → Inv flag u
  Step-Inv flag w u (tell p e) h = rw e (tell-InvAt flag w.done w.success w.returned (rw p at h))
  Step-Inv flag w u (finish p e) h =
      rw e (finish-InvAt flag w.done w.success w.returned (rw p at h))
  Step-Inv flag w u (wake p n e) h =
      rw (e, p) (wake-InvAt flag w.success w.callback (rw (p, n) at h))

  Reach-Inv : (flag : Bool) {w : Waiting} → Reach (begin flag) w → Inv flag w
  Reach-Inv flag here = ((refl, refl), tt)
  Reach-Inv flag (next r s) = Step-Inv flag _ _ s (Reach-Inv flag r)

  Returned-wait_result :
      (flag b : Bool) (c : Callback)
      → Returned flag c (some b)
      → (late : Bool) × (b ≡ wait_result flag late answer)
  unfolding wait_result
  Returned-wait_result flag b pending (f, inl e) = (false, ground arith)
  Returned-wait_result flag b pending (f, inr e) = (true, ground arith)
  Returned-wait_result flag b told (f, inl e) = (false, ground arith)
  Returned-wait_result flag b told (f, inr e) = (true, ground arith)
  Returned-wait_result flag b finished (inl e) = (false, ground arith)
  Returned-wait_result flag b finished (inr (f, e)) = (true, ground arith)

  -- The callback runs to its end, then the caller wakes.
  in_order : (flag : Bool) → (w : Waiting) × Reach (begin flag) w × (w.returned ≡ some answer)
  in_order flag =
      let s = if answer then true else false in
      let u : Waiting = record (begin flag) { success = s; callback = told } in
      let v : Waiting = record u { done = true; callback = finished } in
      (
        record v { returned = some s },
        next (next (next here (tell refl refl)) (finish refl refl)) (wake refl refl refl),
        ground arith,
      )

  Returned-unset :
      (b : Bool) (c : Callback) → Returned false c (some b) → (b ≡ answer) × (c ≡ finished)
  Returned-unset b pending h = cc (h.0)
  Returned-unset b told h = cc (h.0)
  Returned-unset b finished (inl e) = (e, refl)
  Returned-unset b finished (inr (f, e)) = cc

  -- Whatever a run of the two threads returns is what `wait_result` gives for one of the orders in
  -- which they may come. If `done` starts false, that is the answer of the callback, which has
  -- then finished.
  pub Reach-wait_result :
      (flag : Bool) {w : Waiting} (b : Bool)
      → Reach (begin flag) w
      → w.returned ≡ some b
      → ((late : Bool) × (b ≡ wait_result flag late answer))
        × (flag ≡ false → (b ≡ answer) × (w.callback ≡ finished))
  Reach-wait_result flag {w} b r e = (
    Returned-wait_result flag b w.callback (rw e at (Reach-Inv flag r).1),
    λ f. Returned-unset b w.callback (rw (e, f) at (Reach-Inv flag r).1),
  )

  -- No run gets stuck: until the caller has returned, one of the threads can take a step.
  Reach-progress :
      (flag : Bool) {w : Waiting}
      → Reach (begin flag) w
      → w.returned ≡ none
      → (u : Waiting) × Step w u
  Reach-progress flag {w} r n = elim (Callback-cases w.callback) [
    | inl p ↦ (_, tell p refl)
    | inr (inl p) ↦ (_, finish p refl)
    | inr (inr p) ↦ (_, wake (rw p at (Reach-Inv flag r).0).1 n refl)
  ]

  -- For each order in which the two threads may come there is a run that returns what
  -- `wait_result` gives for it.
  wait_result-Reach :
      (flag late : Bool)
      → (w : Waiting) × Reach (begin flag) w × (w.returned ≡ some (wait_result flag late answer))
  unfolding wait_result
  wait_result-Reach true true =
      (record (begin true) { returned = some false }, next here (wake refl refl refl), refl)
  wait_result-Reach true false = in_order true
  wait_result-Reach false late = in_order false
