-- ===== src/Node/Threads/Answer.antt =====
-- What the blocking `Node::paste` of src/node.cpp returns: the threads with their lock implement
-- those of Node.Wait, which have none.
use dpaste.Prelude.{Bool, true, false, Option, none, some, ◌≡◌, refl, ap, ◌⊎◌, inl, inr, arith}
use dpaste.Node.{wait_result}
use dpaste.Node.Wait.{
  Callback, pending, told, finished, Waiting, begin, Step, tell, finish, wake, Reach, here, next,
  Reach-wait_result,
}
use dpaste.Node.Threads.{
  pasting, CallbackAt, ready, answered, locked, CallerAt, leaving, returned, Threads, start_threads,
  Move, arrive, sleep, pass, leave, regain, report, lock, write, notify_inside, unlock_inside,
  unlock_outside, notify_outside, Run, at_start, move, stir,
}

-- What is left of the threads without the lock and the sleep.
abbrev pub stage : CallbackAt → Callback
stage ready = pending
stage answered = told
stage locked = told
stage _ = finished

abbrev pub waiting : Threads → Waiting
waiting w = record {
  done = w.done;
  success = w.success;
  callback = stage w.callback;
  returned = w.result;
}

-- A caller that has passed the wait has seen `done`, and it has no result before it returns.
abbrev Passed : CallerAt → Bool → Option Bool → Type 0
Passed leaving done result = (done ≡ true) × (result ≡ none)
Passed returned done result = done ≡ true
Passed _ done result = result ≡ none

module _ (answer : Bool) where
  Move-Passed :
      (w u : Threads)
      → Move answer pasting w u
      → Passed w.caller w.done w.result
      → Passed u.caller u.done u.result
  Move-Passed w u (arrive m c e) h = ground arith
  Move-Passed w u (sleep m n e) h = ground arith
  Move-Passed w u (pass m n e) h = ground arith
  Move-Passed w u (leave m e) h = ground arith
  Move-Passed w u (regain m c e) h = ground arith
  Move-Passed w u (report q c e) h = ground arith
  Move-Passed w u (lock c m e) h = ground arith
  Move-Passed w u (write c e) h = ground arith
  Move-Passed w u (notify_inside q c e) h = ground arith
  Move-Passed w u (unlock_inside q c e) h = ground arith
  Move-Passed w u (unlock_outside q c e) h = ground arith
  Move-Passed w u (notify_outside q c e) h = ground arith

  Run-Passed :
      (flag : Bool) {w : Threads}
      → Run answer pasting (start_threads flag pasting) w
      → Passed w.caller w.done w.result
  Run-Passed flag at_start = refl
  Run-Passed flag (move {t} {u} r s) = Move-Passed t u s (Run-Passed flag r)
  Run-Passed flag (stir {t} r e) = let h = Run-Passed flag r in ground arith

  -- A step of the threads is one of those with no lock, or none.
  Move-Step :
      (w u : Threads)
      → Move answer pasting w u
      → Passed w.caller w.done w.result
      → (waiting u ≡ waiting w) ⊎ Step answer (waiting w) (waiting u)
  Move-Step w u (arrive m c e) h = inl (ground arith)
  Move-Step w u (sleep m n e) h = inl (ground arith)
  Move-Step w u (pass m n e) h = inl (ground arith)
  Move-Step w u (leave m e) h =
      let p : (w.done ≡ true) × (w.result ≡ none) = rw m at h in inr (wake p.0 p.1 (ap waiting e))
  Move-Step w u (regain m c e) h = inl (ground arith)
  Move-Step w u (report q c e) h = inr (tell (ap stage c) (ap waiting e))
  Move-Step w u (lock c m e) h = inl (ground arith)
  Move-Step w u (write c e) h = inr (finish (ap stage c) (ap waiting e))
  Move-Step w u (notify_inside q c e) h = cc
  Move-Step w u (unlock_inside q c e) h = cc
  Move-Step w u (unlock_outside q c e) h = inl (ground arith)
  Move-Step w u (notify_outside q c e) h = inl (ground arith)

  -- Whatever the threads do with the lock, asleep and awake, is a run of the two threads that have no
  -- lock, if the lock, the sleep and the notification are forgotten.
  pub Run-Reach :
      (flag : Bool) {w : Threads}
      → Run answer pasting (start_threads flag pasting) w
      → Reach answer (begin flag) (waiting w)
  Run-Reach flag at_start = here
  Run-Reach flag (move {t} {u} r s) = elim (Move-Step t u s (Run-Passed flag r)) [
    | inl e ↦ rw e (Run-Reach flag r)
    | inr step ↦ next (Run-Reach flag r) step
  ]
  Run-Reach flag (stir {t} r e) = Run-Reach flag r

  -- What the threads return, asleep and awake, is what `wait_result` gives for one of the orders in
  -- which they may come. If `done` starts false, that is the answer of the callback, which has set
  -- `done` then.
  pub Run-wait_result :
      (flag b : Bool) {w : Threads}
      → Run answer pasting (start_threads flag pasting) w
      → w.result ≡ some b
      → ((late : Bool) × (b ≡ wait_result flag late answer))
        × (flag ≡ false → (b ≡ answer) × (stage w.callback ≡ finished))
  Run-wait_result flag b r e = Reach-wait_result answer flag b (Run-Reach flag r) e

  -- For each order in which the threads may come, with `done` set at the start or not, they can
  -- return what `wait_result` gives for it.
  pub wait_result-Run :
      (flag late : Bool)
      → (w : Threads) × Run answer pasting (start_threads flag pasting) w
        × (w.result ≡ some (wait_result flag late answer))
  unfolding wait_result
  wait_result-Run true true =
      (_, move (move at_start (pass refl refl refl)) (leave refl refl), refl)
  wait_result-Run true false = (
    _,
    move (move (move at_start (report refl refl refl)) (pass refl refl refl)) (leave refl refl),
    ground arith,
  )
  wait_result-Run false late =
      let a = move (move at_start (sleep refl refl refl)) (report refl refl refl) in
      let b = move (move a (lock refl refl refl)) (write refl refl) in
      let c = move (move b (unlock_outside refl refl refl)) (notify_outside refl refl refl) in
      (
        _,
        move (move (move c (regain refl refl refl)) (pass refl refl refl)) (leave refl refl),
        ground arith,
      )
