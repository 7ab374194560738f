-- ===== src/Node/Threads/Ending.antt =====
-- The two threads of `Node::stop` and of the blocking `Node::paste` come to an end: how many steps
-- are left of each.
use dpaste.Prelude.{
  ℕ, zero, suc, ◌+◌, ◌*◌, ◌<◌, ◌≤◌, Bool, false, ◌≡◌, ◌≢◌, ◌⊎◌, inl, inr, arith, Bool-cases,
}
use dpaste.Node.Threads.{
  Wait, CallbackAt, ready, answered, report, locked, wrote, over, CallerAt, checking, asleep,
  leaving, returned, Threads, start_threads, wake_caller, Move, arrive, sleep, pass, leave, regain,
  lock, write, notify_inside, unlock_inside, unlock_outside, notify_outside, Run, move, Moves,
  no_moves, more_moves,
}
use dpaste.Node.Threads.Progress.{is_returned, Run-progress}

abbrev callback_left : CallbackAt → ℕ
callback_left ready = 5
callback_left answered = 4
callback_left locked = 3
callback_left wrote = 2
callback_left over = 0
callback_left _ = 1

abbrev caller_left : CallerAt → ℕ
caller_left checking = 3
caller_left asleep = 2
caller_left leaving = 1
caller_left returned = 0
caller_left _ = 4

abbrev threads_left : Threads → ℕ
threads_left w = 5 * callback_left w.callback + caller_left w.caller

wake_caller_left : (m : CallerAt) → caller_left (wake_caller m) ≤ caller_left m + 2
wake_caller_left m = ground arith

returned-cases : (m : CallerAt) → (m ≡ returned) ⊎ (m ≢ returned)
returned-cases m = elim (Bool-cases (is_returned m)) [
  | inl r ↦ inl (ground arith)
  | inr r ↦ inr (λ e. ground arith)
]

module _ (answer : Bool) where
  Move-threads_left :
      (k : Wait) (w u : Threads) → Move answer k w u → threads_left u < threads_left w
  Move-threads_left k w u (arrive m c e) = ground arith
  Move-threads_left k w u (sleep m n e) = ground arith
  Move-threads_left k w u (pass m n e) = ground arith
  Move-threads_left k w u (leave m e) = ground arith
  Move-threads_left k w u (regain m c e) = ground arith
  Move-threads_left k w u (report q c e) = ground arith
  Move-threads_left k w u (lock c m e) = ground arith
  Move-threads_left k w u (write c e) = ground arith
  Move-threads_left k w u (notify_inside q c e) = ground arith
  Move-threads_left k w u (unlock_inside q c e) = ground arith
  Move-threads_left k w u (unlock_outside q c e) = ground arith
  Move-threads_left k w u (notify_outside q c e) = ground arith

  Moves-threads_left :
      (k : Wait) {w u : Threads} {n : ℕ}
      → Moves answer k w n u
      → n + threads_left u ≤ threads_left w
  Moves-threads_left k no_moves = omega arith
  Moves-threads_left k {w} (more_moves {n} {t} {u} r s) =
      let a = Moves-threads_left k r in let b = Move-threads_left k t u s in omega arith

  -- From the start, whatever `done` is, no run of the two threads without wakings for no reason has
  -- more than 29 steps.
  pub Moves-bound :
      (done : Bool) (k : Wait) {u : Threads} {n : ℕ}
      → Moves answer k (start_threads done k) n u
      → n ≤ 29
  Moves-bound done k r = let a = Moves-threads_left k r in ground arith

  -- Whatever steps are taken from here, the caller returns.
  pub data Ends (k : Wait) : Threads → Type 0 where
    ended : {w : Threads} → w.caller ≡ returned → Ends k w
    going :
        {w : Threads}
        → (u : Threads) × Move answer k w u
        → ((u : Threads) → Move answer k w u → Ends k u)
        → Ends k w

  Ends-within :
      (k : Wait) (n : ℕ) {w : Threads}
      → Run answer k (start_threads false k) w
      → threads_left w < n
      → Ends k w
  Ends-within k zero r l = absurd (omega (arith, l))
  Ends-within k (suc n) {w} r l = elim (returned-cases w.caller) [
    | inl e ↦ ended e
    | inr e ↦
        going (Run-progress answer k r e)
          (λ u s. Ends-within k n (move r s) (omega (arith, l, Move-threads_left k w u s)))
  ]

  -- If `done` is false at the start, then wherever a run has come to, wakings for no reason included,
  -- there is a step to take until the caller has returned, and whichever steps are taken from there
  -- it returns.
  pub Run-Ends : (k : Wait) {w : Threads} → Run answer k (start_threads false k) w → Ends k w
  Run-Ends k {w} r = Ends-within k (threads_left w + 1) r (omega arith)
