-- ===== src/Node/Threads/Progress.antt =====
-- The two threads of `Node::stop` and of the blocking `Node::paste`: what holds at each of their
-- steps, and that one of them can be taken.
use dpaste.Prelude.{
  Bool, true, false, not, ◌&&◌, ◌||◌, ◌≡◌, ◌≢◌, refl, ◌⊎◌, inl, inr, arith, Bool-cases,
}
use dpaste.Node.Threads.{
  Wait, stopping, pasting, CallbackAt, ready, answered, report, locked, wrote, notified, released,
  over, CallerAt, arriving, checking, asleep, woken, leaving, returned, Threads, start_threads,
  callback_locks, caller_locks, Move, arrive, sleep, pass, leave, regain, lock, write,
  notify_inside, unlock_inside, unlock_outside, notify_outside, Run, at_start, move, stir,
}

abbrev has_written : CallbackAt → Bool
has_written ready = false
has_written answered = false
has_written locked = false
has_written _ = true

abbrev has_notified : CallbackAt → Bool
has_notified notified = true
has_notified over = true
has_notified _ = false

abbrev is_asleep : CallerAt → Bool
is_asleep asleep = true
is_asleep _ = false

abbrev is_through : CallerAt → Bool
is_through leaving = true
is_through returned = true
is_through _ = false

-- The steps that only the other kind of callback takes.
abbrev is_foreign : Wait → CallbackAt → Bool
is_foreign stopping answered = true
is_foreign stopping released = true
is_foreign pasting notified = true
is_foreign _ _ = false

-- What is left of a callback whose caller has returned.
abbrev may_follow : Wait → CallbackAt → Bool
may_follow k over = true
may_follow pasting released = true
may_follow _ _ = false

abbrev pub is_returned : CallerAt → Bool
is_returned returned = true
is_returned _ = false

abbrev fits : Wait → CallbackAt → CallerAt → Bool
fits k c m =
    not (callback_locks c && caller_locks m)
    && (not (is_asleep m && has_notified c)
        && ((not (is_through m) || has_written c)
            && (not (is_foreign k c) && (not (is_returned m) || may_follow k c))))

abbrev Inv : Wait → Threads → Type 0
Inv k w = (w.done ≡ has_written w.callback) × (fits k w.callback w.caller ≡ true)

start-Inv : (k : Wait) → Inv k (start_threads false k)
start-Inv stopping = (refl, refl)
start-Inv pasting = (refl, refl)

module _ (answer : Bool) where
  Move-Inv : (k : Wait) (w u : Threads) → Move answer k w u → Inv k w → Inv k u
  Move-Inv k w u (arrive m c e) (d, h) = ground arith
  Move-Inv k w u (sleep m n e) (d, h) = ground arith
  Move-Inv k w u (pass m n e) (d, h) = ground arith
  Move-Inv k w u (leave m e) (d, h) = ground arith
  Move-Inv k w u (regain m c e) (d, h) = ground arith
  Move-Inv k w u (report q c e) (d, h) = ground arith
  Move-Inv k w u (lock c m e) (d, h) = ground arith
  Move-Inv k w u (write c e) (d, h) = ground arith
  Move-Inv k w u (notify_inside q c e) (d, h) = ground arith
  Move-Inv k w u (unlock_inside q c e) (d, h) = ground arith
  Move-Inv k w u (unlock_outside q c e) (d, h) = ground arith
  Move-Inv k w u (notify_outside q c e) (d, h) = ground arith

  Run-Inv : (k : Wait) {w : Threads} → Run answer k (start_threads false k) w → Inv k w
  Run-Inv k at_start = start-Inv k
  Run-Inv k (move {t} {u} r s) = Move-Inv k t u s (Run-Inv k r)
  Run-Inv k (stir {t} r e) = let h = Run-Inv k r in ground arith

  -- What the callback does next, where the caller does not have the lock.
  callback_moves :
      (k : Wait) (w : Threads) (c : CallbackAt)
      → w.callback ≡ c
      → is_foreign k c ≡ false
      → caller_locks w.caller ≡ false
      → c ≢ over
      → (u : Threads) × Move answer k w u
  callback_moves stopping w ready e f l n = (_, lock e l refl)
  callback_moves pasting w ready e f l n = (_, report refl e refl)
  callback_moves stopping w answered e f l n = cc
  callback_moves pasting w answered e f l n = (_, lock e l refl)
  callback_moves k w locked e f l n = (_, write e refl)
  callback_moves stopping w wrote e f l n = (_, notify_inside refl e refl)
  callback_moves pasting w wrote e f l n = (_, unlock_outside refl e refl)
  callback_moves stopping w notified e f l n = (_, unlock_inside refl e refl)
  callback_moves pasting w notified e f l n = cc
  callback_moves stopping w released e f l n = cc
  callback_moves pasting w released e f l n = (_, notify_outside refl e refl)
  callback_moves k w over e f l n = absurd (n refl)

  -- What the caller does next, where it is awake and the callback does not have the lock.
  caller_moves :
      (k : Wait) (w : Threads) (m : CallerAt)
      → w.caller ≡ m
      → callback_locks w.callback ≡ false
      → is_asleep m ≡ false
      → m ≢ returned
      → (u : Threads) × Move answer k w u
  caller_moves k w arriving e l a n = (_, arrive e l refl)
  caller_moves k w checking e l a n = elim (Bool-cases w.done) [
    | inl d ↦ (_, pass e d refl)
    | inr d ↦ (_, sleep e d refl)
  ]
  caller_moves k w asleep e l a n = cc
  caller_moves k w woken e l a n = (_, regain e l refl)
  caller_moves k w leaving e l a n = (_, leave e refl)
  caller_moves k w returned e l a n = absurd (n refl)

  -- Until the caller has returned, one of the threads can take a step that is no waking for no
  -- reason.
  pub Run-progress :
      (k : Wait) {w : Threads}
      → Run answer k (start_threads false k) w
      → w.caller ≢ returned
      → (u : Threads) × Move answer k w u
  Run-progress k {w} r n =
      let h = Run-Inv k r in
      let f : is_foreign k w.callback ≡ false = ground arith in
      elim (Bool-cases (callback_locks w.callback)) [
        | inl l ↦ callback_moves k w w.callback refl f (ground arith) (ground arith)
        | inr l ↦ elim (Bool-cases (is_asleep w.caller)) [
          | inl a ↦ callback_moves k w w.callback refl f (ground arith) (ground arith)
          | inr a ↦ caller_moves k w w.caller refl l a n
        ]
      ]

  -- If `done` is false at the start, then a caller that has returned has seen `done` set. The
  -- callback is over, or it is one of `paste` that has given the lock back and is still to notify.
  pub Run-callback :
      (k : Wait) {w : Threads}
      → Run answer k (start_threads false k) w
      → w.caller ≡ returned
      → (w.done ≡ true) × ((w.callback ≡ over) ⊎ ((k ≡ pasting) × (w.callback ≡ released)))
  Run-callback k {w} r e = let h = Run-Inv k r in ground arith
