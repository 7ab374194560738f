-- ===== src/Node/Threads.antt =====
-- The lock and the condition variable of `Node::stop` of src/node.h and of the blocking `Node::paste`
-- of src/node.cpp: a callback that sets `done` and notifies, and a caller that waits for it. The
-- callback of `stop` notifies while it has the lock, that of `paste` when it has given it back; the
-- caller of `paste` takes the lock before it hands the callback over, that of `stop` after. The
-- callback of `paste` sets `success_` before it takes the lock. A wait gives the lock back and sleeps
-- until it is notified, or for no reason.
pub mod Progress
pub mod Ending
pub mod Answer
use dpaste.Prelude.{ℕ, ◌+◌, Bool, true, false, Option, none, some, ◌≡◌, if◌then◌else◌}

pub data Wait : Type 0 where
  stopping pasting : Wait

-- How far the callback has come.
pub data CallbackAt : Type 0 where
  ready answered locked wrote notified released over : CallbackAt

-- How far the caller has come; `leaving` is all that it does with the lock after the wait.
pub data CallerAt : Type 0 where
  arriving checking asleep woken leaving returned : CallerAt

pub record Threads : Type 0 where
  pub done : Bool
  pub success : Bool
  pub callback : CallbackAt
  pub caller : CallerAt
  pub result : Option Bool

-- The variables when the callback is handed over; the `done` of `paste` is not initialised.
abbrev pub start_threads : Bool → Wait → Threads
start_threads done stopping = record {
  done = false;
  success = false;
  callback = ready;
  caller = arriving;
  result = none;
}
start_threads done pasting = record {
  done = done;
  success = false;
  callback = ready;
  caller = checking;
  result = none;
}

-- What the callback has done when it takes the lock, and what the caller returns.
abbrev pub before_lock : Wait → CallbackAt
before_lock stopping = ready
before_lock pasting = answered

abbrev pub outcome : Wait → Bool → Option Bool
outcome stopping success = none
outcome pasting success = some success

abbrev pub callback_locks : CallbackAt → Bool
callback_locks locked = true
callback_locks wrote = true
callback_locks notified = true
callback_locks _ = false

abbrev pub caller_locks : CallerAt → Bool
caller_locks checking = true
caller_locks leaving = true
caller_locks _ = false

-- `notify_all`
abbrev pub wake_caller : CallerAt → CallerAt
wake_caller asleep = woken
wake_caller m = m

-- A step of either thread; `answer` is the argument of the callback of `paste`.
pub data Move (answer : Bool) (k : Wait) (w u : Threads) : Type 0 where
  arrive :
      w.caller ≡ arriving
      → callback_locks w.callback ≡ false
      → u ≡ record w { caller = checking }
      → Move answer k w u
  sleep :
      w.caller ≡ checking → w.done ≡ false → u ≡ record w { caller = asleep } → Move answer k w u
  pass : w.caller ≡ checking → w.done ≡ true → u ≡ record w { caller = leaving } → Move answer k w u
  leave :
      w.caller ≡ leaving
      → u ≡ record w { caller = returned; result = outcome k w.success }
      → Move answer k w u
  regain :
      w.caller ≡ woken
      → callback_locks w.callback ≡ false
      → u ≡ record w { caller = checking }
      → Move answer k w u
  report :
      k ≡ pasting
      → w.callback ≡ ready
      → u ≡ record w { success = (if answer then true else w.success); callback = answered }
      → Move answer k w u
  lock :
      w.callback ≡ before_lock k
      → caller_locks w.caller ≡ false
      → u ≡ record w { callback = locked }
      → Move answer k w u
  write : w.callback ≡ locked → u ≡ record w { done = true; callback = wrote } → Move answer k w u
  notify_inside :
      k ≡ stopping
      → w.callback ≡ wrote
      → u ≡ record w { callback = notified; caller = wake_caller w.caller }
      → Move answer k w u
  unlock_inside :
      k ≡ stopping → w.callback ≡ notified → u ≡ record w { callback = over } → Move answer k w u
  unlock_outside :
      k ≡ pasting → w.callback ≡ wrote → u ≡ record w { callback = released } → Move answer k w u
  notify_outside :
      k ≡ pasting
      → w.callback ≡ released
      → u ≡ record w { callback = over; caller = wake_caller w.caller }
      → Move answer k w u

-- Steps, with wakings for no reason in between.
pub data Run (answer : Bool) (k : Wait) (w : Threads) : Threads → Type 0 where
  at_start : Run answer k w w
  move : {t u : Threads} → Run answer k w t → Move answer k t u → Run answer k w u
  stir :
      {t : Threads}
      → Run answer k w t
      → t.caller ≡ asleep
      → Run answer k w (record t { caller = woken })

-- A number of steps with no such wakings.
pub data Moves (answer : Bool) (k : Wait) (w : Threads) : ℕ → Threads → Type 0 where
  no_moves : Moves answer k w 0 w
  more_moves :
      {n : ℕ} {t u : Threads}
      → Moves answer k w n t
      → Move answer k t u
      → Moves answer k w (n + 1) u
