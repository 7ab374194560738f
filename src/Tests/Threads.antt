-- ===== src/Tests/Threads.antt =====
-- Runs of the two threads of `Node::stop` and of the blocking `Node::paste`.
use dpaste.Prelude.{◌≤◌, Bool, none, some, true, false, ◌≡◌, refl, ◌⊎◌}
use dpaste.Node.Threads.{
  stopping, pasting, locked, released, over, returned, Threads, start_threads, arrive, sleep, pass,
  leave, regain, lock, write, report, notify_inside, unlock_inside, unlock_outside, Run, at_start,
  move, stir, Moves, no_moves, more_moves,
}
use dpaste.Node.{wait_result}
use dpaste.Node.Wait.{finished, begin, Reach}
use dpaste.Node.Threads.Progress.{Run-callback}
use dpaste.Node.Threads.Ending.{Ends, Run-Ends, Moves-bound}
use dpaste.Node.Threads.Answer.{stage, waiting, Run-Reach, Run-wait_result, wait_result-Run}

-- The callback of `stop` has the lock before its caller does.
abbrev stop_locked : Threads
stop_locked = record (start_threads false stopping) { callback = locked }

Run-Ends_example : Ends false stopping stop_locked
Run-Ends_example = Run-Ends false stopping (move at_start (lock refl refl refl))

-- The caller of `paste` sleeps, wakes for no reason as soon as `done` is set, and returns before the
-- callback notifies.
abbrev paste_returned : Threads
paste_returned = record {
  done = true;
  success = true;
  callback = released;
  caller = returned;
  result = some true;
}

early_return : Run true pasting (start_threads false pasting) paste_returned
early_return =
    let a = move (move at_start (sleep refl refl refl)) (report refl refl refl) in
    let b =
      move (move (move a (lock refl refl refl)) (write refl refl))
        (unlock_outside refl refl refl) in
    let c = move (stir b refl) (regain refl refl refl) in
    move (move c (pass refl refl refl)) (leave refl refl)

Run-callback_example :
    (true ≡ true)
    × ((paste_returned.callback ≡ over)
        ⊎ ((pasting ≡ pasting) × (paste_returned.callback ≡ released)))
Run-callback_example = Run-callback true pasting early_return refl

-- The caller of `stop` arrives when the callback is over.
abbrev stop_ended : Threads
stop_ended = record {
  done = true;
  success = false;
  callback = over;
  caller = returned;
  result = none;
}

stop_in_order : Moves false stopping (start_threads false stopping) 7 stop_ended
stop_in_order =
    let a = more_moves (more_moves no_moves (lock refl refl refl)) (write refl refl) in
    let b =
      more_moves (more_moves a (notify_inside refl refl refl)) (unlock_inside refl refl refl) in
    more_moves (more_moves (more_moves b (arrive refl refl refl)) (pass refl refl refl))
      (leave refl refl)

Moves-bound_example : 7 ≤ 29
Moves-bound_example = Moves-bound false false stopping stop_in_order

Run-Reach_example : Reach true (begin false) (waiting paste_returned)
Run-Reach_example = Run-Reach true false early_return

Run-wait_result_example :
    ((late : Bool) × (true ≡ wait_result false late true))
    × (false ≡ false → (true ≡ true) × (stage paste_returned.callback ≡ finished))
Run-wait_result_example = Run-wait_result true false true early_return refl

-- With `done` set from the start, and the caller first, the result is false for a paste that
-- succeeds.
wait_result-Run_example :
    (w : Threads) × Run true pasting (start_threads true pasting) w
    × (w.result ≡ some (wait_result true true true))
wait_result-Run_example = wait_result-Run true true true

early : wait_result true true true ≡ false
unfolding wait_result
early = refl
