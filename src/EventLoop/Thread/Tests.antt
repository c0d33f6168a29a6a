-- ===== src/EventLoop/Thread/Tests.antt =====
-- A thread's start in two orders of turns, and the theorems at them.
use cpp_example_code.Base.{◌≡◌, refl, List, [], ◌∷◌, ◌++◌, arith}
use cpp_example_code.EventLoop.Thread.{
  waiting, returned, event_loop_thread_init, caller_locks, thread_start, is_null, worker_locks,
  wake, thread_run, Turn, caller_turn, worker_turn, unsignalled, take_turn, take_turns,
}
use cpp_example_code.EventLoop.Thread.Started.{
  rounds, Started, take_turns-Started, take_turns-returned,
}

-- The caller comes to wait, and is woken without a signal.
abbrev caller_first : List Turn
caller_first = caller_turn ∷ caller_turn ∷ caller_turn ∷ unsignalled ∷ worker_turn ∷ []

wait_test :
    (take_turns 9 (caller_turn ∷ caller_turn ∷ caller_turn ∷ []) event_loop_thread_init).caller
    ≡ waiting
unfolding take_turns take_turn thread_start event_loop_thread_init caller_locks is_null
wait_test = refl

take_turns-Started_example :
    Started 9 (take_turns 9 (caller_first ++ rounds 8) event_loop_thread_init)
take_turns-Started_example = take_turns-Started 9 caller_first (omega arith)

-- The new thread comes to its end before the caller looks.
abbrev worker_first : List Turn
worker_first =
    caller_turn ∷ worker_turn ∷ worker_turn ∷ worker_turn ∷ worker_turn ∷ caller_turn ∷ caller_turn
    ∷ caller_turn ∷ []

worker_first_returns : (take_turns 9 worker_first event_loop_thread_init).caller ≡ returned 9
unfolding take_turns take_turn thread_start thread_run event_loop_thread_init caller_locks
    worker_locks wake is_null
worker_first_returns = refl

take_turns-returned_example : Started 9 (take_turns 9 worker_first event_loop_thread_init)
take_turns-returned_example =
    take_turns-returned 9 9 worker_first (omega arith) worker_first_returns
