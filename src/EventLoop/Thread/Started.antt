-- ===== src/EventLoop/Thread/Started.antt =====
-- event_loop_thread_start returns the loop that the new thread has made, in whatever order the two threads run.
use cpp_example_code.Base.{ℕ, zero, suc, ◌<◌, ◌≡◌, refl, ◌∙◌, List, [], ◌∷◌, ◌++◌, arith}
use cpp_example_code.EventLoop.State.{Addr}
use cpp_example_code.EventLoop.Thread.{
  returned, running, free, LoopThread, event_loop_thread_init, caller_locks, thread_start,
  worker_locks, wake, is_null, thread_run, Turn, caller_turn, worker_turn, take_turn, take_turns,
}
use cpp_example_code.EventLoop.Thread.Sound.{
  IsSound, IsSound-take_turns, before, locking_starting, locking_making, locking_signalling,
  locking_leaving, locking_running, woken_starting, woken_making, woken_signalling, woken_leaving,
  woken_running, testing_starting, testing_running, waiting_starting, waiting_making,
  waiting_signalling, unlocking_running, finished,
}

-- as many rounds as given, in each of which first the new thread and then the caller has a turn
unfoldable pub rounds : ℕ → List Turn
rounds zero = []
rounds (suc n) = worker_turn ∷ caller_turn ∷ rounds n

take_turns-++ :
    (a : Addr) (first later : List Turn) (t : LoopThread)
    → take_turns a (first ++ later) t ≡ take_turns a later (take_turns a first t)
unfolding take_turns
take_turns-++ a [] later t = refl
take_turns-++ a (turn ∷ first) later t = take_turns-++ a first later (take_turn a turn t)

-- the caller has its loop, and the new thread runs it
abbrev pub Started : Addr → LoopThread → Type 0
Started a t = t ≡ record { event_loop = a; mutex = free; caller = returned a; worker = running a }

IsSound-rounds :
    (k : ℕ) {t : LoopThread} → IsSound (suc k) t → Started (suc k) (take_turns (suc k) (rounds 8) t)
unfolding take_turns take_turn thread_start thread_run caller_locks worker_locks wake is_null rounds
IsSound-rounds k before = refl
IsSound-rounds k locking_starting = refl
IsSound-rounds k locking_making = refl
IsSound-rounds k locking_signalling = refl
IsSound-rounds k locking_leaving = refl
IsSound-rounds k locking_running = refl
IsSound-rounds k woken_starting = refl
IsSound-rounds k woken_making = refl
IsSound-rounds k woken_signalling = refl
IsSound-rounds k woken_leaving = refl
IsSound-rounds k woken_running = refl
IsSound-rounds k testing_starting = refl
IsSound-rounds k testing_running = refl
IsSound-rounds k waiting_starting = refl
IsSound-rounds k waiting_making = refl
IsSound-rounds k waiting_signalling = refl
IsSound-rounds k unlocking_running = refl
IsSound-rounds k finished = refl

IsSound-init : (a : Addr) → IsSound a event_loop_thread_init
unfolding event_loop_thread_init
IsSound-init a = before

-- Whatever turns the two threads have had, and however often the wait has ended without a signal, eight rounds in which
-- both have a turn bring event_loop_thread_start to its end: it returns the loop that the new thread has made, which
-- is not NULL, that thread runs this loop, and the mutex is free.
pub take_turns-Started :
    (a : Addr) (turns : List Turn)
    → 0 < a
    → Started a (take_turns a (turns ++ rounds 8) event_loop_thread_init)
take_turns-Started zero turns made = absurd (omega arith)
take_turns-Started (suc k) turns made =
    take_turns-++ (suc k) turns (rounds 8) event_loop_thread_init
    ∙ IsSound-rounds k (IsSound-take_turns k turns (IsSound-init (suc k)))

IsSound-returned : (a l : Addr) {t : LoopThread} → IsSound a t → t.caller ≡ returned l → Started a t
IsSound-returned a l before e = ground arith
IsSound-returned a l locking_starting e = ground arith
IsSound-returned a l locking_making e = ground arith
IsSound-returned a l locking_signalling e = ground arith
IsSound-returned a l locking_leaving e = ground arith
IsSound-returned a l locking_running e = ground arith
IsSound-returned a l woken_starting e = ground arith
IsSound-returned a l woken_making e = ground arith
IsSound-returned a l woken_signalling e = ground arith
IsSound-returned a l woken_leaving e = ground arith
IsSound-returned a l woken_running e = ground arith
IsSound-returned a l testing_starting e = ground arith
IsSound-returned a l testing_running e = ground arith
IsSound-returned a l waiting_starting e = ground arith
IsSound-returned a l waiting_making e = ground arith
IsSound-returned a l waiting_signalling e = ground arith
IsSound-returned a l unlocking_running e = ground arith
IsSound-returned a l finished e = refl

-- As soon as event_loop_thread_start has returned, in whatever order the turns came, it has returned the loop that the
-- new thread made, that thread runs it, and the mutex is free.
pub take_turns-returned :
    (a l : Addr) (turns : List Turn)
    → 0 < a
    → (take_turns a turns event_loop_thread_init).caller ≡ returned l
    → Started a (take_turns a turns event_loop_thread_init)
take_turns-returned zero l turns made e = absurd (omega arith)
take_turns-returned (suc k) l turns made e =
    IsSound-returned (suc k) l (IsSound-take_turns k turns (IsSound-init (suc k))) e
