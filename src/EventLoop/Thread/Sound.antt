-- ===== src/EventLoop/Thread/Sound.antt =====
-- The states that the two threads of event_loop_thread.c can come to.
use cpp_example_code.Base.{ℕ, suc, List, [], ◌∷◌}
use cpp_example_code.EventLoop.State.{Addr, null}
use cpp_example_code.EventLoop.Thread.{
  creating, locking, testing, waiting, woken, unlocking, returned, not_created, starting, making,
  signalling, leaving, running, free, caller_holds, worker_holds, LoopThread, caller_locks,
  thread_start, worker_locks, wake, is_null, thread_run, Turn, caller_turn, worker_turn,
  unsignalled, take_turn, take_turns,
}

-- The mutex is held by a thread exactly between its lock and its unlock or wait, the pointer is set when the thread
-- has made the loop, and the caller waits only while the signal is still to come.
pub data IsSound (a : Addr) : LoopThread → Type 0 where
  before :
      IsSound a
        (record { event_loop = null; mutex = free; caller = creating; worker = not_created })
  locking_starting :
      IsSound a (record { event_loop = null; mutex = free; caller = locking; worker = starting })
  locking_making :
      IsSound a
        (record { event_loop = null; mutex = worker_holds; caller = locking; worker = making })
  locking_signalling :
      IsSound a
        (record { event_loop = a; mutex = worker_holds; caller = locking; worker = signalling })
  locking_leaving :
      IsSound a
        (record { event_loop = a; mutex = worker_holds; caller = locking; worker = leaving })
  locking_running :
      IsSound a (record { event_loop = a; mutex = free; caller = locking; worker = running a })
  woken_starting :
      IsSound a (record { event_loop = null; mutex = free; caller = woken; worker = starting })
  woken_making :
      IsSound a
        (record { event_loop = null; mutex = worker_holds; caller = woken; worker = making })
  woken_signalling :
      IsSound a
        (record { event_loop = a; mutex = worker_holds; caller = woken; worker = signalling })
  woken_leaving :
      IsSound a (record { event_loop = a; mutex = worker_holds; caller = woken; worker = leaving })
  woken_running :
      IsSound a (record { event_loop = a; mutex = free; caller = woken; worker = running a })
  testing_starting :
      IsSound a
        (record { event_loop = null; mutex = caller_holds; caller = testing; worker = starting })
  testing_running :
      IsSound a
        (record { event_loop = a; mutex = caller_holds; caller = testing; worker = running a })
  waiting_starting :
      IsSound a (record { event_loop = null; mutex = free; caller = waiting; worker = starting })
  waiting_making :
      IsSound a
        (record { event_loop = null; mutex = worker_holds; caller = waiting; worker = making })
  waiting_signalling :
      IsSound a
        (record { event_loop = a; mutex = worker_holds; caller = waiting; worker = signalling })
  unlocking_running :
      IsSound a
        (record { event_loop = a; mutex = caller_holds; caller = unlocking; worker = running a })
  finished :
      IsSound a (record { event_loop = a; mutex = free; caller = returned a; worker = running a })

IsSound-caller_turn :
    (k : ℕ) {t : LoopThread} → IsSound (suc k) t → IsSound (suc k) (take_turn (suc k) caller_turn t)
unfolding take_turn thread_start thread_run caller_locks worker_locks wake is_null
IsSound-caller_turn k before = locking_starting
IsSound-caller_turn k locking_starting = testing_starting
IsSound-caller_turn k locking_making = locking_making
IsSound-caller_turn k locking_signalling = locking_signalling
IsSound-caller_turn k locking_leaving = locking_leaving
IsSound-caller_turn k locking_running = testing_running
IsSound-caller_turn k woken_starting = testing_starting
IsSound-caller_turn k woken_making = woken_making
IsSound-caller_turn k woken_signalling = woken_signalling
IsSound-caller_turn k woken_leaving = woken_leaving
IsSound-caller_turn k woken_running = testing_running
IsSound-caller_turn k testing_starting = waiting_starting
IsSound-caller_turn k testing_running = unlocking_running
IsSound-caller_turn k waiting_starting = waiting_starting
IsSound-caller_turn k waiting_making = waiting_making
IsSound-caller_turn k waiting_signalling = waiting_signalling
IsSound-caller_turn k unlocking_running = finished
IsSound-caller_turn k finished = finished

IsSound-worker_turn :
    (k : ℕ) {t : LoopThread} → IsSound (suc k) t → IsSound (suc k) (take_turn (suc k) worker_turn t)
unfolding take_turn thread_start thread_run caller_locks worker_locks wake is_null
IsSound-worker_turn k before = before
IsSound-worker_turn k locking_starting = locking_making
IsSound-worker_turn k locking_making = locking_signalling
IsSound-worker_turn k locking_signalling = locking_leaving
IsSound-worker_turn k locking_leaving = locking_running
IsSound-worker_turn k locking_running = locking_running
IsSound-worker_turn k woken_starting = woken_making
IsSound-worker_turn k woken_making = woken_signalling
IsSound-worker_turn k woken_signalling = woken_leaving
IsSound-worker_turn k woken_leaving = woken_running
IsSound-worker_turn k woken_running = woken_running
IsSound-worker_turn k testing_starting = testing_starting
IsSound-worker_turn k testing_running = testing_running
IsSound-worker_turn k waiting_starting = waiting_making
IsSound-worker_turn k waiting_making = waiting_signalling
IsSound-worker_turn k waiting_signalling = woken_leaving
IsSound-worker_turn k unlocking_running = unlocking_running
IsSound-worker_turn k finished = finished

IsSound-unsignalled :
    (k : ℕ) {t : LoopThread} → IsSound (suc k) t → IsSound (suc k) (take_turn (suc k) unsignalled t)
unfolding take_turn thread_start thread_run caller_locks worker_locks wake is_null
IsSound-unsignalled k before = before
IsSound-unsignalled k locking_starting = locking_starting
IsSound-unsignalled k locking_making = locking_making
IsSound-unsignalled k locking_signalling = locking_signalling
IsSound-unsignalled k locking_leaving = locking_leaving
IsSound-unsignalled k locking_running = locking_running
IsSound-unsignalled k woken_starting = woken_starting
IsSound-unsignalled k woken_making = woken_making
IsSound-unsignalled k woken_signalling = woken_signalling
IsSound-unsignalled k woken_leaving = woken_leaving
IsSound-unsignalled k woken_running = woken_running
IsSound-unsignalled k testing_starting = testing_starting
IsSound-unsignalled k testing_running = testing_running
IsSound-unsignalled k waiting_starting = woken_starting
IsSound-unsignalled k waiting_making = woken_making
IsSound-unsignalled k waiting_signalling = woken_signalling
IsSound-unsignalled k unlocking_running = unlocking_running
IsSound-unsignalled k finished = finished

pub IsSound-take_turns :
    (k : ℕ) (turns : List Turn) {t : LoopThread}
    → IsSound (suc k) t
    → IsSound (suc k) (take_turns (suc k) turns t)
unfolding take_turns
IsSound-take_turns k [] s = s
IsSound-take_turns k (caller_turn ∷ turns) s = IsSound-take_turns k turns (IsSound-caller_turn k s)
IsSound-take_turns k (worker_turn ∷ turns) s = IsSound-take_turns k turns (IsSound-worker_turn k s)
IsSound-take_turns k (unsignalled ∷ turns) s = IsSound-take_turns k turns (IsSound-unsignalled k s)
