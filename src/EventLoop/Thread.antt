-- ===== src/EventLoop/Thread.antt =====
-- httptest-geektime/lib/event_loop_thread.c: the caller of event_loop_thread_start and the thread that it creates,
-- as two threads over one mutex and one condition, whose turns come in any order.
pub mod Sound
pub mod Started
mod Tests
use cpp_example_code.Base.{zero, suc, Bool, true, false, List, [], ◌∷◌}
use cpp_example_code.Base.Tests.{if◌then◌else◌}
use cpp_example_code.EventLoop.State.{Addr, null}

-- the next statement of `event_loop_thread_start`
pub data Caller : Type 0 where
  creating : Caller
  locking : Caller
  testing : Caller
  waiting : Caller
  woken : Caller
  unlocking : Caller
  returned : Addr → Caller

-- the next statement of `event_loop_thread_run`, up to its call of `event_loop_run` with a loop
pub data Worker : Type 0 where
  not_created : Worker
  starting : Worker
  making : Worker
  signalling : Worker
  leaving : Worker
  running : Addr → Worker

pub data Holder : Type 0 where
  free : Holder
  caller_holds : Holder
  worker_holds : Holder

-- `struct event_loop_thread`, with who holds its mutex, and where the two threads are
pub record LoopThread : Type 0 where
  pub event_loop : Addr
  pub mutex : Holder
  pub caller : Caller
  pub worker : Worker

unfoldable pub event_loop_thread_init : LoopThread
event_loop_thread_init = record {
  event_loop = null;
  mutex = free;
  caller = creating;
  worker = not_created;
}

-- `eventLoop == NULL`
unfoldable pub is_null : Addr → Bool
is_null zero = true
is_null (suc a) = false

-- pthread_mutex_lock of the caller, and its return from pthread_cond_wait, which stay while the mutex is held
unfoldable pub caller_locks : Holder → LoopThread → LoopThread
caller_locks free t = record t { mutex = caller_holds; caller = testing }
caller_locks caller_holds t = t
caller_locks worker_holds t = t

-- a turn of `event_loop_thread_start`
unfoldable pub thread_start : Caller → LoopThread → LoopThread
thread_start creating t = record t { worker = starting; caller = locking }
thread_start locking t = caller_locks t.mutex t
thread_start testing t =
    if is_null t.event_loop
    then record t { mutex = free; caller = waiting }
    else record t { caller = unlocking }
thread_start waiting t = t
thread_start woken t = caller_locks t.mutex t
thread_start unlocking t = record t { mutex = free; caller = returned t.event_loop }
thread_start (returned a) t = t

-- pthread_mutex_lock of the new thread
unfoldable pub worker_locks : Holder → LoopThread → LoopThread
worker_locks free t = record t { mutex = worker_holds; worker = making }
worker_locks caller_holds t = t
worker_locks worker_holds t = t

-- pthread_cond_signal, and pthread_cond_wait's return without a signal
unfoldable pub wake : Caller → Caller
wake creating = creating
wake locking = locking
wake testing = testing
wake waiting = woken
wake woken = woken
wake unlocking = unlocking
wake (returned a) = returned a

-- a turn of `event_loop_thread_run`, where `event_loop_init_with_name` makes the loop at `a`
unfoldable pub thread_run : Addr → Worker → LoopThread → LoopThread
thread_run a not_created t = t
thread_run a starting t = worker_locks t.mutex t
thread_run a making t = record t { event_loop = a; worker = signalling }
thread_run a signalling t = record t { caller = wake t.caller; worker = leaving }
thread_run a leaving t = record t { mutex = free; worker = running t.event_loop }
thread_run a (running l) t = t

-- whose turn it is; or the caller's wait ends without a signal
pub data Turn : Type 0 where
  caller_turn : Turn
  worker_turn : Turn
  unsignalled : Turn

unfoldable pub take_turn : Addr → Turn → LoopThread → LoopThread
take_turn a caller_turn t = thread_start t.caller t
take_turn a worker_turn t = thread_run a t.worker t
take_turn a unsignalled t = record t { caller = wake t.caller }

unfoldable pub take_turns : Addr → List Turn → LoopThread → LoopThread
take_turns a [] t = t
take_turns a (turn ∷ turns) t = take_turns a turns (take_turn a turn t)
