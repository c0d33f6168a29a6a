-- ===== src/TcpServer/Accept.antt =====
-- New connections go to the loops of the pool in turn.
use cpp_example_code.Base.{
  ℕ, zero, suc, ◌+◌, ◌<◌, ◌≡◌, refl, ◌∙◌, ap, true, false, ◌||◌, Option, some, List, arith,
}
use mathlib.Core.Path.{subst}
use cpp_example_code.Base.Tests.{leb, ◌==◌, if◌then◌else◌}
use cpp_example_code.Base.Lists.{length, get_elem?}
use cpp_example_code.Base.Loops.{assign, assign_self, assign_other}
use cpp_example_code.Base.Occurs.{occurs}
use cpp_example_code.Buffer.Ops.{init_buffer_size}
use cpp_example_code.EventLoop.State.{Addr, is_negative}
use cpp_example_code.EventLoop.Ops.{ThreadPool}
use cpp_example_code.EventLoop.Pending.{IsQueue}
use cpp_example_code.EventLoop.Pool.{IsStarted, choices, choices-event_loops, get_loop_at}
use cpp_example_code.Connection.Ops.{Connection, System}
use cpp_example_code.Connection.Created.{Connected, connect-Connected}
use cpp_example_code.TcpServer.Ops.{
  thread_pool_new, start_threads, thread_pool_start, TcpServer, handle_connection_established,
}

length-start_threads : (loop_of : ℕ → Addr) (i n : ℕ) → length (start_threads loop_of i n) ≡ n
unfolding start_threads
length-start_threads loop_of i zero = refl
length-start_threads loop_of i (suc n) = ap suc (length-start_threads loop_of (suc i) n)

-- The loops are those of the threads, by their numbers.
start_threads-loop_of :
    (loop_of : ℕ → Addr) (n i j : ℕ)
    → j < n
    → get_elem? (start_threads loop_of i n) j ≡ some (loop_of (i + j))
unfolding start_threads
start_threads-loop_of loop_of zero i j below = absurd (omega arith)
start_threads-loop_of loop_of (suc n) i zero below = ap (λ k. some (loop_of k)) (omega arith)
start_threads-loop_of loop_of (suc n) i (suc j) below =
    start_threads-loop_of loop_of n (suc i) j (omega arith)
    ∙ ap (λ k. some (loop_of k)) (omega arith)

-- A pool that has been made and started: calls of `thread_pool_get_loop`, one for each thread, choose the loops of
-- the threads with the numbers 0, 1 and so on, and the pool is then as before.
pub record Ready (loop_of : ℕ → Addr) (number : ℕ) (out : Option ThreadPool) : Type 0 where
  pub after : ThreadPool
  pub returns : out ≡ some after
  pub started : IsStarted after
  pub first : after.position ≡ 0
  pub chosen : List Addr
  pub in_turn : choices number after ≡ some (chosen, after)
  pub as_many : length chosen ≡ number
  pub of_thread : (i : ℕ) → i < number → get_elem? chosen i ≡ some (loop_of i)

-- `thread_pool_new` and `thread_pool_start` with some threads make a started pool, in which as many calls of
-- `thread_pool_get_loop` as there are threads choose the loops of the threads with the numbers 0, 1 and so on, in this
-- order.
pub thread_pool_start-Ready :
    (loop_of : ℕ → Addr) (main : Addr) (number : ℕ)
    → 0 < number
    → number < 2147483648
    → Ready loop_of number (thread_pool_start loop_of (thread_pool_new main number))
unfolding thread_pool_start thread_pool_new
thread_pool_start-Ready loop_of main number several fits =
    let threads : (leb number 0 || is_negative number) ≡ false = ground arith in
    let pool : ThreadPool = record {
      main_loop = main;
      started = true;
      thread_number = number;
      event_loops = start_threads loop_of 0 number;
      position = 0;
    } in
    let s : IsStarted pool = record {
      started = refl;
      loops = length-start_threads loop_of 0 number;
      several = several;
      fits = fits;
    } in
    record {
      after = pool;
      returns = rw threads refl;
      started = s;
      first = refl;
      chosen = start_threads loop_of 0 number;
      in_turn = choices-event_loops pool s refl;
      as_many = length-start_threads loop_of 0 number;
      of_thread = λ i below.
          start_threads-loop_of loop_of number 0 i below ∙ ap (λ k. some (loop_of k)) (omega arith);
    }

module _ {S R : Type 0} where
  -- What a new connection is: one with the loop whose turn it is, made as tcp_connection_new promises; the next
  -- loop's turn comes, and the other loops are as they were.
  pub record Established (t : TcpServer S) (at : Addr) (queued : List Addr) (e fd : ℕ)
      (self a : Addr) (r : R) (out : Option (Connection S R × TcpServer S)) : Type 0 where
    pub connection : Connection S R
    pub server : TcpServer S
    pub returns : out ≡ some (connection, server)
    pub connected : Connected (t.loops at) queued e fd at self a r (some connection)
    pub here : server.loops at ≡ connection.loop
    pub others : (b : Addr) → (b == at) ≡ false → server.loops b ≡ t.loops b
    pub turn : server.thread_pool ≡ record t.thread_pool {
      position =
          if leb t.thread_pool.thread_number (t.thread_pool.position + 1)
          then 0
          else t.thread_pool.position + 1;
    }

  -- `handle_connection_established` on a server whose pool is started makes the connection with the loop whose
  -- turn it is, which runs in another thread, and leaves the other loops alone.
  pub handle_connection_established-Established :
      (sys : System S) (t : TcpServer S) (at : Addr) (fd : ℕ) (self a : Addr)
      (read_memory written_memory : List ℕ) (blank r : R) (queued : List Addr)
      → IsStarted t.thread_pool
      → get_elem? t.thread_pool.event_loops t.thread_pool.position ≡ some at
      → (t.loops at).is_handle_pending ≡ false
      → IsQueue (t.loops at) queued
      → 0 < sys.element
      → occurs sys.element queued ≡ 0
      → length read_memory ≡ init_buffer_size
      → length written_memory ≡ init_buffer_size
      → Established t at queued sys.element fd self a r (
          handle_connection_established sys
            (λ b. false)
            fd
            self
            a
            read_memory
            written_memory
            blank
            (some (λ c. some (record c { request = r })))
            t)
  unfolding handle_connection_established
  handle_connection_established-Established sys t at fd self a read_memory written_memory blank r
        queued s turn idle queue proper fresh in_size out_size =
      let chosen = get_loop_at t.thread_pool t.thread_pool.position at s turn in
      let c =
        connect-Connected sys fd at (t.loops at) self a read_memory written_memory blank r queued
          idle queue proper fresh in_size out_size in
      record {
        connection = c.after;
        server = record t { thread_pool = _; loops = assign t.loops at c.after.loop };
        returns = rw (chosen, c.returns, handle_connection_established) refl;
        connected = subst (Connected (t.loops at) queued sys.element fd at self a r) c.returns c;
        here = assign_self t.loops at c.after.loop;
        others = λ b differ. assign_other t.loops at b c.after.loop differ;
        turn = refl;
      }
