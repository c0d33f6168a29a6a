-- ===== src/TcpServer/Ops.antt =====
-- httptest-geektime/lib/tcp_server.c on a socket that listens, and the set-up of thread_pool.c, in the main
-- thread. `none` is a run that an assert stops, or that C does not define.
use cpp_example_code.Base.{ℕ, zero, suc, Bool, true, false, ◌||◌, Option, none, some, List, [], ◌∷◌}
use cpp_example_code.Base.Tests.{leb, if◌then◌else◌}
use cpp_example_code.Base.Loops.{assign}
use cpp_example_code.EventLoop.State.{Addr, is_negative, event_read, EventLoop}
use cpp_example_code.EventLoop.Ops.{channel_new, do_channel_event, ThreadPool, thread_pool_get_loop}
use cpp_example_code.Connection.Ops.{Connection, ConnectionCallback, System, connect}

unfoldable pub thread_pool_new : Addr → ℕ → ThreadPool
thread_pool_new main number = record {
  main_loop = main;
  started = false;
  thread_number = number;
  event_loops = [];
  position = 0;
}

-- the loop that starts the threads: what `event_loop_thread_start` gives for the `i`-th is `loop_of i`
unfoldable pub start_threads : (ℕ → Addr) → ℕ → ℕ → List Addr
start_threads loop_of i zero = []
start_threads loop_of i (suc n) = loop_of i ∷ start_threads loop_of (suc i) n

unfoldable pub thread_pool_start : (ℕ → Addr) → ThreadPool → Option ThreadPool
thread_pool_start loop_of t =
    if t.started
    then none
    else if leb t.thread_number 0 || is_negative t.thread_number
    then some (record t { started = true })
    else some (record t { started = true; event_loops = start_threads loop_of 0 t.thread_number })

-- `struct TCPserver`, less the port, the callbacks and the pointer data, with its own address, its acceptor's
-- descriptor and the event loops at their addresses
pub record TcpServer (S : Type 0) : Type 0 where
  pub self : Addr
  pub event_loop : Addr
  pub listen_fd : ℕ
  pub thread_pool : ThreadPool
  pub loops : Addr → EventLoop S

unfoldable pub tcp_server_init :
    {S : Type 0} → Addr → Addr → ℕ → ℕ → (Addr → EventLoop S) → TcpServer S
tcp_server_init self at listen_fd number loops = record {
  self = self;
  event_loop = at;
  listen_fd = listen_fd;
  thread_pool = thread_pool_new at number;
  loops = loops;
}

module _ {S : Type 0} (sys : System S) where
  -- `tcp_server_start`, with the listening channel at `a`
  unfoldable pub tcp_server_start : (ℕ → Addr) → Addr → TcpServer S → Option (TcpServer S)
  tcp_server_start loop_of a t = elim (thread_pool_start loop_of t.thread_pool) [
    | none ↦ none
    | some pool ↦
        let l = t.loops t.event_loop in
        let l' = record l {
          channels = assign l.channels a (channel_new t.listen_fd event_read true false t.self);
        } in
        elim (do_channel_event sys.dispatcher sys.fuel sys.grants true sys.element l' a 1) [
          | none ↦ none
          | some l'' ↦
              some (record t { thread_pool = pool; loops = assign t.loops t.event_loop l'' })
        ]
  ]

  -- `handle_connection_established`, where accept has returned `fd`; the connection is made at `self`, its channel
  -- at `a`, without the server's data in it. `same_thread` is whether the loop that is chosen runs in the main thread.
  unfoldable pub handle_connection_established :
      {R : Type 0}
      → (Addr → Bool)
      → ℕ
      → Addr
      → Addr
      → List ℕ
      → List ℕ
      → R
      → ConnectionCallback S R
      → TcpServer S
      → Option (Connection S R × TcpServer S)
  handle_connection_established same_thread fd self a read_memory written_memory request completed
        t =
      elim (thread_pool_get_loop t.thread_pool) [
        | none ↦ none
        | some (at, pool) ↦
            elim (connect sys (same_thread at) fd at (t.loops at) self a read_memory written_memory
              request completed) [
                | none ↦ none
                | some c ↦
                    some (c, record t { thread_pool = pool; loops = assign t.loops at c.loop })
              ]
      ]
