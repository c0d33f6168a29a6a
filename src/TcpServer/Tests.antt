-- ===== src/TcpServer/Tests.antt =====
-- A server with two threads, its start and a connection, and the theorems at it.
use cpp_example_code.Base.{ℕ, ◌+◌, ◌≡◌, refl, true, false, Option, none, some, List, [], ◌∷◌, arith}
use cpp_example_code.Base.Lists.{replicate, length-replicate}
use cpp_example_code.EventLoop.State.{Addr, null, Dispatcher, EventLoop}
use cpp_example_code.EventLoop.Map.{map_init, map_make_space, double_until}
use cpp_example_code.EventLoop.Ops.{
  ThreadPool, channel_new, do_channel_event, handle_pending_channel, handle_from, handle_change,
  handle_pending_add, channel_buffer_nolock,
}
use cpp_example_code.Connection.Ops.{System}
use cpp_example_code.TcpServer.Ops.{
  thread_pool_new, start_threads, thread_pool_start, TcpServer, tcp_server_init, tcp_server_start,
  handle_connection_established,
}
use cpp_example_code.TcpServer.Accept.{
  Ready, thread_pool_start-Ready, Established, handle_connection_established-Established,
}

-- The loop of the i-th thread is at 10 + i.
abbrev loop_of : ℕ → Addr
loop_of i = 10 + i

thread_pool_start-Ready_example : Ready loop_of 2 (thread_pool_start loop_of (thread_pool_new 1 2))
thread_pool_start-Ready_example = thread_pool_start-Ready loop_of 1 2 (omega arith) (omega arith)

-- a dispatcher that counts the channels it has been given
abbrev counting : Dispatcher ℕ
counting = record { add = λ s c. s + 1; del = λ s c. (false, s); update = λ s c. s }

abbrev system : System ℕ
system = record {
  dispatcher = counting;
  fuel = 4;
  grants = λ e. true;
  realloc = λ n. replicate n 0;
  element = 900;
}

abbrev empty_loop : EventLoop ℕ
empty_loop = record {
  event_dispatcher_data = 0;
  channel_map = map_init;
  is_handle_pending = false;
  pending_head = null;
  pending_tail = null;
  elements = λ e. record { type = 0; channel = null; next = null };
  channels = λ a. record {
    fd = 0;
    events = 0;
    read_callback = false;
    write_callback = false;
    callback_data = null;
  };
  wakeups = 0;
}

abbrev started_pool : ThreadPool
started_pool = record {
  main_loop = 1;
  started = true;
  thread_number = 2;
  event_loops = 10 ∷ 11 ∷ [];
  position = 1;
}

abbrev server : TcpServer ℕ
server = record {
  self = 500;
  event_loop = 1;
  listen_fd = 3;
  thread_pool = started_pool;
  loops = λ b. empty_loop;
}

abbrev page : List ℕ
page = replicate 65536 0

-- The second thread's turn.
handle_connection_established-Established_example : Established {R = ℕ} server 11 [] 900 7 70 8 5 (
    handle_connection_established system
      (λ b. false)
      7
      70
      8
      page
      page
      0
      (some (λ c. some (record c { request = 5 })))
      server)
handle_connection_established-Established_example =
    handle_connection_established-Established system server 11 7 70 8 page page 0 5 []
      (record { started = refl; loops = refl; several = omega arith; fits = omega arith }) refl refl
      (record { chained = refl; once = λ a. omega arith; tail = refl }) (omega arith) refl
      (length-replicate {A = ℕ} 65536 0) (length-replicate {A = ℕ} 65536 0)

-- what the main loop's dispatcher has, and the threads' loops
abbrev seen : Option (TcpServer ℕ) → ℕ × List Addr
seen none = (0, [])
seen (some t) = ((t.loops 1).event_dispatcher_data, t.thread_pool.event_loops)

-- A start puts the listening channel into the main loop and starts the threads.
start_test :
    seen (tcp_server_start system loop_of 8 (tcp_server_init 500 1 3 2 (λ b. empty_loop)))
    ≡ (1, 10 ∷ 11 ∷ [])
unfolding tcp_server_start tcp_server_init thread_pool_new thread_pool_start start_threads
    channel_new do_channel_event handle_pending_channel handle_from handle_change handle_pending_add
    channel_buffer_nolock map_make_space map_init double_until
start_test = refl
