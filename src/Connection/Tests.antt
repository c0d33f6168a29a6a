-- ===== src/Connection/Tests.antt =====
-- Small connections through their operations, and the theorems at them.
use cpp_example_code.Base.{ℕ, ◌≡◌, refl, inr, true, false, Option, none, some, List, [], ◌∷◌, arith}
use cpp_example_code.Base.Int.{pos, negsuc}
use cpp_example_code.Base.Lists.{replicate, length-replicate}
use cpp_example_code.Base.Loops.{for_each}
use cpp_example_code.Buffer.Ops.{
  Buffer, append, make_room, put_bytes, write_at, writeable_size, front_spare_size, readable_size,
  cells, copy_down,
}
use cpp_example_code.Buffer.Room.{content}
use cpp_example_code.EventLoop.State.{Addr, null, event_read, EventLoop}
use cpp_example_code.EventLoop.Poll.{PollFd, poll_dispatcher, poll_update, poll_events, set_events}
use cpp_example_code.EventLoop.Ops.{
  channel_write_event_is_enabled, channel_write_event_enable, do_channel_event,
  handle_pending_channel, handle_from, handle_change, handle_pending_update, channel_buffer_nolock,
}
use cpp_example_code.EventLoop.Interest.{IsReady}
use cpp_example_code.Connection.Ops.{
  Connection, System, left_from, write_enable, keep_rest, send_rest, send_data, handle_read,
  connect,
}
use cpp_example_code.Connection.Open.{IsOpen}
use cpp_example_code.Connection.Sent.{IsAble, Sent, send_data-Sent}
use cpp_example_code.Connection.Flushed.{Drained, rounds, rounds-Drained}
use cpp_example_code.Connection.Failing.{send_data_unwired, send_data_failed}
use cpp_example_code.Connection.Created.{Connected, connect-Connected}
use cpp_example_code.Connection.Reading.{Closed, handle_read-Closed}

abbrev system : System (List PollFd)
system = record {
  dispatcher = poll_dispatcher 64 256;
  fuel = 2;
  grants = λ e. true;
  realloc = λ n. replicate n 0;
  element = 900;
}

system-IsAble : IsAble system
system-IsAble = record {
  element = omega arith;
  fuel = omega arith;
  realloc = λ n. length-replicate n 0;
}

-- The channel at 5 is for descriptor 5 and is in the loop; its events and its data are given.
abbrev loop_of : ℕ → Addr → EventLoop (List PollFd)
loop_of events points_to = record {
  event_dispatcher_data = record { fd = 5; events = 64; revents = 0 } ∷ [];
  channel_map = record { entries = 0 ∷ 0 ∷ 0 ∷ 0 ∷ 0 ∷ 5 ∷ []; nentries = 6 };
  is_handle_pending = false;
  pending_head = null;
  pending_tail = null;
  elements = λ e. record { type = 0; channel = null; next = null };
  channels = λ a. record {
    fd = a;
    events = events;
    read_callback = true;
    write_callback = true;
    callback_data = points_to;
  };
  wakeups = 0;
}

loop-IsReady : (events : ℕ) (points_to : Addr) → IsReady (loop_of events points_to) 5
loop-IsReady events points_to = record {
  idle = refl;
  queue = record { chained = refl; once = λ a. omega arith; tail = refl };
  used = refl;
  inside = omega arith;
  there = refl;
}

abbrev empty_buffer : Buffer
empty_buffer = record { bytes = 0 ∷ 0 ∷ []; read_index = 0; write_index = 0; total_size = 2 }

abbrev three_bytes : Buffer
three_bytes = record { bytes = 7 ∷ 8 ∷ 9 ∷ []; read_index = 0; write_index = 3; total_size = 3 }

-- a connection at 70 whose event loop is at 60
abbrev connection_over : ℕ → Addr → Buffer → Connection (List PollFd) ℕ
connection_over events points_to output = record {
  self = 70;
  event_loop = 60;
  loop = loop_of events points_to;
  channel = 5;
  input_buffer = empty_buffer;
  output_buffer = output;
  request = 0;
  sent = 1 ∷ [];
  is_shut = false;
}

-- The channel's data is the event loop, and nothing waits.
abbrev wired : Connection (List PollFd) ℕ
wired = connection_over event_read 60 empty_buffer

-- The channel's data is the connection.
abbrev unwired : Connection (List PollFd) ℕ
unwired = connection_over event_read 70 empty_buffer

-- Three bytes wait.
abbrev waiting : Connection (List PollFd) ℕ
waiting = connection_over 6 60 three_bytes

wired-IsOpen : IsOpen wired
unfolding channel_write_event_is_enabled readable_size
wired-IsOpen = record {
  output = record { ordered = omega arith; bounded = omega arith; sized = refl };
  ready = loop-IsReady event_read 60;
  waits = refl;
}

unwired-IsOpen : IsOpen unwired
unfolding channel_write_event_is_enabled readable_size
unwired-IsOpen = record {
  output = record { ordered = omega arith; bounded = omega arith; sized = refl };
  ready = loop-IsReady event_read 70;
  waits = refl;
}

waiting-IsOpen : IsOpen waiting
unfolding channel_write_event_is_enabled readable_size
waiting-IsOpen = record {
  output = record { ordered = omega arith; bounded = omega arith; sized = refl };
  ready = loop-IsReady 6 60;
  waits = refl;
}

-- Two of four bytes go at once.
send_data-Sent_example :
    Sent wired (5 ∷ 6 ∷ 7 ∷ 8 ∷ []) 2 (send_data system (pos 2) none (5 ∷ 6 ∷ 7 ∷ 8 ∷ []) wired)
unfolding channel_write_event_is_enabled
send_data-Sent_example =
    send_data-Sent system system-IsAble none (5 ∷ 6 ∷ 7 ∷ 8 ∷ []) wired 2 wired-IsOpen (omega arith)
      (inr refl) (omega arith)

unwired_test : send_data system (pos 2) none (5 ∷ 6 ∷ 7 ∷ 8 ∷ []) unwired ≡ none
unfolding channel_write_event_is_enabled
unwired_test =
    send_data_unwired system system-IsAble none (5 ∷ 6 ∷ 7 ∷ 8 ∷ []) unwired 2 unwired-IsOpen refl
      refl (omega arith) (omega arith)

send_data_failed_example :
    (send_data system (negsuc 0) none (5 ∷ 6 ∷ []) wired ≡ none)
    × Sent wired
        (4 ∷ 5 ∷ 6 ∷ [])
        18446744073709551615
        (send_data system (negsuc 0) (some 4) (5 ∷ 6 ∷ []) wired)
unfolding channel_write_event_is_enabled
send_data_failed_example =
    send_data_failed system system-IsAble 4 (5 ∷ 6 ∷ []) wired wired-IsOpen refl refl (omega arith)

rounds-Drained_test : Drained waiting (rounds system (1 ∷ 2 ∷ []) waiting)
unfolding readable_size
rounds-Drained_test =
    rounds-Drained system system-IsAble (1 ∷ 2 ∷ []) waiting waiting-IsOpen refl
      (omega arith, (omega arith, tt)) refl

abbrev page : List ℕ
page = replicate 65536 0

connect-Connected_test : Connected {R = ℕ} (loop_of event_read 60) [] 900 3 60 70 3 8 (
    connect system false 3 60
      (loop_of event_read 60)
      70
      3
      page
      page
      0
      (some (λ c. some (record c { request = 8 }))))
connect-Connected_test =
    connect-Connected system 3 60 (loop_of event_read 60) 70 3 page page 0 8 [] refl
      (loop-IsReady event_read 60).queue (omega arith) refl (length-replicate {A = ℕ} 65536 0)
      (length-replicate {A = ℕ} 65536 0)

handle_read-Closed_example :
    Closed system wired none (handle_read system none [] none none wired)
    × Closed system wired none (handle_read system (some []) [] none none wired)
handle_read-Closed_example =
    handle_read-Closed system none none wired []
      (record { ordered = omega arith; bounded = omega arith; sized = refl }) refl
      (loop-IsReady event_read 60) system-IsAble (omega arith)

-- what the kernel has, what waits, and what poll is asked for
abbrev seen : Option (ℕ × Connection (List PollFd) ℕ) → List ℕ × List ℕ × List PollFd
seen none = ([], [], [])
seen (some (_, c)) = (c.sent, content c.output_buffer, c.loop.event_dispatcher_data)

program : Unit {0}
unfolding send_data send_rest left_from keep_rest write_enable append make_room put_bytes write_at
    writeable_size front_spare_size readable_size cells copy_down for_each
    channel_write_event_is_enabled channel_write_event_enable do_channel_event
    handle_pending_channel handle_from handle_change handle_pending_update channel_buffer_nolock
    poll_update set_events poll_events
program = tt

-- Two of four bytes go at once, the others wait, and poll is asked for both events.
sent_test :
    seen (send_data system (pos 2) none (5 ∷ 6 ∷ 7 ∷ 8 ∷ []) wired)
    ≡ (1 ∷ 5 ∷ 6 ∷ [], 7 ∷ 8 ∷ [], record { fd = 5; events = 320; revents = 0 } ∷ [])
unfolding program
sent_test = refl
