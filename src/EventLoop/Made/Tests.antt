-- ===== src/EventLoop/Made/Tests.antt =====
-- A new loop over poll.
use cpp_example_code.Base.{false}
use cpp_example_code.EventLoop.State.{Addr, null, Channel, Element}
use cpp_example_code.EventLoop.Poll.{PollFd}
use cpp_example_code.EventLoop.Made.{Made}

abbrev blank : PollFd
blank = record { fd = 0; events = 0; revents = 0 }

abbrev no_element : Addr → Element
no_element _ = record { type = 0; channel = null; next = null }

abbrev no_channel : Addr → Channel
no_channel _ = record {
  fd = 0;
  events = 0;
  read_callback = false;
  write_callback = false;
  callback_data = null;
}
