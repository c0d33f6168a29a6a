-- ===== src/Lib.antt =====
-- This library models the C programs of the repository that carry logic of their own, and proves
-- what makes them correct.
--
-- The parts
--   Hashtbl   c-hacks/src/hashtbl.c, c-hacks/include/c-hacks/hashtbl.h and the default key functions
--             of c-hacks/include/c-hacks/hashtbl-funcs.h: a chained hash table that doubles its
--             bucket array by itself.
--   Leb128    c-hacks/src/leb128.c: variable-length numbers, unsigned and signed.
--   Banker    操作系统算法/银行家算法/banker.c: the banker's algorithm.
--   Buffer    httptest-geektime/lib/buffer.c: the byte buffer between sockets and parsers.
--   LinkedHashtbl   c-hacks/src/linked-hashtbl.c: the hash table whose entries also stand on a
--             doubly linked list, for iteration in order and eviction of the oldest.
--   EventLoop httptest-geektime/lib: channel.c, channel_map.c, event_loop.c, poll_dispatcher.c and
--             thread_pool.c, the reactor of the network library; epoll_dispatcher.c and
--             event_loop_thread.c.
--   Http      httptest-geektime/lib/http_request.c, the parser of http_server.c, which reads the input buffer of
--             Buffer, http_response.c, which writes to an output buffer, and the callbacks of
--             http_server.c, which connect the two through Connection.
--   Connection httptest-geektime/lib/tcp_connection.c: what a connection does with the bytes that arrive
--             and that the application sends.
--   Input     httptest-geektime/lib/read.c: blocking reads of bytes, lines and messages.
--   TcpServer httptest-geektime/lib/tcp_server.c and thread_pool.c: the start of the server and of its threads,
--             and what it does with a new connection, through EventLoop and Connection.
--   Base      what the parts share: tests into Bool, lists and bit facts over native numbers.
-- Http reads its requests through Buffer; LinkedHashtbl rests on Hashtbl, of whose source its own is a
-- variant. The other parts do not call one another. Inside Hashtbl,
-- create and insert call resize, insert and remove go through find_entry and remove_key, delete
-- calls clear, as in the source.
--
-- How a part is modelled
--   Hashtbl.State     struct hashtbl and struct hashtbl_entry as records. A pointer of the client is
--                     its address; a slot's chain of next pointers is a list of entries, in order.
--   Hashtbl.Chain     the walks along a chain; Hashtbl.Capacity the sizes and the slot's index;
--   Hashtbl.Keys      hashtbl_direct_hash and hashtbl_direct_equals.
--   Hashtbl.Ops       the functions of hashtbl.c, under the source's names less the prefix hashtbl_.
--                     An operation returns its result, the changed table and the calls it makes of
--                     the client's and the allocator's functions, in order. hash_fn, equals_fn and
--                     the answers of malloc_fn are arguments; the laws asked of the key functions are
--                     Hashtbl.Read.IsKeyed. A double is a parameter, Doubles, so that nothing
--                     rests on how it rounds.
--   Hashtbl.Read, Slots, Flat, Transfer   the map that chains and slots stand for, and what a step
--                     does to it. Hashtbl.Resize.Models is the invariant, with that map.
--   Hashtbl.Rounding, Resize, Insert, Remove, Clear, Create, Visit   the theorems on each operation.
--   Leb128.Codec      the functions of leb128.c, less the prefix leb128_. A buffer is a list of
--                     bytes; a long has 64 bits, and a signed one is its pattern.
--   Leb128.Bytes, Unsigned, Signed, SignedTrip, Reads   the masks as arithmetic, and the theorems.
--   Banker.State      the global variables as one record; an int is its pattern, an array a function.
--   Banker.Loops      for loops and writes to arrays; Banker.Ops the functions of banker.c, with
--                     main's choices 2 and 4 as request_choice and check_choice. What the user
--                     types is an argument.
--   Banker.Init       init_system on the numbers typed, and its theorem.
--   Banker.Scan, Sequence, Undo, Granted, Request   the loop of is_safe, safe sequences as an inductive relation, and
--                     the theorems.
--   Buffer.Ops        the functions of buffer.c, less the prefix buffer_. The memory behind data is a
--                     list of bytes; what realloc adds and what readv stored are arguments, and memmem
--                     is its documented answer for a line end.
--   Buffer.Bytes, Room, Append, Socket, Reading   the copies cell by cell, and the theorems; the
--                     content of a buffer is the list of its readable bytes.
--   LinkedHashtbl.State  struct l_hashtbl with what is at the addresses of its entries: their links and
--                     their fields. Address 0 is the head of the list.
--   LinkedHashtbl.Ring   list_init, list_add_before and list_remove as writes to two functions, and
--                     the ring that they keep.
--   LinkedHashtbl.Ops    the functions of linked-hashtbl.c, with l_ for the prefix l_hashtbl_. What evictor_fn
--                     answers is an argument. Capacities, thresholds and indices are Hashtbl's.
--   LinkedHashtbl.View, Slots, Order   the table without its list is a table of Hashtbl, so that its
--                     map is taken over; View.Keeps is the invariant, with the map and the order.
--   LinkedHashtbl.Access, Change, Walk, Resize, Insert, Clear, Create   the theorems on each operation.
--   EventLoop.State   the structs; a descriptor is the 32-bit pattern of an int, channels and queue
--                     elements stand at addresses, and the dispatcher is a record of operations.
--   EventLoop.Map     channel_map.c. EventLoop.Poll  poll_dispatcher.c, whose operations fill that record; the
--                     flags POLLRDNORM and POLLWRNORM are parameters.
--   EventLoop.Ops     event_loop.c, channel.c and thread_pool_get_loop. A posted change goes through the
--                     queue to handle_change, which changes the channel map and calls the dispatcher.
--   EventLoop.Watch, Tracked, Applied, Change   the map and poll's array in step, and what the changes do to them;
--                     Pending the queue; Dispatch the loop over poll's answer; Pool the choice of a loop.
--   Http.Request      struct http_request, its functions, and parse_http_request as rounds on a buffer of Buffer.Ops.
--                     A string is the block that malloc gave for it; what can be used of the blocks
--                     of process_status_line, which writes a NUL behind what it asked for, is a
--                     parameter, and a write outside of it has no result, as the 385th header has none. strncmp's answer is a parameter where its value matters.
--   Http.Scan, Lines, Fields, StatusLine, Parse   the searches on text put together from its parts, the lines of a request,
--                     and the theorems.
--   Http.Response     http_response.c: the strings that the encoder appends, and the bytes they come to.
--   Hashtbl.Samples   the key functions of hashtbl-funcs.h for strings and integers.
--   EventLoop.Interest, Unwatch   the interest in writing, and the removal of a channel, in the loop's thread.
--   Connection.Ops    tcp_connection.c, less the prefix tcp_connection_, with connect for
--                     tcp_connection_new. A connection is a record with its event loop, its channel's address, its
--                     buffers and the bytes that the kernel has taken; what write and readv answer,
--                     and the callbacks, are arguments. A run in which channel->data is used as the event
--                     loop and is not has no result.
--   Connection.Open, Sent, Handed, Flushed, Reading, Failing, Created   open connections and their stream of bytes, and
--                     the theorems on sending, writing out, reading, failures and new connections.
--   Http.Server       the callbacks of http_server.c; the user's request callback is a parameter.
--   Http.Served, Exchange   a request answered, from http_onMessage and from handle_read on.
--   Input.Socket      read and recv as operations of a record, with the laws of a socket that delivers.
--   Input.Ops         read.c on such a record; each function gives what it returns and what it has stored.
--   Input.Readn, Messages, Lines, Endings   the theorems.
--   EventLoop.Epoll   epoll_dispatcher.c; epoll_ctl, close and the reports of epoll_wait are arguments.
--                     Dispatchers compares it with poll_dispatcher.c.
--   TcpServer.Ops     thread_pool_new, thread_pool_start and tcp_server.c without its sockets; the
--                     event loops stand at addresses. TcpServer.Accept has the theorems.
--   EventLoop.Thread  event_loop_thread.c: the caller and the new thread over one mutex and one condition, with a
--                     list of turns for the order in which they run, and waits that end without a signal.
--                     Thread.Sound has the states that they come to, Thread.Started the theorems.
--   EventLoop.Made    event_loop_init_with_name, and the loop that it makes over poll.
--   Hashtbl.Freed     what is given back for an entry, said without the code.
--   Leb128.Groups, Values   the number that bytes stand for, and what the unsigned decoder reads.
--   The modules named Tests run the definitions and apply the theorems at concrete inputs.
--
-- Bounds and fuel
--   The loop that rounds a capacity up has 31 rounds: the one call has a capacity below 2 ^ 30, so
--   the loop ends by its own test. The encoders have ten rounds, since 64 bits are at most ten groups
--   of seven. The decoders stop at the end of the buffer, where
--   the source would read on, and at a shift by 64 or more, which C does not define.
--   nentries wraps at 2 ^ 64, hash values at 2 ^ 32; a doubled capacity wraps as an int does.
--   The loop of is_safe has 2 * progress_num + 1 rounds, since it restarts at most once. The banker's counts wrap at 2 ^ 32, and its arrays have no end, so
--   what it does with a process or a resource beyond the tenth is not what C does.
--   A buffer's size stays below 2 ^ 31, where an int would overflow; a model that would go beyond it,
--   or write outside data, has no result.
--   A loop over the linked table's list has one round more than the table has entries; the theorems show
--   that it ends within them on a well-formed table.
--   The channel map's doubling has 32 rounds, as an int has bits; beyond 2 ^ 31 it has no result. The
--   handling of the queue takes its number of rounds as an argument, and any that is larger than the
--   queue is enough. poll_dispatch has the 1025 rounds of its loop.
--   The parser takes its number of rounds as an argument; one for each line of the request and one more are
--   enough for a whole request.
--   A printed number has at most twenty digits, as a number of 64 bits.
--   readn and readline take the number of their rounds as an argument; the size asked for and the number of
--   interrupts are enough.
--   Eight rounds in which both threads have a turn are enough for the start of a thread.
--   The array of headers has room for 384, by the sizes of a 64-bit machine. A LEB128 decoder has no result
--   where C does not define its next shift, by 64 or more; the shifts and the negation of a signed
--   long wrap, as with the compilers in use. What a hash table frees is a list of calls; after it has been freed,
--   an entry's links are arbitrary in the linked table's clearing, and its other fields stay. A connection whose channel's data is not its event
--   loop has no result where channel.c uses that data as the event loop.
--
-- Not modelled
--   Of httptest-geektime/lib, event_loop_run, which goes on for ever, has no model, nor have
--   epoll_init, epoll_clear, handleWakeup, the acceptor, the client and the sockets of tcp_server.c, which are calls of the system and
--   have no model here.
--   c-hacks/src/btree.c has no code. Tests, mains and logging are input and output only. spdlog,
--   ThreadPool, the Npcap SDK under wireshark and generated protobuf code are other projects' code;
--   coord-convert, boost and opencv-test are C++ programs around libraries.
pub mod Banker
pub mod Base
pub mod Buffer
pub mod Connection
pub mod EventLoop
pub mod Hashtbl
pub mod Http
pub mod Input
pub mod Leb128
pub mod LinkedHashtbl
pub mod TcpServer
