-- ===== src/Lib.antt =====
-- ucxpp wraps UCX, a communication library in C, in C++ objects and coroutines. This library models
-- its code and proves what the objects promise of the handles they own and the coroutines they resume.
--
-- The parts, and how they interact:
--   Errors        include/ucxpp/error.h: status codes, exceptions as values, the four checks.
--   Ucx           The boundary to UCX: what the code calls is a list of `Event`s, and what the calls
--                 return are arguments of the model, so nothing is assumed of UCX but what
--                 `StatusPtrs` (pointers that carry a status) and `IsFlags` (feature flags are
--                 single bits) say. In the same way `Epoll` says what epoll documents of its
--                 interest list, `Atomics` what UCX documents of its atomic operations, and
--                 `Decimal` that numbers are read as they are printed. `Run` is a list of events with
--                 a value or an exception.
--   Config        include/ucxpp/config.h, src/config.cc.
--   Context       include/ucxpp/context.h, src/context.cc: the builder and the context. Build is about
--                 its construction, Features about the feature flags.
--   Worker        include/ucxpp/worker.h, src/worker.cc. Wakeup is about the event descriptor.
--   Awaitable     include/ucxpp/awaitable.h, src/awaitable.cc: what the awaitables share. Send has those
--                 with a send-like callback, StreamRecv and TagRecv the receives. Protocol runs a
--                 whole `co_await`: native call, suspension, callback, result. Cancel is about `cancel`.
--   Raii          Objects that own a native handle and may be moved from: the interface `Owner`, which
--                 memory handles, packed keys, remote keys and addresses implement, and scripts of
--                 what programs do with such objects. Conserved counts the handles over a script.
--   Address       include/ucxpp/address.h, src/address.cc, and `worker::get_address`.
--   Endpoint      include/ucxpp/endpoint.h, src/endpoint.cc, with the flush and close awaitables of
--                 src/awaitable.cc. Closing counts how often an endpoint is closed.
--   Memory        include/ucxpp/memory.h, src/memory.cc: the owners in LocalOwner, PackedOwner and
--                 RemoteOwner.
--   Task          include/ucxpp/task.h: one coroutine frame, its promise and its tasks, as steps of a
--                 program and of the coroutine. Frame is the invariant, Leaks when the frame is freed.
--   Serdes        include/ucxpp/detail/serdes.h, for hosts of either byte order.
--   Transmission  examples/ep_transmission.cc: the exchange of worker addresses over TCP. Reading and
--                 Sending are about its loops, Exchange puts both ends together.
--   Handshake     examples/connector.cc, examples/acceptor.cc: both directions of the exchange, and in
--                 Meeting the two programs at one connection.
--   EventLoop     examples/socket/event_loop.cc: registration. Polling is its `poll`, Program what the
--                 coroutines do with channels while they run. Consistent and Kept are about the map
--                 and the interest list of epoll, Waits, Firing and Steady about what the loop promises
--                 of waits, Dangling about the cases in which it does not. Running has the
--                 constructor, the destructor and `loop`; Flag and Ends are about how `loop` ends. Text
--                 is about the events in the log.
--   Channel       examples/socket/channel.cc: the channels that the loop knows, by their addresses.
--   Listener      examples/socket/tcp_listener.cc. Accepting is about `accept`, Leaks about the
--                 constructor, Text about the peers in the log.
--   Connection    examples/socket/tcp_connection.cc: the awaitable of `send` and `recv`, in Transfer,
--                 and that of `connect`, in Connect. FirstAddress is about the sockets
--                 that it makes, Careful and Suspends about what it does to the event loop.
--   WorkerEpoll   examples/worker_epoll.cc: the callback that drains and arms a worker. Draining is
--                 about how its loop ends, Rounds about whole runs. Registering has `register_loop`
--                 and what the callback does to the event loop, and Serving puts both on the loop.
--   Perftest      examples/perftest.cc: the counter that senders and receivers share. Counter bounds
--                 it, Ending bounds the number of steps. Options reads the command line, Printing and
--                 LastOption are about what it reads, Contexts about the context of `main`. Session
--                 has `client` and `server` at one connection: Turn, Sender and Receiver are about
--                 one side, Side and Single about sessions of one task, Starved about those of several.
--                 Stream has sessions on the stream: StreamServer and Overshot are about receives
--                 that take too much, Bytes and Whole about those that give whole messages. Main
--                 has the rest of `main`: Waiting is about the tests in its loops, Enabled about the features
--                 that its operations need. Report has the reports, Affinity has `bind_cpu`.
--   Helloworld    examples/helloworld.cc: the first messages of client and server, in Greetings and
--                 Turns, their turns at the atomic operations, in Bells and Finish, the exchange of
--                 memory keys, in Regions, and the programs around them, in Main.
--   Base          Shared types, tests on numbers, loops that wait, and lemmas on lists and bits.
--   Tests         Runs on concrete values.
--
-- State is explicit: an object is a record, an operation a function from the old record to the events
-- and the new one. A member that a constructor does not set is an `Option`, and reading it unset is the
-- event `undefined`, as are a null pointer that is followed and an assertion that fails; where the
-- value read decides what happens next, it is the argument `garbage`. Native handles are numbers, and
-- 0 is null. Coroutines are numbers too.
--
-- Bounds: the loops of the address exchange and of the callback end or wait by recursion on the
-- list of what their calls give; theorems say which answers are enough. The coroutines of perftest
-- and of helloworld run by a schedule, and theorems bound its length; the loops of both `main`s run
-- by what their tests read. What a resumed coroutine does with the event loop until it suspends is
-- a finite list of commands. There is no other fuel. Byte values are numbers, and a theorem on
-- `w`-byte integers names the bound `256 ^ w`.
--
-- Not modelled: the text that exceptions are formatted to, and the other log output; the reference
-- counts of shared pointers; races of threads inside one operation (a task that one thread destroys
-- while another one runs its final suspension); the allocation of an address buffer that is too
-- large for memory, and the conversion of a transfer's size to `int`, in the address exchange; the
-- lock of the event loop, since one thread is at work; a callback of the loop that throws, as that
-- of a worker may from `progress` and `arm`, and the way of its exception through `poll`; the
-- averages that the last report of perftest prints, its usage text, and the allocation of its
-- memory; the calls of the operating system and UCX itself.
mod Base
pub mod Errors
pub mod Ucx
pub mod Config
pub mod Context
pub mod Worker
pub mod Raii
pub mod Awaitable
pub mod Address
pub mod Endpoint
pub mod Memory
pub mod Task
pub mod Transmission
pub mod Serdes
pub mod EventLoop
pub mod Channel
pub mod Listener
pub mod Handshake
pub mod WorkerEpoll
pub mod Connection
pub mod Perftest
pub mod Helloworld
mod Tests
