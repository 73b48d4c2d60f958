-- ===== src/Lib.antt =====
-- Verification of the io4edge C client library.
--
-- The library lets a program command an io4edge function block over TCP and receive its streams. A
-- function block client (src/functionblock.c) owns a transport handle (src/unix/socket_transport.c) and
-- a stream queue (src/streamq.c). `command` packs a request, hands it to the transport and waits on a
-- semaphore; a read thread takes messages from the transport, stores a command's response and posts
-- the semaphore, or pushes a stream message to the queue, from where the application pops it. The
-- blocks' files (src/binaryiotypea.c, src/analogintypea.c, src/canl2.c, src/mvbsniffer.c) pack their
-- requests and take the values out of the responses.
--
-- Files:
--   Base        shared names: C arrays as lists over the native numbers, Boolean tests, bits, ℤ
--   Err         the return codes of src/include/io4edge_client.h
--   Sem, Exec   the POSIX semaphore; how a call may end (it returns, hangs, or reads through NULL)
--   Streamq     src/streamq.c: `io4e_streamq_new`, `_push`, `_pop`, `_entries`, `get_timeout`. Valid
--               holds the invariant, Fifo the abstract queue, Refine the refinement, Threads the
--               interleavings of any number of threads, Timeout the deadlines, UnitTests the cases of
--               tests/test_streamq.cc
--   Transport   `transport_t` of src/io4edge_internal.h
--   Socket      src/unix/socket_transport.c: `read_complete`, `read_msg`, `write_msg`. Frame is on the
--               header, Read and Write on the two loops, RoundTrip on whole frames, Sequence on
--               several of them, Reference on bytes in any segments, Errors and Truncated on failures in
--               the header and in the payload
--   Proto       the protobuf messages as far as the source reads their fields
--   Client      src/functionblock.c: `map_fb_error`, `command`, `read_thread`. Wrap and Codes are on the
--               context and the codes, Reading and Frame on steps of the thread, Exchange on one
--               command, Steady and Stale on responses in time and late, Ledger and Handover on who owns
--               which message
--   Functionblock  the other operations of src/functionblock.c, from `MAKE_ANYPB` to `read_stream`. Answers
--               and Requests are on all branches, Reads on streams and on one exchange, Streams on the way
--               of a stream message into the queue, Wire on an operation over the TCP transport
--   Handoff     `command` and `read_thread` once more, one access of the shared response slot at a time:
--               Calm is on waits that do not time out, Progress on the end of a command, Clash on a late
--               response
--   Blocks      the four blocks' clients, and the packing macros of src/io4edge_internal.h
--   Lifecycle   `client_new`, `client_delete`, `io4edge_transport_new`, `transport_connect`, `destroy`,
--               `io4e_streamq_delete`, with the blocks, sockets and threads that they hold
--   Session     any sequence of operations, reads and thread steps on one client, from its creation to its
--               deletion
--   Log         the macros of src/logging.h, src/logging.c and src/unix/logging.c
--   Demo        the programs under examples: Reconnect and SnifferMain (examples/mvbsniffer), Can
--               (examples/canl2), BinaryIo (examples/binaryiotypea), AnalogIn (examples/analogintypea). Main is
--               the frame of a `main`, Text and its children the lines that they put together with
--               `snprintf`, Telegram and CanSample two such functions; Ensures, Control and Calls carry
--               what a program owes through its calls, loops and early returns
--
-- State. A client is a record with the fields of the C struct, the place where its read thread
-- stands, and the number of unpacked messages that are not freed. Every operation takes a client and
-- returns one. The kernel's side of a connection is a script: which bytes arrive in which pieces, when it is
-- quiet, closes or fails, and how many bytes each `write` takes. Loops recur on the script, so that no fuel
-- is needed; where the script ends while the loop still waits, the call blocks (`none`, `hangs`).
-- The steps that the read thread makes while a command waits are given by a schedule, `Around`; a thread that
-- blocks makes fewer. An index of the queue is an `int` kept modulo 2 ^ 32, a `size_t` is a number
-- modulo 2 ^ 64.
--
-- A program of examples runs in a world of turns, one for each call of the library, with the read thread's
-- steps before and during it; endless loops are cut after any number of rounds.
--
-- Parameters: the generated protobuf code (`Codec`, `Packer`, `Unpack`), which sizes `malloc` grants,
-- how the system answers when a client is set up (`World`).
--
-- Not modelled: what `vprintf` makes of a log line; the unit tests with two threads;
-- nanoseconds of deadlines; the contents of the messages where `command` and the read thread are interleaved
-- access by access (Handoff); what `pthread_cancel` interrupts;
-- signals that interrupt a wait on a semaphore; the buffers that `read_msg` allocates and its callers free.
pub mod Base
pub mod Err
pub mod Sem
pub mod Log
pub mod Streamq
pub mod Transport
pub mod Socket
pub mod Exec
pub mod Proto
pub mod Client
pub mod Functionblock
pub mod Handoff
pub mod Blocks
pub mod Demo
pub mod Lifecycle
pub mod Session
