-- ===== src/Lib.antt =====
-- DSTC, remote function calls over reliable multicast: a model of the C library and its theorems.
--
-- A program that links DSTC declares client functions, server functions and callbacks with the
-- macros of dstc.h. A client function serializes its arguments and queues a call; the calls wait in
-- one buffer of the context until they are handed to the reliable multicast library (rmc) as one
-- packet. A node that receives a packet walks over its calls, finds each server function by its
-- name, or each callback by its reference, and calls it. Server nodes announce their functions by
-- control messages, which a client node keeps in a table, so that it knows what it can call.
--
-- Which file models what:
--
--   Wire: the packed header dstc_header_t of dstc_internal.h, the byte order, and C strings in memory.
--   Rmc: everything outside the repository, as a record of functions: rmc, getenv, epoll.
--   Context: dstc_context_t and _dstc_default_context; the lock and the outbound payload buffer
--     (_dstc_payload_buffer_alloc and the functions beside it in dstc.c).
--   Setup: dstc_setup_internal, dstc_setup_epoll, dstc_setup, dstc_setup2,
--     _dstc_lock_and_init_context (dstc.c).
--   Symtab/Remote: dstc_register_remote_function, dstc_unregister_remote_node and the two callbacks of
--     rmc that call them (dstc.c).
--   Symtab/Local: the tables of server and client functions, dstc_subscription_complete, which announces
--     them, and dstc_remote_function_available (dstc.c).
--   Callbacks: dstc_activate_callback and the look-ups and the cancelling of callbacks (dstc.c).
--   Queue: _dstc_queue, _queue_pending_calls and the functions of the API on top of them (dstc.c).
--   Dispatch: dstc_process_function_call and dstc_process_incoming (dstc.c).
--   Args: the code that the macros of dstc.h generate for arguments.
--   Outbox: the outbound side as an outbox of calls, which have gone in packets or wait; Outbox/Steps:
--     one call; Outbox/Runs and Outbox/Taken: whole
--     runs of a sender, and what rmc does to the traffic in between; Outbox/Delivery: such a run and a
--     node that processes the packets.
--   Rpc: DSTC_CLIENT on one node (Rpc/Client) and DSTC_SERVER on another (Rpc/Server); Rpc/Reply:
--     DSTC_SERVER_CALLBACK on one node and DSTC_CLIENT_CALLBACK on another; Rpc/OneShot: two replies to
--     one callback.
--   Examples/Chat: examples/chat/chat.c; Examples/Chat/Line: a line from one terminal to another.
--   Examples/Stress: the client and the server of examples/stress; Examples/Stress/Client: the loop of the client; Examples/Stress/Order: the check
--     of the server.
--   Examples/Threads: the threads of examples/thread_stress, as turns under the lock of their context;
--     Examples/Threads/Turns: the numbers of one thread among the others; Examples/Threads/Client: the
--     client's outbox; Examples/Threads/Server: the checks; Examples/Threads/Delivery and
--     Examples/Threads/Integrity: both together; Examples/Threads/Returns: that the client's
--     turns return; Examples/Threads/Main: the main function of the client.
--   Examples/Elements: examples/callback_dyndata; Examples/Elements/Add: the server's array;
--     Examples/Elements/Print: the loop of the client's callback; Examples/Elements/Exchange: a call with
--     a callback from the client to the server and back.
--   Examples/Many: examples/many_arguments; Examples/Many/Check: the sixteen numbers at the server.
--   Examples/Statics: the variables that a sample program keeps.
--   Lifecycle: any sequence of calls of the API and of callbacks of rmc; the modules Sound of each part
--     are about the invariant of the context and the balance of the lock; Events/Waits: that of
--     dstc_process_events; Events/Turns: its rounds; Events/Returns: that a round returns;
--     Queue/Descriptor: the descriptor meanwhile; Outbox/Waits: the outbox meanwhile. Lifecycle/Loop: such a sequence with the functions of the event loop, from
--     inside of which rmc makes its callbacks.
--   Timeout: _dstc_get_next_timeout_abs and _dstc_get_timeout_msec_rel (dstc.c).
--   Epoll: epoll.c, with the system calls and the calls of rmc that may call back as records Os and Io;
--     Epoll/UserData: the macros of dstc.h and dstc_internal.h on the user data of events.
--   Poll: poll.c, the build without epoll, with uthash.h as the record Uthash; Poll/Setup: the setup
--     functions of dstc.c in this build; Poll/Vector: dstc_retrieve_pollfd_vector.
--   ForEach: FOR_EACH_VARIADIC_MACRO and FOR_EACH_VARIADIC_MACRO_ELEM of dstc.h.
--   Events: dstc_process_events, dstc_process_pending_events, dstc_process_timeout and the lock with a
--     deadline (dstc.c).
--   Transport: the sender and the receiver together.
--   Base: lists, Boolean tests and outcomes, which all of the above share.
--   Tests: runs of the model and one example for each theorem.
--
-- How the model stands for the code. The state is the record Context, which has the fields of
-- dstc_context_t in the build with epoll; an operation takes it and returns the new one. An Outcome
-- is how a piece of C ends: it returns (done), it ends the process (exit), or its behaviour is
-- undefined, as at a null pointer, outside an object or where an int overflows (fault). A function
-- pointer and a callback reference are numbers, 0 for null. An array of names holds the strings in
-- front of their terminators. Memory that a pointer points into is the list of the bytes from there
-- to the end of the object, so that an over-read is a fault. Machine integers are written with
-- their wrap-around, u16 and u32.
--
-- Bounds and fuel. The tables have 128 slots, as in the code, and the buffer has the
-- RMC_MAX_PAYLOAD bytes of rmc. The loop over a packet (process_packet) runs on fuel, the length of
-- the packet, which is enough since each round deals with a byte at least. The loop over packets
-- (process_packets) takes its bound as an argument, since rmc decides how many there are. The loop
-- around epoll_wait runs on a bound for the interrupts, one more than their number is enough;
-- dstc_process_events(0) takes a bound for its rounds, since it runs for as long as there are
-- events. The loops of the sample programs take their bounds as arguments too.
--
-- What is not modelled. Logging; the allocation of memory, taken to succeed; the vendored uthash.h;
-- the other sample programs under examples. The lock counts how often the thread at hand holds it:
-- what other threads do while it waits is not modelled. The threads and the main function of the
-- server of examples/thread_stress, which only process events, are not modelled. The emulation of a
-- lock with a deadline for Apple is not modelled. An int of the event loop is its bit pattern, and
-- signed overflow is undefined.
pub mod Args
pub mod Base
pub mod Callbacks
pub mod Context
pub mod Dispatch
pub mod Epoll
pub mod Events
pub mod Examples
pub mod ForEach
pub mod Lifecycle
pub mod Outbox
pub mod Poll
pub mod Queue
pub mod Rmc
pub mod Rpc
pub mod Setup
pub mod Symtab
pub mod Tests
pub mod Timeout
pub mod Transport
pub mod Wire
