-- ===== src/Lib.antt =====
-- mach-ipc: messages, requests with acknowledgments and shared payloads over Mach ports.
--
-- The parts of the program and the files that model them:
--
-- - MsgId: the macros of include/mach_ipc.h that make, test and change message ids. Fields reads
--   them as arithmetic, Classify is about kinds of ids and users' types, Features about ids of
--   acknowledgments.
-- - Pool: src/pool.c, slots with a free list that is threaded through an array. Inv is its
--   invariant, Spec the abstract pool (a stack of free indices), Refine the refinement.
-- - Deadline: calc_deadline, is_deadline_expired and has_no_deadline of src/utils.c, and the test
--   for a safe user payload of the message handlers in src/server.c and src/client.c.
-- - Event: src/event_framework.h over the semaphore of libdispatch, which is an interface.
-- - Resources: src/resources.c, the tracker that releases ports, memory, queues, threads, mutexes
--   and pools in reverse order; Resources/Cleanup has the functions that release one of them.
-- - Protocol: src/protocol.c and the structures of src/internal.h. Send is protocol_send_message
--   and protocol_send_ack. Ack is register_ack_waiter, handle_ack_message and the other critical
--   sections of ack_lock, on a Pool of waiters. WithAck is protocol_send_with_ack as one call with its
--   environment. Calls has the same call in many threads, as a relation of steps: Phases says what is
--   to hold between two steps, Frame, Moves, Registers and Steps are about single steps, Reached about
--   the states that they lead to. WithAck/Schedule puts one call into steps, its Progress is about
--   the return of a call. Receive is protocol_receive_loop.
-- - Server: src/server.c. Clients is the client list with the lookups of src/protocol.c; Clients/Valid
--   says what holds of it between two messages. Host is what the server needs from the system, with
--   create_client and destroy_client. Connect is handle_connect_request, Handler is
--   handle_death_notification and server_message_handler under the receive loop, Broadcast is
--   mach_server_broadcast and mach_server_disconnect_client of src/utils.c, Life is
--   mach_server_create, mach_server_run, mach_server_stop and mach_server_destroy; Life/Run is about
--   a server that runs.
-- - Client: src/client.c. State is its record, Life mach_client_create, mach_client_disconnect and
--   mach_client_destroy, Connect mach_client_connect
--   (Results says what it can come to, Success when it connects), Handler client_message_handler under the receive
--   loop.
-- - Message: handle_user_message of src/server.c and src/client.c, the block that a queue runs.
-- - Request: the calls of src/server.c and src/client.c that send, with and without reply.
-- - LinearPool: src/linear_ts_pool.c, a pool with a lock for each entry, beside other threads.
-- - SharedMemory: shared_memory_create, shared_memory_map and shared_memory_destroy of src/utils.c.
-- - Status: ipc_status_string and ipc_alloc of src/utils.c, with the texts of examples/echo.c and
--   examples/stress_test.c.
-- - Echo: examples/echo_server.c and examples/echo_client.c. Server has the server's callbacks, Run its
--   main and the library around them, Disconnect, Requests and Released what becomes of memory and ports. Client is the
--   client's main; Course carries properties along it.
-- - Stress: examples/stress_test_server.c and examples/stress_test_client.c with their statistics;
--   Server/Counts is about any sequence of callbacks, Client/Counts about all tests together.
-- - Handshake: a connection from both sides, the client's call against the server's handler.
--
-- How they interact: a sender registers a waiter in the pool of acknowledgments, sends its message
-- with the waiter's slot and a fresh correlation id, and waits for its event. The receive thread
-- runs the receive loop, which hands acknowledgments to the waiters in the pool, and all other
-- messages to a handler. The handler answers with protocol_send_ack. A user payload is shared with
-- the sender until a deadline that travels in the message.
--
-- State is passed explicitly. Code that may index out of bounds, or read memory that was freed, returns
-- an Option, where `none` is the fault. An array is a list, a pointer into a pool is its slot, a null pointer is `none` or 0.
-- Threads: each critical section of ack_lock is one function; a call of protocol_send_with_ack is
-- interleaved with any sequences of acknowledgments that the receive thread handles before the wait
-- ends, before the call is cancelled and after it. With several threads that call at once, the steps of
-- all of them and of the receive thread come in any order. While a client connects, its receive thread
-- may also find the server dead. A call that waits for the lock of an entry of a LinearPool, which another
-- thread holds, is `none`. The callbacks of the examples run one after another. There is no fuel: all
-- loops are structural, over the arrays, over the sequence of received messages, or over what the stress
-- test's client finds while it waits for its end.
--
-- Parameters, since they lie outside the repository: the kernel's mach_msg and mach_port_type, the
-- clock, the dispatch semaphore, malloc's success, the answers of bootstrap, of the port calls and of
-- pthread_create, the allocator of client objects, and the user's callbacks and message handler. An
-- allocator is taken to return no address that is still in use.
--
-- Integers: message ids are 32-bit patterns; sizes in descriptors and the correlation id wrap as in
-- C; 64-bit sums of times are taken not to overflow, which needs a clock below 2 ^ 62 seconds.
--
-- Not modelled: names of services, queues and resources, which only the system and the log read,
-- logging, what the examples print, the signal handlers, and the bytes in shared memory.
mod Base
pub mod MsgId
pub mod Pool
pub mod Deadline
pub mod Event
pub mod Resources
pub mod Protocol
pub mod Server
pub mod Message
pub mod Request
pub mod Client
pub mod Handshake
pub mod SharedMemory
pub mod LinearPool
pub mod Status
pub mod Echo
pub mod Stress
