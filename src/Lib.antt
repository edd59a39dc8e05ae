-- ===== src/Lib.antt =====
-- The chat server: clients connect over TCP, sign up and in against a MySQL table, create rooms,
-- ask to join them, are accepted or refused by the owner, and send texts to all members.
--
-- The parts, from the bytes up, and where they are modelled:
--   Memory      blocks of bytes, malloc, memcpy, strlen; a read or write outside of a block or of
--               a byte that was never written is the result `fault`
--   Buffer      server/buffer.c: byte_buffer_create, _create_from_bytes, _clone, _ensure_size,
--               _print_debug; Text: the digits that printf makes of %d
--   Utils       server/utils.c: write_int8 to write_int64, read_int8 to read_int64
--   Writer      server/lso_writer.c; Reader: server/lso_reader.c
--   Tags        server/tags.c; Message: server/message.c
--   World       the heap of client_t and room_t objects, gRooms, client_pool and the counters,
--               with the packets and the queries that went out
--   Client      client_create, client_send, client_is_logged, client_serialize of server/client.c
--   ClientPool  server/client_pool.c; Room: server/room.c; Messages: server/messages.c
--   Database    server/database.c
--   Handlers    the handle_*_tag functions and on_message_received of server/client.c
--   Server      client_handler of server/client.c and one round of the loop of server/main.c
--   Main        the rest of server/main.c: print_client_addr, the arguments, the set-up, the loop
--   Invariant   what holds of the shared state between the operations of the threads
--   Soundness   states in which no owner, member or slot of a room dangles; which messages are polite,
--               that is, meet what their handlers do not check; runs of such messages, and the
--               thread of one client over them, Soundness/Threads; and the
--               abstract view of the rooms, Soundness/Guests: an owner and a bag of guests at each
--               address, which forgets slots, and what each message may do to it
--   Roster      the abstract view of the connected clients: a bag of addresses, which forgets the
--               slots of the pool, and what each event may do to it
-- A handler is a function of the same name from the state to a result: a value with the next state,
-- `fault` for undefined behaviour, or `exited` where the code calls exit. Under each component, the
-- child modules are named for what their lemmas are about. Base holds lists, integers, bits and
-- results; Tests holds a run of the server and examples.
--
-- Integers of w bits wrap around as written in Base (int8, signed, sext, shr); `int` and `int32_t`
-- that only count bytes or slots are unbounded here, and so are the counters of clients and rooms,
-- which stand for fewer than 2^31 connections and rooms. Loops recurse on the array that they walk
-- or on the rounds that are left, so they need no fuel; the digits of a number take one unit of
-- fuel each, and a number n gets n + 1. What malloc leaves in the user of a new
-- client is a parameter of accept_connection.
--
-- Each `read` of a client's thread, each accepted connection and each disconnection is one step,
-- and threads take turns between steps. So the mutexes, the thread and the address of a client
-- are left out, and races inside a handler are not covered, but for three: Server/Race is about one
-- between the two calls that main makes under its lock, Server/LostUpdate about one between two
-- threads at the end of client_pool_remove, Room/Collision about one between two threads in
-- room_add_client. Blocks are values: frees of buffers, messages,
-- readers and writers have no counterpart, and leaks are not seen; an object of the heap that
-- was freed is gone, and its address is not used again. malloc and mysql_init do not fail.
-- Prints are left out, except those of main before its loop, those of the functions that only
-- print, and that of the name at the end of a client's thread. What the system calls of main return is the parameter `System`, and what `accept`
-- returns a list. The MySQL server and the sockets are the parameter `Outside`: whether a
-- connection to the database succeeds, what a query returns, and whether a send succeeds, given
-- all that went before.
mod Base
pub mod Memory
pub mod Buffer
pub mod Utils
pub mod Writer
pub mod Reader
pub mod Tags
pub mod Message
pub mod World
pub mod Client
pub mod ClientPool
pub mod Room
pub mod Messages
pub mod Database
pub mod Handlers
pub mod Text
pub mod Server
pub mod Soundness
pub mod Main
pub mod Invariant
pub mod Roster
mod Tests
