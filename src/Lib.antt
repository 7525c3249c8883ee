-- ===== src/Lib.antt =====
-- A model of the event management server and of its client: a server that keeps events with
-- numbered seats in memory, and a client that reads commands from a .jobs file and sends them
-- through named pipes.
--
-- The program's parts, and the files that model them:
--   Seats: the critical section of `ems_reserve` and the event that `ems_create` fills in
--     (src/server/operations.c, src/server/eventlist.h), on one event. `reserve_event` is the
--     bounds loop, the loop over all seats and the writes; `seat_index` is in the arithmetic of
--     size_t. An access outside the array is a value of the result.
--   Memory, EventList: the structs at their addresses and src/server/eventlist.c, function by
--     function. A dereference of NULL or of a block that is not allocated is a fault.
--   Operations: `ems_init`, `ems_terminate`, `ems_create` and `ems_reserve` of
--     src/server/operations.c over that memory; Operations.Answer has `ems_show` and
--     `ems_list_events`, Operations.Stdout has `ems_show_stdout`. Operations.View is the list of
--     events that a memory stands for. What libc and pthread return in one run is the record
--     `Calls`.
--   Io: `my_read` and `my_write` of src/common/io.c over a descriptor whose state lists what the
--     kernel answers (Io.Descriptor); Number: `parse_uint`, `print_uint` and `print_str`, also
--     of src/common/io.c, with their buffers of 16 bytes.
--   Requests: the buffer between the host and the workers, `insert_request`, `retrieve_request` and
--     `remove_session` of src/server/main.c; Requests.Race has the two workers and the host as
--     interleaved steps, Requests.Waits the same with the workers' condition variable.
--   Wire: integers as the bytes that the pipes carry. Sessions: the loop of `handle_client` of
--     src/server/main.c and its four requests; Sessions.Start has the opening of the pipes and the
--     id of the session. Sessions.Messages has the requests as data with their bytes and meaning,
--     Sessions.Many sessions of any number of them. Server.Handshake has a worker that takes the
--     request of a session and serves it.
--   Server: the main thread of src/server/main.c: the flag of `sigusr1_handler` and `print_events`;
--     Server.Extract has the rounds of `extract_requests`, Server.Start has `main`.
--   Api: `ems_create` and `ems_reserve` of src/client/api.c; Api.Connection has `ems_setup` and
--     `ems_quit`, Api.Show and Api.ListEvents have the functions of those names, Api.Output how they
--     print. Api.Exchange, Api.Reports and Server.Handshake join client and server.
--   Parser: src/client/parser.c, with the buffer of `parse_uint` at each call as an argument;
--     Parser.Lines has the documented lines as text. Jobs: the command loop of src/client/main.c as
--     the calls that it makes; Jobs.Start has `main`.
--   Base: the names and lemmas that the parts share. Tests: runs on concrete input.
--
-- The parts meet as in the program: Operations calls EventList and, inside the event's mutex, Seats;
-- Parser calls Number; Number and Io use the same descriptors; Sessions reads with Io and calls
-- Operations; Api writes what Sessions reads, and reads what Sessions writes; Server reads what
-- `ems_setup` writes, puts it into the buffer of Requests, and prints with Operations.
--
-- Numbers: unsigned int is taken modulo 2^32 and size_t modulo 2^64 where the code can overflow.
-- `my_read` and `my_write` are for sizes below 2^63, where (ssize_t) size is size; `array_size` of
-- Sessions has the one call that can have another.
-- Fuel: `get_event` has one round for each event and `free_list` one more; `my_read` has one round
-- for each byte that it is asked for and one more; `my_write` and `print_str` have one round for
-- each answer of the kernel that is planned and two more, since afterwards the kernel takes
-- everything; `cleanup` has one round for each answer of `read` that is to come; `session_loop` has
-- one round for each request and one for the end of the session, and `run_jobs` one for each line
-- of a file and one for its end; on arbitrary input both have one for each byte and one more.
-- `print_events` has one round for each event. `extract_requests` never ends by itself: it has one
-- round for each element of the list of what its calls return.
-- Unused addresses: a session of several requests takes the addresses that malloc is to return from
-- a `Supply`, in which all are unused at first and none comes twice.
--
-- Not modelled: the messages on stderr and stdout, the delay of `get_event_with_delay`, and the
-- wait on `not_full_cond`, which nobody signals: an insertion into a full buffer is no step until
-- there is room. The thread of `insert_request` is joined at once and is a call; the creation of the
-- other threads is a result of `main`'s calls. Each critical section runs whole, and only the steps
-- of Requests.Race and Requests.Waits interleave: sessions of several workers at once are not
-- modelled. `finish` of Requests.Race and Requests.Waits is a step only for the sessions from which
-- `handle_client` returns. The server pipe is open for writing at the server too, so that its end of
-- file has no part in `extract_requests`. A number of 2^64 - 1 rows makes the loop of
-- `ems_show_stdout`, whose counter goes up to that number, endless; its model has as many rows as
-- the event.
-- The Makefile and the sample jobs are no code of the model.
pub mod Base
pub mod Seats
pub mod Memory
pub mod EventList
pub mod Operations
pub mod Io
pub mod Requests
pub mod Number
pub mod Parser
pub mod Wire
pub mod Sessions
pub mod Api
pub mod Server
pub mod Jobs
pub mod Tests
