-- ===== src/Lib.antt =====
-- A model of the parts of this repository that carry its logic, and what makes them correct.
--
-- The parts, and where they are modelled:
--   * Header: libs/comm/include/comm/messages/message_header.hpp and
--     libs/comm/src/messages/message_header.cpp. The record `Header` has the fields of
--     `message_header`, with the array `data_` as `bytes`. `set_message_type` and its like are the
--     setters, `encode_header` and `decode_header` the methods. Header/Layout has the wire format,
--     Header/Nul the search for the terminator, Header/Decode and Header/RoundTrip what the methods
--     do, Header/Again a header that is decoded and encoded again, Header/Contents what a header can
--     say, Header/Calls sequences of calls on one object.
--   * Queue: libs/comm/include/comm/utilities/bounded_blocking_queue.hpp. `Shared` has the fields
--     of the class, `Thread` says in front of which statement of which operation a thread stands,
--     and `next` runs that statement. Queue/System has the condition variables `cv_not_full_` and
--     `cv_not_empty_`, the step relation `Step` of all threads and the runs `Run`. Queue/Mutex,
--     Queue/Outside and Queue/Safety have the invariant of the mutex, Queue/Counts, Queue/Wakeups
--     and Queue/Progress the accounts of waiters and wake-ups, Queue/Contract what the queue
--     promises, Queue/Returns and Queue/Answers what the operations return against what they did,
--     Queue/Delivery what was taken once a `pop` was refused, Queue/Hands what threads have in
--     hand, Queue/Order one producer and one consumer, Queue/Threads any number of them, with an
--     example in Queue/Finish, Queue/Moments a queue whose operations take effect at one moment,
--     and Queue/Atomic how the statements of the threads are such moments,
--     Queue/Closing the end of all operations after `close`, Queue/Nearer and Queue/Timed that of
--     operations that do not wait for others, Queue/Deadlock the states in which nobody moves,
--     Queue/Late a wake-up that goes to a thread whose deadline has passed, Queue/Throwing calls of
--     `push` that end by an exception, with an example in Queue/Memory,
--     Queue/Alone the branches of `push` and `pop`.
--   * Settings: libs/core/include/core/settings and libs/core/src/settings without options. The
--     records have the members of the structures, `InputData` is `i_input_data`, `to_x` is
--     `tag_invoke` for `value_to`, `from_x` the one for `value_from`. Settings/Leaves and
--     Settings/RoundTrip write settings and read them back, Settings/Reading is about missing and
--     other keys, Settings/Says and Settings/Schema say which JSON values are settings.
--   * Options: libs/core/include/core/settings/options.hpp and libs/core/src/settings/options.cpp,
--     with `my_error`. `read_input_file` is the method, on the members of the singleton as a state;
--     it opens a file, and calls the settings for the conversion. Options/Read has one call of it,
--     Options/Sequence several.
--   * Errors: libs/core/include/core/exceptions and libs/core/src/exceptions, the exceptions
--     `show_help` and `my_error` with their `what()`, beside those of the libraries.
--   * Logging: `init_logging` of src/main.cpp. The log is the list of the calls of Boost.Log that the
--     program makes, with the text of each line as data.
--   * Council: libs/core/include/core/student_council.hpp and libs/core/src/student_council.cpp with
--     the officers beside them. `GeneralAffairsOfficer` is the base class of the officers, with an
--     instance for each class; `council_hello` and `council_run` are `student_council::hello` and
--     `student_council::run`.
--   * App: src/main.cpp. `parse_args` and `main` are the functions; `main` sets up the log, lets the
--     council greet, chooses a path, has the options read it, and turns what is thrown into an exit
--     code. App/CommandLine has the choice of the path, App/Paths the ways through `main`, App/Exit
--     what a run leaves, App/Success a description of the runs that end with 0, App/Whole a run on
--     saved settings, App/Windows the code pages of a console.
--   * Session: libs/comm/include/comm/session.hpp, the method `id` with its loop `escape_loop`, on the
--     remote endpoint that Boost.Asio gives. Session/Escape has the loop, Session/Identity what `id`
--     returns.
--   * Manager: libs/comm/include/comm/session_manager.hpp, and the error signal of session.hpp, by
--     which a session calls the manager. Sessions are objects in a store, so that the pointers of
--     the map, of the caller and of the signal may be the same; a null pointer that is dereferenced
--     is a fault. Manager/Add has `add_session`, Manager/Runs every sequence of calls.
--   * Server: libs/comm/include/comm/async_tcp_server.hpp and libs/comm/src/async_tcp_server.cpp.
--     `start_accepting` is the coroutine, which makes sessions and gives them to the manager; `serve`
--     is its loop among the calls of `cancel` and the errors that sessions report.
--     Server/Accepting has the loop, Server/Starting the whole coroutine, Server/Cancelling what
--     `cancel` stops.
--   * Communications: libs/comm/src/async_tcp_client.cpp and libs/core/src/communications, the
--     client as a session of a new socket, the classes of core, which keep references, and their
--     call of the resolver.
--   * Factory: libs/comm/include/comm/messages/message_factory.hpp,
--     libs/comm/src/messages/message_factory.cpp and message_register.hpp beside the first. `Factory`
--     is the class, `message_register` the constructor that registers a class, `register_all` what
--     the static variables do before `main`. Factory/Dispatch is about a type that travels in a header.
--   * Common: lists, association lists for `std::map`, results, and sums over threads.
--
-- How they are modelled. An exception is an `err` of `Result`. The bytes of `std::string` and
-- `std::array` are lists of numbers below 256, in Header, Session and for the text of a file; the
-- texts of the settings and of exceptions are `String`. Unsigned integers are natural numbers below
-- 2 ^ 16 and 2 ^ 32. Fuel bounds one loop, that of `id`: it gets one round more than the address has
-- bytes, and is shown to end within that. The loop of the server goes over the list of the results
-- of `async_accept`. The wait of the queue is a sequence of steps. Capacity and number of threads of
-- the queue are arbitrary, also 0. Spurious wake-ups may happen at any moment of a wait, and
-- time-outs too, also behind a wake-up, before the thread has its lock again: then `timed_wait`
-- returns false, and the wake-up went to nobody. A system error of the mutex, an interruption of a wait and an item whose move throws are
-- left out; a `push` that finds no memory for its item is a step of Queue/Throwing only.
--
-- Code that is not in the repository is a parameter: `Host` is memcpy of integers and Boost.Endian,
-- `Json` and `Files` are Boost.JSON and files, `Shell` is Boost.Program_options and Boost.Filesystem
-- for `main`, `Windows` its console, `Network` and `Cancellation` the resolver, the acceptor and the
-- cancellation signal of Boost.Asio; `std::to_string`, the creators of messages, what
-- `std::map::emplace` does with a pointer whose key is there already, and what
-- `boost::diagnostic_information` gives are arguments. What is relied on is stated in `IsHost`,
-- `IsJson`, `IsFiles`, `IsDecimal`, `IsAddress`, `IsWindows` and `IsCancellation`; the modules Examples
-- and Sample have instances of them, and the theorems at example values. A Boost.Signals2 signal is
-- the list of its slots, called in the order in which they were connected.
--
-- Not modelled: the formats of the log lines and the `std::endl` behind them, the `io_context_` of
-- the council, which nothing uses, and the abstract class `message`, of which the repository has no
-- derived class.
pub mod Common
pub mod Header
pub mod Queue
pub mod Logging
pub mod Errors
pub mod Council
pub mod Settings
pub mod Options
pub mod App
pub mod Session
pub mod Manager
pub mod Server
pub mod Communications
pub mod Factory
