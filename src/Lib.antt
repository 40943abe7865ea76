-- ===== src/Lib.antt =====
-- redis_async, an asynchronous client of Redis in C++, with pools of connections.
--
-- The program. A command (src/commands.cpp, include/redis_async/commands.hpp) is a list of texts,
-- built by include/redis_async/details/protocol/command_args.hpp. The serializer
-- (include/redis_async/details/protocol/serializer.hpp) writes it into a buffer, a connection sends
-- the buffer, and the parser (include/redis_async/details/protocol/parser.hpp) reads the server's
-- replies off the bytes that arrive. A connection string (src/common.cpp) names a server; a pool
-- (src/details/connection/connection_pool.cpp) keeps connections to it, hands requests to idle ones
-- and queues the others. The service (src/details/redis_impl.cpp) finds the pool of an alias.
--
-- The files.
--   Prelude           tests, lists, integers and decimal prints that the other files share
--   Errors            include/redis_async/error.hpp, src/error.cpp: the exceptions
--   Commands          Types: commands.hpp, command_options.hpp; Args: command_args.hpp, its
--                     templates in Pieces; Keys, Hashes, Lists, Sets: the functions of
--                     src/commands.cpp under their names (the overloads of set are set,
--                     set_always, set_type and set_ttl); Request: all of them as one type,
--                     Request/Words what they build
--   Protocol          Types: rd_types.hpp, parser_types.hpp and the codes of error.hpp; Parser:
--                     parser.hpp and markup_helper.hpp, a parser struct of the source by the name
--                     of the struct; Grammar: the replies, stated apart from the parser;
--                     Serializer: serializer.hpp; RoundTrip: both together
--   Options           include/redis_async/common.hpp: connection_options; Parser: src/common.cpp,
--                     with what it uses of the standard library in Text and Numbers; Literals: the
--                     literals of src/common.cpp
--   Connection        Events: events.hpp, the events of the state machine, and what
--                     basic_connection::create throws; Reading: handle_connect, handle_read,
--                     handle_write and read_message of connection_fsm.hpp with
--                     handler_parse_result.hpp; Transport: src/details/connection/transport.cpp;
--                     States: the states and the transition table of connection_fsm.hpp; Machine:
--                     the entry and the exit of the states and what they call, with the overrides
--                     of concrete_connection.hpp, and create_connection of base_connection.cpp;
--                     Machine/Answers, Session, Login, Refused, Created, Established: what
--                     becomes of requests, what owners see, how a connection starts;
--                     Delivery: the handler that notify_result posts; Exchange: the request of
--                     a command, read back
--   Pool              src/details/connection/connection_pool.cpp: the members of impl under their
--                     names (connection_error is connection_error_pool); History: what clients and
--                     connections call on a pool, one call after the other, and Outcomes how that
--                     ends; Invariant, Serves, Steps, Requests: that requests are served;
--                     Closing, Closed, Draining: the end;
--                     Threads: the same members as steps that interleave, with what holds of
--                     them in Handed and Sized, and what may go wrong in Races
--   Serving           a pool with one of its connections: the callbacks that
--                     impl::create_new_connection gives it, and the calls of the pool on it;
--                     Broken: its end by an error; Closing: its end on a closed pool; Served:
--                     the requests that wait, one reply each; Arrivals: replies in reads;
--                     Conversation: requests from the calls of clients to their answers, and
--                     what their callbacks are called with
--   Service           src/details/redis_impl.cpp: the members of redis_impl under their names
--                     (add_connection of options is add_options); Registry: the pools by alias;
--                     Abstract: what a service promises, stated apart; Abstract/Isolated: one
--                     alias among others; Stopping: the count of pools in stop; Singleton:
--                     src/redis_async.cpp
--   Tests             runs, and the theorems at concrete inputs
--
-- Bytes are numbers, and a buffer or a string is the list of its bytes; a pair of iterators is
-- the list between them. Sizes are natural numbers: the sums of std::size_t that the parser and
-- the serializer make are sizes of buffers in memory and do not wrap. Where a count from the wire
-- is added to (the bulk strings), the wrap is written out. int_t is an integer with the range of
-- int64_t as a predicate.
--
-- Parameters. boost::lexical_cast<int_t> is not in the repository: the parser takes it as
-- lexical_cast, with no result where it throws, and the theorems ask that it returns values of
-- int64_t, and, where a decimal print is read back, that it reads such prints. The most elements
-- that std::vector<result_t>::reserve accepts is max_size; a larger count throws
-- std::length_error. That an allocation fails is not modelled. boost::msm runs the state machines
-- of the connections, and which events it dispatches and in which order is an input of run in
-- Machine: an event that a handler processes, or that a state defers, stands where it is
-- dispatched. Each comes with the answer of transport.connected(). A row of the table calls the
-- exit of the state, the action and the entry of the next state, in this order; what boost::msm does
-- with an exception that a handler or no_transition throws is left open, a throw ends the run, and
-- a call of no_transition is kept as such. The pool takes at_once, which says of a connection whether
-- terminate() takes effect within the call, that is whether the connection is idle. Callbacks of
-- connections return; how those of requests end is an input of Delivery.
-- boost::split and boost::to_lower_copy are split and to_lower_copy of the parser of connection
-- strings, of which nothing is asked. Tests/Cast is a reader that meets what is asked of lexical_cast.
--
-- Bounds. raw_parse takes a bound on the depth of nested arrays, and parse gives it one more than
-- the length of the input, which is enough: each nested call starts behind a byte more. digits
-- and count_digits take a number of rounds, and the number itself is enough.
-- read_message takes as many rounds as bytes have arrived, and one more: each round takes a byte at
-- least.
--
-- Not modelled. The sockets of boost::asio (transport.hpp) and its io_service, what boost::msm does
-- to queue and defer events, the time of the strand between two handlers, the logging, the numbers
-- of connections, and the prints of floating-point numbers in command_args.hpp.
pub mod Prelude
pub mod Errors
pub mod Commands
pub mod Protocol
pub mod Options
pub mod Connection
pub mod Pool
pub mod Serving
pub mod Service
pub mod Tests
