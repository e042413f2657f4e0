-- ===== src/Lib.antt =====
-- Cpp_TChat: a chat server and its client over TLS, each one event loop on kqueue.
--
-- The parts and how they meet. Both sides frame their bytes as packets (include/common/protocol.hpp).
-- The server (src/server) keeps a map of connections and a map of sessions; an event of `kevent` is
-- dispatched to a handler, which reads or writes one connection, takes packets from its buffer, and
-- answers or broadcasts. The client (src/client) connects, logs in or registers in blocking calls, and
-- then handles events in the same way for its one connection. Both print to windows of ncurses
-- (src/common/ui.cpp). src/parser loads PNG files, and no other part uses it yet.
--
-- Which file models what:
--   Protocol            include/common/protocol.hpp, src/common/protocol.cpp: headers, types,
--                       `create_packet_stream`
--   Ssl                 what OpenSSL answers, and the loop of `flush_write`, which both sides have
--   Server/MessageHandler   src/server/message_handler.cpp: `process_handshake_packet`,
--                       `process_client_stream`
--   Server/Connection   include/server/manager.hpp: the records and enumerations
--   Server/Io           src/server/io.cpp: `queue_write`, `flush_write`, `handle_read`, `broadcast`
--   Server/Console      src/server/io.cpp: `read_console_input`
--   Server/Manager      src/server/manager.cpp: `accept_client`, `disconnect`, `remove_session`, `kick`,
--                       `pong`, `find_sesssion_from_connection`, `reconnect_client`
--   Server/Timers       src/server/manager.cpp: the four sweeps of `timer_event`
--   Server/Authorization    src/server/authorization.cpp: `verify_client`, `register_client`
--   Server/State, Login, Events, Run    src/server/app.cpp: `ServerApp` with its handlers and loop
--   Server/Wakes        which calls on the write event the connections have had
--   Server/Moves        the laws that a relation between the manager before and the manager after has to
--                       have, and what it then relates: every handler and every run; Server/Run/Linked,
--                       Server/Run/Owned and Server/Lifecycle are its instances; Server/Run/Fresh joins
--                       what they give from the start of the server on
--   Server/Login/Admits, Refuses    a login as a whole, from the bytes in the buffer to the queued answer
--   Server/Lifecycle    the life of a session as a diagram of steps that go by the clock, and how long a
--                       session stays
--   Client/MessageHandler   src/client/message_handler.cpp: `process_data_stream`
--   Client/Connection   src/client/connection.cpp
--   Client/Io           src/client/io.cpp: the prompts, the console, `handle_read`, `flush_write`
--   Client/Authorization    src/client/authorization.cpp: `login_client`, `register_client`
--   Client/State, Session, Events    src/client/app.cpp: `ClientApp`, its start, its handlers and loop
--   Client/Sockets      which sockets and TLS objects the client's calls have opened and closed
--   Client/Lifecycle    src/client/app.cpp and src/client/main.cpp: the SSL context, `end`, `main`
--   Server/Start        src/server/app.cpp: `initialize`, `end`, the SSL context; src/server/main.cpp,
--                       src/server/sql_helper.cpp and src/common/network.cpp
--   Chat                a message on its way from the keys of one user, through the server, to the
--                       screen of another
--   Screen              src/common/ui.cpp: the colours of the users, and what `print_message` prints
--   Parser/Stream       what src/parser uses of `std::ifstream`
--   Parser/Endian       src/parser/utils.cpp
--   Parser/PngLoader    src/parser/PNGloader.cpp: the signature and the walk over the chunks
--   Parser/PngLoader/Reconstruct    src/parser/PNGloader.cpp: `paethPredictor`, `reconstructImage`,
--                       `Load`; below it, Scanlines has the filters as the PNG specification states them
--   Prelude             lists of bytes, results, integers, maps
--   Witnesses           the theorems at concrete inputs
--
-- The other files below a part hold its lemmas.
--
-- State. A handler is a function from the state before to the state after; the objects that the code
-- shares by pointer are reached by their key: a `ClientConnection *` is its descriptor, and a null
-- pointer is `none`. Reading through a null pointer is the result `err null_pointer`, and an
-- index past the end of a vector is `err out_of_bounds`. A `switch` over
-- an enumeration that names each of its values has no further case here. Some enumerations share names
-- that C++ keeps apart; then a constructor has a longer name, such as `insert_failed` for the server's
-- `RegisterClientStatus::ExecFailed`, or `gone` for `DisconnectStatus::Disconnected`. The calls that
-- leave the program (descriptors, kqueue, the screen) are listed in the field `calls`.
--
-- The environment. OpenSSL, `accept`, `kevent`, the clock, the console, the random generator, sqlite,
-- bcrypt, ncurses and `uncompress` of zlib are arguments: lists of answers, records of functions,
-- numbers. A loop round a call of OpenSSL takes one answer for each round, and `err unfinished` says
-- that the answers ran out before the loop ended. Times are nanoseconds.
--
-- Fuel. The loops over a receive buffer run on one unit of fuel more than the buffer has bytes, and
-- each round that goes on takes at least the 12 bytes of a header. The walk over the chunks of a PNG
-- runs on two units more than the file has bytes: a round on a good stream reads a byte or makes the
-- stream fail. The other loops are structural.
--
-- Integers. Lengths on the wire are taken modulo 2 ^ 32, as `htonl` does, bytes modulo 256, and a write
-- of more than 2 ^ 31 - 1 bytes is an error, as in the code. `size_t` is taken as unbounded. In
-- the PNG loader, products of sizes are taken modulo 2 ^ 32, and an int that these make negative is out
-- of bounds as an index.
--
-- Not modelled: the geometry and the drawing of the windows, and what is written to stdout and stderr;
-- the text of the SQL; the parsing of an address by the C library; failing allocations; src/bcrypt,
-- which is another project's code.
pub mod Prelude
pub mod Protocol
pub mod Ssl
pub mod Server
pub mod Client
pub mod Chat
pub mod Screen
pub mod Parser
pub mod Witnesses
