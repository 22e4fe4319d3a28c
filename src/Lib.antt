-- ===== src/Lib.antt =====
-- Verification of a client and server game: a client and four C++ servers that speak a small binary
-- protocol.
--
-- A client logs in at the auth server, which asks the database server over an RPC, and gets a session
-- token and the address of the world server. The world server checks the token over the same RPC and
-- then streams snapshots of the world to the client over UDP, while the client sends inputs and predicts
-- what they do by the same rules of movement. Every TCP link carries messages framed by their length, and
-- every payload is written by ByteWriter and read by ByteReader.
--
-- Where what is modelled:
--   Base              helpers: Boolean tests, lists and maps over the native numbers, shifts and masks.
--   Net/Bytes         common/net/include/net/byte_stream.h. A writer is a function on the buffer, a
--                     read is a function on the reader (buffer, mOffset, mFailed). Agree and Fields
--                     hold the rules that relate the two field by field.
--   Net/Snapshot      common/net/src/snapshot.cpp: encodeSnapshot, decodeSnapshot and the UDP header.
--   Net/Framing       common/net/src/framing.cpp: MessageStream's pump, next, send and flush. What the
--                     socket answers is a list of outcomes; where it ends, the socket would block.
--                     Delivery is the owner's loop of pump and next (server/common/src/db_client.cpp).
--   Net/Protocol      common/net/include/net/protocol.h: enumerations and their numbers.
--   Server/DbClient   server/common/src/db_client.cpp: the nine calls as a `Request` with the type of
--                     its answer; Calls is the pending map with nextRequestId, poll and
--                     failAllPending as a step function.
--   Server/DbServer   server/dbserver/src/main.cpp: onMessage over a `Database` parameter.
--   Server/TcpServer  server/common/src/tcp_server.cpp: poll with its accept, dispatch and deferred
--                     close, over the owner's callbacks.
--   Server/Database   server/dbserver/src/database.cpp over a `Libpq` parameter; Text is the C library's
--                     reading and writing of numbers that it uses.
--   Server/AuthServer server/authserver/src/main.cpp: onMessage as a tree of calls and callbacks that
--                     ends in a reply, over a `Sodium` parameter (libsodium) and the settings.
--   Server/Config     server/common/include/serverutil/config.h: the settings from the environment.
--   Sim               common/gamesim and common/terrain: Float holds the operations on floats, Terrain the
--                     height of the ground, Character one tick of stepCharacter.
--   World/Simulation  server/worldserver/src/simulation.cpp: players with their inputs, the clock, the cube
--                     and the snapshot.
--   World/Server      server/worldserver/src/main.cpp: Messages are the TCP messages, Answers the callbacks
--                     of session lookups, Datagrams the UDP loop, Ticks the rest of the main loop; Events
--                     runs them one after another, Roster is the abstract view of who is in the world, and
--                     Console has the commands that are typed at the server.
--   Client/Prediction client/src/prediction.cpp: the local character and its rollback.
--   Client/NetClient  client/src/net_client.cpp: Machine is login and poll, Snapshots the UDP side; Talks
--                     relates what it sends to what the world server reads.
--   Client/Ui         client/src/ui/widgets.cpp and Client/Screens client/src/screens.cpp: focus, presses,
--                     typing and Tab, and the two screens that are made of them.
--   Client/Application client/src/application.cpp: the states of the client, frame by frame.
--
-- Numbers are the native ℕ; a cut to w bits is written `% 2 ^ w`. A float is its 32-bit pattern and a
-- double its 64-bit pattern: they are compared by their patterns, and arithmetic with the functions of
-- <cmath> is the parameter `Fpu`, of which only `IsFpu` is assumed where a theorem says so: what is
-- computed as a float has 32 bits. `drain` and TcpServer's `dispatch` run on as much fuel as there are
-- bytes in the buffer, which is enough since each message takes a header at least; `to_string` runs on the
-- number and one, which has no more digits. The calls that one message of a client leads to are run one
-- after another; other messages may come in between, so the answers of the database are arbitrary there.
-- In the world server the answer to a session lookup is an event of its own, and a clock is read once
-- for each event. Logging is left out.
--
-- Not modelled: libpq, libsodium and the sockets (parameters, or outcomes that are arguments); startup,
-- the number of ticks that are due, and the reconnect of DbClient; what the client draws, its camera and
-- its windows; the console tools.
pub mod Base
pub mod Net
pub mod Server
pub mod Sim
pub mod World
pub mod Client
