-- ===== src/Lib.antt =====
-- Verification library of the Skype clone: a server, a desktop client and the code they share.
--
-- The client logs in at the server over TCP, keeps contacts, sends messages and starts calls; the
-- two ends of a call then exchange audio and video as datagrams. The library models the text
-- protocol and its parsing; the server's loop, its controllers with the state they share, and the
-- statements that it sends to its database; the client's jobs and commands, and its calls from the dial
-- to the streams; the datagrams of a call, and the queue that its sound goes through.
--
-- Files and the code that they are about, with paths from the root of the repository:
-- - Common: tests, lists measured by native numbers, 32-bit integers, dictionaries.
-- - Text: src/shared/utils/string_utils.cpp. split, split_to_ints, split_first, split_at, to_int,
--   last, join, trim and to_upper keep their names. Text/Number is what the code uses of
--   std::to_string and std::stoi.
-- - Chat: src/shared/user_chat.cpp. UserChat with to_string, from_string and the two operators, here
--   less and greater. Chat/Response is build_response of src/server/chat_controller.cpp and
--   parse_chat of src/client/user/chat.cpp.
-- - Stream: src/shared/connection/stream_io.cpp and include/shared/data/data.hpp. Stream has the
--   sizes and the header, Stream/Transfer has respond and receive.
-- - User: src/shared/user.cpp.
-- - Awaiting: src/shared/user_awaiting.cpp. AwaitingUser, the registry AwaitingUsers, and a round of
--   its timeout worker; `put` is what a caller of `get` writes through the reference.
-- - Reply, Command: src/shared/reply.cpp and src/shared/server_commands.cpp.
-- - AudioBank: include/client/av/audio_bank.hpp, load and grab.
-- - Peer: src/client/peer_to_peer.cpp, one end of a call: its commands to the server and its handshake
--   with the other end. Status, Type and PeerNetwork are PeerStatus, PeerType and PeerNetwork.
--   Exchange is the request of a handshake, and udp_receive and udp_respond are receive and respond
--   of src/shared/connection/udp_conn.cpp, which do nothing once the request is not valid.
-- - Server: src/shared/request.cpp and src/server/controller_utils.cpp; its children Calls, Users,
--   Chats and Router are call_controllers.cpp, user_controllers.cpp, chat_controller.cpp and
--   router.cpp of src/server. A handler takes its argument, the request and the state and gives the
--   request and the state back. Server/Answers, Frame, Tracked, Flow, Sessions and Messages hold the
--   proofs, and Server/Meeting puts two peers in front of the router. Server/Loop is one turn of
--   src/server/server.cpp over the connections of src/shared/connection/passive_conn.cpp: Turn is what
--   the system gives, finish the end of a turn. Router.route_throws says where a controller throws,
--   which ends the loop.
-- - Poll: src/shared/connection/connection_poll.cpp, the sockets that the server listens to.
-- - Database: src/server/postgres.cpp. Lookup has the searches, Writes the changes, and Database itself
--   the lists; Store puts them behind Server.Postgres.
-- - Token: src/server/token_gen.cpp. Config: src/shared/config.cpp.
-- - Client: the client's commands. Accounts, Contacts and Chats are accounts.cpp, contacts.cpp and
--   chat.cpp of src/client/user, Jobs is src/client/client.cpp and Bus src/client/job/job_bus.cpp; ask
--   is what search and available share, change what add_user and remove_user share, fetch and tell the
--   same for chats. Client/Served puts the server of this library behind them; Lines, Listing, Sync,
--   LogIn and Stuck hold the proofs.
-- - TextIo: text_io.cpp and, in TextIo/Datagram, udp_text_io.cpp of src/shared/connection.
-- - Call: src/client/user/call.cpp, with the two ways to connect in Call/Dial. dial is the loop of
--   udp_connect, accept_again that of accept, and await_call is awaiting. Answered, Dialling, Callers
--   and Connected hold the proofs.
-- - AudioQueue: src/client/av/lock_free_audio_queue.cpp, push and pop as the steps of two threads in any
--   order.
--
-- Texts are lists of bytes. What throws is an option, and a handler that catches has the branch of
-- its catch. Loops that search a text run on fuel: one more than the length of the text, which is
-- enough since each round takes a delimiter away. The size of a buffer is taken modulo 2^64, as in
-- std::size_t; numbers in a text are read as a 32-bit int. A datagram is a list of bytes, and what
-- arrives is a list in which an error is `none`.
--
-- The loops of a call run on fuel: 12 rounds of the dial and 41 of the retries, one more than the
-- count that ends them.
--
-- Parameters: the controllers take the operations of src/server/postgres.cpp as the record
-- Server.Postgres over any type of databases, and nothing is assumed of them; Database.Store fills it
-- over a Connection, which stands for the library pqxx and the server behind it. The token of a login
-- and the numbers of rand are arguments. A peer and a client take the server as a function of texts; in
-- a call each round has its own, with what the other end sends. sendto is a function that says which of
-- its calls succeeds, the first recv gives a number of bytes that is an argument, and a turn of the
-- server's loop is given what the system reports in it, the failed allocation of a buffer included. A
-- job of a call is given by the client to a parameter, which may change the server and post jobs. In a
-- handshake a message can always be handed to the system.
--
-- Not modelled: the graphical interface, devices and codecs, which call Qt, miniaudio, ffmpeg and
-- OpenCV; the opening of sockets; the mutexes and, but for the audio queue, the threads (operations
-- run one at a time); the passing of a call's packages from the peer to the stream; and the log.
pub mod Common
pub mod Text
pub mod Chat
pub mod Stream
pub mod User
pub mod Awaiting
pub mod Reply
pub mod Command
pub mod AudioBank
pub mod Peer
pub mod Server
pub mod Database
pub mod Client
pub mod TextIo
pub mod Call
pub mod AudioQueue
pub mod Poll
pub mod Config
pub mod Token
