-- ===== src/Lib.antt =====
-- AdManager: a program that distributes advertisements in internet bars. A server in the bar takes
-- the play policy, the list of advertisements and their files from a center; the clients in the bar
-- take them from the server and play them. Both are the same program (AdManager.cpp), on top of
-- connections that carry framed protobuf messages (TcpSession.cpp, TcpClient.cpp, TcpServer.cpp,
-- ad/Message.pb.cc).
--
-- The parts, from the bottom:
-- - Base: tests, lists, integers of 64 bits and association lists that the other parts share.
-- - Wire: bytes, the object representation of a word, htonl and ntohl.
-- - Message (ad/Message.proto, ad/Message.pb.h, ad/Message.pb.cc): `Types` has the message and
--   the interface `Codec` of a serialiser that the connections use; `Runtime` the primitives of
--   the protobuf library, a parameter with its documented laws; `Generated` the generated code:
--   clear, merge_partial (MergePartialFromCodedStream), serialize (SerializeWithCachedSizes),
--   byte_size_long and merge_from; `Sizes`, `Laws` and `Total` are about it, and `Instance` makes
--   it a `Codec`.
-- - Proto (ad/AdPlayPolicy.proto, ad/AdPlayPolicy.pb.h, ad/AdPlayPolicy.pb.cc): the five classes
--   of the policy and the list of advertisements. `Types` has their fields, `Loop` the loop of
--   MergePartialFromCodedStream, `Fields` what is done for a field of each kind; `PlayTime`,
--   `AdPlay`, `AdPlayPolicy`, `Ad` (with `AdFields`) and `Result` are the classes: clear, switch
--   and parse, serialize, byte_size_long and merge_from. `Reads` and `Kinds` are about reading
--   what was written, `Writable` says what can be, `Sizes`, `Leaves` and `Total` are about
--   lengths and the end of the loop; `RoundTrip` and `Sizes` of each class and `Ends` are about
--   the classes.
-- - Session (TcpSession.h, TcpSession.cpp): `Types` has the state of a session, the events that
--   the event loop runs on it and the calls that it makes; `Ops` has one function for each
--   closure and completion handler, `step` for one event and `run` for a history of them.
--   `Promises`, `Numbers`, `Writes`, `Frames`, `Hooks` and `Stall` are about histories.
-- - Client (TcpClient.h, TcpClient.cpp): connecting, reconnecting and stopping; `Backoff` is
--   about the waits and the end of them.
-- - Server (TcpServer.h, TcpServer.cpp): accepting, the pool of sessions; `Pool` is about
--   histories.
-- - Manager (AdManager.h, AdManagerImpl.h, AdManager.cpp): `Types` has the state, and in
--   `Outside` what it calls that is not its own code; `Handler` answers the clients' requests,
--   `Requests` makes those to the server or the center, `Download` gets the files, `Queries` is
--   what a program asks; `Calls` has histories of these. `Known`, `Verified`, `History`,
--   `Needed`, `Cache` and `Relay` are about them. `Business` has the configuration, the beginning
--   and the end of the business, with the client, the server and the player; `Services` what the
--   threads of the two io_services run, each handler whole, as long as they are not stopped;
--   `Lifecycle` is about them. `Formats` takes the parsers of `Proto` for those of `Outside`;
--   `Kept`, `Center` and `CenterPolicy` are about what comes from the center through a server to a client.
-- - Md5 (md5.hh, md5.cc): `Transform` has the functions on words and the 64 calls of a block,
--   `Ops` the state of a digest and update, finalize and hex_digest. `Encoding` is about encode
--   and decode, `Absorb` is a digest byte by byte; `Stream`, `Count` and `Digest` compare the
--   two, and the whole with the padding of the algorithm. The manager's model takes the digest as
--   a parameter; `hex_digest_of` is the one that the program uses. `Reads` has the digests of
--   files and streams.
-- - Logger (Logger.h, Logger.cpp): the levels of the log.
-- - Player (player.h, player.cpp): the turns of the play list, NotifyPlay; `Turns` is about their
--   order. `Com` has the calls of Media Foundation and Windows, with their answers in the
--   parameter `Platform` and what was done in a log, and CHECK_HR as the operator ◌>>◌; `Media`
--   builds the objects that play a file; `State` is the player's own; `Playback` has OpenMem and
--   the commands, `Callback` the callback of the session, `Events` the session and its events,
--   `Lifetime` the making and the release of a player and the window. `References` counts the
--   references that the log tells of, `Messages` those that are with messages which were posted and
--   have not come; `Posted`, `Owned`, `Opened`, `Dangling`, `Ledger` and `Release` compare them with the player's fields; `Guards`, `Faults`, `Handlers` and
--   `Sessions` are about null pointers, `Commands` about the states.
-- - Examples: a concrete runtime (`Varint`), and the theorems at concrete inputs.
--
-- How state and calls are modelled: an object is a record of its fields, an operation a function
-- from the state to the state and the calls made, in their order. The event loop of the connections
-- has one thread, so a history is a list of events, each run to its end. A promise is known by its
-- number. A request of the manager waits for its response, so `Outside.peer` gives the response as
-- a function of the request; each call of a history has its own `Outside`. A timer is the seconds
-- after which its function runs. The time-outs are those of a release build, and downloads by HTTP
-- those of a compiler that has them (_MSC_VER > 1600). The loop over the blocks of a digest has the
-- 32-bit test of the source, which wraps; the end of the business stands between whole handlers of
-- its threads. Words are stored with their least byte first.
--
-- A call of Media Foundation has a number, and the platform's answer depends on it; an object is known
-- by the number of the call that gave it. A call through a null pointer is noted in the log. A player's
-- callback and the handling of a message are steps of their own, between the others; the callbacks
-- that come while CloseSession waits are run there, as many as `Platform` says.
--
-- Fuel: the loop of merge_partial has one more than the bytes of its input, which is enough since
-- every round takes a byte at least (Message.Total); so have the loops of the classes of Proto
-- (Proto.Total), and the loop over packed numbers has the bytes of its block. The loop over the
-- blocks of a digest has the number of the input's bytes, of which every round takes 64,
-- unless its 32-bit test wraps; the theorems are about inputs for which it does not (Md5.Absorb).
--
-- Not modelled: the log, the text of log messages, keepAlive, steps of the threads of the business
-- and the network in the middle of a handler and the locks between them, bodies of 2^31 bytes or
-- more, whose length ParseFromArray takes as an int, what a server's hook loses with the function
-- object that it clears while it runs (TcpServer.cpp, startSession), exceptions of the conversion
-- of text, what is left by a failed parse with ad/AdPlayPolicy.pb.cc, its reflection, arenas and
-- variants that write to an array, what Media Foundation does (its answers are in `Platform`), the
-- set-up of the boost log library, CGdiPlusBitmap.h, and the copies of cpp-netlib and protobuf
-- under Http and include.
mod Base
pub mod Wire
pub mod Message
pub mod Proto
pub mod Session
mod Examples
pub mod Client
pub mod Server
pub mod Manager
pub mod Md5
pub mod Player
pub mod Logger
