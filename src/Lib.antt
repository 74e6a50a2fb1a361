-- ===== src/Lib.antt =====
-- CloudNode: signalling between peers in rooms over a message port, and files between peers over
-- data channels. One program is either the server, which keeps rooms and relays messages, or a
-- client, which joins rooms, offers files, receives files, and watches a directory for files to
-- send. Both roles extend the class of include/WebRTC.hpp, which owns the table of rooms and
-- routes each message by its type to a handler.
--
-- The files:
--   Base       Boolean tests, byte strings (Text), orders, and `std::map` and `std::set` as ordered
--              lists (Base/Dict, Base/Set).
--   Json       RapidJSON as an interface: the calls that the program makes (Json) and their
--              documented behaviour (Json.IsLawful). A call that RapidJSON forbids, such as `doc["x"]`
--              without that member, is Run.fault. Json/Values has values that meet the interface.
--   Rooms      src/WebRTC.cpp: GetPeers, ClearRooms, UpdatePeers, Join and Leave on m_rooms.
--   Router     include/WebRTC.hpp: string_hash on 32-bit words, and MessageRouter, whose switch is
--              kind_of_hash and whose calls are dispatch over a record of handlers.
--   Server     src/WebRTCServer.cpp. Server/State has m_rooms, m_clientDB and the log of send;
--              Server/Membership has OnJoin, OnLeave, Leave, OnMessageOpen, OnMessageClose, OnPingPong and
--              the notifications; Server/Files has HandleFile, OnFileOffer, OnFileAccept and
--              OnFileReject; Server/Relay has OnOffer, OnAnswer, OnCandidate and OnFileComplete;
--              Server/Dispatch has the callbacks that src/WebRTC.cpp gives to the port.
--   Client     src/WebRTCClient.cpp. Client/State has the fields and the environment; Client/Specs the
--              lists of --file; Client/FilePath the path that OnFileOffer makes of an offered name, with
--              std::filesystem's relative_path and lexically_normal on slash-separated names;
--              Client/Offering has OnFileOffer, SendFileAccept and SendFileReject; Client/Incoming has
--              StartNextIncoming, OnIncomingChunk and TakeReceivedFile; Client/Session has OnJoin, OnLeave,
--              OnFileAccept, OnFileReject, OnPingPong, OnMessageOpen, OnMessageClose, Start and Stop;
--              Client/Sending has SendFileOffer, QueueFile, QueueFileToAll, InRoom, JoinRoom, SendPing
--              and SendFileComplete; Client/Channel has MakeDataChannel, obtainInitialDescription and the
--              loop that reads a file in chunks; Client/Sender has the transfer thread; Client/Peering has
--              MakePeerConnection's server, OnOffer, OnAnswer and OnCandidate; Client/Callbacks has what
--              other threads do to a client as one type;
--              Client/Worker has StartClient, JoinRooms, ConnectPeer and OfferFiles, and Client/Startup the
--              files and rooms that StartClient begins with.
--   LocalDescription  src/LocalDescription.cpp: identifiers, base64 over its library, and the JSON.
--   FileInfo   include/MimeDetector.hpp: get_crc, get_mime_type and get_file_info.
--   PortClient  src/MessagePortClient.cpp: Start, its thread, the events of the socket, Send and Stop;
--              WaitUntilRunning of include/MessagePort.hpp and SendMessage of include/WebRTC.hpp.
--   PortServer  src/MessagePortServer.cpp: Start, the callbacks of its sockets, Send and Stop;
--              PortServer/Thread has the thread, with the event loop as the steps that it may make.
--   PropertyBag  include/PropertyBag.hpp: Set, Get and Contains.
--   Exchange   the parts put together, from one client through the server to others: a join
--              (Exchange/Joined), an offer that is accepted, with the file (Exchange/Accepted), and one
--              that is rejected (Exchange/Declined). Exchange/Documents has what the messages of an offer
--              say, and Exchange/Hops what each party does with one.
--   Program    src/parse_cl.cpp, and of src/CloudNode.cpp the properties and the callback of the file
--              watcher; Program/Roles has WebRTC::Create and WebRTC::Start of src/WebRTC.cpp,
--              and MessagePort::Create of src/MessagePortFactory.cpp, and
--              Program/Main has main from the start of the token: the wait for a signal and the order of
--              its calls.
--   FileLock   include/FileLock.hpp: Acquire, Release, the moves and LockedIfstream, over open, flock and
--              close as an interface (Kernel) with their documented behaviour (FileLock.IsLawful).
--   RandomName  include/RandomName.hpp: Generate, with what the distributions yield given.
--   Logger     include/Logger.hpp: the streams of log lines, and what they write to the console.
--   FileWatcher  src/FileWatcher.cpp: OnFile, AddWatchTree, HandleEvents, Notify and FlushIfQuiet, with the
--              directory tree and the watch descriptors as parameters and the time in milliseconds;
--              FileWatcher/Loop has Start and the rounds of Run, and FileWatcher/Stopping the thread and the
--              descriptors from Start to the end of Stop.
--   Queue      src/Queue.cpp: AddItem, GetItem and GetSize, and the orders in which threads call them.
--   StopToken  src/StopToken.cpp: the token as the thread that holds its mutex; a call that std::mutex leaves
--              undefined is Run.fault. What try_lock does for the owner of the mutex is a parameter
--              (Platform): undefined, as in the C++ standard, or a failure, as in POSIX.
--   Examples   runs of the parts on small inputs.
-- In each part the child modules that are not named here hold proofs.
--
-- A handler is a function from the state to the state, or to a Run of it where it makes an unchecked
-- RapidJSON call. Messages sent are a log at the end of which each send appends; so are the calls of
-- peer connections and of web sockets. Loops are recursions on a list, a text or a tree, but for two that
-- run on fuel: the chunks of a file, for which the file's length and one is enough where the size is
-- positive (Client/Channel/Reading), and decimal digits, for which the number and one is enough
-- (Base/Decimal). The hash and the checksum keep their words below 2 ^ 32, and `char` is signed, as on
-- the platforms of the build.
--
-- Handlers run one at a time here, as the callbacks of one port do. A thread that waits is a function
-- that makes one step, from one place where it does not hold its mutex to the next, and yields none
-- where its wait goes on; a boolean says whether the time of a timed wait is up. Handlers and calls of
-- other threads come between such steps in any order (Client/Worker/Reached, Client/Sender/Prefixes,
-- PortClient/Threads). A call of MakeDataChannel or of SendFileOffer is one step. Otherwise mutexes and
-- condition variables have no counterpart but for the queue and the stop token. The files that a client
-- writes are a dictionary from paths to bytes, in which a stream appends at its end; whether a lock
-- is had, a file opens or a write succeeds depends on the path alone, as a parameter. Connections,
-- channels and queues have numbers for names, given out in order.
--
-- Not modelled: read errors in the middle of a file, the system calls of FileWatcher,
-- the inside of the event loop of uWebSockets, the clock behind a log line, and
-- the iOS client.
pub mod Base
pub mod Json
pub mod Rooms
pub mod Router
pub mod Server
pub mod Client
pub mod Exchange
pub mod FileWatcher
pub mod Queue
pub mod StopToken
pub mod LocalDescription
pub mod FileInfo
pub mod PortClient
pub mod PortServer
pub mod PropertyBag
pub mod FileLock
pub mod RandomName
pub mod Logger
pub mod Program
mod Examples
