-- ===== src/Lib.antt =====
-- Project_Chat, a chat server: its network layer, its messaging layer and the threads under both.
--
-- A connection reads frames, each a length of four bytes and a text, from a byte stream, hands the
-- texts to the messaging layer and sends frames back. The messaging layer keeps a session for each
-- connection, the groups and who is in them. Work that may block runs on thread pools; the tasks of
-- one key run one after the other on one pool.
--
-- Parts and files:
--   src/Buffer.cpp, include/Buffer.h: Net/Buffer. The storage is a list of numbers; Net/Buffer/Contents
--     and Net/Buffer/Room relate each operation to the list of the readable bytes.
--   src/TcpConnection.cpp, handleRead and handleControlFrame: Net/Frame. Net/Frame/Decoding gives the
--     parser on plain lists, Net/Frame/Stream the stream of reads, Net/Frame/Decoding/Ends how the
--     loop over a buffer ends.
--   src/TcpConnection.cpp, sendInLoop, tryReserveFrame, sendReservedFrameInLoop, releaseReservedFrame,
--     handleWrite, handleClose, and src/net/OutboundFrame.cpp: Net/Connection, with the limits in
--     Net/Connection/Limits, runs of whole operations in Net/Connection/Backlog, and runs in which the
--     base loop reserves while the loop of the connection works in Net/Connection/Racing, with their
--     bounds in Bounds below it.
--   include/net/SendTypes.h, BatchSendResult: Net/Batch.
--   src/im/Group.cpp, include/im/GroupRole.h: Im/Group. src/im/GroupManager.cpp: Im/GroupManager, with
--     histories of calls in Im/GroupManager/History.
--   src/im/SessionManager.cpp, include/im/Session.h: Im/SessionManager, with histories in
--     Im/SessionManager/History.
--   include/im/MsgType.h: Im/MsgType. include/im/ErrorCode.h: Im/ErrorCode.
--   include/infra/thread/ThreadSafeQueue.h and ThreadTypes.h: Infra/ThreadSafeQueue.
--   src/infra/thread/ThreadPool.cpp: Infra/ThreadPool; the interleavings of its threads are the step
--     relation of Infra/ThreadPool/Interleavings.
--   src/infra/thread/KeyedSerialExecutor.cpp: Infra/KeyedSerialExecutor.
--   include/storage/RepoResult.h, RepoValueResult.h and types/: Storage/Results, Storage/GroupTypes,
--     Storage/UserTypes, Storage/FriendTypes. The abstract repositories of include/storage/ are the
--     records of operations in Storage/Repos, over a database of any type; a client takes them as a
--     parameter.
--   src/storage/memory/MemoryGroupRepo.cpp: Storage/MemoryGroupRepo.
--   src/storage/sql/SqlConnectionPool.cpp and SqlConnectionGuard.cpp: Storage/SqlConnectionPool, with the
--     guards that are alive in Exclusive and Capacity below it.
--   src/storage/sql/PreparedStatementCache.cpp: Storage/PreparedStatementCache.
--   src/id/SnowflakeIdGenerator.cpp: Id/SnowflakeIdGenerator.
--   src/im/GroupService.cpp: Im/GroupService, its operations in Membership, Lifecycle and Ending below
--     it; they work on a database and on the manager and the generator modelled here.
--   src/timer/TimerQueue.cpp and Timer.cpp: Timer/TimerQueue.
--   src/im/GroupJoinService.cpp: Im/GroupJoinService. src/im/FriendService.cpp: Im/FriendService.
--   src/im/ImCodec.cpp, include/im/ImMessage.h and HistoryQuery.h: Im/ImMessage and Im/ImCodec, with the
--     fields of requests in Im/ImCodec/Parsers. The JSON library is the record of calls in Im/Json.
--   src/im/ImService.cpp: Im/ImService has what the handlers share. Im/ImService/Pipeline has the
--     messages on their way and src/im/GroupMessagePersistenceService.cpp and
--     DirectMessagePersistenceService.cpp; Im/ImService/Pushes what goes to the batch sender;
--     Im/ImService/Messages the admission and the submission of the check of the rate,
--     Im/ImService/Messages/Rechecked what follows it, Im/ImService/Completion what follows a write;
--     the order of the threads is the step relation of Im/ImService/Completion/Steps.
--     Im/ImService/Groups has the nine handlers of requests that change a group or ask to join one,
--     over the services of groups modelled here.
--   src/TcpServer.cpp, the connections of the base loop and the stop: Net/TcpServer; the fan-out of a
--     batch over the I/O loops: Net/TcpServer/Batch, with what waits in the loops in Queues and the
--     loop over the connections in Rounds and Counted below it.
--   src/im/MessageSyncService.cpp and include/common/ConversationKey.h: Im/MessageSyncService.
--   src/auth/AuthService.cpp, and the tokens of src/security/TokenManager.cpp: Auth/AuthService.
-- Common holds what these share; Tests holds the theorems at concrete inputs.
--
-- State and operations: an object is a record with the fields of the class, less what only logs, and
-- a method is a function from the record to its result and the record after it, under the method's
-- name in small letters. Unordered maps and sets are association lists behind their laws. A
-- number of w bits is a natural number with its wrap-around written out where the code adds to it.
-- What the operating system answers (readv, send, epoll) is an argument.
--
-- Fuel: the loop over the frames in a buffer has as much fuel as the buffer has bytes and one more,
-- and a frame takes four bytes at least; a worker that empties a closed queue has one more
-- than the queue has tasks.
--
-- Not modelled: the event loop and sockets (I/O), the heartbeat, the SQL and Redis clients,
-- the hashing of passwords (calls of a library), JSON (a library's copy, taken as a parameter),
-- logging, configuration, what resetTimerfd does with its time, the handlers of ImService.cpp that
-- list, search and show groups and those for friends, accounts, history and synchronisation, and the
-- services over the repositories that are not named above.
pub mod Common
pub mod Auth
pub mod Net
pub mod Im
pub mod Id
pub mod Infra
pub mod Storage
pub mod Timer
pub mod Tests
