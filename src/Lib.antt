-- ===== src/Lib.antt =====
-- A model of the chat system: the code that stands between a user's message and its delivery, and
-- what that code relies on.
--
-- The program. Clients keep one TCP connection to a chat server. The status server tells a client
-- which chat server to use (common/ChatServerSelector.cpp, servers/status/rpc/StatusServiceImpl.cpp).
-- A chat server reads frames from the connection (servers/chat/network/CSession.cpp), posts them to an
-- executor with one worker for each shard of sessions (common/KeyedExecutor.h), and its logic system
-- (servers/chat/service/LogicSystem.cpp) accepts batches of text messages
-- (common/TextMessageService.h), stores them in MySQL (servers/chat/storage/MysqlDao.cpp, over the
-- pool of common/MysqlConnectionPool.h), delivers what is pending within a window
-- (common/DeliveryWindow.h) and sends it over the queue of the session. The client's receiver
-- (client/network/TcpMgr.cpp) cuts the stream into frames again. Friends and file transfers are rows
-- of the same database. The resource server (servers/resource/ResourceService.cpp) takes the bytes of
-- a file piece by piece into an encrypted attachment (servers/chat/files/EncryptedFileStore.cpp) and
-- gives them to the receiver.
--
-- The files.
-- Prelude: shared names, Boolean tests on numbers, lists, maps and equality.
-- Messages/Types, Messages/Window: TextMessage and DeliveryWindow (`reconcile`, `due`, `sent`).
-- Messages/Service: TextMessageService::accept (`accept`), its callbacks as parameters.
-- Messages/Table: the table chat_message and PersistTextMessages, GetPendingTextMessages and
--  AcknowledgeTextMessages (`persist`, `get_pending`, `acknowledge`).
-- Messages/Delivery: LogicSystem::DeliverPendingTextMessages (`deliver_pending`), the session as the
--  record `Channel`.
-- Messages/Chat: TextChatMsgCallback and TextChatAckCallback of the logic system (`text_chat_msg`,
--  `text_chat_ack`), from the parsed request on.
-- Wire, Wire/Receiver: the frames of SendNode (`encode`) and the receiver of TcpMgr
--  (`on_ready_read`, `rounds`, `take_header`, `take_body`).
-- Session/Queue: CSession::Send, StartWrite, HandleWrite and Close, one event at a time.
-- Session/Reader: AsyncReadHead and AsyncReadBody (`on_head`, `on_body`); Session/Reader/Chunks:
--  asyncReadFull and asyncReadLen.
-- Runtime/KeyedExecutor, Runtime/TokenBucket: the classes of the same names.
-- Storage/Pool: MySqlPool, as the steps that its mutex makes indivisible (`Step`, `Reach`).
-- Routing: selectLeastLoaded and getChatServer.
-- Friends: ExecuteFriendAcceptanceTransaction with the store of MysqlDao::AddFriend, and
--  CheckFriendRelation; Friends/Applications: AddFriendApply, AuthFriendApply and their queries.
-- Files: the records of common/FileTransferTypes.h and the operations on file_transfer of MysqlDao.
-- Files/Store: EncryptedFileStore over files that are lists of bytes. Append: `append`, with what it
--  decides (`plan_append`) apart from what it writes (`apply_plan`); Read: `read` and `sha256`; Life:
--  `create` and `remove`. Records, Rounds, Place, Refines: the abstract view, a list of pieces;
--  Beginning, Found, Acknowledged, Keeps, Stable: files of any content, which only grow.
-- Resource: the server's Service. Chunk: `chunk`; Publish: `complete`, and Published: the tables that it
--  leaves; Access, Range: the requests on
--  one file in `handle`, behind the authentication and the parsing of the path.
-- Gate: common/PasswordHasher and the login's verification (`verify_credential`); Gate/Accounts: the
--  accounts of the gate server's MysqlDao, with registration, login, reset and password upgrade;
--  Gate/Codes: RedisMgr::ConsumeVerificationCode, its script on the two keys of one email.
-- Tests: the theorems at concrete inputs.
--
-- Conventions. Numbers are natural numbers, a 64-bit subtraction or sum that may wrap keeps its
-- `% 2 ^ 64`, an int that may be negative is a ℤ, a byte is a number below 256. A text is compared
-- byte by byte in C++; the ids of messages and the names and emails of accounts are compared in MySQL by a
-- collation, which is a parameter, and the ids of files, hexadecimal in lower case, as they are. A
-- transaction runs alone. A database statement may throw, and a commit may be refused or take effect and lose its reply: the record
-- `Faults` says which. The order of events of several threads is a list of events or a relation of
-- steps. Locks, writes and flushes of a file may fail at any call, and a write may leave any
-- beginning of its bytes. libsodium is a parameter: a keyed hash, encryption, decryption and the
-- hash of passwords, with what it documents as the hypotheses `IsAead` and `IsArgon2`.
-- How Redis rounds a TTL to seconds is a parameter, too. Two loops use
-- fuel: the receiver's, one more than the bytes in its buffer, which suffices since each round that
-- goes on takes a header of four bytes; and that of `sha256`, the number of pieces in the total size.
--
-- Not modelled. The user interface of the client, of the gate server the HTTP requests, of the
-- resource server the creation of uploads, avatars, notifications and clean-up, the login and
-- notification handlers of the logic system, Redis but for the script on verification codes, timers
-- (they appear as closings at any time), TLS, logging, metrics and the mail service. Token buckets
-- count in exact units in place of doubles.
pub mod Prelude
pub mod Messages
pub mod Wire
pub mod Runtime
pub mod Session
pub mod Storage
pub mod Routing
pub mod Friends
pub mod Files
pub mod Resource
pub mod Gate
pub mod Tests
