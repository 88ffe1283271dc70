-- ===== src/Lib.antt =====
-- The chat services of this repository, a NestJS back end of a wallet messenger: rooms, their members,
-- messages, the transactions that a room asks the chain for, blocks between users, and access rules.
--
-- The services share one MySQL database through TypeORM and put jobs on Bull queues, from which workers
-- outside of this repository send transactions to the chain. A controller calls a method of a service
-- for each request. The methods of src/chat-room and src/member-in-room change the rows of members and
-- rooms; where the chain has to know, they go through src/shared/chat-helper, which writes a message
-- and a row for each address whose transaction is in progress (src/room-notification-tx), and queues
-- a job. The methods that concern an address look for such a row first.
--
--   Prelude: names of the library, Boolean tests, lists.
--   Store, Store.Keyed: a table, its keys, and how its rows evolve.
--   Entities: the entities of src/*/entities and the words of src/shared/constants.
--   World, World.Laws, World.Outcome, World.Refusal: the state, the monad of the methods, and rules for
--   what a method leaves alone, for a method that returned and for one that refused.
--   Network, NetworkFee: src/network/services/network.service.ts and
--   src/jobs/services/network-fee.service.ts.
--   RoomNotificationTx: src/room-notification-tx/services/room-notification-tx.service.ts.
--   ChatHelper: src/shared/chat-helper/services/chat-helper.service.ts, and the row of room-action-tx.
--   Member: src/member-in-room/services/member-in-room.service.ts; Preferences, Invite, Remove and
--   Approve hold its groups of methods.
--   Room: src/chat-room/services/chat-room.service.ts; Membership, Create and Single likewise.
--   Message, Sender, Sending: src/message/services/message.service.ts.
--   RoomKey: src/room-key/services/room-key.service.ts, with src/shared/tools/diffe-hellman.tool.ts.
--   UserBlocks: src/user-block/services/user-block.service.ts.
--   Moderation: src/remove-message and src/spam-report.
--   RedPacket, Encryption: the red packets and the encryption of src/message/services/message.service.ts.
--   UserContacts, UserSettings, Devices: the services of src/user-contact, src/user-setting and src/device.
--   Username: the draw of a new name in src/auth/services/auth.service.ts.
--   Auth: sign-in, tokens and recovery in the same file; Users: src/user/services/user.service.ts.
--   DataKeys: src/kms-data-key and src/kms-cmk.
--   ChatGuard: src/shared/guards/chat-network.guard.ts.
--   Files, FileMessage: createFile of src/file and createFileMessage of src/message.
--   Registration, Secrets: the rest of register in the same file, with createUser (src/user),
--   createUserWallet (src/user-wallet) and createHdWallet (src/user-hdwallet).
--   UserWallets, UserTokens: changeNetwork of src/user-wallet and removeTokenById of src/user-token.
--   SendToken: sendTokenTransaction of src/transaction/services/transaction.service.ts.
--   History: getMesssageAndTransactionHistory of the same file, with its query, and the part of
--   getDetailMesssageAndTransactionHistory that shows a transaction.
--   TransactionView: getTransactionById of the same file.
--   Acl: src/shared/acl/acl.service.ts and src/user/services/user-acl.service.ts.
--   Api: the calls of the controllers as a type, and histories of calls.
--   Tests: a small database on which the methods and the theorems are run.
--
-- A method is a function from its input and the state to a result and the next state; what is written
-- before a throw stays written, since the methods run in no transaction, except those of user-block.
-- The name of a method is the source's in small letters: joinRoom is `join_room`. The context's user is
-- the first argument, and `Date.now()` is a number of milliseconds in the state.
--
-- What the code calls and does not hold is a field of `Env`: the clock, MySQL's comparison of texts
-- under the column's collation, `lower`, the case conversion of JavaScript, the answers of the gas
-- trackers, the check of an address, big numbers, random words and bytes, the key pairs, ECDH and the
-- ciphers of node, the encodings of its buffers, bcrypt, JWT, AWS KMS, and the stores of files. A
-- theorem that relies on one of them says so in a hypothesis.
--
-- Choices of the model: a handler runs as one step, so that the interleavings of two requests are not
-- covered; `Promise.all` runs its calls one after another, and what it does not await ends before the
-- next statement, as the rows for several receivers of a chat transaction, for which the source hands
-- `Promise.all` a list in a list; the ids of a request are numerals; a query without an order returns
-- the rows in the order of the primary key; the columns of words are enumerations, also where a DTO lets a client write any text; TypeORM's
-- automatic dates are followed only where a method sets them; a log is left out; line breaks in the
-- welcome text are spaces. The loop that draws a username has fuel, one unit for each draw: a fuel
-- that reaches a draw which no user has is enough. All other loops run over lists.
--
-- Not modelled: addToken; the raw SQL queries that only list or present rows, apart from the history; the
-- answer of register with its tokens; wallets apart from the parts named above; the prices and the
-- detail of a message in the history; the wrappers of web3, the other uploads and reads of files, the
-- other jobs, migrations and the plumbing of requests.
pub mod Prelude
pub mod Store
pub mod Entities
pub mod World
pub mod Network
pub mod NetworkFee
pub mod RoomNotificationTx
pub mod Message
pub mod ChatHelper
pub mod Member
pub mod Sender
pub mod RoomKey
pub mod Room
pub mod Sending
pub mod UserBlocks
pub mod Moderation
pub mod Acl
pub mod Api
pub mod UserContacts
pub mod UserSettings
pub mod Devices
pub mod Encryption
pub mod UserTokens
pub mod UserWallets
pub mod Username
pub mod RedPacket
pub mod SendToken
pub mod History
pub mod TransactionView
pub mod DataKeys
pub mod Secrets
pub mod Users
pub mod Auth
pub mod Files
pub mod FileMessage
pub mod ChatGuard
pub mod Registration
pub mod Tests
