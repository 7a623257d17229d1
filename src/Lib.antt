-- ===== src/Lib.antt =====
-- Block Miner: a server for a mining game with balances in POL. This library models the parts of
-- the server that hold balances and machines, and proves what their operations keep.
--
-- Base holds what all parts share: Boolean tests on native numbers, lists, dictionaries,
-- integers, answers of handlers (Http), texts by their code points, and the database client. The
-- client (Prisma) is outside the repository: Base.Table describes its calls as the record Table
-- and its documented behaviour as IsTable, and Base.Table.Memory is a table that satisfies it. A
-- theorem that rests on the behaviour of the client takes IsTable of its tables as an argument.
-- Database has the rows of server/prisma/schema.prisma.
--
-- Engine (server/src/miningEngine.js, server/src/runtime/miningRuntime.js,
-- server/models/minerProfileModel.js): Engine.State is the object with its two maps of miners,
-- the work of the round and the history; Miners and Blocks have a function for each method
-- (createOrGetMiner is create_or_get_miner, distributeRewards is distribute_rewards, tick is
-- tick); Rewards, Rollback, Owners, Registry and Reach have the theorems. Its arithmetic is the
-- record Numbers, of which nothing is assumed but what IsExact says where a theorem names it, so
-- that the theorems do not depend on the rounding of doubles.
--
-- Wallet (server/models/walletModel.js, server/controllers/walletController.js,
-- server/services/depositVerifier.js, server/cron/withdrawalsCron.js): users and transactions
-- are tables, and the engine in memory follows each change of a balance. The chain is read
-- through ethers, which is outside: Deposits.Chain is what its calls answer. Amounts are integer
-- counts of 10⁻⁸ POL, the scale of the columns. The verifications that the server starts in
-- parallel are modelled one after the other. Wallet.Vault is the abstract view of withdrawals,
-- with its moves, and Open, Refinement, Jobs and Runs show that the calls on the tables are runs
-- of it. A value on the chain is in wei, and the amount that a column keeps of it is an
-- argument.
--
-- Rooms (server/controllers/roomsController.js), Shop (server/controllers/shopController.js,
-- server/models/minersModel.js), Swap (server/controllers/swapController.js), Faucet
-- (server/controllers/faucetController.js) and RateLimit (server/middleware/rateLimit.js, whose
-- closure is the record Limiter): each handler is a function from a request and the tables to an
-- answer and the tables; the helpers of a handler are named for the step they stand for. A
-- number of the swap stands as the columns keep it. Faucet.Visits carries the waiting time over
-- any sequence of visits and claims. Accounts has the lemma on a payment that they share. Keys
-- of new rows and the time are arguments. A transaction that throws leaves the tables as they
-- were.
--
-- Offers (server/services/offerEventPurchaseService.js, server/services/offerEventHelpers.js):
-- the purchase of a machine of an offer event. The transactions that run beside it are an
-- argument of the count of sold machines, which says what they do to a row between its read and
-- its write.
--
-- Slots (server/controllers/inventoryController.js, server/controllers/machinesController.js):
-- the machines outside the rooms. Slots.Shelf is what both controllers do with a machine in the
-- way, Install and Move have the handlers, and Owned and Kept follow what the users own. The
-- state is that of Rooms, since both handle the same tables.
--
-- Tickets (server/controllers/depositTicketController.js): Open and Resolve have the handlers on
-- tickets, the wallet and the notifications; Credit and Limit have what each keeps, and Runs
-- carries that over any sequence of requests, a step relation with a constructor for each
-- handler. The analysis of the chain is an argument.
--
-- Checkin (server/controllers/checkinController.js, server/services/checkinChain.js): Chain
-- judges a payment, Claims has the handlers and the job for pending rows, Streak counts the
-- days. A date is the number of its day. The loop of the streak runs on fuel; one more than the
-- number of today is enough, as Days shows.
--
-- Shortlinks (server/controllers/shortlinkController.js): Steps has the handlers, Daily and Skip
-- the theorems. Times are milliseconds since 1970 in UTC, so that midnight is a division.
--
-- Watch (server/controllers/sessionController.js, server/controllers/autoMiningGpuController.js,
-- server/controllers/youtubeController.js, server/cron/gamePowerCleanup.js): the heartbeats earn
-- the seconds that GPUs and videos cost. Budget weighs both against the time, and Runs carries
-- that over any sequence of requests.
--
-- Ads (server/controllers/ptpController.js): Views has the handlers, Balance what they keep.
-- Amounts are integer counts of 10⁻⁸ USD, where the source has doubles.
--
-- Sessions (server/utils/authTokens.js, server/utils/token.js, server/middleware/csrf.js,
-- server/utils/nonceManager.js): texts are lists of code units, Split has the split and join of
-- JavaScript. Hashes, random parts, decodeURIComponent and Number are arguments.
-- Sessions.Passwords has the handlers of server/routes/auth.js that change passwords: bcrypt,
-- the signing of reset tokens and the text comparisons of the database are arguments.
--
-- Only the loop of the streak needs fuel: each other loop runs over a list or counts down. The
-- engine keeps twelve blocks, a verification stops after twenty attempts, the verifier takes
-- fifty deposits a run, and the count of sold machines makes ten attempts, as in the sources.
--
-- Not modelled: handlers that only read, notifications, logs, sockets and audit entries, and
-- registration, referrals and sign-in, the administration, the CCPayment deposits, the
-- call-backs of the offer walls, chat and support, back-ups, routes and the start of the server;
-- the client in client/.
pub mod Base
pub mod Engine
pub mod Database
pub mod Wallet
pub mod Accounts
pub mod Rooms
pub mod Slots
pub mod Shop
pub mod Swap
pub mod Faucet
pub mod RateLimit
pub mod Offers
pub mod Tickets
pub mod Checkin
pub mod Shortlinks
pub mod Watch
pub mod Ads
pub mod Sessions
mod Tests
