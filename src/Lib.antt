-- ===== src/Lib.antt =====
-- A verification library for Veillend. For the backend, veilend-backend/src: who may act (Auth),
-- what deposits and withdrawals do to a user's positions (Funds), how the events of the contract
-- become positions and history (Indexer), when a user may withdraw (Solvency), what admins have
-- the contract do (Admin), and how the backend calls its providers on the Stellar network
-- (Stellar). For the mobile application, veilend-mobile/src (Mobile): what it holds in memory and on
-- the device, how its lending transactions are shown before they are settled, and its lock.
--
-- Base: lists, options and signed integers over native numbers; database tables as lists of rows
-- with Prisma's operations (Base/Table); request handlers as functions from a state to an outcome
-- and a state, with transactions that roll back (Base/Monad), and rules for what a handler keeps
-- (Keeps), establishes when it returns (Ensures), or has left as it was when it throws (Fails).
--
-- Auth models veilend-backend/src/auth. Data: the tables of veilend-backend/prisma/schema.prisma and
-- the errors. Tokens: issueTokenPair of auth.service.ts. Login: generateNonce, verifyWallet and
-- handleNonceClaimFailure. Refresh: refreshTokens, as `present` (the reads) and `redeem` (the
-- transaction), between which other requests may run, and handleRefreshReuse. Sessions:
-- validateSession, revokeSession, revokeSessionById, revokeAllSessions, cleanupExpiredTokens.
-- Strategy: validate of jwt.strategy.ts. History: any sequence of these requests, and policies on the
-- rows that all of them keep. Rotation, Nonces and Access hold the theorems.
--
-- Funds models veilend-backend/src/deposits and veilend-backend/src/withdrawals over one database
-- (Data). Deposits: createDeposit, updateDepositConfirmations, markDepositOrphaned, and runWatcher of
-- deposit-watcher.service.ts. Withdrawals/Create: createWithdrawal. Withdrawals/Lifecycle:
-- signWithdrawal, as its checks and its writes, between which other requests may run,
-- submitWithdrawal, cancelWithdrawal, revalidateWithdrawal. Withdrawals/Settle:
-- updateWithdrawalConfirmations, markWithdrawalOrphaned, and runWatcher of
-- withdrawal-watcher.service.ts. Withdrawals/Whitelist: addToWhitelist, removeFromWhitelist.
-- Withdrawals/History: any sequence of these. Deposits/Credit, Deposits/Replay and the other modules
-- of Withdrawals hold the theorems.
--
-- Indexer models veilend-backend/src/indexer over the tables that it writes (Data). Its users,
-- assets and positions are columns of the same tables of schema.prisma as those of Auth and
-- Funds, kept apart here: what the other parts write to these rows in between is not part of its
-- histories. EventId: extractEventIndex of indexer.repository.ts. Store: resolveUser,
-- resolveAsset, getCheckpoint, saveCheckpoint, isEventDuplicate, recordEventDedup,
-- cleanExpiredDedup, setAssetSupported. Positions: applyPositionDelta. Process: processEventSafe,
-- processChunk, applyEvent. History: any sequence of these calls. Parse: parseEventToItem of
-- indexer.service.ts. Fetch: fetchAndParseEvents. Chunks: indexEventsInChunks; the loop runs over
-- the list of its chunks, made on fuel end + 1 - start, one for each ledger, which is enough
-- since a chunk has a ledger or more. Service: runIndexer, replay, forceReplay, resetDatabase and
-- the lag of getSyncStats. The modules below these hold the theorems.
--
-- Solvency models when a user may withdraw. HealthFactor: computeHealthFactor of
-- veilend-backend/src/common/utils/health-factor.util.ts. Withdrawable: assertWithdrawable of
-- veilend-backend/src/withdrawals/withdrawal-solvency.service.ts, which Withdrawable/Signed puts in
-- the place of the check that Funds takes as a parameter. The numbers of JavaScript and their
-- arithmetic are the fields of the record Numbers, of which nothing is asked.
--
-- Admin models veilend-backend/src/admin over its tables and those of Auth (Data). Actions: the
-- methods of admin-action.repository.ts, the actions that admin.service.ts dispatches and submits,
-- and runWatcher of admin-action-watcher.service.ts. Members: addAdmin and removeAdmin. History: any
-- sequence of these requests. History/Final and Members/Removal hold the theorems.
--
-- Stellar/Breaker models veilend-backend/src/stellar/retry-with-fallback.ts: the providers' circuits,
-- getNextAvailableProvider, and the loop of execute, which also returns the calls that it made.
--
-- Mobile models the state of veilend-mobile/src/store/store.ts and what keeps it. Storage: the items
-- of utils/secureStorage.ts. Store: the state (Data), the actions on the session and the settings
-- with their writes to the device, and authenticate of hooks/useStellarAuth.ts (Settings), and any
-- sequence of these (Calls). Dashboard: fetchPortfolio, fetchTransactions, fetchSupportedAssets,
-- fetchPositions, hydrateDashboard and refreshDashboard. Lending: runLending, cut where it awaits, and
-- in Lending/Session the histories in which taps, answers, fetches and settings interleave, with the
-- tracked requests that cancelPendingRequests aborts. Lock: hooks/useAppLock.ts, the automatic lock of
-- providers/AppLockProvider.tsx and the gate of screens/UnlockGate.tsx; Lock/History: what happens to
-- them. Pin: hashPin and verifyPin of utils/pinHash.ts. Amount: toScaledBigInt of
-- lib/soroban/transactions.ts. The other modules of Mobile hold the theorems.
--
-- Abstractions. Identifiers, addresses, tokens and hashes are numbers, since the code only
-- compares them; times are milliseconds; a handler reads the clock once; random values are
-- arguments. Hashing, signatures and JSON web tokens are the fields of the record Crypto; the
-- replies of Horizon and of the providers are functions; the solvency check of
-- withdrawal-solvency.service.ts is a function of the database; what a JSON column makes of a
-- stored answer is a field of Config. Each handler runs as a whole, except refreshTokens and
-- signWithdrawal. Loops are structural; the retry loop runs on the number of attempts left, which
-- is the bound of the source's own loop. What JavaScript, the Stellar SDK and the database make of
-- texts are the fields of the records Texts and Words of the indexer, and the answers of the RPC
-- server are lists of pages; numbers other than amounts are taken to fit their columns.
--
-- In Mobile a text is a number, of which 0 is the empty text, except in Pin and Amount, where it is
-- the list of its code units. What the numbers and texts of JavaScript do in the store is the records
-- LendingEnv and Scaling; the biometric prompts, and in Lock the hash of a PIN, are given. The store's
-- own writes to the device, which it does not await, are taken to succeed, and each action but
-- runLending and the fetches runs as a whole. 10 ** decimals is a parameter.
--
-- Not modelled: listings and formatting, log lines, notifications, error texts, timers, the
-- columns that these operations only store (fees, health factors, labels); the indexer's
-- percentages, estimates, counters of unhandled topics and cursors; liquidations, and the other
-- modules of the backend; the screens, navigation, notifications and wallet backup of the mobile
-- application, its HTTP client and network status, and how it builds, signs and sends transactions;
-- the web application and the contracts.
pub mod Base
pub mod Admin
pub mod Auth
pub mod Funds
pub mod Indexer
pub mod Mobile
pub mod Solvency
pub mod Stellar
