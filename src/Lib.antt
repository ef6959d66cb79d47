-- ===== src/Lib.antt =====
-- The price feeder of the Imua chain (github.com/imua-xyz/price-feeder). It fetches prices from
-- sources, among them the balances of native-restaking tokens (NST), and submits them to the oracle
-- module of the chain by transactions, one feeder for each token.
--
-- The parts that are modelled, and their files:
-- - Stakers (fetcher/types/types.go): the stakers of an NST token. Deposits and withdrawals wait in
--   caches (Stakers/Cache: CacheDepositsWithdraws) until the chain says that a version was fed. Then
--   the stakers grow (Stakers/Grow: tryGrowVersionsFromCache, complete, downgradeVersion,
--   GrowVersionsFromCacheByDepositWithdraw) and balance changes are applied (Stakers/Apply:
--   ApplyBalanceChanges). Stakers/Infos and Stakers/Batch are the changes of a map of stakers,
--   Stakers/Reset loads them from the chain (Reset), Stakers/Access reads or replaces them as a whole.
-- - Feeder (internal/feeder/types.go): one feeder. Feeder/Sign is signInfo, Feeder/Round is
--   calculateRound, Feeder/Decimal is convertDecimal, Feeder/Price is localPrice, Feeder/TwoPhases is
--   twoPhasesInfo, Feeder/Pieces the choice and the progress of its pieces, Feeder/Second is
--   send2ndPhaseTx. Feeder/State has the state of a feeder and its effects; Feeder/Trigger and
--   Feeder/Handlers are the branches of the routine in feeder.start.
-- - Feeders (internal/feeder/types.go): the routine that owns all feeders. Feeders/Setup makes them,
--   Feeders/Calls are its calls of a feeder, Feeders/Dispatch its branches.
-- - Events (imuaclient/types.go): the parsers of the chain's events on stakers, balances, pieces and
--   versions (Events/Parse, Events/Changes), on prices (Events/Block) and on new blocks
--   (Events/NewBlock), with Text for what they use of Go's strings and strconv.
-- - Source (fetcher/types/types.go): Source with the routines that fetch its tokens' prices.
-- - Fetcher (fetcher/fetcher.go): the routine over all sources with its requests, Fetcher/Snapshot its
--   ticker, Fetcher/Init what makes the sources.
-- - Chainlink (fetcher/chainlink): the prices in contracts, with the proxy of clients and bindings.
-- - Beacon (fetcher/beaconchain): the balances of stakers on the beacon chain, with Beacon/Fetch for
--   fetch, Beacon/Init for its start and Beacon/Confirmed for what its changes come to; Solana
--   (fetcher/solana) the same for stakes on Solana.
-- - Client (imuaclient): Client/Pages is GetStakerInfos (query.go), Client/Ws the routines of the web
--   socket and Client/Subscribe the subscriptions (subscribe.go), Client/Messages the messages that
--   are signed and sent (tx.go).
-- - Main (internal/feeder/feeder.go): ResetNSTStakers, with Main/Loop for the main loop of
--   RunPriceFeeder, Main/Start for what it does before and Main/Retry for initComponents and
--   GetOracleParamsWithMaxRetry (internal/types/types.go).
-- - Status (internal/status/service.go): GetAllTokens.
-- - Debugger (internal/debugger/feeder_debug.go): the requests that wait for a height.
-- - Prelude: the names and lemmas that all files share, Go's integers (Prelude/Int) and maps
--   (Prelude/Map).
--
-- How the parts interact: the reading routine of the client parses messages into events, the main
-- loop takes them and asks the routine of all feeders, which passes them to the feeder they name and
-- waits for its answer; the feeder changes its stakers, tells the fetcher about them, and sends
-- messages. A feeder whose update failed is reset from the pages of stakers that the chain reports.
-- The fetcher owns the sources, whose prices the feeders ask for. A branch of a routine is a function
-- from a state to a state with the list of effects, or to a panic; a goroutine is a sequence of such
-- steps, and the channels that drop messages are part of the state. In Main the routine of all
-- feeders handles a message before the main loop goes on. In Client/Ws the start of the tasks is one
-- step, and the panic of the supervising routine after sixty seconds is left out.
--
-- Conventions: unsigned integers are native numbers with the wrap-around written out, signed ones are
-- the integers of Prelude/Int with `wrap`; strings are lists of bytes. A map is an association list, and a
-- loop over a map takes the order of the list. Errors are values without their texts; a panic is a
-- value too. Logging is left out. Loops over versions and indexes are structural recursion on the
-- number of rounds. `format_uint` has fuel for 20 digits, which a uint64 does not exceed; the requests
-- for validators have fuel for one request each validator, where a request takes 100; the queries that
-- the source repeats as long as the chain makes it (pages of stakers, epochs of Solana) have fuel as
-- an argument, and a result of their own where it runs out.
--
-- Parameters: Oracle has the Merkle trees and messages of the oracle module and the base64 decoder; the
-- submitter of transactions is a function from a message to its response (Client/Messages has the
-- client's); the fetcher's latest price is an argument of a feeder; the parsers take the hex and
-- base64 decoders. The answers of the chain, of the beacon chain with Ethereum's contracts and of
-- Solana are functions from the request, and from its number where an answer changes with time.
--
-- Not modelled: reading configuration files, the start of the client and of the Solana source, gRPC
-- connections, signing and encoding, and the interfaces of the debugger and the status service, which
-- are input and output around the parts above; the devmode builds, which replace a source for tests;
-- generated code and contract bindings; commands, configuration and logging. The loop over
-- versions in tryGrowVersionsFromCache wraps around at the version 2^64 - 1, which is left out.
pub mod Prelude
pub mod Stakers
pub mod Text
pub mod Oracle
pub mod Events
pub mod Feeder
pub mod Feeders
pub mod Source
pub mod Fetcher
pub mod Chainlink
pub mod Client
pub mod Main
pub mod Beacon
pub mod Debugger
pub mod Status
pub mod Solana
