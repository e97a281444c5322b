-- ===== src/Lib.antt =====
-- A model of the indexer, the archiver and the API of the cross-chain message archive, with proofs.
--
-- The program follows the contracts of four bridge protocols on several EVM chains. One loop per chain
-- and protocol (internal/indexer/processor.go) asks an RPC client with failover
-- (internal/chain/client.go) for the confirmed head and for the logs of the next blocks, turns each log
-- into an event by the protocol's decoder, and hands the event to the correlator
-- (internal/correlator/correlator.go). The correlator normalizes it (internal/normalizer/normalizer.go):
-- an event of the sending chain becomes a new pending message, and an event of the receiving chain a key
-- by which the store (internal/indexer/message_store_pg.go) finds the pending message to settle. The
-- loop keeps a cursor (internal/indexer/cursor.go) and the hashes of some blocks
-- (internal/indexer/block_hash_store.go), by which it notices a reorganization of the chain and goes back.
-- cmd/backfill/main.go runs the same loop over a range, with a cursor store of its own.
--
-- The archiver (internal/archiver) writes the messages of each finished month to a file in the object
-- storage, with a cursor of its checksum, and a manifest of all files. The API (internal/api) reads the
-- message tables in pages, shows the trace of a message, computes statistics behind a cache, and serves
-- the archived files.
--
-- Files:
--   Base        shared types and lemmas: tests, errors, lists, tables, integers, decimal text
--   Types       the message, of internal/types/message.go
--   Decoder     the event, of internal/decoder/types.go; Registry is internal/decoder/registry.go,
--               LayerZero internal/decoder/layerzero/decoder.go, Wormhole
--               internal/decoder/wormhole/decoder.go and vaa.go, Axelar
--               internal/decoder/axelar/decoder.go, and Ccip internal/decoder/ccip/decoder.go
--   Normalizer  internal/normalizer/normalizer.go, one definition per handler
--   Database    the tables and statements of migrations/000001_init_schema.up.sql and of the store
--   Store       internal/indexer/message_store_pg.go: each method is a transaction on the tables
--   Correlator  internal/correlator/correlator.go, over any message store
--   Chain       internal/chain/client.go; Manager is manager.go
--   Indexer     the stores of cursors and hashes, the check for reorganizations (Fork) and the loop
--               (Processor), of internal/indexer; Start is indexer.go, with the loops side by side
--   Backfill    cmd/backfill/main.go
--   Config      internal/config/config.go, behind the reading of the file
--   Archiver    internal/archiver: Months the calendar, Records the query of a month, Store the cursors
--               and the manifest, Cycle the cycle of archiver.go
--   Api         internal/api: Rows and Order the joined rows and their order, Messages the listings of
--               message_querier.go and address_trace_querier.go, Trace the trace of a message, Params
--               and Handlers the handlers, Stats, Routes and Cache stats_querier.go, StatsHandlers
--               stats_handler.go, Historical historical_handler.go, Health handler.go and
--               cursor_querier.go
--   ObjectStore internal/storage/akave/client.go
--   Tests       runs on small inputs
--
-- Correspondence: a Go function keeps its name in snake case. A function that changes state takes
-- the state and returns it with its result. An error is the `err` of a result, with the constant
-- words of its text. PostgreSQL, the RPC endpoints, the clock and the packages of go-ethereum are
-- arguments: `Faults` and `StorageFaults` say which statements fail, an endpoint is what a remote
-- call answers by the attempt, and a `Round` holds what one round of the loop is answered.
-- Statements are taken to mean what SQL says, a value that does not fit its column is a statement
-- that fails, and a search with LIMIT 1 takes the oldest match. An ORDER BY sorts by insertion, a
-- LEFT JOIN gives none where no row joins, and the collation of texts is any strict order
-- (`Collation`). The page tokens are any encoding that is read back (`Tokens`), the files any that
-- are read back with the times of creation and change, which the database has in microseconds, cut to
-- the milliseconds of a Parquet timestamp (`Formats`), the averages any function of the latencies (`Floats`), and minio-go any
-- calls (`Minio`), which share the reader of an upload and its position. For the archiver, the object storage keeps what was last put under a key. A
-- client that reads on is `follow`: it asks with the token of each page until there is none. A nil
-- pointer that the source would follow is an error of the model, and no theorem depends on it.
--
-- Integers are natural numbers; block numbers wrap at 2^64 where the source adds to them, and the
-- theorems on the loop and on the log search assume that a batch or a chunk beyond the last block stays
-- below 2^64. The log search is recursion on fuel, two rounds more than there are blocks, and
-- fetch_logs_total shows that this is enough. The printing of numbers has fuel for 20 digits. All other
-- loops are structural.
--
-- The goroutines of `Start` are interleaved by whole rounds: a `Turn` is a round of one loop, or the
-- loading of its cursor.
--
-- Not modelled: metrics, logging, sleeps, tickers, rate limits and the closing of connections; HTTP
-- itself, the pool of connections to PostgreSQL, and the main functions.
pub mod Base
pub mod Types
pub mod Decoder
pub mod Normalizer
pub mod Database
pub mod Store
pub mod Correlator
pub mod Chain
pub mod Indexer
pub mod Backfill
pub mod Config
pub mod Api
pub mod ObjectStore
pub mod Archiver
pub mod Tests
