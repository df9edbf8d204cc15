-- ===== src/Lib.antt =====
-- BAM (blob-authenticated messaging): verified models of the parts of this repository that turn
-- signed messages into blobs and back.
--
-- The program. A poster (packages/bam-poster) takes signed messages into a pool, and its aggregator
-- picks messages of every content tag, encodes each tag's messages as one batch, and plans one blob
-- for several tags. The store (packages/bam-store) keeps messages,
-- batches and nonces. The SDK (packages/bam-sdk) encodes and decodes the batches and puts the
-- payloads into the blob's field elements. Before it broadcasts, the poster checks that the blob
-- reads back as planned. The reader (packages/bam-reader) scans the chain for
-- registered batches, fetches each blob, decodes it, verifies every message and writes what passed to
-- the store, block by block, with a cursor; its watcher marks what a reorganisation took away.
--
-- The files.
--   Sdk/Hex, Sdk/Endian: `hexToBytes` and `bytesToHex` of packages/bam-sdk/src/message.ts, and the
--     big-endian writers and readers of packages/bam-sdk/src/batch.ts.
--   Sdk/Compression, Sdk/Batch: packages/bam-sdk/src/compression.ts and batch.ts. A buffer is the
--     list of its bytes; a read cursor is the list of what it has not passed.
--   Sdk/Blob: packages/bam-sdk/src/blob (constants.ts, multi-segment.ts, extract.ts). A blob is its
--     size and the byte at each offset.
--   Poster/Types, Poster/Policy: packages/bam-poster/src/types.ts and policy/default.ts.
--   Poster/Pack: packages/bam-poster/src/submission/pack.ts.
--   Poster/Aggregator: packages/bam-poster/src/submission/aggregator.ts. `tick` passes the state of
--     the tags along; the two passes over the tags, the plan, the streaks and the pruned map are a
--     function each.
--   Poster/SelfCheck: packages/bam-poster/src/submission/self-check.ts and the checks of
--     build-and-submit.ts before the transaction.
--   Poster/Ingest: packages/bam-poster/src/ingest (pipeline.ts, monotonicity.ts, rate-limit.ts,
--     size-bound.ts) and surfaces/nonce.ts. The pipeline passes the limiter and the database along; a
--     transaction that throws leaves the database as it was.
--   Poster/Loop: packages/bam-poster/src/submission/aggregator-loop.ts, with what an inclusion
--     writes in Poster/Recording. The loop's state comes with every
--     result; a transaction that throws leaves the database as it was.
--   Poster/Reorg: packages/bam-poster/src/submission/reorg-watcher.ts. Its window and candidates are
--     the same code as the reader's and stand in Reader/Reorg.
--   Poster/Backoff: packages/bam-poster/src/submission/backoff.ts.
--   Store: packages/bam-store/src (types.ts, postgres.ts, nonce-codec.ts). A table is the list of its
--     rows; a transaction's operation is a function of the database, and Store/Steps makes the writes
--     the steps of a state machine; a transaction whose callback acts on the database alone is the
--     attempt that commits; Store/Queries holds the reads and Store/Cursor the reader's cursor.
--     The rows hold nonces as numbers; Store/NonceText is the text that the columns hold.
--   Sdk/Message: packages/bam-sdk/src/message.ts, the two identifiers of a message; keccak is a parameter.
--   Reader/Decode: packages/bam-reader/src/discovery/validate-range.ts, decode/dispatch.ts and
--     decode/zstd-bound.ts.
--   Reader/ProcessBatch: packages/bam-reader/src/loop/process-batch.ts, with the retries of `withTxn`
--     (packages/bam-store/src/postgres.ts) around its writing transaction, since what an aborted attempt
--     counted stays; which attempts the database aborts is a parameter. The counters are the first
--     component of the result, since they keep what was counted before a throw.
--   Reader/Reorg: packages/bam-reader/src/reorg-watcher.ts.
--   Reader/LiveTail: packages/bam-reader/src/loop/live-tail.ts and `commitBlock` of discovery/cursor.ts.
--     The database and the counters come with every result, since a throw keeps what was written.
--   Reader/EndToEnd: a pack of the poster as the reader decodes it.
--   Reader/LogScan: packages/bam-reader/src/discovery/log-scan.ts, the paging of a scan and the halving
--     of a range, with the fetch of one range as an argument.
--   Reader/Pairing: the fetch of one range, which pairs segment logs with batch logs.
--   Prelude: lists, tests, errors, strings, sorting and association lists for all of these.
--   Tests: the theorems at concrete inputs.
--
-- Conventions. Numbers are natural numbers, with the source's range checks written out. A function
-- that throws returns a `Result` whose errors name the throw. JavaScript strings are lists of UTF-16
-- code units, and a `Map` is an association list or a function. Sorting is by insertion with the
-- source's comparison. Every loop is structural recursion, except that of `markSubmitted` over slices
-- of 500 keys, which has as many rounds as there are keys (every round takes at least one), and those
-- of a log scan, which have as much fuel as the range has blocks (both halves of a range are shorter,
-- and a chunk has at least one block). The decimal text of a nonce is printed on fuel
-- of twenty digits, which every number below 2^64 fits.
--
-- Not modelled: the KZG library, the chain client, HTTP and SQL drivers, signatures (viem), the
-- Solidity contracts, the command line and the apps, since they are calls of other systems or glue;
-- and, so far, the poster's reconciliation at startup, the reader's backfill, its sources of blobs and
-- its dispatch of verification, the SDK's BPE and ABI codecs, the indexer and the comments. `fzstd` is
-- a parameter.
pub mod Prelude
pub mod Sdk
pub mod Store
pub mod Poster
pub mod Reader
pub mod Tests
