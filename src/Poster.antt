-- ===== src/Poster.antt =====
-- packages/bam-poster: the service that ingests signed messages, packs them into blobs and submits
-- the blobs.
pub mod Types
pub mod Policy
pub mod Pack
pub mod Aggregator
pub mod SelfCheck
pub mod Ingest
pub mod Backoff
pub mod Recording
pub mod Loop
pub mod Reorg
