-- ===== src/Reader.antt =====
-- packages/bam-reader: the service that finds the batches on the chain and decodes their messages.
pub mod LogScan
pub mod Decode
pub mod ProcessBatch
pub mod EndToEnd
pub mod Reorg
pub mod LiveTail
pub mod Pairing
