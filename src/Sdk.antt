-- ===== src/Sdk.antt =====
-- packages/bam-sdk: hex strings, big-endian numbers and the codecs built on them.
pub mod Errors
pub mod Hex
pub mod Endian
pub mod Compression
pub mod Batch
pub mod Blob
pub mod Message
