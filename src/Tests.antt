-- ===== src/Tests.antt =====
-- The theorems at concrete inputs, and the inputs.
mod Data
mod SdkRuns
mod PosterRuns
mod StoreRuns
mod IngestRuns
mod ReaderRuns
mod ProcessRuns
mod EndToEndRuns
mod TailRuns
mod LoopRuns
mod PairingRuns
mod NonceRuns
