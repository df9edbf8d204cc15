-- ===== src/Tests/PairingRuns.antt =====
-- A transaction with a segment log that belongs to no batch, before a pair that belongs together.
use bam.Prelude.{◌≡◌, refl, [], ◌∷◌, ◌++◌, some}
use bam.Reader.Pairing.{ScannerBatchLog, ScannerSegmentLog, bbr, bsd, pair_items, get_range}
use bam.Reader.Pairing.Claims.{pair_items-get_range}
use bam.Tests.Data.{tag_a, sender_a, sender_b}

abbrev rogue : ScannerSegmentLog
rogue = record {
  block_number = 70;
  transaction_index = 0;
  log_index = 0;
  transaction_hash = 9 ∷ [];
  versioned_hash = 7 ∷ [];
  declarer = sender_b;
  start_fe = 100;
  end_fe = 200;
  content_tag = tag_a;
}

abbrev declared : ScannerSegmentLog
declared = record rogue { log_index = 1; declarer = sender_a; start_fe = 0; end_fe = 4 }

abbrev registered : ScannerBatchLog
registered = record {
  block_number = 70;
  transaction_index = 0;
  log_index = 2;
  transaction_hash = 9 ∷ [];
  versioned_hash = 7 ∷ [];
  submitter = sender_a;
  content_tag = tag_a;
  decoder = [];
  signature_registry = [];
}

pair_items-get_range_example :
    get_range 0 (pair_items ((bsd rogue ∷ []) ++ (bsd declared ∷ bbr 0 registered ∷ [])) [])
    ≡ some (record { start_fe = 0; end_fe = 4 })
unfolding bam.Reader.Pairing.matches bam.Prelude.lower_unit
pair_items-get_range_example =
    pair_items-get_range (bsd rogue ∷ []) [] [] declared 0 registered refl tt
