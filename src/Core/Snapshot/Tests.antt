-- ===== src/Core/Snapshot/Tests.antt =====
-- Three messages in a snapshot of two.
use httshark.Base.{List, [], ◌∷◌, Bytes, codes, pos}
use httshark.Core.Snapshot.{LogConfig}

abbrev two_kept : LogConfig
two_kept = record {
  verbose = pos 0;
  log_snapshot_level = pos 1;
  log_snapshot_amount = pos 2;
  limited_error_length = pos 15;
}

abbrev three : List (Bytes × Bytes)
three = (codes "1", codes "a") ∷ (codes "2", codes "b") ∷ (codes "3", codes "c") ∷ []
