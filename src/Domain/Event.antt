-- ===== src/Domain/Event.antt =====
-- crates/caly-domain/src/event.rs: sequence numbers, which are `u64` values, and cursors.
use caly.Base.{ℕ, ◌+◌, ltb, leb, ◌==◌, if◌then◌else◌}
use caly.Base.Result.{Result, ok, err}

abbrev pub u64_max : ℕ
u64_max = 18446744073709551615

pub data SequenceExhausted : Type 0 where
  sequence_exhausted : SequenceExhausted

-- `checked_add(1)` on a `u64`.
unfoldable pub checked_next : ℕ → Result SequenceExhausted ℕ
checked_next n = if ltb n u64_max then ok (n + 1) else err sequence_exhausted

pub record EventCursor : Type 0 where
  pub daemon_instance : ℕ
  pub sequence : ℕ

pub data CursorDisposition : Type 0 where
  apply stale full_snapshot_required : CursorDisposition

abbrev pub expected_disposition : Result SequenceExhausted ℕ → ℕ → CursorDisposition
expected_disposition (ok expected) incoming =
    if expected == incoming then apply else full_snapshot_required
expected_disposition (err _) incoming = full_snapshot_required

unfoldable pub classify_cursor : EventCursor → EventCursor → CursorDisposition
unfolding checked_next
classify_cursor current incoming =
    if current.daemon_instance == incoming.daemon_instance
    then (if leb incoming.sequence current.sequence
        then stale
        else expected_disposition (checked_next current.sequence) incoming.sequence)
    else full_snapshot_required
