-- ===== src/Operations/Cancellation.antt =====
-- crates/caly-application/src/operations/cancellation.rs: the atomic cell that an operation's record
-- and the owner of its command share. Each method is one atomic step on the cell; the cell is kept
-- in its record, and the clones that owners hold read it.
pub mod Race
use caly.Base.{ℕ, Bool, ◌==◌, if◌then◌else◌}
use caly.Base.Result.{Result, ok, err}

-- The constants ACTIVE, CANCEL_REQUESTED and COMMITTED.
abbrev pub active : ℕ
active = 0

abbrev pub cancel_requested : ℕ
cancel_requested = 1

abbrev pub committed : ℕ
committed = 2

pub record OperationCancellationToken : Type 0 where
  pub cell : ℕ  -- an `AtomicU8`

pub data CancellationSignal : Type 0 where
  requested already_requested too_late : CancellationSignal

pub data CommitSignal : Type 0 where
  commits cancellation_won already_committed : CommitSignal

abbrev pub new_token : OperationCancellationToken
new_token = record { cell = active }

-- `AtomicU8::compare_exchange`: the new value of the cell, and the value found as `ok` or `err`.
abbrev pub compare_exchange : ℕ → ℕ → ℕ → ℕ × Result ℕ ℕ
compare_exchange cell current new = if cell == current then (new, ok cell) else (cell, err cell)

abbrev pub request_signal : Result ℕ ℕ → CancellationSignal
request_signal (ok _) = requested
request_signal (err seen) = if seen == cancel_requested then already_requested else too_late

abbrev pub commit_signal : Result ℕ ℕ → CommitSignal
commit_signal (ok _) = commits
commit_signal (err seen) = if seen == cancel_requested then cancellation_won else already_committed

unfoldable pub request_cancel :
    OperationCancellationToken → OperationCancellationToken × CancellationSignal
request_cancel t =
    let (cell, seen) = compare_exchange t.cell active cancel_requested in
    (record { cell = cell }, request_signal seen)

unfoldable pub mark_token : OperationCancellationToken → OperationCancellationToken × CommitSignal
mark_token t =
    let (cell, seen) = compare_exchange t.cell active committed in
    (record { cell = cell }, commit_signal seen)

abbrev pub is_cancel_requested : OperationCancellationToken → Bool
is_cancel_requested t = t.cell == cancel_requested

abbrev pub is_committed : OperationCancellationToken → Bool
is_committed t = t.cell == committed
