-- ===== src/Operations/Record.antt =====
-- crates/caly-application/src/operations/record.rs: one operation and its legal transitions. A method
-- returns the record after the call and its result.
pub mod Laws
use caly.Base.{ℕ, Bool, true, false, not, ◌&&◌, ◌||◌, Option, none, ltb, if◌then◌else◌}
use caly.Base.Result.{Result, ok, err, ◌>>=◌}
use caly.Domain.Text.{Text}
use caly.Domain.Operation.{
  OperationState, pending, running, completed, failed, cancelled, OperationFailure, OperationStatus,
  OperationStatusError, new_status, failure_fits,
}
use caly.Operations.Cancellation.{
  OperationCancellationToken, too_late, CommitSignal, cancellation_won, new_token, request_cancel,
  mark_token,
}
use caly.Operations.Command.{Command, supports_running_cancellation}

pub record OperationRecord : Type 0 where
  pub id : ℕ
  pub command : Command
  pub kind : Text
  pub created_at : ℕ
  pub updated_at : ℕ
  pub state : OperationState
  pub failure : Option OperationFailure
  pub commit_reached : Bool
  pub cancellation : OperationCancellationToken

pub data TransitionError : Type 0 where
  time_moved_backwards : TransitionError
  illegal : (from to : OperationState) → TransitionError
  missing_failure unexpected_failure commit_outside_running : TransitionError
  commit_after_cancellation cancellation_after_commit : TransitionError

-- `OperationRecord::pending`.
unfoldable pub new_record : ℕ → Command → Text → ℕ → OperationRecord
new_record id command kind now = record {
  id = id;
  command = command;
  kind = kind;
  created_at = now;
  updated_at = now;
  state = pending;
  failure = none;
  commit_reached = false;
  cancellation = new_token;
}

abbrev pub legal_transition : OperationState → OperationState → Bool
legal_transition pending running = true
legal_transition pending cancelled = true
legal_transition running completed = true
legal_transition running failed = true
legal_transition running cancelled = true
legal_transition _ _ = false

abbrev pub validate_failure :
    OperationState → Option OperationFailure → Result TransitionError (Unit {0})
validate_failure = failure_fits missing_failure unexpected_failure

-- The `if target == Cancelled` block: only a cancellation touches the token.
abbrev pub signal_cancel :
    OperationCancellationToken → OperationState → Result TransitionError OperationCancellationToken
signal_cancel token cancelled =
    let (token', signal) = request_cancel token in
    elim signal [ too_late ↦ err cancellation_after_commit | _ ↦ ok token' ]
signal_cancel token _ = ok token

advance :
    OperationRecord
    → OperationState
    → ℕ
    → Option OperationFailure
    → Result TransitionError OperationRecord
unfolding request_cancel
advance r target now failure = do
  _ ← validate_failure target failure
  token ← signal_cancel r.cancellation target
  ok (record r { state = target; updated_at = now; failure = failure; cancellation = token })

unfoldable pub transition :
    OperationRecord
    → OperationState
    → ℕ
    → Option OperationFailure
    → Result TransitionError OperationRecord
unfolding advance
transition r target now failure =
    if ltb now r.updated_at
    then err time_moved_backwards
    else (if legal_transition r.state target
        then advance r target now failure
        else err (illegal r.state target))

abbrev pub is_running : OperationState → Bool
is_running running = true
is_running _ = false

abbrev pub is_pending : OperationState → Bool
is_pending pending = true
is_pending _ = false

abbrev pub after_commit :
    OperationRecord
    → OperationCancellationToken × CommitSignal
    → Result TransitionError OperationRecord
after_commit r (token, cancellation_won) = err commit_after_cancellation
after_commit r (token, _) = ok (record r { commit_reached = true; cancellation = token })

unfoldable pub mark_committed : OperationRecord → Result TransitionError OperationRecord
unfolding mark_token
mark_committed r =
    if is_running r.state
    then after_commit r (mark_token r.cancellation)
    else err commit_outside_running

abbrev pub can_cancel : OperationRecord → Bool
can_cancel r =
    not r.commit_reached
    && (is_pending r.state || (is_running r.state && supports_running_cancellation r.command))

unfoldable pub status : OperationRecord → Result OperationStatusError OperationStatus
unfolding new_status
status r = new_status r.id r.kind r.created_at r.updated_at r.state r.failure
