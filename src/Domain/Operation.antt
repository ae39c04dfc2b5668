-- ===== src/Domain/Operation.antt =====
-- crates/caly-domain/src/operation.rs: the lifecycle states, failures and status projection of an
-- operation. A `UnixMillis` is its number of milliseconds.
use caly.Base.{ℕ, Bool, true, false, Option, none, some, ltb, if◌then◌else◌}
use caly.Base.Result.{Result, ok, err, ◌>>=◌}
use caly.Domain.Text.{Text}

pub data OperationState : Type 0 where
  pending running completed failed cancelled : OperationState

pub OperationState-discrete : Discrete OperationState
OperationState-discrete = hlevel

abbrev pub is_terminal : OperationState → Bool
is_terminal completed = true
is_terminal failed = true
is_terminal cancelled = true
is_terminal _ = false

pub data OperationFailureCode : Type 0 where
  invalid_input conflict resource_exhausted unsupported deadline_exceeded : OperationFailureCode
  too_late_to_cancel infrastructure recovery_required : OperationFailureCode

pub record OperationFailure : Type 0 where
  pub code : OperationFailureCode
  pub message : Text
  pub suggested_action : Text

pub data OperationStatusError : Type 0 where
  time_moved_backwards missing_failure unexpected_failure : OperationStatusError

pub record OperationStatus : Type 0 where
  pub id : ℕ
  pub kind : Text
  pub created_at : ℕ
  pub updated_at : ℕ
  pub state : OperationState
  pub failure : Option OperationFailure

-- The `match (state, failure)` that `validate_status` and `validate_failure` share.
abbrev pub failure_fits {ℓ} :
    {E : Type ℓ} → E → E → OperationState → Option OperationFailure → Result E (Unit {0})
failure_fits missing unexpected failed none = err missing
failure_fits missing unexpected failed (some f) = ok tt
failure_fits missing unexpected _ none = ok tt
failure_fits missing unexpected _ (some f) = err unexpected

unfoldable pub validate_status :
    ℕ → ℕ → OperationState → Option OperationFailure → Result OperationStatusError (Unit {0})
validate_status created updated state failure =
    if ltb updated created
    then err time_moved_backwards
    else failure_fits missing_failure unexpected_failure state failure

unfoldable pub new_status :
    ℕ
    → Text
    → ℕ
    → ℕ
    → OperationState
    → Option OperationFailure
    → Result OperationStatusError OperationStatus
unfolding validate_status
new_status id kind created updated state failure = do
  _ ← validate_status created updated state failure
  ok (record {
    id = id;
    kind = kind;
    created_at = created;
    updated_at = updated;
    state = state;
    failure = failure;
  })
