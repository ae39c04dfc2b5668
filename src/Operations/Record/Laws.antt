-- ===== src/Operations/Record/Laws.antt =====
-- What holds of every record that `record.rs` builds and moves.
use caly.Base.{ℕ, ◌≤◌, ◌≡◌, Bool, true, false, Option, arith}
use caly.Base.Result.{ok}
use caly.Domain.Text.{Text}
use caly.Domain.Operation.{
  OperationState, running, completed, failed, cancelled, is_terminal, OperationFailure,
}
use caly.Operations.Cancellation.{active, cancel_requested, committed}
use caly.Operations.Command.{Command}
use caly.Operations.Record.{
  OperationRecord, new_record, validate_failure, transition, mark_committed,
}

abbrev is_cancelled : OperationState → Bool
is_cancelled cancelled = true
is_cancelled _ = false

-- The cell that goes with a state and the commit flag.
abbrev pub expected_cell : OperationState → Bool → ℕ
expected_cell cancelled reached = cancel_requested
expected_cell _ true = committed
expected_cell _ false = active

abbrev pub may_have_committed : OperationState → Bool
may_have_committed running = true
may_have_committed completed = true
may_have_committed failed = true
may_have_committed _ = false

pub record IsValid (r : OperationRecord) : Type 0 where
  pub ordered : r.created_at ≤ r.updated_at
  pub explained : validate_failure r.state r.failure ≡ ok tt
  pub signalled : r.cancellation.cell ≡ expected_cell r.state r.commit_reached
  pub flagged : r.commit_reached ≡ true → may_have_committed r.state ≡ true

pub new_record-IsValid :
    (id : ℕ) (c : Command) (k : Text) (now : ℕ) → IsValid (new_record id c k now)
unfolding new_record
new_record-IsValid id c k now = ground arith

pub transition-IsValid :
    (r : OperationRecord) (target : OperationState) (now : ℕ) (f : Option OperationFailure)
    (r' : OperationRecord)
    → IsValid r
    → transition r target now f ≡ ok r'
    → IsValid r'
unfolding transition
transition-IsValid r target now f r' v e = ground arith

pub mark_committed-IsValid :
    (r r' : OperationRecord) → IsValid r → mark_committed r ≡ ok r' → IsValid r'
unfolding mark_committed
mark_committed-IsValid r r' v e = ground arith

-- What a transition changes: the state, the time, the failure and the token, and nothing else.
pub transition_keeps :
    (r : OperationRecord) (target : OperationState) (now : ℕ) (f : Option OperationFailure)
    (r' : OperationRecord)
    → transition r target now f ≡ ok r'
    → (r'.id ≡ r.id) × (r'.state ≡ target) × (is_terminal r.state ≡ false)
unfolding transition
transition_keeps r target now f r' e = ground arith

pub mark_committed_keeps :
    (r r' : OperationRecord)
    → mark_committed r ≡ ok r'
    → (r'.id ≡ r.id) × (r'.state ≡ r.state) × (r.state ≡ running)
unfolding mark_committed
mark_committed_keeps r r' e = ground arith
