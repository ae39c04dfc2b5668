-- ===== src/Operations/Store.antt =====
-- crates/caly-application/src/operations/store.rs: the bounded store of operations. `records` is the
-- hash map, `terminal_order` the eviction queue, oldest first. A method returns the store after the
-- call and its result, since some failing calls have already evicted a record.
pub mod Eviction
pub mod Invariant
pub mod Insertion
pub mod History
pub mod Finality
use caly.Base.{
  ℕ, zero, suc, Bool, false, not, Option, none, some, List, [], ◌∷◌, ◌++◌, length, retain, ltb,
  ◌==◌, if◌then◌else◌, ◌||◌,
}
use mathlib.Core.Logic.{ite}
use caly.Base.Result.{Result, ok, err, ok_or, ◌>>=◌}
use caly.Base.Table.{get, put, remove, size}
use caly.Domain.Operation.{OperationState, cancelled, OperationFailure, is_terminal}
use caly.Operations.Cancellation.{OperationCancellationToken}
use caly.Operations.Command.{Command, Command-discrete}
use caly.Operations.Record.{OperationRecord, TransitionError, can_cancel, is_pending}
use caly.Operations.Record

pub data InsertOutcome : Type 0 where
  inserted existing : InsertOutcome

pub data CancelDecision : Type 0 where
  decided_cancelled already_terminal too_late_to_cancel : CancelDecision

pub data StoreError : Type 0 where
  invalid_capacity resource_exhausted idempotency_conflict not_found not_pending : StoreError
  transition_error : TransitionError → StoreError

pub record OperationStore : Type 0 where
  pub records : List (ℕ × OperationRecord)
  pub terminal_order : List ℕ
  pub total_capacity : ℕ
  pub terminal_capacity : ℕ

unfoldable pub new_store : ℕ → ℕ → Result StoreError OperationStore
new_store total terminal =
    if terminal == 0 || ltb total terminal
    then err invalid_capacity
    else ok (record {
      records = [];
      terminal_order = [];
      total_capacity = total;
      terminal_capacity = terminal;
    })

abbrev pub holds_terminal : Option OperationRecord → Bool
holds_terminal none = false
holds_terminal (some r) = is_terminal r.state

-- `evict_oldest_terminal`, over the two fields that it changes.
unfoldable pub evict : List ℕ → List (ℕ × OperationRecord) → List ℕ × List (ℕ × OperationRecord)
evict [] records = ([], records)
evict (expired ∷ order) records =
    if holds_terminal (get expired records)
    then (order, remove expired records)
    else evict order records

-- The `while` loop of `retain_terminal`, on fuel: every round takes an entry off the queue.
unfoldable pub trim :
    ℕ → ℕ → List ℕ → List (ℕ × OperationRecord) → List ℕ × List (ℕ × OperationRecord)
trim zero capacity order records = (order, records)
trim (suc fuel) capacity order records =
    let (order', records') = evict order records in
    let rest = trim fuel capacity order' records' in
    if ltb capacity (length order) then rest else (order, records)

abbrev pub with_queue : OperationStore → List ℕ × List (ℕ × OperationRecord) → OperationStore
with_queue s (order, records) = record s { terminal_order = order; records = records }

unfoldable pub evict_oldest_terminal : OperationStore → OperationStore
evict_oldest_terminal s = with_queue s (evict s.terminal_order s.records)

abbrev pub enqueued : ℕ → List ℕ → List ℕ
enqueued id order = retain (λ candidate. not (candidate == id)) order ++ id ∷ []

unfoldable pub retain_terminal : OperationStore → ℕ → OperationStore
retain_terminal s id =
    let order = enqueued id s.terminal_order in
    with_queue s (trim (length order) s.terminal_capacity order s.records)

abbrev pub with_record : OperationStore → ℕ → OperationRecord → OperationStore
with_record s id r = record s { records = put id r s.records }

abbrev pub replay : OperationRecord → Command → Result StoreError InsertOutcome
replay held command =
    ite (Command-discrete held.command command) (ok existing) (err idempotency_conflict)

unfoldable pub make_room : OperationStore → OperationStore
make_room s = if size s.records == s.total_capacity then evict_oldest_terminal s else s

abbrev pub insert_fresh :
    OperationStore → OperationRecord → OperationStore × Result StoreError InsertOutcome
insert_fresh s r =
    if size s.records == s.total_capacity
    then (s, err resource_exhausted)
    else (with_record s r.id r, ok inserted)

abbrev pub insert_found :
    Option OperationRecord
    → OperationStore
    → OperationRecord
    → OperationStore × Result StoreError InsertOutcome
insert_found (some held) s r = (s, replay held r.command)
insert_found none s r = insert_fresh (make_room s) r

unfoldable pub insert :
    OperationStore → OperationRecord → OperationStore × Result StoreError InsertOutcome
insert s r = insert_found (get r.id s.records) s r

unfoldable pub cancellation_token :
    OperationStore → ℕ → Result StoreError OperationCancellationToken
cancellation_token s id = do r ← ok_or (get id s.records) not_found; ok r.cancellation

abbrev pub settle :
    OperationStore
    → ℕ
    → OperationState
    → Result TransitionError OperationRecord
    → OperationStore × Result StoreError (Unit {0})
settle s id target (err e) = (s, err (transition_error e))
settle s id target (ok r) = (
  if is_terminal target then retain_terminal (with_record s id r) id else with_record s id r,
  ok tt,
)

abbrev pub transition_found :
    Option OperationRecord
    → OperationStore
    → ℕ
    → OperationState
    → ℕ
    → Option OperationFailure
    → OperationStore × Result StoreError (Unit {0})
transition_found none s id target now failure = (s, err not_found)
transition_found (some r) s id target now failure =
    settle s id target (Record.transition r target now failure)

unfoldable pub transition :
    OperationStore
    → ℕ
    → OperationState
    → ℕ
    → Option OperationFailure
    → OperationStore × Result StoreError (Unit {0})
transition s id target now failure = transition_found (get id s.records) s id target now failure

abbrev pub remove_found :
    Option OperationRecord → OperationStore → ℕ → OperationStore × Result StoreError OperationRecord
remove_found none s id = (s, err not_found)
remove_found (some r) s id =
    if is_pending r.state
    then (record s { records = remove id s.records }, ok r)
    else (s, err not_pending)

unfoldable pub remove_pending :
    OperationStore → ℕ → OperationStore × Result StoreError OperationRecord
remove_pending s id = remove_found (get id s.records) s id

abbrev pub cancelled_if :
    OperationStore × Result StoreError (Unit {0})
    → OperationStore × Result StoreError CancelDecision
cancelled_if (s, ok _) = (s, ok decided_cancelled)
cancelled_if (s, err e) = (s, err e)

abbrev pub cancel_found :
    Option OperationRecord
    → OperationStore
    → ℕ
    → ℕ
    → OperationStore × Result StoreError CancelDecision
cancel_found none s id now = (s, err not_found)
cancel_found (some r) s id now =
    if is_terminal r.state
    then (s, ok already_terminal)
    else (if can_cancel r
        then cancelled_if (transition s id cancelled now none)
        else (s, ok too_late_to_cancel))

unfoldable pub cancel : OperationStore → ℕ → ℕ → OperationStore × Result StoreError CancelDecision
cancel s id now = cancel_found (get id s.records) s id now

abbrev pub stored_commit :
    OperationStore
    → ℕ
    → Result TransitionError OperationRecord
    → OperationStore × Result StoreError (Unit {0})
stored_commit s id (ok r) = (with_record s id r, ok tt)
stored_commit s id (err e) = (s, err (transition_error e))

abbrev pub commit_found :
    Option OperationRecord → OperationStore → ℕ → OperationStore × Result StoreError (Unit {0})
commit_found none s id = (s, err not_found)
commit_found (some r) s id = stored_commit s id (Record.mark_committed r)

unfoldable pub mark_committed : OperationStore → ℕ → OperationStore × Result StoreError (Unit {0})
mark_committed s id = commit_found (get id s.records) s id
