-- ===== src/Operations/Admission.antt =====
-- crates/caly-application/src/operations/admission.rs: the controller that reserves an operation's
-- record before it queues the command. The time source is a parameter: a state and its `now`.
pub mod Submit
pub mod Calls
use caly.Base.{ℕ, Bool, true, false, Option, none, some, List, if◌then◌else◌}
use mathlib.Core.Logic.{ite}
use caly.Base.Result.{Result, ok, err, map_err, ok_or, ◌>>=◌}
use caly.Base.Table.{get}
use caly.Domain.Text.{Text, TextError, new_text}
use caly.Domain.Operation.{
  OperationState, running, completed, failed, OperationFailure, OperationStatus,
  OperationStatusError,
}
use caly.Operations.Cancellation.{OperationCancellationToken}
use caly.Operations.Command.{
  Command, Command-discrete, CommandEnvelope, CommandIngressError, CommandBus, kind, try_submit,
}
use caly.Operations.Record.{OperationRecord, new_record, status}
use caly.Operations.Store.{
  OperationStore, StoreError, InsertOutcome, inserted, existing, CancelDecision, not_found,
  idempotency_conflict,
}
use caly.Operations.Store

pub data AdmissionError : Type 0 where
  invalid_kind : TextError → AdmissionError
  store_error : StoreError → AdmissionError
  queue_error : CommandIngressError → AdmissionError
  queue_rollback : (queue : CommandIngressError) (rollback : StoreError) → AdmissionError
  status_error : OperationStatusError → AdmissionError

pub record AdmissionController (C : Type 0) : Type 0 where
  pub store : OperationStore
  pub ingress : CommandBus
  pub clock : C

-- `BoundedText<64>`, of the operation kinds.
abbrev pub operation_kind_max_bytes : ℕ
operation_kind_max_bytes = 64

unfoldable pub query : OperationStore → ℕ → Result AdmissionError OperationStatus
query s id = do
  r ← ok_or (get id s.records) (store_error not_found)
  map_err status_error (status r)

abbrev pub held_status : OperationRecord → Command → Result AdmissionError OperationStatus
held_status r command =
    ite (Command-discrete r.command command) (map_err status_error (status r))
      (err (store_error idempotency_conflict))

module _ {C : Type 0} where
  abbrev pub rolled_back :
      AdmissionController C
      → CommandIngressError
      → OperationStore × Result StoreError OperationRecord
      → AdmissionController C × Result AdmissionError OperationStatus
  rolled_back a queue (s, ok _) = (record a { store = s }, err (queue_error queue))
  rolled_back a queue (s, err e) = (record a { store = s }, err (queue_rollback queue e))

  abbrev pub queued :
      AdmissionController C
      → CommandEnvelope
      → CommandBus × Result CommandIngressError (Unit {0})
      → AdmissionController C × Result AdmissionError OperationStatus
  queued a envelope (bus, err e) =
      rolled_back (record a { ingress = bus }) e
        (Store.remove_pending a.store envelope.operation_id)
  queued a envelope (bus, ok _) = (record a { ingress = bus }, query a.store envelope.operation_id)

  abbrev pub reserved :
      AdmissionController C
      → CommandEnvelope
      → OperationStore × Result StoreError InsertOutcome
      → AdmissionController C × Result AdmissionError OperationStatus
  reserved a envelope (s, err e) = (record a { store = s }, err (store_error e))
  reserved a envelope (s, ok existing) = (record a { store = s }, query s envelope.operation_id)
  reserved a envelope (s, ok inserted) =
      queued (record a { store = s }) envelope (try_submit a.ingress envelope)

  abbrev pub queried :
      AdmissionController C
      → ℕ
      → OperationStore × Result StoreError (Unit {0})
      → AdmissionController C × Result AdmissionError OperationStatus
  queried a id (s, err e) = (record a { store = s }, err (store_error e))
  queried a id (s, ok _) = (record a { store = s }, query s id)

  abbrev pub decided :
      AdmissionController C
      → ℕ
      → OperationStore × Result StoreError CancelDecision
      → AdmissionController C × Result AdmissionError (CancelDecision × OperationStatus)
  decided a id (s, err e) = (record a { store = s }, err (store_error e))
  decided a id (s, ok d) = (record a { store = s }, query s id >>= λ st. ok (d, st))

module _ {C : Type 0} (now : C → ℕ × C) where
  abbrev pub named :
      AdmissionController C
      → CommandEnvelope
      → Result TextError Text
      → AdmissionController C × Result AdmissionError OperationStatus
  named a envelope (err e) = (a, err (invalid_kind e))
  named a envelope (ok k) =
      let (time, clock) = now a.clock in
      reserved (record a { clock = clock }) envelope
        (Store.insert a.store (new_record envelope.operation_id envelope.command k time))

  abbrev pub submit_found :
      Option OperationRecord
      → AdmissionController C
      → CommandEnvelope
      → AdmissionController C × Result AdmissionError OperationStatus
  submit_found (some r) a envelope = (a, held_status r envelope.command)
  submit_found none a envelope =
      named a envelope (new_text operation_kind_max_bytes (kind envelope.command))

  unfoldable pub submit :
      AdmissionController C
      → CommandEnvelope
      → AdmissionController C × Result AdmissionError OperationStatus
  submit a envelope = submit_found (get envelope.operation_id a.store.records) a envelope

  unfoldable pub transition :
      AdmissionController C
      → ℕ
      → OperationState
      → Option OperationFailure
      → AdmissionController C × Result AdmissionError OperationStatus
  transition a id state failure =
      let (time, clock) = now a.clock in
      queried (record a { clock = clock }) id (Store.transition a.store id state time failure)

  unfoldable pub start :
      AdmissionController C → ℕ → AdmissionController C × Result AdmissionError OperationStatus
  unfolding transition
  start a id = transition a id running none

  unfoldable pub complete :
      AdmissionController C → ℕ → AdmissionController C × Result AdmissionError OperationStatus
  unfolding transition
  complete a id = transition a id completed none

  unfoldable pub fail :
      AdmissionController C
      → ℕ
      → OperationFailure
      → AdmissionController C × Result AdmissionError OperationStatus
  unfolding transition
  fail a id failure = transition a id failed (some failure)

  unfoldable pub cancel :
      AdmissionController C
      → ℕ
      → AdmissionController C × Result AdmissionError (CancelDecision × OperationStatus)
  cancel a id =
      let (time, clock) = now a.clock in
      decided (record a { clock = clock }) id (Store.cancel a.store id time)

module _ {C : Type 0} where
  abbrev pub stored :
      AdmissionController C
      → OperationStore × Result StoreError (Unit {0})
      → AdmissionController C × Result AdmissionError (Unit {0})
  stored a (s, result) = (record a { store = s }, map_err store_error result)

  unfoldable pub mark_committed :
      AdmissionController C → ℕ → AdmissionController C × Result AdmissionError (Unit {0})
  mark_committed a id = stored a (Store.mark_committed a.store id)

  unfoldable pub cancellation_token :
      AdmissionController C → ℕ → Result AdmissionError OperationCancellationToken
  cancellation_token a id = map_err store_error (Store.cancellation_token a.store id)
