-- ===== src/Operations/Admission/Submit.antt =====
-- What `AdmissionController::submit` does, on every branch.
use caly.Base.{
  ℕ, ◌≡◌, ◌≢◌, refl, ◌⊎◌, inl, inr, Bool, true, false, ◌&&◌, none, some, [], ◌∷◌, ◌++◌, length, ltb,
  arith, Bool-cases, Option-cases,
}
use mathlib.Core.Logic.{if_pos, if_neg}
use caly.Base.Result.{Result, ok, err}
use caly.Base.Table.{get, size, get-put, get-remove}
use caly.Domain.Text.{new_text}
use caly.Domain.Operation.{OperationStatus}
use caly.Operations.Command.{
  Command, Command-discrete, CommandEnvelope, CommandIngressError, CommandBus, kind, try_submit,
  apply_config, switch_core, select_proxy, select_proxy_group, set_mode, set_tun, set_system_proxy,
  set_system_proxy_pac, refresh_subscription, close_all_connections, stop_daemon, reload_config,
}
use caly.Operations.Record.{OperationRecord, new_record, status}
use caly.Operations.Record.Laws.{IsValid, new_record-IsValid}
use caly.Operations.Store
use caly.Operations.Store.{
  StoreError, InsertOutcome, OperationStore, holds_terminal, idempotency_conflict,
  resource_exhausted, inserted, make_room, with_record,
}
use caly.Operations.Store.Invariant.{IsSound}
use caly.Operations.Store.Insertion.{insert-exhausted_iff}
use caly.Operations.Admission.{
  AdmissionController, store_error, queue_error, operation_kind_max_bytes, submit, query, reserved,
}

-- Every operation kind is a text that `BoundedText<64>` accepts.
pub kind_bounded : (c : Command) → new_text operation_kind_max_bytes (kind c) ≡ ok (kind c)
unfolding kind new_text
kind_bounded (apply_config _) = refl
kind_bounded (switch_core _ _) = refl
kind_bounded (select_proxy _) = refl
kind_bounded (select_proxy_group _ _) = refl
kind_bounded (set_mode _) = refl
kind_bounded (set_tun _) = refl
kind_bounded (set_system_proxy _) = refl
kind_bounded (set_system_proxy_pac _) = refl
kind_bounded (refresh_subscription _ _ _) = refl
kind_bounded close_all_connections = refl
kind_bounded stop_daemon = refl
kind_bounded reload_config = refl

-- The status projection of a record.
abbrev pub status_of : OperationRecord → OperationStatus
status_of r = record {
  id = r.id;
  kind = r.kind;
  created_at = r.created_at;
  updated_at = r.updated_at;
  state = r.state;
  failure = r.failure;
}

-- A valid record always has a status.
pub status_total : (r : OperationRecord) → IsValid r → status r ≡ ok (status_of r)
unfolding status
status_total r v = ground arith

abbrev pub accepts : CommandBus → Bool
accepts bus = bus.is_open && ltb (length bus.queue) bus.capacity

pub submit_accepted :
    (bus : CommandBus) (e : CommandEnvelope)
    → accepts bus ≡ true
    → try_submit bus e ≡ (record bus { queue = bus.queue ++ e ∷ [] }, ok tt)
unfolding try_submit
submit_accepted bus e h = ground arith

pub submit_refused :
    (bus : CommandBus) (e : CommandEnvelope)
    → accepts bus ≡ false
    → (x : CommandIngressError) × (try_submit bus e ≡ (bus, err x))
unfolding try_submit
submit_refused bus e h = elim (Bool-cases bus.is_open) [
  | inl is_open ↦ (CommandIngressError.resource_exhausted e, ground arith)
  | inr shut ↦ (CommandIngressError.closed e, ground arith)
]

pub result_cases :
    (r : Result StoreError InsertOutcome)
    → (r ≡ err resource_exhausted) ⊎ (r ≢ err resource_exhausted)
result_cases (ok o) = inr (λ h. cc)
result_cases (err resource_exhausted) = inl refl
result_cases (err other) = inr (λ h. cc)

module _ {C : Type 0} (now : C → ℕ × C) (a : AdmissionController C) (e : CommandEnvelope) where
  -- The record that a new operation is reserved by.
  abbrev pub reservation : OperationRecord
  reservation = new_record e.operation_id e.command (kind e.command) (now a.clock).0

  -- The five ways in which `submit` ends: a replay, a conflict, a full store, a queue that takes no
  -- command (the reservation is rolled back), and an admission.
  pub data SubmitOutcome : Type 0 where
    replayed :
        (r : OperationRecord)
        → get e.operation_id a.store.records ≡ some r
        → r.command ≡ e.command
        → submit now a e ≡ (a, ok (status_of r))
        → SubmitOutcome
    conflicting :
        (r : OperationRecord)
        → get e.operation_id a.store.records ≡ some r
        → r.command ≢ e.command
        → submit now a e ≡ (a, err (store_error idempotency_conflict))
        → SubmitOutcome
    exhausted :
        get e.operation_id a.store.records ≡ none
        → size a.store.records ≡ a.store.total_capacity
        → ((k : ℕ) → holds_terminal (get k a.store.records) ≡ false)
        → (submit now a e).1 ≡ err (store_error resource_exhausted)
        → (submit now a e).0.ingress ≡ a.ingress
        → SubmitOutcome
    rejected :
        (x : CommandIngressError)
        → get e.operation_id a.store.records ≡ none
        → accepts a.ingress ≡ false
        → (submit now a e).1 ≡ err (queue_error x)
        → get e.operation_id (submit now a e).0.store.records ≡ none
        → (submit now a e).0.ingress ≡ a.ingress
        → SubmitOutcome
    admitted :
        get e.operation_id a.store.records ≡ none
        → accepts a.ingress ≡ true
        → (submit now a e).1 ≡ ok (status_of reservation)
        → get e.operation_id (submit now a e).0.store.records ≡ some reservation
        → (submit now a e).0.ingress.queue ≡ a.ingress.queue ++ e ∷ []
        → SubmitOutcome

  held_outcome :
      (r : OperationRecord)
      → get e.operation_id a.store.records ≡ some r
      → IsValid r
      → SubmitOutcome
  held_outcome r held v = elim (Command-discrete r.command e.command) [
    | yes same ↦
        replayed r held same (unfold submit in rw held (rw (if_pos _ same) (rw (status_total r v))))
    | no differs ↦ conflicting r held differs (unfold submit in rw held (rw (if_neg _ differs)))
  ]

  module _ (fresh : get e.operation_id a.store.records ≡ none) where
    pub submit_fresh :
        submit now a e
        ≡ reserved (record a { clock = (now a.clock).1 }) e (Store.insert a.store reservation)
    unfolding submit
    submit_fresh = rw fresh (rw (kind_bounded e.command))

    -- The store after the reservation.
    abbrev pub taken : OperationStore
    taken = with_record (make_room a.store) e.operation_id reservation

    submit_exhausted :
        (Store.insert a.store reservation).1 ≡ err resource_exhausted
        → ((submit now a e).1 ≡ err (store_error resource_exhausted))
          × ((submit now a e).0.ingress ≡ a.ingress)
    submit_exhausted h = ground (arith, submit_fresh)

    pub submit_taken :
        (Store.insert a.store reservation).1 ≢ err resource_exhausted
        → Store.insert a.store reservation ≡ (taken, ok inserted)
    unfolding new_record Store.insert
    submit_taken h = ground (arith, fresh)

    -- A queue that refuses the command undoes the reservation.
    submit_undone :
        (x : CommandIngressError)
        → Store.insert a.store reservation ≡ (taken, ok inserted)
        → try_submit a.ingress e ≡ (a.ingress, err x)
        → ((submit now a e).1 ≡ err (queue_error x))
          × (get e.operation_id (submit now a e).0.store.records ≡ none)
          × ((submit now a e).0.ingress ≡ a.ingress)
    unfolding Store.remove_pending new_record
    submit_undone x took refused =
        let here = get-put e.operation_id e.operation_id reservation (make_room a.store).records in
        let gone = get-remove e.operation_id e.operation_id taken.records in
        rw submit_fresh (
          rw (took, refused)
            (ground (arith, here, gone), ground (arith, here, gone), ground (arith, here)))

    submit_kept :
        Store.insert a.store reservation ≡ (taken, ok inserted)
        → try_submit a.ingress e ≡ (record a.ingress { queue = a.ingress.queue ++ e ∷ [] }, ok tt)
        → ((submit now a e).1 ≡ ok (status_of reservation))
          × (get e.operation_id (submit now a e).0.store.records ≡ some reservation)
          × ((submit now a e).0.ingress.queue ≡ a.ingress.queue ++ e ∷ [])
    unfolding query
    submit_kept took accepted =
        let here = get-put e.operation_id e.operation_id reservation (make_room a.store).records in
        let total =
          status_total reservation
            (new_record-IsValid e.operation_id e.command (kind e.command) (now a.clock).0) in
        rw submit_fresh
          (rw (took, accepted) (ground (arith, here, total), ground (arith, here), refl))

    fresh_outcome : IsSound a.store → SubmitOutcome
    fresh_outcome i = elim (result_cases (Store.insert a.store reservation).1) [
      | inl full ↦
          let (at_capacity, active) =
            (insert-exhausted_iff a.store i reservation (unfold new_record in fresh)).0 full in
          let (answer, untouched) = submit_exhausted full in
          exhausted fresh at_capacity active answer untouched
      | inr room ↦
          let took = submit_taken room in
          elim (Bool-cases (accepts a.ingress)) [
            | inl takes ↦
                let (answer, kept, sent) = submit_kept took (submit_accepted a.ingress e takes) in
                admitted fresh takes answer kept sent
            | inr refuses ↦
                let (x, refused) = submit_refused a.ingress e refuses in
                let (answer, gone, untouched) = submit_undone x took refused in
                rejected x fresh refuses answer gone untouched
          ]
    ]

  -- On a sound store, every `submit` ends in one of the five ways of `SubmitOutcome`. So no
  -- operation kind is refused, no rollback fails, and every answer is a well-formed status.
  pub submit_outcome : IsSound a.store → SubmitOutcome
  submit_outcome i = elim (Option-cases (get e.operation_id a.store.records)) [
    | inl fresh ↦ fresh_outcome fresh i
    | inr (r, held) ↦ held_outcome r held (i.valid e.operation_id r held).1
  ]
