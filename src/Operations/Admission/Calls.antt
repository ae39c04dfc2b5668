-- ===== src/Operations/Admission/Calls.antt =====
-- The calls of the store that the methods of the admission controller come to.
use caly.Base.{
  ℕ, ◌≡◌, ◌≢◌, refl, subst, ap, sym, ◌∙◌, inl, inr, true, false, Option, none, some, List, [], ◌∷◌,
  ◌++◌, arith, Bool-cases, Option-cases, if◌then◌else◌,
}
use caly.Base.Result.{Result, ok, err}
use caly.Base.Table.{get}
use caly.Domain.Operation.{OperationFailure, running, completed, failed}
use caly.Operations.Command.{CommandEnvelope, kind, CommandIngressError}
use caly.Operations.Record.{OperationRecord, new_record}
use caly.Operations.Store
use caly.Operations.Store.{OperationStore, StoreError, CancelDecision, resource_exhausted}
use caly.Operations.Store.Invariant.{IsSound}
use caly.Operations.Store.History.{Call, inserts, transitions, removes, step, run, run-IsSound}
use caly.Operations.Store.History
use caly.Operations.Store.Insertion.{make_room_active}
use caly.Operations.Admission
use caly.Operations.Admission.{
  AdmissionController, submit, start, complete, fail, cancel, mark_committed,
}
use caly.Operations.Admission.Submit.{
  accepts, reservation, submit_accepted, submit_refused, result_cases, submit_fresh, submit_taken,
  taken,
}

-- The methods that change the controller.
pub data Request : Type 0 where
  submits : (envelope : CommandEnvelope) → Request
  starts completes cancels commits : (id : ℕ) → Request
  fails : (id : ℕ) (failure : OperationFailure) → Request

run-append : (s : OperationStore) (cs ds : List Call) → run s (cs ++ ds) ≡ run (run s cs) ds
unfolding run
run-append s [] ds = refl
run-append s (c ∷ cs) ds = run-append (step s c) cs ds

module _ {C : Type 0} where
  queried-store :
      (a : AdmissionController C) (id : ℕ) (p : OperationStore × Result StoreError (Unit {0}))
      → (Admission.queried a id p).0.store ≡ p.0
  queried-store a id (s, ok _) = refl
  queried-store a id (s, err e) = refl

  decided-store :
      (a : AdmissionController C) (id : ℕ) (p : OperationStore × Result StoreError CancelDecision)
      → (Admission.decided a id p).0.store ≡ p.0
  decided-store a id (s, ok d) = refl
  decided-store a id (s, err e) = refl

  rolled_back-store :
      (a : AdmissionController C) (x : CommandIngressError)
      (p : OperationStore × Result StoreError OperationRecord)
      → (Admission.rolled_back a x p).0.store ≡ p.0
  rolled_back-store a x (s, ok r) = refl
  rolled_back-store a x (s, err e) = refl

module _ {C : Type 0} (now : C → ℕ × C) where
  unfoldable pub handle : AdmissionController C → Request → AdmissionController C
  unfolding submit start complete cancel mark_committed fail
  handle a (submits e) = (submit now a e).0
  handle a (starts id) = (start now a id).0
  handle a (completes id) = (complete now a id).0
  handle a (cancels id) = (cancel now a id).0
  handle a (commits id) = (mark_committed a id).0
  handle a (fails id failure) = (fail now a id failure).0

  unfoldable pub handle_all : AdmissionController C → List Request → AdmissionController C
  handle_all a [] = a
  handle_all a (q ∷ qs) = handle_all (handle a q) qs

  -- A new command is reserved, and the reservation is taken back where the queue accepts nothing.
  abbrev submit_calls : AdmissionController C → CommandEnvelope → Option OperationRecord → List Call
  submit_calls a e (some held) = []
  submit_calls a e none =
      inserts e.operation_id e.command (kind e.command) (now a.clock).0
      ∷ (if accepts a.ingress then [] else removes e.operation_id ∷ [])

  -- The calls of the store that a request stands for, at the time of the clock.
  abbrev pub calls : AdmissionController C → Request → List Call
  calls a (submits e) = submit_calls a e (get e.operation_id a.store.records)
  calls a (starts id) = transitions id running (now a.clock).0 none ∷ []
  calls a (completes id) = transitions id completed (now a.clock).0 none ∷ []
  calls a (fails id failure) = transitions id failed (now a.clock).0 (some failure) ∷ []
  calls a (cancels id) = History.cancels id (now a.clock).0 ∷ []
  calls a (commits id) = History.commits id ∷ []

  abbrev pub all_calls : AdmissionController C → List Request → List Call
  all_calls a [] = []
  all_calls a (q ∷ qs) = calls a q ++ all_calls (handle a q) qs

  -- The controller after the clock was read.
  abbrev timed : AdmissionController C → AdmissionController C
  timed a = record a { clock = (now a.clock).1 }

  module _ (a : AdmissionController C) (e : CommandEnvelope)
      (fresh : get e.operation_id a.store.records ≡ none) where
    abbrev reserve : Call
    reserve = inserts e.operation_id e.command (kind e.command) (now a.clock).0

    -- A reservation that the store refuses leaves nothing to take back.
    refused-removes :
        (Store.insert a.store (reservation now a e)).1 ≡ err resource_exhausted
        → (Store.remove_pending (step a.store reserve) e.operation_id).0 ≡ step a.store reserve
    unfolding step Store.remove_pending Store.insert new_record
    refused-removes full =
        let room = make_room_active a.store e.operation_id (rw fresh refl) in
        ground (arith, fresh, room)

    exhausted-store :
        (Store.insert a.store (reservation now a e)).1 ≡ err resource_exhausted
        → (submit now a e).0.store ≡ step a.store reserve
    unfolding step
    exhausted-store full = ap (λ p. p.0.store) (submit_fresh now a e fresh) ∙ ground (arith, full)

    queued-store :
        (Store.insert a.store (reservation now a e)).1 ≢ err resource_exhausted
        → accepts a.ingress ≡ true
        → (submit now a e).0.store ≡ step a.store reserve
    unfolding step
    queued-store room takes =
        let took = submit_taken now a e fresh room in
        ap (λ p. p.0.store) (submit_fresh now a e fresh)
        ∙ ap (λ p. (Admission.reserved (timed a) e p).0.store) took
        ∙ ap
            (λ p. (Admission.queued (record (timed a) { store = taken now a e fresh }) e p).0.store)
            (submit_accepted a.ingress e takes)
        ∙ sym (ap (λ p. p.0) took)

    undone-store :
        (Store.insert a.store (reservation now a e)).1 ≢ err resource_exhausted
        → accepts a.ingress ≡ false
        → (submit now a e).0.store ≡ (Store.remove_pending (step a.store reserve) e.operation_id).0
    unfolding step
    undone-store room refuses =
        let took = submit_taken now a e fresh room in
        let (x, refused) = submit_refused a.ingress e refuses in
        let gone = Store.remove_pending (taken now a e fresh) e.operation_id in
        ap (λ p. p.0.store) (submit_fresh now a e fresh)
        ∙ ap (λ p. (Admission.reserved (timed a) e p).0.store) took
        ∙ ap
            (λ p. (Admission.queued (record (timed a) { store = taken now a e fresh }) e p).0.store)
            refused
        ∙ rolled_back-store (record (timed a) { store = taken now a e fresh }) x gone
        ∙ sym (ap (λ p. (Store.remove_pending p.0 e.operation_id).0) took)

    submit_fresh-calls : (submit now a e).0.store ≡ run a.store (submit_calls a e none)
    unfolding run step
    submit_fresh-calls = elim (Bool-cases (accepts a.ingress)) [
      | inl takes ↦ elim (result_cases (Store.insert a.store (reservation now a e)).1) [
        | inl full ↦ rw takes (exhausted-store full)
        | inr room ↦ rw takes (queued-store room takes)
      ]
      | inr refuses ↦ elim (result_cases (Store.insert a.store (reservation now a e)).1) [
        | inl full ↦ rw refuses (exhausted-store full ∙ sym (refused-removes full))
        | inr room ↦ rw refuses (undone-store room refuses)
      ]
    ]

  held-store :
      (a : AdmissionController C) (e : CommandEnvelope) (r : OperationRecord)
      → get e.operation_id a.store.records ≡ some r
      → (submit now a e).0.store ≡ a.store
  unfolding submit
  held-store a e r held = ap (λ o. (Admission.submit_found now o a e).0.store) held

  handle-calls :
      (a : AdmissionController C) (q : Request) → (handle a q).store ≡ run a.store (calls a q)
  unfolding handle run step Admission.transition
  handle-calls a (starts id) = queried-store (timed a) id _
  handle-calls a (completes id) = queried-store (timed a) id _
  handle-calls a (fails id failure) = queried-store (timed a) id _
  handle-calls a (cancels id) = decided-store (timed a) id _
  handle-calls a (commits id) = refl
  handle-calls a (submits e) = elim (Option-cases (get e.operation_id a.store.records)) [
    | inl fresh ↦ rw fresh (submit_fresh-calls a e fresh)
    | inr (r, held) ↦ rw held (held-store a e r held)
  ]

  -- Through any sequence of the controller's methods, its store goes through these calls and no other:
  -- a new command is inserted as a pending record at the time of the clock, and removed again where
  -- the queue is closed or full; a start, a completion and a failure move that operation to running,
  -- completed and failed at the time of the clock, a cancellation and a commit are those of that
  -- operation. So a sound store stays sound.
  pub handle_all-calls :
      (a : AdmissionController C) (qs : List Request)
      → IsSound a.store
      → ((handle_all a qs).store ≡ run a.store (all_calls a qs)) × IsSound (handle_all a qs).store
  unfolding handle_all run
  handle_all-calls a [] i = (refl, i)
  handle_all-calls a (q ∷ qs) i =
      let here = handle-calls a q in
      let sound = subst IsSound (sym here) (run-IsSound a.store (calls a q) i) in
      let (rest, ends) = handle_all-calls (handle a q) qs sound in
      (
        rest
            ∙ ap (λ s. run s (all_calls (handle a q) qs)) here
            ∙ sym (run-append a.store (calls a q) (all_calls (handle a q) qs)),
        ends,
      )
