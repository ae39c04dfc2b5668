-- ===== src/Operations/Store/Finality.antt =====
-- Terminal operations of `store.rs` are final, and what `cancel` decides on every branch.
use caly.Base.{
  ℕ, ◌≤◌, ◌<◌, ◌≡◌, ◌≢◌, refl, sym, ◌∙◌, ◌⊎◌, true, false, Option, none, some, List, length, ltb,
  arith, Bool-cases, Option-cases, inl, inr,
}
use caly.Base.Result.{Result, ok, err}
use caly.Base.Table.{get, put, get-put, get-remove}
use caly.Domain.Operation.{
  OperationState, OperationFailure, is_terminal, cancelled, pending, running,
}
use caly.Operations.Cancellation.{is_cancel_requested, is_committed}
use caly.Operations.Command.{supports_running_cancellation}
use caly.Operations.Record.{
  OperationRecord, new_record, can_cancel, TransitionError, time_moved_backwards,
}
use caly.Operations.Record
use caly.Operations.Record.Laws.{IsValid, transition_keeps, mark_committed_keeps}
use caly.Operations.Store
use caly.Operations.Store.{
  OperationStore, StoreError, not_found, transition_error, decided_cancelled, already_terminal,
  too_late_to_cancel, insert, transition, cancel, mark_committed, remove_pending, retain_terminal,
}
use caly.Operations.Store.Eviction.{trim_shrinks}
use caly.Operations.Store.Invariant.{IsSound}
use caly.Operations.Store.Insertion.{make_room_shrinks}
use caly.Operations.Store.History.{
  Call, inserts, transitions, cancels, commits, removes, step, transition-retained,
}

-- One entry of a table afterwards: gone, or as it was.
abbrev pub GoneOrSame : ℕ → OperationRecord → List (ℕ × OperationRecord) → Type 0
GoneOrSame k r records = (get k records ≡ none) ⊎ (get k records ≡ some r)

gone_or_same :
    (k : ℕ) (r : OperationRecord) (records records' : List (ℕ × OperationRecord))
    → get k records ≡ some r
    → ((q : OperationRecord) → get k records' ≡ some q → get k records ≡ some q)
    → GoneOrSame k r records'
gone_or_same k r records records' held shrinks = elim (Option-cases (get k records')) [
  | inl e ↦ inl e
  | inr (q, e) ↦ inr (e ∙ sym (shrinks q e) ∙ held)
]

retain_shrinks :
    (s : OperationStore) (id k : ℕ) (r q : OperationRecord)
    → id ≢ k
    → get k (retain_terminal (Store.with_record s id r) id).records ≡ some q
    → get k s.records ≡ some q
unfolding retain_terminal
retain_shrinks s id k r q other e =
    let order = Store.enqueued id s.terminal_order in
    ground (
      arith,
      trim_shrinks k (length order) s.terminal_capacity order (put id r s.records) q e,
      get-put k id r s.records,
    )

module _ (s : OperationStore) (k : ℕ) (r : OperationRecord) (held : get k s.records ≡ some r)
    (ends : is_terminal r.state ≡ true) where
  settle_final :
      (id : ℕ) (target : OperationState) (m : Result TransitionError OperationRecord)
      → ((q : OperationRecord) → m ≡ ok q → id ≢ k)
      → GoneOrSame k r (Store.settle s id target m).0.records
  settle_final id target (err e) other = inr held
  settle_final id target (ok q) other = elim (Bool-cases (is_terminal target)) [
    | inl full ↦ rw full (
        gone_or_same k r s.records (retain_terminal (Store.with_record s id q) id).records held
          (λ p. retain_shrinks s id k q p (other q refl)))
    | inr active ↦ rw active (inr (ground (arith, get-put k id q s.records, other q refl)))
  ]

  transition_final :
      (id : ℕ) (target : OperationState) (now : ℕ) (f : Option OperationFailure)
      → GoneOrSame k r (transition s id target now f).0.records
  unfolding transition
  transition_final id target now f = elim (Option-cases (get id s.records)) [
    | inl e ↦ rw e (inr held)
    | inr (old, e) ↦ rw e (
        settle_final id target (Record.transition old target now f)
          (λ q moved same. ground (arith, transition_keeps old target now f q moved)))
  ]

  commit_final : (id : ℕ) → GoneOrSame k r (mark_committed s id).0.records
  unfolding mark_committed
  commit_final id = elim (Option-cases (get id s.records)) [
    | inl e ↦ rw e (inr held)
    | inr (old, e) ↦ rw e (stored old e (Record.mark_committed old) refl)
  ]
    where
      stored :
          (old : OperationRecord)
          → get id s.records ≡ some old
          → (m : Result TransitionError OperationRecord) → Record.mark_committed old ≡ m
          → GoneOrSame k r (Store.stored_commit s id m).0.records
      stored old e (err x) q = inr held
      stored old e (ok new) q =
          inr (ground (arith, mark_committed_keeps old new q, get-put k id new s.records))

  -- A completed, failed or cancelled operation never changes again: after any call it is evicted or
  -- stands as it was.
  pub step_final : (c : Call) → GoneOrSame k r (step s c).records
  unfolding step insert cancel remove_pending new_record
  step_final (inserts id command kind now) =
      gone_or_same k r s.records (insert s (new_record id command kind now)).0.records held (λ q.
        ground (
          arith,
          make_room_shrinks s k q,
          get-put k id (new_record id command kind now) (Store.make_room s).records,
        ))
  step_final (transitions id target now f) = transition_final id target now f
  step_final (cancels id now) = ground (arith, transition_final id cancelled now none)
  step_final (commits id) = commit_final id
  step_final (removes id) = ground (arith, get-remove k id s.records)

-- Work that has not begun, or has begun on a command that allows it, before its commit point.
abbrev pub Cancellable : OperationRecord → Type 0
Cancellable r =
    (r.commit_reached ≡ false)
    × ((r.state ≡ pending)
        ⊎ ((r.state ≡ running) × (supports_running_cancellation r.command ≡ true)))

-- What `cancel` decides and stores, on every branch.
pub data CancelOutcome (s : OperationStore) (id now : ℕ) : Type 0 where
  unknown : get id s.records ≡ none → cancel s id now ≡ (s, err not_found) → CancelOutcome s id now
  finished :
      (r : OperationRecord)
      → get id s.records ≡ some r
      → is_terminal r.state ≡ true
      → cancel s id now ≡ (s, ok already_terminal)
      → CancelOutcome s id now
  late :
      (r : OperationRecord)
      → get id s.records ≡ some r
      → r.state ≡ running
      → (r.commit_reached ≡ true) ⊎ (supports_running_cancellation r.command ≡ false)
      → cancel s id now ≡ (s, ok too_late_to_cancel)
      → CancelOutcome s id now
  backwards :
      (r : OperationRecord)
      → get id s.records ≡ some r
      → Cancellable r
      → now < r.updated_at
      → cancel s id now ≡ (s, err (transition_error time_moved_backwards))
      → CancelOutcome s id now
  signalled :
      (r r' : OperationRecord)
      → get id s.records ≡ some r
      → Cancellable r
      → r.updated_at ≤ now
      → is_committed r.cancellation ≡ false
      → (cancel s id now).1 ≡ ok decided_cancelled
      → get id (cancel s id now).0.records ≡ some r'
      → r'.state ≡ cancelled
      → is_cancel_requested r'.cancellation ≡ true
      → CancelOutcome s id now

cancel_moves :
    (r : OperationRecord) (now : ℕ)
    → IsValid r
    → can_cancel r ≡ true
    → (r.updated_at ≤ now)
    → (r' : OperationRecord) × (Record.transition r cancelled now none ≡ ok r')
      × (r'.state ≡ cancelled)
      × (is_cancel_requested r'.cancellation ≡ true)
      × (is_committed r.cancellation ≡ false)
unfolding Record.transition
cancel_moves r now v can h = (
  record r {
    state = cancelled;
    updated_at = now;
    failure = none;
    cancellation = record { cell = 1 };
  },
  ground arith,
  ground arith,
  ground arith,
  ground arith,
)

cancel_early :
    (r : OperationRecord) (now : ℕ)
    → now < r.updated_at
    → Record.transition r cancelled now none ≡ err time_moved_backwards
unfolding Record.transition
cancel_early r now h = ground arith

transition_refused :
    (s : OperationStore) (id : ℕ) (target : OperationState) (now : ℕ) (f : Option OperationFailure)
    (r : OperationRecord) (e : TransitionError)
    → get id s.records ≡ some r
    → Record.transition r target now f ≡ err e
    → transition s id target now f ≡ (s, err (transition_error e))
unfolding transition
transition_refused s id target now f r e held refused = rw (held, refused)

not_cancellable :
    (r : OperationRecord)
    → IsValid r
    → is_terminal r.state ≡ false
    → can_cancel r ≡ false
    → (r.state ≡ running)
      × ((r.commit_reached ≡ true) ⊎ (supports_running_cancellation r.command ≡ false))
not_cancellable r v active no_cancel = ground arith

cancellable : (r : OperationRecord) → can_cancel r ≡ true → Cancellable r
cancellable r can = ground arith

-- In a sound store, every `cancel` ends in one of five ways: the operation is unknown; it is terminal;
-- it is running, with its commit point reached or on a command that does not allow it; it could be
-- cancelled, but the clock moved backwards; or it could be, the clock did not, and it is cancelled,
-- with its token signalled, and stays in the store. An operation could be cancelled that has not
-- reached its commit point and is pending, or running on a command that allows it.
pub cancel_outcome : (s : OperationStore) (id now : ℕ) → IsSound s → CancelOutcome s id now
cancel_outcome s id now i = elim (Option-cases (get id s.records)) [
  | inl e ↦ unknown e (unfold cancel in rw e)
  | inr (r, e) ↦ elim (Bool-cases (is_terminal r.state)) [
    | inl ends ↦ finished r e ends (unfold cancel in rw (e, ends))
    | inr active ↦ elim (Bool-cases (can_cancel r)) [
      | inr no_cancel ↦
          let (runs, why) = not_cancellable r (i.valid id r e).1 active no_cancel in
          late r e runs why (unfold cancel in rw (e, active, no_cancel))
      | inl can ↦ elim (Bool-cases (ltb now r.updated_at)) [
        | inl early ↦ backwards r e (cancellable r can) (ground arith) (
            unfold cancel in
            rw (
              e,
              active,
              can,
              transition_refused s id cancelled now none r time_moved_backwards e
                  (cancel_early r now (ground arith)),
            ))
        | inr on_time ↦
            let (r', moved, at, signal, free) =
              cancel_moves r now (i.valid id r e).1 can (ground arith) in
            let (done, kept) = transition-retained s id cancelled now none r r' i e moved in
            signalled r r' e (cancellable r can) (ground arith) free
              (unfold cancel in rw (e, active, can) (ground (arith, done)))
              (unfold cancel in rw (e, active, can) (ground (arith, done, kept))) at signal
      ]
    ]
  ]
]
