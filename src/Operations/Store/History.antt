-- ===== src/Operations/Store/History.antt =====
-- What holds of the store of `store.rs` after any sequence of its calls.
use caly.Base.{
  ℕ, ◌≡◌, ◌≢◌, refl, ◌∙◌, false, not, Option, none, some, List, [], ◌∷◌, length, retain, ◌==◌,
  arith, Bool-cases, Option-cases, inl, inr,
}
use caly.Base.Result.{Result, ok, err}
use caly.Base.Table.{get, put, get-put, get-remove}
use caly.Domain.Text.{Text}
use caly.Domain.Operation.{OperationState, OperationFailure, is_terminal, cancelled}
use caly.Operations.Command.{Command}
use caly.Operations.Record.{OperationRecord, new_record, can_cancel}
use caly.Operations.Record
use caly.Operations.Record.Laws.{new_record-IsValid, transition_keeps}
use caly.Operations.Store
use caly.Operations.Store.{
  OperationStore, StoreError, InsertOutcome, holds_terminal, new_store, insert, transition, cancel,
  mark_committed, remove_pending, retain_terminal,
}
use caly.Operations.Store.Eviction.{trim_active, trim_last, put-Tracks}
use caly.Operations.Store.Invariant.{
  IsSound, transition-IsSound, mark_committed-IsSound, cancel-IsSound, remove_pending-IsSound,
}
use caly.Operations.Store.Insertion.{insert-IsSound, make_room_active}

-- The calls that change the store, with a record made by `OperationRecord::pending`.
pub data Call : Type 0 where
  inserts : (id : ℕ) (command : Command) (kind : Text) (now : ℕ) → Call
  transitions :
      (id : ℕ) (target : OperationState) (now : ℕ) (failure : Option OperationFailure) → Call
  cancels : (id now : ℕ) → Call
  commits removes : (id : ℕ) → Call

abbrev pub subject : Call → ℕ
subject (inserts id _ _ _) = id
subject (transitions id _ _ _) = id
subject (cancels id _) = id
subject (commits id) = id
subject (removes id) = id

unfoldable pub step : OperationStore → Call → OperationStore
step s (inserts id command kind now) = (insert s (new_record id command kind now)).0
step s (transitions id target now failure) = (transition s id target now failure).0
step s (cancels id now) = (cancel s id now).0
step s (commits id) = (mark_committed s id).0
step s (removes id) = (remove_pending s id).0

unfoldable pub run : OperationStore → List Call → OperationStore
run s [] = s
run s (c ∷ cs) = run (step s c) cs

pub inserted-IsSound :
    (s : OperationStore) (id : ℕ) (command : Command) (kind : Text) (now : ℕ)
    → IsSound s
    → IsSound (insert s (new_record id command kind now)).0
inserted-IsSound s id command kind now i = elim (Option-cases (get id s.records)) [
  | inl fresh ↦
      insert-IsSound s i (new_record id command kind now) (unfold new_record in fresh)
        (new_record-IsValid id command kind now) (unfold new_record in refl)
  | inr (r, held) ↦ unfold insert new_record in rw held i
]

pub step-IsSound : (s : OperationStore) (c : Call) → IsSound s → IsSound (step s c)
unfolding step
step-IsSound s (inserts id command kind now) i = inserted-IsSound s id command kind now i
step-IsSound s (transitions id target now failure) i = transition-IsSound s id target now failure i
step-IsSound s (cancels id now) i = cancel-IsSound s id now i
step-IsSound s (commits id) i = mark_committed-IsSound s id i
step-IsSound s (removes id) i = remove_pending-IsSound s id i

-- A sound store stays sound through every list of calls.
pub run-IsSound : (s : OperationStore) (cs : List Call) → IsSound s → IsSound (run s cs)
unfolding run
run-IsSound s [] i = i
run-IsSound s (c ∷ cs) i = run-IsSound (step s c) cs (step-IsSound s c i)

settled_active :
    (s : OperationStore) (k id : ℕ) (r : OperationRecord)
    → holds_terminal (get k s.records) ≡ false
    → id ≢ k
    → get k (retain_terminal (Store.with_record s id r) id).records ≡ get k s.records
unfolding retain_terminal
settled_active s k id r h other =
    let kept : get k (put id r s.records) ≡ get k s.records =
      ground (arith, get-put k id r s.records) in
    let order = Store.enqueued id s.terminal_order in
    trim_active k (length order) s.terminal_capacity order (put id r s.records) (rw kept h) ∙ kept

settle_active :
    (s : OperationStore) (k id : ℕ) (target : OperationState)
    (m : Result Record.TransitionError OperationRecord)
    → holds_terminal (get k s.records) ≡ false
    → id ≢ k
    → get k (Store.settle s id target m).0.records ≡ get k s.records
settle_active s k id target (err e) h other = refl
settle_active s k id target (ok r) h other =
    ground (arith, settled_active s k id r h other, get-put k id r s.records)

transition_active :
    (s : OperationStore) (k id : ℕ) (target : OperationState) (now : ℕ)
    (f : Option OperationFailure)
    → holds_terminal (get k s.records) ≡ false
    → id ≢ k
    → get k (transition s id target now f).0.records ≡ get k s.records
unfolding transition
transition_active s k id target now f h other = elim (Option-cases (get id s.records)) [
  | inl e ↦ rw e
  | inr (r, e) ↦ rw e (settle_active s k id target (Record.transition r target now f) h other)
]

commit_active :
    (s : OperationStore) (k id : ℕ) (m : Result Record.TransitionError OperationRecord)
    → id ≢ k
    → get k (Store.stored_commit s id m).0.records ≡ get k s.records
commit_active s k id (err e) other = refl
commit_active s k id (ok r) other = ground (arith, get-put k id r s.records)

mark_committed_active :
    (s : OperationStore) (k id : ℕ)
    → id ≢ k
    → get k (mark_committed s id).0.records ≡ get k s.records
unfolding mark_committed
mark_committed_active s k id other = elim (Option-cases (get id s.records)) [
  | inl e ↦ rw e
  | inr (r, e) ↦ rw e (commit_active s k id (Record.mark_committed r) other)
]

step_active :
    (s : OperationStore) (c : Call) (k : ℕ)
    → holds_terminal (get k s.records) ≡ false
    → subject c ≢ k
    → get k (step s c).records ≡ get k s.records
unfolding step insert new_record cancel remove_pending
step_active s (inserts id command kind now) k h other = ground (
  arith,
  make_room_active s k h,
  get-put k id (new_record id command kind now) (Store.make_room s).records,
)
step_active s (transitions id target now f) k h other =
    transition_active s k id target now f h other
step_active s (cancels id now) k h other =
    ground (arith, transition_active s k id cancelled now none h other)
step_active s (commits id) k h other = mark_committed_active s k id other
step_active s (removes id) k h other = ground (arith, get-remove k id s.records)

abbrev pub Avoids : ℕ → List Call → Type 0
Avoids k [] = Unit {0}
Avoids k (c ∷ cs) = (subject c ≢ k) × Avoids k cs

-- An operation that is not terminal keeps its record, unchanged, through any history of calls about
-- other operations: no admission or retention ever evicts it.
pub run-active :
    (s : OperationStore) (cs : List Call) (k : ℕ)
    → holds_terminal (get k s.records) ≡ false
    → Avoids k cs
    → get k (run s cs).records ≡ get k s.records
unfolding run
run-active s [] k h a = refl
run-active s (c ∷ cs) k h a =
    let kept = step_active s c k h a.0 in run-active (step s c) cs k (rw kept h) a.1 ∙ kept

-- In a sound store, a transition that the record allows succeeds and leaves the operation in the store, in the state asked for, also where it
-- has just joined a full eviction queue.
pub transition-retained :
    (s : OperationStore) (id : ℕ) (target : OperationState) (now : ℕ) (f : Option OperationFailure)
    (old r : OperationRecord)
    → IsSound s
    → get id s.records ≡ some old
    → Record.transition old target now f ≡ ok r
    → ((transition s id target now f).1 ≡ ok tt)
      × (get id (transition s id target now f).0.records ≡ some r)
unfolding transition retain_terminal
transition-retained s id target now f old r i held moved =
    rw (held, moved)
      (
        refl,
        elim (Bool-cases (is_terminal target)) [
          | inl ends ↦ rw ends (
              trim_last (length (Store.enqueued id s.terminal_order)) s.terminal_capacity id
                (retain (λ c. not (c == id)) s.terminal_order) (put id r s.records)
                (put-Tracks id r s.terminal_order s.records i.tracks
                  (rw (transition_keeps old target now f r moved).1 ends))
                i.retains
              ∙ ground (arith, get-put id id r s.records))
          | inr goes_on ↦ rw goes_on (ground (arith, get-put id id r s.records))
        ],
      )
