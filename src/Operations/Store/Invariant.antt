-- ===== src/Operations/Store/Invariant.antt =====
-- What holds of the operation store between two calls.
use caly.Base.{
  ℕ, ◌≤◌, ◌<◌, ◌≡◌, refl, sym, ap, ◌∙◌, true, false, Option, none, some, List, [], ◌∷◌, length,
  ◌==◌, arith, Bool-cases, Option-cases, inl, inr,
}
use caly.Base.Result.{Result, ok, err}
use caly.Base.Table.{
  get, put, remove, size, IsKeyed, get-put, get-remove, put-IsKeyed, remove-IsKeyed, size-put_fresh,
  size-put_held, size-remove-le,
}
use caly.Domain.Operation.{OperationState, cancelled, OperationFailure, is_terminal}
use caly.Operations.Record.{OperationRecord}
use caly.Operations.Record
use caly.Operations.Record.Laws.{
  IsValid, transition-IsValid, mark_committed-IsValid, transition_keeps, mark_committed_keeps,
}
use caly.Operations.Store
use caly.Operations.Store.{
  OperationStore, StoreError, holds_terminal, evict, trim, new_store, with_record, with_queue,
  enqueued, retain_terminal, make_room, evict_oldest_terminal, insert, transition, remove_pending,
  cancel, mark_committed,
}
use caly.Operations.Store.Eviction.{
  Tracks, trim_shrinks, evict_oldest, evict-Tracks, trim-Tracks, length-trim, put-Tracks,
  size-trim-le,
}

-- Every record stands under its own identity and is valid.
abbrev pub RecordsValid : List (ℕ × OperationRecord) → Type 0
RecordsValid records =
    (k : ℕ) (r : OperationRecord) → get k records ≡ some r → (r.id ≡ k) × IsValid r

pub record IsSound (s : OperationStore) : Type 0 where
  pub tracks : Tracks s.terminal_order s.records
  pub valid : RecordsValid s.records
  pub bounded : size s.records ≤ s.total_capacity
  pub queue_bounded : length s.terminal_order ≤ s.terminal_capacity
  pub retains : 0 < s.terminal_capacity
  pub fits : s.terminal_capacity ≤ s.total_capacity

pub new_store-IsSound :
    (total terminal : ℕ) {s : OperationStore} → new_store total terminal ≡ ok s → IsSound s
unfolding new_store get size IsKeyed
new_store-IsSound total terminal e = ground arith

put-RecordsValid :
    (id : ℕ) (r : OperationRecord) (records : List (ℕ × OperationRecord))
    → RecordsValid records
    → (r.id ≡ id) × IsValid r
    → RecordsValid (put id r records)
put-RecordsValid id r records v h k q e = ground (arith, get-put k id r records, v k q, h.0, h.1)

-- A change of a record that stays active, or stays terminal.
update-IsSound :
    (s : OperationStore) (id : ℕ) (old r : OperationRecord)
    → IsSound s
    → get id s.records ≡ some old
    → is_terminal r.state ≡ is_terminal old.state
    → (r.id ≡ id) × IsValid r
    → IsSound (with_record s id r)
update-IsSound s id old r i held same v = record {
  tracks = record {
    keyed = put-IsKeyed id r s.records i.tracks.keyed;
    distinct = i.tracks.distinct;
    agrees = λ k. ground (arith, i.tracks.agrees k, get-put k id r s.records);
  };
  valid = put-RecordsValid id r s.records i.valid v;
  bounded = omega (arith, size-put_held id r old s.records held, i.bounded);
  queue_bounded = i.queue_bounded;
  retains = i.retains;
  fits = i.fits;
}

-- A record that becomes terminal joins the queue, which is then cut to its capacity.
retain-IsSound :
    (s : OperationStore) (id : ℕ) (old r : OperationRecord)
    → IsSound s
    → get id s.records ≡ some old
    → is_terminal r.state ≡ true
    → (r.id ≡ id) × IsValid r
    → IsSound (retain_terminal (with_record s id r) id)
unfolding retain_terminal
retain-IsSound s id old r i held now v =
    let order = enqueued id s.terminal_order in
    let records = put id r s.records in
    let t : Tracks order records = put-Tracks id r s.terminal_order s.records i.tracks now in
    record {
      tracks = trim-Tracks (length order) s.terminal_capacity order records t;
      valid = λ k q e.
          put-RecordsValid id r s.records i.valid v k q
            (trim_shrinks k (length order) s.terminal_capacity order records q e);
      bounded = omega (
        arith,
        size-put_held id r old s.records held,
        size-trim-le (length order) s.terminal_capacity order records,
        i.bounded,
      );
      queue_bounded = length-trim (length order) s.terminal_capacity order records t (omega arith);
      retains = i.retains;
      fits = i.fits;
    }

pub transition-IsSound :
    (s : OperationStore) (id : ℕ) (target : OperationState) (now : ℕ) (f : Option OperationFailure)
    → IsSound s
    → IsSound (transition s id target now f).0
unfolding transition
transition-IsSound s id target now f i = elim (Option-cases (get id s.records)) [
  | inl none_held ↦ rw none_held i
  | inr (old, held) ↦ rw held (settled old held (Record.transition old target now f) refl)
]
  where
    settled :
        (old : OperationRecord)
        → get id s.records ≡ some old
        → (m : Result Record.TransitionError OperationRecord)
        → Record.transition old target now f ≡ m
        → IsSound (Store.settle s id target m).0
    settled old held (err e) q = i
    settled old held (ok r) q =
        let (same_id, at_target, was_active) = transition_keeps old target now f r q in
        let old_ok = i.valid id old held in
        let v : (r.id ≡ id) × IsValid r =
          (same_id ∙ old_ok.0, transition-IsValid old target now f r old_ok.1 q) in
        elim (Bool-cases (is_terminal target)) [
          | inl yes_terminal ↦
              rw yes_terminal (retain-IsSound s id old r i held (rw at_target yes_terminal) v)
          | inr not_terminal ↦
              rw not_terminal
                (update-IsSound s id old r i held (rw at_target (not_terminal ∙ sym was_active)) v)
        ]

pub mark_committed-IsSound :
    (s : OperationStore) (id : ℕ) → IsSound s → IsSound (mark_committed s id).0
unfolding mark_committed
mark_committed-IsSound s id i = elim (Option-cases (get id s.records)) [
  | inl none_held ↦ rw none_held i
  | inr (old, held) ↦ rw held (commits old held (Record.mark_committed old) refl)
]
  where
    commits :
        (old : OperationRecord)
        → get id s.records ≡ some old
        → (m : Result Record.TransitionError OperationRecord) → Record.mark_committed old ≡ m
        → IsSound (Store.stored_commit s id m).0
    commits old held (err e) q = i
    commits old held (ok r) q =
        let (same_id, same_state, _) = mark_committed_keeps old r q in
        let old_ok = i.valid id old held in
        update-IsSound s id old r i held (rw same_state)
          (same_id ∙ old_ok.0, mark_committed-IsValid old r old_ok.1 q)

pub cancel-IsSound : (s : OperationStore) (id now : ℕ) → IsSound s → IsSound (cancel s id now).0
unfolding cancel
cancel-IsSound s id now i = ground (arith, transition-IsSound s id cancelled now none i)

pub remove_pending-IsSound :
    (s : OperationStore) (id : ℕ) → IsSound s → IsSound (remove_pending s id).0
unfolding remove_pending
remove_pending-IsSound s id i = elim (Option-cases (get id s.records)) [
  | inl none_held ↦ rw none_held i
  | inr (old, held) ↦ rw held (elim (Bool-cases (Record.is_pending old.state)) [
    | inl waits ↦ rw waits (dropped old held waits)
    | inr moved ↦ rw moved i
  ])
]
  where
    dropped :
        (old : OperationRecord)
        → get id s.records ≡ some old
        → Record.is_pending old.state ≡ true
        → IsSound (record s { records = remove id s.records })
    dropped old held waits = record {
      tracks = record {
        keyed = remove-IsKeyed id s.records i.tracks.keyed;
        distinct = i.tracks.distinct;
        agrees = λ k. ground (arith, i.tracks.agrees k, get-remove k id s.records);
      };
      valid = λ k q e. ground (arith, get-remove k id s.records, i.valid k q);
      bounded = omega (arith, size-remove-le id s.records, i.bounded);
      queue_bounded = i.queue_bounded;
      retains = i.retains;
      fits = i.fits;
    }

module _ (s : OperationStore) (i : IsSound s) where
  evicted-IsSound : (order : List ℕ) → s.terminal_order ≡ order → IsSound (evict_oldest_terminal s)
  unfolding evict_oldest_terminal evict
  evicted-IsSound [] e = rw e (record {
    tracks = rw e at i.tracks;
    valid = i.valid;
    bounded = i.bounded;
    queue_bounded = omega arith;
    retains = i.retains;
    fits = i.fits;
  })
  evicted-IsSound (x ∷ order) e =
      let t : Tracks (x ∷ order) s.records = rw e at i.tracks in
      rw (e, evict_oldest t)
        (record {
          tracks = evict-Tracks t;
          valid = λ k q h. ground (arith, get-remove k x s.records, i.valid k q);
          bounded = omega (arith, size-remove-le x s.records, i.bounded);
          queue_bounded = omega (arith, ap length e, i.queue_bounded);
          retains = i.retains;
          fits = i.fits;
        })

  pub make_room-IsSound : IsSound (make_room s)
  unfolding make_room
  make_room-IsSound = elim (Bool-cases (size s.records == s.total_capacity)) [
    | inl full ↦ rw full (evicted-IsSound s.terminal_order refl)
    | inr room ↦ rw room i
  ]

pub fresh-IsSound :
    (s : OperationStore) (r : OperationRecord)
    → IsSound s
    → get r.id s.records ≡ none
    → size s.records < s.total_capacity
    → IsValid r
    → is_terminal r.state ≡ false
    → IsSound (with_record s r.id r)
fresh-IsSound s r i fresh room v starts = record {
  tracks = record {
    keyed = put-IsKeyed r.id r s.records i.tracks.keyed;
    distinct = i.tracks.distinct;
    agrees = λ k. ground (arith, i.tracks.agrees k, get-put k r.id r s.records);
  };
  valid = put-RecordsValid r.id r s.records i.valid (refl, v);
  bounded = omega (arith, size-put_fresh r.id r s.records fresh);
  queue_bounded = i.queue_bounded;
  retains = i.retains;
  fits = i.fits;
}
