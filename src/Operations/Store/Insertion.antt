-- ===== src/Operations/Store/Insertion.antt =====
-- Insertion into the store of `store.rs`: replay, room, and refusal.
use caly.Base.{
  ℕ, ◌<◌, ◌≡◌, ◌≢◌, refl, sym, ◌∙◌, ◌⊎◌, ◌↔◌, true, false, Option, none, some, List, [], ◌∷◌, elem,
  ◌==◌, if◌then◌else◌, arith, Bool-cases, inl, inr,
}
use caly.Base.Result.{ok, err}
use caly.Base.Table.{get, size, get-put, size-remove}
use caly.Operations.Record.{OperationRecord}
use caly.Operations.Record.Laws.{IsValid}
use caly.Operations.Store.{
  OperationStore, inserted, resource_exhausted, holds_terminal, evict, make_room,
  evict_oldest_terminal, insert,
}
use caly.Operations.Store.Eviction.{Tracks, evict_active, evict_shrinks, evict_oldest}
use caly.Operations.Store.Invariant.{IsSound, make_room-IsSound, fresh-IsSound}
use caly.Domain.Operation.{is_terminal}

pub make_room_active :
    (s : OperationStore) (k : ℕ)
    → holds_terminal (get k s.records) ≡ false
    → get k (make_room s).records ≡ get k s.records
unfolding make_room evict_oldest_terminal
make_room_active s k h = ground (arith, evict_active k s.terminal_order s.records h)

pub make_room_shrinks :
    (s : OperationStore) (k : ℕ) (q : OperationRecord)
    → get k (make_room s).records ≡ some q
    → get k s.records ≡ some q
unfolding make_room evict_oldest_terminal
make_room_shrinks s k q = ground (arith, evict_shrinks k s.terminal_order s.records q)

pub make_room_capacity : (s : OperationStore) → (make_room s).total_capacity ≡ s.total_capacity
unfolding make_room evict_oldest_terminal
make_room_capacity s = ground arith

list_cases : (xs : List ℕ) → (xs ≡ []) ⊎ ((x : ℕ) × (rest : List ℕ) × (xs ≡ x ∷ rest))
list_cases [] = inl refl
list_cases (x ∷ rest) = inr (x, rest, refl)

held_of_terminal :
    (o : Option OperationRecord) → holds_terminal o ≡ true → (r : OperationRecord) × (o ≡ some r)
held_of_terminal none h = cc
held_of_terminal (some r) h = (r, refl)

module _ (s : OperationStore) (i : IsSound s) where
  -- A terminal record gives its place up; without one a full store stays full.
  make_room_evicts :
      (x : ℕ) (order : List ℕ)
      → s.terminal_order ≡ x ∷ order
      → size (make_room s).records < s.total_capacity
  unfolding make_room evict_oldest_terminal
  make_room_evicts x order e =
      let t : Tracks (x ∷ order) s.records = rw e at i.tracks in
      let (r, held) = held_of_terminal (get x s.records) (ground (arith, t.agrees x)) in
      let smaller = size-remove x r s.records t.keyed held in
      elim (Bool-cases (size s.records == s.total_capacity)) [
        | inl full ↦ rw (full, e, evict_oldest t) (omega (arith, smaller, i.bounded))
        | inr room ↦ rw room (ground (arith, i.bounded))
      ]

  make_room_stuck : s.terminal_order ≡ [] → (make_room s).records ≡ s.records
  unfolding make_room evict_oldest_terminal evict
  make_room_stuck e = elim (Bool-cases (size s.records == s.total_capacity)) [
    | inl full ↦ rw (full, e)
    | inr room ↦ rw room
  ]

  all_active :
      (order : List ℕ)
      → s.terminal_order ≡ order
      → ((k : ℕ) → holds_terminal (get k s.records) ≡ false)
      → order ≡ []
  all_active [] e h = refl
  all_active (x ∷ order) e h =
      let seen : elem x s.terminal_order ≡ true = rw e (ground arith) in
      ground (arith, seen, h x, i.tracks.agrees x)

  module _ (r : OperationRecord) (fresh : get r.id s.records ≡ none) where
    insert_result : (insert s r).1 ≡ (
        if size (make_room s).records == s.total_capacity
        then err resource_exhausted
        else ok inserted)
    unfolding insert
    insert_result = rw fresh (ground (arith, make_room_capacity s))

    -- In a sound store, a record under a new id is refused exactly when the store is full and holds
    -- no terminal record.
    pub insert-exhausted_iff : ((insert s r).1 ≡ err resource_exhausted) ↔ (
        (size s.records ≡ s.total_capacity) × ((k : ℕ) → holds_terminal (get k s.records) ≡ false))
    insert-exhausted_iff = elim (list_cases s.terminal_order) [
      | inl e ↦ (
        λ h. (
          ground (arith, insert_result, make_room_stuck e),
          λ k. sym (rw e at (i.tracks.agrees k)),
        ),
        λ h. ground (arith, insert_result, make_room_stuck e),
      )
      | inr (x, order, e) ↦ (
        λ h. absurd (ground (arith, insert_result, make_room_evicts x order e)),
        λ h. absurd (cc (all_active (x ∷ order) e h.1)),
      )
    ]

    insert_room : get r.id (make_room s).records ≡ none
    insert_room = make_room_active s r.id (rw fresh) ∙ fresh

    -- Otherwise it is stored under its identity.
    pub insert_stores :
        (insert s r).1 ≢ err resource_exhausted
        → ((insert s r).1 ≡ ok inserted) × (get r.id (insert s r).0.records ≡ some r)
    unfolding insert
    insert_stores h = rw fresh (ground (arith, h, fresh, get-put r.id r.id r (make_room s).records))

    pub insert-IsSound : IsValid r → is_terminal r.state ≡ false → IsSound (insert s r).0
    unfolding insert
    insert-IsSound v starts =
        rw fresh (elim (Bool-cases (size (make_room s).records == (make_room s).total_capacity)) [
          | inl full ↦ rw full (make_room-IsSound s i)
          | inr room ↦ rw room (
              fresh-IsSound (make_room s) r (make_room-IsSound s i) insert_room
                (ground (arith, (make_room-IsSound s i).bounded)) v starts)
        ])
