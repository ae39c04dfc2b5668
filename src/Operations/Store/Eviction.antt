-- ===== src/Operations/Store/Eviction.antt =====
-- The eviction queue of `store.rs` against the records that it lists.
use caly.Base.{
  ℕ, zero, suc, ◌≤◌, ◌<◌, ◌≡◌, refl, true, false, not, ◌||◌, some, List, [], ◌∷◌, ◌++◌, length,
  retain, elem, IsDistinct, ltb, ◌==◌, if◌then◌else◌, arith, Bool-cases, inl, inr,
}
use caly.Base.Table.{
  get, put, remove, size, size-remove-le, IsKeyed, get-put, get-remove, remove-IsKeyed, put-IsKeyed,
}
use caly.Operations.Record.{OperationRecord}
use caly.Operations.Store.{holds_terminal, evict, trim, enqueued}

-- The queue lists the terminal records, each once.
pub record Tracks (order : List ℕ) (records : List (ℕ × OperationRecord)) : Type 0 where
  pub keyed : IsKeyed records
  pub distinct : IsDistinct order
  pub agrees : (k : ℕ) → elem k order ≡ holds_terminal (get k records)

-- Eviction never takes a record that is still active.
pub evict_active :
    (k : ℕ) (order : List ℕ) (records : List (ℕ × OperationRecord))
    → holds_terminal (get k records) ≡ false
    → get k (evict order records).1 ≡ get k records
unfolding evict
evict_active k [] records h = refl
evict_active k (x ∷ order) records h =
    ground (arith, evict_active k order records h, get-remove k x records)

pub trim_active :
    (k fuel capacity : ℕ) (order : List ℕ) (records : List (ℕ × OperationRecord))
    → holds_terminal (get k records) ≡ false
    → get k (trim fuel capacity order records).1 ≡ get k records
unfolding trim
trim_active k zero capacity order records h = refl
trim_active k (suc fuel) capacity order records h =
    let kept = evict_active k order records h in
    let h' : holds_terminal (get k (evict order records).1) ≡ false = ground (arith, kept) in
    ground
      (arith, kept, trim_active k fuel capacity (evict order records).0 (evict order records).1 h')

-- What eviction leaves, it leaves unchanged.
pub evict_shrinks :
    (k : ℕ) (order : List ℕ) (records : List (ℕ × OperationRecord)) (r : OperationRecord)
    → get k (evict order records).1 ≡ some r
    → get k records ≡ some r
unfolding evict
evict_shrinks k [] records r h = h
evict_shrinks k (x ∷ order) records r h =
    ground (arith, evict_shrinks k order records r, get-remove k x records)

pub trim_shrinks :
    (k fuel capacity : ℕ) (order : List ℕ) (records : List (ℕ × OperationRecord))
    (r : OperationRecord)
    → get k (trim fuel capacity order records).1 ≡ some r
    → get k records ≡ some r
unfolding trim
trim_shrinks k zero capacity order records r h = h
trim_shrinks k (suc fuel) capacity order records r h = ground (
  arith,
  evict_shrinks k order records r,
  trim_shrinks k fuel capacity (evict order records).0 (evict order records).1 r,
)

module _ {x : ℕ} {order : List ℕ} {records : List (ℕ × OperationRecord)}
    (t : Tracks (x ∷ order) records) where
  -- The oldest entry is a terminal record: one round of eviction takes it and nothing else.
  pub evict_oldest : evict (x ∷ order) records ≡ (order, remove x records)
  unfolding evict
  evict_oldest = ground (arith, t.agrees x)

  pub evict-Tracks : Tracks order (remove x records)
  evict-Tracks = record {
    keyed = remove-IsKeyed x records t.keyed;
    distinct = t.distinct.1;
    agrees = λ k. ground (arith, t.agrees k, t.distinct.0, get-remove k x records);
  }

pub trim-Tracks :
    (fuel capacity : ℕ) (order : List ℕ) (records : List (ℕ × OperationRecord))
    → Tracks order records
    → let (order', records') = trim fuel capacity order records in Tracks order' records'
unfolding trim
trim-Tracks zero capacity order records t = t
trim-Tracks (suc fuel) capacity [] records t = ground arith
trim-Tracks (suc fuel) capacity (x ∷ order) records t =
    rw (evict_oldest t) (elim (Bool-cases (ltb capacity (length (x ∷ order)))) [
      | inl more ↦ rw more (trim-Tracks fuel capacity order (remove x records) (evict-Tracks t))
      | inr done ↦ rw done t
    ])

-- With a round of fuel for each entry the queue ends within its capacity.
pub length-trim :
    (fuel capacity : ℕ) (order : List ℕ) (records : List (ℕ × OperationRecord))
    → Tracks order records
    → length order ≤ fuel
    → length (trim fuel capacity order records).0 ≤ capacity
unfolding trim
length-trim zero capacity [] records t h = omega arith
length-trim zero capacity (x ∷ order) records t h = absurd (omega arith)
length-trim (suc fuel) capacity [] records t h = ground arith
length-trim (suc fuel) capacity (x ∷ order) records t h =
    rw (evict_oldest t)
      (ground (arith, length-trim fuel capacity order (remove x records) (evict-Tracks t)))

elem-append : (k y : ℕ) (xs : List ℕ) → elem k (xs ++ y ∷ []) ≡ (y == k) || elem k xs
elem-append k y [] = refl
elem-append k y (x ∷ xs) = ground (arith, elem-append k y xs)

elem-dropped :
    (k id : ℕ) (xs : List ℕ)
    → elem k (retain (λ c. not (c == id)) xs) ≡ (if id == k then false else elem k xs)
elem-dropped k id [] = ground arith
elem-dropped k id (x ∷ xs) = ground (arith, elem-dropped k id xs)

pub elem-enqueued :
    (k id : ℕ) (order : List ℕ) → elem k (enqueued id order) ≡ (id == k) || elem k order
elem-enqueued k id order =
    ground (arith, elem-append k id (retain (λ c. not (c == id)) order), elem-dropped k id order)

append-IsDistinct :
    (y : ℕ) (xs : List ℕ) → IsDistinct xs → elem y xs ≡ false → IsDistinct (xs ++ y ∷ [])
append-IsDistinct y [] d h = (refl, tt)
append-IsDistinct y (x ∷ xs) d h = ground (arith, elem-append x y xs, append-IsDistinct y xs d.1)

dropped-IsDistinct :
    (id : ℕ) (xs : List ℕ) → IsDistinct xs → IsDistinct (retain (λ c. not (c == id)) xs)
dropped-IsDistinct id [] d = tt
dropped-IsDistinct id (x ∷ xs) d =
    ground (arith, elem-dropped x id xs, dropped-IsDistinct id xs d.1)

pub enqueued-IsDistinct :
    (id : ℕ) (order : List ℕ) → IsDistinct order → IsDistinct (enqueued id order)
enqueued-IsDistinct id order d =
    append-IsDistinct id (retain (λ c. not (c == id)) order) (dropped-IsDistinct id order d)
      (ground (arith, elem-dropped id id order))

-- A record that has become terminal joins the queue.
pub put-Tracks :
    (id : ℕ) (r : OperationRecord) (order : List ℕ) (records : List (ℕ × OperationRecord))
    → Tracks order records
    → holds_terminal (some r) ≡ true
    → Tracks (enqueued id order) (put id r records)
put-Tracks id r order records t h = record {
  keyed = put-IsKeyed id r records t.keyed;
  distinct = enqueued-IsDistinct id order t.distinct;
  agrees = λ k. ground (arith, elem-enqueued k id order, t.agrees k, get-put k id r records);
}

size-evict-le :
    (order : List ℕ) (records : List (ℕ × OperationRecord))
    → size (evict order records).1 ≤ size records
unfolding evict
size-evict-le [] records = omega arith
size-evict-le (x ∷ order) records =
    ground (arith, size-evict-le order records, size-remove-le x records)

pub size-trim-le :
    (fuel capacity : ℕ) (order : List ℕ) (records : List (ℕ × OperationRecord))
    → size (trim fuel capacity order records).1 ≤ size records
unfolding trim
size-trim-le zero capacity order records = omega arith
size-trim-le (suc fuel) capacity order records = ground (
  arith,
  size-evict-le order records,
  size-trim-le fuel capacity (evict order records).0 (evict order records).1,
)

elem-append_last : (id : ℕ) (order : List ℕ) → elem id (order ++ id ∷ []) ≡ true
elem-append_last id order = ground (arith, elem-append id id order)

-- The entry at the back of the queue outlives the cut, where the queue may hold one at all.
pub trim_last :
    (fuel capacity id : ℕ) (order : List ℕ) (records : List (ℕ × OperationRecord))
    → Tracks (order ++ id ∷ []) records
    → 0 < capacity
    → get id (trim fuel capacity (order ++ id ∷ []) records).1 ≡ get id records
unfolding trim
trim_last zero capacity id order records t h = refl
trim_last (suc fuel) capacity id [] records t h = ground arith
trim_last (suc fuel) capacity id (x ∷ order) records t h = rw (evict_oldest t) (
    ground (
      arith,
      trim_last fuel capacity id order (remove x records) (evict-Tracks t) h,
      get-remove id x records,
      t.distinct.0,
      elem-append_last id order,
    ))
