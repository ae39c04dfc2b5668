-- ===== src/Supervision/Order.antt =====
-- The check of `topology.rs` against an order of the components in which every wait goes up.
use caly.Base.{
  ℕ, zero, suc, ◌+◌, ◌≤◌, ◌<◌, ◌≡◌, ◌≢◌, refl, sym, ap, ◌∙◌, ◌↔◌, inl, inr, Bool, true, false, not,
  ◌&&◌, Option, none, some, List, [], ◌∷◌, length, ◌==◌, arith, Bool-cases, Option-cases,
}
use caly.Base.Result.{Result-cases, ok}
use caly.Supervision.{
  index, component_count, DependencyEdge, set, count_edges, find_ready, release, remove_ready,
  validate_topology,
}
use caly.Supervision.Counts.{
  Ascends, pending, index-lt, pending-none, pending-set, release-between, count_edges-into,
  count_edges-Ascends, find_ready-some, find_ready-none, removed_count, removed_count-set,
  removed_count-le, removed_count-full, removed_count-left,
}

-- An edge into a removed component comes from a removed one, of lower rank.
abbrev Placed : (ℕ → Bool) → (ℕ → ℕ) → List DependencyEdge → Type 0
Placed removed rank [] = Unit {0}
Placed removed rank (e ∷ es) =
    (removed (index e.to) ≡ true
      → (removed (index e.from) ≡ true) × (rank (index e.from) < rank (index e.to)))
    × Placed removed rank es

-- What the second loop keeps.
record Sorted (es : List DependencyEdge) (removed : ℕ → Bool) (indegree : ℕ → ℕ) (count : ℕ)
    : Type 0 where
  counts : (j : ℕ) → indegree j ≡ pending removed j es
  total : count ≡ removed_count component_count removed
  rank : ℕ → ℕ
  low : (j : ℕ) → removed j ≡ true → rank j < count
  up : Placed removed rank es

Placed-none : (rank : ℕ → ℕ) (es : List DependencyEdge) → Placed (λ _. false) rank es
Placed-none rank [] = tt
Placed-none rank (e ∷ es) = (λ h. cc, Placed-none rank es)

Placed-set :
    (removed : ℕ → Bool) (rank : ℕ → ℕ) (node count : ℕ) (es : List DependencyEdge)
    → removed node ≡ false
    → pending removed node es ≡ 0
    → ((j : ℕ) → removed j ≡ true → rank j < count)
    → Placed removed rank es
    → Placed (set removed node true) (set rank node count) es
Placed-set removed rank node count [] r p low up = tt
Placed-set removed rank node count (e ∷ es) r p low up = (
  λ h. ground (
    arith,
    p,
    low (index e.from),
    up.0,
    λ (q : index e.from ≡ node). ap removed q,
    λ (q : index e.to ≡ node). ap removed q,
  ),
  Placed-set removed rank node count es r (ground (arith, p)) low up.1,
)

step-Sorted :
    (es : List DependencyEdge) (removed : ℕ → Bool) (indegree : ℕ → ℕ) (count node : ℕ)
    → Sorted es removed indegree count
    → (node < component_count) × (removed node ≡ false) × (indegree node ≡ 0)
    → Sorted es (set removed node true) (release node es indegree) (count + 1)
step-Sorted es removed indegree count node i (l, r, z) = record {
  counts = λ j.
      omega
        (arith, release-between node j es indegree, i.counts j, pending-set removed node j es r);
  total = omega (arith, i.total, removed_count-set component_count node removed l r);
  rank = set i.rank node count;
  low = λ j h. ground (arith, h, i.low j);
  up = Placed-set removed i.rank node count es r (sym (i.counts node) ∙ z) i.low i.up;
}

record Ends (es : List DependencyEdge) (answer : Option ℕ) : Type 0 where
  removed : ℕ → Bool
  indegree : ℕ → ℕ
  count : ℕ
  gives : answer ≡ some count
  sorted : Sorted es removed indegree count
  stuck : find_ready component_count 0 removed indegree ≡ none

remove_ready-Ends :
    (fuel : ℕ) (es : List DependencyEdge) (removed : ℕ → Bool) (indegree : ℕ → ℕ) (count : ℕ)
    → Sorted es removed indegree count
    → 9 ≤ count + fuel
    → Ends es (remove_ready fuel es removed indegree count)
unfolding remove_ready
remove_ready-Ends zero es removed indegree count i h =
    absurd (omega (arith, h, i.total, removed_count-le component_count removed))
remove_ready-Ends (suc fuel) es removed indegree count i h =
    elim (Option-cases (find_ready component_count 0 removed indegree)) [
      | inl none_ready ↦ record {
        removed = removed;
        indegree = indegree;
        count = count;
        gives = rw (remove_ready, none_ready) refl;
        sorted = i;
        stuck = none_ready;
      }
      | inr (node, ready) ↦
          rw (remove_ready, ready)
            (remove_ready-Ends fuel es (set removed node true) (release node es indegree)
              (count + 1)
              (step-Sorted es removed indegree count node i
                (find_ready-some component_count 0 node removed indegree ready))
              (omega (arith, h)))
    ]

-- A count that is not zero has an edge from a component that is left.
pending-source :
    (removed : ℕ → Bool) (rank : ℕ → ℕ) (j : ℕ) (es : List DependencyEdge)
    → Ascends rank es
    → pending removed j es ≢ 0
    → (i : ℕ) × (i < component_count) × (removed i ≡ false) × (rank i < rank j)
pending-source removed rank j [] a h = absurd (h refl)
pending-source removed rank j (e ∷ es) a h =
    elim (Bool-cases (index e.to == j && not (removed (index e.from)))) [
      | inl here ↦ (
        index e.from,
        index-lt e.from,
        ground arith,
        ground (arith, here, a.0, λ (q : index e.to ≡ j). ap rank q),
      )
      | inr else_where ↦ pending-source removed rank j es a.1 (λ z. h (ground arith))
    ]

-- Where no component is ready and every edge goes up, none is left.
none_left :
    (bound j : ℕ) (es : List DependencyEdge) (removed : ℕ → Bool) (indegree : ℕ → ℕ) (rank : ℕ → ℕ)
    → ((k : ℕ) → indegree k ≡ pending removed k es)
    → find_ready component_count 0 removed indegree ≡ none
    → Ascends rank es
    → rank j < bound
    → j < component_count
    → removed j ≢ false
none_left zero j es removed indegree rank c s a b l r = absurd (omega (arith, b))
none_left (suc bound) j es removed indegree rank c s a b l r =
    let waits : pending removed j es ≢ 0 = λ z.
      find_ready-none component_count 0 j removed indegree s (omega arith) (omega (arith, l)) r
        (c j ∙ z) in
    let (i, small, left, lower) = pending-source removed rank j es a waits in
    none_left bound i es removed indegree rank c s a (omega (arith, lower, b)) small left

Placed-all :
    (removed : ℕ → Bool) (rank : ℕ → ℕ) (es : List DependencyEdge)
    → removed_count component_count removed ≡ component_count
    → Placed removed rank es
    → Ascends rank es
Placed-all removed rank [] h up = tt
Placed-all removed rank (e ∷ es) h up = (
  (up.0 (removed_count-full component_count (index e.to) removed h (index-lt e.to))).1,
  Placed-all removed rank es h up.1,
)

counted-Sorted :
    (es : List DependencyEdge) (d : ℕ → ℕ)
    → length es ≤ 255
    → count_edges es (λ _. 0) ≡ ok d
    → Sorted es (λ _. false) d 0
counted-Sorted es d b h = record {
  counts =
      λ j. omega (arith, count_edges-into es (λ _. 0) d j h (omega (arith, b)), pending-none j es);
  total = refl;
  rank = λ _. 0;
  low = λ j e. cc;
  up = Placed-none (λ _. 0) es;
}

-- On edges that a `BoundedVec` of 32 holds, the check always returns, and it accepts exactly the
-- edges for which the components have an order in which every wait goes up.
pub validate_topology-ok_iff :
    (es : List DependencyEdge)
    → length es ≤ 32
    → (validate_topology es ≢ none)
      × ((validate_topology es ≡ some (ok tt)) ↔ ((rank : ℕ → ℕ) × Ascends rank es))
unfolding validate_topology
validate_topology-ok_iff es b = elim (Result-cases (count_edges es (λ _. 0))) [
  | inr (x, failed) ↦ (
    λ h. ground (arith, failed),
    (
      λ h. ground (arith, failed),
      λ (rank, a). absurd (count_edges-Ascends es (λ _. 0) rank x a failed),
    ),
  )
  | inl (d, counted) ↦
      let end =
        remove_ready-Ends 9 es (λ _. false) d 0 (counted-Sorted es d (omega (arith, b)) counted)
          (omega arith) in
      (
        λ h. ground (arith, counted, end.gives),
        (
          λ h.
              let full : end.count ≡ component_count = ground (arith, counted, end.gives) in
              (
                end.sorted.rank,
                Placed-all end.removed end.sorted.rank es (sym end.sorted.total ∙ full)
                    end.sorted.up,
              ),
          λ (rank, a). elim (Bool-cases (end.count == component_count)) [
            | inl full ↦ ground (arith, counted, end.gives, full)
            | inr part ↦
                let (j, l, left) =
                  removed_count-left component_count end.removed
                    (λ e. ground (arith, end.sorted.total)) in
                absurd (
                  none_left (suc (rank j)) j es end.removed end.indegree rank end.sorted.counts
                    end.stuck a (omega arith) l left)
          ],
        ),
      )
]
