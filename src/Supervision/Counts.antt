-- ===== src/Supervision/Counts.antt =====
-- The counts that the loops of `topology.rs` keep, and the search for a component that is ready.
use caly.Base.{
  ℕ, zero, suc, ◌+◌, ◌-◌, ◌≤◌, ◌<◌, ◌≡◌, ◌≢◌, refl, ap, inl, inr, Bool, true, false, not, ◌&&◌,
  none, some, List, [], ◌∷◌, length, ◌==◌, if◌then◌else◌, arith, Bool-cases, ==→eq,
}
use caly.Base.Result.{Result, ok, err}
use caly.Supervision.{
  Component, index, component_count, DependencyEdge, TopologyError, set, saturating_increment,
  count_edges, find_ready, release, config_actor, core_actor, subscription_actor, platform_actor,
  telemetry_actor, event_sequencer, state_projector, operation_owner,
}

-- Every edge goes from a lower to a higher rank.
abbrev pub Ascends : (ℕ → ℕ) → List DependencyEdge → Type 0
Ascends rank [] = Unit {0}
Ascends rank (e ∷ es) = (rank (index e.from) < rank (index e.to)) × Ascends rank es

-- The number of edges to `j` whose source is not removed, and the number from `i` to `j`.
abbrev pub pending : (ℕ → Bool) → ℕ → List DependencyEdge → ℕ
pending removed j [] = 0
pending removed j (e ∷ es) =
    let n = pending removed j es in
    if index e.to == j && not (removed (index e.from)) then suc n else n

abbrev pub between : ℕ → ℕ → List DependencyEdge → ℕ
between i j [] = 0
between i j (e ∷ es) =
    let n = between i j es in if index e.from == i && index e.to == j then suc n else n

abbrev pub into : ℕ → List DependencyEdge → ℕ
into j [] = 0
into j (e ∷ es) = let n = into j es in if index e.to == j then suc n else n

pub index-lt : (c : Component) → index c < component_count
unfolding index
index-lt config_actor = omega arith
index-lt core_actor = omega arith
index-lt subscription_actor = omega arith
index-lt platform_actor = omega arith
index-lt telemetry_actor = omega arith
index-lt event_sequencer = omega arith
index-lt state_projector = omega arith
index-lt operation_owner = omega arith

pub pending-none : (j : ℕ) (es : List DependencyEdge) → pending (λ _. false) j es ≡ into j es
pending-none j [] = refl
pending-none j (e ∷ es) = ground (arith, pending-none j es)

pub pending-set :
    (removed : ℕ → Bool) (i j : ℕ) (es : List DependencyEdge)
    → removed i ≡ false
    → pending removed j es ≡ pending (set removed i true) j es + between i j es
pending-set removed i j [] h = refl
pending-set removed i j (e ∷ es) h = ground (arith, pending-set removed i j es h, ap removed)

pub into-le : (j : ℕ) (es : List DependencyEdge) → into j es ≤ length es
into-le j [] = omega arith
into-le j (e ∷ es) = ground (arith, into-le j es)

pub release-between :
    (i j : ℕ) (es : List DependencyEdge) (indegree : ℕ → ℕ)
    → release i es indegree j ≡ indegree j - between i j es
unfolding release
release-between i j [] indegree = omega arith
release-between i j (e ∷ es) indegree = ground (
  arith,
  release-between i j es (set indegree (index e.to) (indegree (index e.to) - 1)),
  release-between i j es indegree,
)

abbrev pub count_at : ℕ → Result TopologyError (ℕ → ℕ) → ℕ
count_at j (ok d) = d j
count_at j (err _) = 0

pub count_edges-into :
    (es : List DependencyEdge) (indegree d : ℕ → ℕ) (j : ℕ)
    → count_edges es indegree ≡ ok d
    → indegree j + length es ≤ 255
    → d j ≡ indegree j + into j es
unfolding count_edges
count_edges-into [] indegree d j h b = ground (arith, ap (count_at j) h)
count_edges-into (e ∷ es) indegree d j h b =
    let next = set indegree (index e.to) (saturating_increment (indegree (index e.to))) in
    elim (Bool-cases (index e.from == index e.to)) [
      | inl self ↦ ground (arith, self)
      | inr other ↦
          let counted : count_edges es next ≡ ok d = ground (arith, other) in
          let n : next j ≡ (if index e.to == j then suc (indegree j) else indegree j) =
            ground (arith, ap indegree) in
          ground (arith, n, count_edges-into es next d j counted)
    ]

pub count_edges-Ascends :
    (es : List DependencyEdge) (indegree rank : ℕ → ℕ) (x : TopologyError)
    → Ascends rank es
    → count_edges es indegree ≢ err x
unfolding count_edges
count_edges-Ascends [] indegree rank x a h = cc
count_edges-Ascends (e ∷ es) indegree rank x a h =
    let next = set indegree (index e.to) (saturating_increment (indegree (index e.to))) in
    elim (Bool-cases (index e.from == index e.to)) [
      | inl self ↦ omega (arith, a.0, ap rank (==→eq _ _ self))
      | inr other ↦ count_edges-Ascends es next rank x a.1 (ground (arith, other))
    ]

pub find_ready-some :
    (n i node : ℕ) (removed : ℕ → Bool) (indegree : ℕ → ℕ)
    → find_ready n i removed indegree ≡ some node
    → (node < i + n) × (removed node ≡ false) × (indegree node ≡ 0)
unfolding find_ready
find_ready-some zero i node removed indegree h = cc
find_ready-some (suc n) i node removed indegree h =
    ground (arith, find_ready-some n (i + 1) node removed indegree)

pub find_ready-none :
    (n i j : ℕ) (removed : ℕ → Bool) (indegree : ℕ → ℕ)
    → find_ready n i removed indegree ≡ none
    → i ≤ j
    → j < i + n
    → removed j ≡ false
    → indegree j ≢ 0
unfolding find_ready
find_ready-none zero i j removed indegree h a b r = absurd (omega (arith, a, b))
find_ready-none (suc n) i j removed indegree h a b r =
    ground (arith, find_ready-none n (i + 1) j removed indegree)

abbrev pub removed_count : ℕ → (ℕ → Bool) → ℕ
removed_count zero removed = 0
removed_count (suc n) removed =
    let rest = removed_count n removed in if removed n then suc rest else rest

pub removed_count-set_above :
    (n i : ℕ) (removed : ℕ → Bool)
    → n ≤ i
    → removed_count n (set removed i true) ≡ removed_count n removed
removed_count-set_above zero i removed h = refl
removed_count-set_above (suc n) i removed h = ground (arith, removed_count-set_above n i removed)

pub removed_count-set :
    (n i : ℕ) (removed : ℕ → Bool)
    → i < n
    → removed i ≡ false
    → removed_count n (set removed i true) ≡ suc (removed_count n removed)
removed_count-set zero i removed h r = absurd (omega (arith, h))
removed_count-set (suc n) i removed h r = ground (
  arith,
  removed_count-set n i removed,
  removed_count-set_above n i removed,
  λ (e : i ≡ n). ap removed e,
)

pub removed_count-le : (n : ℕ) (removed : ℕ → Bool) → removed_count n removed ≤ n
removed_count-le zero removed = omega arith
removed_count-le (suc n) removed = ground (arith, removed_count-le n removed)

pub removed_count-full :
    (n j : ℕ) (removed : ℕ → Bool) → removed_count n removed ≡ n → j < n → removed j ≡ true
removed_count-full zero j removed h l = absurd (omega (arith, l))
removed_count-full (suc n) j removed h l =
    ground (
      arith,
      removed_count-le n removed,
      removed_count-full n j removed,
      λ (e : j ≡ n). ap removed e,
    )

pub removed_count-left :
    (n : ℕ) (removed : ℕ → Bool)
    → removed_count n removed ≢ n
    → (j : ℕ) × (j < n) × (removed j ≡ false)
removed_count-left zero removed h = absurd (h refl)
removed_count-left (suc n) removed h = elim (Bool-cases (removed n)) [
  | inr left ↦ (n, omega arith, left)
  | inl gone ↦
      let (j, l, left) = removed_count-left n removed (λ e. h (ground arith)) in
      (j, omega (arith, l), left)
]
