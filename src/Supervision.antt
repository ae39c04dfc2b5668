-- ===== src/Supervision.antt =====
-- crates/caly-application/src/supervision/topology.rs: the check that the synchronous waits between
-- the parts of the runtime form no cycle. An array over the components is a function of the index.
pub mod Counts
pub mod Order
mod Tests
use caly.Base.{
  ℕ, zero, suc, ◌+◌, ◌-◌, Bool, true, false, not, ◌&&◌, Option, none, some, List, [], ◌∷◌, ltb,
  ◌==◌, if◌then◌else◌,
}
use caly.Base.Result.{Result, ok, err}

pub data Component : Type 0 where
  config_actor core_actor subscription_actor platform_actor telemetry_actor event_sequencer
        state_projector operation_owner :
      Component

-- The discriminant, `as usize`.
unfoldable pub index : Component → ℕ
index config_actor = 0
index core_actor = 1
index subscription_actor = 2
index platform_actor = 3
index telemetry_actor = 4
index event_sequencer = 5
index state_projector = 6
index operation_owner = 7

abbrev pub component_count : ℕ
component_count = 8

pub record DependencyEdge : Type 0 where
  pub from : Component
  pub to : Component

pub data TopologyError : Type 0 where
  self_dependency : Component → TopologyError
  cycle : TopologyError

abbrev pub set {ℓ} : {A : Type ℓ} → (ℕ → A) → ℕ → A → ℕ → A
set f i v j = if j == i then v else f j

abbrev pub saturating_increment : ℕ → ℕ
saturating_increment n = if ltb n 255 then n + 1 else 255

-- The first loop: a self-dependency is refused, and every other edge is counted at its target.
unfoldable pub count_edges : List DependencyEdge → (ℕ → ℕ) → Result TopologyError (ℕ → ℕ)
count_edges [] indegree = ok indegree
count_edges (e ∷ es) indegree =
    let target = index e.to in
    let rest = count_edges es (set indegree target (saturating_increment (indegree target))) in
    if index e.from == target then err (self_dependency e.from) else rest

-- `find` over the indices from `i` on: the first component that waits for no one left.
unfoldable pub find_ready : ℕ → ℕ → (ℕ → Bool) → (ℕ → ℕ) → Option ℕ
find_ready zero i removed indegree = none
find_ready (suc n) i removed indegree =
    let rest = find_ready n (i + 1) removed indegree in
    if not (removed i) && indegree i == 0 then some i else rest

-- The edges that leave a removed component are taken off the counts.
unfoldable pub release : ℕ → List DependencyEdge → (ℕ → ℕ) → ℕ → ℕ
release node [] indegree = indegree
release node (e ∷ es) indegree =
    if index e.from == node
    then release node es (set indegree (index e.to) (indegree (index e.to) - 1))
    else release node es indegree

-- The second loop, on fuel, with the number of components removed; `none` is fuel that ran out.
unfoldable pub remove_ready : ℕ → List DependencyEdge → (ℕ → Bool) → (ℕ → ℕ) → ℕ → Option ℕ
remove_ready zero edges removed indegree count = none
remove_ready (suc fuel) edges removed indegree count =
    elim (find_ready component_count 0 removed indegree) [
      | none ↦ some count
      | some node ↦
          remove_ready fuel edges (set removed node true) (release node edges indegree) (count + 1)
    ]

abbrev pub verdict : Option ℕ → Option (Result TopologyError (Unit {0}))
verdict none = none
verdict (some count) = some (if count == component_count then ok tt else err cycle)

unfoldable pub validate_topology : List DependencyEdge → Option (Result TopologyError (Unit {0}))
validate_topology edges = elim (count_edges edges (λ _. 0)) [
  | err e ↦ some (err e)
  | ok indegree ↦ verdict (remove_ready 9 edges (λ _. false) indegree 0)
]
