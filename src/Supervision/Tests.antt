-- ===== src/Supervision/Tests.antt =====
-- Runs of the topology check on concrete edges.
use caly.Base.{ℕ, ◌≡◌, ◌≢◌, ◌↔◌, refl, none, some, List, [], ◌∷◌, arith}
use caly.Base.Result.{ok, err}
use caly.Supervision.{
  DependencyEdge, event_sequencer, state_projector, config_actor, core_actor, cycle,
  validate_topology, count_edges, index, remove_ready, find_ready, release,
}
use caly.Supervision.Counts.{Ascends}
use caly.Supervision.Order.{validate_topology-ok_iff}

abbrev default_topology : List DependencyEdge
default_topology = record { from = event_sequencer; to = state_projector } ∷ []

validate_topology-ok_iff_example :
    (validate_topology default_topology ≢ none)
    × ((validate_topology default_topology ≡ some (ok tt))
        ↔ ((rank : ℕ → ℕ) × Ascends rank default_topology))
validate_topology-ok_iff_example = validate_topology-ok_iff default_topology (omega arith)

default_accepted : validate_topology default_topology ≡ some (ok tt)
unfolding validate_topology count_edges index remove_ready find_ready release
default_accepted = refl

actor_cycle_refused :
    validate_topology (
      record { from = config_actor; to = core_actor }
      ∷ record { from = core_actor; to = config_actor }
      ∷ [])
    ≡ some (err cycle)
unfolding validate_topology count_edges index remove_ready find_ready release
actor_cycle_refused = refl
