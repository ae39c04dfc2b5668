-- ===== src/Subscription/Tests.antt =====
-- Nodes that dial through each other.
use caly.Base.{ℕ, ◌≡◌, refl, ◌↔◌, none, some, List, [], ◌∷◌}
use caly.Base.Result.{Result, ok, err}
use caly.Base.Table.{get, put}
use caly.Subscription.Chain.{
  DialableNode, ChainError, cycle, missing_dependency, dependencies, keys, validate_chains, collect,
  insert_sorted, check_present, walk_all, walk_chain, walk_loop, complete_all,
}
use caly.Subscription.Chain.Accepts.{AllHeld, Ascending, validate_chains-ok_iff}

-- 3 dials through 1, and 1 through 2.
abbrev chained : List DialableNode
chained =
    record { id = 3; dialer_proxy = some 1 }
    ∷ record { id = 1; dialer_proxy = some 2 }
    ∷ record { id = 2; dialer_proxy = none }
    ∷ []

validate_chains-ok_iff_example :
    let deps = dependencies chained in
    ((r : Result ChainError (Unit {0})) × (validate_chains chained ≡ some r))
    × ((validate_chains chained ≡ some (ok tt))
        ↔ (AllHeld deps (keys deps) × ((rank : ℕ → ℕ) × Ascending deps rank (keys deps))))
validate_chains-ok_iff_example = validate_chains-ok_iff chained

chained_passes : validate_chains chained ≡ some (ok tt)
unfolding validate_chains collect insert_sorted check_present walk_all walk_chain walk_loop
    complete_all get put
chained_passes = refl

-- With 2 dialling through 3 they run in a circle, which the walk from 1 meets first.
circle_refused :
    validate_chains (
      record { id = 3; dialer_proxy = some 1 }
      ∷ record { id = 1; dialer_proxy = some 2 }
      ∷ record { id = 2; dialer_proxy = some 3 }
      ∷ [])
    ≡ some (err (cycle 1))
unfolding validate_chains collect insert_sorted check_present walk_all walk_chain walk_loop
    complete_all get put
circle_refused = refl

stranger_refused :
    validate_chains (record { id = 3; dialer_proxy = some 1 } ∷ [])
    ≡ some (err (missing_dependency 3 1))
unfolding validate_chains collect insert_sorted check_present get
stranger_refused = refl
