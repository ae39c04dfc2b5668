-- ===== src/Subscription/Chain.antt =====
-- crates/caly-subscription/src/chain.rs: the check of chained dial dependencies. A node's identity is
-- the number that its bytes spell, whose order is theirs; a BTreeMap is its entries, keyed and in
-- order, and is walked by its keys.
pub mod Walk
pub mod Settled
pub mod Ranked
pub mod Accepts
use caly.Base.{
  ℕ, zero, suc, Bool, true, false, Option, none, some, List, [], ◌∷◌, map, length, ltb, ◌==◌,
  if◌then◌else◌,
}
use caly.Base.Result.{Result, ok, err, ◌>>=◌}
use caly.Base.Table.{get, put}
use caly.Domain.State.{is_some}

-- What the check reads of a node.
pub record DialableNode : Type 0 where
  pub id : ℕ
  pub dialer_proxy : Option ℕ

pub data ChainError : Type 0 where
  missing_dependency : (node dependency : ℕ) → ChainError
  cycle : (node : ℕ) → ChainError

pub data Visit : Type 0 where
  visiting complete : Visit

abbrev pub Dependencies : Type 0
Dependencies = List (ℕ × Option ℕ)

-- `BTreeMap::insert`.
unfoldable pub insert_sorted : ℕ → Option ℕ → Dependencies → Dependencies
insert_sorted k v [] = (k, v) ∷ []
insert_sorted k v ((j, w) ∷ t) =
    if j == k
    then (k, v) ∷ t
    else (if ltb k j then (k, v) ∷ (j, w) ∷ t else (j, w) ∷ insert_sorted k v t)

-- `collect`, into what was collected so far.
unfoldable pub collect : Dependencies → List DialableNode → Dependencies
collect deps [] = deps
collect deps (n ∷ ns) = collect (insert_sorted n.id n.dialer_proxy deps) ns

abbrev pub dependencies : List DialableNode → Dependencies
dependencies nodes = collect [] nodes

abbrev pub keys : Dependencies → List ℕ
keys deps = map (λ e. e.0) deps

abbrev pub flatten : Option (Option ℕ) → Option ℕ
flatten none = none
flatten (some o) = o

-- `get(&node).copied().flatten()`.
abbrev pub dependency : Dependencies → ℕ → Option ℕ
dependency deps node = flatten (get node deps)

abbrev pub present : Dependencies → ℕ → Option ℕ → Result ChainError (Unit {0})
present deps node none = ok tt
present deps node (some d) = if is_some (get d deps) then ok tt else err (missing_dependency node d)

-- The first loop of `validate_chains`.
unfoldable pub check_present : Dependencies → List ℕ → Result ChainError (Unit {0})
check_present deps [] = ok tt
check_present deps (k ∷ ks) = present deps k (dependency deps k) >>= λ _. check_present deps ks

abbrev pub Visits : Type 0
Visits = List (ℕ × Visit)

abbrev pub Walked : Type 0
Walked = Option (Result ChainError (Visits × List ℕ))

-- The `match` on the visit of a node; `rest` is the loop behind the third case.
abbrev pub on_visit : Option Visit → ℕ → Visits → List ℕ → Walked → Walked
on_visit (some visiting) node visits path rest = some (err (cycle node))
on_visit (some complete) node visits path rest = some (ok (visits, path))
on_visit none node visits path rest = rest

-- The `while` loop of `walk_chain`, on fuel; the path's newest node stands first.
unfoldable pub walk_loop : ℕ → Dependencies → Visits → List ℕ → Option ℕ → Walked
walk_loop zero deps visits path current = none
walk_loop (suc fuel) deps visits path none = some (ok (visits, path))
walk_loop (suc fuel) deps visits path (some node) =
    on_visit (get node visits) node visits path
      (walk_loop fuel deps (put node visiting visits) (node ∷ path) (dependency deps node))

-- The loop that completes the path.
unfoldable pub complete_all : Visits → List ℕ → Visits
complete_all visits [] = visits
complete_all visits (n ∷ ns) = complete_all (put n complete visits) ns

abbrev pub completed : Walked → Option (Result ChainError Visits)
completed none = none
completed (some (err e)) = some (err e)
completed (some (ok (visits, path))) = some (ok (complete_all visits path))

-- The early return of `walk_chain`.
abbrev pub unless_complete :
    Option Visit → Visits → Option (Result ChainError Visits) → Option (Result ChainError Visits)
unless_complete (some complete) visits walked = some (ok visits)
unless_complete (some visiting) visits walked = walked
unless_complete none visits walked = walked

unfoldable pub walk_chain : ℕ → Dependencies → Visits → ℕ → Option (Result ChainError Visits)
walk_chain fuel deps visits start =
    unless_complete (get start visits) visits
      (completed (walk_loop fuel deps visits [] (some start)))

abbrev pub and_then :
    Option (Result ChainError Visits)
    → (Visits → Option (Result ChainError (Unit {0})))
    → Option (Result ChainError (Unit {0}))
and_then none rest = none
and_then (some (err e)) rest = some (err e)
and_then (some (ok visits)) rest = rest visits

-- The second loop of `validate_chains`.
unfoldable pub walk_all : ℕ → Dependencies → Visits → List ℕ → Option (Result ChainError (Unit {0}))
walk_all fuel deps visits [] = some (ok tt)
walk_all fuel deps visits (k ∷ ks) =
    and_then (walk_chain fuel deps visits k) (λ after. walk_all fuel deps after ks)

abbrev pub if_present :
    Result ChainError (Unit {0})
    → Option (Result ChainError (Unit {0}))
    → Option (Result ChainError (Unit {0}))
if_present (ok _) rest = rest
if_present (err e) rest = some (err e)

-- Fuel for one walk: a step for each node, and one more.
unfoldable pub validate_chains : List DialableNode → Option (Result ChainError (Unit {0}))
validate_chains nodes =
    let deps = dependencies nodes in
    if_present (check_present deps (keys deps)) (walk_all (suc (length deps)) deps [] (keys deps))
