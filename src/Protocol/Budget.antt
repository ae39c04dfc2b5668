-- ===== src/Protocol/Budget.antt =====
-- crates/caly-protocol/src/protocol/v2/budget.rs: the accounting of one strict decode.
use caly.Base.{ℕ, ◌+◌, ◌-◌, ◌^◌, ◌≤◌, ◌≡◌, refl, ◌↔◌, List, [], ◌∷◌, ltb, if◌then◌else◌, arith}
use caly.Base.Result.{Result, ok, err}

abbrev pub usize_max : ℕ
usize_max = 2 ^ 64 - 1

pub record DecodeLimits : Type 0 where
  pub max_nodes : ℕ
  pub max_connections : ℕ
  pub max_groups : ℕ
  pub max_rules : ℕ
  pub max_logs : ℕ
  pub max_subscriptions : ℕ
  pub max_string_bytes : ℕ
  pub max_config_bytes : ℕ
  pub max_message_bytes : ℕ

abbrev pub v2_default : DecodeLimits
v2_default = record {
  max_nodes = 10000;
  max_connections = 10000;
  max_groups = 256;
  max_rules = 10000;
  max_logs = 1000;
  max_subscriptions = 64;
  max_string_bytes = 65536;
  max_config_bytes = 16777216;
  max_message_bytes = 20971520;
}

pub record DecodeBudget : Type 0 where
  pub limits : DecodeLimits
  pub consumed_message_bytes : ℕ

pub data CollectionKind : Type 0 where
  nodes connections groups rules logs subscriptions : CollectionKind

pub data BudgetError : Type 0 where
  arithmetic_overflow : BudgetError
  message_bytes : (limit actual : ℕ) → BudgetError
  string_bytes : (limit actual : ℕ) → BudgetError
  collection : (kind : CollectionKind) (limit actual : ℕ) → BudgetError

abbrev pub new_budget : DecodeLimits → DecodeBudget
new_budget limits = record { limits = limits; consumed_message_bytes = 0 }

-- `DecodeBudget::charge_bytes`, with the overflow of `checked_add` on usize.
unfoldable pub charge_bytes : DecodeBudget → ℕ → DecodeBudget × Result BudgetError (Unit {0})
charge_bytes b amount =
    let total = b.consumed_message_bytes + amount in
    if ltb usize_max total
    then (b, err arithmetic_overflow)
    else (if ltb b.limits.max_message_bytes total
        then (b, err (message_bytes b.limits.max_message_bytes total))
        else (record b { consumed_message_bytes = total }, ok tt))

unfoldable pub check_string : DecodeBudget → ℕ → Result BudgetError (Unit {0})
check_string b actual =
    if ltb b.limits.max_string_bytes actual
    then err (string_bytes b.limits.max_string_bytes actual)
    else ok tt

abbrev pub count_limit : DecodeLimits → CollectionKind → ℕ
count_limit l nodes = l.max_nodes
count_limit l connections = l.max_connections
count_limit l groups = l.max_groups
count_limit l rules = l.max_rules
count_limit l logs = l.max_logs
count_limit l subscriptions = l.max_subscriptions

unfoldable pub check_count : DecodeBudget → CollectionKind → ℕ → Result BudgetError (Unit {0})
check_count b kind actual =
    let limit = count_limit b.limits kind in
    if ltb limit actual then err (collection kind limit actual) else ok tt

-- A decoder charges one amount after another and stops at the first refusal.
unfoldable pub charge_all : DecodeBudget → List ℕ → DecodeBudget × Result BudgetError (Unit {0})
unfolding charge_bytes
charge_all b [] = (b, ok tt)
charge_all b (n ∷ ns) =
    let (b', answer) = charge_bytes b n in
    let rest = charge_all b' ns in elim answer [ ok _ ↦ rest | err e ↦ (b', err e) ]

abbrev pub sum : List ℕ → ℕ
sum [] = 0
sum (n ∷ ns) = n + sum ns

-- The amounts of one decode are all charged exactly where their sum and what was consumed before
-- stay within the negotiated message limit, for a limit that a usize holds and a budget within it.
pub charge_all-ok_iff :
    (b : DecodeBudget) (ns : List ℕ)
    → b.consumed_message_bytes ≤ b.limits.max_message_bytes
    → b.limits.max_message_bytes ≤ usize_max
    → ((charge_all b ns).1 ≡ ok tt)
      ↔ (b.consumed_message_bytes + sum ns ≤ b.limits.max_message_bytes)
unfolding charge_all charge_bytes
charge_all-ok_iff b [] h r = (λ _. omega arith, λ _. refl)
charge_all-ok_iff b (n ∷ ns) h r = ground (
  arith,
  charge_all-ok_iff (record b { consumed_message_bytes = b.consumed_message_bytes + n }) ns,
)
