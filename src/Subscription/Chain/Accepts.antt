-- ===== src/Subscription/Chain/Accepts.antt =====
-- The check accepts exactly the nodes whose dependencies are all there and have a rank.
use caly.Base.{
  ℕ, suc, ◌<◌, ◌≡◌, refl, subst, ◌↔◌, inl, inr, true, Option, none, some, List, [], ◌∷◌, length,
  elem, ◌==◌, ==→eq, ==_refl, arith, Bool-cases, Option-cases,
}
use caly.Base.Result.{Result, ok, err, Result-cases}
use caly.Base.Table.{get}
use caly.Domain.State.{is_some}
use caly.Subscription.Chain.{
  DialableNode, ChainError, cycle, complete, Dependencies, Visits, keys, dependency, dependencies,
  check_present, walk_all, validate_chains,
}
use caly.Subscription.Chain.Walk.{get-keys, Closed, Rises}
use caly.Subscription.Chain.Settled.{Settled}
use caly.Subscription.Chain.Ranked.{WalkedTo, FoundAll, walk_all-FoundAll}

module _ (deps : Dependencies) where
  -- The dependency of a node, where it has one, is a node of the map; or has a lower rank.
  abbrev pub Held : Option ℕ → Type 0
  Held none = Unit {0}
  Held (some d) = is_some (get d deps) ≡ true

  abbrev pub AllHeld : List ℕ → Type 0
  AllHeld [] = Unit {0}
  AllHeld (k ∷ ks) = Held (dependency deps k) × AllHeld ks

  abbrev pub Lower : (ℕ → ℕ) → ℕ → Option ℕ → Type 0
  Lower rank k none = Unit {0}
  Lower rank k (some d) = rank d < rank k

  abbrev pub Ascending : (ℕ → ℕ) → List ℕ → Type 0
  Ascending rank [] = Unit {0}
  Ascending rank (k ∷ ks) = Lower rank k (dependency deps k) × Ascending rank ks

  keys-get : (k : ℕ) (t : Dependencies) → elem k (keys t) ≡ true → is_some (get k t) ≡ true
  unfolding get
  keys-get k [] h = cc
  keys-get k ((j, w) ∷ t) h = ground (arith, keys-get k t)

  check_present-ok : (ks : List ℕ) → check_present deps ks ≡ ok tt → AllHeld ks
  unfolding check_present
  check_present-ok [] h = tt
  check_present-ok (k ∷ ks) h = elim (Option-cases (dependency deps k)) [
    | inl leaf ↦ (rw leaf tt, check_present-ok ks (rw leaf at h))
    | inr (d, e) ↦ elim (Bool-cases (is_some (get d deps))) [
      | inl there ↦ (rw e there, check_present-ok ks (rw (e, there) at h))
      | inr missing ↦ cc (rw (e, missing) at h)
    ]
  ]

  check_present-held : (ks : List ℕ) → AllHeld ks → check_present deps ks ≡ ok tt
  unfolding check_present
  check_present-held [] h = refl
  check_present-held (k ∷ ks) (h, hs) = elim (Option-cases (dependency deps k)) [
    | inl leaf ↦ rw leaf (check_present-held ks hs)
    | inr (d, e) ↦
        let there : is_some (get d deps) ≡ true = rw e at h in
        rw (e, there) (check_present-held ks hs)
  ]

  AllHeld-at : (k : ℕ) (ks : List ℕ) → AllHeld ks → elem k ks ≡ true → Held (dependency deps k)
  AllHeld-at k [] h e = cc
  AllHeld-at k (j ∷ ks) (h, hs) e = elim (Bool-cases (j == k)) [
    | inl same ↦ subst (λ i. Held (dependency deps i)) (==→eq j k same) h
    | inr other ↦ AllHeld-at k ks hs (rw other at e)
  ]

  Ascending-at :
      (rank : ℕ → ℕ) (k : ℕ) (ks : List ℕ)
      → Ascending rank ks
      → elem k ks ≡ true
      → Lower rank k (dependency deps k)
  Ascending-at rank k [] h e = cc
  Ascending-at rank k (j ∷ ks) (h, hs) e = elim (Bool-cases (j == k)) [
    | inl same ↦ subst (λ i. Lower rank i (dependency deps i)) (==→eq j k same) h
    | inr other ↦ Ascending-at rank k ks hs (rw other at e)
  ]

  -- A node with a dependency is a key.
  dependent_key : (n d : ℕ) → dependency deps n ≡ some d → elem n (keys deps) ≡ true
  dependent_key n d e = get-keys n deps (ground arith)

  Ascending-Rises : (rank : ℕ → ℕ) → Ascending rank (keys deps) → Rises deps rank
  Ascending-Rises rank h n d e = rw e at (Ascending-at rank n (keys deps) h (dependent_key n d e))

  AllHeld-Closed : AllHeld (keys deps) → Closed deps
  AllHeld-Closed h n d e = rw e at (AllHeld-at n (keys deps) h (dependent_key n d e))

  Settled-Ascending :
      (after : Visits) (rank : ℕ → ℕ) (bound : ℕ) (ks : List ℕ)
      → Settled deps (λ j. get j after) rank bound
      → ((j : ℕ) → elem j ks ≡ true → get j after ≡ some complete)
      → Ascending rank ks
  Settled-Ascending after rank bound [] s done = tt
  Settled-Ascending after rank bound (k ∷ ks) s done = (
    elim (s k) [
      | inl never ↦ cc (done k (rw (==_refl k)))
      | inr (_, _, inl leaf) ↦ rw leaf tt
      | inr (_, _, inr (d, e, _, low)) ↦ rw e low
    ],
    Settled-Ascending after rank bound ks s (λ j i. done j (ground arith)),
  )

  map_length : (t : Dependencies) → length (keys t) ≡ length t
  map_length [] = refl
  map_length (e ∷ t) = omega (arith, map_length t)

  second_loop :
      AllHeld (keys deps)
      → FoundAll deps [] (keys deps) (walk_all (suc (length deps)) deps [] (keys deps))
  unfolding get
  second_loop held =
      let n = map_length deps in
      walk_all-FoundAll deps (suc (length deps)) (keys deps) [] (λ j. 0) 0 (AllHeld-Closed held)
        (λ j h. keys-get j deps h) (omega arith) (λ j. inl refl)

-- The check always returns, and accepts exactly the nodes of which, by the map that their identities
-- key, each dependency is a node and some rank goes down along every dependency: no chain of dialers
-- runs into a node that is missing, or into itself.
pub validate_chains-ok_iff :
    (nodes : List DialableNode)
    → let deps = dependencies nodes in
      ((r : Result ChainError (Unit {0})) × (validate_chains nodes ≡ some r))
      × ((validate_chains nodes ≡ some (ok tt))
          ↔ (AllHeld deps (keys deps) × ((rank : ℕ → ℕ) × Ascending deps rank (keys deps))))
unfolding validate_chains FoundAll WalkedTo
validate_chains-ok_iff nodes =
    let deps = dependencies nodes in
    elim (Result-cases (check_present deps (keys deps))) [
      | inr (e, refused) ↦
          rw refused ((err e, refl), (λ h. cc, λ h. cc (check_present-held deps (keys deps) h.0)))
      | inl (_, passed) ↦
          let held = check_present-ok deps (keys deps) passed in
          elim (second_loop deps held) [
            | inl (node, e, no_rank) ↦
                rw (passed, e)
                  (
                    (err (cycle node), refl),
                    (λ h. cc, λ h. cc (no_rank h.1.0 (Ascending-Rises deps h.1.0 h.1.1))),
                  )
            | inr (after, e, ((rank, bound, s), keeps, done)) ↦
                rw (passed, e)
                  (
                    (ok tt, refl),
                    (
                      λ h. (
                        held,
                        (rank, Settled-Ascending deps after rank bound (keys deps) s done),
                      ),
                      λ h. refl,
                    ),
                  )
          ]
    ]
