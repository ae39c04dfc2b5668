-- ===== src/Subscription/Chain/Walk.antt =====
-- One walk of `walk_chain`: it ends, and finds a cycle or a path to a node that is complete.
use caly.Base.{
  ℕ, zero, suc, ◌≤◌, ◌<◌, ◌≡◌, refl, sym, subst, ◌∙◌, ◌⊎◌, inl, inr, true, false, Option, none,
  some, List, [], ◌∷◌, length, elem, IsDistinct, ◌==◌, ==→eq, if◌then◌else◌, arith, Bool-cases,
  Option-cases,
}
use caly.Base.Result.{Result, ok, err}
use caly.Base.Table.{get, put, get-put}
use caly.Domain.State.{is_some}
use caly.Subscription.Chain.{
  ChainError, cycle, Visit, visiting, complete, Dependencies, Visits, keys, dependency, walk_loop,
}

-- The keys that no visit stands for.
abbrev pub unvisited : Visits → List ℕ → ℕ
unvisited visits [] = 0
unvisited visits (k ∷ ks) =
    let rest = unvisited visits ks in if is_some (get k visits) then rest else suc rest

pub unvisited-le : (visits : Visits) (ks : List ℕ) → unvisited visits ks ≤ length ks
unvisited-le visits [] = omega arith
unvisited-le visits (k ∷ ks) = ground (arith, unvisited-le visits ks)

unvisited-put-le :
    (n : ℕ) (v : Visit) (visits : Visits) (ks : List ℕ)
    → unvisited (put n v visits) ks ≤ unvisited visits ks
unvisited-put-le n v visits [] = omega arith
unvisited-put-le n v visits (k ∷ ks) =
    ground (arith, unvisited-put-le n v visits ks, get-put k n v visits)

unvisited-put :
    (n : ℕ) (v : Visit) (visits : Visits) (ks : List ℕ)
    → elem n ks ≡ true
    → get n visits ≡ none
    → unvisited (put n v visits) ks < unvisited visits ks
unvisited-put n v visits [] h e = cc
unvisited-put n v visits (k ∷ ks) h e = ground (
  arith,
  unvisited-put n v visits ks,
  unvisited-put-le n v visits ks,
  get-put k n v visits,
  ==→eq k n,
)

-- A node that the map holds is one of its keys.
pub get-keys :
    (k : ℕ) (deps : Dependencies) → is_some (get k deps) ≡ true → elem k (keys deps) ≡ true
unfolding get
get-keys k [] h = cc
get-keys k ((j, w) ∷ t) h = ground (arith, get-keys k t)

module _ (deps : Dependencies) where
  -- Each dependency is a node of the map.
  abbrev pub Closed : Type 0
  Closed = (n d : ℕ) → dependency deps n ≡ some d → is_some (get d deps) ≡ true

  -- The rank goes down along each dependency.
  abbrev pub Rises : (ℕ → ℕ) → Type 0
  Rises rank = (n d : ℕ) → dependency deps n ≡ some d → rank d < rank n

  -- Each node of the path, newest first, depends on the one before it in the list, and the newest on
  -- the current one.
  abbrev pub Linked : List ℕ → Option ℕ → Type 0
  Linked [] current = Unit {0}
  Linked (v ∷ path) current = (dependency deps v ≡ current) × Linked path (some v)

  Linked-rank :
      (rank : ℕ → ℕ) (path : List ℕ) (current v : ℕ)
      → Rises rank
      → Linked path (some current)
      → elem v path ≡ true
      → rank current < rank v
  Linked-rank rank [] current v r l h = cc
  Linked-rank rank (u ∷ path) current v r (d, l) h =
      let up = r u current d in
      elim (Bool-cases (u == v)) [
        | inl same ↦ subst (λ w. rank current < rank w) (==→eq u v same) up
        | inr other ↦ let below = Linked-rank rank path u v r l (rw other at h) in omega arith
      ]

  module _ (before : Visits) (start : ℕ) where
    -- How far a walk that began with the visits `before` has come.
    pub record Reached (visits : Visits) (path : List ℕ) (current : Option ℕ) : Type 0 where
      pub linked : Linked path current
      pub distinct : IsDistinct path
      pub rooted : (current ≡ some start) ⊎ (elem start path ≡ true)
      pub seen : (j : ℕ) → get j visits ≡ (if elem j path then some visiting else get j before)
      pub fresh : (j : ℕ) → elem j path ≡ true → get j before ≡ none

    -- Only complete nodes were visited.
    abbrev pub NoneVisiting : Type 0
    NoneVisiting = (j : ℕ) → (get j before ≡ none) ⊎ (get j before ≡ some complete)

    -- The walk ends at a node without a dependency, or at one that was complete.
    abbrev pub Ends : Option ℕ → Type 0
    Ends current =
        (current ≡ none) ⊎ ((d : ℕ) × (current ≡ some d) × (get d before ≡ some complete))

    abbrev pub Outcome : Option (Result ChainError (Visits × List ℕ)) → Type 0
    Outcome walked =
        ((node : ℕ) × (walked ≡ some (err (cycle node)))
          × ((rank : ℕ → ℕ) → Rises rank → true ≡ false))
        ⊎ ((visits : Visits) × (path : List ℕ) × (current : Option ℕ) × (walked
              ≡ some (ok (visits, path)))
            × Reached visits path current
            × Ends current)

    -- A node that was not visited yet was not visited before the walk.
    unseen_before :
        (visits : Visits) (path : List ℕ) (current : Option ℕ) (node : ℕ)
        → Reached visits path current
        → get node visits ≡ none
        → (get node before ≡ none) × (elem node path ≡ false)
    unseen_before visits path current node r e =
        let s = r.seen node in (ground (arith, r.fresh node), ground arith)

    step-Reached :
        (visits : Visits) (path : List ℕ) (node : ℕ)
        → Reached visits path (some node)
        → get node visits ≡ none
        → Reached (put node visiting visits) (node ∷ path) (dependency deps node)
    step-Reached visits path node r e = record {
      linked = (refl, r.linked);
      distinct = ((unseen_before visits path (some node) node r e).1, r.distinct);
      rooted = inr (elim r.rooted [ inl first ↦ ground arith | inr behind ↦ ground arith ]);
      seen = λ j. ground (arith, get-put j node visiting visits, r.seen j);
      fresh = λ j h. elim (Bool-cases (node == j)) [
        | inl same ↦
            subst (λ k. get k before ≡ none) (==→eq node j same)
              (unseen_before visits path (some node) node r e).0
        | inr other ↦ r.fresh j (rw other at h)
      ];
    }

    settled_before :
        (visits : Visits) (path : List ℕ) (node : ℕ)
        → NoneVisiting
        → Reached visits path (some node)
        → get node visits ≡ some complete
        → get node before ≡ some complete
    settled_before visits path node none_visiting r was =
        let s = r.seen node in
        elim (Bool-cases (elem node path)) [
          | inl here ↦ cc (rw here at s)
          | inr elsewhere ↦ sym (rw elsewhere at s) ∙ was
        ]

    walked_here :
        (visits : Visits) (path : List ℕ) (node : ℕ)
        → NoneVisiting
        → Reached visits path (some node)
        → get node visits ≡ some visiting
        → elem node path ≡ true
    walked_here visits path node none_visiting r was =
        let s = r.seen node in
        elim (Bool-cases (elem node path)) [
          | inl here ↦ here
          | inr elsewhere ↦ elim (none_visiting node) [
            | inl never ↦ cc (rw elsewhere at s)
            | inr done ↦ cc (rw elsewhere at s)
          ]
        ]

    pub walk_loop-Outcome :
        (fuel : ℕ) (visits : Visits) (path : List ℕ) (current : Option ℕ)
        → Closed
        → NoneVisiting
        → Reached visits path current
        → ((d : ℕ) → current ≡ some d → is_some (get d deps) ≡ true)
        → unvisited visits (keys deps) < fuel
        → Outcome (walk_loop fuel deps visits path current)
    unfolding walk_loop
    walk_loop-Outcome zero visits path current closed none_visiting r known h = absurd (omega arith)
    walk_loop-Outcome (suc fuel) visits path none closed none_visiting r known h =
        inr (visits, path, none, refl, r, inl refl)
    walk_loop-Outcome (suc fuel) visits path (some node) closed none_visiting r known h =
        elim (Option-cases (get node visits)) [
          | inl unseen ↦
              let key = get-keys node deps (known node refl) in
              let fewer = unvisited-put node visiting visits (keys deps) key unseen in
              rw unseen (
                walk_loop-Outcome fuel (put node visiting visits) (node ∷ path)
                  (dependency deps node) closed none_visiting
                  (step-Reached visits path node r unseen) (λ d e. closed node d e) (omega arith))
          | inr (complete, was) ↦ rw was (
              inr (
                visits,
                path,
                some node,
                refl,
                r,
                inr (node, refl, settled_before visits path node none_visiting r was),
              ))
          | inr (visiting, was) ↦
              let on_path = walked_here visits path node none_visiting r was in
              rw was (
                inl (
                  node,
                  refl,
                  λ rank rises.
                      let below = Linked-rank rank path node node rises r.linked on_path in
                      absurd (omega arith),
                ))
        ]
