-- ===== src/Subscription/Chain/Ranked.antt =====
-- The walks of the second loop: a cycle that no rank allows, or complete nodes that have a rank.
use caly.Base.{
  ℕ, ◌<◌, ◌≡◌, refl, sym, subst, ◌∙◌, ◌⊎◌, inl, inr, true, false, Option, none, some, List, [], ◌∷◌,
  length, elem, ◌==◌, ==→eq, ==_refl, if◌then◌else◌, arith, Bool-cases,
}
use caly.Base.Result.{Result, ok, err}
use mathlib.Core.Path.{fun_ext}
use caly.Base.Table.{get}
use caly.Domain.State.{is_some}
use caly.Subscription.Chain.{
  ChainError, cycle, complete, Dependencies, Visits, keys, walk_loop, complete_all, walk_chain,
  walk_all, completed,
}
use caly.Subscription.Chain.Walk.{
  Closed, Rises, Reached, NoneVisiting, walk_loop-Outcome, unvisited-le,
}
use caly.Subscription.Chain.Settled.{
  marked_all, marked_all_value, complete_all_value, Settled, settle_path,
}

module _ (deps : Dependencies) where
  -- A walk over some keys leaves the complete nodes ranked and complete, and those keys among them.
  unfoldable pub WalkedTo : Visits → List ℕ → Visits → Type 0
  WalkedTo visits ks after =
      ((rank : ℕ → ℕ) × (bound : ℕ) × Settled deps (λ j. get j after) rank bound)
      × ((j : ℕ) → get j visits ≡ some complete → get j after ≡ some complete)
      × ((j : ℕ) → elem j ks ≡ true → get j after ≡ some complete)

  -- A node's visit after its walk was completed.
  final :
      (visits after : Visits) (start : ℕ) (path : List ℕ) (current : Option ℕ)
      → Reached deps visits start after path current
      → (j : ℕ)
      → get j (complete_all after path) ≡ (if elem j path then some complete else get j visits)
  final visits after start path current r j =
      let seen = r.seen j in complete_all_value after path j ∙ ground arith

  final_marked :
      (visits after : Visits) (start : ℕ) (path : List ℕ) (current : Option ℕ)
      → Reached deps visits start after path current
      → (j : ℕ) → get j (complete_all after path) ≡ marked_all (λ i. get i visits) path j
  final_marked visits after start path current r j =
      final visits after start path current r j ∙ sym (marked_all_value (λ i. get i visits) path j)

  completed_start :
      (visits after : Visits) (start : ℕ) (path : List ℕ) (current : Option ℕ)
      → Reached deps visits start after path current
      → (current ≡ none) ⊎ ((d : ℕ) × (current ≡ some d) × (get d visits ≡ some complete))
      → get start (complete_all after path) ≡ some complete
  completed_start visits after start path current r ends = elim r.rooted [
    | inr behind ↦ final visits after start path current r start ∙ rw behind
    | inl first ↦ elim ends [
      | inl stops ↦ cc
      | inr (d, e, c) ↦
          let same : d ≡ start = ground arith in
          let done : get start visits ≡ some complete =
            subst (λ k. get k visits ≡ some complete) same c in
          final visits after start path current r start ∙ ground arith
    ]
  ]

  completed_walk :
      (visits after : Visits) (start : ℕ) (path : List ℕ) (current : Option ℕ) (rank : ℕ → ℕ)
      (bound : ℕ)
      → Settled deps (λ j. get j visits) rank bound
      → Reached deps visits start after path current
      → (current ≡ none) ⊎ ((d : ℕ) × (current ≡ some d) × (get d visits ≡ some complete))
      → WalkedTo visits (start ∷ []) (complete_all after path)
  unfolding WalkedTo
  completed_walk visits after start path current rank bound s r ends =
      let (rank', bound', settled) =
        settle_path deps path (λ j. get j visits) rank bound current s r.linked ends r.distinct
          r.fresh in
      (
        (
          rank',
          bound',
          subst (λ f. Settled deps f rank' bound')
              (fun_ext (λ j. sym (final_marked visits after start path current r j))) settled,
        ),
        λ j h. final visits after start path current r j ∙ ground arith,
        λ j h.
            subst (λ k. get k (complete_all after path) ≡ some complete)
              (==→eq start j (ground arith))
              (completed_start visits after start path current r ends),
      )

  -- What `walk_chain` and `walk_all` find.
  Found : Visits → List ℕ → Option (Result ChainError Visits) → Type 0
  Found visits ks walked =
      ((node : ℕ) × (walked ≡ some (err (cycle node)))
        × ((rank : ℕ → ℕ) → Rises deps rank → true ≡ false))
      ⊎ ((after : Visits) × (walked ≡ some (ok after)) × WalkedTo visits ks after)

  none_visiting :
      (visits : Visits) (start : ℕ) (rank : ℕ → ℕ) (bound : ℕ)
      → Settled deps (λ j. get j visits) rank bound
      → NoneVisiting deps visits start
  none_visiting visits start rank bound s j = elim (s j) [
    | inl never ↦ inl never
    | inr (done, _, _) ↦ inr done
  ]

  start_Reached : (visits : Visits) (start : ℕ) → Reached deps visits start visits [] (some start)
  start_Reached visits start = record {
    linked = tt;
    distinct = tt;
    rooted = inl refl;
    seen = λ j. refl;
    fresh = λ j h. cc;
  }

  fresh_walk :
      (fuel : ℕ) (visits : Visits) (start : ℕ) (rank : ℕ → ℕ) (bound : ℕ)
      → Closed deps
      → is_some (get start deps) ≡ true
      → length (keys deps) < fuel
      → Settled deps (λ j. get j visits) rank bound
      → Found visits (start ∷ []) (completed (walk_loop fuel deps visits [] (some start)))
  unfolding Found
  fresh_walk fuel visits start rank bound closed key h s =
      let few = unvisited-le visits (keys deps) in
      let known : (d : ℕ) → ◌≡◌ {A = Option ℕ} (some start) (some d) → is_some (get d deps) ≡ true =
        λ d e. subst (λ k. is_some (get k deps) ≡ true) (ground arith) key in
      elim (walk_loop-Outcome deps visits start fuel visits [] (some start) closed
        (none_visiting visits start rank bound s) (start_Reached visits start) known
        (omega arith)) [
          | inl (node, e, no_rank) ↦ inl (node, rw e, no_rank)
          | inr (after, path, current, e, r, ends) ↦ inr (
            complete_all after path,
            rw e,
            completed_walk visits after start path current rank bound s r ends,
          )
        ]

  walk_chain-Found :
      (fuel : ℕ) (visits : Visits) (start : ℕ) (rank : ℕ → ℕ) (bound : ℕ)
      → Closed deps
      → is_some (get start deps) ≡ true
      → length (keys deps) < fuel
      → Settled deps (λ j. get j visits) rank bound
      → Found visits (start ∷ []) (walk_chain fuel deps visits start)
  unfolding walk_chain WalkedTo Found
  walk_chain-Found fuel visits start rank bound closed key h s = elim (s start) [
    | inl never ↦ rw never (fresh_walk fuel visits start rank bound closed key h s)
    | inr (done, _, _) ↦ rw done (
        inr (
          visits,
          refl,
          (
            (rank, bound, s),
            λ j e. e,
            λ j e. subst (λ k. get k visits ≡ some complete) (==→eq start j (ground arith)) done,
          ),
        ))
  ]

  unfoldable pub FoundAll : Visits → List ℕ → Option (Result ChainError (Unit {0})) → Type 0
  FoundAll visits ks walked =
      ((node : ℕ) × (walked ≡ some (err (cycle node)))
        × ((rank : ℕ → ℕ) → Rises deps rank → true ≡ false))
      ⊎ ((after : Visits) × (walked ≡ some (ok tt)) × WalkedTo visits ks after)

  pub walk_all-FoundAll :
      (fuel : ℕ) (ks : List ℕ) (visits : Visits) (rank : ℕ → ℕ) (bound : ℕ)
      → Closed deps
      → ((j : ℕ) → elem j ks ≡ true → is_some (get j deps) ≡ true)
      → length (keys deps) < fuel
      → Settled deps (λ j. get j visits) rank bound
      → FoundAll visits ks (walk_all fuel deps visits ks)
  unfolding walk_all FoundAll WalkedTo Found
  walk_all-FoundAll fuel [] visits rank bound closed known h s =
      inr (visits, refl, ((rank, bound, s), λ j e. e, λ j e. cc))
  walk_all-FoundAll fuel (k ∷ ks) visits rank bound closed known h s =
      let key = known k (rw (==_refl k)) in
      elim (walk_chain-Found fuel visits k rank bound closed key h s) [
        | inl (node, e, no_rank) ↦ rw e (inl (node, refl, no_rank))
        | inr (after, e, ((rank', bound', s'), keeps, done)) ↦
            let rest =
              walk_all-FoundAll fuel ks after rank' bound' closed (λ j i. known j (ground arith)) h
                s' in
            elim rest [
              | inl (node, e', no_rank) ↦ rw e (inl (node, e', no_rank))
              | inr (last, e', (settled, keeps', done')) ↦ rw e (
                  inr (
                    last,
                    e',
                    (
                      settled,
                      λ j c. keeps' j (keeps j c),
                      λ j i. elim (Bool-cases (k == j)) [
                        | inl same ↦ keeps' j (done j (rw same))
                        | inr other ↦ done' j (rw other at i)
                      ],
                    ),
                  ))
            ]
      ]
