-- ===== src/Subscription/Chain/Settled.antt =====
-- Completing the path of a walk keeps a rank on the complete nodes.
use caly.Base.{
  ℕ, suc, ◌<◌, ◌≡◌, refl, ap, subst, ◌∙◌, ◌⊎◌, inl, inr, true, false, Option, none, some, List, [],
  ◌∷◌, elem, IsDistinct, ◌==◌, ==→eq, ==_refl, if◌then◌else◌, arith, Bool-cases,
}
use caly.Base.Table.{get, put, get-put}
use caly.Subscription.Chain.{Visit, complete, Dependencies, Visits, dependency, complete_all}
use caly.Subscription.Chain.Walk.{Linked}

-- The visits with one node, or a path of nodes, complete.
abbrev pub marked : (ℕ → Option Visit) → ℕ → ℕ → Option Visit
marked seen v j = if v == j then some complete else seen j

abbrev pub marked_all : (ℕ → Option Visit) → List ℕ → ℕ → Option Visit
marked_all seen [] = seen
marked_all seen (v ∷ path) = marked_all (marked seen v) path

pub marked_all_value :
    (seen : ℕ → Option Visit) (path : List ℕ) (j : ℕ)
    → marked_all seen path j ≡ (if elem j path then some complete else seen j)
marked_all_value seen [] j = refl
marked_all_value seen (v ∷ path) j = marked_all_value (marked seen v) path j ∙ ground arith

pub complete_all_value :
    (visits : Visits) (path : List ℕ) (j : ℕ)
    → get j (complete_all visits path) ≡ (if elem j path then some complete else get j visits)
unfolding complete_all
complete_all_value visits [] j = refl
complete_all_value visits (v ∷ path) j =
    complete_all_value (put v complete visits) path j ∙ ground (arith, get-put j v complete visits)

module _ (deps : Dependencies) where
  -- What a complete node depends on is complete, and of lower rank.
  abbrev pub Below : (ℕ → Option Visit) → (ℕ → ℕ) → ℕ → Type 0
  Below seen rank j =
      (dependency deps j ≡ none)
      ⊎ ((d : ℕ) × (dependency deps j ≡ some d) × (seen d ≡ some complete) × (rank d < rank j))

  -- Each node is unvisited, or complete with a rank below the bound.
  abbrev pub Settled : (ℕ → Option Visit) → (ℕ → ℕ) → ℕ → Type 0
  Settled seen rank bound =
      (j : ℕ) → (seen j ≡ none) ⊎ ((seen j ≡ some complete) × (rank j < bound) × Below seen rank j)

  abbrev pub EndsAt : (ℕ → Option Visit) → Option ℕ → Type 0
  EndsAt seen current = (current ≡ none) ⊎ ((d : ℕ) × (current ≡ some d) × (seen d ≡ some complete))

  abbrev pub ranked : (ℕ → ℕ) → ℕ → ℕ → ℕ → ℕ
  ranked rank v bound j = if v == j then bound else rank j

  -- A complete node is another one than an unvisited one.
  apart :
      (seen : ℕ → Option Visit) (v d : ℕ)
      → seen v ≡ none
      → seen d ≡ some complete
      → (v == d) ≡ false
  apart seen v d n c = elim (Bool-cases (v == d)) [
    | inr other ↦ other
    | inl same ↦ cc (ap seen (==→eq v d same))
  ]

  marked-Below :
      (seen : ℕ → Option Visit) (rank : ℕ → ℕ) (bound v j : ℕ)
      → seen v ≡ none
      → (v == j) ≡ false
      → Below seen rank j
      → Below (marked seen v) (ranked rank v bound) j
  marked-Below seen rank bound v j n o (inl e) = inl e
  marked-Below seen rank bound v j n o (inr (d, e, c, r)) =
      let a = apart seen v d n c in inr (d, e, rw a c, rw (a, o) r)

  ranked-Below :
      (seen : ℕ → Option Visit) (rank : ℕ → ℕ) (bound v : ℕ) (current : Option ℕ)
      → Settled seen rank bound
      → seen v ≡ none
      → dependency deps v ≡ current
      → EndsAt seen current
      → Below (marked seen v) (ranked rank v bound) v
  ranked-Below seen rank bound v current s n l (inl e) = inl (l ∙ e)
  ranked-Below seen rank bound v current s n l (inr (d, e, c)) =
      let a = apart seen v d n c in
      elim (s d) [
        | inl never ↦ cc
        | inr (_, low, _) ↦ inr (d, l ∙ e, rw a c, rw (a, ==_refl v) low)
      ]

  settle :
      (seen : ℕ → Option Visit) (rank : ℕ → ℕ) (bound v : ℕ) (current : Option ℕ)
      → Settled seen rank bound
      → seen v ≡ none
      → dependency deps v ≡ current
      → EndsAt seen current
      → Settled (marked seen v) (ranked rank v bound) (suc bound)
  settle seen rank bound v current s n l ends j = elim (Bool-cases (v == j)) [
    | inl same ↦
        subst
          (λ k.
            (marked seen v k ≡ none)
            ⊎ ((marked seen v k ≡ some complete)
                × (ranked rank v bound k < suc bound)
                × Below (marked seen v) (ranked rank v bound) k))
          (==→eq v j same)
          (inr (
            rw (==_refl v),
            rw (==_refl v) (omega arith),
            ranked-Below seen rank bound v current s n l ends,
          ))
    | inr other ↦ elim (s j) [
      | inl never ↦ inl (rw other never)
      | inr (done, low, below) ↦
          inr
            (rw other done, rw other (omega arith), marked-Below seen rank bound v j n other below)
    ]
  ]

  pub settle_path :
      (path : List ℕ) (seen : ℕ → Option Visit) (rank : ℕ → ℕ) (bound : ℕ) (current : Option ℕ)
      → Settled seen rank bound
      → Linked deps path current
      → EndsAt seen current
      → IsDistinct path
      → ((j : ℕ) → elem j path ≡ true → seen j ≡ none)
      → (rank' : ℕ → ℕ) × (bound' : ℕ) × Settled (marked_all seen path) rank' bound'
  settle_path [] seen rank bound current s l ends d fresh = (rank, bound, s)
  settle_path (v ∷ path) seen rank bound current s (e, l) ends (once, d) fresh =
      settle_path path (marked seen v) (ranked rank v bound) (suc bound) (some v)
        (settle seen rank bound v current s (fresh v (rw (==_refl v))) e ends) l
        (inr (v, refl, rw (==_refl v))) d
        (λ j h. elim (Bool-cases (v == j)) [
          | inl same ↦ cc (ap (λ k. elem k path) (==→eq v j same))
          | inr other ↦ rw other (fresh j (rw other h))
        ])
