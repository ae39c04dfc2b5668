-- ===== src/Base/Table.antt =====
-- `HashMap` keyed by 128-bit identities: an association list with one entry for each key.
use Prim.Native.Nat.{ℕ, suc, ◌≤◌}
use mathlib.Core.Path.{◌≡◌, refl}
use mathlib.Core.Bool.{Bool}
use mathlib.Core.List.{List, [], ◌∷◌}
use mathlib.Core.Option.{Option, none, some}
use native.Mathlib.Omega.{arith}
use caly.Base.Tests.{◌==◌, if◌then◌else◌}
use caly.Base.Lists.{length}

module _ {ℓ} {V : Type ℓ} where
  unfoldable pub get : ℕ → List (ℕ × V) → Option V
  get k [] = none
  get k ((j, v) ∷ t) = if j == k then some v else get k t

  -- `HashMap::insert`, and a write through `get_mut`.
  unfoldable pub put : ℕ → V → List (ℕ × V) → List (ℕ × V)
  put k v [] = (k, v) ∷ []
  put k v ((j, w) ∷ t) = if j == k then (k, v) ∷ t else (j, w) ∷ put k v t

  unfoldable pub remove : ℕ → List (ℕ × V) → List (ℕ × V)
  remove k [] = []
  remove k ((j, w) ∷ t) = if j == k then remove k t else (j, w) ∷ remove k t

  -- `HashMap::retain`.
  unfoldable pub keep : (V → Bool) → List (ℕ × V) → List (ℕ × V)
  keep p [] = []
  keep p ((j, w) ∷ t) = if p w then (j, w) ∷ keep p t else keep p t

  unfoldable pub size : List (ℕ × V) → ℕ
  size t = length t

  -- One entry for each key, as in a hash map.
  unfoldable pub IsKeyed : List (ℕ × V) → Type ℓ
  IsKeyed [] = Unit
  IsKeyed ((k, v) ∷ t) = (get k t ≡ none) × IsKeyed t

  pub get-put :
      (j k : ℕ) (v : V) (t : List (ℕ × V))
      → get j (put k v t) ≡ (if k == j then some v else get j t)
  unfolding get put
  get-put j k v [] = refl
  get-put j k v ((i, w) ∷ t) = ground (arith, get-put j k v t)

  pub get-remove :
      (j k : ℕ) (t : List (ℕ × V)) → get j (remove k t) ≡ (if k == j then none else get j t)
  unfolding get remove
  get-remove j k [] = ground arith
  get-remove j k ((i, w) ∷ t) = ground (arith, get-remove j k t)

  pub put-IsKeyed : (k : ℕ) (v : V) (t : List (ℕ × V)) → IsKeyed t → IsKeyed (put k v t)
  unfolding IsKeyed put get
  put-IsKeyed k v [] h = (refl, tt)
  put-IsKeyed k v ((i, w) ∷ t) h = ground (arith, put-IsKeyed k v t h.1, get-put i k v t)

  pub remove-IsKeyed : (k : ℕ) (t : List (ℕ × V)) → IsKeyed t → IsKeyed (remove k t)
  unfolding IsKeyed remove get
  remove-IsKeyed k [] h = tt
  remove-IsKeyed k ((i, w) ∷ t) h = ground (arith, remove-IsKeyed k t h.1, get-remove i k t)

  pub size-put_fresh :
      (k : ℕ) (v : V) (t : List (ℕ × V)) → get k t ≡ none → size (put k v t) ≡ suc (size t)
  unfolding get put size
  size-put_fresh k v [] h = refl
  size-put_fresh k v ((i, w) ∷ t) h = ground (arith, size-put_fresh k v t)

  pub size-put_held :
      (k : ℕ) (v w : V) (t : List (ℕ × V)) → get k t ≡ some w → size (put k v t) ≡ size t
  unfolding get put size
  size-put_held k v w [] h = cc
  size-put_held k v w ((i, u) ∷ t) h = ground (arith, size-put_held k v w t)

  pub remove_fresh : (k : ℕ) (t : List (ℕ × V)) → get k t ≡ none → remove k t ≡ t
  unfolding get remove
  remove_fresh k [] h = refl
  remove_fresh k ((i, w) ∷ t) h = ground (arith, remove_fresh k t)

  pub size-remove-le : (k : ℕ) (t : List (ℕ × V)) → size (remove k t) ≤ size t
  unfolding remove size
  size-remove-le k [] = omega arith
  size-remove-le k ((i, w) ∷ t) = ground (arith, size-remove-le k t)

  pub size-remove :
      (k : ℕ) (v : V) (t : List (ℕ × V))
      → IsKeyed t
      → get k t ≡ some v
      → suc (size (remove k t)) ≡ size t
  unfolding get remove size IsKeyed
  size-remove k v [] d h = cc
  size-remove k v ((i, w) ∷ t) d h =
      ground (arith, size-remove k v t d.1, remove_fresh i t d.0, remove_fresh k t)
