-- ===== src/Prelude/Dict.antt =====
-- Python's `dict`, in insertion order: a write to a key that is there keeps its place, a new key goes
-- to the end. `total` adds a number up over all values.
use Prim.Native.Nat.{ℕ, ◌+◌, ◌≤◌}
use mathlib.Core.Path.{◌≡◌, refl}
use mathlib.Core.Option.{Option, none, some}
use mathlib.Core.List.{List, [], ◌∷◌}
use native.Mathlib.Omega.{arith}
use lumen_project_final.Prelude.Tests.{if◌then◌else◌}
use lumen_project_final.Prelude.Eq.{Eq, ◌==◌, ==_refl}

abbrev pub Dict {ℓ κ} : Type ℓ → Type κ → Type (ℓ ⊔ κ)
Dict K V = List (K × V)

module _ {ℓ κ} {K : Type ℓ} {V : Type κ} where
  unfoldable pub keys : Dict K V → List K
  keys [] = []
  keys ((j, v) ∷ m) = j ∷ keys m

  unfoldable pub total : (V → ℕ) → Dict K V → ℕ
  total w [] = 0
  total w ((j, v) ∷ m) = w v + total w m

module _ {ℓ κ} {K : Type ℓ} {V : Type κ} ⦃e : Eq K⦄ where
  unfoldable pub get : K → Dict K V → Option V
  get k [] = none
  get k ((j, v) ∷ m) = if j == k then some v else get k m

  unfoldable pub put : K → V → Dict K V → Dict K V
  put k v [] = (k, v) ∷ []
  put k v ((j, w) ∷ m) = if j == k then (k, v) ∷ m else (j, w) ∷ put k v m

  unfoldable pub remove : K → Dict K V → Dict K V
  remove k [] = []
  remove k ((j, v) ∷ m) = let rest = remove k m in if j == k then rest else (j, v) ∷ rest

  pub get-put :
      (k j : K) (v : V) (m : Dict K V) → get j (put k v m) ≡ (if k == j then some v else get j m)
  unfolding get put
  get-put k j v [] = refl
  get-put k j v ((i, w) ∷ m) =
      ground (arith, e.beq_iff k j, e.beq_iff i k, e.beq_iff i j, get-put k j v m)

  pub get-remove :
      (k j : K) (m : Dict K V) → get j (remove k m) ≡ (if k == j then none else get j m)
  unfolding get remove
  get-remove k j [] = ground arith
  get-remove k j ((i, w) ∷ m) =
      ground (arith, e.beq_iff k j, e.beq_iff i k, e.beq_iff i j, get-remove k j m)

  pub get-put_self : (k : K) (v : V) (m : Dict K V) → get k (put k v m) ≡ some v
  get-put_self k v m = ground (arith, get-put k k v m, ==_refl k)

  -- A write replaces the contribution of the value that it overwrites.
  pub total-put :
      (w : V → ℕ) (k : K) (old v : V) (m : Dict K V)
      → get k m ≡ some old
      → total w (put k v m) + w old ≡ total w m + w v
  unfolding total get put
  total-put w k old v [] h = ground arith
  total-put w k old v ((j, u) ∷ m) h = ground (arith, total-put w k old v m)

  pub total-put_new :
      (w : V → ℕ) (k : K) (v : V) (m : Dict K V)
      → get k m ≡ none
      → total w (put k v m) ≡ total w m + w v
  unfolding total get put
  total-put_new w k v [] h = ground arith
  total-put_new w k v ((j, u) ∷ m) h = ground (arith, total-put_new w k v m)

module _ {ℓ κ} {K : Type ℓ} {V : Type κ} ⦃e : Eq K⦄ where
  pub get-le-total : (w : V → ℕ) (k : K) (v : V) (m : Dict K V) → get k m ≡ some v → w v ≤ total w m
  unfolding total get
  get-le-total w k v [] h = ground arith
  get-le-total w k v ((j, u) ∷ m) h = ground (arith, get-le-total w k v m)
