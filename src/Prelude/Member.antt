-- ===== src/Prelude/Member.antt =====
-- Python's `in`, `remove` and guarded `append` on lists.
use mathlib.Core.Path.{◌≡◌, refl}
use mathlib.Core.Bool.{Bool, true, false, not, ◌&&◌, ◌||◌}
use mathlib.Core.List.{List, [], ◌∷◌, ◌++◌}
use native.Mathlib.Omega.{arith}
use lumen_project_final.Prelude.Tests.{if◌then◌else◌}
use lumen_project_final.Prelude.Eq.{Eq, ◌==◌}

module _ {ℓ} {A : Type ℓ} ⦃e : Eq A⦄ where
  -- `x in xs`
  unfoldable pub contains : A → List A → Bool
  contains x [] = false
  contains x (y ∷ ys) = y == x || contains x ys

  -- `xs.remove(x)` under `if x in xs`: the first occurrence goes.
  unfoldable pub remove_first : A → List A → List A
  remove_first x [] = []
  remove_first x (y ∷ ys) = if y == x then ys else y ∷ remove_first x ys

  -- `if x not in xs: xs.append(x)`
  unfoldable pub add_once : A → List A → List A
  unfolding contains
  add_once x xs = if contains x xs then xs else xs ++ x ∷ []

  unfoldable pub distinct : List A → Bool
  unfolding contains
  distinct [] = true
  distinct (x ∷ xs) = not (contains x xs) && distinct xs

  contains-append_one :
      (j x : A) (xs : List A) → contains j (xs ++ x ∷ []) ≡ (contains j xs || x == j)
  unfolding contains
  contains-append_one j x [] = ground arith
  contains-append_one j x (y ∷ ys) = ground (arith, contains-append_one j x ys)

  pub contains-add_once :
      (j x : A) (xs : List A) → contains j (add_once x xs) ≡ (x == j || contains j xs)
  unfolding add_once
  contains-add_once j x xs = ground (arith, contains-append_one j x xs, e.beq_iff x j)

  distinct-append_one :
      (x : A) (xs : List A)
      → contains x xs ≡ false
      → distinct xs ≡ true
      → distinct (xs ++ x ∷ []) ≡ true
  unfolding distinct
  distinct-append_one x [] fresh d = refl
  distinct-append_one x (y ∷ ys) fresh d =
      ground
        (arith, distinct-append_one x ys, contains-append_one y x ys, e.beq_iff x y, e.beq_iff y x)

  pub distinct-add_once :
      (x : A) (xs : List A) → distinct xs ≡ true → distinct (add_once x xs) ≡ true
  unfolding add_once
  distinct-add_once x xs d = ground (arith, distinct-append_one x xs)

  pub contains-remove_ne :
      (j k : A) (xs : List A) → (k == j) ≡ false → contains j (remove_first k xs) ≡ contains j xs
  unfolding contains remove_first
  contains-remove_ne j k [] h = refl
  contains-remove_ne j k (y ∷ ys) h =
      ground (arith, contains-remove_ne j k ys, e.beq_iff y k, e.beq_iff y j, e.beq_iff k j)

  pub contains-remove_first :
      (j k : A) (xs : List A)
      → distinct xs ≡ true
      → contains j (remove_first k xs) ≡ (if k == j then false else contains j xs)
  unfolding distinct remove_first
  contains-remove_first j k [] d = ground arith
  contains-remove_first j k (y ∷ ys) d =
      ground (arith, contains-remove_first j k ys, e.beq_iff y k, e.beq_iff y j, e.beq_iff k j)

  pub distinct-remove_first :
      (k : A) (xs : List A) → distinct xs ≡ true → distinct (remove_first k xs) ≡ true
  unfolding distinct remove_first
  distinct-remove_first k [] d = refl
  distinct-remove_first k (y ∷ ys) d = ground (
    arith,
    distinct-remove_first k ys,
    contains-remove_first y k ys,
    e.beq_iff k y,
    e.beq_iff y k,
  )
