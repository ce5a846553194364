-- ===== src/Store/Leaves.antt =====
-- What a handler leaves behind, with a rule for the conditional, so that a proof follows the code.
use lumen_project_final.Prelude.{◌≡◌, refl, Bool, true, false, if◌then◌else◌}
use lumen_project_final.Store.{Store}

-- `P` holds of the store that comes back beside the reply.
pub record Leaves {ℓ} {A : Type ℓ} (P : Store → Type 0) (r : A × Store) : Type 0 where
  pub holds : P r.1

module _ {ℓ} {A : Type ℓ} {P : Store → Type 0} where
  pub Leaves-if :
      (b : Bool) {x y : A × Store}
      → (b ≡ true → Leaves P x)
      → (b ≡ false → Leaves P y)
      → Leaves P (if b then x else y)
  Leaves-if true p q = p refl
  Leaves-if false p q = q refl

  pub leave : {a : A} {s : Store} → P s → Leaves P (a, s)
  leave h = record { holds = h }
