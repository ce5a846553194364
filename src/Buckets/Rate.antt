-- ===== src/Buckets/Rate.antt =====
-- What a bucket gives out over time (speed_limit.py: `_Bucket`).
use native.Mathlib.Nat.{add-mul}
use lumen_project_final.Prelude.{
  ℕ, zero, suc, ◌+◌, ◌*◌, ◌-◌, ◌≤◌, ◌<◌, ◌≡◌, refl, min, Bool, true, List, [], ◌∷◌, if◌then◌else◌,
  ltb, leb, arith, sym, ap, ◌∙◌, ◌&&◌, Bool-cases, inl, inr,
}
use lumen_project_final.Buckets.{Bucket, refill, take_slice, slices, consumed_slices}

-- An attempt to take a slice, at a time.
pub record Attempt : Type 0 where
  pub now : ℕ
  pub amount : ℕ

-- The bucket after some attempts, and the tokens that were taken.
unfoldable pub attempts : List Attempt → Bucket → ℕ × Bucket
unfolding take_slice
attempts [] b = (0, b)
attempts (a ∷ rest) b =
    let step = take_slice a.now a.amount b in
    let later = attempts rest step.1 in ((if step.0 then a.amount else 0) + later.0, later.1)

-- Tokens gained against the time that has passed.
record Spent (taken : ℕ) (b b' : Bucket) : Type 0 where
  same : b'.rate ≡ b.rate
  budget : taken + b'.tokens + b.last * b.rate ≤ b.tokens + b'.last * b.rate

passed : (last now rate : ℕ) → last < now → (now - last) * rate + last * rate ≡ now * rate
passed last now rate h =
    let whole : now - last + last ≡ now = omega (arith, h) in
    sym (add-mul (now - last) last rate) ∙ ap (λ t. t * rate) whole

refill-Spent : (now : ℕ) (b : Bucket) → Spent 0 b (refill now b)
unfolding refill
refill-Spent now b = elim (Bool-cases (ltb b.last now)) [
  | inl later ↦
      rw (later, refill)
        (record { same = refl; budget = omega (arith, passed b.last now b.rate (ground arith)) })
  | inr early ↦ rw (early, refill) (record { same = refl; budget = omega arith })
]

take_slice-Spent :
    (now amount : ℕ) (b : Bucket)
    → Spent (if (take_slice now amount b).0 then amount else 0) b (take_slice now amount b).1
unfolding take_slice
take_slice-Spent now amount b =
    let v = refill-Spent now b in
    elim (Bool-cases (leb amount (refill now b).tokens)) [
      | inl enough ↦
          rw (enough, take_slice) (record { same = v.same; budget = ground (arith, v.budget) })
      | inr short ↦ rw (short, take_slice) v
    ]

attempts-Spent : (xs : List Attempt) (b : Bucket) → Spent (attempts xs b).0 b (attempts xs b).1
unfolding attempts
attempts-Spent [] b = record { same = refl; budget = omega arith }
attempts-Spent (a ∷ rest) b =
    let b' = (take_slice a.now a.amount b).1 in
    let v = take_slice-Spent a.now a.amount b in
    let w = attempts-Spent rest b' in
    record { same = w.same ∙ v.same; budget = omega (arith, v.budget, rw v.same at w.budget) }

-- Over any attempts, at any times, a bucket gives out no more than the tokens it had and its rate
-- times the time that has passed.
pub attempts_budget :
    (xs : List Attempt) (b : Bucket)
    → (attempts xs b).0 + b.last * b.rate ≤ b.tokens + (attempts xs b).1.last * b.rate
attempts_budget xs b = omega (arith, (attempts-Spent xs b).budget)

unfoldable pub sum : List ℕ → ℕ
sum [] = 0
sum (x ∷ xs) = x + sum xs

unfoldable pub all_within : ℕ → List ℕ → Bool
all_within capacity [] = true
all_within capacity (x ∷ xs) = leb x capacity && all_within capacity xs

slices_whole :
    (fuel capacity remaining : ℕ)
    → 0 < capacity
    → remaining ≤ fuel
    → (sum (slices fuel capacity remaining) ≡ remaining)
      × (all_within capacity (slices fuel capacity remaining) ≡ true)
unfolding sum all_within slices
slices_whole zero capacity remaining room enough = (omega (arith, enough), refl)
slices_whole (suc fuel) capacity remaining room enough =
    let rest =
      slices_whole fuel capacity (remaining - min remaining capacity) room
        (omega (arith, enough)) in
    elim (Bool-cases (ltb 0 remaining)) [
      | inl some_ ↦ rw (some_, slices) (omega (arith, rest.0), ground (arith, rest.1))
      | inr none_ ↦ rw (none_, slices) (ground arith, refl)
    ]

-- A caller waits for all of its bytes, in slices of which each fits into the bucket, so that waiting
-- long enough always gives the next slice.
pub consumed_slices_whole :
    (b : Bucket) (nbytes : ℕ)
    → 0 < b.capacity
    → (sum (consumed_slices b nbytes) ≡ 1000 * nbytes)
      × (all_within b.capacity (consumed_slices b nbytes) ≡ true)
unfolding consumed_slices
consumed_slices_whole b nbytes room =
    slices_whole (1000 * nbytes) b.capacity (1000 * nbytes) room (omega arith)
