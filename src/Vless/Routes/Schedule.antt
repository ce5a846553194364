-- ===== src/Vless/Routes/Schedule.antt =====
-- When the connection attempts of a schedule start (relay_vless.py: `_connection_schedule`), and
-- the cooldown of a route.
use native.Mathlib.Nat.{pow-le-pow_right, one-le-pow}
use lumen_project_final.Prelude.{
  ℕ, suc, ◌*◌, ◌≤◌, ◌≡◌, refl, ◌^◌, ◌-◌, Bool, true, false, not, ◌&&◌, ◌||◌, Option, none, some,
  List, [], ◌∷◌, if◌then◌else◌, take, ap, arith, Bool-cases, inl, inr, leb,
}
use lumen_project_final.Vless.Routes.{
  Family, same_family, same_family_iff, Endpoint, connect_stagger, parallel_connect, base_delay,
  family_seen, cooled, schedule_from, connection_schedule, cooldown, route_failure_base,
  route_failure_max,
}

abbrev pub endpoints : List (ℕ × Endpoint) → List Endpoint
endpoints [] = []
endpoints ((delay, a) ∷ schedule) = a ∷ endpoints schedule

schedule_from-endpoints :
    (cooling : Endpoint → Bool) (seen : List Family) (extra : ℕ) (xs : List Endpoint)
    → endpoints (schedule_from cooling seen extra xs) ≡ xs
unfolding schedule_from
schedule_from-endpoints cooling seen extra [] = refl
schedule_from-endpoints cooling seen extra (a ∷ xs) =
    ap (◌∷◌ a) (schedule_from-endpoints cooling (a.family ∷ seen) _ xs)

-- Every address that cools down starts at least two staggers late.
abbrev pub all_late : (Endpoint → Bool) → List (ℕ × Endpoint) → Bool
all_late cooling [] = true
all_late cooling ((delay, a) ∷ schedule) =
    (not (cooling a) || leb (connect_stagger * 2) delay) && all_late cooling schedule

schedule_from-late :
    (cooling : Endpoint → Bool) (seen : List Family) (extra : ℕ) (xs : List Endpoint)
    → all_late cooling (schedule_from cooling seen extra xs) ≡ true
unfolding schedule_from cooled
schedule_from-late cooling seen extra [] = refl
schedule_from-late cooling seen extra (a ∷ xs) =
    let repeated = family_seen a.family seen in
    let extra' = if repeated then suc extra else extra in
    let rest = schedule_from-late cooling (a.family ∷ seen) extra' xs in
    elim (Bool-cases (cooling a)) [
      | inl cools ↦ rw (cools, cooled) (ground (arith, rest))
      | inr healthy ↦ rw (healthy, rest)
    ]

-- The delay of the first address of a family.
abbrev pub first_of : Family → List (ℕ × Endpoint) → Option (ℕ × Endpoint)
first_of f [] = none
first_of f ((delay, a) ∷ schedule) =
    if same_family a.family f then some (delay, a) else first_of f schedule

family_seen-same :
    (f g : Family) (seen : List Family)
    → same_family g f ≡ true
    → family_seen g seen ≡ family_seen f seen
family_seen-same f g seen same = ap (λ k. family_seen k seen) ((same_family_iff g f).0 same)

cooled-first : (b : Bool) → cooled b 0 ≡ (if b then connect_stagger * 2 else 0)
unfolding cooled
cooled-first true = omega arith
cooled-first false = refl

schedule_from-first_of :
    (cooling : Endpoint → Bool) (seen : List Family) (extra : ℕ) (xs : List Endpoint) (f : Family)
    (delay : ℕ) (a : Endpoint)
    → family_seen f seen ≡ false
    → first_of f (schedule_from cooling seen extra xs) ≡ some (delay, a)
    → delay ≡ (if cooling a then connect_stagger * 2 else 0)
unfolding schedule_from family_seen base_delay
schedule_from-first_of cooling seen extra [] f delay a new h = absurd (ground arith)
schedule_from-first_of cooling seen extra (x ∷ xs) f delay a new h =
    let repeated = family_seen x.family seen in
    let extra' = if repeated then suc extra else extra in
    elim (Bool-cases (same_family x.family f)) [
      | inl same ↦
          let unseen : repeated ≡ false = ground (arith, family_seen-same f x.family seen) in
          ground (arith, cooled-first (cooling x))
      | inr other ↦
          schedule_from-first_of cooling (x.family ∷ seen) extra' xs f delay a (ground (arith))
            (ground (arith))
    ]

-- A schedule has the first six addresses in their order, and no address that cools down from a
-- failure starts before two staggers.
pub connection_schedule-late :
    (cooling : Endpoint → Bool) (addresses : List Endpoint)
    → (endpoints (connection_schedule cooling addresses) ≡ take parallel_connect addresses)
      × (all_late cooling (connection_schedule cooling addresses) ≡ true)
unfolding connection_schedule
connection_schedule-late cooling addresses =
    let xs = take parallel_connect addresses in
    (schedule_from-endpoints cooling [] 0 xs, schedule_from-late cooling [] 0 xs)

-- Of each family in a schedule, the first address starts at once, or after exactly two staggers if it
-- cools down from a failure.
pub connection_schedule-first_of :
    (cooling : Endpoint → Bool) (addresses : List Endpoint) (f : Family) (delay : ℕ) (a : Endpoint)
    → first_of f (connection_schedule cooling addresses) ≡ some (delay, a)
    → delay ≡ (if cooling a then connect_stagger * 2 else 0)
unfolding connection_schedule family_seen
connection_schedule-first_of cooling addresses f delay a h =
    schedule_from-first_of cooling [] 0 (take parallel_connect addresses) f delay a refl h

-- Each failure in a row lets a route cool down at least as long as the one before, from the base
-- to the maximum.
pub cooldown-bounds :
    (n : ℕ)
    → (route_failure_base ≤ cooldown n)
      × (cooldown n ≤ cooldown (suc n))
      × (cooldown n ≤ route_failure_max)
unfolding cooldown
cooldown-bounds n =
    let grows : 2 ^ (n - 1) ≤ 2 ^ (suc n - 1) = pow-le-pow_right (omega arith) (omega arith) in
    let one : 1 ≤ 2 ^ (n - 1) = one-le-pow (n - 1) 2 (omega arith) in
    (omega (arith, one), omega (arith, grows), omega arith)
