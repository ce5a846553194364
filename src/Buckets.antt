-- ===== src/Buckets.antt =====
-- The speed limit (speed_limit.py): `_Bucket`, `_get_bucket` and `prune_buckets`. Times are in
-- milliseconds and tokens in thousandths of a byte, so that a rate in bytes per second adds whole
-- tokens.
pub mod Rate
use lumen_project_final.Prelude.{
  ℕ, zero, suc, ◌+◌, ◌*◌, ◌-◌, min, max, Bool, true, false, not, ◌&&◌, ◌||◌, Option, none, some,
  String, List, [], ◌∷◌, if◌then◌else◌, ltb, leb, nat_eqb,
}
use lumen_project_final.Prelude.Eq.{string_eq}
use lumen_project_final.Prelude.Dict.{Dict, get, put}

abbrev pub min_rate : ℕ
min_rate = 1024

abbrev pub min_burst : ℕ
min_burst = 64 * 1024

pub record Bucket : Type 0 where
  pub rate : ℕ
  pub capacity : ℕ
  pub tokens : ℕ
  pub last : ℕ

-- `__init__`: a new bucket is full.
unfoldable pub new_bucket : ℕ → ℕ → Bucket
new_bucket bytes_per_sec now =
    let rate = max bytes_per_sec min_rate in
    let capacity = 1000 * max rate min_burst in
    record { rate = rate; capacity = capacity; tokens = capacity; last = now }

-- `_refill`: only a later time adds tokens, up to the capacity.
unfoldable pub refill : ℕ → Bucket → Bucket
refill now b =
    if ltb b.last now
    then record b { tokens = min b.capacity (b.tokens + (now - b.last) * b.rate); last = now }
    else b

-- One turn of the loop of `_consume_slice`: whether the slice was taken, or the caller sleeps.
unfoldable pub take_slice : ℕ → ℕ → Bucket → Bool × Bucket
unfolding refill
take_slice now amount b =
    let b' = refill now b in
    if leb amount b'.tokens then (true, record b' { tokens = b'.tokens - amount }) else (false, b')

-- The slices of `consume`, none of them larger than the capacity. A turn takes at least one token
-- off, so that as many turns as tokens are enough.
unfoldable pub slices : ℕ → ℕ → ℕ → List ℕ
slices zero capacity remaining = []
slices (suc fuel) capacity remaining =
    let rest = slices fuel capacity (remaining - min remaining capacity) in
    if ltb 0 remaining then min remaining capacity ∷ rest else []

-- `consume`, for a number of bytes.
unfoldable pub consumed_slices : Bucket → ℕ → List ℕ
unfolding slices
consumed_slices b nbytes = slices (1000 * nbytes) b.capacity (1000 * nbytes)

-- `_get_bucket`: a bucket of another rate is replaced.
unfoldable pub get_bucket : String → ℕ → ℕ → Dict String Bucket → Bucket × Dict String Bucket
unfolding new_bucket
get_bucket uuid rate now buckets =
    let fresh = new_bucket rate now in
    elim (get uuid buckets) [
      | none ↦ (fresh, put uuid fresh buckets)
      | some b ↦
          if nat_eqb b.rate (max rate min_rate)
          then (b, buckets)
          else (fresh, put uuid fresh buckets)
    ]

-- `prune_buckets`; `limit_of` is a config's speed limit, 0 where there is none or no config.
unfoldable pub prune_buckets : (String → ℕ) → Dict String Bucket → ℕ × Dict String Bucket
prune_buckets limit_of [] = (0, [])
prune_buckets limit_of ((uuid, b) ∷ rest) =
    let pruned = prune_buckets limit_of rest in
    if nat_eqb (limit_of uuid) 0 then (suc pruned.0, pruned.1) else (pruned.0, (uuid, b) ∷ pruned.1)
