-- ===== src/Quota.antt =====
-- Batched usage accounting (speed_limit.py: `QuotaGate`). A gate collects the bytes of the frames of
-- one connection and passes them on to `check_and_use` in batches. Times are in milliseconds. Python's
-- floats, in the moving average of the rate, are a parameter.
pub mod Exact
use lumen_project_final.Prelude.{
  ℕ, suc, ◌+◌, ◌*◌, ◌-◌, ◌%◌, min, max, Bool, true, false, not, ◌&&◌, ◌||◌, List, [], ◌∷◌,
  if◌then◌else◌, ltb, nat_eqb,
}

abbrev pub quota_min_batch : ℕ
quota_min_batch = 64 * 1024

abbrev pub quota_metered_max_batch : ℕ
quota_metered_max_batch = 1024 * 1024

abbrev pub quota_unlimited_max_batch : ℕ
quota_unlimited_max_batch = 8 * 1024 * 1024

abbrev pub quota_unlimited_start : ℕ
quota_unlimited_start = 512 * 1024

abbrev pub quota_time_check_every : ℕ
quota_time_check_every = 32

-- The floats of the moving average: `amount / elapsed`, the mix of the old rate and the new one, and
-- `int(rate * interval)`.
pub record Meter (R : Type 0) : Type 0 where
  pub zero_rate : R
  pub is_zero : R → Bool
  pub rate : ℕ → ℕ → R
  pub mix : R → R → R
  pub target : R → ℕ → ℕ

pub record Gate (R : Type 0) : Type 0 where
  pub pending : ℕ
  pub last_check : ℕ
  pub ok : Bool
  pub batch_bytes : ℕ
  pub rate_ewma : R
  pub max_batch : ℕ
  pub check_interval : ℕ
  pub ticks : ℕ

module _ {R : Type 0} where
  -- `__init__`; a link is metered when it has a volume limit.
  unfoldable pub new_gate : Meter R → Bool → ℕ → Gate R
  new_gate m metered now = record {
    pending = 0;
    last_check = now;
    ok = true;
    batch_bytes = if metered then quota_min_batch else quota_unlimited_start;
    rate_ewma = m.zero_rate;
    max_batch = if metered then quota_metered_max_batch else quota_unlimited_max_batch;
    check_interval = if metered then 200 else 500;
    ticks = 0;
  }

-- What `stage` returns: -1, 0, or the bytes to commit.
pub data Staged : Type 0 where
  denied hot : Staged
  ready : ℕ → Staged

module _ {R : Type 0} where
  -- `instant_rate` folded into the average, and the batch that it calls for.
  unfoldable pub retuned : Meter R → ℕ → ℕ → Gate R → Gate R
  retuned m amount elapsed g =
      let instant = m.rate amount elapsed in
      let average = if m.is_zero g.rate_ewma then instant else m.mix g.rate_ewma instant in
      let target = m.target average g.check_interval in
      record g {
        rate_ewma = average;
        batch_bytes =
            max quota_min_batch
              (min g.max_batch (if nat_eqb target 0 then quota_min_batch else target));
      }

  -- A batch is taken out; the average moves only if time has passed.
  unfoldable pub take_batch : Meter R → ℕ → Gate R → Staged × Gate R
  unfolding retuned
  take_batch m now g =
      let elapsed = now - g.last_check in
      let emptied : Gate R = record g { pending = 0 } in
      (
        ready g.pending,
        record (if ltb 0 elapsed then retuned m g.pending elapsed emptied else emptied) {
          last_check = now;
        },
      )

  -- The batch is not full, and the clock was not read or not enough time has passed.
  unfoldable pub stays_hot : ℕ → Gate R → Bool
  stays_hot now g =
      ltb g.pending g.batch_bytes
      && (not (nat_eqb (g.ticks % quota_time_check_every) 0)
          || ltb (now - g.last_check) g.check_interval)

  unfoldable pub stage_counted : Meter R → ℕ → Gate R → Staged × Gate R
  unfolding stays_hot take_batch
  stage_counted m now g = if stays_hot now g then (hot, g) else take_batch m now g

  -- `stage`: the clock is read only every so many frames, or when a batch is full.
  unfoldable pub stage : Meter R → ℕ → ℕ → Gate R → Staged × Gate R
  unfolding stage_counted
  stage m now nbytes g =
      if not g.ok
      then (denied, g)
      else if nat_eqb nbytes 0
      then (hot, g)
      else stage_counted m now (record g { pending = g.pending + nbytes; ticks = suc g.ticks })

  -- `commit`: `granted` is the answer of `check_and_use`. A gate that was denied stays denied.
  unfoldable pub commit : ℕ → Bool → Gate R → Bool × Gate R
  commit amount granted g =
      if nat_eqb amount 0 then (g.ok, g) else (g.ok && granted, record g { ok = g.ok && granted })

  -- What `add` does with the result of `stage`, and the bytes that it passes on.
  unfoldable pub add_staged : Bool → Staged × Gate R → Bool × Gate R × ℕ
  unfolding commit
  add_staged granted (denied, g) = (false, g, 0)
  add_staged granted (hot, g) = (true, g, 0)
  add_staged granted (ready amount, g) =
      let answer = commit amount granted g in (answer.0, answer.1, amount)

  -- `add`, with the bytes that it passes on.
  unfoldable pub add : Meter R → ℕ → ℕ → Bool → Gate R → Bool × Gate R × ℕ
  unfolding stage add_staged
  add m now nbytes granted g = add_staged granted (stage m now nbytes g)

  -- `flush`, with the bytes that it passes on.
  unfoldable pub flush : Bool → Gate R → Bool × Gate R × ℕ
  unfolding commit
  flush granted g =
      let answer = commit g.pending granted (record g { pending = 0 }) in
      (answer.0, answer.1, g.pending)
