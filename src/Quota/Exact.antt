-- ===== src/Quota/Exact.antt =====
-- The books of a connection's gate (speed_limit.py: `QuotaGate`).
use lumen_project_final.Prelude.{
  ℕ, suc, ◌+◌, ◌-◌, ◌≤◌, ◌<◌, ◌≡◌, refl, Bool, true, false, not, List, [], ◌∷◌, if◌then◌else◌, ltb,
  nat_eqb, arith, Bool-cases, inl, inr, if_cases,
}
use lumen_project_final.Quota.{
  Meter, Gate, Staged, denied, hot, ready, new_gate, retuned, take_batch, stays_hot, stage_counted,
  stage, commit, add_staged, add, flush, quota_min_batch, quota_unlimited_max_batch,
}

-- One frame: its bytes, the time, and what `check_and_use` would answer.
pub record Frame : Type 0 where
  pub nbytes : ℕ
  pub now : ℕ
  pub granted : Bool

-- A connection's gate, the bytes it passed on, and the bytes of the frames that were let in.
pub record Ledger (R : Type 0) : Type 0 where
  pub gate : Gate R
  pub consumed : ℕ
  pub accepted : ℕ

module _ {R : Type 0} (m : Meter R) where
  unfoldable pub add_frame : Frame → Ledger R → Ledger R
  unfolding add
  add_frame f l =
      let result = add m f.now f.nbytes f.granted l.gate in
      record {
        gate = result.1;
        consumed = l.consumed + result.2;
        accepted = if l.gate.ok then l.accepted + f.nbytes else l.accepted;
      }

  unfoldable pub add_frames : List Frame → Ledger R → Ledger R
  unfolding add_frame
  add_frames [] l = l
  add_frames (f ∷ frames) l = add_frames frames (add_frame f l)

module _ {R : Type 0} where
  unfoldable pub close : Bool → Ledger R → Ledger R
  unfolding flush
  close granted l =
      let result = flush granted l.gate in
      record l { gate = result.1; consumed = l.consumed + result.2 }

-- The size of a batch stays within its bounds.
pub record IsSized {R : Type 0} (g : Gate R) : Type 0 where
  pub least : quota_min_batch ≤ g.batch_bytes
  pub most : g.batch_bytes ≤ g.max_batch
  pub greatest : g.max_batch ≤ quota_unlimited_max_batch

-- And a gate holds back less than a batch.
pub record IsBounded {R : Type 0} (g : Gate R) : Type 0 where
  pub held : g.pending < g.batch_bytes
  pub sized : IsSized g

-- The bytes of a batch.
unfoldable pub staged_bytes : Staged → ℕ
staged_bytes (ready amount) = amount
staged_bytes _ = 0

-- What a step of `stage` makes of the bytes that were there.
record Staging {R : Type 0} (bytes : ℕ) (r : Staged × Gate R) : Type 0 where
  kept : staged_bytes r.0 + r.1.pending ≡ bytes
  bounded : IsBounded r.1

module _ {R : Type 0} (m : Meter R) where
  retuned-IsSized :
      (amount elapsed : ℕ) (g : Gate R) → IsSized g → IsSized (retuned m amount elapsed g)
  unfolding retuned
  retuned-IsSized amount elapsed g v = record {
    least = omega arith;
    most = omega (arith, v.least, v.most);
    greatest = v.greatest;
  }

  retuned-pending :
      (amount elapsed : ℕ) (g : Gate R) → (retuned m amount elapsed g).pending ≡ g.pending
  unfolding retuned
  retuned-pending amount elapsed g = refl

  take_batch-Staging : (now : ℕ) (g : Gate R) → IsSized g → Staging g.pending (take_batch m now g)
  unfolding take_batch staged_bytes
  take_batch-Staging now g v = elim (Bool-cases (ltb 0 (now - g.last_check))) [
    | inl later ↦
        let w =
          retuned-IsSized g.pending (now - g.last_check) (record g { pending = 0 })
            (record { least = v.least; most = v.most; greatest = v.greatest }) in
        rw (later, take_batch)
          (record {
            kept = omega arith;
            bounded = record {
              held = omega (arith, w.least);
              sized = record { least = w.least; most = w.most; greatest = w.greatest };
            };
          })
    | inr same ↦
        rw (same, take_batch)
          (record {
            kept = omega arith;
            bounded = record {
              held = omega (arith, v.least);
              sized = record { least = v.least; most = v.most; greatest = v.greatest };
            };
          })
  ]

  stays_hot-below : (now : ℕ) (g : Gate R) → stays_hot now g ≡ true → g.pending < g.batch_bytes
  unfolding stays_hot
  stays_hot-below now g h = ground arith

  stage_counted-Staging :
      (now : ℕ) (g : Gate R) → IsSized g → Staging g.pending (stage_counted m now g)
  unfolding stage_counted staged_bytes
  stage_counted-Staging now g v =
      if_cases (Staging g.pending) (stays_hot now g)
        (λ below. record {
          kept = omega arith;
          bounded = record { held = stays_hot-below now g below; sized = v };
        })
        (λ _. take_batch-Staging now g v)

  -- A frame adds its bytes while the gate is open, and none once it was denied.
  abbrev gains : Gate R → ℕ → ℕ
  gains g nbytes = if g.ok then nbytes else 0

  stage-Staging :
      (now nbytes : ℕ) (g : Gate R)
      → IsBounded g
      → Staging (g.pending + gains g nbytes) (stage m now nbytes g)
  unfolding stage staged_bytes
  stage-Staging now nbytes g v =
      let bytes = g.pending + gains g nbytes in
      let g' : Gate R = record g { pending = g.pending + nbytes; ticks = suc g.ticks } in
      let sized : IsSized g' = record {
        least = v.sized.least;
        most = v.sized.most;
        greatest = v.sized.greatest;
      } in
      let counted = stage_counted-Staging now g' sized in
      if_cases (Staging bytes) (not g.ok) (λ closed. record { kept = ground arith; bounded = v })
        (λ open_.
          if_cases (Staging bytes) (nat_eqb nbytes 0)
            (λ empty. record { kept = ground arith; bounded = v })
            (λ some_. record { kept = ground (arith, counted.kept); bounded = counted.bounded }))

  -- Committing a batch changes neither what is held back nor the size of a batch.
  add_staged-kept :
      (granted : Bool) (bytes : ℕ) (r : Staged × Gate R)
      → Staging bytes r
      → ((add_staged granted r).2 + (add_staged granted r).1.pending ≡ bytes)
        × IsBounded (add_staged granted r).1
  unfolding add_staged commit staged_bytes
  add_staged-kept granted bytes (denied, g) v = (v.kept, v.bounded)
  add_staged-kept granted bytes (hot, g) v = (v.kept, v.bounded)
  add_staged-kept granted bytes (ready amount, g) v = elim (Bool-cases (nat_eqb amount 0)) [
    | inl empty ↦ rw (empty, add_staged, commit) (v.kept, v.bounded)
    | inr some_ ↦
        rw (some_, add_staged, commit)
          (
            v.kept,
            record {
              held = v.bounded.held;
              sized = record {
                least = v.bounded.sized.least;
                most = v.bounded.sized.most;
                greatest = v.bounded.sized.greatest;
              };
            },
          )
  ]

-- The books of a connection: what was let in is passed on or held back.
pub record IsExact {R : Type 0} (l : Ledger R) : Type 0 where
  pub balance : l.consumed + l.gate.pending ≡ l.accepted
  pub bounded : IsBounded l.gate

module _ {R : Type 0} (m : Meter R) where
  add_frame-IsExact : (f : Frame) (l : Ledger R) → IsExact l → IsExact (add_frame m f l)
  unfolding add_frame add
  add_frame-IsExact f l v =
      let step =
        add_staged-kept m f.granted _ _ (stage-Staging m f.now f.nbytes l.gate v.bounded) in
      record { balance = ground (arith, step.0, v.balance); bounded = step.1 }

  add_frames_keeps :
      (frames : List Frame) (l : Ledger R) → IsExact l → IsExact (add_frames m frames l)
  unfolding add_frames
  add_frames_keeps [] l v = v
  add_frames_keeps (f ∷ frames) l v = add_frames_keeps frames _ (add_frame-IsExact f l v)

  abbrev pub opened : Bool → ℕ → Ledger R
  opened metered now = record { gate = new_gate m metered now; consumed = 0; accepted = 0 }

  opened-IsExact : (metered : Bool) (now : ℕ) → IsExact (opened metered now)
  unfolding new_gate
  opened-IsExact true now = record {
    balance = refl;
    bounded = record {
      held = omega arith;
      sized = record { least = omega arith; most = omega arith; greatest = omega arith };
    };
  }
  opened-IsExact false now = record {
    balance = refl;
    bounded = record {
      held = omega arith;
      sized = record { least = omega arith; most = omega arith; greatest = omega arith };
    };
  }

  -- Over any frames of a connection, the bytes that were let in are those passed on and those held
  -- back, which are always less than a batch and so less than the largest batch of an unlimited link.
  pub add_frames-IsExact :
      (metered : Bool) (now : ℕ) (frames : List Frame)
      → IsExact (add_frames m frames (opened metered now))
  add_frames-IsExact metered now frames = add_frames_keeps frames _ (opened-IsExact metered now)

  commit-pending :
      (granted : Bool) (amount : ℕ) (g : Gate R) → (commit amount granted g).1.pending ≡ g.pending
  unfolding commit
  commit-pending granted amount g = ground arith

  -- After the flush at the end of a connection nothing is held back: the bytes that were passed on are
  -- exactly those of the frames that were let in.
  pub close_exact :
      (metered granted : Bool) (now : ℕ) (frames : List Frame)
      → let l = add_frames m frames (opened metered now) in
        ((close granted l).gate.pending ≡ 0) × ((close granted l).consumed ≡ l.accepted)
  unfolding close flush
  close_exact metered granted now frames =
      let v = add_frames-IsExact metered now frames in (commit-pending granted _ _, v.balance)
