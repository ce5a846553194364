-- ===== src/Vless/Flow.antt =====
-- The threshold of the write buffer towards the target (relay_vless.py: `_AdaptiveFlow`). A drain
-- time is in microseconds.
use lumen_project_final.Prelude.{
  ℕ, ◌+◌, ◌*◌, ◌/◌, ◌≤◌, min, max, List, [], ◌∷◌, if◌then◌else◌, leb, arith,
}

abbrev pub write_hw_min : ℕ
write_hw_min = 512 * 1024

abbrev pub write_hw_max : ℕ
write_hw_max = 64 * 1024 * 1024

pub record Flow : Type 0 where
  pub high_water : ℕ
  pub max_high_water : ℕ

-- `__init__`
unfoldable pub new_flow : ℕ → ℕ → Flow
new_flow high_water max_high_water =
    let top = min write_hw_max (max write_hw_min max_high_water) in
    record { high_water = min top (max write_hw_min high_water); max_high_water = top }

-- `observe`: up by half after a fast drain, down to half after a slow one.
unfoldable pub observe : ℕ → Flow → Flow
observe drain flow = record flow {
  high_water =
      if leb drain 2000
      then min (flow.high_water * 3 / 2 + 64 * 1024) flow.max_high_water
      else if leb 30000 drain
      then max (flow.high_water / 2) write_hw_min
      else flow.high_water;
}

-- The low mark that goes with the threshold.
unfoldable pub low_water : Flow → ℕ
low_water flow = max (flow.high_water / 4) (64 * 1024)

unfoldable pub observe_all : List ℕ → Flow → Flow
unfolding observe
observe_all [] flow = flow
observe_all (drain ∷ drains) flow = observe_all drains (observe drain flow)

abbrev pub IsTuned : Flow → Type 0
IsTuned flow =
    (write_hw_min ≤ flow.high_water)
    × (flow.high_water ≤ flow.max_high_water)
    × (flow.max_high_water ≤ write_hw_max)

new_flow-IsTuned : (h m : ℕ) → IsTuned (new_flow h m)
unfolding new_flow
new_flow-IsTuned h m = (omega arith, omega arith, omega arith)

observe-IsTuned : (drain : ℕ) (flow : Flow) → IsTuned flow → IsTuned (observe drain flow)
unfolding observe
observe-IsTuned drain flow v = (ground arith, ground arith, v.2)

observe_all-IsTuned :
    (drains : List ℕ) (flow : Flow) → IsTuned flow → IsTuned (observe_all drains flow)
unfolding observe_all
observe_all-IsTuned [] flow v = v
observe_all-IsTuned (drain ∷ drains) flow v =
    observe_all-IsTuned drains _ (observe-IsTuned drain flow v)

-- Whatever the arguments and the drain times, the threshold stays between the least and the
-- adapter's own maximum, which is at most the greatest, and the low mark below it.
pub flow-bounds :
    (high_water max_high_water : ℕ) (drains : List ℕ)
    → IsTuned (observe_all drains (new_flow high_water max_high_water))
      × (low_water (observe_all drains (new_flow high_water max_high_water))
          ≤ (observe_all drains (new_flow high_water max_high_water)).high_water)
unfolding low_water
flow-bounds h m drains =
    let v = observe_all-IsTuned drains _ (new_flow-IsTuned h m) in (v, omega (arith, v.0))
