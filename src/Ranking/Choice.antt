-- ===== src/Ranking/Choice.antt =====
-- The choice among the candidates (proxy_performance.py: `preferred_proxy_id`).
use lumen_project_final.Prelude.{
  ℕ, ◌≡◌, refl, Bool, true, false, ◌&&◌, Option, none, some, String, List, [], ◌∷◌, leb, arith,
  Bool-cases, inl, inr,
}
use lumen_project_final.Prelude.Eq.{◌==◌, string_eq, ==_iff, ==_refl}
use lumen_project_final.Prelude.Dict.{Dict, get}
use lumen_project_final.Prelude.Member.{contains}
use lumen_project_final.Ranking.{
  Floats, Report, Candidate, current_healthy, candidate, before, first_difference, better,
  considered, chosen, preferred_proxy, score_behind,
}

-- No candidate is better than the best so far.
abbrev pub leads : Option Candidate → ℕ → Bool
leads none n = false
leads (some best) n = leb best.behind n

better-leads :
    (c : Candidate) (best : Option Candidate) (n : ℕ)
    → leads best n ≡ true
    → leads (better c best) n ≡ true
unfolding better before first_difference
better-leads c none n h = absurd (ground arith)
better-leads c (some best) n h = ground arith

better-leads_new : (c : Candidate) (best : Option Candidate) → leads (better c best) c.behind ≡ true
unfolding better before first_difference
better-leads_new c none = ground arith
better-leads_new c (some best) = ground arith

considered-leads :
    (e : Floats) (proxy_id : String) (o : Option Report) (best : Option Candidate) (n : ℕ)
    → leads best n ≡ true
    → leads (considered e proxy_id o best) n ≡ true
unfolding considered
considered-leads e proxy_id none best n h = h
considered-leads e proxy_id (some r) best n h =
    ground (arith, better-leads (candidate e proxy_id r) best n h)

chosen-leads :
    (e : Floats) (results : Dict String Report) (ids : List String) (best : Option Candidate)
    (n : ℕ)
    → leads best n ≡ true
    → leads (chosen e results ids best) n ≡ true
unfolding chosen
chosen-leads e results [] best n h = h
chosen-leads e results (id ∷ ids) best n h =
    chosen-leads e results ids _ n (considered-leads e id (get id results) best n h)

considered-leads_new :
    (e : Floats) (id : String) (r : Report) (o : Option Report) (best : Option Candidate)
    → o ≡ some r
    → current_healthy (some r) ≡ true
    → leads (considered e id o best) (score_behind e r) ≡ true
unfolding considered candidate
considered-leads_new e id r none best same healthy = absurd (ground arith)
considered-leads_new e id r (some s) best same healthy =
    ground (arith, better-leads_new (candidate e id s) best)

chosen-leads_all :
    (e : Floats) (results : Dict String Report) (ids : List String) (best : Option Candidate)
    (id : String) (r : Report)
    → contains id ids ≡ true
    → get id results ≡ some r
    → current_healthy (some r) ≡ true
    → leads (chosen e results ids best) (score_behind e r) ≡ true
unfolding chosen contains
chosen-leads_all e results [] best id r there found healthy = absurd (ground arith)
chosen-leads_all e results (j ∷ ids) best id r there found healthy = elim (Bool-cases (j == id)) [
  | inl same ↦
      chosen-leads e results ids _ _
        (considered-leads_new e j r (get j results) best (rw ((==_iff j id).0 same, found)) healthy)
  | inr other ↦ chosen-leads_all e results ids _ id r (ground arith) found healthy
]

-- A healthy proxy among those asked for is never passed over: one is preferred, and its score is at
-- least as good.
pub preferred_proxy-leads :
    (e : Floats) (ids : List String) (results : Dict String Report) (id : String) (r : Report)
    → contains id ids ≡ true
    → get id results ≡ some r
    → current_healthy (some r) ≡ true
    → leads (preferred_proxy e ids results) (score_behind e r) ≡ true
unfolding preferred_proxy
preferred_proxy-leads e ids results id r there found healthy =
    chosen-leads_all e results ids none id r there found healthy

-- A candidate stands for a healthy report of one of the proxies.
abbrev pub is_backed : Dict String Report → List String → Option Candidate → Bool
is_backed results ids none = true
is_backed results ids (some c) = contains c.proxy_id ids && current_healthy (get c.proxy_id results)

considered-is_backed :
    (e : Floats) (results : Dict String Report) (ids : List String) (id : String)
    (o : Option Report) (best : Option Candidate)
    → get id results ≡ o
    → contains id ids ≡ true
    → is_backed results ids best ≡ true
    → is_backed results ids (considered e id o best) ≡ true
unfolding considered better candidate
considered-is_backed e results ids id none best found there v = v
considered-is_backed e results ids id (some r) none found there v = ground arith
considered-is_backed e results ids id (some r) (some best) found there v = ground arith

chosen-is_backed :
    (e : Floats) (results : Dict String Report) (all ids : List String) (best : Option Candidate)
    → ((j : String) → contains j ids ≡ true → contains j all ≡ true)
    → is_backed results all best ≡ true
    → is_backed results all (chosen e results ids best) ≡ true
unfolding chosen contains
chosen-is_backed e results all [] best among v = v
chosen-is_backed e results all (id ∷ ids) best among v =
    chosen-is_backed e results all ids _ (λ j h. among j (ground arith))
      (considered-is_backed e results all id (get id results) best refl
        (among id (ground (arith, ==_refl id))) v)

-- A proxy that is preferred is one of those asked for, and its current report is healthy.
pub preferred_proxy-is_backed :
    (e : Floats) (ids : List String) (results : Dict String Report)
    → is_backed results ids (preferred_proxy e ids results) ≡ true
unfolding preferred_proxy
preferred_proxy-is_backed e ids results = chosen-is_backed e results ids ids none (λ j h. h) refl
