-- ===== src/Ranking.antt =====
-- Which proxy is preferred (proxy_performance.py): `current_healthy`, `average_check_ms`,
-- `performance_score` and `preferred_proxy_id`. Latencies are in thousandths of a millisecond, to which the
-- source rounds them; its other arithmetic on floats is a parameter.
pub mod Choice
use Prim.Native.Nat.{Ordering}
use Prim.Native.String
use lumen_project_final.Prelude.{
  ℕ, ◌+◌, min, max, Bool, true, false, not, ◌&&◌, ◌||◌, Option, none, some, String, List, [], ◌∷◌,
  if◌then◌else◌, leb, ltb, nat_eqb, length,
}
use lumen_project_final.Prelude.Eq.{◌==◌, string_eq}
use lumen_project_final.Prelude.Dict.{Dict, get}
use lumen_project_final.Prelude.Member.{contains}

-- One check of a report; a latency that `bounded_ms` does not accept is `none`.
pub record Check : Type 0 where
  pub target : String
  pub ok : Bool
  pub total_ms : Option ℕ
  pub connect_ms : Option ℕ
  pub request_ms : Option ℕ

pub record Report : Type 0 where
  pub overall_status : String
  pub checks : List Check
  pub sample_count : ℕ
  pub success_count : ℕ

-- `round(sum / count, 3)`, and how far `performance_score` stays behind the best score there is, by
-- samples, successes and the three latencies.
pub record Floats : Type 0 where
  pub mean : ℕ → ℕ → ℕ
  pub behind : ℕ → ℕ → ℕ → ℕ → ℕ → ℕ

abbrev pub max_metric : ℕ
max_metric = 120000000

targets_known : List Check → Bool
targets_known [] = true
targets_known (c ∷ checks) =
    (c.target == "https://cloudflare.com" || c.target == "https://google.com")
    && targets_known checks

has_target : String → List Check → Bool
has_target target [] = false
has_target target (c ∷ checks) = c.target == target || has_target target checks

all_ok : List Check → Bool
all_ok [] = true
all_ok (c ∷ checks) = c.ok && all_ok checks

-- `current_healthy`: the set of the targets is the required one, and every check succeeded.
unfoldable pub current_healthy : Option Report → Bool
unfolding targets_known has_target all_ok
current_healthy none = false
current_healthy (some r) =
    r.overall_status == "healthy"
    && targets_known r.checks
    && has_target "https://cloudflare.com" r.checks
    && has_target "https://google.com" r.checks
    && all_ok r.checks

-- The latencies of the checks that succeeded.
values : (Check → Option ℕ) → List Check → List ℕ
values field [] = []
values field (c ∷ checks) =
    let rest = values field checks in
    if c.ok then elim (field c) [ none ↦ rest | some ms ↦ ms ∷ rest ] else rest

sum_of : List ℕ → ℕ
sum_of [] = 0
sum_of (x ∷ xs) = x + sum_of xs

mean_of : Floats → List ℕ → ℕ
unfolding sum_of
mean_of e [] = max_metric
mean_of e (x ∷ xs) = e.mean (sum_of (x ∷ xs)) (length (x ∷ xs))

-- `average_check_ms`
unfoldable pub average_check : Floats → (Check → Option ℕ) → Report → ℕ
unfolding values mean_of
average_check e field r = mean_of e (values field r.checks)

-- `performance_score`, as the distance from the best: 0 counts as one sample.
unfoldable pub score_behind : Floats → Report → ℕ
unfolding average_check
score_behind e r =
    let samples = max 1 (min r.sample_count 10000) in
    e.behind samples (min r.success_count samples)
      (min (average_check e (λ c. c.total_ms) r) 30000000)
      (min (average_check e (λ c. c.connect_ms) r) 30000000)
      (min (average_check e (λ c. c.request_ms) r) 30000000)

-- A candidate: the tuple that `min` compares.
pub record Candidate : Type 0 where
  pub behind : ℕ
  pub total : ℕ
  pub connect : ℕ
  pub request : ℕ
  pub proxy_id : String

unfoldable pub candidate : Floats → String → Report → Candidate
unfolding score_behind average_check
candidate e proxy_id r = record {
  behind = score_behind e r;
  total = average_check e (λ c. c.total_ms) r;
  connect = average_check e (λ c. c.connect_ms) r;
  request = average_check e (λ c. c.request_ms) r;
  proxy_id = proxy_id;
}

text_before : String → String → Bool
text_before a b = elim (String.compare a b) [ Ordering.lt ↦ true | _ ↦ false ]

-- Tuples are compared by their first difference.
unfoldable pub first_difference : List (ℕ × ℕ) → Bool → Bool
first_difference [] tie = tie
first_difference ((a, b) ∷ rest) tie =
    let later = first_difference rest tie in
    if ltb a b then true else if ltb b a then false else later

unfoldable pub before : Candidate → Candidate → Bool
unfolding first_difference text_before
before a b =
    first_difference
      ((a.behind, b.behind)
        ∷ (a.total, b.total)
        ∷ (a.connect, b.connect)
        ∷ (a.request, b.request)
        ∷ [])
      (text_before a.proxy_id b.proxy_id)

unfoldable pub better : Candidate → Option Candidate → Option Candidate
unfolding before
better c none = some c
better c (some best) = if before c best then some c else some best

unfoldable pub considered : Floats → String → Option Report → Option Candidate → Option Candidate
unfolding candidate better current_healthy
considered e proxy_id none best = best
considered e proxy_id (some r) best =
    if current_healthy (some r) then better (candidate e proxy_id r) best else best

unfoldable pub chosen :
    Floats → Dict String Report → List String → Option Candidate → Option Candidate
unfolding considered
chosen e results [] best = best
chosen e results (proxy_id ∷ ids) best =
    chosen e results ids (considered e proxy_id (get proxy_id results) best)

-- `preferred_proxy_id`, with the tuple that won.
unfoldable pub preferred_proxy : Floats → List String → Dict String Report → Option Candidate
unfolding chosen
preferred_proxy e ids results = chosen e results ids none
