-- ===== src/Tests/Proxies.antt =====
-- The ranking of proxy_performance.py on two reports.
use lumen_project_final.Prelude.{ℕ, ◌+◌, ◌≡◌, refl, true, none, some, String, [], ◌∷◌}
use lumen_project_final.Prelude.Eq.{string_eq}
use lumen_project_final.Prelude.Dict.{Dict, get}
use lumen_project_final.Prelude.Member.{contains}
use lumen_project_final.Ranking.{
  Check, Report, Floats, current_healthy, preferred_proxy, score_behind,
}
use lumen_project_final.Ranking.Choice.{
  leads, is_backed, preferred_proxy-leads, preferred_proxy-is_backed,
}

abbrev floats : Floats
floats = record {
  mean = λ sum count. sum;
  behind = λ samples successes total connect request. total + connect + request;
}

abbrev probe : String → ℕ → Check
probe target ms = record {
  target = target;
  ok = true;
  total_ms = some ms;
  connect_ms = none;
  request_ms = some ms;
}

abbrev report : ℕ → Report
report ms = record {
  overall_status = "healthy";
  checks = probe "https://cloudflare.com" ms ∷ probe "https://google.com" ms ∷ [];
  sample_count = 4;
  success_count = 4;
}

abbrev reports : Dict String Report
reports = ("p1", report 900) ∷ ("p2", report 500) ∷ []

preferred_proxy-leads_example :
    leads (preferred_proxy floats ("p1" ∷ "p2" ∷ []) reports) (score_behind floats (report 500))
    ≡ true
unfolding contains get current_healthy
preferred_proxy-leads_example =
    preferred_proxy-leads floats ("p1" ∷ "p2" ∷ []) reports "p2" (report 500) refl refl refl

preferred_proxy-is_backed_example :
    is_backed reports ("p1" ∷ "p2" ∷ []) (preferred_proxy floats ("p1" ∷ "p2" ∷ []) reports) ≡ true
preferred_proxy-is_backed_example = preferred_proxy-is_backed floats ("p1" ∷ "p2" ∷ []) reports
