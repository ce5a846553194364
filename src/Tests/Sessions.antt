-- ===== src/Tests/Sessions.antt =====
-- The theorems on the Psiphon manager, at a run that opens a session twice.
use lumen_project_final.Prelude.{
  ℕ, ◌<◌, ◌≡◌, refl, String, true, false, Option, none, some, List, [], ◌∷◌, arith,
}
use lumen_project_final.Prelude.Eq.{string_eq}
use lumen_project_final.Prelude.Member.{contains}
use lumen_project_final.Psiphon.{
  Settings, BackendLease, TunnelHealth, PublicState, acquire_vless_backend, new_manager,
  public_state,
}
use lumen_project_final.Psiphon.Notices.{ℤ, Letters, Line}
use lumen_project_final.Psiphon.Session.{Attempt, Launch}
use lumen_project_final.Psiphon.Supervisor.{Turn, first_loop, supervise}
use lumen_project_final.Psiphon.Sound.{IsSound, new_manager-IsSound}
use lumen_project_final.Psiphon.Attempts.{Settles, supervise-Settles}
use lumen_project_final.Psiphon.Gate.{Reach, shut_gate, view}
use lumen_project_final.Psiphon.Gate.Refines.{Op, run, lease_at, run-new_manager_refines}
use lumen_project_final.Psiphon.Gate.Fresh.{acquire_vless_backend_after_refusal}

abbrev ascii : Letters
ascii = record { upper = λ s. s; is_alpha = λ s. true }

abbrev settings : Settings
settings = record {
  enabled = true;
  session_max_age_seconds = 1800;
  healthcheck_interval_seconds = 60;
  max_reconnect_attempts = 3;
  reconnect_backoff_seconds = 5;
  use_managed_upstream_proxy = false;
}

abbrev socks_notice : Line
socks_notice = Line.line 60 (
    some record {
      notice_type = "ListeningSocksProxyPort";
      port = some (ℤ.pos 40001);
      count = none;
      server_region = "";
    })

abbrev tunnel_notice : Line
tunnel_notice = Line.line 50 (
    some
      record { notice_type = "Tunnels"; port = none; count = some (ℤ.pos 1); server_region = "" })

abbrev healthy_probe : TunnelHealth
healthy_probe = record {
  tcp_ok = true;
  exit_ip = "192.0.2.7";
  exit_country = "Germany";
  exit_region = "DE";
  reason = "";
}

abbrev attempt : Option TunnelHealth → Attempt
attempt probe = record {
  retest_ok = true;
  retested_at = "";
  candidate = none;
  launch = λ u. Launch.spawned "core-1.json";
  session_id = "ab12";
  started_at = "T0";
  expires_at = "T1800";
  started_monotonic = 100;
  lines = socks_notice ∷ tunnel_notice ∷ [];
  waited = record { ready_done = true; exit_done = none };
  probe_lines = [];
  probe = probe;
  ready_monotonic = 103;
  checked_at = "T3";
  ending = none;
}

abbrev turn : Turn
turn = record {
  attempt = attempt none;
  rotated_at = "";
  watches = [];
  ending = none;
  stop_in_backoff = false;
}

abbrev opening : List Op
opening = Op.attempt true false (attempt (some healthy_probe)) ∷ []

abbrev closing : List Op
closing = Op.conclude turn 0 "expired" ∷ []

abbrev runs : List Op
runs = Op.attempt true false (attempt (some healthy_probe)) ∷ Op.acquire "s1" ∷ []

abbrev lease : String → ℕ → BackendLease
lease i g = record { lease_id = i; generation = g; host = "127.0.0.1"; port = 40001 }

opened :
    (acquire_vless_backend "s1" (run ascii opening (new_manager settings))).0 ≡ some (lease "s1" 1)
unfolding run acquire_vless_backend new_manager
opened = refl

shows_active : public_state (run ascii runs (new_manager settings)) ≡ PublicState.active
unfolding run public_state new_manager contains
shows_active = refl

run-new_manager_refines_example :
    Reach shut_gate (view (run ascii runs (new_manager settings)))
    × ((acquire_vless_backend "s2" (run ascii runs (new_manager settings))).0
        ≡ lease_at "s2" (view (run ascii runs (new_manager settings))).door)
    × IsSound (run ascii runs (new_manager settings))
run-new_manager_refines_example = run-new_manager_refines ascii settings runs "s2"

acquire_vless_backend_after_refusal_example : ◌<◌ 1 2
unfolding run acquire_vless_backend new_manager
acquire_vless_backend_after_refusal_example =
    acquire_vless_backend_after_refusal ascii settings opening closing opening "s1" "s2" "s3"
      {l = lease "s1" 1} {l' = lease "s3" 2} refl refl refl

abbrev failing : List Turn
failing = turn ∷ turn ∷ turn ∷ []

supervise-Settles_example : Settles 2 (supervise ascii failing first_loop (new_manager settings))
unfolding new_manager
supervise-Settles_example =
    supervise-Settles ascii failing first_loop (new_manager settings) (new_manager-IsSound settings)
      refl (omega arith) (omega arith) (refl, (refl, (refl, tt)))

delays_double : (supervise ascii failing first_loop (new_manager settings)).delays ≡ 5 ∷ 10 ∷ []
unfolding supervise new_manager
delays_double = refl
