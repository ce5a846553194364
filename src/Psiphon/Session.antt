-- ===== src/Psiphon/Session.antt =====
-- One session of the Core (psiphon/manager.py: _start_session, _run_health_check,
-- _stop_active_process). What the awaited calls bring back is an argument.
use lumen_project_final.Prelude.{
  ℕ, ◌+◌, ◌-◌, ◌*◌, String, Bool, true, false, ◌&&◌, Option, none, some, List, is_some, min,
  if◌then◌else◌,
}
use lumen_project_final.Prelude.Eq.{string_eq}
use lumen_project_final.Psiphon.{
  State, TunnelVerdict, Ending, Process, ManagedUpstream, TunnelHealth, Manager, set_state,
  fail_with, or_text, has_port,
}
use lumen_project_final.Psiphon.Notices.{Letters, Line, Waited, hear, wait_for_ready}

-- How preparing the runtime config and spawning the Core ended: `PsiphonConfigError` with its
-- category, an `OSError` or `ValueError`, or a running process.
pub data Launch : Type 0 where
  refused : String → Launch
  not_spawned : Launch
  spawned : String → Launch

-- What one run of `_start_session` meets, in the order in which it meets it.
pub record Attempt : Type 0 where
  pub retest_ok : Bool
  pub retested_at : String
  pub candidate : Option ManagedUpstream
  pub launch : Option ManagedUpstream → Launch
  pub session_id : String
  pub started_at : String
  pub expires_at : String
  pub started_monotonic : ℕ
  pub lines : List Line
  pub waited : Waited
  pub probe_lines : List Line
  pub probe : Option TunnelHealth
  pub ready_monotonic : ℕ
  pub checked_at : String
  pub ending : Option Ending

-- The Core's exit, once the waits of `_stop_active_process` are over: `none` if it outlives them.
abbrev ended : Option Process → Option Ending → Option Ending
ended none late = none
ended (some p) late = elim p.returncode [ none ↦ late | some code ↦ some code ]

abbrev last_of : Option Ending → Option Ending → Option Ending
last_of none old = old
last_of (some code) old = some code

unfoldable pub stop_active_process : Option Ending → Manager → Manager
stop_active_process late m = record m {
  accepting = false;
  process = none;
  runtime_config_path = none;
  socks_port = none;
  active_tunnels = 0;
  ready_event = false;
  status = record m.status {
    last_exit_code = last_of (ended m.process late) m.status.last_exit_code;
    session_id = "";
    session_started_at = "";
    session_expires_at = "";
    exit_ip = "";
    exit_country = "";
    exit_region = "";
    tcp_tunnel_health = TunnelVerdict.unknown;
  };
}

abbrev no_health : String → TunnelHealth
no_health reason = record {
  tcp_ok = false;
  exit_ip = "";
  exit_country = "";
  exit_region = "";
  reason = reason;
}

-- A probe that raised or ran out of time is `none`.
abbrev pub probed : Option TunnelHealth → TunnelHealth
probed none = no_health "https_probe_failed"
probed (some h) = h

abbrev verdict_of : TunnelHealth → TunnelVerdict
verdict_of h = if h.tcp_ok then TunnelVerdict.pass else TunnelVerdict.fail

-- The notices that arrive while the probe runs are handled before its result is read.
unfoldable pub run_health_check :
    Letters → List Line → Option TunnelHealth → Manager → TunnelHealth × Manager
unfolding hear
run_health_check letters lines probe m =
    if has_port m.socks_port
    then (
      probed probe,
      let m' = hear letters lines m in
          record m' { status = record m'.status { tcp_tunnel_health = verdict_of (probed probe) } },
    )
    else (no_health "tunnel_ready_timeout", m)

-- A stretch of `_start_session`: the value it hands on, or `none` where the method returns `False`.
abbrev pub Stretch : Type 0 → Type 0
Stretch A = Manager → Option A × Manager

infixl 5 ◌>>=◌ ◌>>◌
abbrev pub ◌>>=◌ : {A B : Type 0} → Stretch A → (A → Stretch B) → Stretch B
◌>>=◌ s f m = let (r, m') = s m in elim r [ none ↦ (none, m') | some a ↦ f a m' ]

abbrev pub ◌>>◌ : {A B : Type 0} → Stretch A → Stretch B → Stretch B
s >> t = s >>= λ _. t

abbrev pub change : (Manager → Manager) → Stretch (Unit {0})
change f m = (some tt, f m)

-- `await self._fail(reason); await self._stop_active_process()`
unfoldable pub fail_and_stop : String → Option Ending → Manager → Manager
unfolding fail_with stop_active_process
fail_and_stop reason late m = stop_active_process late (fail_with reason m)

unfoldable pub open_session : Bool → Manager → Manager
unfolding set_state
open_session is_rotating m =
    let m' = set_state (if is_rotating then State.rotating else State.starting) "" m in
    record m' {
      notice_failure = "";
      ready_event = false;
      socks_port = none;
      active_tunnels = 0;
      stabilized = false;
      accepting = false;
    }

-- A managed upstream session must not start from stale data.
unfoldable pub retest : Bool → Attempt → Stretch (Unit {0})
unfolding fail_with
retest wanted a m =
    if wanted && m.settings.use_managed_upstream_proxy
    then if a.retest_ok
      then (some tt, record m { status = record m.status { last_proxy_retest_at = a.retested_at } })
      else (none, fail_with "proxy_retest_failed" m)
    else (some tt, m)

unfoldable pub choose_upstream : Attempt → Stretch (Option ManagedUpstream)
unfolding fail_with
choose_upstream a m =
    if m.settings.use_managed_upstream_proxy
    then if is_some a.candidate
      then (some a.candidate, m)
      else (none, fail_with "managed_upstream_unavailable" m)
    else (some none, m)

-- The session's identity and clock, once the Core runs.
unfoldable pub begin_connecting : Attempt → String → Manager → Manager
unfolding set_state
begin_connecting a path m = set_state State.connecting "" record m {
  process = some record { returncode = none };
  runtime_config_path = some path;
  started_monotonic = a.started_monotonic;
  status = record m.status {
    session_id = a.session_id;
    session_started_at = a.started_at;
    session_expires_at = a.expires_at;
  };
}

unfoldable pub launch_core : Launch → Attempt → Stretch (Unit {0})
unfolding begin_connecting fail_and_stop
launch_core (refused reason) a m = (none, fail_and_stop reason a.ending m)
launch_core not_spawned a m = (none, fail_and_stop "core_spawn_failed" a.ending m)
launch_core (spawned path) a m = (some tt, begin_connecting a path m)

unfoldable pub await_ready : Letters → Attempt → Stretch (Unit {0})
unfolding hear wait_for_ready fail_and_stop set_state
await_ready letters a m =
    let heard = hear letters a.lines m in
    let (is_ready, m') = wait_for_ready a.waited heard.process heard in
    if is_ready
    then (some tt, set_state State.connected "" m')
    else (none, fail_and_stop (or_text m'.notice_failure "tunnel_ready_timeout") a.ending m')

-- The session becomes healthy: the only place where leases are opened.
unfoldable pub open_leases : Attempt → TunnelHealth → Manager → Manager
unfolding set_state
open_leases a health m =
    let m' = set_state State.healthy health.reason m in
    record m' {
      last_health_monotonic = a.ready_monotonic;
      generation = m.generation + 1;
      accepting = true;
      status = record m'.status {
        tunnel_setup_ms = min ((a.ready_monotonic - m.started_monotonic) * 1000) 86_400_000;
        exit_ip = health.exit_ip;
        exit_country = health.exit_country;
        exit_region = health.exit_region;
        last_successful_health_check_at = a.checked_at;
      };
    }

unfoldable pub probe_session : Letters → Attempt → Stretch (Unit {0})
unfolding run_health_check fail_and_stop open_leases
probe_session letters a m =
    let (health, m') = run_health_check letters a.probe_lines a.probe m in
    if health.tcp_ok
    then (some tt, open_leases a health m')
    else (none, fail_and_stop (or_text health.reason "https_probe_failed") a.ending m')

-- `_start_session`
unfoldable pub start_session : Letters → Bool → Bool → Attempt → Stretch (Unit {0})
unfolding open_session retest choose_upstream launch_core await_ready probe_session
start_session letters retest_first is_rotating a = do
  change (open_session is_rotating)
  retest retest_first a
  upstream ← choose_upstream a
  launch_core (a.launch upstream) a
  await_ready letters a
  probe_session letters a
