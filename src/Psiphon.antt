-- ===== src/Psiphon.antt =====
-- The Psiphon session manager (psiphon/manager.py, psiphon/models.py): the records it keeps, its
-- reasons, its leases, and what it publishes. The children model the Core process and its
-- supervision.
pub mod Notices
pub mod Session
pub mod Supervisor
mod Heard
pub mod Sound
pub mod Opening
pub mod Gate
pub mod Attempts
use lumen_project_final.Prelude.{
  ℕ, ◌-◌, ◌+◌, min, String, Bool, true, false, not, ◌&&◌, ◌||◌, Option, none, some, List, [], ◌∷◌,
  is_some, length, leb, ltb, if◌then◌else◌,
}
use lumen_project_final.Prelude.Eq.{◌==◌, string_eq}
use lumen_project_final.Prelude.Member.{contains, add_once, remove_first}

-- The phases, in the order of models.py.
pub data State : Type 0 where
  disabled stopped starting connecting connected healthy rotating reconnecting degraded failed :
      State

abbrev pub is_healthy : State → Bool
is_healthy State.healthy = true
is_healthy _ = false

-- `tcp_tunnel_health`
pub data TunnelVerdict : Type 0 where
  pass fail unknown : TunnelVerdict

-- What `returncode` holds once the process is gone: an exit code, or the signal that ended it.
pub data Ending : Type 0 where
  exited killed : ℕ → Ending

pub record Process : Type 0 where
  pub returncode : Option Ending

-- A transient catalog record
pub record ManagedUpstream : Type 0 where
  pub upstream_id : String
  pub url : String

pub record BackendLease : Type 0 where
  pub lease_id : String
  pub generation : ℕ
  pub host : String
  pub port : ℕ

pub record TunnelHealth : Type 0 where
  pub tcp_ok : Bool
  pub exit_ip : String
  pub exit_country : String
  pub exit_region : String
  pub reason : String

-- The settings that the manager itself reads; times are in seconds.
pub record Settings : Type 0 where
  pub enabled : Bool
  pub session_max_age_seconds : ℕ
  pub healthcheck_interval_seconds : ℕ
  pub max_reconnect_attempts : ℕ
  pub reconnect_backoff_seconds : ℕ
  pub use_managed_upstream_proxy : Bool

pub record SessionStatus : Type 0 where
  pub core_available : Bool
  pub state : State
  pub session_id : String
  pub session_started_at : String
  pub session_expires_at : String
  pub selected_location : String
  pub tunnel_setup_ms : ℕ
  pub exit_ip : String
  pub exit_country : String
  pub exit_region : String
  pub tcp_tunnel_health : TunnelVerdict
  pub last_rotation_at : String
  pub rotation_count : ℕ
  pub last_proxy_retest_at : String
  pub last_successful_health_check_at : String
  pub last_error : String
  pub restart_count : ℕ
  pub last_exit_code : Option Ending
  pub active_psiphon_ws_sessions : ℕ

pub record Manager : Type 0 where
  pub settings : Settings
  pub status : SessionStatus
  pub process : Option Process
  pub runtime_config_path : Option String
  pub ready_event : Bool
  pub stop_event : Bool
  pub socks_port : Option ℕ
  pub active_tunnels : ℕ
  pub started_monotonic : ℕ
  pub last_health_monotonic : ℕ
  pub notice_failure : String
  pub stabilized : Bool
  pub generation : ℕ
  pub accepting : Bool
  pub leases : List String

abbrev pub fresh_status : SessionStatus
fresh_status = record {
  core_available = false;
  state = State.disabled;
  session_id = "";
  session_started_at = "";
  session_expires_at = "";
  selected_location = "";
  tunnel_setup_ms = 0;
  exit_ip = "";
  exit_country = "";
  exit_region = "";
  tcp_tunnel_health = TunnelVerdict.unknown;
  last_rotation_at = "";
  rotation_count = 0;
  last_proxy_retest_at = "";
  last_successful_health_check_at = "";
  last_error = "";
  restart_count = 0;
  last_exit_code = none;
  active_psiphon_ws_sessions = 0;
}

-- `PsiphonSessionManager.__init__`
unfoldable pub new_manager : Settings → Manager
new_manager s = record {
  settings = s;
  status = fresh_status;
  process = none;
  runtime_config_path = none;
  ready_event = false;
  stop_event = false;
  socks_port = none;
  active_tunnels = 0;
  started_monotonic = 0;
  last_health_monotonic = 0;
  notice_failure = "";
  stabilized = false;
  generation = 0;
  accepting = false;
  leases = [];
}

abbrev pub safe_failures : List String
safe_failures =
    "core_binary_missing" ∷ "core_binary_not_executable" ∷ "core_config_missing"
    ∷ "core_config_invalid" ∷ "light_proxy_fallback_disallowed" ∷ "tunnels_disabled"
    ∷ "packet_tunnel_not_supported" ∷ "egress_region_invalid" ∷ "managed_upstream_unavailable"
    ∷ "managed_upstream_invalid" ∷ "core_spawn_failed" ∷ "core_exited" ∷ "core_notice_error"
    ∷ "core_notice_too_large" ∷ "tunnel_ready_timeout" ∷ "tunnel_lost" ∷ "https_probe_failed"
    ∷ "exit_identity_unavailable" ∷ "proxy_retest_failed" ∷ "shutdown" ∷ []

-- `reason if reason in _SAFE_FAILURES else ""`
unfoldable pub safe_reason : String → String
safe_reason reason = if contains reason safe_failures then reason else ""

-- Python's `a or b` on texts
abbrev pub or_text : String → String → String
or_text a b = if a == "" then b else a

unfoldable pub set_state : State → String → Manager → Manager
set_state s reason m = record m {
  status = record m.status { state = s; last_error = safe_reason reason };
}

-- `_fail`; what `_persist` writes to disk changes no state of the manager.
unfoldable pub fail_with : String → Manager → Manager
unfolding set_state
fail_with reason m = set_state State.failed reason m

-- A port is missing, or it is a number; Python takes 0 for missing too.
abbrev pub has_port : Option ℕ → Bool
has_port none = false
has_port (some p) = ltb 0 p

unfoldable pub vless_transport_available : Manager → Bool
vless_transport_available m = m.accepting && (is_healthy m.status.state && has_port m.socks_port)

-- `int(self._socks_port or 0)`
abbrev pub port_number : Option ℕ → ℕ
port_number none = 0
port_number (some p) = p

-- `self._leases` changed, and its length published
abbrev pub with_leases : List String → Manager → Manager
with_leases xs m = record m {
  leases = xs;
  status = record m.status { active_psiphon_ws_sessions = length xs };
}

-- `lease_id` is what `uuid4().hex` returned.
unfoldable pub acquire_vless_backend : String → Manager → Option BackendLease × Manager
unfolding vless_transport_available
acquire_vless_backend lease_id m =
    if vless_transport_available m
    then (
      some record {
        lease_id = lease_id;
        generation = m.generation;
        host = "127.0.0.1";
        port = port_number m.socks_port;
      },
      with_leases (add_once lease_id m.leases) m,
    )
    else (none, m)

unfoldable pub release_vless_backend : Option BackendLease → Manager → Manager
release_vless_backend none m = m
release_vless_backend (some lease) m = with_leases (remove_first lease.lease_id m.leases) m

unfoldable pub local_socks_endpoint : Manager → Option (String × ℕ)
local_socks_endpoint m =
    if is_healthy m.status.state && has_port m.socks_port
    then some ("127.0.0.1", port_number m.socks_port)
    else none

-- The states that `status()` publishes
pub data PublicState : Type 0 where
  off unavailable active halted broken pending : PublicState

abbrev is_missing : String → Bool
is_missing reason = contains reason (
    "core_binary_missing" ∷ "core_binary_not_executable" ∷ "core_config_missing"
    ∷ "core_config_invalid" ∷ [])

abbrev resting_state : State → PublicState
resting_state State.stopped = halted
resting_state State.failed = broken
resting_state _ = pending

unfoldable pub public_state : Manager → PublicState
unfolding vless_transport_available
public_state m =
    if not m.settings.enabled
    then off
    else if is_missing m.status.last_error
    then unavailable
    else if vless_transport_available m
    then active
    else resting_state m.status.state

-- `bool(process and process.returncode is None)`
abbrev pub is_running : Option Process → Bool
is_running none = false
is_running (some p) = not (is_some p.returncode)

pub record PublicStatus : Type 0 where
  pub state : PublicState
  pub core_available : Bool
  pub available : Bool

unfoldable pub published_status : Manager → PublicStatus
unfolding public_state vless_transport_available
published_status m = record {
  state = public_state m;
  core_available = is_running m.process;
  available = vless_transport_available m;
}
