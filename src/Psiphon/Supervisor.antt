-- ===== src/Psiphon/Supervisor.antt =====
-- The supervision of sessions (psiphon/manager.py: start, stop, _supervise,
-- _monitor_active_session, _restore_persisted). Each run of a loop takes what it meets as an
-- argument; a list of such arguments stands for a run of any length.
use lumen_project_final.Prelude.{
  ℕ, ◌+◌, ◌-◌, ◌*◌, ◌^◌, String, Bool, true, false, not, Option, none, some, List, [], ◌∷◌, min,
  leb, nat_eqb, if◌then◌else◌,
}
use lumen_project_final.Prelude.Eq.{◌==◌, string_eq}
use lumen_project_final.Psiphon.{
  State, Ending, Process, TunnelHealth, Manager, Settings, set_state, fail_with, or_text,
  safe_reason,
}
use lumen_project_final.Psiphon.Notices.{Letters, Line, hear, safe_region}
use lumen_project_final.Psiphon.Session.{
  Attempt, start_session, stop_active_process, run_health_check,
}

-- What one turn of the monitor's loop meets.
pub record Watch : Type 0 where
  pub exit_code : Option Ending
  pub now : ℕ
  pub is_stopping : Bool
  pub lines : List Line
  pub later : ℕ
  pub probe_lines : List Line
  pub probe : Option TunnelHealth
  pub checked_at : String
  pub checked_monotonic : ℕ

-- How long the monitor waits for the stop event before it looks again.
unfoldable pub wait_seconds : ℕ → Manager → ℕ
wait_seconds now m =
    min (m.settings.healthcheck_interval_seconds - (now - m.last_health_monotonic))
      (min (m.settings.session_max_age_seconds - (now - m.started_monotonic)) 5)

-- The operating system sets `returncode` of a process that ended.
abbrev pub end_process : Option Ending → Option Process → Option Process
end_process late none = none
end_process late (some p) =
    some record { returncode = elim p.returncode [ none ↦ late | some code ↦ some code ] }

abbrev keep_text : String → String → String
keep_text new old = or_text new old

-- A health check that passed.
unfoldable pub record_health : Watch → TunnelHealth → Manager → Manager
unfolding safe_reason
record_health w health m = record m {
  last_health_monotonic = w.checked_monotonic;
  stabilized = true;
  status = record m.status {
    exit_ip = keep_text health.exit_ip m.status.exit_ip;
    exit_country = keep_text health.exit_country m.status.exit_country;
    exit_region = keep_text health.exit_region m.status.exit_region;
    last_error = safe_reason health.reason;
    last_successful_health_check_at = w.checked_at;
  };
}

-- The end of a turn: a health check if one is due. A reason ends the session.
unfoldable pub check_when_due : Letters → Watch → Manager → Option String × Manager
unfolding run_health_check record_health
check_when_due letters w m =
    if leb m.settings.healthcheck_interval_seconds (w.later - m.last_health_monotonic)
    then (let (health, m') = run_health_check letters w.probe_lines w.probe m in
        if health.tcp_ok
        then (none, record_health w health m')
        else (some (or_text health.reason "https_probe_failed"), m'))
    else (none, m)

-- A live process: why the session ends, or what the wait and the health check leave.
unfoldable pub watch_process : Letters → Watch → Manager → Option String × Manager
unfolding hear check_when_due
watch_process letters w m =
    if not (m.notice_failure == "")
    then (some m.notice_failure, m)
    else if nat_eqb m.active_tunnels 0
    then (some "tunnel_lost", m)
    else if leb m.settings.session_max_age_seconds (w.now - m.started_monotonic)
    then (some "expired", m)
    else if w.is_stopping
    then (some "shutdown", record m { stop_event = true })
    else check_when_due letters w (hear letters w.lines m)

unfoldable pub watch_ending : Option Process → Letters → Watch → Manager → Option String × Manager
unfolding watch_process
watch_ending none letters w m = (some "core_exited", m)
watch_ending (some p) letters w m = elim p.returncode [
  | none ↦ watch_process letters w m
  | some code ↦
      (some "core_exited", record m { status = record m.status { last_exit_code = some code } })
]

-- One turn of `_monitor_active_session`
unfoldable pub monitor_turn : Letters → Watch → Manager → Option String × Manager
unfolding watch_ending
monitor_turn letters w m =
    let p = end_process w.exit_code m.process in watch_ending p letters w (record m { process = p })

-- `_monitor_active_session`: at the end of the list the stop event is found set.
unfoldable pub monitor_active_session : Letters → List Watch → Manager → String × Manager
unfolding monitor_turn
monitor_active_session letters [] m = ("shutdown", record m { stop_event = true })
monitor_active_session letters (w ∷ ws) m = elim ((monitor_turn letters w m).0) [
  | none ↦ monitor_active_session letters ws (monitor_turn letters w m).1
  | some reason ↦ (reason, (monitor_turn letters w m).1)
]

-- The supervisor's own variables
pub record Loop : Type 0 where
  pub attempts : ℕ
  pub rotate_pending : Bool
  pub retest_before_start : Bool

-- What one turn of `_supervise` meets.
pub record Turn : Type 0 where
  pub attempt : Attempt
  pub rotated_at : String
  pub watches : List Watch
  pub ending : Option Ending
  pub stop_in_backoff : Bool

-- A turn goes on after a delay, or the supervisor has returned.
pub data Next : Type 0 where
  again : ℕ → Loop → Manager → Next
  returned : Manager → Next

-- `min(60, backoff * (2 ** (attempts - 1)))`
unfoldable pub backoff_delay : Settings → ℕ → ℕ
backoff_delay s attempts = min 60 (s.reconnect_backoff_seconds * 2 ^ (attempts - 1))

abbrev pub count_restart : ℕ → Manager → Manager
count_restart n m = record m { status = record m.status { restart_count = n } }

-- The `finally` clause
unfoldable pub finish : Option Ending → Manager → Manager
unfolding stop_active_process
finish late m = if m.stop_event then stop_active_process late m else m

-- An exception that the loop does not expect ends the supervisor.
unfoldable pub crash : Option Ending → Manager → Manager
unfolding fail_with finish
crash late m = finish late (fail_with "core_spawn_failed" m)

unfoldable pub back_off : Turn → Loop → Manager → Next
unfolding backoff_delay finish
back_off t l m =
    if t.stop_in_backoff
    then returned (finish t.ending (record m { stop_event = true }))
    else again (backoff_delay m.settings l.attempts) l m

unfoldable pub start_failed : Turn → Loop → Manager → Next
unfolding back_off fail_with set_state finish
start_failed t l m =
    let m' = count_restart (l.attempts + 1) m in
    if leb m.settings.max_reconnect_attempts (l.attempts + 1)
    then returned (finish t.ending (fail_with (or_text m.status.last_error "core_spawn_failed") m'))
    else back_off t (record l { attempts = l.attempts + 1; retest_before_start = false })
        (set_state State.reconnecting m.status.last_error m')

-- A session that ended for another reason than its age.
unfoldable pub session_lost : Turn → ℕ → String → Manager → Next
unfolding back_off fail_with set_state finish stop_active_process
session_lost t attempts reason m =
    let n = (if m.stabilized then 0 else attempts) + 1 in
    let m' = count_restart n m in
    if leb m.settings.max_reconnect_attempts n
    then returned (finish t.ending (fail_with reason (stop_active_process t.ending m')))
    else back_off t (record { attempts = n; rotate_pending = false; retest_before_start = false })
        (stop_active_process t.ending (set_state State.reconnecting reason m'))

unfoldable pub session_over : Turn → ℕ → String → Manager → Next
unfolding session_lost finish stop_active_process set_state
session_over t attempts reason m =
    if m.stop_event
    then returned (finish t.ending m)
    else if reason == "expired"
    then again 0 (record { attempts = attempts; rotate_pending = true; retest_before_start = true })
        (stop_active_process t.ending (set_state State.rotating "" m))
    else session_lost t attempts reason m

-- A rotation that succeeded starts the count of attempts anew.
abbrev pub note_rotation : Bool → String → Manager → Manager
note_rotation false at m = m
note_rotation true at m = record m {
  status = record m.status {
    restart_count = 0;
    rotation_count = m.status.rotation_count + 1;
    last_rotation_at = at;
  };
}

unfoldable pub serve : Letters → Turn → Loop → Manager → Next
unfolding monitor_active_session session_over
serve letters t l m =
    let (reason, m') =
      monitor_active_session letters t.watches (note_rotation l.rotate_pending t.rotated_at m) in
    session_over t (if l.rotate_pending then 0 else l.attempts) reason m'

unfoldable pub started : Option (Unit {0}) → Letters → Turn → Loop → Manager → Next
unfolding start_failed serve
started none letters t l m = start_failed t l m
started (some u) letters t l m = serve letters t l m

-- One turn of the loop of `_supervise`, the test of the stop event first.
unfoldable pub supervise_turn : Letters → Turn → Loop → Manager → Next
unfolding started start_session finish
supervise_turn letters t l m =
    if m.stop_event
    then returned (finish t.ending m)
    else let s = start_session letters l.retest_before_start l.rotate_pending t.attempt m in
      started s.0 letters t l s.1

abbrev pub first_loop : Loop
first_loop = record { attempts = 0; rotate_pending = false; retest_before_start = true }

-- `_supervise` over the turns that it gets to take: where it stands, and its delays so far.
pub record Supervised : Type 0 where
  pub next : Next
  pub delays : List ℕ

-- A turn's delay is noted before the next turn is taken.
unfoldable pub proceed : (Loop → Manager → Supervised) → Next → Supervised
proceed rest (again d l m) = let r = rest l m in record r { delays = d ∷ r.delays }
proceed rest (returned m) = record { next = returned m; delays = [] }

unfoldable pub supervise : Letters → List Turn → Loop → Manager → Supervised
unfolding proceed supervise_turn
supervise letters [] l m = record { next = again 0 l m; delays = [] }
supervise letters (t ∷ ts) l m = proceed (supervise letters ts) (supervise_turn letters t l m)

-- What the state file held, as `sanitize` left it.
pub record Persisted : Type 0 where
  pub last_successful_location : String
  pub last_successful_setup_ms : ℕ
  pub last_rotation_at : String
  pub rotation_count : ℕ
  pub last_proxy_retest_at : String
  pub last_successful_health_check_at : String

unfoldable pub restore_persisted : Letters → Persisted → Manager → Manager
unfolding safe_region
restore_persisted letters p m = record m {
  status = record m.status {
    selected_location = safe_region letters p.last_successful_location;
    tunnel_setup_ms = min p.last_successful_setup_ms 86_400_000;
    last_rotation_at = p.last_rotation_at;
    rotation_count = p.rotation_count;
    last_proxy_retest_at = p.last_proxy_retest_at;
    last_successful_health_check_at = p.last_successful_health_check_at;
  };
}

abbrev core_found : Bool → Manager → Manager
core_found found m = record m { status = record m.status { core_available = found } }

-- What `validate_startup` raised, if it raised.
unfoldable pub started_up : Letters → Option String → Persisted → Manager → Bool × Manager
unfolding fail_with restore_persisted
started_up letters (some reason) p m = (false, fail_with reason (core_found false m))
started_up letters none p m =
    (true, record (restore_persisted letters p (core_found true m)) { stop_event = false })

-- `start`: whether a supervisor's task is made. `is_supervised` says that one still runs.
unfoldable pub start : Letters → Bool → Option String → Persisted → Manager → Bool × Manager
unfolding set_state started_up
start letters is_supervised refusal p m =
    if not m.settings.enabled
    then (false, set_state State.disabled "" m)
    else if is_supervised
    then (false, m)
    else started_up letters refusal p m

-- `stop`, once the supervisor's task is cancelled.
unfoldable pub stop : Option Ending → Manager → Manager
unfolding stop_active_process set_state
stop late m =
    let m' = stop_active_process late (record m { stop_event = true }) in
    if m.settings.enabled
    then set_state State.stopped "shutdown" m'
    else set_state State.disabled "" m'
