-- ===== src/Psiphon/Sound.antt =====
-- What holds of the manager between any two of its steps (psiphon/manager.py).
use lumen_project_final.Prelude.{
  ◌≤◌, ◌≡◌, ◌∙◌, sym, ap, refl, String, Bool, true, ◌||◌, Option, none, some, List, arith, is_some,
  length, Bool-cases, if_cases, inl, inr,
}
use lumen_project_final.Prelude.Eq.{◌==◌, string_eq}
use lumen_project_final.Prelude.Member.{
  contains, distinct, distinct-add_once, distinct-remove_first,
}
use lumen_project_final.Psiphon.{
  State, Ending, BackendLease, TunnelHealth, Manager, Settings, safe_failures, safe_reason,
  set_state, fail_with, has_port, port_number, acquire_vless_backend, release_vless_backend,
  new_manager,
}
use lumen_project_final.Psiphon.Notices.{Letters, Line}
use lumen_project_final.Psiphon.Heard.{Heard, hear-Heard}
use lumen_project_final.Psiphon.Session.{
  stop_active_process, run_health_check, fail_and_stop, open_session,
}

pub is_listed : String → Bool
is_listed r = r == "" || contains r safe_failures

-- While leases are open there is a process and a port that a client can dial; an error shown is
-- one of the listed reasons; the count shown is the number of leases, which are distinct.
pub record IsSound (m : Manager) : Type 0 where
  pub served : m.accepting ≡ true → is_some m.process ≡ true
  pub dialable : m.accepting ≡ true → has_port m.socks_port ≡ true
  pub in_range : port_number m.socks_port ≤ 65535
  pub listed : is_listed m.status.last_error ≡ true
  pub counted : m.status.active_psiphon_ws_sessions ≡ length m.leases
  pub unique : distinct m.leases ≡ true

pub safe_reason_listed : (r : String) → is_listed (safe_reason r) ≡ true
unfolding safe_reason is_listed
safe_reason_listed r = elim (Bool-cases (contains r safe_failures)) [
  | inl e ↦ rw e (ground (arith, e))
  | inr e ↦ rw e refl
]

pub set_state-IsSound :
    (s : State) (r : String) (m : Manager) → IsSound m → IsSound (set_state s r m)
unfolding set_state
set_state-IsSound s r m h = record {
  served = h.served;
  dialable = h.dialable;
  in_range = h.in_range;
  listed = safe_reason_listed r;
  counted = h.counted;
  unique = h.unique;
}

pub Heard-IsSound : {m m' : Manager} → Heard m m' → IsSound m → IsSound m'
Heard-IsSound k h = record {
  served = λ e. rw k.process (h.served (sym k.accepting ∙ e));
  dialable = λ e. k.dialable (h.dialable (sym k.accepting ∙ e));
  in_range = k.in_range h.in_range;
  listed = rw k.last_error h.listed;
  counted = k.sessions ∙ h.counted ∙ ap length (sym k.leases);
  unique = rw k.leases h.unique;
}

pub fail_with-IsSound : (r : String) (m : Manager) → IsSound m → IsSound (fail_with r m)
unfolding fail_with
fail_with-IsSound r m h = set_state-IsSound State.failed r m h

pub stop_active_process-IsSound :
    (late : Option Ending) (m : Manager) → IsSound m → IsSound (stop_active_process late m)
unfolding stop_active_process
stop_active_process-IsSound late m h = ground arith

pub fail_and_stop-IsSound :
    (r : String) (late : Option Ending) (m : Manager) → IsSound m → IsSound (fail_and_stop r late m)
unfolding fail_and_stop
fail_and_stop-IsSound r late m h = stop_active_process-IsSound late _ (fail_with-IsSound r m h)

pub open_session-IsSound :
    (is_rotating : Bool) (m : Manager) → IsSound m → IsSound (open_session is_rotating m)
unfolding open_session set_state
open_session-IsSound is_rotating m h = ground (arith, safe_reason_listed "")

pub run_health_check-IsSound :
    (letters : Letters) (ls : List Line) (p : Option TunnelHealth) (m : Manager)
    → IsSound m
    → IsSound (run_health_check letters ls p m).1
unfolding run_health_check
run_health_check-IsSound letters ls p m h =
    if_cases (λ (r : TunnelHealth × Manager). IsSound r.1) (has_port m.socks_port)
      (λ t. let k = Heard-IsSound (hear-Heard letters ls m) h in ground arith) (λ f. h)

pub acquire_vless_backend-IsSound :
    (lease_id : String) (m : Manager) → IsSound m → IsSound (acquire_vless_backend lease_id m).1
unfolding acquire_vless_backend
acquire_vless_backend-IsSound lease_id m h =
    ground (arith, distinct-add_once lease_id m.leases h.unique)

pub release_vless_backend-IsSound :
    (lease : Option BackendLease) (m : Manager)
    → IsSound m
    → IsSound (release_vless_backend lease m)
unfolding release_vless_backend
release_vless_backend-IsSound none m h = h
release_vless_backend-IsSound (some lease) m h =
    ground (arith, distinct-remove_first lease.lease_id m.leases h.unique)

pub new_manager-IsSound : (s : Settings) → IsSound (new_manager s)
unfolding new_manager is_listed distinct
new_manager-IsSound s = ground arith
