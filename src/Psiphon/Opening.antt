-- ===== src/Psiphon/Opening.antt =====
-- How a run of `_start_session` ends (psiphon/manager.py), stretch by stretch.
use lumen_project_final.Prelude.{
  ◌+◌, ◌≡◌, ◌∙◌, ap, refl, String, Bool, true, false, Option, none, some, List, arith, is_some,
  if_cases,
}
use lumen_project_final.Psiphon.{
  State, Ending, Process, TunnelHealth, Manager, fail_with, set_state, has_port,
  vless_transport_available, or_text,
}
use lumen_project_final.Psiphon.Notices.{Letters, Line, Waited, hear, wait_for_ready}
use lumen_project_final.Psiphon.Heard.{Heard, hear-Heard}
use lumen_project_final.Psiphon.Session.{
  Attempt, Launch, Stretch, ◌>>=◌, stop_active_process, run_health_check, fail_and_stop,
  open_session, retest, choose_upstream, begin_connecting, launch_core, await_ready, open_leases,
  probe_session, start_session,
}
use lumen_project_final.Psiphon.Sound.{
  IsSound, Heard-IsSound, set_state-IsSound, fail_and_stop-IsSound, open_session-IsSound,
  safe_reason_listed,
}

-- No lease can be taken, and none has been since `m`.
pub record IsShut (m m' : Manager) : Type 0 where
  pub sound : IsSound m'
  pub settings : m'.settings ≡ m.settings
  pub accepting : m'.accepting ≡ false
  pub generation : m'.generation ≡ m.generation
  pub leases : m'.leases ≡ m.leases
  pub stop_event : m'.stop_event ≡ m.stop_event

pub record IsRunning (m m' : Manager) : Type 0 where
  pub shut : IsShut m m'
  pub process : is_some m'.process ≡ true

pub record IsDown (m m' : Manager) : Type 0 where
  pub shut : IsShut m m'
  pub failed : m'.status.state ≡ State.failed

-- Leases can be taken, in a new generation.
pub record IsUp (m m' : Manager) : Type 0 where
  pub sound : IsSound m'
  pub settings : m'.settings ≡ m.settings
  pub available : vless_transport_available m' ≡ true
  pub generation : m'.generation ≡ m.generation + 1
  pub leases : m'.leases ≡ m.leases
  pub stop_event : m'.stop_event ≡ m.stop_event

-- Either the stretch gives up in a state that `D` holds of, or it goes on in one of `Q`.
abbrev pub Outcome :
    {A : Type 0} → (Manager → Type 0) → (Manager → Type 0) → Option A × Manager → Type 0
Outcome D Q (none, m) = D m
Outcome D Q (some a, m) = Q m

abbrev pub Leads : {A : Type 0} → (P D Q : Manager → Type 0) → Stretch A → Type 0
Leads {A} P D Q s = (m : Manager) → P m → Outcome {A = A} D Q (s m)

bind_outcome :
    {A B : Type 0} (D Q R : Manager → Type 0) (f : A → Stretch B) (r : Option A × Manager)
    → Outcome {A = A} D Q r
    → ((a : A) → Leads Q D R (f a))
    → Outcome {A = B} D R (elim (r.0) [ none ↦ (none, r.1) | some a ↦ f a r.1 ])
bind_outcome D Q R f (none, m) h k = h
bind_outcome D Q R f (some a, m) h k = k a m h

pub >>=-Leads :
    {A B : Type 0} (P D Q R : Manager → Type 0) (s : Stretch A) (f : A → Stretch B)
    → Leads P D Q s
    → ((a : A) → Leads Q D R (f a))
    → Leads P D R (s >>= f)
>>=-Leads P D Q R s f h k m p = bind_outcome D Q R f (s m) (h m p) k

module _ (m0 : Manager) where
  set_state-IsShut :
      (s : State) (r : String) (m : Manager) → IsShut m0 m → IsShut m0 (set_state s r m)
  unfolding set_state
  set_state-IsShut s r m h = let k = set_state-IsSound s r m h.sound in ground arith

  fail_with-IsDown : (r : String) (m : Manager) → IsShut m0 m → IsDown m0 (fail_with r m)
  unfolding fail_with set_state
  fail_with-IsDown r m h = record { shut = set_state-IsShut State.failed r m h; failed = refl }

  fail_and_stop-IsDown :
      (r : String) (late : Option Ending) (m : Manager)
      → IsShut m0 m
      → IsDown m0 (fail_and_stop r late m)
  unfolding fail_and_stop fail_with set_state stop_active_process
  fail_and_stop-IsDown r late m h = let k = fail_and_stop-IsSound r late m h.sound in ground arith

  Heard-IsShut : {m m' : Manager} → Heard m m' → IsShut m0 m → IsShut m0 m'
  Heard-IsShut k h = record {
    sound = Heard-IsSound k h.sound;
    settings = k.settings ∙ h.settings;
    accepting = k.accepting ∙ h.accepting;
    generation = k.generation ∙ h.generation;
    leases = k.leases ∙ h.leases;
    stop_event = k.stop_event ∙ h.stop_event;
  }

  retest-Leads : (w : Bool) (a : Attempt) → Leads (IsShut m0) (IsDown m0) (IsShut m0) (retest w a)
  unfolding retest
  retest-Leads w a m h = ground (arith, fail_with-IsDown "proxy_retest_failed" m h)

  choose_upstream-Leads :
      (a : Attempt) → Leads (IsShut m0) (IsDown m0) (IsShut m0) (choose_upstream a)
  unfolding choose_upstream
  choose_upstream-Leads a m h = ground (arith, fail_with-IsDown "managed_upstream_unavailable" m h)

  begin_connecting-IsRunning :
      (a : Attempt) (path : String) (m : Manager)
      → IsShut m0 m
      → IsRunning m0 (begin_connecting a path m)
  unfolding begin_connecting set_state
  begin_connecting-IsRunning a path m h = ground (arith, safe_reason_listed "")

  launch_core-Leads :
      (l : Launch) (a : Attempt) → Leads (IsShut m0) (IsDown m0) (IsRunning m0) (launch_core l a)
  unfolding launch_core
  launch_core-Leads (Launch.refused reason) a m h = fail_and_stop-IsDown reason a.ending m h
  launch_core-Leads Launch.not_spawned a m h = fail_and_stop-IsDown "core_spawn_failed" a.ending m h
  launch_core-Leads (Launch.spawned path) a m h = begin_connecting-IsRunning a path m h

  wait_for_ready-IsRunning :
      (w : Waited) (p : Option Process) (m : Manager)
      → IsRunning m0 m
      → IsRunning m0 (wait_for_ready w p m).1
  unfolding wait_for_ready
  wait_for_ready-IsRunning w none m h = h
  wait_for_ready-IsRunning w (some p) m h = ground arith

  Heard-IsRunning : {m m' : Manager} → Heard m m' → IsRunning m0 m → IsRunning m0 m'
  Heard-IsRunning k h = record {
    shut = Heard-IsShut k h.shut;
    process = ap is_some k.process ∙ h.process;
  }

  await_ready-Leads :
      (letters : Letters) (a : Attempt)
      → Leads (IsRunning m0) (IsDown m0) (IsRunning m0) (await_ready letters a)
  unfolding await_ready set_state
  await_ready-Leads letters a m h =
      let heard = hear letters a.lines m in
      let r = wait_for_ready a.waited heard.process heard in
      let k : IsRunning m0 r.1 =
        wait_for_ready-IsRunning a.waited heard.process heard
          (Heard-IsRunning (hear-Heard letters a.lines m) h) in
      if_cases (λ (q : Option (Unit {0}) × Manager). Outcome (IsDown m0) (IsRunning m0) q) r.0
        (λ t. record { shut = set_state-IsShut State.connected "" r.1 k.shut; process = k.process })
        (λ f.
          fail_and_stop-IsDown (or_text r.1.notice_failure "tunnel_ready_timeout") a.ending r.1
            k.shut)

  run_health_check-IsRunning :
      (letters : Letters) (ls : List Line) (p : Option TunnelHealth) (m : Manager)
      → IsRunning m0 m
      → IsRunning m0 (run_health_check letters ls p m).1
  unfolding run_health_check
  run_health_check-IsRunning letters ls p m h =
      let k = Heard-IsRunning (hear-Heard letters ls m) h in ground arith

  -- A check that passed was made through a port.
  run_health_check-has_port :
      (letters : Letters) (ls : List Line) (p : Option TunnelHealth) (m : Manager)
      → (run_health_check letters ls p m).0.tcp_ok ≡ true
      → has_port (run_health_check letters ls p m).1.socks_port ≡ true
  unfolding run_health_check
  run_health_check-has_port letters ls p m h = let k = hear-Heard letters ls m in ground arith

  open_leases-IsUp :
      (a : Attempt) (health : TunnelHealth) (m : Manager)
      → IsRunning m0 m
      → has_port m.socks_port ≡ true
      → IsUp m0 (open_leases a health m)
  unfolding open_leases set_state vless_transport_available
  open_leases-IsUp a health m h p = ground (arith, safe_reason_listed health.reason)

  probe_session-Leads :
      (letters : Letters) (a : Attempt)
      → Leads (IsRunning m0) (IsDown m0) (IsUp m0) (probe_session letters a)
  unfolding probe_session
  probe_session-Leads letters a m h =
      let r = run_health_check letters a.probe_lines a.probe m in
      let k = run_health_check-IsRunning letters a.probe_lines a.probe m h in
      if_cases (λ (q : Option (Unit {0}) × Manager). Outcome (IsDown m0) (IsUp m0) q) r.0.tcp_ok
        (λ t.
          open_leases-IsUp a r.0 r.1 k
            (run_health_check-has_port letters a.probe_lines a.probe m t))
        (λ f. fail_and_stop-IsDown (or_text r.0.reason "https_probe_failed") a.ending r.1 k.shut)

  open_session-IsShut : (is_rotating : Bool) → IsSound m0 → IsShut m0 (open_session is_rotating m0)
  unfolding open_session set_state
  open_session-IsShut is_rotating h = let k = open_session-IsSound is_rotating m0 h in ground arith

-- A start either ends in FAILED with the gate shut, in the same generation and with the same
-- leases, or opens the gate in the next generation.
pub start_session_outcome :
    (letters : Letters) (w r : Bool) (a : Attempt) (m : Manager)
    → IsSound m
    → Outcome (IsDown m) (IsUp m) (start_session letters w r a m)
unfolding start_session
start_session_outcome letters w r a m h =
    let D = IsDown m in
    let S = IsShut m in
    let R = IsRunning m in
    >>=-Leads S D S (IsUp m) (retest w a) _ (retest-Leads m w a)
      (λ _. >>=-Leads S D S (IsUp m) (choose_upstream a) _ (choose_upstream-Leads m a) (λ u.
        >>=-Leads S D R (IsUp m) (launch_core (a.launch u) a) _ (launch_core-Leads m (a.launch u) a)
          (λ _.
            >>=-Leads R D R (IsUp m) (await_ready letters a) _ (await_ready-Leads m letters a)
              (λ _. probe_session-Leads m letters a))))
      (open_session r m) (open_session-IsShut m r h)
