-- ===== src/Psiphon/Gate/Moves.antt =====
-- The manager's small steps (psiphon/manager.py) as moves of the gate.
use lumen_project_final.Prelude.{
  ◌≤◌, ◌≡◌, ◌∙◌, refl, String, Bool, true, false, not, Option, none, some, List, [], ◌∷◌, arith,
  is_some, Bool-cases, Option-cases, if_cases, ◌-◌, inl, inr, leb, nat_eqb,
}
use lumen_project_final.Prelude.Eq.{◌==◌, string_eq}
use lumen_project_final.Psiphon.{
  State, Ending, Process, TunnelHealth, Manager, set_state, has_port, port_number,
  vless_transport_available, is_healthy, fail_with,
}
use lumen_project_final.Psiphon.Notices.{Letters, Line}
use lumen_project_final.Psiphon.Heard.{Heard, Heard-refl, hear-Heard}
use lumen_project_final.Psiphon.Session.{stop_active_process, run_health_check}
use lumen_project_final.Psiphon.Supervisor.{
  Watch, end_process, record_health, check_when_due, watch_process, watch_ending, monitor_turn,
  monitor_active_session,
}
use lumen_project_final.Psiphon.Sound.{
  IsSound, Heard-IsSound, set_state-IsSound, stop_active_process-IsSound, safe_reason_listed,
}
use lumen_project_final.Psiphon.Opening.{IsShut, IsUp}
use lumen_project_final.Psiphon.Gate.{Move, Reach, Reach-trans, view}

-- A stretch of work that keeps the manager sound and that the gate can follow.
pub record Follows (m m' : Manager) : Type 0 where
  pub sound : IsSound m'
  pub reach : Reach (view m) (view m')

pub Follows-trans : {m n k : Manager} → Follows m n → Follows n k → Follows m k
Follows-trans f g = record { sound = g.sound; reach = Reach-trans f.reach g.reach }

pub move-Follows : {m m' : Manager} → IsSound m' → Move (view m) (view m') → Follows m m'
move-Follows h k = record { sound = h; reach = Reach.next Reach.here k }

pub same-Follows : {m m' : Manager} → IsSound m' → view m' ≡ view m → Follows m m'
same-Follows {m} {m'} h e = record { sound = h; reach = rw e Reach.here }

pub closed-Follows :
    {m m' : Manager}
    → IsSound m'
    → vless_transport_available m' ≡ false
    → m'.generation ≡ m.generation
    → m'.leases ≡ m.leases
    → Follows m m'
unfolding view
closed-Follows {m} {m'} h a g l = move-Follows h (Move.close (ground arith))

not_accepting : (m : Manager) → m.accepting ≡ false → vless_transport_available m ≡ false
unfolding vless_transport_available
not_accepting m h = ground arith

pub IsShut-Follows : {m m' : Manager} → IsShut m m' → Follows m m'
IsShut-Follows {m} {m'} h =
    closed-Follows h.sound (not_accepting m' h.accepting) h.generation h.leases

port_of_available :
    (m : Manager)
    → vless_transport_available m ≡ true
    → IsSound m
    → (1 ≤ port_number m.socks_port) × (port_number m.socks_port ≤ 65535)
unfolding vless_transport_available
port_of_available m h s = (ground (arith, s.in_range), s.in_range)

pub IsUp-Follows : {m m' : Manager} → IsSound m → IsUp m m' → Follows m m'
unfolding view
IsUp-Follows {m} {m'} s h = record {
  sound = h.sound;
  reach = Reach.next (Reach.next Reach.here (Move.close refl)) (
      Move.reopen (port_number m'.socks_port) refl (port_of_available m' h.available h.sound).0
        (port_of_available m' h.available h.sound).1 (ground (arith, h.available)));
}

available-Heard :
    {m m' : Manager}
    → Heard m m'
    → IsSound m
    → vless_transport_available m' ≡ vless_transport_available m
unfolding vless_transport_available
available-Heard {m} {m'} k s = ground (arith, k.dialable, s.dialable)

-- The Core may move to another port while the gate is open.
pub Heard-Follows : {m m' : Manager} → IsSound m → Heard m m' → Follows m m'
unfolding view
Heard-Follows {m} {m'} s k =
    let s' = Heard-IsSound k s in
    let e = available-Heard k s in
    elim (Bool-cases (vless_transport_available m)) [
      | inl a ↦ move-Follows s' (
          Move.relocate (record { generation = m.generation; port = port_number m.socks_port })
            (port_number m'.socks_port) (ground (arith, a)) (port_of_available m' (e ∙ a) s').0
            (port_of_available m' (e ∙ a) s').1 (ground (arith, a, e ∙ a, k.generation, k.leases)))
      | inr a ↦ closed-Follows s' (e ∙ a) k.generation k.leases
    ]

pub set_state-Follows :
    (s : State) (r : String) (m : Manager)
    → is_healthy s ≡ false
    → IsSound m
    → Follows m (set_state s r m)
unfolding set_state vless_transport_available
set_state-Follows s r m n h =
    closed-Follows (set_state-IsSound s r m h) (ground (arith, n)) refl refl

pub fail_with-Follows : (r : String) (m : Manager) → IsSound m → Follows m (fail_with r m)
unfolding fail_with
fail_with-Follows r m h = set_state-Follows State.failed r m refl h

pub stop_active_process-Follows :
    (late : Option Ending) (m : Manager) → IsSound m → Follows m (stop_active_process late m)
unfolding stop_active_process vless_transport_available
stop_active_process-Follows late m h =
    closed-Follows (stop_active_process-IsSound late m h) refl refl refl

run_health_check-Heard :
    (letters : Letters) (ls : List Line) (p : Option TunnelHealth) (m : Manager)
    → Heard m (run_health_check letters ls p m).1
unfolding run_health_check
run_health_check-Heard letters ls p m =
    let k = hear-Heard letters ls m in
    if_cases (λ (r : TunnelHealth × Manager). Heard m r.1) (has_port m.socks_port)
      (λ t. ground arith) (λ f. Heard-refl m)

record_health-Follows :
    (w : Watch) (health : TunnelHealth) (m : Manager)
    → IsSound m
    → Follows m (record_health w health m)
unfolding record_health view vless_transport_available
record_health-Follows w health m h =
    same-Follows (ground (arith, safe_reason_listed health.reason)) refl

abbrev pub FollowsTo : Manager → Option String × Manager → Type 0
FollowsTo m r = Follows m r.1

pub stopping-Follows :
    (b : Bool) (m : Manager) → IsSound m → Follows m (record m { stop_event = b })
unfolding view vless_transport_available
stopping-Follows b m h = same-Follows (ground arith) refl

check_when_due-Follows :
    (letters : Letters) (w : Watch) (m : Manager)
    → IsSound m
    → Follows m (check_when_due letters w m).1
unfolding check_when_due
check_when_due-Follows letters w m h =
    let r = run_health_check letters w.probe_lines w.probe m in
    let f : Follows m r.1 =
      Heard-Follows h (run_health_check-Heard letters w.probe_lines w.probe m) in
    if_cases (FollowsTo m)
      (leb m.settings.healthcheck_interval_seconds (w.later - m.last_health_monotonic))
      (λ due.
        if_cases (FollowsTo m) r.0.tcp_ok
          (λ t. Follows-trans f (record_health-Follows w r.0 r.1 f.sound)) (λ t. f))
      (λ t. same-Follows h refl)

watch_process-Follows :
    (letters : Letters) (w : Watch) (m : Manager)
    → IsSound m
    → Follows m (watch_process letters w m).1
unfolding watch_process
watch_process-Follows letters w m h =
    let same : Follows m m = same-Follows h refl in
    if_cases (FollowsTo m) (not (m.notice_failure == "")) (λ t. same)
      (λ f.
        if_cases (FollowsTo m) (nat_eqb m.active_tunnels 0) (λ t. same)
          (λ f.
            if_cases (FollowsTo m)
              (leb m.settings.session_max_age_seconds (w.now - m.started_monotonic)) (λ t. same)
              (λ f.
                if_cases (FollowsTo m) w.is_stopping (λ t. stopping-Follows true m h)
                  (λ f.
                    let k = Heard-Follows h (hear-Heard letters w.lines m) in
                    Follows-trans k (check_when_due-Follows letters w _ k.sound)))))

watch_ending-Follows :
    (p : Option Process) (letters : Letters) (w : Watch) (m : Manager)
    → IsSound m
    → Follows m (watch_ending p letters w m).1
unfolding watch_ending view vless_transport_available
watch_ending-Follows none letters w m h = same-Follows h refl
watch_ending-Follows (some p) letters w m h = elim (Option-cases p.returncode) [
  | inl e ↦ rw e (watch_process-Follows letters w m h)
  | inr (code, e) ↦ rw e (exit_seen m h code)
]
  where
    exit_seen :
        (m : Manager)
        → IsSound m
        → (code : Ending)
        → Follows m (record m { status = record m.status { last_exit_code = some code } })
    exit_seen m h code = same-Follows (ground arith) refl

end_process-some :
    (late : Option Ending) (p : Option Process) → is_some (end_process late p) ≡ is_some p
end_process-some late none = refl
end_process-some late (some p) = refl

pub monitor_turn-Follows :
    (letters : Letters) (w : Watch) (m : Manager)
    → IsSound m
    → Follows m (monitor_turn letters w m).1
unfolding monitor_turn view vless_transport_available
monitor_turn-Follows letters w m h =
    let p = end_process w.exit_code m.process in
    let m1 : Manager = record m { process = p } in
    let s : IsSound m1 = ground (arith, end_process-some w.exit_code m.process) in
    let f : Follows m m1 = same-Follows s refl in
    Follows-trans f (watch_ending-Follows p letters w m1 s)

-- A monitor's run, whatever it meets, is followed by the gate.
pub monitor_active_session-Follows :
    (letters : Letters) (ws : List Watch) (m : Manager)
    → IsSound m
    → Follows m (monitor_active_session letters ws m).1
unfolding monitor_active_session
monitor_active_session-Follows letters [] m h = stopping-Follows true m h
monitor_active_session-Follows letters (w ∷ ws) m h =
    let r = monitor_turn letters w m in
    let k = monitor_turn-Follows letters w m h in
    elim (Option-cases r.0) [
      | inl e ↦
          rw (e, monitor_active_session)
            (Follows-trans k (monitor_active_session-Follows letters ws r.1 k.sound))
      | inr (reason, e) ↦ rw (e, monitor_active_session) k
    ]
