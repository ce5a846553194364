-- ===== src/Psiphon/Attempts.antt =====
-- How long the supervisor goes on when no session comes up (psiphon/manager.py: _supervise).
use lumen_project_final.Prelude.{
  ℕ, ◌+◌, ◌-◌, ◌≤◌, ◌<◌, ◌≡◌, ◌∙◌, sym, ap, ◌⊎◌, inl, inr, refl, Bool, true, false, Option, none,
  some, List, [], ◌∷◌, arith, length, leb, if_cases,
}
use lumen_project_final.Psiphon.{State, Manager, Settings, fail_with, set_state, or_text}
use lumen_project_final.Psiphon.Notices.{Letters}
use lumen_project_final.Psiphon.Session.{
  Attempt, probed, run_health_check, start_session, probe_session, await_ready, launch_core,
  choose_upstream, retest, open_session, stop_active_process,
}
use lumen_project_final.Psiphon.Supervisor.{
  Turn, Loop, Next, Supervised, again, returned, count_restart, finish, back_off, backoff_delay,
  start_failed, started, supervise_turn, proceed, supervise,
}
use lumen_project_final.Psiphon.Sound.{IsSound}
use lumen_project_final.Psiphon.Opening.{
  IsDown, IsUp, Outcome, Leads, >>=-Leads, start_session_outcome,
}
use lumen_project_final.Psiphon.Gate.Refines.{Leaves, supervise_turn-Follows}

-- The probe of the tunnel fails, whatever came before it.
abbrev pub Fails : Attempt → Type 0
Fails a = (probed a.probe).tcp_ok ≡ false

abbrev pub AllFail : List Turn → Type 0
AllFail [] = Unit {0}
AllFail (t ∷ ts) = Fails t.attempt × AllFail ts

abbrev Any : Manager → Type 0
Any m = Unit {0}

abbrev Never : Manager → Type 0
Never m = ⊥

outcome-Any : {A : Type 0} (r : Option A × Manager) → Outcome {A = A} Any Any r
outcome-Any (none, m) = tt
outcome-Any (some a, m) = tt

probe_session-Fails :
    (letters : Letters) (a : Attempt) → Fails a → Leads Any Any Never (probe_session letters a)
unfolding probe_session run_health_check
probe_session-Fails letters a f m h = ground (arith, f)

start_session-Fails :
    (letters : Letters) (w r : Bool) (a : Attempt) (m : Manager)
    → Fails a
    → Outcome Any Never (start_session letters w r a m)
unfolding start_session
start_session-Fails letters w r a m f =
    >>=-Leads Any Any Any Never (retest w a) _ (λ k _. outcome-Any _)
      (λ _.
        >>=-Leads Any Any Any Never (choose_upstream a) _ (λ k _. outcome-Any _)
          (λ u.
            >>=-Leads Any Any Any Never (launch_core (a.launch u) a) _ (λ k _. outcome-Any _)
              (λ _.
                >>=-Leads Any Any Any Never (await_ready letters a) _ (λ k _. outcome-Any _)
                  (λ _. probe_session-Fails letters a f))))
      (open_session r m) tt

-- FAILED, or stopped from outside.
abbrev pub IsOver : Manager → Type 0
IsOver m = (m.status.state ≡ State.failed) ⊎ (m.stop_event ≡ true)

-- After a turn whose start failed: one attempt more and a bounded delay, or the end.
abbrev TurnFailed : Manager → Loop → Next → Type 0
TurnFailed m l (again d l' m') =
    (l'.attempts ≡ l.attempts + 1)
    × (l.attempts + 1 < m.settings.max_reconnect_attempts)
    × (d ≤ 60)
    × (m'.settings ≡ m.settings)
    × (m'.stop_event ≡ false)
TurnFailed m l (returned m') = IsOver m'

finish-IsOver :
    (t : Turn) (m : Manager)
    → m.status.state ≡ State.failed
    → m.stop_event ≡ false
    → IsOver (finish t.ending m)
unfolding finish
finish-IsOver t m s e = rw e (inl s)

finish-IsOver_stopped : (t : Turn) (m : Manager) → m.stop_event ≡ true → IsOver (finish t.ending m)
unfolding finish stop_active_process
finish-IsOver_stopped t m e = inr (ground (arith, e))

start_failed-TurnFailed :
    (t : Turn) (l : Loop) (m : Manager) → m.stop_event ≡ false → TurnFailed m l (start_failed t l m)
unfolding start_failed fail_with set_state back_off backoff_delay
start_failed-TurnFailed t l m e =
    if_cases (TurnFailed m l) (leb m.settings.max_reconnect_attempts (l.attempts + 1))
      (λ b.
        finish-IsOver t
          (fail_with (or_text m.status.last_error "core_spawn_failed")
            (count_restart (l.attempts + 1) m))
          refl e)
      (λ b.
        if_cases (TurnFailed m l) t.stop_in_backoff
          (λ c.
            finish-IsOver_stopped t
              (record (set_state State.reconnecting m.status.last_error
                (count_restart (l.attempts + 1) m)) { stop_event = true })
              refl)
          (λ c. (refl, ground (arith, b), omega arith, refl, e)))

-- A turn whose probe fails.
supervise_turn-TurnFailed :
    (letters : Letters) (t : Turn) (l : Loop) (m : Manager)
    → IsSound m
    → m.stop_event ≡ false
    → Fails t.attempt
    → TurnFailed m l (supervise_turn letters t l m)
unfolding supervise_turn
supervise_turn-TurnFailed letters t l m h e f =
    let a = start_session letters l.retest_before_start l.rotate_pending t.attempt m in
    if_cases (TurnFailed m l) m.stop_event (λ b. let clash : true ≡ false = sym b ∙ e in cc)
      (λ b.
        failed_start a
          (start_session_outcome letters l.retest_before_start l.rotate_pending t.attempt m h)
          (start_session-Fails letters l.retest_before_start l.rotate_pending t.attempt m f))
  where
    failed_start :
        (r : Option (Unit {0}) × Manager)
        → Outcome (IsDown m) (IsUp m) r
        → Outcome Any Never r
        → TurnFailed m l (started r.0 letters t l r.1)
    failed_start (none, m') d n =
        of_start (start_failed t l m') (start_failed-TurnFailed t l m' (d.shut.stop_event ∙ e))
      where
        of_start : (n : Next) → TurnFailed m' l n → TurnFailed m l n
        of_start (again k l' k') g =
            (g.0, ground (arith, g.1, d.shut.settings), g.2, g.3 ∙ d.shut.settings, g.4)
        of_start (returned k') g = g
    failed_start (some u, m') d n = absurd n

-- The supervisor has returned, after `n` delays at most, none above a minute.
abbrev pub HasReturned : Next → Type 0
HasReturned (again d l m) = ⊥
HasReturned (returned m) = IsOver m

abbrev pub AtMostMinute : List ℕ → Type 0
AtMostMinute [] = Unit {0}
AtMostMinute (d ∷ ds) = (d ≤ 60) × AtMostMinute ds

pub record Settles (n : ℕ) (r : Supervised) : Type 0 where
  pub over : HasReturned r.next
  pub few : length r.delays ≤ n
  pub bounded : AtMostMinute r.delays

-- After a failed turn, the rest settles within one delay less.
settle_turn :
    (rest : Loop → Manager → Supervised) (l : Loop) (m : Manager) (n : Next)
    → TurnFailed m l n
    → Leaves m n
    → ((l' : Loop) (m' : Manager)
        → IsSound m'
        → m'.stop_event ≡ false
        → m'.settings ≡ m.settings
        → l'.attempts ≡ l.attempts + 1
        → l.attempts + 1 < m.settings.max_reconnect_attempts
        → Settles (m.settings.max_reconnect_attempts - (l.attempts + 2)) (rest l' m'))
    → Settles (m.settings.max_reconnect_attempts - (l.attempts + 1)) (proceed rest n)
unfolding proceed
settle_turn rest l m (returned m') g k h = record { over = g; few = omega arith; bounded = tt }
settle_turn rest l m (again d l' m') g k h =
    let r = h l' m' k.sound g.4 g.3 g.0 g.1 in
    record { over = r.over; few = omega (arith, g.1, r.few); bounded = (g.2, r.bounded) }

-- If the probe of every attempt fails, the supervisor gives up after the allowed attempts: given
-- as many turns as attempts are left, it has returned, FAILED or stopped, after fewer delays than
-- that, each of which is at most 60 seconds.
pub supervise-Settles :
    (letters : Letters) (ts : List Turn) (l : Loop) (m : Manager)
    → IsSound m
    → m.stop_event ≡ false
    → l.attempts < m.settings.max_reconnect_attempts
    → m.settings.max_reconnect_attempts ≤ l.attempts + length ts
    → AllFail ts
    → Settles (m.settings.max_reconnect_attempts - (l.attempts + 1)) (supervise letters ts l m)
unfolding supervise
supervise-Settles letters [] l m h e lo hi f = absurd (omega arith)
supervise-Settles letters (t ∷ ts) l m h e lo hi f =
    settle_turn (supervise letters ts) l m (supervise_turn letters t l m)
      (supervise_turn-TurnFailed letters t l m h e f.0) (supervise_turn-Follows letters t l m h)
      (λ l' m' s e' c a b.
        let limit : m'.settings.max_reconnect_attempts ≡ m.settings.max_reconnect_attempts =
          ap (λ (x : Settings). x.max_reconnect_attempts) c in
        let count : m'.settings.max_reconnect_attempts - (l'.attempts + 1)
            ≡ m.settings.max_reconnect_attempts - (l.attempts + 2) =
          omega (arith, limit, a) in
        rw⁻¹ count (
          supervise-Settles letters ts l' m' s e' (omega (arith, limit, a, b))
            (omega (arith, limit, a, hi)) f.1))
