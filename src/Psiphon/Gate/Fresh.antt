-- ===== src/Psiphon/Gate/Fresh.antt =====
-- Generations of leases across a restart of the Core (psiphon/manager.py: _start_session,
-- acquire_vless_backend).
use lumen_project_final.Prelude.{
  ℕ, ◌≤◌, ◌<◌, ◌≡◌, ◌∙◌, sym, refl, String, Option, none, some, List, arith,
}
use lumen_project_final.Psiphon.{
  BackendLease, Manager, Settings, acquire_vless_backend, new_manager,
}
use lumen_project_final.Psiphon.Notices.{Letters}
use lumen_project_final.Psiphon.Sound.{new_manager-IsSound}
use lumen_project_final.Psiphon.Gate.{Door, Gate, Move, Reach, view}
use lumen_project_final.Psiphon.Gate.Refines.{
  Op, run, lease_at, run-Follows, acquire_vless_backend-view,
}

-- An open door has the number of the last opening, which comes after `n`.
record IsAfter (n : ℕ) (g : Gate) : Type 0 where
  kept : n ≤ g.opened
  numbered : (d : Door) → g.door ≡ some d → (n < d.generation) × (d.generation ≡ g.opened)

Move-IsAfter : {n : ℕ} {g h : Gate} → Move g h → IsAfter n g → IsAfter n h
Move-IsAfter (Move.lease i d e f) a = record {
  kept = ground (arith, a.kept);
  numbered = λ d' e'. ground (arith, a.numbered d');
}
Move-IsAfter (Move.drop i f) a = record {
  kept = ground (arith, a.kept);
  numbered = λ d' e'. ground (arith, a.numbered d');
}
Move-IsAfter (Move.close f) a = record {
  kept = ground (arith, a.kept);
  numbered = λ d' e'. ground arith;
}
Move-IsAfter (Move.relocate d p e lo hi f) a = record {
  kept = ground (arith, a.kept);
  numbered = λ d' e'. ground (arith, a.numbered d e);
}
Move-IsAfter (Move.reopen p e lo hi f) a = record {
  kept = ground (arith, a.kept);
  numbered = λ d' e'. ground (arith, a.kept);
}

Reach-IsAfter : {n : ℕ} {g h : Gate} → IsAfter n g → Reach g h → IsAfter n h
Reach-IsAfter a Reach.here = a
Reach-IsAfter a (Reach.next r m) = Move-IsAfter m (Reach-IsAfter a r)

door_of_lease :
    (i : String) (o : Option Door) {l : BackendLease}
    → lease_at i o ≡ some l
    → (d : Door) × (o ≡ some d) × (d.generation ≡ l.generation)
door_of_lease i none h = cc
door_of_lease i (some d) h = (d, refl, ground arith)

no_lease : (i : String) (o : Option Door) → lease_at i o ≡ none → o ≡ none
no_lease i none h = refl
no_lease i (some d) h = cc

lease_bound :
    {n : ℕ} (g : Gate) (i : String) {l : BackendLease}
    → IsAfter n g
    → lease_at i g.door ≡ some l
    → (n < l.generation) × (l.generation ≡ g.opened)
lease_bound g i a e = let (d, f, k) = door_of_lease i g.door e in ground (arith, a.numbered d f)

Move-le : {g h : Gate} → Move g h → g.opened ≤ h.opened
Move-le (Move.lease i d e f) = ground arith
Move-le (Move.drop i f) = ground arith
Move-le (Move.close f) = ground arith
Move-le (Move.relocate d p e lo hi f) = ground arith
Move-le (Move.reopen p e lo hi f) = ground arith

Reach-le : {g h : Gate} → Reach g h → g.opened ≤ h.opened
Reach-le Reach.here = omega arith
Reach-le (Reach.next r m) = omega (arith, Reach-le r, Move-le m)

lease_current :
    (i : String) (m : Manager) {l : BackendLease}
    → lease_at i (view m).door ≡ some l
    → l.generation ≡ (view m).opened
unfolding view
lease_current i m e = ground arith

-- A door that is shut opens again in a later generation only.
shut-IsAfter : (g : Gate) → g.door ≡ none → IsAfter g.opened g
shut-IsAfter g e = record { kept = omega arith; numbered = λ d f. ground arith }

-- On a manager that started new: of two leases, if some acquire between them was refused, the
-- later lease has the greater generation.
pub acquire_vless_backend_after_refusal :
    (letters : Letters) (s : Settings) (before between after : List Op) (i j k : String)
    {l l' : BackendLease}
    → let m = run letters before (new_manager s) in
      let m' = run letters between m in
      (acquire_vless_backend i m).0 ≡ some l
      → (acquire_vless_backend j m').0 ≡ none
      → (acquire_vless_backend k (run letters after m')).0 ≡ some l'
      → l.generation < l'.generation
acquire_vless_backend_after_refusal letters s before between after i j k {l} {l'} e f g =
    let m = run letters before (new_manager s) in
    let m' = run letters between m in
    let h = (run-Follows letters before (new_manager s) (new_manager-IsSound s)).sound in
    let to_refusal = run-Follows letters between m h in
    let to_second = run-Follows letters after m' to_refusal.sound in
    let shut : (view m').door ≡ none =
      no_lease j (view m').door (sym (acquire_vless_backend-view j m') ∙ f) in
    let first : l.generation ≡ (view m).opened =
      lease_current i m (sym (acquire_vless_backend-view i m) ∙ e) in
    let second =
      lease_bound (view (run letters after m')) k
        (Reach-IsAfter (shut-IsAfter (view m') shut) to_second.reach)
        (sym (acquire_vless_backend-view k (run letters after m')) ∙ g) in
    omega (arith, first, second.0, Reach-le to_refusal.reach)
