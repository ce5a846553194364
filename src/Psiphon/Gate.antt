-- ===== src/Psiphon/Gate.antt =====
-- The contract of the manager with the VLESS endpoint (psiphon/manager.py: acquire_vless_backend,
-- release_vless_backend): a gate that is shut, or open in a numbered generation at a port.
pub mod Moves
pub mod Refines
pub mod Fresh
use lumen_project_final.Prelude.{
  ℕ, ◌+◌, ◌≤◌, ◌≡◌, String, Bool, Option, none, some, List, [], if◌then◌else◌,
}
use lumen_project_final.Prelude.Eq.{string_eq}
use lumen_project_final.Prelude.Member.{add_once, remove_first}
use lumen_project_final.Psiphon.{Manager, vless_transport_available, port_number}

pub record Door : Type 0 where
  pub generation : ℕ
  pub port : ℕ

pub record Gate : Type 0 where
  pub door : Option Door
  pub opened : ℕ
  pub holders : List String

abbrev pub shut_gate : Gate
shut_gate = record { door = none; opened = 0; holders = [] }

-- What may happen to a gate. It opens only when it is shut, and then in a new generation; a lease
-- is given only while it is open.
pub data Move (g g' : Gate) : Type 0 where
  lease :
      (i : String) (d : Door)
      → g.door ≡ some d
      → g' ≡ record g { holders = add_once i g.holders }
      → Move g g'
  drop : (i : String) → g' ≡ record g { holders = remove_first i g.holders } → Move g g'
  close : g' ≡ record g { door = none } → Move g g'
  relocate :
      (d : Door) (p : ℕ)
      → g.door ≡ some d
      → 1 ≤ p
      → p ≤ 65535
      → g' ≡ record g { door = some record { generation = d.generation; port = p } }
      → Move g g'
  reopen :
      (p : ℕ)
      → g.door ≡ none
      → 1 ≤ p
      → p ≤ 65535
      → g' ≡ record g {
        door = some record { generation = g.opened + 1; port = p };
        opened = g.opened + 1;
      }
      → Move g g'

pub data Reach (g : Gate) : Gate → Type 0 where
  here : Reach g g
  next : {h k : Gate} → Reach g h → Move h k → Reach g k

pub Reach-trans : {g h k : Gate} → Reach g h → Reach h k → Reach g k
Reach-trans r here = r
Reach-trans r (next s m) = next (Reach-trans r s) m

-- What the endpoint sees of the manager.
abbrev door_of : Bool → Manager → Option Door
door_of available m =
    if available
    then some record { generation = m.generation; port = port_number m.socks_port }
    else none

unfoldable pub view : Manager → Gate
unfolding vless_transport_available
view m = record {
  door = door_of (vless_transport_available m) m;
  opened = m.generation;
  holders = m.leases;
}
