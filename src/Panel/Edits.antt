-- ===== src/Panel/Edits.antt =====
-- The panel's handlers (main.py) as steps of one state, and the agreement of groups and configs.
use lumen_project_final.Prelude.{
  ℕ, ◌≡◌, refl, Bool, true, false, Option, some, String, [], if◌then◌else◌, arith, Option-cases,
  if_cases, inl, inr,
}
use lumen_project_final.Prelude.Eq.{◌==◌, string_eq, ==_iff}
use lumen_project_final.Prelude.Dict.{get, put, get-put}
use lumen_project_final.Prelude.Member.{contains, distinct}
use lumen_project_final.Panel.{Link, Sub, Panel, Result, ok, err, Services}
use lumen_project_final.Panel.Links.{
  make_link, make_checked, target_ok, remove_link, set_link_sub, set_link_active, Request,
  check_request,
}
use lumen_project_final.Panel.Groups.{
  remove_sub_group, create_sub_group, assign_link_to_sub, update_sub, Patch,
}
use lumen_project_final.Panel.Patches.{LinkPatch, update_link}
use lumen_project_final.Panel.Patches.Grouped.{update_link-InSync}
use lumen_project_final.Panel.Assign.{free_for, assign_link_to_sub-InSync}
use lumen_project_final.Panel.Updates.{update_sub-InSync}
use lumen_project_final.Panel.Sync.{
  InSync, names, finish_save-keeps, store_link-InSync, drop_link-InSync, relink-InSync,
  move_link-InSync, drop_group-InSync,
}

make_checked-InSync :
    (generated : String) (saved : Bool) (r : Result (String × Link)) (p : Panel)
    → InSync p
    → InSync (make_checked generated saved r p).1
unfolding make_checked
make_checked-InSync generated saved (err e) p v = v
make_checked-InSync generated saved (ok (asked, link)) p v =
    let uid = if asked == "" then generated else asked in
    elim (Option-cases (get uid p.links)) [
      | inl fresh ↦
          rw (fresh, make_checked)
            (finish_save-keeps InSync saved uid _ (store_link-InSync uid link p fresh v))
      | inr (taken, found) ↦ rw (found, make_checked) v
    ]

remove_link-InSync :
    (uid : String) (saved : Bool) (p : Panel) → InSync p → InSync (remove_link uid saved p).1
unfolding remove_link
remove_link-InSync uid saved p v = elim (Option-cases (get uid p.links)) [
  | inl missing ↦ rw (missing, remove_link) v
  | inr (link, found) ↦
      rw (found, remove_link)
        (finish_save-keeps InSync saved (some link.label) _ (drop_link-InSync uid link p found v))
]

set_link_active-InSync :
    (uid : String) (active saved : Bool) (p : Panel)
    → InSync p
    → InSync (set_link_active uid active saved p).1
unfolding set_link_active
set_link_active-InSync uid active saved p v = elim (Option-cases (get uid p.links)) [
  | inl missing ↦ rw (missing, set_link_active) v
  | inr (link, found) ↦
      rw (found, set_link_active)
        (finish_save-keeps InSync saved true _ (relink-InSync uid link _ p found refl v))
]

set_link_sub-InSync :
    (e : Services) (uid : String) (c : Option String) (saved : Bool) (p : Panel)
    → InSync p
    → InSync (set_link_sub e uid c saved p).1
unfolding set_link_sub
set_link_sub-InSync e uid c saved p v = elim (Option-cases (get uid p.links)) [
  | inl missing ↦ rw (missing, set_link_sub) v
  | inr (link, found) ↦
      rw (found, set_link_sub)
        (if_cases (λ (r : Result Bool × Panel). InSync r.1) (target_ok e link c p.subs)
          (λ _. finish_save-keeps InSync saved true _ (move_link-InSync uid link c p found v))
          (λ _. v))
]

remove_sub_group-InSync :
    (sub_id : String) (saved : Bool) (p : Panel)
    → InSync p
    → InSync (remove_sub_group sub_id saved p).1
unfolding remove_sub_group
remove_sub_group-InSync sub_id saved p v = elim (Option-cases (get sub_id p.subs)) [
  | inl missing ↦ rw (missing, remove_sub_group) v
  | inr (sub, found) ↦
      rw (found, remove_sub_group)
        (finish_save-keeps InSync saved (some sub.name) _ (drop_group-InSync sub_id p v))
]

new_sub-InSync :
    (sub_id : String) (sub : Sub) (p : Panel)
    → sub.link_ids ≡ []
    → ((uid : String) → names sub_id (get uid p.links) ≡ false)
    → InSync p
    → InSync (record p { subs = put sub_id sub p.subs })
unfolding contains distinct
new_sub-InSync sub_id sub p empty unnamed v = record {
  agree = λ sid j h.
      ground
        (arith, get-put sub_id sid sub p.subs, v.agree sid j, unnamed j, ==_iff sub_id sid, empty);
  unique = λ sid. ground (arith, get-put sub_id sid sub p.subs, v.unique sid, empty);
}

create_sub_group-InSync :
    (e : Services) (name desc password sub_id uuid_key : String) (now : ℕ) (saved : Bool)
    (p : Panel)
    → ((uid : String) → names sub_id (get uid p.links) ≡ false)
    → InSync p
    → InSync (create_sub_group e name desc password sub_id uuid_key now saved p).1
unfolding create_sub_group
create_sub_group-InSync e name desc password sub_id uuid_key now saved p unnamed v =
    finish_save-keeps InSync saved sub_id _ (new_sub-InSync sub_id _ p refl unnamed v)

-- One handled request. A group's identifier is drawn so that no config names it yet, and a config is
-- assigned only when it is in no other group.
pub data Edit (e : Services) : Panel → Panel → Type 0 where
  makes :
      (r : Request) (generated : String) (now : ℕ) (saved : Bool) (p : Panel)
      → Edit e p (make_link e r generated now saved p).1
  removes : (uid : String) (saved : Bool) (p : Panel) → Edit e p (remove_link uid saved p).1
  switches :
      (uid : String) (active saved : Bool) (p : Panel)
      → Edit e p (set_link_active uid active saved p).1
  moves :
      (uid : String) (sub_id : Option String) (saved : Bool) (p : Panel)
      → Edit e p (set_link_sub e uid sub_id saved p).1
  creates :
      (name desc password sub_id uuid_key : String) (now : ℕ) (saved : Bool) (p : Panel)
      → ((uid : String) → names sub_id (get uid p.links) ≡ false)
      → Edit e p (create_sub_group e name desc password sub_id uuid_key now saved p).1
  dissolves :
      (sub_id : String) (saved : Bool) (p : Panel) → Edit e p (remove_sub_group sub_id saved p).1
  updates :
      (sub_id : String) (body : Patch) (saved : Bool) (p : Panel)
      → Edit e p (update_sub e sub_id body saved p).1
  patches :
      (now : ℕ) (uid : String) (body : LinkPatch) (saved : Bool) (p : Panel)
      → Edit e p (update_link e now uid body saved p).1
  assigns :
      (sub_id uid action : String) (saved : Bool) (p : Panel)
      → free_for sub_id (get uid p.links) ≡ true
      → Edit e p (assign_link_to_sub e sub_id uid action saved p).1

pub data Edits (e : Services) (p : Panel) : Panel → Type 0 where
  done : Edits e p p
  next : {q r : Panel} → Edits e p q → Edit e q r → Edits e p r

Edit-InSync : {e : Services} {p q : Panel} → Edit e p q → InSync p → InSync q
unfolding make_link
Edit-InSync {e} (makes r generated now saved p) v =
    make_checked-InSync generated saved (check_request e r now p.subs) p v
Edit-InSync (removes uid saved p) v = remove_link-InSync uid saved p v
Edit-InSync (switches uid active saved p) v = set_link_active-InSync uid active saved p v
Edit-InSync {e} (moves uid sub_id saved p) v = set_link_sub-InSync e uid sub_id saved p v
Edit-InSync {e} (creates name desc password sub_id uuid_key now saved p unnamed) v =
    create_sub_group-InSync e name desc password sub_id uuid_key now saved p unnamed v
Edit-InSync (dissolves sub_id saved p) v = remove_sub_group-InSync sub_id saved p v
Edit-InSync {e} (updates sub_id body saved p) v = update_sub-InSync e sub_id body saved p v
Edit-InSync {e} (patches now uid body saved p) v = update_link-InSync e now uid body saved p v
Edit-InSync {e} (assigns sub_id uid action saved p free) v =
    assign_link_to_sub-InSync e sub_id uid action saved p free v

-- After any sequence of handled requests, failed writes to the disk included, from a panel in
-- agreement: a group lists a config exactly when the config names the group, and lists it once. A new
-- group's identifier is one that no config names; a config is assigned only when it is in no other
-- group.
pub Edits-InSync : (e : Services) (p q : Panel) → InSync p → Edits e p q → InSync q
Edits-InSync e p q v done = v
Edits-InSync e p q v (next edits edit) = Edit-InSync edit (Edits-InSync e p _ v edits)
