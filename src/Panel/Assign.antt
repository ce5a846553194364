-- ===== src/Panel/Assign.antt =====
-- The endpoint that assigns a config to a group (main.py: `assign_link_to_sub`), and the agreement of
-- the two sides.
use mathlib.Core.Option
use lumen_project_final.Prelude.{
  ◌≡◌, refl, Bool, true, false, not, ◌&&◌, ◌||◌, Option, none, some, String, if◌then◌else◌, arith,
  is_some, Option-cases, if_cases, inl, inr,
}
use lumen_project_final.Prelude.Eq.{◌==◌, string_eq, ==_iff, ==_refl}
use lumen_project_final.Prelude.Dict.{Dict, get, get-put}
use lumen_project_final.Panel.{Link, Sub, Panel, Result, Services}
use lumen_project_final.Panel.Links.{with_link, without_link}
use lumen_project_final.Panel.Groups.{
  names_sub, owned_by, set_owner, assign_add, assign_remove, assign_checked, assign_in,
  assign_link_to_sub,
}
use lumen_project_final.Panel.Sync.{
  InSync, lists, names, is_some-map, lists-with_link, lists-without_link, distinct-with_link,
  distinct-without_link, finish_save-keeps, get-change_sub,
}

-- The config is in no other group.
abbrev pub free_for : String → Option Link → Bool
free_for sub_id none = true
free_for sub_id (some link) = not (is_some link.sub_id) || names_sub sub_id link.sub_id

get-set_owner :
    (uid j : String) (c : Option String) (links : Dict String Link)
    → get j (set_owner uid c links)
      ≡ (if uid == j then Option.map (owned_by c) (get j links) else get j links)
unfolding set_owner
get-set_owner uid j c links = elim (Option-cases (get uid links)) [
  | inl missing ↦ ground (arith, ==_iff uid j)
  | inr (link, found) ↦ ground (arith, ==_iff uid j, get-put uid j (owned_by c link) links)
]

names-owner :
    (sid : String) (c : Option String) (o : Option Link)
    → names sid (Option.map (owned_by c) o) ≡ (is_some o && names_sub sid c)
unfolding owned_by
names-owner sid c none = refl
names-owner sid c (some link) = refl

names-free_for :
    (sub_id sid : String) (o : Option Link)
    → free_for sub_id o ≡ true
    → names sid o ≡ true
    → (sub_id == sid) ≡ true
names-free_for sub_id sid none free named = ground arith
names-free_for sub_id sid (some link) free named = elim (Option-cases link.sub_id) [
  | inl e ↦ ground arith
  | inr (s, e) ↦ ground (arith, ==_iff s sub_id, ==_iff s sid, ==_iff sub_id sid)
]

assign_add-InSync :
    (sub_id uid : String) (link : Link) (p : Panel)
    → get uid p.links ≡ some link
    → free_for sub_id (get uid p.links) ≡ true
    → InSync p
    → InSync (assign_add sub_id uid p)
unfolding assign_add
assign_add-InSync sub_id uid link p found free v = record {
  agree = λ sid j h. ground (
    arith,
    get-set_owner uid j (some sub_id) p.links,
    names-owner sid (some sub_id) (get j p.links),
    get-change_sub (with_link uid) (some sub_id) sid p.subs,
    lists-with_link uid j (get sid p.subs),
    is_some-map (with_link uid) (get sid p.subs),
    names-free_for sub_id sid (get uid p.links) free,
    v.agree sid j,
    ==_iff uid j,
  );
  unique = λ sid. ground (
    arith,
    get-change_sub (with_link uid) (some sub_id) sid p.subs,
    distinct-with_link uid (get sid p.subs),
    v.unique sid,
  );
}

assign_remove-InSync :
    (sub_id uid : String) (p : Panel)
    → free_for sub_id (get uid p.links) ≡ true
    → InSync p
    → InSync (assign_remove sub_id uid p)
unfolding assign_remove
assign_remove-InSync sub_id uid p free v = record {
  agree = λ sid j h. ground (
    arith,
    get-set_owner uid j none p.links,
    names-owner sid none (get j p.links),
    get-change_sub (without_link uid) (some sub_id) sid p.subs,
    lists-without_link uid j (get sid p.subs) (v.unique sid),
    is_some-map (without_link uid) (get sid p.subs),
    names-free_for sub_id sid (get uid p.links) free,
    v.agree sid j,
    ==_iff uid j,
  );
  unique = λ sid. ground (
    arith,
    get-change_sub (without_link uid) (some sub_id) sid p.subs,
    distinct-without_link uid (get sid p.subs) (v.unique sid),
    v.unique sid,
  );
}

assign_checked-InSync :
    (e : Services) (sub : Sub) (o : Option Link) (sub_id uid : String) (saved : Bool) (p : Panel)
    → get uid p.links ≡ o
    → free_for sub_id (get uid p.links) ≡ true
    → InSync p
    → InSync (assign_checked e sub o sub_id uid saved p).1
unfolding assign_checked
assign_checked-InSync e sub none sub_id uid saved p found free v = v
assign_checked-InSync e sub (some link) sub_id uid saved p found free v =
    if_cases (λ (r : Result (Unit {0}) × Panel). InSync r.1) _
      (λ _. finish_save-keeps InSync saved tt _ (assign_add-InSync sub_id uid link p found free v))
      (λ _. v)

assign_in-InSync :
    (e : Services) (o : Option Sub) (sub_id uid action : String) (saved : Bool) (p : Panel)
    → free_for sub_id (get uid p.links) ≡ true
    → InSync p
    → InSync (assign_in e o sub_id uid action saved p).1
unfolding assign_in
assign_in-InSync e none sub_id uid action saved p free v = v
assign_in-InSync e (some sub) sub_id uid action saved p free v =
    if_cases (λ (r : Result (Unit {0}) × Panel). InSync r.1) (action == "add")
      (λ _. assign_checked-InSync e sub (get uid p.links) sub_id uid saved p refl free v)
      (λ _. finish_save-keeps InSync saved tt _ (assign_remove-InSync sub_id uid p free v))

pub assign_link_to_sub-InSync :
    (e : Services) (sub_id uid action : String) (saved : Bool) (p : Panel)
    → free_for sub_id (get uid p.links) ≡ true
    → InSync p
    → InSync (assign_link_to_sub e sub_id uid action saved p).1
unfolding assign_link_to_sub
assign_link_to_sub-InSync e sub_id uid action saved p free v =
    assign_in-InSync e (get sub_id p.subs) sub_id uid action saved p free v

-- A config that another group lists stays listed there: from a panel in agreement, `assign_add` to a
-- second group leaves one that is not.
pub assign_add-breaks :
    (old_id sub_id uid : String) (p : Panel)
    → (old_id == sub_id) ≡ false
    → is_some (get sub_id p.subs) ≡ true
    → lists uid (get old_id p.subs) ≡ true
    → InSync p
    → ¬ InSync (assign_add sub_id uid p)
unfolding assign_add
assign_add-breaks old_id sub_id uid p other there listed v w = ground (
  arith,
  get-change_sub (with_link uid) (some sub_id) old_id p.subs,
  get-set_owner uid uid (some sub_id) p.links,
  names-owner old_id (some sub_id) (get uid p.links),
  w.agree old_id uid,
  ==_iff old_id sub_id,
  ==_iff sub_id old_id,
  ==_refl uid,
)
