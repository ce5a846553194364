-- ===== src/Panel/Sync.antt =====
-- The two-way association of configs and groups: a group lists a config exactly when the config
-- names the group.
use mathlib.Core.Option
use lumen_project_final.Prelude.{
  ◌≡◌, refl, Bool, true, false, ◌&&◌, ◌||◌, Option, none, some, String, List, [], ◌∷◌,
  if◌then◌else◌, arith, is_some, Option-cases, inl, inr,
}
use lumen_project_final.Prelude.Eq.{◌==◌, string_eq, ==_iff}
use lumen_project_final.Prelude.Dict.{Dict, get, put, get-put, get-remove}
use lumen_project_final.Prelude.Member.{
  contains, distinct, contains-add_once, distinct-add_once, contains-remove_first,
  distinct-remove_first,
}
use lumen_project_final.Panel.{Link, Sub, Panel}
use lumen_project_final.Panel.Links.{
  finish_save, with_link, without_link, change_sub, store_link, drop_link, move_link,
}
use lumen_project_final.Panel.Groups.{names_sub, leave_group, free_links, drop_group}

abbrev pub lists : String → Option Sub → Bool
lists uid none = false
lists uid (some sub) = contains uid sub.link_ids

abbrev pub names : String → Option Link → Bool
names sid none = false
names sid (some link) = names_sub sid link.sub_id

abbrev pub ids_of : Option Sub → List String
ids_of none = []
ids_of (some sub) = sub.link_ids

pub record InSync (p : Panel) : Type 0 where
  pub agree :
      (sid uid : String)
      → is_some (get sid p.subs) ≡ true
      → lists uid (get sid p.subs) ≡ names sid (get uid p.links)
  pub unique : (sid : String) → distinct (ids_of (get sid p.subs)) ≡ true

pub get-change_sub :
    (f : Sub → Sub) (c : Option String) (j : String) (subs : Dict String Sub)
    → get j (change_sub f c subs)
      ≡ (if names_sub j c then Option.map f (get j subs) else get j subs)
unfolding change_sub
get-change_sub f none j subs = refl
get-change_sub f (some k) j subs = elim (Option-cases (get k subs)) [
  | inl missing ↦ ground (arith, ==_iff k j)
  | inr (sub, found) ↦ ground (arith, ==_iff k j, get-put k j (f sub) subs)
]

pub lists-with_link :
    (uid j : String) (o : Option Sub)
    → lists j (Option.map (with_link uid) o) ≡ (is_some o && uid == j || lists j o)
unfolding with_link
lists-with_link uid j none = refl
lists-with_link uid j (some sub) = contains-add_once j uid sub.link_ids

pub distinct-with_link :
    (uid : String) (o : Option Sub)
    → distinct (ids_of o) ≡ true
    → distinct (ids_of (Option.map (with_link uid) o)) ≡ true
unfolding with_link
distinct-with_link uid none d = d
distinct-with_link uid (some sub) d = distinct-add_once uid sub.link_ids d

pub lists-without_link :
    (uid j : String) (o : Option Sub)
    → distinct (ids_of o) ≡ true
    → lists j (Option.map (without_link uid) o) ≡ (if uid == j then false else lists j o)
unfolding without_link
lists-without_link uid j none d = ground arith
lists-without_link uid j (some sub) d = contains-remove_first j uid sub.link_ids d

pub distinct-without_link :
    (uid : String) (o : Option Sub)
    → distinct (ids_of o) ≡ true
    → distinct (ids_of (Option.map (without_link uid) o)) ≡ true
unfolding without_link
distinct-without_link uid none d = d
distinct-without_link uid (some sub) d = distinct-remove_first uid sub.link_ids d

pub is_some-map {ℓ κ} :
    {A : Type ℓ} {B : Type κ} (f : A → B) (o : Option A) → is_some (Option.map f o) ≡ is_some o
is_some-map f none = refl
is_some-map f (some a) = refl

-- A new config, listed by the group that it names.
pub store_link-InSync :
    (uid : String) (link : Link) (p : Panel)
    → get uid p.links ≡ none
    → InSync p
    → InSync (store_link uid link p)
unfolding store_link
store_link-InSync uid link p fresh v = record {
  agree = λ sid j h. ground (
    arith,
    get-put uid j link p.links,
    get-change_sub (with_link uid) link.sub_id sid p.subs,
    lists-with_link uid j (get sid p.subs),
    is_some-map (with_link uid) (get sid p.subs),
    v.agree sid j,
    ==_iff uid j,
  );
  unique = λ sid. ground (
    arith,
    get-change_sub (with_link uid) link.sub_id sid p.subs,
    distinct-with_link uid (get sid p.subs),
    v.unique sid,
  );
}

pub drop_link-InSync :
    (uid : String) (link : Link) (p : Panel)
    → get uid p.links ≡ some link
    → InSync p
    → InSync (drop_link uid link p)
unfolding drop_link
drop_link-InSync uid link p found v = record {
  agree = λ sid j h. ground (
    arith,
    get-remove uid j p.links,
    get-change_sub (without_link uid) link.sub_id sid p.subs,
    lists-without_link uid j (get sid p.subs) (v.unique sid),
    is_some-map (without_link uid) (get sid p.subs),
    v.agree sid j,
    v.agree sid uid,
    ==_iff uid j,
  );
  unique = λ sid. ground (
    arith,
    get-change_sub (without_link uid) link.sub_id sid p.subs,
    distinct-without_link uid (get sid p.subs) (v.unique sid),
    v.unique sid,
  );
}

pub relink-InSync :
    (uid : String) (old link : Link) (p : Panel)
    → get uid p.links ≡ some old
    → link.sub_id ≡ old.sub_id
    → InSync p
    → InSync (record p { links = put uid link p.links })
relink-InSync uid old link p found same v = record {
  agree = λ sid j h.
      ground (arith, get-put uid j link p.links, v.agree sid j, ==_iff uid j, same, found);
  unique = v.unique;
}

pub move_link-InSync :
    (uid : String) (link : Link) (c : Option String) (p : Panel)
    → get uid p.links ≡ some link
    → InSync p
    → InSync (move_link uid link c p)
unfolding move_link
move_link-InSync uid link c p found v = record {
  agree = λ sid j h. ground (
    arith,
    get-put uid j (record link { sub_id = c }) p.links,
    get-change_sub (with_link uid) c sid (change_sub (without_link uid) link.sub_id p.subs),
    get-change_sub (without_link uid) link.sub_id sid p.subs,
    lists-with_link uid j (get sid (change_sub (without_link uid) link.sub_id p.subs)),
    lists-without_link uid j (get sid p.subs) (v.unique sid),
    is_some-map (with_link uid) (get sid (change_sub (without_link uid) link.sub_id p.subs)),
    is_some-map (without_link uid) (get sid p.subs),
    v.agree sid j,
    v.agree sid uid,
    ==_iff uid j,
  );
  unique = λ sid. ground (
    arith,
    get-change_sub (with_link uid) c sid (change_sub (without_link uid) link.sub_id p.subs),
    get-change_sub (without_link uid) link.sub_id sid p.subs,
    distinct-with_link uid (get sid (change_sub (without_link uid) link.sub_id p.subs)),
    distinct-without_link uid (get sid p.subs) (v.unique sid),
    v.unique sid,
  );
}

get-free_links :
    (sid uid : String) (links : Dict String Link)
    → get uid (free_links sid links) ≡ Option.map (leave_group sid) (get uid links)
unfolding free_links get
get-free_links sid uid [] = refl
get-free_links sid uid ((j, link) ∷ rest) = ground (arith, get-free_links sid uid rest)

pub names-leave_group :
    (sid j : String) (o : Option Link)
    → names sid (Option.map (leave_group j) o) ≡ (if j == sid then false else names sid o)
unfolding leave_group
names-leave_group sid j none = ground arith
names-leave_group sid j (some link) = elim (Option-cases link.sub_id) [
  | inl e ↦ ground (arith, ==_iff j sid)
  | inr (s, e) ↦ ground (arith, ==_iff j sid, ==_iff s j, ==_iff s sid)
]

pub drop_group-InSync : (sid : String) (p : Panel) → InSync p → InSync (drop_group sid p)
unfolding drop_group distinct
drop_group-InSync sid p v = record {
  agree = λ s j h. ground (
    arith,
    get-remove sid s p.subs,
    get-free_links sid j p.links,
    names-leave_group s sid (get j p.links),
    v.agree s j,
    ==_iff sid s,
  );
  unique = λ s. ground (arith, get-remove sid s p.subs, v.unique s);
}

pub finish_save-keeps {ℓ} :
    {A : Type ℓ} (P : Panel → Type 0) (saved : Bool) (a : A) (p : Panel)
    → P p
    → P (finish_save saved a p).1
unfolding finish_save
finish_save-keeps P true a p h = h
finish_save-keeps P false a p h = h
