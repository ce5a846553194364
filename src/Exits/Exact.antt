-- ===== src/Exits/Exact.antt =====
-- No location, country or proxy stands in for another (main.py: resolve_exit_selection).
use lumen_project_final.Prelude.{
  ◌≡◌, refl, inl, inr, String, Bool, true, not, ◌&&◌, ◌||◌, Option, none, some, List, [], ◌∷◌,
  arith, length, nat_eqb, Bool-cases, or_else, if_cases, if◌then◌else◌,
}
use lumen_project_final.Prelude.Eq.{◌==◌, string_eq, ==_iff}
use lumen_project_final.Prelude.Dict.{Dict, get}
use lumen_project_final.Prelude.Text.{strip}
use lumen_project_final.Repository.{Record, get_record}
use lumen_project_final.Panel.{Location, MultiLocation, Link, Sub}
use lumen_project_final.Panel.Access.{multi_location_for_link}
use lumen_project_final.Exits.{
  World, Selection, Resolved, unavailable, chosen, or_text, explicit, country_preferred,
  current_preferred, find_location, select_record, select_location, resolve_location, resolve_by,
  resolve_exit_selection,
}

-- A location of the list
pub data Among (l : Location) : List Location → Type 0 where
  here : (ls : List Location) → Among l (l ∷ ls)
  there : (k : Location) (ls : List Location) → Among l ls → Among l (k ∷ ls)

find_location-Among :
    (loc_id : String) (ls : List Location) {l : Location}
    → find_location loc_id ls ≡ some l
    → Among l ls × (l.id ≡ loc_id) × (l.active ≡ true)
unfolding find_location
find_location-Among loc_id [] h = cc
find_location-Among loc_id (k ∷ ls) {l} h = elim (Bool-cases (k.id == loc_id && k.active)) [
  | inl e ↦
      let d : k ≡ l = ground (arith, e) in
      rw⁻¹ d (Among.here ls, ground (arith, e, ==_iff k.id loc_id), ground (arith, e))
  | inr e ↦
      let r = find_location-Among loc_id ls {l = l} (ground (arith, e)) in
      (Among.there k ls r.0, r.1, r.2)
]

-- The proxy that a location names, by the group's mode.
abbrev pub proxy_for : World → MultiLocation → Location → String
proxy_for w ml l =
    if or_text ml.selection_mode explicit == country_preferred
    then or_else (get l.code (current_preferred w w.preferred)) ""
    else l.proxy_id

-- The selection is the proxy of the active location asked for, at its endpoint in the catalogue,
-- and of its country.
pub record IsExact (w : World) (ml : MultiLocation) (loc_id : String) (s : Selection) : Type 0 where
  pub location : Location
  pub among : Among location ml.locations
  pub asked : location.id ≡ strip loc_id
  pub active : location.active ≡ true
  pub catalogued : Record
  pub known : get_record (proxy_for w ml location) w.repository ≡ some catalogued
  pub country : catalogued.code ≡ location.code
  pub proxy_id : s.proxy_id ≡ catalogued.id
  pub endpoint : s.endpoint ≡ catalogued.endpoint

abbrev pub OnlyExact : World → MultiLocation → String → Resolved → Type 0
OnlyExact w ml loc_id (unavailable e) = Unit {0}
OnlyExact w ml loc_id (chosen none) = ⊥
OnlyExact w ml loc_id (chosen (some s)) = IsExact w ml loc_id s

select_record-OnlyExact :
    (w : World) (ml : MultiLocation) (loc_id : String) (l : Location) (o : Option Record)
    → Among l ml.locations
    → l.id ≡ strip loc_id
    → l.active ≡ true
    → get_record (proxy_for w ml l) w.repository ≡ o
    → OnlyExact w ml loc_id (select_record w (strip loc_id) l.code o)
unfolding select_record
select_record-OnlyExact w ml loc_id l none a i t e = tt
select_record-OnlyExact w ml loc_id l (some r) a i t e =
    if_cases (OnlyExact w ml loc_id) (r.code == l.code)
      (λ same. record {
        location = l;
        among = a;
        asked = i;
        active = t;
        catalogued = r;
        known = e;
        country = (==_iff r.code l.code).0 same;
        proxy_id = refl;
        endpoint = refl;
      })
      (λ other. tt)

select_location-OnlyExact :
    (w : World) (ml : MultiLocation) (loc_id : String) (o : Option Location)
    → find_location (strip loc_id) ml.locations ≡ o
    → OnlyExact w ml loc_id (select_location w ml.selection_mode (strip loc_id) o)
unfolding select_location
select_location-OnlyExact w ml loc_id none e = tt
select_location-OnlyExact w ml loc_id (some l) e =
    let f = find_location-Among (strip loc_id) ml.locations e in
    let preferred = or_else (get l.code (current_preferred w w.preferred)) "" in
    if_cases (OnlyExact w ml loc_id) (or_text ml.selection_mode explicit == country_preferred)
      (λ c.
        if_cases (OnlyExact w ml loc_id) (preferred == "") (λ empty. tt)
          (λ full.
            select_record-OnlyExact w ml loc_id l (get_record preferred w.repository) f.0 f.1 f.2
              (rw c refl)))
      (λ c.
        select_record-OnlyExact w ml loc_id l (get_record l.proxy_id w.repository) f.0 f.1 f.2
          (rw c refl))

-- A config whose group has Multi-Location on never leaves directly. Where it gets a proxy, that is
-- the proxy of an active location of the group with the identity asked for: the one the location
-- names, or the preferred one of its country in that mode; it is in the catalogue, with its
-- endpoint there and the location's country. Otherwise the session is refused.
pub resolve_exit_selection-OnlyExact :
    (w : World) (migration_required : Bool) (link : Link) (subs : Dict String Sub) (loc_id : String)
    (ml : MultiLocation)
    → multi_location_for_link link subs ≡ some ml
    → OnlyExact w ml loc_id (resolve_exit_selection w migration_required (some link) subs loc_id)
unfolding resolve_exit_selection resolve_by resolve_location
resolve_exit_selection-OnlyExact w migration_required link subs loc_id ml h = rw h (
    if_cases (OnlyExact w ml loc_id) (migration_required || not (nat_eqb (length ml.locations) 2))
      (λ c. tt)
      (λ c.
        if_cases (OnlyExact w ml loc_id) (strip loc_id == "") (λ d. tt)
          (λ d.
            select_location-OnlyExact w ml loc_id (find_location (strip loc_id) ml.locations)
              refl)))
