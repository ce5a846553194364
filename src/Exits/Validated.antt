-- ===== src/Exits/Validated.antt =====
-- What `validate_multi_location` accepts, `resolve_exit_selection` can route (main.py).
use lumen_project_final.Prelude.{
  ℕ, ◌≡◌, refl, ap, suc, String, Bool, true, false, not, ◌||◌, Option, none, some, List, [], ◌∷◌,
  arith, length, nat_eqb, Bool-cases, inl, inr,
}
use lumen_project_final.Prelude.Eq.{◌==◌, string_eq, ==_iff, ==_refl}
use lumen_project_final.Prelude.Dict.{Dict}
use lumen_project_final.Prelude.Member.{contains, distinct}
use lumen_project_final.Prelude.Text.{strip}
use lumen_project_final.Repository.{Record, get_record}
use lumen_project_final.Panel.{Location, MultiLocation, Link, Sub}
use lumen_project_final.Panel.Access.{multi_location_for_link}
use lumen_project_final.Countries.{is_valid_code, country_name, flag_for}
use lumen_project_final.Exits.{
  location_id, country_of, is_untested, store_location, check_country, selection_mode, request_of,
  configured, is_no_mode, bad_mode, untested, not_two, neither_zero_nor_two, same_country, same_id,
  bad_country, World, Entry, Payload, Request, Refusal, Checked, bad, good, ◌>>=◌, ◌>>◌, refuse_if,
  explicit, country_preferred, proxy_of_country, choose_proxy, check_entry, check_entries,
  check_list, validate_multi_location, Resolved, chosen, find_location, select_record,
  select_location, resolve_location, resolve_by, resolve_exit_selection,
}
use lumen_project_final.Exits.Exact.{Among}

>>=-eq-good {ℓ κ} :
    {A : Type ℓ} {B : Type κ} (m : Checked A) (f : A → Checked B) {b : B}
    → (m >>= f) ≡ good b
    → (a : A) × (m ≡ good a) × (f a ≡ good b)
>>=-eq-good (bad e) f h = cc
>>=-eq-good (good a) f h = (a, refl, h)

refuse_if-eq-good : (c : Bool) (e : Refusal) {u : Unit {0}} → refuse_if c e ≡ good u → c ≡ false
refuse_if-eq-good true e h = cc
refuse_if-eq-good false e h = refl

abbrev pub location_ids : List Location → List String
location_ids [] = []
location_ids (l ∷ ls) = l.id ∷ location_ids ls

abbrev pub location_codes : List Location → List String
location_codes [] = []
location_codes (l ∷ ls) = l.code ∷ location_codes ls

-- The named proxy is in the catalogue, and of the location's country.
pub record IsRouted (w : World) (l : Location) : Type 0 where
  pub active : l.active ≡ true
  pub catalogued : Record
  pub known : get_record l.proxy_id w.repository ≡ some catalogued
  pub country : catalogued.code ≡ l.code

proxy_of_country-eq-good :
    (gone wrong : Refusal) (c : String) (o : Option Record) {u : Unit {0}}
    → proxy_of_country gone wrong c o ≡ good u
    → (r : Record) × (o ≡ some r) × (r.code ≡ c)
unfolding proxy_of_country
proxy_of_country-eq-good gone wrong c none h = cc
proxy_of_country-eq-good gone wrong c (some r) h =
    (r, refl, ground (arith, refuse_if-eq-good (not (r.code == c)) wrong h, ==_iff r.code c))

chosen_known :
    (w : World) (gone wrong : Refusal) (c pid : String) {pid' : String}
    → (proxy_of_country gone wrong c (get_record pid w.repository) >> good pid) ≡ good pid'
    → (r : Record) × (get_record pid' w.repository ≡ some r) × (r.code ≡ c)
chosen_known w gone wrong c pid {pid'} h =
    let b =
      >>=-eq-good (proxy_of_country gone wrong c (get_record pid w.repository)) (λ _. good pid) h in
    let same : pid ≡ pid' = cc (b.2) in
    rw⁻¹ same (proxy_of_country-eq-good gone wrong c (get_record pid w.repository) b.1)

choose_proxy-known :
    (w : World) (mode c p : String) {pid : String}
    → choose_proxy w mode c p ≡ good pid
    → (r : Record) × (get_record pid w.repository ≡ some r) × (r.code ≡ c)
unfolding choose_proxy
choose_proxy-known w mode c p {pid} h = elim (Bool-cases (mode == country_preferred)) [
  | inl e ↦ chosen_known w _ _ c _ (rw e at h)
  | inr e ↦ chosen_known w _ _ c _ (rw e at h)
]

record IsFresh (w : World) (seen_ids seen_codes : List String) (l : Location) : Type 0 where
  routed : IsRouted w l
  id : contains l.id seen_ids ≡ false
  code : contains l.code seen_codes ≡ false

refuse_then :
    {B : Type 0} (c : Bool) (e : Refusal) (k : Checked B) {b : B}
    → (refuse_if c e >> k) ≡ good b
    → (c ≡ false) × (k ≡ good b)
refuse_then true e k h = cc
refuse_then false e k h = (refl, h)

store_location-IsFresh :
    (w : World) (q : Request) (seen_ids seen_codes : List String) (e : Entry) (c pid : String)
    {l : Location}
    → contains (location_id w e) seen_ids ≡ false
    → contains c seen_codes ≡ false
    → (r : Record) × (get_record pid w.repository ≡ some r) × (r.code ≡ c)
    → store_location w q e c pid ≡ good l
    → IsFresh w seen_ids seen_codes l
unfolding store_location
store_location-IsFresh w q seen_ids seen_codes e c pid {l} i n k h =
    let s = refuse_then (is_untested w q e c pid) untested (good (located e c pid)) h in
    let same : located e c pid ≡ l = cc (s.1) in
    rw⁻¹ same (record {
      routed = record { active = refl; catalogued = k.0; known = k.1; country = k.2 };
      id = i;
      code = n;
    })
  where
    located : Entry → String → String → Location
    located e c pid = record {
      id = location_id w e;
      code = c;
      country = country_name w.library.casing c;
      flag = flag_for w.library.casing c;
      proxy_id = pid;
      active = true;
    }

check_country-IsFresh :
    (w : World) (q : Request) (seen_ids seen_codes : List String) (e : Entry) (c : String)
    {l : Location}
    → check_country w q seen_ids seen_codes e c ≡ good l
    → IsFresh w seen_ids seen_codes l
unfolding check_country
check_country-IsFresh w q seen_ids seen_codes e c h =
    let choose = choose_proxy w q.mode c e.proxy_id >>= store_location w q e c in
    let new_code =
      refuse_then (contains c seen_codes) same_country
        (refuse_if (contains (location_id w e) seen_ids) same_id >> choose) h in
    let new_id = refuse_then (contains (location_id w e) seen_ids) same_id choose new_code.1 in
    let (pid, picked, stored) =
      >>=-eq-good (choose_proxy w q.mode c e.proxy_id) (store_location w q e c) new_id.1 in
    store_location-IsFresh w q seen_ids seen_codes e c pid new_id.0 new_code.0
      (choose_proxy-known w q.mode c e.proxy_id picked) stored

check_entry-IsFresh :
    (w : World) (q : Request) (seen_ids seen_codes : List String) (e : Entry) {l : Location}
    → check_entry w q seen_ids seen_codes e ≡ good l
    → IsFresh w seen_ids seen_codes l
unfolding check_entry
check_entry-IsFresh w q seen_ids seen_codes e h =
    let c = country_of w e in
    check_country-IsFresh w q seen_ids seen_codes e c
      (refuse_then (c == "" || not (is_valid_code w.library.casing c)) bad_country
        (check_country w q seen_ids seen_codes e c) h).1

abbrev AllRouted : World → List Location → Type 0
AllRouted w [] = Unit {0}
AllRouted w (l ∷ ls) = IsRouted w l × AllRouted w ls

-- The locations of one request: as many as entries, each routed, no two alike.
record AreRouted (w : World) (seen_ids seen_codes : List String) (n : ℕ) (ls : List Location)
    : Type 0 where
  count : length ls ≡ n
  routed : AllRouted w ls
  distinct_ids : distinct (location_ids ls) ≡ true
  distinct_codes : distinct (location_codes ls) ≡ true
  unseen_ids : (j : String) → contains j seen_ids ≡ true → contains j (location_ids ls) ≡ false
  unseen_codes :
      (j : String) → contains j seen_codes ≡ true → contains j (location_codes ls) ≡ false

one_more :
    (w : World) (seen_ids seen_codes : List String) (n : ℕ) (l : Location) (ls : List Location)
    → IsFresh w seen_ids seen_codes l
    → AreRouted w (l.id ∷ seen_ids) (l.code ∷ seen_codes) n ls
    → AreRouted w seen_ids seen_codes (suc n) (l ∷ ls)
unfolding distinct contains
one_more w seen_ids seen_codes n l ls f a = record {
  count = ap suc a.count;
  routed = (f.routed, a.routed);
  distinct_ids = ground (arith, a.distinct_ids, a.unseen_ids l.id, ==_refl l.id);
  distinct_codes = ground (arith, a.distinct_codes, a.unseen_codes l.code, ==_refl l.code);
  unseen_ids = λ j s. ground (arith, s, f.id, ==_iff l.id j, a.unseen_ids j);
  unseen_codes = λ j s. ground (arith, s, f.code, ==_iff l.code j, a.unseen_codes j);
}

check_entries-AreRouted :
    (w : World) (q : Request) (seen_ids seen_codes : List String) (es : List (Option Entry))
    {ls : List Location}
    → check_entries w q seen_ids seen_codes es ≡ good ls
    → AreRouted w seen_ids seen_codes (length es) ls
unfolding check_entries distinct contains
check_entries-AreRouted w q seen_ids seen_codes [] {ls} h =
    let e : [] ≡ ls = cc (h) in
    rw⁻¹ e (record {
      count = refl;
      routed = tt;
      distinct_ids = refl;
      distinct_codes = refl;
      unseen_ids = λ j s. refl;
      unseen_codes = λ j s. refl;
    })
check_entries-AreRouted w q seen_ids seen_codes (none ∷ es) h = cc
check_entries-AreRouted w q seen_ids seen_codes (some e ∷ es) {ls} h =
    let rest = λ (l : Location). check_entries w q (l.id ∷ seen_ids) (l.code ∷ seen_codes) es in
    let (l, checked, walked) =
      >>=-eq-good (check_entry w q seen_ids seen_codes e) (λ l. rest l >>= λ ls. good (l ∷ ls)) h in
    let (ls', kept, last) = >>=-eq-good (rest l) (λ ls. good (l ∷ ls)) walked in
    let whole : l ∷ ls' ≡ ls = cc (last) in
    rw⁻¹ whole (
      one_more w seen_ids seen_codes (length es) l ls'
        (check_entry-IsFresh w q seen_ids seen_codes e checked)
        (check_entries-AreRouted w q (l.id ∷ seen_ids) (l.code ∷ seen_codes) es kept))

check_list-AreRouted :
    (w : World) (q : Request) (b : Bool) (o : Option (List (Option Entry))) {ls : List Location}
    → b ≡ true
    → check_list w q b o ≡ good ls
    → AreRouted w [] [] 2 ls
unfolding check_list
check_list-AreRouted w q b none on h = cc
check_list-AreRouted w q true (some es) {ls} on h =
    let wrong = not (nat_eqb (length es) 2) in
    let (u, passed, kept) =
      >>=-eq-good (refuse_if wrong not_two >> refuse_if false neither_zero_nor_two)
        (λ _. check_entries w q [] [] es) h in
    let right = refuse_then wrong not_two (refuse_if false neither_zero_nor_two) passed in
    let two : length es ≡ 2 = ground (arith, right.0) in
    rw two at (check_entries-AreRouted w q [] [] es kept)
check_list-AreRouted w q false (some es) on h = cc

find_location-distinct :
    (w : World) {l : Location} {ls : List Location}
    → AllRouted w ls
    → distinct (location_ids ls) ≡ true
    → Among l ls
    → (find_location l.id ls ≡ some l) × (contains l.id (location_ids ls) ≡ true)
unfolding find_location distinct contains
find_location-distinct w {l} r d (Among.here ls) = ground (arith, r.0.active, ==_refl l.id)
find_location-distinct w {l} r d (Among.there k ls a) =
    ground (arith, find_location-distinct w r.1 (ground (arith, d)) a, ==_iff k.id l.id, d)

AllRouted-Among :
    {w : World} {l : Location} {ls : List Location} → AllRouted w ls → Among l ls → IsRouted w l
AllRouted-Among r (Among.here ls) = r.0
AllRouted-Among r (Among.there k ls a) = AllRouted-Among r.1 a

-- A request accepted with Multi-Location on.
record IsAccepted (w : World) (ml : MultiLocation) : Type 0 where
  enabled : ml.enabled ≡ true
  routed : AreRouted w [] [] 2 ml.locations

validate_multi_location-IsAccepted :
    (w : World) (p : Payload) (previous : Option MultiLocation) (require_tests : Bool)
    {ml : MultiLocation}
    → p.enabled ≡ true
    → validate_multi_location w p previous require_tests ≡ good ml
    → IsAccepted w ml
unfolding validate_multi_location
validate_multi_location-IsAccepted w p previous require_tests {ml} on h =
    let mode = selection_mode w p previous in
    let q = request_of w p previous require_tests in
    let listed = check_list w q p.enabled p.locations in
    let (ls, checked, last) =
      >>=-eq-good (refuse_if (is_no_mode mode) bad_mode >> listed)
        (λ locations. good (configured w p mode locations)) h in
    let kept = (refuse_then (is_no_mode mode) bad_mode listed checked).1 in
    let same : configured w p mode ls ≡ ml = cc (last) in
    rw⁻¹ same
      (record { enabled = on; routed = check_list-AreRouted w q p.enabled p.locations on kept })

-- What a session gets of a location: its proxy at its endpoint, and of its country.
abbrev pub IsSelected : Location → Option Record → Resolved → Type 0
IsSelected l none r = ⊥
IsSelected l (some k) r =
    (k.code ≡ l.code)
    × (r ≡ chosen (some record { proxy_id = k.id; endpoint = k.endpoint; location_id = some l.id }))

select_location-IsSelected :
    (w : World) (l : Location)
    → IsRouted w l
    → IsSelected l (get_record l.proxy_id w.repository) (select_location w explicit l.id (some l))
unfolding select_location select_record
select_location-IsSelected w l k =
    rw k.known (k.country, rw ((==_iff k.catalogued.code l.code).1 k.country) refl)

resolve_location-IsSelected :
    (w : World) (ml : MultiLocation) (l : Location)
    → AreRouted w [] [] 2 ml.locations
    → ml.selection_mode ≡ explicit
    → Among l ml.locations
    → strip l.id ≡ l.id
    → (l.id == "") ≡ false
    → IsSelected l (get_record l.proxy_id w.repository) (resolve_location w false ml l.id)
unfolding resolve_location
resolve_location-IsSelected w ml l a m among trimmed named =
    let found = (find_location-distinct w a.routed a.distinct_ids among).0 in
    let step : resolve_location w false ml l.id ≡ select_location w explicit l.id (some l) =
      rw (a.count, trimmed, named, found, m) refl in
    rw step (select_location-IsSelected w l (AllRouted-Among a.routed among))

-- If a request with Multi-Location on is accepted in the explicit mode, its two locations are all
-- usable, as long as the catalogue stays: a session of any config of the group that asks for one
-- of them, whose identity is not blank and has no space at its ends, gets the proxy that it names,
-- at its endpoint, and that proxy is of the location's country; the two identities differ, and so
-- do the two countries.
pub validate_multi_location-IsSelected :
    (w : World) (p : Payload) (previous : Option MultiLocation) (require_tests : Bool)
    (ml : MultiLocation) (link : Link) (subs : Dict String Sub) (l : Location)
    → p.enabled ≡ true
    → validate_multi_location w p previous require_tests ≡ good ml
    → ml.selection_mode ≡ explicit
    → multi_location_for_link link subs ≡ some ml
    → Among l ml.locations
    → strip l.id ≡ l.id
    → (l.id == "") ≡ false
    → IsSelected l
        (get_record l.proxy_id w.repository)
        (resolve_exit_selection w false (some link) subs l.id)
      × (length ml.locations ≡ 2)
      × (distinct (location_ids ml.locations) ≡ true)
      × (distinct (location_codes ml.locations) ≡ true)
unfolding resolve_exit_selection resolve_by
validate_multi_location-IsSelected w p previous require_tests ml link subs l on h m g among trimmed
      named =
    let a = (validate_multi_location-IsAccepted w p previous require_tests on h).routed in
    (
      rw g (resolve_location-IsSelected w ml l a m among trimmed named),
      a.count,
      a.distinct_ids,
      a.distinct_codes,
    )
