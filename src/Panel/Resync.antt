-- ===== src/Panel/Resync.antt =====
-- The two-way sync of `update_sub` (main.py): the configs of a group are replaced as a whole.
use lumen_project_final.Prelude.{
  ◌≡◌, refl, Bool, true, false, not, ◌&&◌, ◌||◌, Option, none, some, String, List, [], ◌∷◌,
  if◌then◌else◌, arith, is_some, Option-cases, Bool-cases, inl, inr,
}
use lumen_project_final.Prelude.Eq.{◌==◌, string_eq, ==_iff}
use lumen_project_final.Prelude.Dict.{Dict, get, put, get-put}
use lumen_project_final.Prelude.Member.{contains, distinct, contains-add_once, distinct-add_once}
use lumen_project_final.Panel.{Link, Sub, Panel}
use lumen_project_final.Panel.Links.{without_link, change_sub}
use lumen_project_final.Panel.Groups.{
  names_sub, leave_group, owned_by, leave_one, free_dropped, note_left, claim_link, claim_one,
  claim_added, detach_moved, sync_links, add_known, clean_ids,
}
use lumen_project_final.Panel.Sync.{
  InSync, lists, names, ids_of, is_some-map, get-change_sub, lists-without_link,
  distinct-without_link, names-leave_group,
}

-- What the names of a config become.
names-leave_one :
    (s sid : String) (wanted : List String) (uid j : String) (links : Dict String Link)
    → names s (get j (leave_one sid wanted uid links))
      ≡ (if uid == j && not (contains uid wanted) && sid == s then false else names s (get j links))
unfolding leave_one
names-leave_one s sid wanted uid j links = elim (Option-cases (get uid links)) [
  | inl missing ↦ ground (arith, ==_iff uid j)
  | inr (link, found) ↦ ground (
    arith,
    ==_iff uid j,
    get-put uid j (leave_group sid link) links,
    names-leave_group s sid (some link),
  )
]

is_some-leave_one :
    (sid : String) (wanted : List String) (uid j : String) (links : Dict String Link)
    → is_some (get j (leave_one sid wanted uid links)) ≡ is_some (get j links)
unfolding leave_one
is_some-leave_one sid wanted uid j links = elim (Option-cases (get uid links)) [
  | inl missing ↦ ground arith
  | inr (link, found) ↦ ground (arith, ==_iff uid j, get-put uid j (leave_group sid link) links)
]

names-free_dropped :
    (s sid : String) (wanted ids : List String) (j : String) (links : Dict String Link)
    → names s (get j (free_dropped sid wanted ids links)) ≡ (
        if contains j ids && not (contains j wanted) && sid == s
        then false
        else names s (get j links))
unfolding free_dropped contains
names-free_dropped s sid wanted [] j links = refl
names-free_dropped s sid wanted (uid ∷ ids) j links = ground (
  arith,
  names-free_dropped s sid wanted ids j (leave_one sid wanted uid links),
  names-leave_one s sid wanted uid j links,
  ==_iff uid j,
)

is_some-free_dropped :
    (sid : String) (wanted ids : List String) (j : String) (links : Dict String Link)
    → is_some (get j (free_dropped sid wanted ids links)) ≡ is_some (get j links)
unfolding free_dropped
is_some-free_dropped sid wanted [] j links = refl
is_some-free_dropped sid wanted (uid ∷ ids) j links = ground (
  arith,
  is_some-free_dropped sid wanted ids j (leave_one sid wanted uid links),
  is_some-leave_one sid wanted uid j links,
)

abbrev pub has_moved : String → String → List (String × String) → Bool
has_moved s j [] = false
has_moved s j ((prev, uid) ∷ moved) = prev == s && uid == j || has_moved s j moved

has_moved-note_left :
    (s sid j uid : String) (o : Option String) (moved : List (String × String))
    → has_moved s j (note_left sid uid o moved)
      ≡ (has_moved s j moved || uid == j && not (sid == s) && names_sub s o)
unfolding note_left
has_moved-note_left s sid j uid none moved = ground arith
has_moved-note_left s sid j uid (some prev) moved =
    ground (arith, ==_iff prev sid, ==_iff prev s, ==_iff sid s)

-- One claim: the config names the group, and the group that it named is noted.
record Claim (s sid j uid : String) (old : List String) (links : Dict String Link)
    (moved : List (String × String)) (r : Dict String Link × List (String × String)) : Type 0 where
  named : names s (get j r.0) ≡ (
      if uid == j && not (contains uid old)
      then is_some (get j links) && sid == s
      else names s (get j links))
  kept : is_some (get j r.0) ≡ is_some (get j links)
  noted : has_moved s j r.1 ≡ (
      has_moved s j moved
      || uid == j && not (contains uid old) && not (sid == s) && names s (get j links))

claim_one-Claim :
    (s sid j uid : String) (old : List String) (links : Dict String Link)
    (moved : List (String × String))
    → Claim s sid j uid old links moved (claim_one sid old uid links moved)
unfolding claim_one claim_link owned_by
claim_one-Claim s sid j uid old links moved = elim (Bool-cases (contains uid old)) [
  | inl kept ↦
      rw (kept, claim_one) (record { named = ground arith; kept = refl; noted = ground arith })
  | inr new ↦ elim (Option-cases (get uid links)) [
    | inl missing ↦
        rw (new, missing, claim_one)
          (record {
            named = ground (arith, ==_iff uid j);
            kept = refl;
            noted = ground (arith, ==_iff uid j);
          })
    | inr (link, found) ↦
        rw (new, found, claim_one)
          (record {
            named = ground (arith, ==_iff uid j, get-put uid j (owned_by (some sid) link) links);
            kept = ground (arith, ==_iff uid j, get-put uid j (owned_by (some sid) link) links);
            noted = ground (arith, ==_iff uid j, has_moved-note_left s sid j uid link.sub_id moved);
          })
  ]
]

claim_added-Claim :
    (s sid j : String) (old ids : List String) (links : Dict String Link)
    (moved : List (String × String))
    → (names s (get j (claim_added sid old ids links moved).0) ≡ (
        if contains j ids && not (contains j old)
        then is_some (get j links) && sid == s
        else names s (get j links)))
      × (has_moved s j (claim_added sid old ids links moved).1 ≡ (
          has_moved s j moved
          || contains j ids && not (contains j old) && not (sid == s) && names s (get j links)))
unfolding claim_added contains
claim_added-Claim s sid j old [] links moved = (refl, ground arith)
claim_added-Claim s sid j old (uid ∷ ids) links moved =
    let step = claim_one-Claim s sid j uid old links moved in
    let r = claim_one sid old uid links moved in
    let rest = claim_added-Claim s sid j old ids r.0 r.1 in
    (
      ground (arith, rest.0, step.named, step.kept, ==_iff uid j),
      ground (arith, rest.1, step.named, step.noted, step.kept, ==_iff uid j),
    )

-- The groups that were left lose their configs.
record Detached (s j : String) (moved : List (String × String)) (subs subs' : Dict String Sub)
    : Type 0 where
  listed : lists j (get s subs') ≡ (lists j (get s subs) && not (has_moved s j moved))
  kept : is_some (get s subs') ≡ is_some (get s subs)
  single : distinct (ids_of (get s subs')) ≡ true

detach_moved-Detached :
    (s j : String) (moved : List (String × String)) (subs : Dict String Sub)
    → distinct (ids_of (get s subs)) ≡ true
    → Detached s j moved subs (detach_moved moved subs)
unfolding detach_moved
detach_moved-Detached s j [] subs d = record { listed = ground arith; kept = refl; single = d }
detach_moved-Detached s j ((prev, uid) ∷ moved) subs d =
    let subs' = change_sub (without_link uid) (some prev) subs in
    let changed = get-change_sub (without_link uid) (some prev) s subs in
    let d' : distinct (ids_of (get s subs')) ≡ true =
      ground (arith, changed, distinct-without_link uid (get s subs) d, d) in
    let rest = detach_moved-Detached s j moved subs' d' in
    record {
      listed = ground (arith, rest.listed, changed, lists-without_link uid j (get s subs) d);
      kept = ground (arith, rest.kept, changed, is_some-map (without_link uid) (get s subs));
      single = rest.single;
    }

pub sync_links-InSync :
    (sid : String) (sub sub' : Sub) (wanted : List String) (p : Panel)
    → get sid p.subs ≡ some sub
    → sub'.link_ids ≡ wanted
    → distinct wanted ≡ true
    → ((j : String) → contains j wanted ≡ true → is_some (get j p.links) ≡ true)
    → InSync p
    → InSync (sync_links sid sub.link_ids wanted (record p { subs = put sid sub' p.subs }))
unfolding sync_links
sync_links-InSync sid sub sub' wanted p found same single known v =
    let old = sub.link_ids in
    let freed = free_dropped sid wanted old p.links in
    let claimed = claim_added sid old wanted freed [] in
    let single' : (s : String) → distinct (ids_of (get s (put sid sub' p.subs))) ≡ true =
      λ s. ground (arith, get-put sid s sub' p.subs, v.unique s, same) in
    record {
      agree = λ s j h.
          let claims = claim_added-Claim s sid j old wanted freed [] in
          let detached = detach_moved-Detached s j claimed.1 (put sid sub' p.subs) (single' s) in
          let member : contains j old ≡ names sid (get j p.links) =
            ground (arith, v.agree sid j, found) in
          ground (
            arith,
            claims.0,
            claims.1,
            detached.listed,
            detached.kept,
            member,
            get-put sid s sub' p.subs,
            names-free_dropped s sid wanted old j p.links,
            is_some-free_dropped sid wanted old j p.links,
            known j,
            v.agree s j,
            same,
            ==_iff sid s,
          );
      unique = λ s. (detach_moved-Detached s "" claimed.1 (put sid sub' p.subs) (single' s)).single;
    }

distinct-add_known :
    (uid : String) (o : Option Link) (clean : List String)
    → distinct clean ≡ true
    → distinct (add_known uid o clean) ≡ true
unfolding add_known
distinct-add_known uid none clean d = d
distinct-add_known uid (some link) clean d = ground (arith, distinct-add_once uid clean d)

known-add_known :
    (links : Dict String Link) (j uid : String) (o : Option Link) (clean : List String)
    → get uid links ≡ o
    → (contains j clean ≡ true → is_some (get j links) ≡ true)
    → contains j (add_known uid o clean) ≡ true
    → is_some (get j links) ≡ true
unfolding add_known
known-add_known links j uid none clean e among h = among h
known-add_known links j uid (some link) clean e among h =
    ground (arith, contains-add_once j uid clean, ==_iff uid j)

pub distinct-clean_ids :
    (links : Dict String Link) (ids clean : List String)
    → distinct clean ≡ true
    → distinct (clean_ids links ids clean) ≡ true
unfolding clean_ids
distinct-clean_ids links [] clean d = d
distinct-clean_ids links (uid ∷ ids) clean d =
    distinct-clean_ids links ids _ (distinct-add_known uid (get uid links) clean d)

pub known-clean_ids :
    (links : Dict String Link) (j : String) (ids clean : List String)
    → (contains j clean ≡ true → is_some (get j links) ≡ true)
    → contains j (clean_ids links ids clean) ≡ true
    → is_some (get j links) ≡ true
unfolding clean_ids
known-clean_ids links j [] clean among h = among h
known-clean_ids links j (uid ∷ ids) clean among h =
    known-clean_ids links j ids _ (known-add_known links j uid (get uid links) clean refl among) h
