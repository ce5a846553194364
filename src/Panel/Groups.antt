-- ===== src/Panel/Groups.antt =====
-- Subscription groups (main.py): `create_sub_group`, `remove_sub_group` and its twin `delete_sub`,
-- `assign_link_to_sub`, `update_sub`. As in Links, `saved` is whether the disk could be written.
use mathlib.Core.Option
use lumen_project_final.Prelude.{
  is_some, ℕ, Bool, true, false, not, ◌&&◌, ◌||◌, Option, none, some, String, List, [], ◌∷◌,
  if◌then◌else◌,
}
use lumen_project_final.Prelude.Eq.{◌==◌, string_eq}
use lumen_project_final.Prelude.Dict.{Dict, get, put, remove}
use lumen_project_final.Prelude.Member.{contains, add_once}
use lumen_project_final.Prelude.Text.{strip, cut}
use lumen_project_final.Panel.{
  MultiLocation, Link, Sub, Panel, Result, ok, err, Services, no_location_profile, not_found,
}
use lumen_project_final.Panel.Access.{raw_tcp_ok}
use lumen_project_final.Panel.Links.{or_text, finish_save, with_link, without_link, change_sub}

abbrev pub default_multi_location : MultiLocation
default_multi_location = record {
  enabled = false;
  remark_text = "";
  selection_mode = "";
  locations = [];
}

unfoldable pub hashed : Services → String → Option String
hashed e password = let pw = strip password in if pw == "" then none else some (e.hash_password pw)

-- `create_sub_group`; the identifier and the public key are drawn by the caller.
unfoldable pub create_sub_group :
    Services → String → String → String → String → String → ℕ → Bool → Panel → Result String × Panel
unfolding or_text hashed finish_save
create_sub_group e name desc password sub_id uuid_key now saved p =
    finish_save saved sub_id (record p {
      subs =
          put sub_id
            (record {
              name = cut 60 (strip (or_text name e.default_group));
              desc = cut 200 (strip desc);
              password_hash = hashed e password;
              uuid_key = uuid_key;
              created_at = now;
              link_ids = [];
              multi_location = default_multi_location;
            })
            p.subs;
    })

-- `link.get("sub_id") == sub_id`
abbrev pub names_sub : String → Option String → Bool
names_sub sub_id none = false
names_sub sub_id (some s) = s == sub_id

unfoldable pub leave_group : String → Link → Link
leave_group sub_id link =
    if names_sub sub_id link.sub_id then record link { sub_id = none } else link

-- Every config of the group is set free.
unfoldable pub free_links : String → Dict String Link → Dict String Link
unfolding leave_group
free_links sub_id [] = []
free_links sub_id ((uid, link) ∷ rest) = (uid, leave_group sub_id link) ∷ free_links sub_id rest

unfoldable pub drop_group : String → Panel → Panel
unfolding free_links
drop_group sub_id p = record { links = free_links sub_id p.links; subs = remove sub_id p.subs }

-- The name of the removed group, or `none` where there is none.
unfoldable pub remove_sub_group : String → Bool → Panel → Result (Option String) × Panel
unfolding drop_group finish_save
remove_sub_group sub_id saved p = elim (get sub_id p.subs) [
  | none ↦ (ok none, p)
  | some sub ↦ finish_save saved (some sub.name) (drop_group sub_id p)
]

unfoldable pub owned_by : Option String → Link → Link
owned_by sub_id link = record link { sub_id = sub_id }

unfoldable pub set_owner : String → Option String → Dict String Link → Dict String Link
unfolding owned_by
set_owner uid sub_id links = elim (get uid links) [
  | none ↦ links
  | some link ↦ put uid (owned_by sub_id link) links
]

-- The action "add": the group gets the config, and the config gets the group.
unfoldable pub assign_add : String → String → Panel → Panel
unfolding change_sub with_link set_owner
assign_add sub_id uid p = record {
  links = set_owner uid (some sub_id) p.links;
  subs = change_sub (with_link uid) (some sub_id) p.subs;
}

-- Any other action takes the config out of the group, and sets it free.
unfoldable pub assign_remove : String → String → Panel → Panel
unfolding change_sub without_link set_owner
assign_remove sub_id uid p = record {
  links = set_owner uid none p.links;
  subs = change_sub (without_link uid) (some sub_id) p.subs;
}

unfoldable pub assign_checked :
    Services → Sub → Option Link → String → String → Bool → Panel → Result (Unit {0}) × Panel
unfolding assign_add finish_save
assign_checked e sub none sub_id uid saved p = (err not_found, p)
assign_checked e sub (some link) sub_id uid saved p =
    if raw_tcp_ok e link sub.multi_location
    then finish_save saved tt (assign_add sub_id uid p)
    else (err no_location_profile, p)

unfoldable pub assign_in :
    Services → Option Sub → String → String → String → Bool → Panel → Result (Unit {0}) × Panel
unfolding assign_checked assign_remove
assign_in e none sub_id uid action saved p = (err not_found, p)
assign_in e (some sub) sub_id uid action saved p =
    if action == "add"
    then assign_checked e sub (get uid p.links) sub_id uid saved p
    else finish_save saved tt (assign_remove sub_id uid p)

unfoldable pub assign_link_to_sub :
    Services → String → String → String → Bool → Panel → Result (Unit {0}) × Panel
unfolding assign_in
assign_link_to_sub e sub_id uid action saved p =
    assign_in e (get sub_id p.subs) sub_id uid action saved p

-- The body of `PATCH /api/subs/{sub_id}`: a field that is missing stays. The Multi-Location is
-- what `validate_multi_location` made of the request.
pub record Patch : Type 0 where
  pub name : Option String
  pub desc : Option String
  pub password : Option String
  pub multi_location : Option MultiLocation
  pub link_ids : Option (List String)

unfoldable pub add_known : String → Option Link → List String → List String
add_known uid none clean = clean
add_known uid (some link) clean = if uid == "" then clean else add_once uid clean

-- The known configs of a request, each once.
unfoldable pub clean_ids : Dict String Link → List String → List String → List String
unfolding add_known
clean_ids links [] clean = clean
clean_ids links (uid ∷ rest) clean = clean_ids links rest (add_known uid (get uid links) clean)

all_raw_ok : Services → Dict String Link → List String → MultiLocation → Bool
all_raw_ok e links [] ml = true
all_raw_ok e links (uid ∷ rest) ml =
    elim (get uid links) [ none ↦ true | some link ↦ raw_tcp_ok e link ml ]
    && all_raw_ok e links rest ml

unfoldable pub patched : Services → Patch → Option (List String) → Sub → Sub
unfolding hashed
patched e body new_ids sub = record sub {
  name = elim body.name [ none ↦ sub.name | some name ↦ cut 60 name ];
  desc = elim body.desc [ none ↦ sub.desc | some desc ↦ cut 200 desc ];
  password_hash = elim body.password [ none ↦ sub.password_hash | some pw ↦ hashed e pw ];
  multi_location = elim body.multi_location [ none ↦ sub.multi_location | some ml ↦ ml ];
  link_ids = elim new_ids [ none ↦ sub.link_ids | some ids ↦ ids ];
}

unfoldable pub leave_one : String → List String → String → Dict String Link → Dict String Link
unfolding leave_group
leave_one sub_id wanted uid links =
    if contains uid wanted
    then links
    else elim (get uid links) [ none ↦ links | some link ↦ put uid (leave_group sub_id link) links ]

-- `for lid in old_ids - wanted`: a config that still names the group is set free.
unfoldable pub free_dropped :
    String → List String → List String → Dict String Link → Dict String Link
unfolding leave_one
free_dropped sub_id wanted [] links = links
free_dropped sub_id wanted (uid ∷ rest) links =
    free_dropped sub_id wanted rest (leave_one sub_id wanted uid links)

-- `if prev and prev != sub_id: moved_from.append((prev, lid))`
unfoldable pub note_left :
    String → String → Option String → List (String × String) → List (String × String)
note_left sub_id uid none moved = moved
note_left sub_id uid (some prev) moved = if prev == sub_id then moved else (prev, uid) ∷ moved

-- What a claim changes: the config, and the list of the groups that were left.
unfoldable pub claim_link :
    String
    → String
    → Link
    → Dict String Link
    → List (String × String)
    → Dict String Link × List (String × String)
unfolding owned_by note_left
claim_link sub_id uid link links moved =
    (put uid (owned_by (some sub_id) link) links, note_left sub_id uid link.sub_id moved)

unfoldable pub claim_one :
    String
    → List String
    → String
    → Dict String Link
    → List (String × String)
    → Dict String Link × List (String × String)
unfolding claim_link
claim_one sub_id old_ids uid links moved =
    if contains uid old_ids then (links, moved) else elim (get uid links) [
      | none ↦ (links, moved)
      | some link ↦ claim_link sub_id uid link links moved
    ]

-- `for lid in wanted - old_ids`: each config names the group, and the group that it leaves is noted.
unfoldable pub claim_added :
    String
    → List String
    → List String
    → Dict String Link
    → List (String × String)
    → Dict String Link × List (String × String)
unfolding claim_one
claim_added sub_id old_ids [] links moved = (links, moved)
claim_added sub_id old_ids (uid ∷ rest) links moved =
    let step = claim_one sub_id old_ids uid links moved in
    claim_added sub_id old_ids rest step.0 step.1

-- The groups that were left lose the configs that moved here.
unfoldable pub detach_moved : List (String × String) → Dict String Sub → Dict String Sub
unfolding change_sub without_link
detach_moved [] subs = subs
detach_moved ((prev, uid) ∷ rest) subs =
    detach_moved rest (change_sub (without_link uid) (some prev) subs)

-- The two-way sync, where the request names the configs of the group.
unfoldable pub sync_links : String → List String → List String → Panel → Panel
unfolding free_dropped claim_added detach_moved
sync_links sub_id old_ids wanted p =
    let freed = free_dropped sub_id wanted old_ids p.links in
    let claimed = claim_added sub_id old_ids wanted freed [] in
    record { links = claimed.0; subs = detach_moved claimed.1 p.subs }

-- The writes of `update_sub`, once the request was checked.
unfoldable pub update_applied :
    Services → String → Patch → Sub → Option (List String) → Panel → Panel
unfolding patched sync_links
update_applied e sub_id body sub none p = record p {
  subs = put sub_id (patched e body none sub) p.subs;
}
update_applied e sub_id body sub (some wanted) p =
    sync_links sub_id sub.link_ids wanted
      (record p { subs = put sub_id (patched e body (some wanted) sub) p.subs })

unfoldable pub asked_ids : Dict String Link → Option (List String) → Option (List String)
unfolding clean_ids
asked_ids links none = none
asked_ids links (some ids) = some (clean_ids links ids [])

unfoldable pub update_found :
    Services → String → Patch → Sub → Bool → Panel → Result (Unit {0}) × Panel
unfolding finish_save all_raw_ok asked_ids update_applied
update_found e sub_id body sub saved p =
    let new_ids = asked_ids p.links body.link_ids in
    let ml = Option.get_or body.multi_location sub.multi_location in
    let ids = Option.get_or new_ids sub.link_ids in
    if not (is_some body.multi_location || is_some new_ids) || all_raw_ok e p.links ids ml
    then finish_save saved tt (update_applied e sub_id body sub new_ids p)
    else (err no_location_profile, p)

unfoldable pub update_sub : Services → String → Patch → Bool → Panel → Result (Unit {0}) × Panel
unfolding update_found
update_sub e sub_id body saved p = elim (get sub_id p.subs) [
  | none ↦ (err not_found, p)
  | some sub ↦ update_found e sub_id body sub saved p
]
