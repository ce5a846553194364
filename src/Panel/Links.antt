-- ===== src/Panel/Links.antt =====
-- Making and removing configs (main.py): `make_link`, `remove_link`, `set_link_active`,
-- `set_link_sub`. A handler gives the panel back beside its result; `saved` says whether
-- `save_state(strict=True)` could write, which it does after the change has been made in memory.
use lumen_project_final.Prelude.{
  ℕ, Bool, true, false, not, ◌&&◌, ◌||◌, Option, none, some, String, List, [], ◌∷◌, if◌then◌else◌,
  leb, nat_eqb,
}
use lumen_project_final.Prelude.Eq.{◌==◌, string_eq}
use lumen_project_final.Prelude.Dict.{Dict, get, put, remove}
use lumen_project_final.Prelude.Member.{contains, add_once, remove_first}
use lumen_project_final.Prelude.Text.{strip, cut}
use lumen_project_final.Panel.{
  Expiry, Link, Sub, Panel, Failure, Result, ok, err, ◌>>=◌, ◌>>◌, Services, bad_transport,
  bad_security, managed_endpoint, managed_port, no_location_profile, bad_address, bad_sni, bad_exit,
  bad_uuid, uuid_taken, not_saved,
}
use lumen_project_final.Panel.Access.{raw_tcp_ok}

-- The arguments of `make_link`; the defaults of the signature are the caller's. A number that may
-- be negative in the source is cut off at 0 there (`max(0, …)`), and is a ℕ here.
pub record Request : Type 0 where
  pub label : String
  pub limit_bytes : ℕ
  pub expires_at : Expiry
  pub note : String
  pub remark : String
  pub sub_id : Option String
  pub protocol : String
  pub security : String
  pub fingerprint : String
  pub alpn : String
  pub port : ℕ
  pub ip_limit : ℕ
  pub speed_limit_bytes : ℕ
  pub address : String
  pub sni : String
  pub exit_proxy_mode : String
  pub proxy_id : String
  pub custom_proxy : String
  pub requested_uuid : String

unfoldable pub guard : Bool → Failure → Result (Unit {0})
guard true e = ok tt
guard false e = err e

unfoldable pub require {ℓ} : {A : Type ℓ} → Option A → Failure → Result A
require none e = err e
require (some a) e = ok a

-- `x or y` on texts.
unfoldable pub or_text : String → String → String
or_text x y = if x == "" then y else x

unfoldable pub is_given : String → Bool
is_given s = not (strip s == "")

abbrev fingerprints : List String
fingerprints =
    "chrome" ∷ "firefox" ∷ "safari" ∷ "ios" ∷ "android" ∷ "edge" ∷ "360" ∷ "qq" ∷ "random"
    ∷ "randomized" ∷ []

-- An unknown fingerprint becomes the default.
unfoldable pub known_fingerprint : Services → String → String
unfolding or_text
known_fingerprint e fp =
    let name = e.lower (strip (or_text fp "chrome")) in
    if contains name fingerprints then name else "chrome"

unfoldable pub valid_port : ℕ → ℕ
valid_port port = if leb 1 port && leb port 65535 then port else 443

-- The link that a request asks for, before its texts are cut and its addresses are checked.
unfoldable pub draft_link : Services → Request → ℕ → Link
unfolding or_text known_fingerprint valid_port
draft_link e r now = record {
  label = or_text (cut 60 (strip (or_text r.label e.default_label))) e.default_label;
  limit_bytes = r.limit_bytes;
  used_bytes = 0;
  created_at = now;
  active = true;
  expires_at = r.expires_at;
  note = cut 200 (strip r.note);
  remark = cut 120 (strip (or_text r.remark (or_text r.label "Lumen Relay")));
  is_default = false;
  sub_id = r.sub_id;
  protocol = r.protocol;
  fingerprint = known_fingerprint e r.fingerprint;
  alpn = cut 100 (strip r.alpn);
  port = valid_port r.port;
  ip_limit = r.ip_limit;
  speed_limit_bytes = r.speed_limit_bytes;
  address = r.address;
  sni = r.sni;
  exit_proxy_mode = r.exit_proxy_mode;
  proxy_id = r.proxy_id;
  custom_proxy = r.custom_proxy;
}

group_ok : Services → Link → Option String → Dict String Sub → Bool
group_ok e link none subs = true
group_ok e link (some sub_id) subs = elim (get sub_id subs) [
  | none ↦ true
  | some sub ↦ raw_tcp_ok e link sub.multi_location
]

-- The checks on a Raw TCP config: endpoint fields belong to the deployment.
pub raw_checks : Services → Request → Link → Dict String Sub → Result (Unit {0})
unfolding guard is_given group_ok
raw_checks e r link subs = if not (r.protocol == "vless-tcp") then ok tt else (do
  guard (not (is_given r.address || is_given r.sni || is_given r.alpn)) managed_endpoint
  guard (nat_eqb r.port 443) managed_port
  guard (group_ok e link r.sub_id subs) no_location_profile)

unfoldable pub optional : (String → Option String) → String → Failure → Result String
unfolding require is_given
optional normalize value e = if is_given value then require (normalize value) e else ok ""

-- Everything of `make_link` before the config is stored: the UUID asked for, and the link.
unfoldable pub check_request : Services → Request → ℕ → Dict String Sub → Result (String × Link)
unfolding guard require raw_checks optional draft_link
check_request e r now subs = do
  guard (e.transport_available r.protocol) bad_transport
  guard (e.security_ok r.security) bad_security
  let link = draft_link e r now
  raw_checks e r link subs
  address ← optional e.normalize_address r.address bad_address
  sni ← optional e.normalize_sni r.sni bad_sni
  exit ← require (e.normalize_exit_proxy r.exit_proxy_mode r.proxy_id r.custom_proxy) bad_exit
  uuid ← require (e.normalize_uuid r.requested_uuid) bad_uuid
  ok (
    uuid,
    record link {
      address = address;
      sni = sni;
      exit_proxy_mode = exit.0;
      proxy_id = exit.1;
      custom_proxy = exit.2;
    },
  )

-- A group with one more config, and one with one less.
unfoldable pub with_link : String → Sub → Sub
with_link uid sub = record sub { link_ids = add_once uid sub.link_ids }

unfoldable pub without_link : String → Sub → Sub
without_link uid sub = record sub { link_ids = remove_first uid sub.link_ids }

unfoldable pub change_sub : (Sub → Sub) → Option String → Dict String Sub → Dict String Sub
change_sub f none subs = subs
change_sub f (some sub_id) subs = elim (get sub_id subs) [
  | none ↦ subs
  | some sub ↦ put sub_id (f sub) subs
]

-- The two writes of `make_link`: the config, then its group, if the group is there.
unfoldable pub store_link : String → Link → Panel → Panel
unfolding change_sub with_link
store_link uid link p = record {
  links = put uid link p.links;
  subs = change_sub (with_link uid) link.sub_id p.subs;
}

unfoldable pub finish_save {ℓ} : {A : Type ℓ} → Bool → A → Panel → Result A × Panel
finish_save true a p = (ok a, p)
finish_save false a p = (err not_saved, p)

unfoldable pub make_checked : String → Bool → Result (String × Link) → Panel → Result String × Panel
unfolding store_link finish_save
make_checked generated saved (err e) p = (err e, p)
make_checked generated saved (ok (asked, link)) p =
    let uid = if asked == "" then generated else asked in
    elim (get uid p.links) [
      | some taken ↦ (err uuid_taken, p)
      | none ↦ finish_save saved uid (store_link uid link p)
    ]

unfoldable pub make_link : Services → Request → String → ℕ → Bool → Panel → Result String × Panel
unfolding make_checked
make_link e r generated now saved p = make_checked generated saved (check_request e r now p.subs) p

unfoldable pub drop_link : String → Link → Panel → Panel
unfolding change_sub without_link
drop_link uid link p = record {
  links = remove uid p.links;
  subs = change_sub (without_link uid) link.sub_id p.subs;
}

-- The label of the removed config, or `none` where there is none.
unfoldable pub remove_link : String → Bool → Panel → Result (Option String) × Panel
unfolding drop_link finish_save
remove_link uid saved p = elim (get uid p.links) [
  | none ↦ (ok none, p)
  | some link ↦ finish_save saved (some link.label) (drop_link uid link p)
]

unfoldable pub set_link_active : String → Bool → Bool → Panel → Result Bool × Panel
unfolding finish_save
set_link_active uid active saved p = elim (get uid p.links) [
  | none ↦ (ok false, p)
  | some link ↦
      finish_save saved true
        (record p { links = put uid (record link { active = active }) p.links })
]

unfoldable pub move_link : String → Link → Option String → Panel → Panel
unfolding change_sub with_link without_link
move_link uid link sub_id p = record {
  links = put uid (record link { sub_id = sub_id }) p.links;
  subs = change_sub (with_link uid) sub_id (change_sub (without_link uid) link.sub_id p.subs);
}

unfoldable pub target_ok : Services → Link → Option String → Dict String Sub → Bool
target_ok e link none subs = true
target_ok e link (some sub_id) subs = elim (get sub_id subs) [
  | none ↦ false
  | some sub ↦ raw_tcp_ok e link sub.multi_location
]

-- `set_link_sub`: into a group that is there, or with `none` out of the present one.
unfoldable pub set_link_sub : Services → String → Option String → Bool → Panel → Result Bool × Panel
unfolding move_link finish_save target_ok
set_link_sub e uid sub_id saved p = elim (get uid p.links) [
  | none ↦ (ok false, p)
  | some link ↦
      if target_ok e link sub_id p.subs
      then finish_save saved true (move_link uid link sub_id p)
      else (ok false, p)
]
