-- ===== src/Panel/Access.antt =====
-- Admission of main.py: `is_link_expired`, `is_link_allowed`, `multi_location_for_link`,
-- `validate_raw_tcp_multi_location`, `is_ip_allowed`; and the accounting of relay_vless.py
-- (`check_and_use`).
pub mod Usage
use lumen_project_final.Prelude.{
  ℕ, ◌+◌, ◌≤◌, ◌<◌, ◌≡◌, Bool, true, false, not, ◌&&◌, ◌||◌, Option, none, some, String, List, [],
  ◌∷◌, if◌then◌else◌, ltb, leb, nat_eqb, length, arith, refl, Option-cases, inl, inr, Bool-cases,
}
use lumen_project_final.Prelude.Eq.{◌==◌, string_eq, nat_eq, ==_refl, ==_iff}
use lumen_project_final.Prelude.Dict.{Dict, get, put, total, get-put, total-put}
use lumen_project_final.Prelude.Member.{contains, add_once}
use lumen_project_final.Panel.{
  Expiry, never, unreadable, at, Location, MultiLocation, Link, Sub, Panel, Services,
}

-- `datetime.now() > expiry`; a missing or unreadable expiry never passes.
unfoldable pub is_link_expired : Expiry → ℕ → Bool
is_link_expired never now = false
is_link_expired unreadable now = false
is_link_expired (at expiry) now = ltb expiry now

sub_of : Option String → Dict String Sub → Option Sub
sub_of none subs = none
sub_of (some sub_id) subs = get sub_id subs

enabled_ml : Option Sub → Option MultiLocation
enabled_ml none = none
enabled_ml (some sub) = if sub.multi_location.enabled then some sub.multi_location else none

-- `multi_location_for_link`: the Multi-Location of the config's group, if it is switched on.
unfoldable pub multi_location_for_link : Link → Dict String Sub → Option MultiLocation
unfolding sub_of enabled_ml
multi_location_for_link link subs = enabled_ml (sub_of link.sub_id subs)

-- Every active location has an endpoint of the deployment.
unfoldable pub locations_ok : Services → Link → List Location → Bool
locations_ok e link [] = true
locations_ok e link (location ∷ rest) =
    (not location.active || e.raw_location_ok link location) && locations_ok e link rest

-- `validate_raw_tcp_multi_location`, false where it raises.
unfoldable pub raw_tcp_ok : Services → Link → MultiLocation → Bool
unfolding locations_ok
raw_tcp_ok e link ml =
    if not (link.protocol == "vless-tcp") || not ml.enabled
    then true
    else (ml.selection_mode == "explicit" || ml.selection_mode == "")
      && locations_ok e link ml.locations

raw_tcp_ok_for : Services → Link → Option MultiLocation → Bool
unfolding raw_tcp_ok
raw_tcp_ok_for e link none = true
raw_tcp_ok_for e link (some ml) = raw_tcp_ok e link ml

-- Within the quota, where 0 is no limit.
unfoldable pub within_quota : Link → Bool
within_quota link = not (ltb 0 link.limit_bytes && leb link.limit_bytes link.used_bytes)

unfoldable pub is_link_allowed : Services → Option Link → Dict String Sub → ℕ → Bool
unfolding is_link_expired within_quota raw_tcp_ok_for
is_link_allowed e none subs now = false
is_link_allowed e (some link) subs now =
    if not (e.transport_available link.protocol)
    then false
    else if link.protocol == "vless-tcp"
        && not (raw_tcp_ok_for e link (multi_location_for_link link subs))
    then false
    else if not link.active
    then false
    else if is_link_expired link.expires_at now
    then false
    else within_quota link

-- A live connection: its config, its address ("" is none), its bytes, and where it leaves.
pub record Connection : Type 0 where
  pub uuid : String
  pub ip : String
  pub bytes : ℕ
  pub proxy_id : Option String
  pub location_id : Option String

-- `unique_ips_for_uuid`, the set as a list without repetition.
unfoldable pub unique_ips : String → List Connection → List String
unique_ips uuid [] = []
unique_ips uuid (c ∷ cs) =
    let rest = unique_ips uuid cs in
    if c.uuid == uuid && not (c.ip == "") then add_once c.ip rest else rest

unfoldable pub is_ip_allowed : Option Link → String → String → List Connection → Bool
unfolding unique_ips
is_ip_allowed none uuid ip connections = false
is_ip_allowed (some link) uuid ip connections =
    if nat_eqb link.ip_limit 0
    then true
    else let ips = unique_ips uuid connections in
      if contains ip ips then true else ltb (length ips) link.ip_limit

-- The counters that `check_and_use` writes: the config's, the total, and the hour's.
pub record Traffic : Type 0 where
  pub links : Dict String Link
  pub total_bytes : ℕ
  pub hourly : Dict ℕ ℕ

hour_count : Option ℕ → ℕ
hour_count none = 0
hour_count (some n) = n

unfoldable pub charge : Option Link → String → ℕ → ℕ → Traffic → Traffic
unfolding hour_count
charge none uid nbytes hour t = t
charge (some link) uid nbytes hour t = record {
  links = put uid (record link { used_bytes = link.used_bytes + nbytes }) t.links;
  total_bytes = t.total_bytes + nbytes;
  hourly = put hour (hour_count (get hour t.hourly) + nbytes) t.hourly;
}

-- `check_and_use`: a config that is not allowed is charged nothing.
unfoldable pub check_and_use :
    Services → Dict String Sub → String → ℕ → ℕ → ℕ → Traffic → Bool × Traffic
unfolding charge is_link_allowed
check_and_use e subs uid nbytes now hour t =
    if nat_eqb nbytes 0
    then (true, t)
    else if is_link_allowed e (get uid t.links) subs now
    then (true, charge (get uid t.links) uid nbytes hour t)
    else (false, t)

-- A call: the config, the bytes, the time, and the hour of the clock that is charged.
pub record Use : Type 0 where
  pub uid : String
  pub nbytes : ℕ
  pub now : ℕ
  pub hour : ℕ

unfoldable pub use_all : Services → Dict String Sub → List Use → Traffic → Traffic
use_all e subs [] t = t
use_all e subs (u ∷ us) t = use_all e subs us (check_and_use e subs u.uid u.nbytes u.now u.hour t).1
