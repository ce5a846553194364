-- ===== src/Tests/Provision.antt =====
-- The theorems on the services that the shop makes, at one customer (telegram_bot.py).
use lumen_project_final.Prelude.{
  ◌+◌, ◌*◌, ◌≡◌, refl, true, false, none, some, [], ◌∷◌, is_some, arith,
}
use lumen_project_final.Prelude.Eq.{string_eq, nat_eq}
use lumen_project_final.Prelude.Dict.{get}
use lumen_project_final.Prelude.Member.{contains}
use lumen_project_final.Prelude.Text.{strip, cut, is_space}
use lumen_project_final.Panel.{Link, Sub, Failure, ok, err, at}
use lumen_project_final.Panel.Links.{check_request, or_text}
use lumen_project_final.Panel.Groups.{default_multi_location}
use lumen_project_final.Store.Provision.{
  Shopfront, Saves, Drawn, known_group, request_for, provision_new, provision_renew, day,
}
use lumen_project_final.Store.Provision.Renewal.{IsUsable, provision_renew-IsUsable}
use lumen_project_final.Store.Provision.Unsaved.{provision_new-IsUsable}
use lumen_project_final.Tests.Shop.{monthly, customer}
use lumen_project_final.Tests.Running.{services, link}

abbrev group : Sub
group = record {
  name = "services";
  desc = "";
  password_hash = none;
  uuid_key = "k";
  created_at = 1;
  link_ids = [];
  multi_location = default_multi_location;
}

abbrev front : Shopfront
front = record {
  users = (7, record customer { sub_id = some "g1" }) ∷ [];
  panel = record {
    links = ("u1", record link { active = false; used_bytes = 50 }) ∷ [];
    subs = ("g1", group) ∷ [];
  };
  tags = ("u1", record { owner_telegram_id = 7; store_order_id = "o1"; store_plan_id = "p1" }) ∷ [];
}

is_renewed : (provision_renew 7 "o2" monthly 100 (some "u1") front).0 ≡ ok "u1"
unfolding provision_renew get
is_renewed = refl

provision_renew-IsUsable_example :
    IsUsable services
      (100 + day * 30)
      "u1"
      (provision_renew 7 "o2" monthly 100 (some "u1") front).1.panel
provision_renew-IsUsable_example =
    provision_renew-IsUsable services 7 "o2" monthly 100 (some "u1") "u1" front refl (omega arith)
      is_renewed

abbrev drawn : Drawn
drawn = record {
  group_name = "services of 7";
  sub_id = "g2";
  uuid_key = "k2";
  label = "Ali";
  note = "order o3";
  uid = "u2";
  ip_limit = 2;
}

abbrev saves : Saves
saves = record { group = true; config = false; move = true }

abbrev bought : Link
bought = record {
  label = "Ali";
  limit_bytes = 1000;
  used_bytes = 0;
  created_at = 100;
  active = true;
  expires_at = at (100 + day * 30);
  note = "order o3";
  remark = "Ali";
  is_default = false;
  sub_id = some "g1";
  protocol = "vless-ws";
  fingerprint = "chrome";
  alpn = "http/1.1";
  port = 443;
  ip_limit = 2;
  speed_limit_bytes = 0;
  address = "";
  sni = "";
  exit_proxy_mode = "direct";
  proxy_id = "";
  custom_proxy = "";
}

has_group : known_group (get 7 front.users) front.panel.subs ≡ some "g1"
unfolding known_group get
has_group = refl

is_valid :
    check_request services (request_for monthly drawn 100 "g1") 100 front.panel.subs
    ≡ ok ("", bought)
unfolding check_request request_for strip cut is_space or_text contains
is_valid = refl

is_there : is_some (get "g1" front.panel.subs) ≡ true
unfolding get
is_there = refl

is_fresh : get "u2" front.panel.links ≡ none
unfolding get
is_fresh = refl

provision_new-IsUsable_example :
    let after = provision_new services 7 "o3" monthly drawn 100 saves front in
    (after.0 ≡ err Failure.not_saved) × IsUsable services (100 + day * 30) "u2" after.1.panel
provision_new-IsUsable_example =
    provision_new-IsUsable services 7 "o3" "g1" monthly drawn 100 saves front bought refl
      (omega arith) has_group is_there is_valid is_fresh
