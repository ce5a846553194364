-- ===== src/Tests/Panels.antt =====
-- The panel of main.py on concrete configs and groups.
use lumen_project_final.Prelude.{
  refl, true, false, Option, none, some, String, List, [], ◌∷◌, arith,
}
use lumen_project_final.Prelude.Eq.{◌==◌, string_eq, nat_eq}
use lumen_project_final.Prelude.Dict.{get}
use lumen_project_final.Prelude.Member.{contains, distinct}
use lumen_project_final.Panel.{Link, Sub, Panel, Services, never}
use lumen_project_final.Panel.Links.{Request, make_link, set_link_sub}
use lumen_project_final.Panel.Groups.{create_sub_group, default_multi_location, assign_add}
use lumen_project_final.Panel.Sync.{InSync}
use lumen_project_final.Panel.Assign.{assign_add-breaks}
use lumen_project_final.Panel.Edits.{Edits, Edits-InSync, makes, creates, moves, done, next}
use lumen_project_final.Panel.Access.{Traffic, Use, use_all}
use lumen_project_final.Panel.Access.Usage.{InStep, use_all-InStep}

abbrev services : Services
services = record {
  transport_available = λ t. t == "vless-ws";
  security_ok = λ s. s == "tls";
  normalize_address = λ a. some a;
  normalize_sni = λ a. some a;
  normalize_exit_proxy = λ mode id custom. some (mode, id, custom);
  normalize_uuid = λ u. some u;
  raw_location_ok = λ link location. true;
  hash_password = λ p. p;
  lower = λ s. s;
  default_label = "config";
  default_group = "group";
}

abbrev request : Option String → Request
request sub_id = record {
  label = "home";
  limit_bytes = 100;
  expires_at = never;
  note = "";
  remark = "";
  sub_id = sub_id;
  protocol = "vless-ws";
  security = "tls";
  fingerprint = "chrome";
  alpn = "";
  port = 443;
  ip_limit = 1;
  speed_limit_bytes = 0;
  address = "";
  sni = "";
  exit_proxy_mode = "direct";
  proxy_id = "";
  custom_proxy = "";
  requested_uuid = "";
}

abbrev empty_panel : Panel
empty_panel = record { links = []; subs = [] }

empty-InSync : InSync empty_panel
unfolding get distinct
empty-InSync = record { agree = λ sid uid h. refl; unique = λ sid. refl }

abbrev with_group : Panel
with_group = (create_sub_group services "friends" "" "" "g1" "k1" 1 true empty_panel).1

abbrev with_config : Panel
with_config = (make_link services (request (some "g1")) "u1" 2 true with_group).1

abbrev moved_out : Panel
moved_out = (set_link_sub services "u1" none false with_config).1

requests : Edits services empty_panel moved_out
unfolding get
requests =
    next
      (next (next done (creates "friends" "" "" "g1" "k1" 1 true empty_panel (λ uid. refl)))
        (makes (request (some "g1")) "u1" 2 true with_group))
      (moves "u1" none false with_config)

Edits-InSync_example : InSync moved_out
Edits-InSync_example = Edits-InSync services empty_panel moved_out empty-InSync requests

abbrev link_of : Option String → Link
link_of sub_id = record {
  label = "home";
  limit_bytes = 100;
  used_bytes = 90;
  created_at = 1;
  active = true;
  expires_at = never;
  note = "";
  remark = "";
  is_default = false;
  sub_id = sub_id;
  protocol = "vless-ws";
  fingerprint = "chrome";
  alpn = "";
  port = 443;
  ip_limit = 1;
  speed_limit_bytes = 0;
  address = "";
  sni = "";
  exit_proxy_mode = "direct";
  proxy_id = "";
  custom_proxy = "";
}

abbrev sub_of : List String → Sub
sub_of link_ids = record {
  name = "friends";
  desc = "";
  password_hash = none;
  uuid_key = "k";
  created_at = 1;
  link_ids = link_ids;
  multi_location = default_multi_location;
}

abbrev two_groups : Panel
two_groups = record {
  links = ("u1", link_of (some "g1")) ∷ [];
  subs = ("g1", sub_of ("u1" ∷ [])) ∷ ("g2", sub_of []) ∷ [];
}

two_groups-InSync : InSync two_groups
unfolding get distinct contains
two_groups-InSync = record { agree = λ sid uid h. ground arith; unique = λ sid. ground arith }

assign_add-breaks_example : ¬ InSync (assign_add "g2" "u1" two_groups)
unfolding get distinct contains
assign_add-breaks_example =
    assign_add-breaks "g1" "g2" "u1" two_groups refl refl refl two_groups-InSync

abbrev traffic : Traffic
traffic = record { links = ("u1", link_of none) ∷ []; total_bytes = 90; hourly = (3, 90) ∷ [] }

abbrev uses : List Use
uses =
    record { uid = "u1"; nbytes = 5; now = 10; hour = 3 }
    ∷ record { uid = "u1"; nbytes = 7; now = 11; hour = 4 }
    ∷ record { uid = "u2"; nbytes = 7; now = 12; hour = 4 }
    ∷ []

use_all-InStep_example : InStep traffic (use_all services [] uses traffic)
use_all-InStep_example = use_all-InStep services [] uses traffic
