-- ===== src/Tests/Patches.antt =====
-- The theorem on a refused change of a config, at one whose address is refused (main.py).
use lumen_project_final.Prelude.{◌≡◌, refl, Bool, true, false, Option, none, some, String, [], ◌∷◌}
use lumen_project_final.Prelude.Eq.{◌==◌, string_eq}
use lumen_project_final.Prelude.Dict.{get}
use lumen_project_final.Prelude.Text.{cut}
use lumen_project_final.Panel.{Link, Panel, Services, Failure, never, ok, err}
use lumen_project_final.Panel.Links.{or_text}
use lumen_project_final.Panel.Patches.{Field, LinkPatch, update_link, check_patch}
use lumen_project_final.Panel.Patches.Partly.{label_of, update_link-partly}

-- An address with a space is refused.
abbrev if_domain : Bool → String → Option String
if_domain true a = none
if_domain false a = some a

abbrev services : Services
services = record {
  transport_available = λ t. t == "vless-ws";
  security_ok = λ s. s == "tls";
  normalize_address = λ a. if_domain (a == "a b") a;
  normalize_sni = λ a. some a;
  normalize_exit_proxy = λ mode id custom. some (mode, id, custom);
  normalize_uuid = λ u. some u;
  raw_location_ok = λ link location. true;
  hash_password = λ p. p;
  lower = λ s. s;
  default_label = "config";
  default_group = "group";
}

abbrev link : Link
link = record {
  label = "home";
  limit_bytes = 100;
  used_bytes = 90;
  created_at = 1;
  active = true;
  expires_at = never;
  note = "";
  remark = "";
  is_default = false;
  sub_id = none;
  protocol = "vless-ws";
  fingerprint = "chrome";
  alpn = "";
  port = 443;
  ip_limit = 0;
  speed_limit_bytes = 0;
  address = "";
  sni = "";
  exit_proxy_mode = "direct";
  proxy_id = "";
  custom_proxy = "";
}

abbrev panel : Panel
panel = record { links = ("u1", link) ∷ []; subs = [] }

abbrev body : LinkPatch
body = record {
  sub_id = none;
  protocol = none;
  security = none;
  exit_proxy_mode = none;
  proxy_id = none;
  custom_proxy = none;
  receipt_ok = false;
  active = some false;
  label = some "office";
  note = none;
  remark = none;
  reset_usage = true;
  limit_bytes = Field.given 500;
  expires_days = Field.missing;
  fingerprint = none;
  alpn = none;
  port = Field.missing;
  ip_limit = Field.missing;
  speed_limit_bytes = Field.missing;
  address = some "a b";
  sni = none;
  host = "panel.example";
}

passes : check_patch services link body [] ≡ ok none
unfolding check_patch
passes = refl

stored : get "u1" panel.links ≡ some link
unfolding get
stored = refl

update_link-partly_example :
    let after = update_link services 5 "u1" body true panel in
    (after.0 ≡ err Failure.bad_address)
    × (label_of (get "u1" after.1.links) ≡ some (cut 60 "office"))
unfolding or_text
update_link-partly_example =
    update_link-partly services 5 "u1" body true panel link none "office" "a b" stored passes refl
      (λ e. cc) (λ e. cc) (λ e. cc) refl refl
