-- ===== src/Tests/Running.antt =====
-- The theorems on sessions that run side by side, at one that is admitted and one from another
-- address (relay_vless.py).
use lumen_project_final.Prelude.{◌≡◌, refl, true, false, Option, none, some, List, [], ◌∷◌, arith}
use lumen_project_final.Prelude.Eq.{◌==◌, string_eq}
use lumen_project_final.Prelude.Dict.{get, put, remove}
use lumen_project_final.Prelude.Member.{contains, add_once}
use lumen_project_final.Prelude.Text.{strip, cut, is_space}
use lumen_project_final.Repository.Metadata.{before_hash}
use lumen_project_final.Panel.{Link, Services, never}
use lumen_project_final.Panel.Access.{
  unique_ips, check_and_use, is_link_allowed, is_ip_allowed, multi_location_for_link,
}
use lumen_project_final.Repository.{get_record, validate_url}
use lumen_project_final.Vless.{VlessHeader, Collected}
use lumen_project_final.Exits.{World, resolve_exit_selection}
use lumen_project_final.Outbound.{Opened, open_outbound}
use lumen_project_final.Sessions.{Phase, Session, Node, Event, run}
use lumen_project_final.Sessions.Limit.{WithinLimit, run-WithinLimit}
use lumen_project_final.Sessions.Tracked.{IsTracked, run-IsTracked}
use lumen_project_final.Sessions.Chosen.{HasEndpoints}
use lumen_project_final.Sessions.FailClosed.{IsFailClosed, run-IsFailClosed}
use lumen_project_final.Tests.Exits.{library, empty}

abbrev pub services : Services
services = record {
  transport_available = λ t. t == "vless-ws";
  security_ok = λ s. s == "tls";
  normalize_address = λ a. some a;
  normalize_sni = λ a. some a;
  normalize_exit_proxy = λ mode id custom. some (mode, id, custom);
  normalize_uuid = λ u. some u;
  raw_location_ok = λ link location. true;
  hash_password = λ p. p;
  lower = λ s. s;
  default_label = "config";
  default_group = "group";
}

-- A config with a proxy of its own, for one address.
abbrev pub link : Link
link = record {
  label = "home";
  limit_bytes = 0;
  used_bytes = 0;
  created_at = 1;
  active = true;
  expires_at = never;
  note = "";
  remark = "";
  is_default = false;
  sub_id = none;
  protocol = "vless-ws";
  fingerprint = "chrome";
  alpn = "";
  port = 443;
  ip_limit = 1;
  speed_limit_bytes = 0;
  address = "";
  sni = "";
  exit_proxy_mode = "custom";
  proxy_id = "";
  custom_proxy = "a";
}

abbrev node : Node
node = record {
  traffic = record { links = ("u1", link) ∷ []; total_bytes = 0; hourly = [] };
  connections = [];
  sessions = [];
  health = [];
  total_requests = 0;
  total_errors = 0;
}

abbrev world : World
world = record {
  library = library;
  repository = empty;
  tests = [];
  preferred = [];
  now = 100;
  open_receipt = λ text. none;
  fingerprint = λ s. s;
  printable = λ c. true;
}

abbrev header : VlessHeader
header = record { command = 1; address = "example.org"; port = 443; payload = 7 ∷ [] }

abbrev events : List Event
events =
    Event.arrives "c1" "u1" "10.0.0.1" "" 5
    ∷ Event.arrives "c2" "u1" "10.0.0.2" "" 6
    ∷ Event.collects "c1" (Collected.got header 30 none) 7 0
    ∷ Event.routes "c1" world false
    ∷ Event.dials "c1" world true 8
    ∷ []

node-WithinLimit : WithinLimit node
unfolding WithinLimit unique_ips
node-WithinLimit uuid found known limited = omega arith

run-WithinLimit_example : WithinLimit (run services [] events node)
run-WithinLimit_example = run-WithinLimit services [] events node node-WithinLimit

node-IsTracked : IsTracked node
unfolding IsTracked get
node-IsTracked conn_id = refl

run-IsTracked_example : IsTracked (run services [] events node)
run-IsTracked_example = run-IsTracked services [] events node node-IsTracked

world-HasEndpoints : HasEndpoints world
unfolding HasEndpoints get_record get
world-HasEndpoints id r found = cc

run-IsFailClosed_example : IsFailClosed events [] (run services [] events node)
run-IsFailClosed_example =
    run-IsFailClosed services [] events node (tt, (tt, (tt, (world-HasEndpoints, (tt, tt))))) refl

phase_of : Option Session → Option Phase
phase_of none = none
phase_of (some s) = some s.phase

relayed :
    phase_of (get "c1" (run services [] events node).sessions)
    ≡ some (Phase.relaying (Opened.via "socks5://a"))
unfolding phase_of run get put remove unique_ips contains add_once strip cut is_space before_hash
    is_link_allowed is_ip_allowed check_and_use resolve_exit_selection multi_location_for_link
    validate_url open_outbound
relayed = refl
