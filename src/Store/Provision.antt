-- ===== src/Store/Provision.antt =====
-- How the shop makes and renews a service on the panel (telegram_bot.py: `_ensure_customer_sub`,
-- `_provision_new`, `_provision_renew`). Texts made of numbers, and what is drawn, are arguments;
-- `Saves` says which of the writes to the disk succeed.
pub mod Renewal
pub mod Unsaved
use lumen_project_final.Prelude.{
  ℕ, ◌+◌, ◌-◌, ◌*◌, max, Bool, true, false, not, Option, none, some, String, List, [], ◌∷◌,
  if◌then◌else◌, nat_eqb,
}
use lumen_project_final.Prelude.Eq.{◌==◌, string_eq, nat_eq}
use lumen_project_final.Prelude.Dict.{Dict, get, put}
use lumen_project_final.Panel.{
  Expiry, never, unreadable, at, Link, Sub, Panel, Services, Result, ok, err, not_found,
}
use lumen_project_final.Panel.Links.{Request, make_link, set_link_sub}
use lumen_project_final.Panel.Groups.{create_sub_group}
use lumen_project_final.Store.{User, Plan}

-- What the shop writes on a config beside the panel's fields; one that has it is `store_managed`.
pub record Tag : Type 0 where
  pub owner_telegram_id : ℕ
  pub store_order_id : String
  pub store_plan_id : String

pub record Shopfront : Type 0 where
  pub users : Dict ℕ User
  pub panel : Panel
  pub tags : Dict String Tag

pub record Saves : Type 0 where
  pub group : Bool
  pub config : Bool
  pub move : Bool

-- What is drawn or formatted for an order, and the setting `STORE_IP_LIMIT`
pub record Drawn : Type 0 where
  pub group_name : String
  pub sub_id : String
  pub uuid_key : String
  pub label : String
  pub note : String
  pub uid : String
  pub ip_limit : ℕ

-- The group of the user, if it is there
unfoldable pub known_group : Option User → Dict String Sub → Option String
known_group none subs = none
known_group (some user) subs = elim user.sub_id [
  | none ↦ none
  | some sub_id ↦ elim (get sub_id subs) [ none ↦ none | some sub ↦ some sub_id ]
]

unfoldable pub join_group : ℕ → String → Option User → Dict ℕ User → Dict ℕ User
join_group user_id sub_id none users = users
join_group user_id sub_id (some user) users =
    put user_id (record user { sub_id = some sub_id }) users

unfoldable pub group_created : ℕ → Result String × Panel → Shopfront → Result String × Shopfront
unfolding join_group
group_created user_id (err e, p) s = (err e, record s { panel = p })
group_created user_id (ok sub_id, p) s = (
  ok sub_id,
  record s { panel = p; users = join_group user_id sub_id (get user_id s.users) s.users },
)

-- `_ensure_customer_sub`
unfoldable pub ensure_customer_sub :
    Services → ℕ → Drawn → ℕ → Saves → Shopfront → Result String × Shopfront
unfolding known_group group_created
ensure_customer_sub e user_id d now saves s =
    elim (known_group (get user_id s.users) s.panel.subs) [
      | some sub_id ↦ (ok sub_id, s)
      | none ↦
          group_created user_id
            (create_sub_group e d.group_name "" "" d.sub_id d.uuid_key now saves.group s.panel) s
    ]

abbrev pub day : ℕ
day = 86_400_000_000

-- The arguments of `make_link` for a plan
unfoldable pub request_for : Plan → Drawn → ℕ → String → Request
request_for plan d now sub_id = record {
  label = d.label;
  limit_bytes = plan.quota_bytes;
  expires_at = at (now + day * plan.days);
  note = d.note;
  remark = "";
  sub_id = some sub_id;
  protocol = "vless-ws";
  security = "tls";
  fingerprint = "chrome";
  alpn = "http/1.1";
  port = 443;
  ip_limit = d.ip_limit;
  speed_limit_bytes = 0;
  address = "";
  sni = "";
  exit_proxy_mode = "direct";
  proxy_id = "";
  custom_proxy = "";
  requested_uuid = "";
}

unfoldable pub moved : String → Result Bool × Panel → Shopfront → Result String × Shopfront
moved uid (err e, p) s = (err e, record s { panel = p })
moved uid (ok done, p) s = (ok uid, record s { panel = p })

unfoldable pub link_made :
    Services → Tag → String → Bool → Result String × Panel → Shopfront → Result String × Shopfront
unfolding moved
link_made e tag sub_id saved (err failure, p) s = (err failure, record s { panel = p })
link_made e tag sub_id saved (ok uid, p) s =
    moved uid (set_link_sub e uid (some sub_id) saved p)
      (record s { panel = p; tags = put uid tag s.tags })

unfoldable pub in_group :
    Services
    → Plan
    → Tag
    → Drawn
    → ℕ
    → Saves
    → Result String × Shopfront
    → Result String × Shopfront
unfolding link_made request_for
in_group e plan tag d now saves (err failure, s) = (err failure, s)
in_group e plan tag d now saves (ok sub_id, s) =
    link_made e tag sub_id saves.move
      (make_link e (request_for plan d now sub_id) d.uid now saves.config s.panel) s

-- `_provision_new`: the identifier of the new config, or an error.
unfoldable pub provision_new :
    Services → ℕ → String → Plan → Drawn → ℕ → Saves → Shopfront → Result String × Shopfront
unfolding in_group ensure_customer_sub
provision_new e user_id order_id plan d now saves s =
    in_group e plan
      (record { owner_telegram_id = user_id; store_order_id = order_id; store_plan_id = plan.id }) d
      now saves (ensure_customer_sub e user_id d now saves s)

-- The later of now and the end so far; a missing or unreadable end is now.
unfoldable pub base_time : Expiry → ℕ → ℕ
base_time never now = now
base_time unreadable now = now
base_time (at expiry) now = max now expiry

unfoldable pub renewed : Plan → ℕ → Link → Link
unfolding base_time
renewed plan now link = record link {
  limit_bytes = (link.limit_bytes - link.used_bytes) + plan.quota_bytes;
  used_bytes = 0;
  expires_at = at (base_time link.expires_at now + day * plan.days);
  active = true;
  protocol = "vless-ws";
  fingerprint = "chrome";
  alpn = "http/1.1";
  port = 443;
}

unfoldable pub is_owner : ℕ → Option Tag → Bool
is_owner user_id none = false
is_owner user_id (some tag) = nat_eqb tag.owner_telegram_id user_id

unfoldable pub renew_found :
    ℕ → String → Plan → ℕ → String → Option Link → Shopfront → Result String × Shopfront
unfolding is_owner renewed
renew_found user_id order_id plan now uid none s = (err not_found, s)
renew_found user_id order_id plan now uid (some link) s =
    if is_owner user_id (get uid s.tags)
    then (
      ok uid,
      record s {
        panel = record {
          links = put uid (renewed plan now link) s.panel.links;
          subs = s.panel.subs;
        };
        tags =
            put uid
              (record {
                owner_telegram_id = user_id;
                store_order_id = order_id;
                store_plan_id = plan.id;
              })
              s.tags;
      },
    )
    else (err not_found, s)

-- `_provision_renew`, where an order without a service finds none.
unfoldable pub provision_renew :
    ℕ → String → Plan → ℕ → Option String → Shopfront → Result String × Shopfront
unfolding renew_found
provision_renew user_id order_id plan now none s = (err not_found, s)
provision_renew user_id order_id plan now (some uid) s =
    renew_found user_id order_id plan now uid (get uid s.panel.links) s
