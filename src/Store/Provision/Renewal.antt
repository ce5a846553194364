-- ===== src/Store/Provision/Renewal.antt =====
-- A service that was made or renewed can be used (telegram_bot.py: `_provision_renew`; main.py:
-- `is_link_allowed`).
use lumen_project_final.Prelude.{
  ℕ, ◌+◌, ◌*◌, ◌≤◌, ◌<◌, ◌≡◌, sym, true, Option, none, some, String, arith, inl, inr, Bool-cases,
}
use lumen_project_final.Prelude.Eq.{string_eq}
use lumen_project_final.Prelude.Dict.{Dict, get, get-put_self}
use lumen_project_final.Panel.{Expiry, never, unreadable, at, Link, Sub, Panel, Services, ok}
use lumen_project_final.Panel.Access.{is_link_allowed, is_link_expired, within_quota}
use lumen_project_final.Store.{Plan}
use lumen_project_final.Store.Provision.{
  Shopfront, base_time, renewed, is_owner, renew_found, provision_renew, day,
}

base_time-le : (expiry : Expiry) (now : ℕ) → now ≤ base_time expiry now
unfolding base_time
base_time-le never now = omega arith
base_time-le unreadable now = omega arith
base_time-le (at t) now = omega arith

renewed_allowed :
    (e : Services) (plan : Plan) (now later : ℕ) (link : Link) (subs : Dict String Sub)
    → e.transport_available "vless-ws" ≡ true
    → 0 < plan.quota_bytes
    → later ≤ now + day * plan.days
    → is_link_allowed e (some (renewed plan now link)) subs later ≡ true
unfolding is_link_allowed is_link_expired within_quota renewed
renewed_allowed e plan now later link subs available quota early =
    ground (arith, available, quota, early, base_time-le link.expires_at now)

-- The service stands for another period: of the renewed config in the panel after it.
unfoldable pub IsUsable : Services → ℕ → String → Panel → Type 0
IsUsable e until uid p =
    (later : ℕ) → later ≤ until → is_link_allowed e (get uid p.links) p.subs later ≡ true

renew_found-IsUsable :
    (e : Services) (user_id : ℕ) (order_id : String) (plan : Plan) (now : ℕ) (uid id : String)
    (o : Option Link) (s : Shopfront)
    → e.transport_available "vless-ws" ≡ true
    → 0 < plan.quota_bytes
    → (renew_found user_id order_id plan now uid o s).0 ≡ ok id
    → IsUsable e (now + day * plan.days) id (renew_found user_id order_id plan now uid o s).1.panel
unfolding renew_found IsUsable
renew_found-IsUsable e user_id order_id plan now uid id none s available quota done = cc
renew_found-IsUsable e user_id order_id plan now uid id (some link) s available quota done =
    elim (Bool-cases (is_owner user_id (get uid s.tags))) [
      | inl own ↦
          let same : uid ≡ id = ground (arith, done, own) in
          rw (own, sym same)
            (λ later early.
              rw (get-put_self uid (renewed plan now link) s.panel.links)
                (renewed_allowed e plan now later link s.panel.subs available quota early))
      | inr other ↦ absurd (ground (arith, done, other))
    ]

-- Where the WebSocket transport is available, a renewal of a plan with a quota that succeeds leaves
-- a config that `is_link_allowed` admits at any time up to the plan's days from now, whatever was
-- used, expired or switched off before.
pub provision_renew-IsUsable :
    (e : Services) (user_id : ℕ) (order_id : String) (plan : Plan) (now : ℕ)
    (service : Option String) (id : String) (s : Shopfront)
    → e.transport_available "vless-ws" ≡ true
    → 0 < plan.quota_bytes
    → (provision_renew user_id order_id plan now service s).0 ≡ ok id
    → IsUsable e
        (now + day * plan.days)
        id
        (provision_renew user_id order_id plan now service s).1.panel
unfolding provision_renew
provision_renew-IsUsable e user_id order_id plan now none id s available quota done = cc
provision_renew-IsUsable e user_id order_id plan now (some uid) id s available quota done =
    renew_found-IsUsable e user_id order_id plan now uid id (get uid s.panel.links) s available
      quota done
