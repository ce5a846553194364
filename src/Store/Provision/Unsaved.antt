-- ===== src/Store/Provision/Unsaved.antt =====
-- A purchase and the disk (telegram_bot.py: `_provision_new`; main.py: `make_link`, `save_state`).
use std.Path.{subst}
use mathlib.Core.Option
use lumen_project_final.Prelude.{
  ℕ, ◌+◌, ◌*◌, ◌≤◌, ◌<◌, ◌≡◌, refl, Bool, true, false, ◌&&◌, Option, none, some, String, arith, inl,
  inr, Option-cases, is_some, if◌then◌else◌,
}
use lumen_project_final.Prelude.Eq.{string_eq, nat_eq}
use lumen_project_final.Prelude.Dict.{Dict, get, put, get-put_self}
use lumen_project_final.Panel.{
  Link, Sub, Panel, Services, Result, ok, err, bad_transport, bad_security, bad_address, bad_sni,
  bad_exit, bad_uuid, ◌>>=◌, ◌>>◌, not_saved,
}
use lumen_project_final.Panel.Access.{is_link_allowed, is_link_expired, within_quota, raw_tcp_ok}
use lumen_project_final.Panel.Links.{
  Request, guard, require, optional, raw_checks, check_request, draft_link, make_link, make_checked,
  store_link, finish_save, set_link_sub, target_ok, move_link, with_link,
}
use lumen_project_final.Panel.Sync.{get-change_sub}
use lumen_project_final.Panel.Groups.{names_sub}
use lumen_project_final.Store.{Plan}
use lumen_project_final.Store.Provision.{
  Shopfront, Tag, Saves, Drawn, known_group, ensure_customer_sub, request_for, moved, link_made,
  in_group, provision_new, day,
}
use lumen_project_final.Store.Provision.Renewal.{IsUsable}

-- The config has the terms of the request.
record HasTerms (r : Request) (link : Link) : Type 0 where
  protocol : link.protocol ≡ r.protocol
  limit : link.limit_bytes ≡ r.limit_bytes
  unused : link.used_bytes ≡ 0
  active : link.active ≡ true
  expires : link.expires_at ≡ r.expires_at

abbrev Kept : Request → Result (String × Link) → Type 0
Kept r (err failure) = Unit {0}
Kept r (ok (asked, link)) = HasTerms r link

then-Kept :
    (r : Request) (m : Result (Unit {0})) (next : Result (String × Link))
    → Kept r next
    → Kept r (m >> next)
then-Kept r (err failure) next h = tt
then-Kept r (ok done) next h = h

bind-Kept {ℓ} :
    {A : Type ℓ} (r : Request) (m : Result A) (next : A → Result (String × Link))
    → ((a : A) → Kept r (next a))
    → Kept r (m >>= next)
bind-Kept r (err failure) next h = tt
bind-Kept r (ok a) next h = h a

check_request-Kept :
    (e : Services) (r : Request) (now : ℕ) (subs : Dict String Sub)
    → Kept r (check_request e r now subs)
unfolding check_request draft_link
check_request-Kept e r now subs =
    then-Kept r (guard (e.transport_available r.protocol) bad_transport) _ (
      then-Kept r (guard (e.security_ok r.security) bad_security) _ (
        then-Kept r (raw_checks e r (draft_link e r now) subs) _ (
          bind-Kept r (optional e.normalize_address r.address bad_address) _ (λ address.
            bind-Kept r (optional e.normalize_sni r.sni bad_sni) _ (λ sni.
              bind-Kept r
                (require (e.normalize_exit_proxy r.exit_proxy_mode r.proxy_id r.custom_proxy)
                  bad_exit)
                _
                (λ exit.
                  bind-Kept r (require (e.normalize_uuid r.requested_uuid) bad_uuid) _
                    (λ uuid. terms)))))))
  where
    terms :
        {a b c d f : String}
        → HasTerms r (record (draft_link e r now) {
          address = a;
          sni = b;
          exit_proxy_mode = c;
          proxy_id = d;
          custom_proxy = f;
        })
    terms = record { protocol = refl; limit = refl; unused = refl; active = refl; expires = refl }

-- A config with the terms of a plan can be used to the end of its days.
terms_usable :
    (e : Services) (plan : Plan) (d : Drawn) (now later : ℕ) (sub_id : String) (link : Link)
    (subs : Dict String Sub)
    → e.transport_available "vless-ws" ≡ true
    → 0 < plan.quota_bytes
    → HasTerms (request_for plan d now sub_id) link
    → later ≤ now + day * plan.days
    → is_link_allowed e (some link) subs later ≡ true
unfolding is_link_allowed is_link_expired within_quota request_for
terms_usable e plan d now later sub_id link subs available quota t early =
    rw (t.protocol, t.active, t.expires)
      (ground (arith, available, quota, early, t.limit, t.unused))

-- A panel that has the config, with the terms of the plan, and the group
record HasConfig (r : Request) (uid sub_id : String) (p : Panel) : Type 0 where
  link : Link
  found : get uid p.links ≡ some link
  terms : HasTerms r link
  grouped : is_some (get sub_id p.subs) ≡ true

still_there :
    (uid : String) (named : Bool) (o : Option Sub)
    → is_some o ≡ true
    → is_some {A = Sub} (if named then Option.map (with_link uid) o else o) ≡ true
still_there uid named none h = absurd (ground (arith, h))
still_there uid true (some sub) h = refl
still_there uid false (some sub) h = refl

stored-HasConfig :
    (r : Request) (uid sub_id : String) (link : Link) (p : Panel)
    → HasTerms r link
    → is_some (get sub_id p.subs) ≡ true
    → HasConfig r uid sub_id (store_link uid link p)
unfolding store_link
stored-HasConfig r uid sub_id link p t g = record {
  link = link;
  found = get-put_self uid link p.links;
  terms = t;
  grouped =
      rw (get-change_sub (with_link uid) link.sub_id sub_id p.subs)
        (still_there uid (names_sub sub_id link.sub_id) (get sub_id p.subs) g);
}

-- A config that is no Raw TCP one goes into any group that is there.
target_fits :
    (e : Services) (link : Link) (sub_id : String) (subs : Dict String Sub)
    → link.protocol ≡ "vless-ws"
    → is_some (get sub_id subs) ≡ true
    → target_ok e link (some sub_id) subs ≡ true
unfolding target_ok raw_tcp_ok
target_fits e link sub_id subs ws there = elim (Option-cases (get sub_id subs)) [
  | inl gone ↦ absurd (ground (arith, there, gone))
  | inr (sub, found) ↦ rw (found, target_ok, ws) refl
]

abbrev pub Delivered : Services → ℕ → String → Bool → Result String × Shopfront → Type 0
Delivered e until uid saved after =
    (after.0 ≡ (if saved then ok uid else err not_saved)) × IsUsable e until uid after.1.panel

moved-Delivered :
    (e : Services) (plan : Plan) (d : Drawn) (now : ℕ) (sub_id uid : String) (saved : Bool)
    (p : Panel) (s : Shopfront)
    → e.transport_available "vless-ws" ≡ true
    → 0 < plan.quota_bytes
    → HasConfig (request_for plan d now sub_id) uid sub_id p
    → Delivered e
        (now + day * plan.days)
        uid
        saved
        (moved uid (set_link_sub e uid (some sub_id) saved p) s)
unfolding moved set_link_sub finish_save move_link request_for IsUsable
moved-Delivered e plan d now sub_id uid saved p s available quota c =
    rw (c.found, set_link_sub, target_fits e c.link sub_id p.subs c.terms.protocol c.grouped)
      (either saved)
  where
    now_in : Link
    now_in = record (c.link) { sub_id = some sub_id }

    usable :
        (later : ℕ) (subs : Dict String Sub)
        → later ≤ now + day * plan.days
        → is_link_allowed e (get uid (put uid now_in p.links)) subs later ≡ true
    usable later subs early = rw (get-put_self uid now_in p.links) (
        terms_usable e plan d now later sub_id now_in subs available quota
          (record {
            protocol = c.terms.protocol;
            limit = c.terms.limit;
            unused = c.terms.unused;
            active = c.terms.active;
            expires = c.terms.expires;
          })
          early)

    either :
        (b : Bool)
        → Delivered e
            (now + day * plan.days)
            uid
            b
            (moved uid (finish_save b true (move_link uid c.link (some sub_id) p)) s)
    either true = (refl, λ later early. usable later _ early)
    either false = (refl, λ later early. usable later _ early)

made-Delivered :
    (e : Services) (plan : Plan) (tag : Tag) (d : Drawn) (now : ℕ) (sub_id : String)
    (saved saved_move : Bool) (link : Link) (s : Shopfront)
    → e.transport_available "vless-ws" ≡ true
    → 0 < plan.quota_bytes
    → HasTerms (request_for plan d now sub_id) link
    → is_some (get sub_id s.panel.subs) ≡ true
    → Delivered e (now + day * plan.days) d.uid (saved && saved_move) (
        link_made e tag sub_id saved_move
          (finish_save saved d.uid (store_link d.uid link s.panel))
          s)
unfolding link_made finish_save store_link IsUsable
made-Delivered e plan tag d now sub_id true saved_move link s available quota t there =
    moved-Delivered e plan d now sub_id d.uid saved_move (store_link d.uid link s.panel) _ available
      quota (stored-HasConfig (request_for plan d now sub_id) d.uid sub_id link s.panel t there)
made-Delivered e plan tag d now sub_id false saved_move link s available quota t there = (
  refl,
  λ later early.
      rw (get-put_self d.uid link s.panel.links)
        (terms_usable e plan d now later sub_id link _ available quota t early),
)

-- A purchase whose checks pass, for a customer who has a group, with an identifier that no config
-- has and a quota above 0, over an available transport: whichever writes to the disk succeed, the
-- config that it leaves in the panel is one that `is_link_allowed` admits at any time up to the
-- plan's days from now, and the purchase gives the identifier if both writes succeed and the error
-- of the disk if one of them does not. So a purchase that fails at the disk, whose order is rolled
-- back, has delivered what was bought.
pub provision_new-IsUsable :
    (e : Services) (user_id : ℕ) (order_id sub_id : String) (plan : Plan) (d : Drawn) (now : ℕ)
    (saves : Saves) (s : Shopfront) (link : Link)
    → e.transport_available "vless-ws" ≡ true
    → 0 < plan.quota_bytes
    → known_group (get user_id s.users) s.panel.subs ≡ some sub_id
    → is_some (get sub_id s.panel.subs) ≡ true
    → check_request e (request_for plan d now sub_id) now s.panel.subs ≡ ok ("", link)
    → get d.uid s.panel.links ≡ none
    → let after = provision_new e user_id order_id plan d now saves s in
      (after.0 ≡ (if saves.config && saves.move then ok d.uid else err not_saved))
      × IsUsable e (now + day * plan.days) d.uid after.1.panel
unfolding provision_new ensure_customer_sub in_group make_link make_checked
provision_new-IsUsable e user_id order_id sub_id plan d now saves s link available quota known there
      valid fresh =
    rw (known, ensure_customer_sub, in_group, valid, make_checked, fresh, make_checked)
      (made-Delivered e plan _ d now sub_id saves.config saves.move link s available quota
        (subst (Kept (request_for plan d now sub_id)) valid
          (check_request-Kept e (request_for plan d now sub_id) now s.panel.subs))
        there)
