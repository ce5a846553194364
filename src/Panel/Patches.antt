-- ===== src/Panel/Patches.antt =====
-- `update_link` (main.py): the request's checks, the writes to the config in memory, of which a
-- later one may still raise, and the move to another group. The config is taken to be the same
-- before and after the wait for a proxy's check. The speed bucket that a new limit drops, the
-- activity log and transport settings are left out.
pub mod Grouped
pub mod Partly
use lumen_project_final.Prelude.{
  ℕ, ◌+◌, ◌*◌, ◌≡◌, ◌∙◌, refl, Bool, true, false, not, ◌&&◌, ◌||◌, Option, none, some, String, List,
  [], ◌∷◌, if◌then◌else◌, leb, is_some, arith, Option-cases, if_cases, inl, inr,
}
use lumen_project_final.Prelude.Eq.{◌==◌, string_eq, ==_refl}
use lumen_project_final.Prelude.Dict.{Dict, get, put, get-put, get-put_self}
use lumen_project_final.Prelude.Text.{strip, cut}
use lumen_project_final.Panel.{
  Expiry, never, at, Link, Sub, Panel, Failure, Result, ok, err, ◌>>=◌, ◌>>◌, Services,
  bad_transport, bad_security, managed_endpoint, no_location_profile, bad_address, bad_sni,
  bad_exit, not_found, bad_number, transport_fixed, untested_proxy,
}
use lumen_project_final.Panel.Access.{raw_tcp_ok}
use lumen_project_final.Panel.Links.{
  guard, require, is_given, or_text, known_fingerprint, valid_port, optional, move_link,
  finish_save,
}

-- A number of the request: it is missing, no number, or read; one below 0 is read as 0.
pub data Field : Type 0 where
  missing unreadable : Field
  given : ℕ → Field

-- The body of `PATCH /api/links/{uid}`. `receipt_ok` says whether the receipt is one for the proxy;
-- `host` is the address that an empty one stands for; sizes and speeds are in bytes.
pub record LinkPatch : Type 0 where
  pub sub_id : Option String
  pub protocol : Option String
  pub security : Option String
  pub exit_proxy_mode : Option String
  pub proxy_id : Option String
  pub custom_proxy : Option String
  pub receipt_ok : Bool
  pub active : Option Bool
  pub label : Option String
  pub note : Option String
  pub remark : Option String
  pub reset_usage : Bool
  pub limit_bytes : Field
  pub expires_days : Field
  pub fingerprint : Option String
  pub alpn : Option String
  pub port : Field
  pub ip_limit : Field
  pub speed_limit_bytes : Field
  pub address : Option String
  pub sni : Option String
  pub host : String

abbrev pub given_or {ℓ} : {A : Type ℓ} → Option A → A → A
given_or none a = a
given_or (some b) a = b

abbrev is_missing : Field → Bool
is_missing missing = true
is_missing _ = false

-- A group that is asked for has to be there, and to have an endpoint for a Raw TCP config.
unfoldable pub group_checked : Services → Link → Option Sub → Result (Unit {0})
unfolding guard
group_checked e link none = err not_found
group_checked e link (some sub) = guard (raw_tcp_ok e link sub.multi_location) no_location_profile

unfoldable pub check_group : Services → Link → Option String → Dict String Sub → Result (Unit {0})
unfolding group_checked
check_group e link none subs = ok tt
check_group e link (some sub_id) subs =
    if sub_id == "" then ok tt else group_checked e link (get sub_id subs)

unfoldable pub check_endpoint : Link → LinkPatch → Result (Unit {0})
unfolding guard
check_endpoint link body =
    guard
      (not (link.protocol == "vless-tcp")
        || not (
            is_some body.address
            || is_some body.sni
            || is_some body.alpn
            || not (is_missing body.port)))
      managed_endpoint

unfoldable pub check_protocol : Services → Link → Option String → Result (Unit {0})
unfolding guard
check_protocol e link none = ok tt
check_protocol e link (some protocol) =
    guard (e.transport_available protocol) bad_transport
    >> guard (protocol == link.protocol) transport_fixed

unfoldable pub check_security : Services → Option String → Result (Unit {0})
unfolding guard
check_security e none = ok tt
check_security e (some security) = guard (e.security_ok security) bad_security

abbrev pub Exit : Type 0
Exit = String × String × String

unfoldable pub select_exit : Services → Link → LinkPatch → Result (Option Exit)
unfolding guard require
select_exit e link body =
    if not (is_some body.exit_proxy_mode || is_some body.proxy_id || is_some body.custom_proxy)
    then ok none
    else (let mode = e.lower (given_or body.exit_proxy_mode link.exit_proxy_mode) in
        let proxy_id = strip (given_or body.proxy_id link.proxy_id) in
        guard
          (not (mode == "repository")
            || (mode == link.exit_proxy_mode && proxy_id == link.proxy_id)
            || body.receipt_ok)
          untested_proxy
        >> require
            (e.normalize_exit_proxy mode proxy_id (given_or body.custom_proxy link.custom_proxy))
            bad_exit
        >>= λ exit. ok (some exit))

-- All that is checked before the first write.
unfoldable pub check_patch : Services → Link → LinkPatch → Dict String Sub → Result (Option Exit)
unfolding check_group check_endpoint check_protocol check_security select_exit
check_patch e link body subs = do
  check_group e link body.sub_id subs
  check_endpoint link body
  check_protocol e link body.protocol
  check_security e body.security
  select_exit e link body

-- Writes to a config; what was written before one raises stays.
abbrev pub Writes : Type 0
Writes = Link → Result (Unit {0}) × Link

abbrev pub go_on : Writes → Result (Unit {0}) × Link → Result (Unit {0}) × Link
go_on g (err e, link) = (err e, link)
go_on g (ok u, link) = g link

-- One write after the other, up to one that raises.
unfoldable pub run_writes : List Writes → Writes
run_writes [] link = (ok tt, link)
run_writes (f ∷ fs) link = go_on (run_writes fs) (f link)

abbrev pub write : (Link → Link) → Writes
write f link = (ok tt, f link)

-- A number that cannot be read raises.
abbrev pub write_number : Field → (ℕ → Link → Link) → Writes
write_number missing f link = (ok tt, link)
write_number unreadable f link = (err bad_number, link)
write_number (given n) f link = (ok tt, f n link)

-- A number that cannot be read is the default.
abbrev pub number_or : Field → ℕ → ℕ → ℕ
number_or missing old default = old
number_or unreadable old default = default
number_or (given n) old default = if leb n 0 then default else n

-- An address or TLS name that is refused raises.
abbrev pub write_name : Option String → (String → Result String) → (String → Link → Link) → Writes
write_name none check f link = (ok tt, link)
write_name (some s) check f link = elim (check s) [
  | err e ↦ (err e, link)
  | ok name ↦ (ok tt, f name link)
]

abbrev days : ℕ
days = 86_400_000_000

unfoldable pub write_texts : LinkPatch → Link → Link
unfolding or_text
write_texts body link =
    let label = given_or (elim body.label [ none ↦ none | some s ↦ some (cut 60 s) ]) link.label in
    record link {
      active = given_or body.active link.active;
      label = label;
      note = elim body.note [ none ↦ link.note | some s ↦ cut 200 s ];
      remark = elim body.remark [
        | none ↦ link.remark
        | some s ↦ cut 120 (strip (or_text s (or_text label "Lumen Relay")))
      ];
      used_bytes = if body.reset_usage then 0 else link.used_bytes;
    }

unfoldable pub write_settings : Services → LinkPatch → Link → Link
unfolding known_fingerprint valid_port
write_settings e body link = record link {
  fingerprint = elim body.fingerprint [ none ↦ link.fingerprint | some s ↦ known_fingerprint e s ];
  alpn = elim body.alpn [ none ↦ link.alpn | some s ↦ cut 100 (strip s) ];
  port = if is_missing body.port then link.port else valid_port (number_or body.port link.port 443);
  ip_limit = number_or body.ip_limit link.ip_limit 0;
}

abbrev chosen_sni : Services → String → Result String
chosen_sni e s = optional e.normalize_sni s bad_sni

unfoldable pub write_exit : Option Exit → Link → Link
write_exit none link = link
write_exit (some exit) link = record link {
  exit_proxy_mode = exit.0;
  proxy_id = exit.1;
  custom_proxy = exit.2;
}

-- The locked section, in the order of the source.
unfoldable pub patch_writes : Services → ℕ → LinkPatch → Option Exit → List Writes
unfolding write_texts write_settings write_exit require optional or_text
patch_writes e now body exit =
    write (write_texts body)
    ∷ write_number body.limit_bytes (λ n link. record link { limit_bytes = n })
    ∷ write_number body.expires_days
        (λ n link. record link { expires_at = if leb n 0 then never else at (now + days * n) })
    ∷ write (write_settings e body)
    ∷ write_number body.speed_limit_bytes (λ n link. record link { speed_limit_bytes = n })
    ∷ write_name body.address (λ s. require (e.normalize_address (or_text s body.host)) bad_address)
        (λ s link. record link { address = s })
    ∷ write_name body.sni (chosen_sni e) (λ s link. record link { sni = s })
    ∷ write (write_exit exit)
    ∷ []

unfoldable pub write_patch : Services → ℕ → LinkPatch → Option Exit → Writes
unfolding patch_writes run_writes
write_patch e now body exit = run_writes (patch_writes e now body exit)

-- The group that the request names; "" is no group.
abbrev pub named_group : String → Option String
named_group s = if s == "" then none else some s

-- The config has been written in place; its group may change now.
unfoldable pub regroup : Option String → String → Link → Panel → Panel
unfolding move_link
regroup none uid link p = p
regroup (some sub_id) uid link p = move_link uid link (named_group sub_id) p

unfoldable pub patch_written :
    LinkPatch → String → Bool → Result (Unit {0}) × Link → Panel → Result (Unit {0}) × Panel
unfolding regroup finish_save
patch_written body uid saved (err e, link) p = (err e, record p { links = put uid link p.links })
patch_written body uid saved (ok u, link) p =
    finish_save saved tt (regroup body.sub_id uid link (record p { links = put uid link p.links }))

unfoldable pub patch_checked :
    Services
    → ℕ
    → String
    → LinkPatch
    → Bool
    → Link
    → Result (Option Exit)
    → Panel
    → Result (Unit {0}) × Panel
unfolding write_patch patch_written
patch_checked e now uid body saved link (err failure) p = (err failure, p)
patch_checked e now uid body saved link (ok exit) p =
    patch_written body uid saved (write_patch e now body exit link) p

unfoldable pub update_link :
    Services → ℕ → String → LinkPatch → Bool → Panel → Result (Unit {0}) × Panel
unfolding check_patch patch_checked
update_link e now uid body saved p = elim (get uid p.links) [
  | none ↦ (err not_found, p)
  | some link ↦ patch_checked e now uid body saved link (check_patch e link body p.subs) p
]
