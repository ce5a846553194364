-- ===== src/Outbound.antt =====
-- The way of a session to its target (outbound.py): which endpoint, and what becomes of a try. The
-- network's answer to a dial is an argument.
pub mod Socks
use lumen_project_final.Prelude.{
  ℕ, ◌+◌, ◌-◌, ◌*◌, ◌^◌, min, String, Bool, false, not, ◌&&◌, ◌||◌, Option, none, some, List, [],
  ◌∷◌, if◌then◌else◌, leb, ltb, length, take,
}
use lumen_project_final.Prelude.Eq.{◌==◌, string_eq}
use lumen_project_final.Prelude.Dict.{Dict, get, put, remove}
use lumen_project_final.Prelude.Member.{add_once}
use lumen_project_final.Panel.{Link}
use lumen_project_final.Repository.{Record, validate_url, get_record}
use lumen_project_final.Exits.{World, or_text}

-- A proxy that failed: how often in a row, and until when it cools down (milliseconds).
pub record Cooling : Type 0 where
  pub fails : ℕ
  pub until : ℕ

abbrev pub Health : Type 0
Health = Dict String Cooling

abbrev pub failure_base : ℕ
failure_base = 10_000

abbrev pub failure_max : ℕ
failure_max = 300_000

abbrev pub max_health : ℕ
max_health = 4096

abbrev pub evicted : ℕ
evicted = 512

unfoldable pub record_proxy_success : String → Health → Health
record_proxy_success endpoint health = remove endpoint health

abbrev fails_of : Option Cooling → ℕ
fails_of none = 0
fails_of (some c) = c.fails

unfoldable pub failed_again : ℕ → Option Cooling → Cooling
failed_again now before =
    let fails = min (fails_of before + 1) 8 in
    record { fails = fails; until = now + min (failure_base * 2 ^ (fails - 1)) failure_max }

-- `sorted` by the end of the cooldown, as far as the endpoints are needed
unfoldable pub insert_by_until : String × Cooling → Health → Health
insert_by_until entry [] = entry ∷ []
insert_by_until entry (e ∷ es) =
    let rest = insert_by_until entry es in
    if leb entry.1.until e.1.until then entry ∷ e ∷ es else e ∷ rest

unfoldable pub sort_by_until : Health → Health
unfolding insert_by_until
sort_by_until [] = []
sort_by_until (e ∷ es) = insert_by_until e (sort_by_until es)

unfoldable pub drop_entries : Health → Health → Health
drop_entries [] health = health
drop_entries (e ∷ es) health = drop_entries es (remove e.0 health)

unfoldable pub bounded : Health → Health
unfolding sort_by_until drop_entries
bounded health =
    if ltb max_health (length health)
    then drop_entries (take evicted (sort_by_until health)) health
    else health

unfoldable pub record_proxy_failure : String → ℕ → Health → Health
unfolding failed_again bounded
record_proxy_failure endpoint now health =
    bounded (put endpoint (failed_again now (get endpoint health)) health)

unfoldable pub link_uses_proxy : Option Link → Bool
link_uses_proxy none = false
link_uses_proxy (some link) =
    (or_text link.exit_proxy_mode "direct" == "repository" && not (link.proxy_id == ""))
    || (or_text link.exit_proxy_mode "direct" == "custom" && not (link.custom_proxy == ""))

-- `_endpoint_from_link`: it raises, or gives an endpoint or none.
pub data Endpoint : Type 0 where
  unresolved : Endpoint
  resolved : Option String → Endpoint

abbrev from_record : Option Record → Endpoint
from_record none = unresolved
from_record (some r) = resolved (some r.endpoint)

abbrev from_url : Option String → Endpoint
from_url none = unresolved
from_url (some e) = resolved (some e)

unfoldable pub endpoint_from_link : World → Option Link → Endpoint
endpoint_from_link w none = resolved none
endpoint_from_link w (some link) =
    if or_text link.exit_proxy_mode "direct" == "repository"
    then from_record (get_record link.proxy_id w.repository)
    else if or_text link.exit_proxy_mode "direct" == "custom"
    then from_url (validate_url w.library link.custom_proxy)
    else resolved none

-- The endpoints without the empty ones and repetitions, in order
unfoldable pub exact_endpoints : List String → List String → List String
exact_endpoints found [] = found
exact_endpoints found (e ∷ es) =
    if e == "" then exact_endpoints found es else exact_endpoints (add_once e found) es

-- How `open_outbound` ends: a connection, directly or by an endpoint, or an error. An error of the
-- class `ProxyUnavailableError` comes before any dial.
pub data Opened : Type 0 where
  direct : Opened
  via : String → Opened
  unavailable too_many : Opened
  unreachable : Opened
  failed_closed : String → Opened

unfoldable pub open_direct : Option Link → Bool → Health → Opened × Health
unfolding link_uses_proxy
open_direct link reached health =
    if link_uses_proxy link
    then (unavailable, health)
    else if reached
    then (direct, health)
    else (unreachable, health)

unfoldable pub open_via : String → Bool → ℕ → Health → Opened × Health
unfolding record_proxy_success record_proxy_failure
open_via endpoint reached now health =
    if reached
    then (via endpoint, record_proxy_success endpoint health)
    else (failed_closed endpoint, record_proxy_failure endpoint now health)

unfoldable pub open_exact : Option Link → List String → Bool → ℕ → Health → Opened × Health
unfolding open_direct open_via
open_exact link [] reached now health = open_direct link reached health
open_exact link (endpoint ∷ []) reached now health = open_via endpoint reached now health
open_exact link (endpoint ∷ other ∷ rest) reached now health = (too_many, health)

abbrev as_list : Option String → List String
as_list none = []
as_list (some e) = if e == "" then [] else e ∷ []

unfoldable pub open_from_link : Option Link → Endpoint → Bool → ℕ → Health → Opened × Health
unfolding open_exact exact_endpoints
open_from_link link unresolved reached now health = (unavailable, health)
open_from_link link (resolved e) reached now health =
    open_exact link (exact_endpoints [] (as_list e)) reached now health

-- `open_outbound`; endpoints that are not given come from the config. `reached` is whether the dial
-- that follows, to the target or by the endpoint, succeeds.
unfoldable pub open_outbound :
    World → Option Link → Option (List String) → Bool → ℕ → Health → Opened × Health
unfolding open_from_link endpoint_from_link open_exact exact_endpoints
open_outbound w link none reached now health =
    open_from_link link (endpoint_from_link w link) reached now health
open_outbound w link (some endpoints) reached now health =
    open_exact link (exact_endpoints [] endpoints) reached now health
