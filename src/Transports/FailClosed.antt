-- ===== src/Transports/FailClosed.antt =====
-- Availability and parameters in the registry of transports.py.
use lumen_project_final.Prelude.{
  ◌≡◌, refl, Bool, true, false, not, ◌&&◌, ◌||◌, Option, none, some, String, arith,
}
use lumen_project_final.Prelude.Eq.{◌==◌, string_eq, ==_iff}
use lumen_project_final.Prelude.Text.{strip}
use lumen_project_final.Transports.{
  Runtime, Settings, Outcome, good, fault, Adapter, find, get_adapter, availability, settings_ok,
  is_available_adapter, is_available, adapter_parameters, parameters_of, vless_parameters,
}

abbrev pub is_good : {A : Type 0} → Outcome A → Bool
is_good (good a) = true
is_good (fault reason) = false

-- An adapter of the registry that is no Raw TCP runs only as the WebSocket.
has_serializer : Runtime → Option Adapter → Bool
has_serializer e none = true
has_serializer e (some a) = a.is_raw_tcp || not a.available || a.id == "vless-ws"

get_adapter-has_serializer : (e : Runtime) (id : String) → has_serializer e (get_adapter id) ≡ true
unfolding get_adapter find has_serializer
get_adapter-has_serializer e id = ground arith

parameters_of-is_good :
    (e : Runtime) (uuid host location_id : String) (settings : Settings) (o : Option Adapter)
    → has_serializer e o ≡ true
    → is_good (parameters_of e uuid host location_id settings o)
      ≡ (is_available_adapter e o && settings_ok settings)
unfolding parameters_of adapter_parameters is_available_adapter availability has_serializer
parameters_of-is_good e uuid host location_id settings none known = refl
parameters_of-is_good e uuid host location_id settings (some a) known = ground arith

-- Parameters come out exactly for a transport that can run and settings that it takes: the guard
-- against a transport without a serializer never strikes.
pub vless_parameters-is_good :
    (e : Runtime) (id uuid host location_id : String) (settings : Settings)
    → is_good (vless_parameters e id uuid host location_id settings)
      ≡ (is_available e id && settings_ok settings)
unfolding vless_parameters is_available
vless_parameters-is_good e id uuid host location_id settings =
    parameters_of-is_good e uuid host location_id settings (get_adapter id)
      (get_adapter-has_serializer e id)

-- Only the WebSocket always runs, and only Raw TCP may: every other transport is refused, whatever
-- the deployment.
pub is_available-only :
    (e : Runtime) (id : String)
    → is_available e id ≡ (strip id == "vless-ws" || strip id == "vless-tcp" && e.raw_tcp_available)
unfolding is_available get_adapter find is_available_adapter availability
is_available-only e id = ground (
  arith,
  ==_iff (strip id) "vless-ws",
  ==_iff (strip id) "vless-tcp",
  ==_iff "vless-ws" (strip id),
  ==_iff "vless-tcp" (strip id),
)
