-- ===== src/Transports.antt =====
-- The registry of transports (transports.py): which ones can run, and the VLESS parameters that a
-- config gets. A settings object is seen by whether it is empty; texts for the page are left out.
pub mod FailClosed
use Prim.Native.String.{◌++◌}
use lumen_project_final.Prelude.{
  Bool, true, false, not, ◌&&◌, ◌||◌, Option, none, some, String, List, [], ◌∷◌, if◌then◌else◌,
}
use lumen_project_final.Prelude.Eq.{◌==◌, string_eq}
use lumen_project_final.Prelude.Text.{strip}

-- What the registry asks of raw_tcp.py (its `availability()` and the network of its URIs), of
-- `_safe_location_id` and of Python's `str.lower`.
pub record Runtime : Type 0 where
  pub raw_tcp_available : Bool
  pub uri_network : String
  pub safe_location : String → String
  pub lower : String → String

pub data Settings : Type 0 where
  missing empty_object filled_object other_value : Settings

pub data Fault : Type 0 where
  unknown_transport unavailable no_serializer bad_settings bad_security : Fault

pub data Outcome (A : Type 0) : Type 0 where
  good : A → Outcome A
  fault : Fault → Outcome A

pub record Adapter : Type 0 where
  pub id : String
  pub available : Bool
  pub is_raw_tcp : Bool

abbrev pub adapters : List Adapter
adapters =
    record { id = "vless-ws"; available = true; is_raw_tcp = false }
    ∷ record { id = "vless-tcp"; available = false; is_raw_tcp = true }
    ∷ record { id = "vless-grpc"; available = false; is_raw_tcp = false }
    ∷ record { id = "vless-kcp"; available = false; is_raw_tcp = false }
    ∷ record { id = "vless-httpupgrade"; available = false; is_raw_tcp = false }
    ∷ []

unfoldable pub find : String → List Adapter → Option Adapter
find id [] = none
find id (a ∷ rest) = if a.id == id then some a else find id rest

-- `TransportRegistry.get`
unfoldable pub get_adapter : String → Option Adapter
unfolding find
get_adapter transport_id = find (strip transport_id) adapters

-- `availability`, which the Raw TCP adapter asks of its listener.
unfoldable pub availability : Runtime → Adapter → Bool
availability e a = if a.is_raw_tcp then e.raw_tcp_available else a.available

-- `validate_settings` of either adapter.
unfoldable pub settings_ok : Settings → Bool
settings_ok missing = true
settings_ok empty_object = true
settings_ok _ = false

unfoldable pub is_available_adapter : Runtime → Option Adapter → Bool
unfolding availability
is_available_adapter e none = false
is_available_adapter e (some a) = availability e a

-- `is_available`
unfoldable pub is_available : Runtime → String → Bool
unfolding get_adapter is_available_adapter
is_available e transport_id = is_available_adapter e (get_adapter transport_id)

unfoldable pub validate_adapter : Runtime → Settings → Option Adapter → Outcome String
unfolding availability settings_ok
validate_adapter e settings none = fault unknown_transport
validate_adapter e settings (some a) =
    if not (availability e a)
    then fault unavailable
    else if settings_ok settings
    then good a.id
    else fault bad_settings

-- `validate`
unfoldable pub validate : Runtime → String → Settings → Outcome String
unfolding get_adapter validate_adapter
validate e transport_id settings = validate_adapter e settings (get_adapter transport_id)

unfoldable pub security_checked : Runtime → Option String → Outcome String
security_checked e value =
    let security = e.lower (strip (elim value [ none ↦ "tls" | some text ↦ text ])) in
    if security == "tls" then good security else fault bad_security

unfoldable pub security_of : Runtime → Option String → Option Adapter → Outcome String
unfolding availability security_checked
security_of e value none = fault unknown_transport
security_of e value (some a) =
    if availability e a then security_checked e value else fault unavailable

-- `validate_security`
unfoldable pub validate_security : Runtime → String → Option String → Outcome String
unfolding get_adapter security_of
validate_security e transport_id value = security_of e value (get_adapter transport_id)

-- The parameters of a VLESS URI: a WebSocket's host and path, or the network of Raw TCP.
pub data Parameters : Type 0 where
  ws : String → String → Parameters
  raw : String → Parameters

unfoldable pub ws_path : Runtime → String → String → String
ws_path e uuid location_id =
    let location = e.safe_location location_id in
    let path = "/ws/" ++ uuid ++ "?ed=4096" in
    if location == "" then path else path ++ "&loc=" ++ location

-- `vless_parameters` of the two kinds of adapters.
unfoldable pub adapter_parameters :
    Runtime → String → String → String → Adapter → Outcome Parameters
unfolding ws_path
adapter_parameters e uuid host location_id a =
    if a.is_raw_tcp
    then good (raw e.uri_network)
    else if a.id == "vless-ws"
    then good (ws host (ws_path e uuid location_id))
    else fault no_serializer

unfoldable pub parameters_of :
    Runtime → String → String → String → Settings → Option Adapter → Outcome Parameters
unfolding availability settings_ok adapter_parameters
parameters_of e uuid host location_id settings none = fault unknown_transport
parameters_of e uuid host location_id settings (some a) =
    if not (availability e a)
    then fault unavailable
    else if settings_ok settings
    then adapter_parameters e uuid host location_id a
    else fault bad_settings

-- `TransportRegistry.vless_parameters`
unfoldable pub vless_parameters :
    Runtime → String → String → String → String → Settings → Outcome Parameters
unfolding get_adapter parameters_of
vless_parameters e transport_id uuid host location_id settings =
    parameters_of e uuid host location_id settings (get_adapter transport_id)
