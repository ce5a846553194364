-- ===== src/RawTcp.antt =====
-- The Raw TCP ingress (raw_tcp.py): the map from TLS names to locations, which endpoint a config for a
-- location gets, and which location a connection is for. Reading the environment, the files and
-- JSON, and the listener, are not modelled.
pub mod Profiles
use Prim.Native.Char.{Char}
use Prim.Native.String.{String}
use lumen_project_final.Prelude.{
  ℕ, ◌≡◌, Bool, true, false, not, ◌&&◌, ◌||◌, Option, none, some, List, [], ◌∷◌, if◌then◌else◌,
  is_some, leb, ltb, length,
}
use lumen_project_final.Prelude.Eq.{◌==◌, string_eq}
use lumen_project_final.Prelude.Dict.{Dict, get, put}
use lumen_project_final.Prelude.Member.{contains}
use lumen_project_final.Addresses.{Hostnames, normalize_sni}
use lumen_project_final.Prelude.Text.{strip, cut}

-- What config_address.py asks of its libraries, and Python's `str.isalnum`, to which `keeps` adds
-- "-" and "_".
pub record Names : Type 0 where
  pub hostnames : Hostnames
  pub keeps : Char → Bool

only_kept : (Char → Bool) → String → String
only_kept keeps String.[] = String.[]
only_kept keeps (String.◌∷◌ c s) =
    let rest = only_kept keeps s in if keeps c then String.◌∷◌ c rest else rest

-- `_safe_location_id`
unfoldable pub safe_location_id : Names → String → String
unfolding only_kept
safe_location_id e value = cut 24 (only_kept e.keeps value)

-- The checks on one row of the map: its location, `""` for the default.
unfoldable pub row_ok : String → String → String → List String → Dict String String → Bool
row_ok raw location name seen_locations sni_locations =
    not (not (strip raw == "") && location == "")
    && not (not (location == "") && contains location seen_locations)
    && not (is_some (get name sni_locations))

unfoldable pub seen_with : String → List String → List String
seen_with location seen = if location == "" then seen else location ∷ seen

-- The loop over the rows; `none` is its ValueError.
unfoldable pub read_row :
    Names
    → Option String
    → String
    → List String
    → Dict String String
    → Option (List String × Dict String String)
unfolding row_ok seen_with safe_location_id
read_row e none raw seen sni_locations = none
read_row e (some name) raw seen sni_locations =
    let location = safe_location_id e raw in
    if row_ok raw location name seen sni_locations
    then some (seen_with location seen, put name location sni_locations)
    else none

unfoldable pub read_rows :
    Names
    → List (String × String)
    → Option (List String × Dict String String)
    → Option (Dict String String)
unfolding read_row
read_rows e rows none = none
read_rows e [] (some read) = some read.1
read_rows e ((raw_name, raw_location) ∷ rows) (some read) =
    read_rows e rows (read_row e (normalize_sni e.hostnames raw_name) raw_location read.0 read.1)

pub record Deployment : Type 0 where
  pub public_host : String
  pub public_port : ℕ
  pub sni_locations : Dict String String
  pub default_sni : String

unfoldable pub is_default : Option String → Bool
is_default none = false
is_default (some location) = location == ""

-- The default name has to be a row of the map with the empty location.
unfoldable pub deployed :
    Names → String → ℕ → Option String → Option (Dict String String) → Option Deployment
unfolding is_default
deployed e host port (some default) (some rows) =
    if is_default (get default rows)
    then some (record {
      public_host = host;
      public_port = port;
      sni_locations = rows;
      default_sni = default;
    })
    else none
deployed e host port _ _ = none

-- The part of `deployment` after the environment was read and the files were found.
unfoldable pub deployment : Names → String → ℕ → String → List (String × String) → Option Deployment
unfolding read_rows deployed
deployment e host port default_name rows =
    deployed e host port (normalize_sni e.hostnames default_name) (read_rows e rows (some ([], [])))

unfoldable pub names_for : String → Dict String String → List String
names_for location [] = []
names_for location ((name, mapped) ∷ rows) =
    let rest = names_for location rows in if mapped == location then name ∷ rest else rest

unfoldable pub only_one : List String → Option String
only_one (name ∷ []) = some name
only_one _ = none

-- The TLS name of `endpoint_for_location`; `none` is its ValueError.
unfoldable pub sni_for : Names → String → Deployment → Option String
unfolding only_one names_for safe_location_id
sni_for e location_id d =
    let location = safe_location_id e location_id in
    if location == "" then some d.default_sni else only_one (names_for location d.sni_locations)

unfoldable pub located : Option String → Dict String String → Option String
located none rows = none
located (some name) rows = get name rows

-- `location_for_sni`
unfoldable pub location_for_sni : Names → String → Deployment → Option String
unfolding located
location_for_sni e server_name d = located (normalize_sni e.hostnames server_name) d.sni_locations
