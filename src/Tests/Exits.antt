-- ===== src/Tests/Exits.antt =====
-- The theorems on the proxy catalogue and on Multi-Location, at a group with two locations.
use lumen_project_final.Prelude.{◌≡◌, refl, String, true, false, none, some, List, [], ◌∷◌, length}
use lumen_project_final.Prelude.Eq.{string_eq}
use lumen_project_final.Prelude.Dict.{Dict, get}
use lumen_project_final.Prelude.Member.{contains, distinct}
use lumen_project_final.Prelude.Text.{strip, cut, is_space}
use lumen_project_final.Countries.{
  Casing, normalize_country, is_valid_code, flag_for, country_name, is_code_shape,
}
use lumen_project_final.Repository.{
  Library, Port, Record, Repository, Fetched, parse_text, refresh, get_record,
}
use lumen_project_final.Repository.Metadata.{
  read_metadata, starts_with, split_last_hash, before_hash,
}
use lumen_project_final.Repository.Catalogue.{IsRefreshed, refresh-IsRefreshed}
use lumen_project_final.Panel.{Expiry, Location, MultiLocation, Link, Sub}
use lumen_project_final.Panel.Access.{multi_location_for_link}
use lumen_project_final.Exits.{
  World, Entry, Payload, good, validate_multi_location, resolve_exit_selection, Unavailable,
  unavailable,
}
use lumen_project_final.Exits.Exact.{Among, OnlyExact, resolve_exit_selection-OnlyExact}
use lumen_project_final.Exits.Validated.{
  IsSelected, location_ids, location_codes, validate_multi_location-IsSelected,
}

abbrev casing : Casing
casing = record { upper = λ s. s; casefold = λ s. s }

-- Every text here is the URL of one host.
abbrev pub library : Library
library = record {
  urlsplit = λ s. some record {
    scheme = "socks5";
    netloc = s;
    hostname = some s;
    port = Port.port 1080;
    path = "";
    query = "";
  };
  identity = λ s. s;
  lower = λ s. s;
  casing = casing;
}

abbrev lines : List String
lines = "a#FI - 80%" ∷ "; a comment" ∷ "b#DE - 70%" ∷ "a#FI - 10%" ∷ "c without metadata" ∷ []

abbrev pub empty : Repository
empty = record { records = []; last = 0; error = "not loaded" }

abbrev catalogue : Repository
catalogue = refresh true 50 (Fetched.rows (parse_text library lines)) empty

two_entries : length (parse_text library lines) ≡ 2
unfolding parse_text contains strip cut is_space read_metadata normalize_country country_name
    flag_for is_code_shape get starts_with split_last_hash before_hash
two_entries = refl

reads_metadata : read_metadata "Finland - 83 %" ≡ some ("Finland", 83)
unfolding read_metadata is_space cut
reads_metadata = refl

needs_name : read_metadata "- 83%" ≡ none
unfolding read_metadata is_space
needs_name = refl

refresh-IsRefreshed_example : IsRefreshed library (parse_text library lines) empty catalogue
refresh-IsRefreshed_example = refresh-IsRefreshed library lines 50 empty

-- A failed refresh keeps the catalogue.
kept : (refresh true 99 (Fetched.broken "timeout") catalogue).records ≡ catalogue.records
unfolding refresh
kept = refl

abbrev listed : String → String → Record
listed i c = record {
  id = i;
  endpoint = i;
  kind = "socks5";
  country = c;
  code = c;
  flag = c;
  health = 50;
}

abbrev world : World
world = record {
  library = library;
  repository = record {
    records = ("a", listed "a" "FI") ∷ ("b", listed "b" "DE") ∷ [];
    last = 50;
    error = "";
  };
  tests = [];
  preferred = [];
  now = 10;
  open_receipt = λ s. none;
  fingerprint = λ s. s;
  printable = λ c. true;
}

abbrev entry : String → String → String → Entry
entry i c p = record { code = c; country = ""; id = i; fresh_id = "z"; proxy_id = p; receipt = "" }

abbrev payload : Payload
payload = record {
  enabled = true;
  remark_text = "home";
  selection_mode = "";
  locations = some (some (entry "l1" "FI" "a") ∷ some (entry "l2" "DE" "b") ∷ []);
}

abbrev finland : Location
finland = record {
  id = "l1";
  code = "FI";
  country = "Finland";
  flag = "🇫🇮";
  proxy_id = "a";
  active = true;
}

abbrev germany : Location
germany = record {
  id = "l2";
  code = "DE";
  country = "Germany";
  flag = "🇩🇪";
  proxy_id = "b";
  active = true;
}

abbrev accepted : MultiLocation
accepted = record {
  enabled = true;
  remark_text = "home";
  selection_mode = "explicit";
  locations = finland ∷ germany ∷ [];
}

accepts : validate_multi_location world payload none false ≡ good accepted
unfolding validate_multi_location strip cut is_space contains normalize_country is_valid_code
    country_name flag_for get is_code_shape get_record
accepts = refl

abbrev link : Link
link = record {
  label = "x";
  limit_bytes = 0;
  used_bytes = 0;
  created_at = 0;
  active = true;
  expires_at = Expiry.never;
  note = "";
  remark = "";
  is_default = false;
  sub_id = some "g";
  protocol = "vless-ws";
  fingerprint = "";
  alpn = "";
  port = 443;
  ip_limit = 0;
  speed_limit_bytes = 0;
  address = "";
  sni = "";
  exit_proxy_mode = "direct";
  proxy_id = "";
  custom_proxy = "";
}

abbrev groups : Dict String Sub
groups =
    (
      "g",
      record {
        name = "g";
        desc = "";
        password_hash = none;
        uuid_key = "k";
        created_at = 0;
        link_ids = "u" ∷ [];
        multi_location = accepted;
      },
    )
    ∷ []

in_group : multi_location_for_link link groups ≡ some accepted
unfolding multi_location_for_link get
in_group = refl

trimmed : strip "l1" ≡ "l1"
unfolding strip is_space
trimmed = refl

validate_multi_location-IsSelected_example :
    IsSelected finland
      (get_record "a" world.repository)
      (resolve_exit_selection world false (some link) groups "l1")
    × (length accepted.locations ≡ 2)
    × (distinct (location_ids accepted.locations) ≡ true)
    × (distinct (location_codes accepted.locations) ≡ true)
validate_multi_location-IsSelected_example =
    validate_multi_location-IsSelected world payload none false accepted link groups finland refl
      accepts refl in_group (Among.here (germany ∷ [])) trimmed refl

resolve_exit_selection-OnlyExact_example :
    OnlyExact world accepted "l2" (resolve_exit_selection world false (some link) groups "l2")
resolve_exit_selection-OnlyExact_example =
    resolve_exit_selection-OnlyExact world false link groups "l2" accepted in_group

-- A location that the group does not have is refused, not replaced.
refuses_other :
    resolve_exit_selection world false (some link) groups "l3"
    ≡ unavailable Unavailable.bad_location
unfolding resolve_exit_selection multi_location_for_link get strip is_space
refuses_other = refl

-- An identity is cut after it is trimmed, so that a space can be left at its end; a request is trimmed
-- before it is compared.
spaced_id : cut 24 (strip "aaaaaaaaaaaaaaaaaaaaaaa bb") ≡ "aaaaaaaaaaaaaaaaaaaaaaa "
unfolding cut strip is_space
spaced_id = refl
