-- ===== src/Repository.antt =====
-- The catalogue of managed proxies (proxy_repository.py): URLs, proxy.txt, lookup and refresh.
-- The hash, `urlsplit` and the transfer from S3 are arguments.
pub mod Metadata
pub mod Catalogue
use Prim.Native.Char.{code}
use Prim.Native.String as Text
use lumen_project_final.Prelude.{
  ℕ, ◌+◌, ◌-◌, min, String, Bool, true, false, not, ◌&&◌, ◌||◌, Option, none, some, List, [], ◌∷◌,
  map, leb, ltb, nat_eqb, is_some, if◌then◌else◌,
}
use lumen_project_final.Prelude.Eq.{◌==◌, string_eq}
use lumen_project_final.Prelude.Dict.{Dict, get, put}
use lumen_project_final.Prelude.Member.{contains}
use lumen_project_final.Prelude.Text.{cut, strip}
use lumen_project_final.Countries.{Casing, normalize_country, flag_for}
use lumen_project_final.Repository.Metadata.{
  read_metadata, split_last_hash, before_hash, starts_with,
}

-- What `urlsplit` reads; a port that is no number, or above 65535, is `bad_port`.
pub data Port : Type 0 where
  bad_port no_port : Port
  port : ℕ → Port

pub record Url : Type 0 where
  pub scheme : String
  pub netloc : String
  pub hostname : Option String
  pub port : Port
  pub path : String
  pub query : String

pub record Record : Type 0 where
  pub id : String
  pub endpoint : String
  pub kind : String
  pub country : String
  pub code : String
  pub flag : String
  pub health : ℕ

-- `urlsplit`, `none` where it raises; `sha256(salt + endpoint)[:24]`; `str.lower`; and the cases.
pub record Library : Type 0 where
  pub urlsplit : String → Option Url
  pub identity : String → String
  pub lower : String → String
  pub casing : Casing

abbrev pub allowed_schemes : List String
allowed_schemes = "http" ∷ "https" ∷ "socks5" ∷ []

abbrev pub max_proxies : ℕ
max_proxies = 1000

unfoldable pub port_in_range : Port → Bool
port_in_range (port p) = leb 1 p && leb p 65535
port_in_range _ = false

-- `bool(parsed.hostname)`
abbrev has_host : Option String → Bool
has_host none = false
has_host (some h) = not (h == "")

module _ (lib : Library) where
  -- `urlunsplit` of a scheme and a network location
  abbrev pub endpoint_of : Url → String
  endpoint_of u = Text.◌++◌ (lib.lower u.scheme) (Text.◌++◌ "://" u.netloc)

  unfoldable pub checked_url : Option Url → Option String
  unfolding port_in_range
  checked_url none = none
  checked_url (some u) =
      if not (contains (lib.lower u.scheme) allowed_schemes)
      then none
      else if not (has_host u.hostname)
      then none
      else if not (port_in_range u.port)
      then none
      else if not (u.path == "" || u.path == "/") || not (u.query == "")
      then none
      else some (endpoint_of u)

  -- `validate_url`, `none` where it raises
  unfoldable pub validate_url : String → Option String
  unfolding checked_url
  validate_url value = checked_url (lib.urlsplit (strip (before_hash value)))

  -- `urlsplit(endpoint).scheme`
  abbrev scheme_of : Option Url → String
  scheme_of none = ""
  scheme_of (some u) = u.scheme

  unfoldable pub make_record : String → String → ℕ → Record
  make_record endpoint country_text health = record {
    id = lib.identity endpoint;
    endpoint = endpoint;
    kind = scheme_of (lib.urlsplit endpoint);
    country = (normalize_country lib.casing country_text).0;
    code = (normalize_country lib.casing country_text).1;
    flag = flag_for lib.casing (normalize_country lib.casing country_text).1;
    health = min 100 health;
  }

  unfoldable pub with_endpoint : List String → String → ℕ → Option String → Option Record
  unfolding make_record
  with_endpoint seen country_text health none = none
  with_endpoint seen country_text health (some endpoint) =
      if contains (lib.identity endpoint) seen
      then none
      else some (make_record endpoint country_text health)

  unfoldable pub with_metadata : List String → String → Option (String × ℕ) → Option Record
  unfolding with_endpoint validate_url
  with_metadata seen raw none = none
  with_metadata seen raw (some (country_text, health)) =
      with_endpoint seen country_text health (validate_url raw)

  unfoldable pub split_line : List String → Option (String × String) → Option Record
  unfolding with_metadata
  split_line seen none = none
  split_line seen (some (raw, suffix)) = with_metadata seen raw (read_metadata (strip suffix))

  -- One line of proxy.txt: a record with an identity not seen before, or nothing.
  unfoldable pub parse_line : List String → String → Option Record
  unfolding split_line
  parse_line seen source_line =
      let text = strip source_line in
      if text == "" || starts_with ";" text || starts_with "//" text
      then none
      else split_line seen (split_last_hash text)

  -- The loop of `parse_text` over the lines; `left` is how many records still fit.
  unfoldable pub parse_lines : List String → List String → ℕ → List Record
  unfolding parse_line
  parse_lines [] seen left = []
  parse_lines (l ∷ ls) seen left = elim (parse_line seen l) [
    | none ↦ parse_lines ls seen left
    | some r ↦ elim (leb left 1) [
      | true ↦ r ∷ []
      | false ↦ r ∷ parse_lines ls (r.id ∷ seen) (left - 1)
    ]
  ]

  unfoldable pub parse_text : List String → List Record
  unfolding parse_lines
  parse_text lines = parse_lines lines [] max_proxies

-- `{row.id: row for row in rows}`, into a dictionary: a later row replaces an earlier one.
unfoldable pub index_rows : Dict String Record → List Record → Dict String Record
index_rows acc [] = acc
index_rows acc (r ∷ rs) = index_rows (put r.id r acc) rs

-- The module's variables; `last` is a time, 0 before the first fetch, and "" no error.
pub record Repository : Type 0 where
  pub records : Dict String Record
  pub last : ℕ
  pub error : String

abbrev pub refresh_seconds : ℕ
refresh_seconds = 7200

abbrev has_records : Dict String Record → Bool
has_records [] = false
has_records (x ∷ xs) = true

-- What the fetch and the parse gave, or the text of the exception.
pub data Fetched : Type 0 where
  rows : List Record → Fetched
  broken : String → Fetched

-- Only a catalogue that is not empty replaces the last known-good one.
unfoldable pub take_rows : ℕ → Fetched → Repository → Repository
unfolding index_rows
take_rows now (broken message) r = record r { error = cut 200 message }
take_rows now (rows []) r = record r { error = "repository has no valid proxies" }
take_rows now (rows (x ∷ xs)) r = record {
  records = index_rows [] (x ∷ xs);
  last = now;
  error = "";
}

unfoldable pub refresh : Bool → ℕ → Fetched → Repository → Repository
unfolding take_rows
refresh is_forced now fetched r =
    if not is_forced && (has_records r.records && ltb (now - r.last) refresh_seconds)
    then r
    else take_rows now fetched r

-- `get_record`, and `resolve`, which reads the cache as it does.
unfoldable pub get_record : String → Repository → Option Record
get_record proxy_id r = get proxy_id r.records

pub data CatalogueState : Type 0 where
  unconfigured stale ready error loading : CatalogueState

unfoldable pub catalogue_state : Bool → Repository → CatalogueState
catalogue_state is_configured r =
    if not is_configured
    then unconfigured
    else if has_records r.records
    then (if r.error == "" then ready else stale)
    else if not (r.error == "") && not (r.error == "not loaded")
    then error
    else loading

-- `records_for_country`: with no code, all of them
unfoldable pub records_for_country : String → Dict String Record → List Record
records_for_country code [] = []
records_for_country code ((k, r) ∷ rest) =
    let more = records_for_country code rest in
    if code == "" || r.code == code then r ∷ more else more

-- `resolve_many`: the records of known ids, in order
unfoldable pub resolve_many : List String → Repository → List Record
unfolding get_record
resolve_many [] r = []
resolve_many (i ∷ is) r =
    let more = resolve_many is r in elim (get_record i r) [ none ↦ more | some x ↦ x ∷ more ]
