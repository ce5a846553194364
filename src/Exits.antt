-- ===== src/Exits.antt =====
-- Where a session leaves (main.py): proxy test receipts, `validate_multi_location`, and
-- `resolve_exit_selection`, which picks one proxy and never another.
pub mod Exact
pub mod Validated
use Prim.Native.Char.{code}
use lumen_project_final.Prelude.{
  ℕ, ◌+◌, String, Bool, true, false, not, ◌&&◌, ◌||◌, Option, none, some, List, [], ◌∷◌, length,
  leb, nat_eqb, or_else, if◌then◌else◌,
}
use lumen_project_final.Prelude.Eq.{◌==◌, string_eq}
use lumen_project_final.Prelude.Dict.{Dict, get, put}
use lumen_project_final.Prelude.Member.{contains}
use lumen_project_final.Prelude.Text.{strip, cut}
use lumen_project_final.Countries.{Casing, normalize_country, is_valid_code, country_name, flag_for}
use lumen_project_final.Repository.{Library, Record, Repository, get_record, validate_url}
use lumen_project_final.Ranking.{Report, current_healthy}
use lumen_project_final.Panel.{Location, MultiLocation, Link, Sub}
use lumen_project_final.Panel.Access.{multi_location_for_link}

-- A receipt whose signature is right, decoded.
pub record Receipt : Type 0 where
  pub proxy_id : String
  pub endpoint : String
  pub expires : ℕ

-- What these operations read: the catalogue, the last tests, the preferred proxies and the time; and
-- of the libraries, opening a signed receipt, the hash of an endpoint and `str.isprintable`.
pub record World : Type 0 where
  pub library : Library
  pub repository : Repository
  pub tests : Dict String Report
  pub preferred : Dict String String
  pub now : ℕ
  pub open_receipt : String → Option Receipt
  pub fingerprint : String → String
  pub printable : ℕ → Bool

-- `issue_proxy_test_receipt`, before it is signed
abbrev pub receipt_ttl : ℕ
receipt_ttl = 600

unfoldable pub issue_receipt : World → Record → Receipt
issue_receipt w r = record {
  proxy_id = r.id;
  endpoint = w.fingerprint r.endpoint;
  expires = w.now + receipt_ttl;
}

abbrev receipt_matches : World → Option Record → Receipt → Bool
receipt_matches w none p = false
receipt_matches w (some r) p =
    p.proxy_id == r.id && (p.endpoint == w.fingerprint r.endpoint && leb w.now p.expires)

abbrev opened_matches : World → Option Record → Option Receipt → Bool
opened_matches w r none = false
opened_matches w r (some p) = receipt_matches w r p

unfoldable pub verify_receipt : World → String → String → Bool
verify_receipt w proxy_id receipt =
    opened_matches w (get_record proxy_id w.repository) (w.open_receipt receipt)

abbrev is_present_healthy : World → String → String → Option Record → Bool
is_present_healthy w country proxy_id none = false
is_present_healthy w country proxy_id (some r) =
    r.code == country && current_healthy (get proxy_id w.tests)

-- `current_preferred_proxy_by_country`
unfoldable pub current_preferred : World → Dict String String → Dict String String
current_preferred w [] = []
current_preferred w ((country, proxy_id) ∷ rest) =
    let more = current_preferred w rest in
    if is_present_healthy w country proxy_id (get_record proxy_id w.repository)
    then (country, proxy_id) ∷ more
    else more

abbrev pub or_text : String → String → String
or_text a b = if a == "" then b else a

only_printable : (ℕ → Bool) → String → String
only_printable p String.[] = String.[]
only_printable p (String.◌∷◌ c s) =
    let rest = only_printable p s in if p (code c) then String.◌∷◌ c rest else rest

unfoldable pub sanitize_remark_text : World → String → String
unfolding only_printable
sanitize_remark_text w value = cut 60 (only_printable w.printable (strip value))

-- One entry of the request; `fresh_id` is what `token_urlsafe` would give.
pub record Entry : Type 0 where
  pub code : String
  pub country : String
  pub id : String
  pub fresh_id : String
  pub proxy_id : String
  pub receipt : String

-- The request; what is no list, or an entry that is no object, is `none`.
pub record Payload : Type 0 where
  pub enabled : Bool
  pub remark_text : String
  pub selection_mode : String
  pub locations : Option (List (Option Entry))

pub data Refusal : Type 0 where
  bad_mode not_a_list not_two neither_zero_nor_two not_an_object : Refusal
  bad_country same_country same_id no_preferred proxy_gone wrong_country untested : Refusal

pub data Checked {ℓ} (A : Type ℓ) : Type ℓ where
  bad : Refusal → Checked A
  good : A → Checked A

infixl 5 ◌>>=◌ ◌>>◌
abbrev pub ◌>>=◌ {ℓ κ} : {A : Type ℓ} {B : Type κ} → Checked A → (A → Checked B) → Checked B
bad e >>= f = bad e
good a >>= f = f a

abbrev pub ◌>>◌ {ℓ} : {B : Type ℓ} → Checked (Unit {0}) → Checked B → Checked B
m >> k = m >>= λ _. k

abbrev pub refuse_if : Bool → Refusal → Checked (Unit {0})
refuse_if true e = bad e
refuse_if false e = good tt

-- The selection modes that a group may have
abbrev pub explicit : String
explicit = "explicit"

abbrev pub country_preferred : String
country_preferred = "country_preferred"

index_locations : Dict String Location → List Location → Dict String Location
index_locations acc [] = acc
index_locations acc (l ∷ ls) = index_locations (put l.id l acc) ls

abbrev locations_of : Option MultiLocation → List Location
locations_of none = []
locations_of (some ml) = ml.locations

abbrev mode_of : Option MultiLocation → String
mode_of none = ""
mode_of (some ml) = ml.selection_mode

abbrev is_changed : Option Location → String → String → Bool
is_changed none proxy_id country = true
is_changed (some old) proxy_id country = not (old.proxy_id == proxy_id) || not (old.code == country)

-- What all entries of one request share
pub record Request : Type 0 where
  pub mode : String
  pub previous : Dict String Location
  pub require_tests : Bool

abbrev pub is_no_mode : String → Bool
is_no_mode mode = not (mode == explicit) && not (mode == country_preferred)

-- The named proxy is in the catalogue, with the country asked for.
unfoldable pub proxy_of_country : Refusal → Refusal → String → Option Record → Checked (Unit {0})
proxy_of_country gone wrong country none = bad gone
proxy_of_country gone wrong country (some r) = refuse_if (not (r.code == country)) wrong

module _ (w : World) where
  unfoldable pub choose_proxy : String → String → String → Checked String
  unfolding proxy_of_country current_preferred
  choose_proxy mode country proxy_id =
      let preferred = or_else (get country (current_preferred w w.preferred)) "" in
      if mode == country_preferred
      then proxy_of_country no_preferred no_preferred country (get_record preferred w.repository)
        >> good preferred
      else proxy_of_country proxy_gone wrong_country country
          (get_record (strip proxy_id) w.repository)
        >> good (strip proxy_id)

  abbrev pub location_id : Entry → String
  location_id e = or_text (cut 24 (strip e.id)) e.fresh_id

  abbrev pub country_of : Entry → String
  country_of e = (normalize_country w.library.casing (or_text e.code e.country)).1

  -- A new choice of a proxy needs a receipt of its test, if tests are asked for.
  unfoldable pub is_untested : Request → Entry → String → String → Bool
  unfolding verify_receipt
  is_untested q e country proxy_id =
      q.require_tests
      && (is_changed (get (location_id e) q.previous) proxy_id country && q.mode == explicit)
      && not (verify_receipt w proxy_id e.receipt)

  unfoldable pub store_location : Request → Entry → String → String → Checked Location
  unfolding is_untested
  store_location q e country proxy_id =
      refuse_if (is_untested q e country proxy_id) untested
      >> good record {
        id = location_id e;
        code = country;
        country = country_name w.library.casing country;
        flag = flag_for w.library.casing country;
        proxy_id = proxy_id;
        active = true;
      }

  -- With a country that is valid: it and the identity are new, and its proxy is chosen.
  unfoldable pub check_country :
      Request → List String → List String → Entry → String → Checked Location
  unfolding choose_proxy store_location
  check_country q seen_ids seen_codes e country = do
    refuse_if (contains country seen_codes) same_country
    refuse_if (contains (location_id e) seen_ids) same_id
    proxy_id ← choose_proxy q.mode country e.proxy_id
    store_location q e country proxy_id

  -- The body of the loop, with the identities and the countries seen so far.
  unfoldable pub check_entry : Request → List String → List String → Entry → Checked Location
  unfolding check_country
  check_entry q seen_ids seen_codes e =
      refuse_if (country_of e == "" || not (is_valid_code w.library.casing (country_of e)))
        bad_country
      >> check_country q seen_ids seen_codes e (country_of e)

  -- The loop over the entries
  unfoldable pub check_entries :
      Request → List String → List String → List (Option Entry) → Checked (List Location)
  unfolding check_entry
  check_entries q seen_ids seen_codes [] = good []
  check_entries q seen_ids seen_codes (none ∷ es) = bad not_an_object
  check_entries q seen_ids seen_codes (some e ∷ es) = check_entry q seen_ids seen_codes e >>= λ l.
      check_entries q (l.id ∷ seen_ids) (l.code ∷ seen_codes) es >>= λ ls. good (l ∷ ls)

  unfoldable pub check_list :
      Request → Bool → Option (List (Option Entry)) → Checked (List Location)
  unfolding check_entries
  check_list q is_enabled none = bad not_a_list
  check_list q is_enabled (some es) =
      refuse_if (is_enabled && not (nat_eqb (length es) 2)) not_two
      >> refuse_if (not is_enabled && (not (nat_eqb (length es) 0) && not (nat_eqb (length es) 2)))
          neither_zero_nor_two
      >> check_entries q [] [] es

  -- The request's mode, or the group's, or the default one
  unfoldable pub selection_mode : Payload → Option MultiLocation → String
  selection_mode p previous =
      w.library.lower (strip (or_text p.selection_mode (or_text (mode_of previous) explicit)))

  unfoldable pub request_of : Payload → Option MultiLocation → Bool → Request
  unfolding selection_mode index_locations
  request_of p previous require_tests = record {
    mode = selection_mode p previous;
    previous = index_locations [] (locations_of previous);
    require_tests = require_tests;
  }

  abbrev pub configured : Payload → String → List Location → MultiLocation
  configured p mode locations = record {
    enabled = p.enabled;
    remark_text = sanitize_remark_text w p.remark_text;
    selection_mode = mode;
    locations = locations;
  }

  unfoldable pub validate_multi_location :
      Payload → Option MultiLocation → Bool → Checked MultiLocation
  unfolding check_list sanitize_remark_text request_of selection_mode
  validate_multi_location p previous require_tests =
      refuse_if (is_no_mode (selection_mode p previous)) bad_mode
      >> check_list (request_of p previous require_tests) p.enabled p.locations
      >>= λ locations. good (configured p (selection_mode p previous) locations)

-- One proxy's endpoint for a session
pub record Selection : Type 0 where
  pub proxy_id : String
  pub endpoint : String
  pub location_id : Option String

-- `ProxyUnavailableError`, by its cause
pub data Unavailable : Type 0 where
  needs_reconfiguration no_location bad_location no_healthy_proxy : Unavailable
  location_proxy_gone country_changed managed_gone bad_custom : Unavailable

pub data Resolved : Type 0 where
  unavailable : Unavailable → Resolved
  chosen : Option Selection → Resolved

-- The first active location of that identity
unfoldable pub find_location : String → List Location → Option Location
find_location loc_id [] = none
find_location loc_id (l ∷ ls) =
    let rest = find_location loc_id ls in if l.id == loc_id && l.active then some l else rest

module _ (w : World) where
  unfoldable pub select_record : String → String → Option Record → Resolved
  select_record loc_id country none = unavailable location_proxy_gone
  select_record loc_id country (some r) =
      if r.code == country
      then chosen
          (some record { proxy_id = r.id; endpoint = r.endpoint; location_id = some loc_id })
      else unavailable country_changed

  unfoldable pub select_location : String → String → Option Location → Resolved
  unfolding select_record current_preferred
  select_location mode loc_id none = unavailable bad_location
  select_location mode loc_id (some l) =
      let preferred = or_else (get l.code (current_preferred w w.preferred)) "" in
      if or_text mode explicit == country_preferred
      then (if preferred == ""
          then unavailable no_healthy_proxy
          else select_record loc_id l.code (get_record preferred w.repository))
      else select_record loc_id l.code (get_record l.proxy_id w.repository)

  -- A group with Multi-Location: no other location, country or proxy stands in for the one asked for.
  unfoldable pub resolve_location : Bool → MultiLocation → String → Resolved
  unfolding select_location find_location
  resolve_location migration_required ml loc_id =
      if migration_required || not (nat_eqb (length ml.locations) 2)
      then unavailable needs_reconfiguration
      else if strip loc_id == ""
      then unavailable no_location
      else select_location ml.selection_mode (strip loc_id)
          (find_location (strip loc_id) ml.locations)

  unfoldable pub managed : Option Record → Resolved
  managed none = unavailable managed_gone
  managed (some r) =
      chosen (some record { proxy_id = r.id; endpoint = r.endpoint; location_id = none })

  unfoldable pub custom : Option String → Resolved
  custom none = unavailable bad_custom
  custom (some e) = chosen (some record { proxy_id = "custom"; endpoint = e; location_id = none })

  -- A config of its own: a managed proxy, a custom one, or no proxy.
  unfoldable pub resolve_own : Link → Resolved
  unfolding managed custom
  resolve_own link =
      if or_text link.exit_proxy_mode "direct" == "repository"
      then managed (get_record link.proxy_id w.repository)
      else if or_text link.exit_proxy_mode "direct" == "custom"
      then custom (validate_url w.library link.custom_proxy)
      else chosen none

  unfoldable pub resolve_by : Bool → Link → String → Option MultiLocation → Resolved
  unfolding resolve_location resolve_own
  resolve_by migration_required link loc_id none = resolve_own link
  resolve_by migration_required link loc_id (some ml) =
      resolve_location migration_required ml loc_id

  -- `migration_required` is the mark that an old state file leaves on a group.
  unfoldable pub resolve_exit_selection : Bool → Option Link → Dict String Sub → String → Resolved
  unfolding resolve_by
  resolve_exit_selection migration_required none subs loc_id = chosen none
  resolve_exit_selection migration_required (some link) subs loc_id =
      resolve_by migration_required link loc_id (multi_location_for_link link subs)

  -- `resolve_exit_endpoints`, `none` where it raises
  unfoldable pub endpoints_of : Resolved → Option (List String)
  endpoints_of (unavailable e) = none
  endpoints_of (chosen none) = some []
  endpoints_of (chosen (some s)) = some (s.endpoint ∷ [])
