-- ===== src/Panel.antt =====
-- The panel's configs and subscription groups (main.py): LINKS, SUBS and the live connections.
pub mod Access
pub mod Links
pub mod Groups
pub mod Sync
pub mod Assign
pub mod Resync
pub mod Updates
pub mod Patches
pub mod Edits
use lumen_project_final.Prelude.{ℕ, Bool, Option, String, List}
use lumen_project_final.Prelude.Dict.{Dict}

-- An ISO timestamp as `datetime.fromisoformat` reads it.
pub data Expiry : Type 0 where
  never unreadable : Expiry
  at : ℕ → Expiry

pub record Location : Type 0 where
  pub id : String
  pub code : String
  pub country : String
  pub flag : String
  pub proxy_id : String
  pub active : Bool

pub record MultiLocation : Type 0 where
  pub enabled : Bool
  pub remark_text : String
  pub selection_mode : String
  pub locations : List Location

pub record Link : Type 0 where
  pub label : String
  pub limit_bytes : ℕ
  pub used_bytes : ℕ
  pub created_at : ℕ
  pub active : Bool
  pub expires_at : Expiry
  pub note : String
  pub remark : String
  pub is_default : Bool
  pub sub_id : Option String
  pub protocol : String
  pub fingerprint : String
  pub alpn : String
  pub port : ℕ
  pub ip_limit : ℕ
  pub speed_limit_bytes : ℕ
  pub address : String
  pub sni : String
  pub exit_proxy_mode : String
  pub proxy_id : String
  pub custom_proxy : String

pub record Sub : Type 0 where
  pub name : String
  pub desc : String
  pub password_hash : Option String
  pub uuid_key : String
  pub created_at : ℕ
  pub link_ids : List String
  pub multi_location : MultiLocation

pub record Panel : Type 0 where
  pub links : Dict String Link
  pub subs : Dict String Sub

pub data Failure : Type 0 where
  bad_transport bad_security managed_endpoint managed_port no_location_profile : Failure
  bad_address bad_sni bad_exit bad_uuid uuid_taken not_found not_saved : Failure
  bad_number transport_fixed untested_proxy : Failure

pub data Result {ℓ} (A : Type ℓ) : Type ℓ where
  err : Failure → Result A
  ok : A → Result A

infixl 5 ◌>>=◌
abbrev pub ◌>>=◌ {ℓ κ} : {A : Type ℓ} {B : Type κ} → Result A → (A → Result B) → Result B
err failure >>= next = err failure
ok a >>= next = next a

-- A check whose result has no value.
infixl 5 ◌>>◌
abbrev pub ◌>>◌ {ℓ} : {B : Type ℓ} → Result (Unit {0}) → Result B → Result B
err failure >> next = err failure
ok done >> next = next

-- What the panel asks of the other components: transports.py, config_address.py,
-- proxy_repository.py and the hash; of Python, `str.lower`; and the Persian default names of a
-- config and a group.
pub record Services : Type 0 where
  pub transport_available : String → Bool
  pub security_ok : String → Bool
  pub normalize_address : String → Option String
  pub normalize_sni : String → Option String
  pub normalize_exit_proxy : String → String → String → Option (String × String × String)
  pub normalize_uuid : String → Option String
  pub raw_location_ok : Link → Location → Bool
  pub hash_password : String → String
  pub lower : String → String
  pub default_label : String
  pub default_group : String
