-- ===== src/Store.antt =====
-- The sales bot's store (telegram_bot.py): its records and its state. A time is a number of
-- microseconds. A user is kept under the number itself, where the source writes `str(user_id)`.
pub mod Pricing
pub mod Codes
pub mod Orders
pub mod Finish
pub mod Reservations
pub mod Leaves
pub mod Booking
pub mod Settlement
pub mod Purse
pub mod Admin
pub mod Session
pub mod Provision
use lumen_project_final.Prelude.{ℕ, Bool, Option, String, List, leb, true, false}
use lumen_project_final.Prelude.Dict.{Dict}

-- An ISO timestamp field, as `datetime.fromisoformat` reads it: missing or empty, unreadable, or a
-- moment.
pub data Stamp : Type 0 where
  unset malformed : Stamp
  at : ℕ → Stamp

pub data Status : Type 0 where
  draft awaiting_receipt pending_admin processing approved rejected cancelled expired : Status

pub data Kind : Type 0 where
  new renew wallet : Kind
  other : String → Kind

-- The values of "payment_method", and of the argument `source` of `_finish_order`.
pub data Method : Type 0 where
  card wallet free : Method

pub record Plan : Type 0 where
  pub id : String
  pub quota_bytes : ℕ
  pub days : ℕ
  pub price : ℕ
  pub trial : Bool
  pub active : Bool

pub record Order : Type 0 where
  pub id : String
  pub user_id : ℕ
  pub kind : Kind
  pub plan : Option Plan
  pub service_id : Option String
  pub base_amount : ℕ
  pub discount_amount : ℕ
  pub discount_code : Option String
  pub discount_reserved : Bool
  pub amount : ℕ
  pub payment_method : Option Method
  pub status : Status
  pub created_at : Stamp
  pub cancelled_at : Stamp
  pub payment_started_at : Stamp
  pub receipt : Option String
  pub receipt_at : Stamp
  pub reviewer_id : Option ℕ
  pub processing_at : Stamp
  pub approved_at : Stamp
  pub rejected_at : Stamp
  pub last_error : Option String

pub record User : Type 0 where
  pub id : ℕ
  pub username : String
  pub first_name : String
  pub balance : ℕ
  pub created_at : Stamp
  pub last_seen_at : Stamp
  pub sub_id : Option String
  pub gift_codes : List String
  pub trial_used_at : Stamp

pub data DiscountType : Type 0 where
  percent fixed : DiscountType

pub record DiscountCode : Type 0 where
  pub type : DiscountType
  pub value : ℕ
  pub max_uses : ℕ
  pub uses : ℕ
  pub used_by : List ℕ
  pub orders : List String
  pub active : Bool
  pub expires_at : Stamp

pub record GiftCode : Type 0 where
  pub amount : ℕ
  pub max_uses : ℕ
  pub used_by : List ℕ
  pub active : Bool
  pub expires_at : Stamp

pub record Redemption : Type 0 where
  pub code : String
  pub user_id : ℕ
  pub amount : ℕ
  pub at : ℕ

pub record Settings : Type 0 where
  pub card_number : String
  pub card_holder : String

pub record Store : Type 0 where
  pub users : Dict ℕ User
  pub orders : Dict String Order
  pub gift_codes : Dict String GiftCode
  pub discount_codes : Dict String DiscountCode
  pub redemption_audit : List Redemption
  pub settings : Settings

-- The refusals that the source returns as a message beside `None`.
pub data Refusal : Type 0 where
  bad_code order_not_open code_inactive code_exhausted code_used_by_user : Refusal
  no_admin no_card_settings nothing_to_pay no_waiting_order : Refusal
  order_missing already_approved status_forbids user_missing trial_used : Refusal
  not_free not_payable balance_too_low provisioning_failed not_pending : Refusal
  gift_invalid gift_used gift_exhausted gift_empty : Refusal

pub data Reply {ℓ} (A : Type ℓ) : Type ℓ where
  ok : A → Reply A
  refused : Refusal → Reply A

-- `ADMIN_IDS`, `RECEIPT_TIMEOUT_HOURS` in microseconds, and `_normalize_code`.
pub record Config : Type 0 where
  pub admin_ids : List ℕ
  pub receipt_timeout : ℕ
  pub normalize_code : String → Option String

abbrev pub is_draft : Status → Bool
is_draft draft = true
is_draft _ = false

abbrev pub is_awaiting : Status → Bool
is_awaiting awaiting_receipt = true
is_awaiting _ = false

abbrev pub is_pending : Status → Bool
is_pending pending_admin = true
is_pending _ = false

abbrev pub is_approved : Status → Bool
is_approved approved = true
is_approved _ = false

abbrev pub is_topup : Kind → Bool
is_topup Kind.wallet = true
is_topup _ = false

-- `_expired`: a missing deadline never passes, an unreadable one has passed.
unfoldable pub expired_at : Stamp → ℕ → Bool
expired_at unset now = false
expired_at malformed now = true
expired_at (at deadline) now = leb deadline now
