-- ===== src/Store/Codes.antt =====
-- Discount reservations of telegram_bot.py (`_discount_valid`, `_reserve_discount_locked`,
-- `_release_discount_locked`).
use lumen_project_final.Prelude.{
  ℕ, ◌+◌, ◌-◌, true, false, not, ◌||◌, Option, none, some, String, [], ◌∷◌, ◌++◌, leb,
  if◌then◌else◌,
}
use lumen_project_final.Prelude.Eq.{nat_eq, string_eq}
use lumen_project_final.Prelude.Member.{contains, remove_first}
use lumen_project_final.Prelude.Dict.{Dict, get, put}
use lumen_project_final.Store.{
  Order, DiscountCode, Refusal, code_inactive, code_exhausted, code_used_by_user, expired_at,
}

-- `none` when the user may use the code, else the refusal.
unfoldable pub discount_valid : Option DiscountCode → ℕ → ℕ → Option Refusal
unfolding expired_at
discount_valid none user_id now = some code_inactive
discount_valid (some entry) user_id now =
    if not entry.active || expired_at entry.expires_at now
    then some code_inactive
    else if leb entry.max_uses entry.uses
    then some code_exhausted
    else if contains user_id entry.used_by
    then some code_used_by_user
    else none

unfoldable pub take_use : Order → DiscountCode → DiscountCode
take_use order entry = record entry {
  uses = entry.uses + 1;
  used_by = entry.used_by ++ order.user_id ∷ [];
  orders = entry.orders ++ order.id ∷ [];
}

unfoldable pub give_back_use : Order → DiscountCode → DiscountCode
give_back_use order entry = record entry {
  uses = entry.uses - 1;
  used_by = remove_first order.user_id entry.used_by;
  orders = remove_first order.id entry.orders;
}

-- What a reservation leaves: the refusal if there is one, the order and the codes.
pub record Reserved : Type 0 where
  pub refusal : Option Refusal
  pub order : Order
  pub codes : Dict String DiscountCode

unfoldable pub reserve_entry :
    String → Option DiscountCode → ℕ → Order → Dict String DiscountCode → Reserved
unfolding discount_valid take_use
reserve_entry code none now order codes = record {
  refusal = some code_inactive;
  order = order;
  codes = codes;
}
reserve_entry code (some entry) now order codes =
    elim (discount_valid (some entry) order.user_id now) [
      | some reason ↦ record { refusal = some reason; order = order; codes = codes }
      | none ↦ record {
        refusal = none;
        order = record order { discount_reserved = true };
        codes = put code (take_use order entry) codes;
      }
    ]

unfoldable pub reserve_code : Option String → ℕ → Order → Dict String DiscountCode → Reserved
unfolding reserve_entry
reserve_code none now order codes = record { refusal = none; order = order; codes = codes }
reserve_code (some code) now order codes =
    if order.discount_reserved
    then record { refusal = none; order = order; codes = codes }
    else reserve_entry code (get code codes) now order codes

unfoldable pub reserve_discount : ℕ → Order → Dict String DiscountCode → Reserved
unfolding reserve_code
reserve_discount now order codes = reserve_code order.discount_code now order codes

unfoldable pub release_entry :
    String → Option DiscountCode → Order → Dict String DiscountCode → Dict String DiscountCode
unfolding give_back_use
release_entry code none order codes = codes
release_entry code (some entry) order codes = put code (give_back_use order entry) codes

unfoldable pub release_code :
    Option String → Order → Dict String DiscountCode → Order × Dict String DiscountCode
unfolding release_entry
release_code none order codes = (order, codes)
release_code (some code) order codes =
    if order.discount_reserved
    then (
      record order { discount_reserved = false },
      release_entry code (get code codes) order codes,
    )
    else (order, codes)

unfoldable pub release_discount :
    Order → Dict String DiscountCode → Order × Dict String DiscountCode
unfolding release_code
release_discount order codes = release_code order.discount_code order codes
