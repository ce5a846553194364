-- ===== src/Store/Admin.antt =====
-- What an admin's dialogues write at their ends (telegram_bot.py: `_admin_gift_text`,
-- `_admin_promo_text`, and the card of `_handle_text`). A dialogue asks whether its code is new at its
-- start only; the write at its end does not.
use lumen_project_final.Prelude.{ℕ, ◌+◌, ◌*◌, true, String, [], if◌then◌else◌, nat_eqb}
use lumen_project_final.Prelude.Eq.{string_eq}
use lumen_project_final.Prelude.Dict.{put}
use lumen_project_final.Store
use lumen_project_final.Store.{Stamp, unset, at, DiscountType, DiscountCode}

abbrev day : ℕ
day = 86_400_000_000

-- The end of a code that holds for so many days, where 0 is no end
unfoldable pub end_after : ℕ → ℕ → Stamp
end_after days now = if nat_eqb days 0 then unset else at (now + day * days)

-- A code that no order has used
abbrev pub new_code : DiscountType → ℕ → ℕ → ℕ → ℕ → DiscountCode
new_code type value max_uses days now = record {
  type = type;
  value = value;
  max_uses = max_uses;
  uses = 0;
  used_by = [];
  orders = [];
  active = true;
  expires_at = end_after days now;
}

unfoldable pub publish_discount : String → DiscountType → ℕ → ℕ → ℕ → ℕ → Store.Store → Store.Store
publish_discount code type value max_uses days now s = record s {
  discount_codes = put code (new_code type value max_uses days now) s.discount_codes;
}

unfoldable pub publish_gift : String → ℕ → ℕ → ℕ → ℕ → Store.Store → Store.Store
publish_gift code amount max_uses days now s = record s {
  gift_codes =
      put code
        (record {
          amount = amount;
          max_uses = max_uses;
          used_by = [];
          active = true;
          expires_at = end_after days now;
        })
        s.gift_codes;
}

unfoldable pub set_card : String → String → Store.Store → Store.Store
set_card number holder s = record s {
  settings = record { card_number = number; card_holder = holder };
}
