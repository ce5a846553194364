-- ===== src/Store/Pricing.antt =====
-- The price calculation of telegram_bot.py (`_calculate_payable`).
use lumen_project_final.Prelude.{ℕ, ◌+◌, ◌-◌, ◌*◌, ◌/◌, ◌≤◌, ◌≡◌, Option, none, some, arith, min}
use lumen_project_final.Store.{DiscountCode, DiscountType, percent, fixed}

discount_of : ℕ → DiscountType → ℕ → ℕ
discount_of base percent value = (base * min 100 value) / 100
discount_of base fixed value = min base value

-- The payable amount and the discount. The source's `max(0, …)` are the numbers of ℕ.
unfoldable pub calculate_payable : ℕ → Option DiscountCode → ℕ × ℕ
unfolding discount_of
calculate_payable base none = (base, 0)
calculate_payable base (some entry) =
    let discount = min base (discount_of base entry.type entry.value) in (base - discount, discount)

percent-le : (base p : ℕ) → p ≤ 100 → (base * p) / 100 ≤ base
percent-le base p h = grind arith

-- The payable amount and the discount add up to the base price, whatever the code says.
pub calculate_payable-total :
    (base : ℕ) (entry : Option DiscountCode)
    → (calculate_payable base entry).0 + (calculate_payable base entry).1 ≡ base
unfolding calculate_payable
calculate_payable-total base none = omega arith
calculate_payable-total base (some entry) = omega arith
