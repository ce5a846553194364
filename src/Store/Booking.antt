-- ===== src/Store/Booking.antt =====
-- The books on discount codes through the order handlers of telegram_bot.py.
use lumen_project_final.Prelude.{
  ℕ, ◌≡◌, refl, Bool, true, ◌&&◌, Option, none, some, String, List, [], ◌∷◌, arith, Option-cases,
  inl, inr, if_cases,
}
use lumen_project_final.Prelude.Eq.{string_eq}
use lumen_project_final.Prelude.Dict.{Dict, keys, get}
use lumen_project_final.Store.{
  Store, Order, Kind, Plan, DiscountCode, Status, cancelled, Config, is_draft,
}
use lumen_project_final.Store.Codes.{discount_valid, reserve_discount}
use lumen_project_final.Store.Orders.{
  asked_amount, new_order_id, create_order, cancel_order, cancel_found, apply_discount,
  discount_found, discount_order, close_order, cancel_waiting_order, cancel_waiting_found,
  expire_order, expire_found, expire_orders, expire_stale_orders, start_card_payment, start_payment,
  pay_found, pay_reserved, submit_receipt, submit_found, reject_order, reject_found, keyed,
  newest_waiting, newer,
}
use lumen_project_final.Store.Leaves.{Leaves, Leaves-if, leave}
use lumen_project_final.Store.Reservations.{
  IsBooked, IsBooked-idle, IsBooked-add, draft_unreserved, IsBooked-keep, IsBooked-release,
  IsBooked-reserve,
}

cancel_found-IsBooked :
    (order_id : String) (o : Option Order) (user_id now : ℕ) (s : Store)
    → get order_id s.orders ≡ o
    → IsBooked s
    → Leaves IsBooked (cancel_found order_id o user_id now s)
unfolding cancel_found
cancel_found-IsBooked order_id none user_id now s found b = leave b
cancel_found-IsBooked order_id (some order) user_id now s found b =
    search (Leaves-if, leave, IsBooked-keep s _ order_id order _ b found refl refl refl refl)

pub cancel_order-IsBooked :
    (order_id : String) (user_id now : ℕ) (s : Store)
    → IsBooked s
    → Leaves IsBooked (cancel_order order_id user_id now s)
unfolding cancel_order
cancel_order-IsBooked order_id user_id now s b =
    cancel_found-IsBooked order_id (get order_id s.orders) user_id now s refl b

close_order-IsBooked :
    (order_id : String) (order : Order) (reason : Status) (now : ℕ) (s : Store)
    → get order_id s.orders ≡ some order
    → IsBooked s
    → IsBooked (close_order order_id order reason now s)
unfolding close_order
close_order-IsBooked order_id order reason now s found b =
    IsBooked-release s _ order_id order _ b found refl refl refl refl

cancel_waiting_found-IsBooked :
    (order_id : String) (o : Option Order) (user_id now : ℕ) (s : Store)
    → get order_id s.orders ≡ o
    → IsBooked s
    → Leaves IsBooked (cancel_waiting_found order_id o user_id now s)
unfolding cancel_waiting_found
cancel_waiting_found-IsBooked order_id none user_id now s found b = leave b
cancel_waiting_found-IsBooked order_id (some order) user_id now s found b =
    search (Leaves-if, leave, close_order-IsBooked order_id order cancelled now s found b)

pub cancel_waiting_order-IsBooked :
    (order_id : String) (user_id now : ℕ) (s : Store)
    → IsBooked s
    → Leaves IsBooked (cancel_waiting_order order_id user_id now s)
unfolding cancel_waiting_order
cancel_waiting_order-IsBooked order_id user_id now s b =
    cancel_waiting_found-IsBooked order_id (get order_id s.orders) user_id now s refl b

expire_found-IsBooked :
    (order_id : String) (o : Option Order) (timeout now : ℕ) (s : Store)
    → get order_id s.orders ≡ o
    → IsBooked s
    → IsBooked (expire_found order_id o timeout now s)
unfolding expire_found
expire_found-IsBooked order_id none timeout now s found b = b
expire_found-IsBooked order_id (some order) timeout now s found b =
    if_cases IsBooked _ {x = close_order order_id order Status.expired now s} {y = s}
      (λ _. close_order-IsBooked order_id order Status.expired now s found b) (λ _. b)

expire_orders-IsBooked :
    (timeout now : ℕ) (order_ids : List String) (s : Store)
    → IsBooked s
    → IsBooked (expire_orders timeout now order_ids s)
unfolding expire_orders expire_order
expire_orders-IsBooked timeout now [] s b = b
expire_orders-IsBooked timeout now (order_id ∷ rest) s b =
    expire_orders-IsBooked timeout now rest _
      (expire_found-IsBooked order_id (get order_id s.orders) timeout now s refl b)

pub expire_stale_orders-IsBooked :
    (c : Config) (now : ℕ) (s : Store) → IsBooked s → IsBooked (expire_stale_orders c now s)
unfolding expire_stale_orders
expire_stale_orders-IsBooked c now s b = expire_orders-IsBooked c.receipt_timeout now _ s b

discount_order-IsBooked :
    (order_id : String) (order : Order) (code : String) (entry : Option DiscountCode)
    (user_id now : ℕ) (s : Store)
    → get order_id s.orders ≡ some order
    → is_draft order.status ≡ true
    → IsBooked s
    → Leaves IsBooked (discount_order order_id order code entry user_id now s)
unfolding discount_order
discount_order-IsBooked order_id order code entry user_id now s found open_ b =
    elim (Option-cases (discount_valid entry user_id now)) [
      | inl valid ↦
          rw (valid, discount_order)
            (leave (
              IsBooked-idle s _ order_id order _ b found refl refl
                (draft_unreserved s order_id order b found open_)
                (draft_unreserved s order_id order b found open_)))
      | inr (reason, denied) ↦ rw (denied, discount_order) (leave b)
    ]

and_true : (a b c : Bool) → (a && b && c) ≡ true → b ≡ true
and_true a b c h = ground arith

discount_found-IsBooked :
    (order_id : String) (o : Option Order) (code : String) (user_id now : ℕ) (s : Store)
    → get order_id s.orders ≡ o
    → IsBooked s
    → Leaves IsBooked (discount_found order_id o code user_id now s)
unfolding discount_found
discount_found-IsBooked order_id none code user_id now s found b = leave b
discount_found-IsBooked order_id (some order) code user_id now s found b = search (
  Leaves-if,
  leave,
  and_true,
  discount_order-IsBooked order_id order code (get code s.discount_codes) user_id now s found,
)

pub apply_discount-IsBooked :
    (c : Config) (order_id : String) (user_id : ℕ) (text : String) (now : ℕ) (s : Store)
    → IsBooked s
    → Leaves IsBooked (apply_discount c order_id user_id text now s)
unfolding apply_discount
apply_discount-IsBooked c order_id user_id text now s b =
    elim (Option-cases (c.normalize_code text)) [
      | inl bad ↦ rw (bad, apply_discount) (leave b)
      | inr (code, good) ↦
          rw (good, apply_discount)
            (discount_found-IsBooked order_id (get order_id s.orders) code user_id now s refl b)
    ]

pub new_order_id_fresh :
    (tokens : List String) (orders : Dict String Order) (oid : String)
    → new_order_id tokens orders ≡ some oid
    → get oid orders ≡ none
unfolding new_order_id
new_order_id_fresh [] orders oid h = cc
new_order_id_fresh (token ∷ tokens) orders oid h =
    ground (arith, new_order_id_fresh tokens orders oid)

pub create_order-IsBooked :
    (tokens : List String) (user_id : ℕ) (kind : Kind) (plan : Option Plan)
    (service_id : Option String) (amount : Option ℕ) (now : ℕ) (s : Store)
    → IsBooked s
    → Leaves IsBooked (create_order tokens user_id kind plan service_id amount now s)
unfolding create_order
create_order-IsBooked tokens user_id kind plan service_id amount now s b =
    elim (Option-cases (new_order_id tokens s.orders)) [
      | inl stuck ↦ rw (stuck, create_order) (leave b)
      | inr (oid, drawn) ↦ elim (Option-cases (asked_amount amount plan)) [
        | inl no_amount ↦ rw (drawn, create_order, no_amount) (leave b)
        | inr (base, asked) ↦
            rw (drawn, create_order, asked)
              (leave (
                IsBooked-add s _ oid _ b (new_order_id_fresh tokens s.orders oid drawn) refl refl
                  refl))
      ]
    ]

reject_found-IsBooked :
    (order_id : String) (o : Option Order) (admin_id now : ℕ) (s : Store)
    → get order_id s.orders ≡ o
    → IsBooked s
    → Leaves IsBooked (reject_found order_id o admin_id now s)
unfolding reject_found
reject_found-IsBooked order_id none admin_id now s found b = leave b
reject_found-IsBooked order_id (some order) admin_id now s found b =
    search (Leaves-if, leave, IsBooked-release s _ order_id order _ b found refl refl refl refl)

pub reject_order-IsBooked :
    (order_id : String) (admin_id now : ℕ) (s : Store)
    → IsBooked s
    → Leaves IsBooked (reject_order order_id admin_id now s)
unfolding reject_order
reject_order-IsBooked order_id admin_id now s b =
    reject_found-IsBooked order_id (get order_id s.orders) admin_id now s refl b

pay_reserved-IsBooked :
    (order_id : String) (order : Order) (now : ℕ) (s : Store)
    → get order_id s.orders ≡ some order
    → IsBooked s
    → Leaves IsBooked (pay_reserved order_id (reserve_discount now order s.discount_codes) now s)
unfolding pay_reserved
pay_reserved-IsBooked order_id order now s found b =
    elim (Option-cases (reserve_discount now order s.discount_codes).refusal) [
      | inl granted ↦
          rw (granted, pay_reserved)
            (leave
              (IsBooked-reserve s _ order_id order _ b found refl now granted refl refl refl refl))
      | inr (reason, denied) ↦ rw (denied, pay_reserved) (leave b)
    ]

pay_found-IsBooked :
    (order_id : String) (o : Option Order) (user_id now : ℕ) (s : Store)
    → get order_id s.orders ≡ o
    → IsBooked s
    → Leaves IsBooked (pay_found order_id o user_id now s)
unfolding pay_found
pay_found-IsBooked order_id none user_id now s found b = leave b
pay_found-IsBooked order_id (some order) user_id now s found b =
    search (Leaves-if, leave, pay_reserved-IsBooked order_id order now s found b)

pub start_payment-IsBooked :
    (c : Config) (order_id : String) (user_id now : ℕ) (s : Store)
    → IsBooked s
    → Leaves IsBooked (start_payment c order_id user_id now s)
unfolding start_payment
start_payment-IsBooked c order_id user_id now s b =
    search
      (Leaves-if, leave, pay_found-IsBooked order_id (get order_id s.orders) user_id now s refl b)

pub start_card_payment-IsBooked :
    (c : Config) (order_id : String) (user_id now : ℕ) (s : Store)
    → IsBooked s
    → Leaves IsBooked (start_card_payment c order_id user_id now s)
unfolding start_card_payment
start_card_payment-IsBooked c order_id user_id now s b =
    start_payment-IsBooked c order_id user_id now _ (expire_stale_orders-IsBooked c now s b)

submit_found-IsBooked :
    (user_id : ℕ) (receipt : String) (o : Option (String × Order)) (now : ℕ) (s : Store)
    → ((k : String) (order : Order) → o ≡ some (k, order) → get k s.orders ≡ some order)
    → IsBooked s
    → Leaves IsBooked (submit_found user_id receipt o now s)
unfolding submit_found
submit_found-IsBooked user_id receipt none now s found b = leave b
submit_found-IsBooked user_id receipt (some (k, order)) now s found b =
    search
      (Leaves-if, leave, IsBooked-keep s _ k order _ b (found k order refl) refl refl refl refl)

abbrev Found : Dict String Order → Option (String × Order) → Type 0
Found orders o = (k : String) (order : Order) → o ≡ some (k, order) → get k orders ≡ some order

newer-Found :
    (user_id : ℕ) (orders : Dict String Order) (k : String) (o : Option Order)
    (best : Option (String × Order))
    → get k orders ≡ o
    → Found orders best
    → Found orders (newer user_id k o best)
unfolding newer
newer-Found user_id orders k none best e f j b h = f j b h
newer-Found user_id orders k (some o) none e f j b h = ground arith
newer-Found user_id orders k (some o) (some (i, c)) e f j b h = ground (arith, f i c refl)

newest_waiting-Found :
    (user_id : ℕ) (orders : Dict String Order) (ks : List String) (best : Option (String × Order))
    → Found orders best
    → Found orders (newest_waiting user_id orders ks best)
unfolding newest_waiting
newest_waiting-Found user_id orders [] best f = f
newest_waiting-Found user_id orders (k ∷ ks) best f =
    newest_waiting-Found user_id orders ks _
      (newer-Found user_id orders k (get k orders) best refl f)

keyed-Found :
    (orders : Dict String Order) (j : String) (o : Option Order)
    → get j orders ≡ o
    → Found orders (keyed j o)
unfolding keyed
keyed-Found orders j none e k order h = cc
keyed-Found orders j (some b) e k order h = ground arith

pub submit_receipt-IsBooked :
    (user_id : ℕ) (receipt : String) (order_id : Option String) (now : ℕ) (s : Store)
    → IsBooked s
    → Leaves IsBooked (submit_receipt user_id receipt order_id now s)
unfolding submit_receipt
submit_receipt-IsBooked user_id receipt none now s b =
    submit_found-IsBooked user_id receipt _ now s
      (newest_waiting-Found user_id s.orders (keys s.orders) none (λ k order h. cc)) b
submit_receipt-IsBooked user_id receipt (some order_id) now s b =
    submit_found-IsBooked user_id receipt _ now s
      (keyed-Found s.orders order_id (get order_id s.orders) refl) b
