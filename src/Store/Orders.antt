-- ===== src/Store/Orders.antt =====
-- The order handlers of telegram_bot.py: create, cancel, discount, card payment, receipt, reject.
-- Each takes the store and gives the store back with its reply.
use lumen_project_final.Prelude.{
  ℕ, ◌+◌, Bool, true, false, not, ◌&&◌, ◌||◌, Option, none, some, String, List, [], ◌∷◌, leb,
  if◌then◌else◌, is_some, nat_eqb,
}
use lumen_project_final.Prelude.Eq.{◌==◌, string_eq, nat_eq}
use lumen_project_final.Prelude.Dict.{Dict, get, put, keys}
use lumen_project_final.Store
use lumen_project_final.Store.{
  Stamp, unset, malformed, at, Status, draft, awaiting_receipt, pending_admin, rejected, cancelled,
  Kind, Method, Plan, Order, DiscountCode, Refusal, Reply, ok, refused, Config, is_draft,
  is_awaiting, is_pending, is_topup, bad_code, order_not_open, no_admin, no_card_settings,
  nothing_to_pay, no_waiting_order, not_pending,
}
use lumen_project_final.Store.Pricing.{calculate_payable}
use lumen_project_final.Store.Codes.{discount_valid, Reserved, reserve_discount, release_discount}

-- `_new_order_id` draws tokens until one is free. The tokens that it draws are an argument.
unfoldable pub new_order_id : List String → Dict String Order → Option String
new_order_id [] orders = none
new_order_id (token ∷ tokens) orders =
    let rest = new_order_id tokens orders in if is_some (get token orders) then rest else some token

-- The amount asked for, or the plan's price; without either the source raises.
unfoldable pub asked_amount : Option ℕ → Option Plan → Option ℕ
asked_amount (some amount) plan = some amount
asked_amount none none = none
asked_amount none (some plan) = some plan.price

unfoldable pub fresh_order : String → ℕ → Kind → Option Plan → Option String → ℕ → ℕ → Order
fresh_order oid user_id kind plan service_id base now = record {
  id = oid;
  user_id = user_id;
  kind = kind;
  plan = plan;
  service_id = service_id;
  base_amount = base;
  discount_amount = 0;
  discount_code = none;
  discount_reserved = false;
  amount = base;
  payment_method = none;
  status = draft;
  created_at = at now;
  cancelled_at = unset;
  payment_started_at = unset;
  receipt = none;
  receipt_at = unset;
  reviewer_id = none;
  processing_at = unset;
  approved_at = unset;
  rejected_at = unset;
  last_error = none;
}

-- `none` when the tokens ran out before a free one came, or when there is no amount.
unfoldable pub create_order :
    List String
    → ℕ
    → Kind
    → Option Plan
    → Option String
    → Option ℕ
    → ℕ
    → Store.Store
    → Option Order × Store.Store
unfolding new_order_id fresh_order asked_amount
create_order tokens user_id kind plan service_id amount now s =
    elim (new_order_id tokens s.orders) [
      | none ↦ (none, s)
      | some oid ↦ elim (asked_amount amount plan) [
        | none ↦ (none, s)
        | some base ↦
            let order = fresh_order oid user_id kind plan service_id base now in
            (some order, record s { orders = put oid order s.orders })
      ]
    ]

unfoldable pub cancel_found : String → Option Order → ℕ → ℕ → Store.Store → Bool × Store.Store
cancel_found order_id none user_id now s = (false, s)
cancel_found order_id (some order) user_id now s =
    if nat_eqb order.user_id user_id && is_draft order.status
    then (
      true,
      record s {
        orders = put order_id (record order { status = cancelled; cancelled_at = at now }) s.orders;
      },
    )
    else (false, s)

unfoldable pub cancel_order : String → ℕ → ℕ → Store.Store → Bool × Store.Store
unfolding cancel_found
cancel_order order_id user_id now s = cancel_found order_id (get order_id s.orders) user_id now s

unfoldable pub discount_order :
    String → Order → String → Option DiscountCode → ℕ → ℕ → Store.Store → Reply Order × Store.Store
unfolding discount_valid calculate_payable
discount_order order_id order code entry user_id now s = elim (discount_valid entry user_id now) [
  | some reason ↦ (refused reason, s)
  | none ↦
      let price = calculate_payable order.base_amount entry in
      let changed = record order {
        discount_code = some code;
        discount_amount = price.1;
        amount = price.0;
      } in
      (ok changed, record s { orders = put order_id changed s.orders })
]

unfoldable pub discount_found :
    String → Option Order → String → ℕ → ℕ → Store.Store → Reply Order × Store.Store
unfolding discount_order
discount_found order_id none code user_id now s = (refused order_not_open, s)
discount_found order_id (some order) code user_id now s =
    if nat_eqb order.user_id user_id && is_draft order.status && not (is_topup order.kind)
    then discount_order order_id order code (get code s.discount_codes) user_id now s
    else (refused order_not_open, s)

unfoldable pub apply_discount :
    Config → String → ℕ → String → ℕ → Store.Store → Reply Order × Store.Store
unfolding discount_found
apply_discount c order_id user_id text now s = elim (c.normalize_code text) [
  | none ↦ (refused bad_code, s)
  | some code ↦ discount_found order_id (get order_id s.orders) code user_id now s
]

-- An unpaid card order ends in the given state, and its reservation is given back.
unfoldable pub close_order : String → Order → Status → ℕ → Store.Store → Store.Store
unfolding release_discount
close_order order_id order reason now s =
    let released = release_discount order s.discount_codes in
    record s {
      orders = put order_id (record released.0 { status = reason; cancelled_at = at now }) s.orders;
      discount_codes = released.1;
    }

unfoldable pub cancel_waiting_found :
    String → Option Order → ℕ → ℕ → Store.Store → Bool × Store.Store
unfolding close_order
cancel_waiting_found order_id none user_id now s = (false, s)
cancel_waiting_found order_id (some order) user_id now s =
    if nat_eqb order.user_id user_id && is_awaiting order.status
    then (true, close_order order_id order cancelled now s)
    else (false, s)

-- `_cancel_waiting_order`; every caller leaves `reason` at "cancelled".
unfoldable pub cancel_waiting_order : String → ℕ → ℕ → Store.Store → Bool × Store.Store
unfolding cancel_waiting_found
cancel_waiting_order order_id user_id now s =
    cancel_waiting_found order_id (get order_id s.orders) user_id now s

-- `started <= cutoff`; a start that cannot be read counts as `datetime.min`.
unfoldable pub is_stale : ℕ → ℕ → Stamp → Stamp → Bool
is_stale timeout now unset (at created) = leb (created + timeout) now
is_stale timeout now unset _ = true
is_stale timeout now malformed _ = true
is_stale timeout now (at started) _ = leb (started + timeout) now

unfoldable pub expire_found : String → Option Order → ℕ → ℕ → Store.Store → Store.Store
unfolding close_order is_stale
expire_found order_id none timeout now s = s
expire_found order_id (some order) timeout now s =
    if is_awaiting order.status && is_stale timeout now order.payment_started_at order.created_at
    then close_order order_id order Status.expired now s
    else s

unfoldable pub expire_order : ℕ → ℕ → String → Store.Store → Store.Store
unfolding expire_found
expire_order timeout now order_id s = expire_found order_id (get order_id s.orders) timeout now s

-- The loop over the orders, in the order of the dict.
unfoldable pub expire_orders : ℕ → ℕ → List String → Store.Store → Store.Store
expire_orders timeout now [] s = s
expire_orders timeout now (order_id ∷ rest) s =
    expire_orders timeout now rest (expire_order timeout now order_id s)

unfoldable pub expire_stale_orders : Config → ℕ → Store.Store → Store.Store
expire_stale_orders c now s = expire_orders c.receipt_timeout now (keys s.orders) s

unfoldable pub pay_reserved : String → Reserved → ℕ → Store.Store → Reply Order × Store.Store
pay_reserved order_id r now s = elim r.refusal [
  | some reason ↦ (refused reason, s)
  | none ↦
      let order = r.order in
      let paid = record order {
        payment_method = some Method.card;
        status = awaiting_receipt;
        payment_started_at = at now;
      } in
      (ok paid, record s { orders = put order_id paid s.orders; discount_codes = r.codes })
]

unfoldable pub pay_found : String → Option Order → ℕ → ℕ → Store.Store → Reply Order × Store.Store
unfolding pay_reserved reserve_discount
pay_found order_id none user_id now s = (refused order_not_open, s)
pay_found order_id (some order) user_id now s =
    if not (nat_eqb order.user_id user_id && is_draft order.status)
    then (refused order_not_open, s)
    else if nat_eqb order.amount 0
    then (refused nothing_to_pay, s)
    else pay_reserved order_id (reserve_discount now order s.discount_codes) now s

abbrev is_empty : List ℕ → Bool
is_empty [] = true
is_empty _ = false

-- The locked part of `_start_card_payment`, after the stale orders have been closed.
unfoldable pub start_payment : Config → String → ℕ → ℕ → Store.Store → Reply Order × Store.Store
unfolding pay_found
start_payment c order_id user_id now s =
    if is_empty c.admin_ids
    then (refused no_admin, s)
    else if s.settings.card_number == "" || s.settings.card_holder == ""
    then (refused no_card_settings, s)
    else pay_found order_id (get order_id s.orders) user_id now s

unfoldable pub start_card_payment :
    Config → String → ℕ → ℕ → Store.Store → Reply Order × Store.Store
start_card_payment c order_id user_id now s =
    start_payment c order_id user_id now (expire_stale_orders c now s)

-- The later of two candidates, as the stable descending sort by `payment_started_at` has them:
-- a missing time is the empty text, and sorts last.
unfoldable pub started_key : Stamp → ℕ
started_key (at t) = t + 1
started_key _ = 0

unfoldable pub newer : ℕ → String → Option Order → Option (String × Order) → Option (String × Order)
unfolding started_key
newer user_id k none best = best
newer user_id k (some o) none =
    if nat_eqb o.user_id user_id && is_awaiting o.status then some (k, o) else none
newer user_id k (some o) (some (j, b)) =
    if nat_eqb o.user_id user_id
      && is_awaiting o.status
      && not (leb (started_key o.payment_started_at) (started_key b.payment_started_at))
    then some (k, o)
    else some (j, b)

-- The walk over the orders, in the order of the dict; of equal times the first is kept.
unfoldable pub newest_waiting :
    ℕ → Dict String Order → List String → Option (String × Order) → Option (String × Order)
newest_waiting user_id orders [] best = best
newest_waiting user_id orders (k ∷ ks) best =
    newest_waiting user_id orders ks (newer user_id k (get k orders) best)

unfoldable pub submit_found :
    ℕ → String → Option (String × Order) → ℕ → Store.Store → Reply Order × Store.Store
submit_found user_id receipt none now s = (refused no_waiting_order, s)
submit_found user_id receipt (some (order_id, order)) now s =
    if nat_eqb order.user_id user_id && is_awaiting order.status
    then (let sent = record order {
      receipt = some receipt;
      receipt_at = at now;
      status = pending_admin;
    } in
        (ok sent, record s { orders = put order_id sent s.orders }))
    else (refused no_waiting_order, s)

unfoldable pub keyed : String → Option Order → Option (String × Order)
keyed order_id none = none
keyed order_id (some order) = some (order_id, order)

-- `_submit_receipt`: the named order, or the newest that waits for a receipt.
unfoldable pub submit_receipt :
    ℕ → String → Option String → ℕ → Store.Store → Reply Order × Store.Store
unfolding submit_found keyed newest_waiting newer
submit_receipt user_id receipt none now s =
    submit_found user_id receipt (newest_waiting user_id s.orders (keys s.orders) none) now s
submit_receipt user_id receipt (some order_id) now s =
    submit_found user_id receipt (keyed order_id (get order_id s.orders)) now s

unfoldable pub reject_found :
    String → Option Order → ℕ → ℕ → Store.Store → Reply Order × Store.Store
unfolding release_discount
reject_found order_id none admin_id now s = (refused not_pending, s)
reject_found order_id (some order) admin_id now s =
    if is_pending order.status
    then (let released = release_discount order s.discount_codes in
        let kept = released.0 in
        let closed = record kept {
          status = rejected;
          reviewer_id = some admin_id;
          rejected_at = at now;
        } in
        (
          ok closed,
          record s { orders = put order_id closed s.orders; discount_codes = released.1 },
        ))
    else (refused not_pending, s)

unfoldable pub reject_order : String → ℕ → ℕ → Store.Store → Reply Order × Store.Store
unfolding reject_found
reject_order order_id admin_id now s = reject_found order_id (get order_id s.orders) admin_id now s
