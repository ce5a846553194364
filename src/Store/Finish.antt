-- ===== src/Store/Finish.antt =====
-- Approval and provisioning of telegram_bot.py (`_finish_order`, `_redeem_gift`). `_finish_order`
-- takes the state lock three times, and other handlers may run in between: `begin_finish`, then
-- `deliver`, then `approve_order` or `rollback_order`.
use lumen_project_final.Prelude.{
  ℕ, ◌+◌, ◌-◌, Bool, true, false, not, ◌&&◌, ◌||◌, Option, none, some, String, List, [], ◌∷◌, ◌++◌,
  ltb, leb, if◌then◌else◌, nat_eqb, length, drop,
}
use lumen_project_final.Prelude.Eq.{nat_eq, string_eq}
use lumen_project_final.Prelude.Member.{contains}
use lumen_project_final.Prelude.Dict.{Dict, get, put}
use mathlib.Core.Option
use lumen_project_final.Store
use lumen_project_final.Store.{
  Stamp, unset, malformed, at, Status, draft, pending_admin, processing, approved, Kind, Method,
  Plan, Order, User, GiftCode, Redemption, Refusal, Reply, ok, refused, Config, is_draft,
  is_pending, is_approved, expired_at, bad_code, order_missing, already_approved, status_forbids,
  user_missing, trial_used, not_free, not_payable, balance_too_low, provisioning_failed,
  gift_invalid, gift_used, gift_exhausted, gift_empty,
}
use lumen_project_final.Store.Codes.{Reserved, reserve_discount, release_discount}

unfoldable pub is_set : Stamp → Bool
is_set unset = false
is_set _ = true

unfoldable pub is_trial : Option Plan → Bool
is_trial none = false
is_trial (some plan) = plan.trial

-- `allowed`: a receipt under review for a card payment, a draft for the others.
unfoldable pub is_payable : Method → Status → Bool
is_payable Method.card status = is_pending status
is_payable _ status = is_draft status

unfoldable pub to_processing : Option ℕ → ℕ → Order → Order
to_processing reviewer now order = record order {
  status = processing;
  reviewer_id = reviewer;
  processing_at = at now;
}

-- The wallet pays: a balance that is too low gives the reservation back and stops.
unfoldable pub pay_wallet :
    String
    → Order
    → User
    → Dict String Store.DiscountCode
    → Option ℕ
    → ℕ
    → Store.Store
    → Reply Order × Store.Store
unfolding release_discount to_processing
pay_wallet order_id order user codes reviewer now s =
    if ltb user.balance order.amount
    then (let released = release_discount order codes in
        (
          refused balance_too_low,
          record s { orders = put order_id released.0 s.orders; discount_codes = released.1 },
        ))
    else let paid =
        to_processing reviewer now (record order { payment_method = some Method.wallet }) in
      (
        ok paid,
        record s {
          users = put order.user_id (record user { balance = user.balance - order.amount }) s.users;
          orders = put order_id paid s.orders;
          discount_codes = codes;
        },
      )

unfoldable pub pay_free :
    String
    → Order
    → Dict String Store.DiscountCode
    → Option ℕ
    → ℕ
    → Store.Store
    → Reply Order × Store.Store
unfolding to_processing
pay_free order_id order codes reviewer now s =
    let paid = to_processing reviewer now (record order { payment_method = some Method.free }) in
    (ok paid, record s { orders = put order_id paid s.orders; discount_codes = codes })

unfoldable pub begin_card : String → Order → Option ℕ → ℕ → Store.Store → Reply Order × Store.Store
unfolding to_processing
begin_card order_id order reviewer now s =
    if nat_eqb order.amount 0
    then (refused not_payable, s)
    else let taken = to_processing reviewer now order in
      (ok taken, record s { orders = put order_id taken s.orders })

unfoldable pub begin_wallet :
    String → Order → User → Option ℕ → ℕ → Store.Store → Reply Order × Store.Store
unfolding reserve_discount pay_wallet
begin_wallet order_id order user reviewer now s =
    let r = reserve_discount now order s.discount_codes in
    elim r.refusal [
      | some reason ↦ (refused reason, s)
      | none ↦ pay_wallet order_id r.order user r.codes reviewer now s
    ]

unfoldable pub free_reserved :
    String → Reserved → Option ℕ → ℕ → Store.Store → Reply Order × Store.Store
unfolding pay_free
free_reserved order_id r reviewer now s = elim r.refusal [
  | some reason ↦ (refused reason, s)
  | none ↦ pay_free order_id r.order r.codes reviewer now s
]

unfoldable pub begin_free : String → Order → Option ℕ → ℕ → Store.Store → Reply Order × Store.Store
unfolding reserve_discount free_reserved
begin_free order_id order reviewer now s =
    if not (nat_eqb order.amount 0)
    then (refused not_free, s)
    else free_reserved order_id (reserve_discount now order s.discount_codes) reviewer now s

unfoldable pub begin_source :
    Method → String → Order → User → Option ℕ → ℕ → Store.Store → Reply Order × Store.Store
unfolding begin_card begin_wallet begin_free
begin_source Method.card order_id order user reviewer now s =
    begin_card order_id order reviewer now s
begin_source Method.wallet order_id order user reviewer now s =
    begin_wallet order_id order user reviewer now s
begin_source Method.free order_id order user reviewer now s =
    begin_free order_id order reviewer now s

unfoldable pub begin_user :
    Method → String → Order → Option User → Option ℕ → ℕ → Store.Store → Reply Order × Store.Store
unfolding begin_source is_trial is_set
begin_user source order_id order none reviewer now s = (refused user_missing, s)
begin_user source order_id order (some user) reviewer now s =
    if is_trial order.plan && is_set user.trial_used_at
    then (refused trial_used, s)
    else begin_source source order_id order user reviewer now s

-- `approved` is answered with the order itself, which no further step follows.
unfoldable pub begin_found :
    Method → String → Option Order → Option ℕ → ℕ → Store.Store → Reply Order × Store.Store
unfolding begin_user is_payable
begin_found source order_id none reviewer now s = (refused order_missing, s)
begin_found source order_id (some order) reviewer now s =
    if is_approved order.status
    then (refused already_approved, s)
    else if not (is_payable source order.status)
    then (refused status_forbids, s)
    else begin_user source order_id order (get order.user_id s.users) reviewer now s

unfoldable pub begin_finish :
    Method → String → Option ℕ → ℕ → Store.Store → Reply Order × Store.Store
unfolding begin_found
begin_finish source order_id reviewer now s =
    begin_found source order_id (get order_id s.orders) reviewer now s

unfoldable pub credit : ℕ → ℕ → Option User → Store.Store → Option (Option String) × Store.Store
credit user_id amount none s = (none, s)
credit user_id amount (some user) s = (
  some none,
  record s { users = put user_id (record user { balance = user.balance + amount }) s.users },
)

-- The body of the `try`: a top-up is credited here; a new service or a renewal is made by main.py,
-- whose outcome is an argument; `none` is an exception.
unfoldable pub deliver_kind :
    Kind → Order → Option String → Store.Store → Option (Option String) × Store.Store
unfolding credit
deliver_kind Kind.wallet order provisioned s =
    credit order.user_id order.amount (get order.user_id s.users) s
deliver_kind Kind.new order provisioned s = (Option.map some provisioned, s)
deliver_kind Kind.renew order provisioned s = (Option.map some provisioned, s)
deliver_kind (Kind.other name) order provisioned s = (none, s)

unfoldable pub deliver : Order → Option String → Store.Store → Option (Option String) × Store.Store
unfolding deliver_kind
deliver order provisioned s = deliver_kind order.kind order provisioned s

unfoldable pub refund : ℕ → ℕ → Option User → Dict ℕ User → Dict ℕ User
refund user_id amount none users = users
refund user_id amount (some user) users =
    put user_id (record user { balance = user.balance + amount }) users

unfoldable pub rollback_source : Method → String → Order → String → Store.Store → Store.Store
unfolding refund release_discount
rollback_source Method.card order_id order error s = record s {
  orders = put order_id (record order { status = pending_admin; last_error = some error }) s.orders;
}
rollback_source source order_id order error s =
    let released = release_discount order s.discount_codes in
    let kept = released.0 in
    record s {
      users = elim source [
        | Method.wallet ↦ refund order.user_id order.amount (get order.user_id s.users) s.users
        | _ ↦ s.users
      ];
      orders = put order_id (record kept { status = draft; last_error = some error }) s.orders;
      discount_codes = released.1;
    }

-- The handler of a failed delivery.
unfoldable pub rollback_order : Method → String → String → Store.Store → Store.Store
unfolding rollback_source
rollback_order source order_id error s = elim (get order_id s.orders) [
  | none ↦ s
  | some order ↦ rollback_source source order_id order error s
]

unfoldable pub mark_trial : Order → ℕ → Option User → Dict ℕ User → Dict ℕ User
unfolding is_trial
mark_trial order now none users = users
mark_trial order now (some user) users =
    if is_trial order.plan
    then put order.user_id (record user { trial_used_at = at now }) users
    else users

unfoldable pub either : Option String → Option String → Option String
either none old = old
either (some new) old = some new

unfoldable pub approve_found : String → Option Order → Option String → ℕ → Store.Store → Store.Store
unfolding mark_trial either
approve_found order_id none service_id now s = s
approve_found order_id (some order) service_id now s = record s {
  users = mark_trial order now (get order.user_id s.users) s.users;
  orders =
      put order_id
        (record order {
          status = approved;
          approved_at = at now;
          service_id = either service_id order.service_id;
        })
        s.orders;
}

unfoldable pub approve_order : String → Option String → ℕ → Store.Store → Store.Store
unfolding approve_found
approve_order order_id service_id now s =
    approve_found order_id (get order_id s.orders) service_id now s

unfoldable pub settle :
    Method → String → ℕ → Option (Option String) × Store.Store → Reply (Unit {0}) × Store.Store
unfolding rollback_order approve_order
settle source order_id now (none, s) =
    (refused provisioning_failed, rollback_order source order_id "provisioning failed" s)
settle source order_id now (some service_id, s) = (ok tt, approve_order order_id service_id now s)

unfoldable pub after_begin :
    Method → String → Option String → ℕ → Reply Order × Store.Store → Reply (Unit {0}) × Store.Store
unfolding deliver settle
after_begin source order_id provisioned now (refused reason, s) = (refused reason, s)
after_begin source order_id provisioned now (ok order, s) =
    settle source order_id now (deliver order provisioned s)

-- `_finish_order` when nothing else runs in between.
unfoldable pub finish_order :
    Method → String → Option ℕ → Option String → ℕ → Store.Store → Reply (Unit {0}) × Store.Store
unfolding begin_finish after_begin
finish_order source order_id reviewer provisioned now s =
    after_begin source order_id provisioned now (begin_finish source order_id reviewer now s)

unfoldable pub audit_limit : ℕ
audit_limit = 5000

-- `xs[-n:]`
unfoldable pub last_items {ℓ} : {A : Type ℓ} → ℕ → List A → List A
last_items n xs = drop (length xs - n) xs

unfoldable pub redeem : ℕ → String → User → GiftCode → ℕ → Store.Store → Reply ℕ × Store.Store
unfolding audit_limit last_items
redeem user_id code user entry now s =
    if contains user_id entry.used_by
    then (refused gift_used, s)
    else if leb entry.max_uses (length entry.used_by)
    then (refused gift_exhausted, s)
    else if nat_eqb entry.amount 0
    then (refused gift_empty, s)
    else let line : Redemption = record {
      code = code;
      user_id = user_id;
      amount = entry.amount;
      at = now;
    } in
      (
        ok entry.amount,
        record s {
          users =
              put user_id
                (record user {
                  balance = user.balance + entry.amount;
                  gift_codes = user.gift_codes ++ code ∷ [];
                })
                s.users;
          gift_codes =
              put code (record entry { used_by = entry.used_by ++ user_id ∷ [] }) s.gift_codes;
          redemption_audit = last_items audit_limit (s.redemption_audit ++ line ∷ []);
        },
      )

unfoldable pub redeem_found :
    ℕ → String → Option User → Option GiftCode → ℕ → Store.Store → Reply ℕ × Store.Store
unfolding redeem expired_at
redeem_found user_id code (some user) (some entry) now s =
    if not entry.active || expired_at entry.expires_at now
    then (refused gift_invalid, s)
    else redeem user_id code user entry now s
redeem_found user_id code _ _ now s = (refused gift_invalid, s)

unfoldable pub redeem_gift : Config → ℕ → String → ℕ → Store.Store → Reply ℕ × Store.Store
unfolding redeem_found
redeem_gift c user_id text now s = elim (c.normalize_code text) [
  | none ↦ (refused bad_code, s)
  | some code ↦ redeem_found user_id code (get user_id s.users) (get code s.gift_codes) now s
]
