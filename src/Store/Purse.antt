-- ===== src/Store/Purse.antt =====
-- The wallets through `_finish_order` (telegram_bot.py).
use lumen_project_final.Prelude.{
  ℕ, ◌+◌, ◌-◌, ◌≡◌, refl, Bool, true, false, not, ◌&&◌, Option, none, some, String, ltb, nat_eqb,
  arith, is_some, Option-cases, Bool-cases, if_cases, inl, inr,
}
use lumen_project_final.Prelude.Eq.{string_eq, nat_eq}
use lumen_project_final.Prelude.Dict.{Dict, get, total, get-put_self, total-put}
use lumen_project_final.Store
use lumen_project_final.Store.{
  Method, Order, User, Reply, ok, refused, Kind, is_approved, DiscountCode, Refusal,
}
use lumen_project_final.Store.Codes.{Reserved, reserve_discount}
use lumen_project_final.Store.Reservations.{reserve_order}
use lumen_project_final.Store.Finish.{
  is_trial, is_set, is_payable, to_processing, pay_wallet, pay_free, begin_card, begin_wallet,
  free_reserved, begin_free, begin_source, begin_user, begin_found, begin_finish, credit,
  deliver_kind, deliver, refund, rollback_source, rollback_order, settle, after_begin, finish_order,
}

abbrev balance_of : User → ℕ
balance_of user = user.balance

-- What all wallets hold.
unfoldable pub purse : Store.Store → ℕ
purse s = total balance_of s.users

-- What a wallet has paid for an order that is being delivered.
paid_by : Method → Order → ℕ
paid_by Method.wallet order = order.amount
paid_by _ order = 0

-- After the first section: the order is kept, its user is there, and only a wallet has paid.
record Paid (s : Store.Store) (source : Method) (order_id : String) (paid : Order)
    (s' : Store.Store) : Type 0 where
  kept : get order_id s'.orders ≡ some paid
  there : is_some (get paid.user_id s'.users) ≡ true
  cost : purse s' + paid_by source paid ≡ purse s

Begun : Store.Store → Method → String → Reply Order × Store.Store → Type 0
Begun s source order_id (refused reason, s') = purse s' ≡ purse s
Begun s source order_id (ok paid, s') = Paid s source order_id paid s'

-- A refusal that leaves the store.
Begun-refused :
    (source : Method) (order_id : String) (reason : Refusal) (s : Store.Store)
    → Begun s source order_id (refused reason, s)
unfolding Begun
Begun-refused source order_id reason s = refl

Begun-ok :
    (s s' : Store.Store) (source : Method) (order_id : String) (paid : Order)
    → Paid s source order_id paid s'
    → Begun s source order_id (ok paid, s')
unfolding Begun
Begun-ok s s' source order_id paid v = v

reserved-user_id :
    (now : ℕ) (order : Order) (codes : Dict String DiscountCode)
    → (reserve_discount now order codes).refusal ≡ none
    → (reserve_discount now order codes).order.user_id ≡ order.user_id
reserved-user_id now order codes granted = rw (reserve_order now order codes granted)

pay_wallet-Begun :
    (order_id : String) (order : Order) (user : User) (codes : Dict String DiscountCode)
    (reviewer : Option ℕ) (now : ℕ) (s : Store.Store)
    → get order.user_id s.users ≡ some user
    → Begun s Method.wallet order_id (pay_wallet order_id order user codes reviewer now s)
unfolding pay_wallet Begun purse to_processing paid_by
pay_wallet-Begun order_id order user codes reviewer now s found =
    let user' : User = record user { balance = user.balance - order.amount } in
    elim (Bool-cases (ltb user.balance order.amount)) [
      | inl poor ↦ rw (poor, pay_wallet) refl
      | inr rich ↦
          rw (rich, pay_wallet)
            (record {
              kept = get-put_self order_id _ s.orders;
              there = ground (arith, get-put_self order.user_id user' s.users);
              cost = ground (arith, total-put balance_of order.user_id user user' s.users found);
            })
    ]

begin_wallet-Begun :
    (order_id : String) (order : Order) (user : User) (reviewer : Option ℕ) (now : ℕ)
    (s : Store.Store)
    → get order.user_id s.users ≡ some user
    → Begun s Method.wallet order_id (begin_wallet order_id order user reviewer now s)
unfolding begin_wallet
begin_wallet-Begun order_id order user reviewer now s found =
    let r = reserve_discount now order s.discount_codes in
    elim (Option-cases r.refusal) [
      | inl granted ↦
          rw (granted, begin_wallet)
            (pay_wallet-Begun order_id r.order user r.codes reviewer now s
              (rw (reserved-user_id now order s.discount_codes granted, found)))
      | inr (reason, denied) ↦
          rw (denied, begin_wallet) (Begun-refused Method.wallet order_id reason s)
    ]

free_reserved-Begun :
    (order_id : String) (r : Reserved) (reviewer : Option ℕ) (now : ℕ) (s : Store.Store)
    → (r.refusal ≡ none → is_some (get r.order.user_id s.users) ≡ true)
    → Begun s Method.free order_id (free_reserved order_id r reviewer now s)
unfolding free_reserved pay_free Begun purse to_processing paid_by
free_reserved-Begun order_id r reviewer now s there = elim (Option-cases r.refusal) [
  | inl granted ↦
      rw (granted, free_reserved)
        (record {
          kept = get-put_self order_id _ s.orders;
          there = there granted;
          cost = omega arith;
        })
  | inr (reason, denied) ↦ rw (denied, free_reserved) refl
]

begin_source-Begun :
    (source : Method) (order_id : String) (order : Order) (user : User) (reviewer : Option ℕ)
    (now : ℕ) (s : Store.Store)
    → get order.user_id s.users ≡ some user
    → Begun s source order_id (begin_source source order_id order user reviewer now s)
unfolding begin_source begin_card begin_free purse to_processing paid_by
begin_source-Begun Method.card order_id order user reviewer now s found =
    if_cases (Begun s Method.card order_id) (nat_eqb order.amount 0)
      (λ free. Begun-refused Method.card order_id _ s)
      (λ _.
        Begun-ok s _ Method.card order_id _ (record {
          kept = get-put_self order_id _ s.orders;
          there = rw found;
          cost = omega arith;
        }))
begin_source-Begun Method.wallet order_id order user reviewer now s found =
    begin_wallet-Begun order_id order user reviewer now s found
begin_source-Begun Method.free order_id order user reviewer now s found =
    if_cases (Begun s Method.free order_id) (not (nat_eqb order.amount 0))
      (λ priced. Begun-refused Method.free order_id _ s)
      (λ _.
        free_reserved-Begun order_id (reserve_discount now order s.discount_codes) reviewer now s
          (λ granted. rw (reserved-user_id now order s.discount_codes granted, found)))

begin_user-Begun :
    (source : Method) (order_id : String) (order : Order) (u : Option User) (reviewer : Option ℕ)
    (now : ℕ) (s : Store.Store)
    → get order.user_id s.users ≡ u
    → Begun s source order_id (begin_user source order_id order u reviewer now s)
unfolding begin_user
begin_user-Begun source order_id order none reviewer now s found = Begun-refused source order_id _ s
begin_user-Begun source order_id order (some user) reviewer now s found =
    if_cases (Begun s source order_id) (is_trial order.plan && is_set user.trial_used_at)
      (λ used. Begun-refused source order_id _ s)
      (λ _. begin_source-Begun source order_id order user reviewer now s found)

begin_found-Begun :
    (source : Method) (order_id : String) (o : Option Order) (reviewer : Option ℕ) (now : ℕ)
    (s : Store.Store)
    → Begun s source order_id (begin_found source order_id o reviewer now s)
unfolding begin_found
begin_found-Begun source order_id none reviewer now s = Begun-refused source order_id _ s
begin_found-Begun source order_id (some order) reviewer now s =
    if_cases (Begun s source order_id) (is_approved order.status)
      (λ done. Begun-refused source order_id _ s)
      (λ _.
        if_cases (Begun s source order_id) (not (is_payable source order.status))
          (λ wrong. Begun-refused source order_id _ s)
          (λ _.
            begin_user-Begun source order_id order (get order.user_id s.users) reviewer now s refl))

refund-total :
    (user_id amount : ℕ) (u : Option User) (users : Dict ℕ User)
    → get user_id users ≡ u
    → is_some u ≡ true
    → total balance_of (refund user_id amount u users) ≡ total balance_of users + amount
unfolding refund
refund-total user_id amount none users found there = absurd (ground arith)
refund-total user_id amount (some user) users found there = ground (
  arith,
  total-put balance_of user_id user (record user { balance = user.balance + amount }) users found,
)

rollback-purse :
    (s s' : Store.Store) (source : Method) (order_id error : String) (paid : Order)
    → Paid s source order_id paid s'
    → purse (rollback_order source order_id error s') ≡ purse s
unfolding rollback_order rollback_source purse paid_by
rollback-purse s s' Method.card order_id error paid v =
    rw (v.kept, rollback_order) (omega (arith, v.cost))
rollback-purse s s' Method.free order_id error paid v =
    rw (v.kept, rollback_order) (omega (arith, v.cost))
rollback-purse s s' Method.wallet order_id error paid v =
    rw (v.kept, rollback_order)
      (omega (
        arith,
        v.cost,
        refund-total paid.user_id paid.amount (get paid.user_id s'.users) s'.users refl v.there,
      ))

credit-undone :
    (user_id amount : ℕ) (u : Option User) (s : Store.Store)
    → (credit user_id amount u s).0 ≡ none
    → (credit user_id amount u s).1 ≡ s
unfolding credit
credit-undone user_id amount none s failed = refl
credit-undone user_id amount (some user) s failed = absurd (ground arith)

deliver_kind-undone :
    (kind : Kind) (order : Order) (provisioned : Option String) (s : Store.Store)
    → (deliver_kind kind order provisioned s).0 ≡ none
    → (deliver_kind kind order provisioned s).1 ≡ s
unfolding deliver_kind
deliver_kind-undone Kind.wallet order provisioned s failed =
    credit-undone order.user_id order.amount (get order.user_id s.users) s failed
deliver_kind-undone Kind.new order provisioned s failed = refl
deliver_kind-undone Kind.renew order provisioned s failed = refl
deliver_kind-undone (Kind.other name) order provisioned s failed = refl

-- A delivery that fails has changed nothing.
deliver-undone :
    (order : Order) (provisioned : Option String) (s : Store.Store)
    → (deliver order provisioned s).0 ≡ none
    → (deliver order provisioned s).1 ≡ s
unfolding deliver
deliver-undone order provisioned s failed =
    deliver_kind-undone order.kind order provisioned s failed

abbrev pub is_refused {ℓ} : {A : Type ℓ} → Reply A → Bool
is_refused (ok a) = false
is_refused (refused reason) = true

settle-purse :
    (s s' : Store.Store) (source : Method) (order_id : String) (paid : Order) (now : ℕ)
    (d : Option (Option String) × Store.Store)
    → Paid s source order_id paid s'
    → (d.0 ≡ none → d.1 ≡ s')
    → is_refused (settle source order_id now d).0 ≡ true
    → purse (settle source order_id now d).1 ≡ purse s
unfolding settle
settle-purse s s' source order_id paid now (none, s'') v undone h =
    rw (undone refl, rollback-purse s s' source order_id "provisioning failed" paid v)
settle-purse s s' source order_id paid now (some service_id, s'') v undone h = absurd (ground arith)

after_begin-purse :
    (s : Store.Store) (source : Method) (order_id : String) (provisioned : Option String) (now : ℕ)
    (r : Reply Order × Store.Store)
    → Begun s source order_id r
    → is_refused (after_begin source order_id provisioned now r).0 ≡ true
    → purse (after_begin source order_id provisioned now r).1 ≡ purse s
unfolding after_begin Begun
after_begin-purse s source order_id provisioned now (refused reason, s') v h = v
after_begin-purse s source order_id provisioned now (ok paid, s') v h =
    settle-purse s s' source order_id paid now (deliver paid provisioned s') v
      (deliver-undone paid provisioned s') h

-- A purchase that ends in a refusal, with no other section in between, costs nothing: whether it was
-- refused at the start, or paid from the wallet and taken back because no service could be made, all
-- wallets together hold what they held before.
pub finish_order-purse :
    (source : Method) (order_id : String) (reviewer : Option ℕ) (provisioned : Option String)
    (now : ℕ) (s : Store.Store)
    → is_refused (finish_order source order_id reviewer provisioned now s).0 ≡ true
    → purse (finish_order source order_id reviewer provisioned now s).1 ≡ purse s
unfolding finish_order begin_finish
finish_order-purse source order_id reviewer provisioned now s h =
    after_begin-purse s source order_id provisioned now _
      (begin_found-Begun source order_id (get order_id s.orders) reviewer now s) h
