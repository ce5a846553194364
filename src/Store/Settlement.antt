-- ===== src/Store/Settlement.antt =====
-- The books on discount codes through the steps of `_finish_order` and `_redeem_gift` (telegram_bot.py).
use lumen_project_final.Prelude.{
  ℕ, ◌≡◌, refl, Option, none, some, String, arith, Option-cases, inl, inr,
}
use lumen_project_final.Prelude.Eq.{string_eq, nat_eq}
use lumen_project_final.Prelude.Dict.{get, put, get-le-total}
use lumen_project_final.Store.{Store, Order, User, GiftCode, Method, Config, Kind}
use lumen_project_final.Store.Codes.{reserve_discount, release_discount}
use lumen_project_final.Store.Finish.{
  begin_finish, begin_found, begin_user, begin_source, begin_card, begin_wallet, begin_free,
  free_reserved, deliver_kind, pay_wallet, pay_free, deliver, credit, rollback_order,
  rollback_source, approve_order, approve_found, redeem_gift, redeem_found, redeem,
}
use lumen_project_final.Store.Leaves.{Leaves, Leaves-if, leave}
use lumen_project_final.Store.Reservations.{
  IsBooked, IsBooked-put, IsBooked-keep, IsBooked-release, IsBooked-reserve, IsBooked-frame,
  is_sound, holds, reserve_uses, release_uses, reserve_order, release_order, reserve_capped,
  release_capped,
}

begin_card-IsBooked :
    (order_id : String) (order : Order) (reviewer : Option ℕ) (now : ℕ) (s : Store)
    → get order_id s.orders ≡ some order
    → IsBooked s
    → Leaves IsBooked (begin_card order_id order reviewer now s)
unfolding begin_card
begin_card-IsBooked order_id order reviewer now s found b =
    search (Leaves-if, leave, IsBooked-keep s _ order_id order _ b found refl refl refl refl)

-- A reservation that is given back at once leaves the books as they were.
module _ (s : Store) (order_id : String) (order : Order) (now : ℕ)
    (found : get order_id s.orders ≡ some order) (b : IsBooked s)
    (granted : (reserve_discount now order s.discount_codes).refusal ≡ none) where
  unreserve :
      let r = reserve_discount now order s.discount_codes in
      let q = release_discount r.order r.codes in
      IsBooked (record s { orders = put order_id q.0 s.orders; discount_codes = q.1 })
  unfolding is_sound
  unreserve =
      let r = reserve_discount now order s.discount_codes in
      IsBooked-put s _ order_id order (release_discount r.order r.codes).0 b found refl
        (λ code. omega (
          arith,
          reserve_uses now order s.discount_codes granted code,
          release_uses r.order r.codes code (
              omega (
                arith,
                reserve_uses now order s.discount_codes granted code,
                b.counted code,
                get-le-total (holds code) order_id order s.orders found,
              )),
        ))
        (λ code.
          release_capped r.order r.codes code
            (reserve_capped now order s.discount_codes code (b.capped code)))
        (ground (
          arith,
          reserve_order now order s.discount_codes granted,
          release_order r.order r.codes,
          b.sound order_id,
        ))

  pay_wallet-IsBooked :
      (user : User) (reviewer : Option ℕ)
      → let r = reserve_discount now order s.discount_codes in
        Leaves IsBooked (pay_wallet order_id r.order user r.codes reviewer now s)
  unfolding pay_wallet
  pay_wallet-IsBooked user reviewer =
      search (
        Leaves-if,
        leave,
        unreserve,
        IsBooked-reserve s _ order_id order _ b found refl now granted,
      )

pay_free-IsBooked :
    (s : Store) (order_id : String) (order : Order) (reviewer : Option ℕ) (now : ℕ)
    → get order_id s.orders ≡ some order
    → IsBooked s
    → (reserve_discount now order s.discount_codes).refusal ≡ none
    → let r = reserve_discount now order s.discount_codes in
      Leaves IsBooked (pay_free order_id r.order r.codes reviewer now s)
unfolding pay_free
pay_free-IsBooked s order_id order reviewer now found b granted =
    leave (IsBooked-reserve s _ order_id order _ b found refl now granted refl refl refl refl)

begin_wallet-IsBooked :
    (order_id : String) (order : Order) (user : User) (reviewer : Option ℕ) (now : ℕ) (s : Store)
    → get order_id s.orders ≡ some order
    → IsBooked s
    → Leaves IsBooked (begin_wallet order_id order user reviewer now s)
unfolding begin_wallet
begin_wallet-IsBooked order_id order user reviewer now s found b =
    elim (Option-cases (reserve_discount now order s.discount_codes).refusal) [
      | inl granted ↦
          rw (granted, begin_wallet)
            (pay_wallet-IsBooked s order_id order now found b granted user reviewer)
      | inr (reason, denied) ↦ rw (denied, begin_wallet) (leave b)
    ]

free_reserved-IsBooked :
    (order_id : String) (order : Order) (reviewer : Option ℕ) (now : ℕ) (s : Store)
    → get order_id s.orders ≡ some order
    → IsBooked s
    → Leaves IsBooked
        (free_reserved order_id (reserve_discount now order s.discount_codes) reviewer now s)
unfolding free_reserved
free_reserved-IsBooked order_id order reviewer now s found b =
    elim (Option-cases (reserve_discount now order s.discount_codes).refusal) [
      | inl granted ↦
          rw (granted, free_reserved)
            (pay_free-IsBooked s order_id order reviewer now found b granted)
      | inr (reason, denied) ↦ rw (denied, free_reserved) (leave b)
    ]

begin_free-IsBooked :
    (order_id : String) (order : Order) (reviewer : Option ℕ) (now : ℕ) (s : Store)
    → get order_id s.orders ≡ some order
    → IsBooked s
    → Leaves IsBooked (begin_free order_id order reviewer now s)
unfolding begin_free
begin_free-IsBooked order_id order reviewer now s found b =
    search (Leaves-if, leave, free_reserved-IsBooked order_id order reviewer now s found b)

begin_source-IsBooked :
    (source : Method) (order_id : String) (order : Order) (user : User) (reviewer : Option ℕ)
    (now : ℕ) (s : Store)
    → get order_id s.orders ≡ some order
    → IsBooked s
    → Leaves IsBooked (begin_source source order_id order user reviewer now s)
unfolding begin_source
begin_source-IsBooked Method.card order_id order user reviewer now s found b =
    begin_card-IsBooked order_id order reviewer now s found b
begin_source-IsBooked Method.wallet order_id order user reviewer now s found b =
    begin_wallet-IsBooked order_id order user reviewer now s found b
begin_source-IsBooked Method.free order_id order user reviewer now s found b =
    begin_free-IsBooked order_id order reviewer now s found b

begin_user-IsBooked :
    (source : Method) (order_id : String) (order : Order) (u : Option User) (reviewer : Option ℕ)
    (now : ℕ) (s : Store)
    → get order_id s.orders ≡ some order
    → IsBooked s
    → Leaves IsBooked (begin_user source order_id order u reviewer now s)
unfolding begin_user
begin_user-IsBooked source order_id order none reviewer now s found b = leave b
begin_user-IsBooked source order_id order (some user) reviewer now s found b =
    search
      (Leaves-if, leave, begin_source-IsBooked source order_id order user reviewer now s found b)

begin_found-IsBooked :
    (source : Method) (order_id : String) (o : Option Order) (reviewer : Option ℕ) (now : ℕ)
    (s : Store)
    → get order_id s.orders ≡ o
    → IsBooked s
    → Leaves IsBooked (begin_found source order_id o reviewer now s)
unfolding begin_found
begin_found-IsBooked source order_id none reviewer now s found b = leave b
begin_found-IsBooked source order_id (some order) reviewer now s found b = search (
  Leaves-if,
  leave,
  begin_user-IsBooked source order_id order (get order.user_id s.users) reviewer now s found b,
)

pub begin_finish-IsBooked :
    (source : Method) (order_id : String) (reviewer : Option ℕ) (now : ℕ) (s : Store)
    → IsBooked s
    → Leaves IsBooked (begin_finish source order_id reviewer now s)
unfolding begin_finish
begin_finish-IsBooked source order_id reviewer now s b =
    begin_found-IsBooked source order_id (get order_id s.orders) reviewer now s refl b

credit-IsBooked :
    (user_id amount : ℕ) (u : Option User) (s : Store)
    → IsBooked s
    → Leaves IsBooked (credit user_id amount u s)
unfolding credit
credit-IsBooked user_id amount none s b = leave b
credit-IsBooked user_id amount (some user) s b = leave (IsBooked-frame s _ b refl refl)

deliver_kind-IsBooked :
    (kind : Kind) (order : Order) (provisioned : Option String) (s : Store)
    → IsBooked s
    → Leaves IsBooked (deliver_kind kind order provisioned s)
unfolding deliver_kind
deliver_kind-IsBooked Kind.wallet order provisioned s b =
    credit-IsBooked order.user_id order.amount (get order.user_id s.users) s b
deliver_kind-IsBooked _ order provisioned s b = leave b

pub deliver-IsBooked :
    (order : Order) (provisioned : Option String) (s : Store)
    → IsBooked s
    → Leaves IsBooked (deliver order provisioned s)
unfolding deliver
deliver-IsBooked order provisioned s b = deliver_kind-IsBooked order.kind order provisioned s b

rollback_source-IsBooked :
    (source : Method) (order_id : String) (order : Order) (error : String) (s : Store)
    → get order_id s.orders ≡ some order
    → IsBooked s
    → IsBooked (rollback_source source order_id order error s)
unfolding rollback_source
rollback_source-IsBooked Method.card order_id order error s found b =
    IsBooked-keep s _ order_id order _ b found refl refl refl refl refl
rollback_source-IsBooked _ order_id order error s found b =
    IsBooked-release s _ order_id order _ b found refl refl refl refl

pub rollback_order-IsBooked :
    (source : Method) (order_id error : String) (s : Store)
    → IsBooked s
    → IsBooked (rollback_order source order_id error s)
unfolding rollback_order
rollback_order-IsBooked source order_id error s b = elim (Option-cases (get order_id s.orders)) [
  | inl missing ↦ rw (missing, rollback_order) b
  | inr (order, found) ↦
      rw (found, rollback_order) (rollback_source-IsBooked source order_id order error s found b)
]

approve_found-IsBooked :
    (order_id : String) (o : Option Order) (service_id : Option String) (now : ℕ) (s : Store)
    → get order_id s.orders ≡ o
    → IsBooked s
    → IsBooked (approve_found order_id o service_id now s)
unfolding approve_found
approve_found-IsBooked order_id none service_id now s found b = b
approve_found-IsBooked order_id (some order) service_id now s found b =
    IsBooked-keep s _ order_id order _ b found refl refl refl refl refl

pub approve_order-IsBooked :
    (order_id : String) (service_id : Option String) (now : ℕ) (s : Store)
    → IsBooked s
    → IsBooked (approve_order order_id service_id now s)
unfolding approve_order
approve_order-IsBooked order_id service_id now s b =
    approve_found-IsBooked order_id (get order_id s.orders) service_id now s refl b

redeem-IsBooked :
    (user_id : ℕ) (code : String) (user : User) (entry : GiftCode) (now : ℕ) (s : Store)
    → IsBooked s
    → Leaves IsBooked (redeem user_id code user entry now s)
unfolding redeem
redeem-IsBooked user_id code user entry now s b =
    search (Leaves-if, leave, IsBooked-frame s _ b refl refl)

redeem_found-IsBooked :
    (user_id : ℕ) (code : String) (u : Option User) (g : Option GiftCode) (now : ℕ) (s : Store)
    → IsBooked s
    → Leaves IsBooked (redeem_found user_id code u g now s)
unfolding redeem_found
redeem_found-IsBooked user_id code (some user) (some entry) now s b =
    search (Leaves-if, leave, redeem-IsBooked user_id code user entry now s b)
redeem_found-IsBooked user_id code _ _ now s b = leave b

pub redeem_gift-IsBooked :
    (c : Config) (user_id : ℕ) (text : String) (now : ℕ) (s : Store)
    → IsBooked s
    → Leaves IsBooked (redeem_gift c user_id text now s)
unfolding redeem_gift
redeem_gift-IsBooked c user_id text now s b = elim (Option-cases (c.normalize_code text)) [
  | inl bad ↦ rw (bad, redeem_gift) (leave b)
  | inr (code, good) ↦
      rw (good, redeem_gift)
        (redeem_found-IsBooked user_id code (get user_id s.users) (get code s.gift_codes) now s b)
]
