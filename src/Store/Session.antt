-- ===== src/Store/Session.antt =====
-- The bot as its handlers interleave: each event runs one locked section of telegram_bot.py.
-- `_provision_lock` lets one `_finish_order` be under way at a time: its three sections are the
-- events `finishes`, `delivers` and `completes`, and any other event may come in between.
use lumen_project_final.Prelude.{
  ℕ, ◌<◌, ◌≡◌, refl, Option, none, some, String, List, [], ◌∷◌, arith,
}
use lumen_project_final.Prelude.Text.{cut}
use lumen_project_final.Prelude.Eq.{nat_eq, string_eq, ==_iff}
use lumen_project_final.Prelude.Dict.{get, put, total, get-put, get-put_self}
use lumen_project_final.Store
use lumen_project_final.Store.{
  at, unset, DiscountType, Kind, Method, Plan, Order, User, Reply, ok, refused, Settings, Config,
}
use lumen_project_final.Store.Orders.{
  create_order, cancel_order, apply_discount, cancel_waiting_order, expire_stale_orders,
  start_payment, submit_receipt, reject_order,
}
use lumen_project_final.Store.Finish.{
  begin_finish, deliver, approve_order, rollback_order, redeem_gift,
}
use lumen_project_final.Store.Admin.{new_code, publish_discount, publish_gift, set_card}
use lumen_project_final.Store.Provision.{join_group}
use lumen_project_final.Store.Reservations.{IsBooked, holds, IsBooked-frame}
use lumen_project_final.Store.Booking.{
  create_order-IsBooked, cancel_order-IsBooked, apply_discount-IsBooked,
  cancel_waiting_order-IsBooked, expire_stale_orders-IsBooked, start_payment-IsBooked,
  submit_receipt-IsBooked, reject_order-IsBooked,
}
use lumen_project_final.Store.Settlement.{
  begin_finish-IsBooked, deliver-IsBooked, approve_order-IsBooked, rollback_order-IsBooked,
  redeem_gift-IsBooked,
}

unfoldable pub seen_user : ℕ → String → String → ℕ → Option User → User
seen_user user_id username first_name now none = record {
  id = user_id;
  username = username;
  first_name = first_name;
  balance = 0;
  created_at = at now;
  last_seen_at = at now;
  sub_id = none;
  gift_codes = [];
  trial_used_at = unset;
}
seen_user user_id username first_name now (some user) = record user {
  username = username;
  first_name = first_name;
  last_seen_at = at now;
}

-- `_ensure_user`: a new user starts with an empty wallet, a known one keeps it.
unfoldable pub ensure_user : ℕ → String → String → ℕ → Store.Store → Store.Store
unfolding seen_user
ensure_user user_id username first_name now s = record s {
  users = put user_id (seen_user user_id username first_name now (get user_id s.users)) s.users;
}

-- Where the running `_finish_order` stands.
pub data Pending : Type 0 where
  idle : Pending
  delivering : Method → String → Order → Pending
  delivered : Method → String → Option (Option String) → Pending

pub record Session : Type 0 where
  pub store : Store.Store
  pub pending : Pending

pub data Event : Type 0 where
  enrols : ℕ → String → String → Event
  creates : List String → ℕ → Kind → Option Plan → Option String → Option ℕ → Event
  cancels cancels_waiting pays : String → ℕ → Event
  discounts : String → ℕ → String → Event
  expires : Event
  submits : ℕ → String → Option String → Event
  rejects : String → ℕ → Event
  redeems : ℕ → String → Event
  finishes : Method → String → Option ℕ → Event
  delivers : Option String → Event
  completes : (error : String) → Event
  publishes : String → DiscountType → ℕ → ℕ → ℕ → Event
  gives : String → ℕ → ℕ → ℕ → Event
  sets_card : String → String → Event
  joins : ℕ → String → Event

begun : Method → String → Reply Order × Store.Store → Session
begun source order_id (refused reason, s) = record { store = s; pending = idle }
begun source order_id (ok order, s) = record {
  store = s;
  pending = delivering source order_id order;
}

-- The events of `_finish_order`. One that does not come next waits, and changes nothing.
finish_step : Pending → ℕ → Event → Store.Store → Session
unfolding begun
finish_step idle now (finishes source order_id reviewer) s =
    begun source order_id (begin_finish source order_id reviewer now s)
finish_step (delivering source order_id order) now (delivers provisioned) s =
    let made = deliver order provisioned s in
    record { store = made.1; pending = delivered source order_id made.0 }
finish_step (delivered source order_id none) now (completes error) s = record {
  store = rollback_order source order_id (cut 300 error) s;
  pending = idle;
}
finish_step (delivered source order_id (some service_id)) now (completes error) s = record {
  store = approve_order order_id service_id now s;
  pending = idle;
}
finish_step pending now event s = record { store = s; pending = pending }

-- Any other event changes the store alone.
store_step : Config → ℕ → Event → Store.Store → Store.Store
store_step c now (enrols user_id username first_name) s =
    ensure_user user_id username first_name now s
store_step c now (creates tokens user_id kind plan service_id amount) s =
    (create_order tokens user_id kind plan service_id amount now s).1
store_step c now (cancels order_id user_id) s = (cancel_order order_id user_id now s).1
store_step c now (cancels_waiting order_id user_id) s =
    (cancel_waiting_order order_id user_id now s).1
store_step c now (pays order_id user_id) s = (start_payment c order_id user_id now s).1
store_step c now (discounts order_id user_id text) s =
    (apply_discount c order_id user_id text now s).1
store_step c now expires s = expire_stale_orders c now s
store_step c now (submits user_id receipt order_id) s =
    (submit_receipt user_id receipt order_id now s).1
store_step c now (rejects order_id admin_id) s = (reject_order order_id admin_id now s).1
store_step c now (redeems user_id text) s = (redeem_gift c user_id text now s).1
store_step c now (publishes code type value max_uses days) s =
    publish_discount code type value max_uses days now s
store_step c now (gives code amount max_uses days) s = publish_gift code amount max_uses days now s
store_step c now (sets_card number holder) s = set_card number holder s
store_step c now (joins user_id sub_id) s = record s {
  users = join_group user_id sub_id (get user_id s.users) s.users;
}
store_step c now _ s = s

unfoldable pub step : Config → ℕ × Event → Session → Session
unfolding finish_step store_step
step c (now, event) q = finish_step q.pending now event (store_step c now event q.store)

unfoldable pub run : Config → List (ℕ × Event) → Session → Session
run c [] q = q
run c (event ∷ events) q = run c events (step c event q)

abbrev pub empty_store : Settings → Store.Store
empty_store settings = record {
  users = [];
  orders = [];
  gift_codes = [];
  discount_codes = [];
  redemption_audit = [];
  settings = settings;
}

abbrev pub start : Store.Store → Session
start s = record { store = s; pending = idle }

-- An admin's new discount code is not one that is there.
abbrev pub IsNew : Event → Store.Store → Type 0
IsNew (publishes code type value max_uses days) s = get code s.discount_codes ≡ none
IsNew event s = Unit {0}

abbrev pub AllNew : Config → List (ℕ × Event) → Session → Type 0
AllNew c [] q = Unit {0}
AllNew c ((now, event) ∷ events) q = IsNew event q.store × AllNew c events (step c (now, event) q)

publish_discount-IsBooked :
    (code : String) (type : DiscountType) (value max_uses days now : ℕ) (s : Store.Store)
    → get code s.discount_codes ≡ none
    → IsBooked s
    → IsBooked (publish_discount code type value max_uses days now s)
unfolding publish_discount
publish_discount-IsBooked code type value max_uses days now s fresh b = record {
  counted = λ j. ground (
    arith,
    b.counted j,
    get-put code j (new_code type value max_uses days now) s.discount_codes,
    fresh,
    ==_iff code j,
  );
  capped = λ j.
      ground (
        arith,
        b.capped j,
        get-put code j (new_code type value max_uses days now) s.discount_codes,
      );
  sound = b.sound;
}

store_step-IsBooked :
    (c : Config) (now : ℕ) (event : Event) (s : Store.Store)
    → IsNew event s
    → IsBooked s
    → IsBooked (store_step c now event s)
unfolding store_step ensure_user publish_gift set_card
store_step-IsBooked c now (enrols user_id username first_name) s new b =
    IsBooked-frame s _ b refl refl
store_step-IsBooked c now (creates tokens user_id kind plan service_id amount) s new b =
    (create_order-IsBooked tokens user_id kind plan service_id amount now s b).holds
store_step-IsBooked c now (cancels order_id user_id) s new b =
    (cancel_order-IsBooked order_id user_id now s b).holds
store_step-IsBooked c now (cancels_waiting order_id user_id) s new b =
    (cancel_waiting_order-IsBooked order_id user_id now s b).holds
store_step-IsBooked c now (pays order_id user_id) s new b =
    (start_payment-IsBooked c order_id user_id now s b).holds
store_step-IsBooked c now (discounts order_id user_id text) s new b =
    (apply_discount-IsBooked c order_id user_id text now s b).holds
store_step-IsBooked c now expires s new b = expire_stale_orders-IsBooked c now s b
store_step-IsBooked c now (submits user_id receipt order_id) s new b =
    (submit_receipt-IsBooked user_id receipt order_id now s b).holds
store_step-IsBooked c now (rejects order_id admin_id) s new b =
    (reject_order-IsBooked order_id admin_id now s b).holds
store_step-IsBooked c now (redeems user_id text) s new b =
    (redeem_gift-IsBooked c user_id text now s b).holds
store_step-IsBooked c now (publishes code type value max_uses days) s new b =
    publish_discount-IsBooked code type value max_uses days now s new b
store_step-IsBooked c now (gives code amount max_uses days) s new b = IsBooked-frame s _ b refl refl
store_step-IsBooked c now (sets_card number holder) s new b = IsBooked-frame s _ b refl refl
store_step-IsBooked c now (joins user_id sub_id) s new b = IsBooked-frame s _ b refl refl
store_step-IsBooked c now (finishes source order_id reviewer) s new b = b
store_step-IsBooked c now (delivers provisioned) s new b = b
store_step-IsBooked c now (completes error) s new b = b

begun-IsBooked :
    (source : Method) (order_id : String) (r : Reply Order × Store.Store)
    → IsBooked r.1
    → IsBooked (begun source order_id r).store
unfolding begun
begun-IsBooked source order_id (refused reason, s) b = b
begun-IsBooked source order_id (ok order, s) b = b

finish_step-IsBooked :
    (pending : Pending) (now : ℕ) (event : Event) (s : Store.Store)
    → IsBooked s
    → IsBooked (finish_step pending now event s).store
unfolding finish_step
finish_step-IsBooked idle now (finishes source order_id reviewer) s b =
    begun-IsBooked source order_id _ (begin_finish-IsBooked source order_id reviewer now s b).holds
finish_step-IsBooked (delivering source order_id order) now (delivers provisioned) s b =
    (deliver-IsBooked order provisioned s b).holds
finish_step-IsBooked (delivered source order_id none) now (completes error) s b =
    rollback_order-IsBooked source order_id _ s b
finish_step-IsBooked (delivered source order_id (some service_id)) now (completes error) s b =
    approve_order-IsBooked order_id service_id now s b
finish_step-IsBooked pending now event s b = b

-- Whatever the events and their order, from books that balance, as long as no admin publishes a
-- discount code that is there already: every discount code is counted as often as there are orders
-- that hold a reservation of it, never past its limit, and no draft holds one.
pub run-IsBooked :
    (c : Config) (events : List (ℕ × Event)) (q : Session)
    → AllNew c events q
    → IsBooked q.store
    → IsBooked (run c events q).store
unfolding run step
run-IsBooked c [] q new b = b
run-IsBooked c ((now, event) ∷ events) q new b =
    run-IsBooked c events _ new.1
      (finish_step-IsBooked q.pending now event _ (store_step-IsBooked c now event q.store new.0 b))

-- A published discount code that an order holds a reservation of is not counted any more.
pub publish_discount_unbooks :
    (code : String) (type : DiscountType) (value max_uses days now : ℕ) (s : Store.Store)
    → 0 < total (holds code) s.orders
    → ¬ IsBooked (publish_discount code type value max_uses days now s)
unfolding publish_discount
publish_discount_unbooks code type value max_uses days now s held b = absurd (
    ground (
      arith,
      b.counted code,
      held,
      get-put_self code (new_code type value max_uses days now) s.discount_codes,
    ))
