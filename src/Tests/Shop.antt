-- ===== src/Tests/Shop.antt =====
-- The store of telegram_bot.py on concrete orders and codes.
use lumen_project_final.Prelude.{ℕ, ◌≡◌, ◌<◌, refl, true, false, none, some, List, [], ◌∷◌, arith}
use lumen_project_final.Prelude.Eq.{string_eq, nat_eq}
use lumen_project_final.Prelude.Dict.{put, get, total}
use lumen_project_final.Prelude.Member.{contains}
use lumen_project_final.Store
use lumen_project_final.Store.{
  User, Method, at, unset, percent, DiscountCode, Plan, Settings, Config, Kind,
}
use lumen_project_final.Store.Reservations.{IsBooked, is_sound, holds}
use lumen_project_final.Store.Admin.{publish_discount}
use lumen_project_final.Store.Orders.{fresh_order, start_payment, apply_discount, create_order}
use lumen_project_final.Store.Finish.{finish_order, begin_finish}
use lumen_project_final.Store.Purse.{purse, finish_order-purse}
use lumen_project_final.Store.Session.{
  Event, run, start, AllNew, run-IsBooked, step, ensure_user, publish_discount_unbooks, enrols,
  creates, discounts, pays, publishes, cancels_waiting,
}

abbrev half_price : DiscountCode
half_price = record {
  type = percent;
  value = 50;
  max_uses = 1;
  uses = 0;
  used_by = [];
  orders = [];
  active = true;
  expires_at = unset;
}

abbrev pub monthly : Plan
monthly = record {
  id = "p1";
  quota_bytes = 1000;
  days = 30;
  price = 200;
  trial = false;
  active = true;
}

abbrev shop : Store.Store
shop = record {
  users = [];
  orders = [];
  gift_codes = [];
  discount_codes = ("HALF", half_price) ∷ [];
  redemption_audit = [];
  settings = record { card_number = "6037"; card_holder = "Lumen" };
}

abbrev config : Config
config = record { admin_ids = 1 ∷ []; receipt_timeout = 1000; normalize_code = λ text. some text }

-- A customer orders, takes the code, pays by card, and cancels while the receipt is waited for; in
-- between an admin publishes another code.
abbrev visit : List (ℕ × Event)
visit =
    (1, enrols 7 "ali" "Ali")
    ∷ (2, creates ("o1" ∷ []) 7 Kind.new (some monthly) none none)
    ∷ (3, discounts "o1" 7 "HALF")
    ∷ (4, pays "o1" 7)
    ∷ (5, publishes "SPRING" percent 10 5 30)
    ∷ (6, cancels_waiting "o1" 7)
    ∷ []

shop-IsBooked : IsBooked shop
unfolding get total is_sound
shop-IsBooked = record {
  counted = λ code. ground arith;
  capped = λ code. ground arith;
  sound = λ k. refl;
}

-- The other code is new when it is published.
visit_new : AllNew config visit (start shop)
unfolding get run step start_payment apply_discount create_order ensure_user put contains
visit_new = (tt, (tt, (tt, (tt, (refl, (tt, tt))))))

run-IsBooked_example : IsBooked (run config visit (start shop)).store
run-IsBooked_example = run-IsBooked config visit (start shop) visit_new shop-IsBooked

-- An order that waits for a receipt holds a reservation of the code.
abbrev waiting : Store.Store
waiting = record shop {
  orders =
      (
        "o1",
        record (fresh_order "o1" 7 Kind.new (some monthly) none 200 1) {
          status = Store.Status.awaiting_receipt;
          discount_code = some "HALF";
          discount_reserved = true;
        },
      )
      ∷ [];
}

one_held : 0 < total (holds "HALF") waiting.orders
unfolding total holds fresh_order
one_held = omega arith

publish_discount_unbooks_example : ¬ IsBooked (publish_discount "HALF" percent 10 5 30 9 waiting)
publish_discount_unbooks_example =
    publish_discount_unbooks "HALF" percent 10 5 30 9 waiting one_held

abbrev pub customer : User
customer = record {
  id = 7;
  username = "ali";
  first_name = "Ali";
  balance = 500;
  created_at = at 1;
  last_seen_at = at 1;
  sub_id = none;
  gift_codes = [];
  trial_used_at = unset;
}

-- A draft is paid from the wallet, and the service cannot be made.
abbrev ordered : Store.Store
ordered = record shop {
  users = (7, customer) ∷ [];
  orders = ("o1", fresh_order "o1" 7 Kind.new (some monthly) none 200 2) ∷ [];
}

finish_order-purse_example :
    purse (finish_order Method.wallet "o1" none none 3 ordered).1 ≡ purse ordered
unfolding finish_order begin_finish get put fresh_order
finish_order-purse_example = finish_order-purse Method.wallet "o1" none none 3 ordered refl
