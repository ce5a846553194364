-- ===== src/Store/Reservations.antt =====
-- The books on discount codes: a code's use counter against the orders that hold a reservation.
use lumen_project_final.Prelude.{
  sym, ap, ℕ, ◌+◌, ◌≤◌, ◌≡◌, refl, Bool, true, false, not, ◌&&◌, ◌||◌, Option, none, some, String,
  if◌then◌else◌, arith, is_some, Option-cases, inl, inr,
}
use lumen_project_final.Prelude.Eq.{◌==◌, string_eq, ==_iff}
use lumen_project_final.Prelude.Dict.{
  total-put_new, get-le-total, Dict, get, put, total, get-put, total-put,
}
use lumen_project_final.Store.{Store, Order, DiscountCode, is_draft}
use lumen_project_final.Store.Codes.{
  take_use, give_back_use, reserve_code, reserve_discount, release_code, release_discount,
}

abbrev pub code_is : String → Option String → Bool
code_is code none = false
code_is code (some c) = c == code

-- 1 for an order that holds a reservation of the code.
unfoldable pub holds : String → Order → ℕ
holds code order = if order.discount_reserved && code_is code order.discount_code then 1 else 0

abbrev pub uses_of : Option DiscountCode → ℕ
uses_of none = 0
uses_of (some entry) = entry.uses

abbrev pub room_of : Option DiscountCode → ℕ
room_of none = 0
room_of (some entry) = entry.max_uses

-- A reservation names a code, and a draft holds none.
unfoldable pub is_sound : Option Order → Bool
is_sound none = true
is_sound (some order) =
    if order.discount_reserved
    then is_some order.discount_code && not (is_draft order.status)
    else true

pub record IsBooked (s : Store) : Type 0 where
  pub counted : (code : String) → uses_of (get code s.discount_codes) ≡ total (holds code) s.orders
  pub capped :
      (code : String) → uses_of (get code s.discount_codes) ≤ room_of (get code s.discount_codes)
  pub sound : (k : String) → is_sound (get k s.orders) ≡ true

reserve_code_uses :
    (c : Option String) (now : ℕ) (order : Order) (codes : Dict String DiscountCode)
    → c ≡ order.discount_code
    → (reserve_code c now order codes).refusal ≡ none
    → (code : String)
    → uses_of (get code (reserve_code c now order codes).codes) + holds code order
      ≡ uses_of (get code codes) + holds code (reserve_code c now order codes).order
unfolding reserve_code holds
reserve_code_uses none now order codes e granted code = omega arith
reserve_code_uses (some c) now order codes e granted code = elim (Option-cases (get c codes)) [
  | inl missing ↦ ground arith
  | inr (entry, found) ↦ ground (arith, get-put c code (take_use order entry) codes, ==_iff c code)
]

pub reserve_uses :
    (now : ℕ) (order : Order) (codes : Dict String DiscountCode)
    → (reserve_discount now order codes).refusal ≡ none
    → (code : String)
    → uses_of (get code (reserve_discount now order codes).codes) + holds code order
      ≡ uses_of (get code codes) + holds code (reserve_discount now order codes).order
unfolding reserve_discount
reserve_uses now order codes granted code =
    reserve_code_uses order.discount_code now order codes refl granted code

reserve_code_capped :
    (c : Option String) (now : ℕ) (order : Order) (codes : Dict String DiscountCode) (code : String)
    → uses_of (get code codes) ≤ room_of (get code codes)
    → uses_of (get code (reserve_code c now order codes).codes)
      ≤ room_of (get code (reserve_code c now order codes).codes)
unfolding reserve_code
reserve_code_capped none now order codes code h = h
reserve_code_capped (some c) now order codes code h = elim (Option-cases (get c codes)) [
  | inl missing ↦ ground arith
  | inr (entry, found) ↦ ground (arith, get-put c code (take_use order entry) codes, ==_iff c code)
]

pub reserve_capped :
    (now : ℕ) (order : Order) (codes : Dict String DiscountCode) (code : String)
    → uses_of (get code codes) ≤ room_of (get code codes)
    → uses_of (get code (reserve_discount now order codes).codes)
      ≤ room_of (get code (reserve_discount now order codes).codes)
unfolding reserve_discount
reserve_capped now order codes = reserve_code_capped order.discount_code now order codes

reserve_code_order :
    (c : Option String) (now : ℕ) (order : Order) (codes : Dict String DiscountCode)
    → (reserve_code c now order codes).refusal ≡ none
    → (reserve_code c now order codes).order
      ≡ record order { discount_reserved = is_some c || order.discount_reserved }
unfolding reserve_code
reserve_code_order none now order codes granted = refl
reserve_code_order (some c) now order codes granted = ground arith

-- A reservation changes nothing of the order but the mark.
pub reserve_order :
    (now : ℕ) (order : Order) (codes : Dict String DiscountCode)
    → (reserve_discount now order codes).refusal ≡ none
    → (reserve_discount now order codes).order
      ≡ record order { discount_reserved = is_some order.discount_code || order.discount_reserved }
unfolding reserve_discount
reserve_order now order codes = reserve_code_order order.discount_code now order codes

release_code_uses :
    (c : Option String) (order : Order) (codes : Dict String DiscountCode)
    → c ≡ order.discount_code
    → (code : String) → holds code order ≤ uses_of (get code codes)
    → uses_of (get code (release_code c order codes).1) + holds code order
      ≡ uses_of (get code codes) + holds code (release_code c order codes).0
unfolding release_code holds
release_code_uses none order codes e code h = omega arith
release_code_uses (some c) order codes e code h = elim (Option-cases (get c codes)) [
  | inl missing ↦ ground (arith, ==_iff c code)
  | inr (entry, found) ↦
      ground (arith, get-put c code (give_back_use order entry) codes, ==_iff c code)
]

pub release_uses :
    (order : Order) (codes : Dict String DiscountCode) (code : String)
    → holds code order ≤ uses_of (get code codes)
    → uses_of (get code (release_discount order codes).1) + holds code order
      ≡ uses_of (get code codes) + holds code (release_discount order codes).0
unfolding release_discount
release_uses order codes code = release_code_uses order.discount_code order codes refl code

release_code_capped :
    (c : Option String) (order : Order) (codes : Dict String DiscountCode) (code : String)
    → uses_of (get code codes) ≤ room_of (get code codes)
    → uses_of (get code (release_code c order codes).1)
      ≤ room_of (get code (release_code c order codes).1)
unfolding release_code
release_code_capped none order codes code h = h
release_code_capped (some c) order codes code h = elim (Option-cases (get c codes)) [
  | inl missing ↦ ground arith
  | inr (entry, found) ↦
      ground (arith, get-put c code (give_back_use order entry) codes, ==_iff c code)
]

pub release_capped :
    (order : Order) (codes : Dict String DiscountCode) (code : String)
    → uses_of (get code codes) ≤ room_of (get code codes)
    → uses_of (get code (release_discount order codes).1)
      ≤ room_of (get code (release_discount order codes).1)
unfolding release_discount
release_capped order codes = release_code_capped order.discount_code order codes

release_code_order :
    (c : Option String) (order : Order) (codes : Dict String DiscountCode)
    → (release_code c order codes).0
      ≡ record order { discount_reserved = not (is_some c) && order.discount_reserved }
unfolding release_code
release_code_order none order codes = refl
release_code_order (some c) order codes = ground arith

pub release_order :
    (order : Order) (codes : Dict String DiscountCode)
    → (release_discount order codes).0 ≡ record order {
      discount_reserved = not (is_some order.discount_code) && order.discount_reserved;
    }
unfolding release_discount
release_order order codes = release_code_order order.discount_code order codes

-- The books after one order has been replaced and the codes have followed.
pub IsBooked-put :
    (s t : Store) (k : String) (old new : Order)
    → IsBooked s
    → get k s.orders ≡ some old
    → t.orders ≡ put k new s.orders
    → ((code : String)
        → uses_of (get code t.discount_codes) + holds code old
          ≡ uses_of (get code s.discount_codes) + holds code new)
    → ((code : String) → uses_of (get code t.discount_codes) ≤ room_of (get code t.discount_codes))
    → is_sound (some new) ≡ true
    → IsBooked t
IsBooked-put s t k old new b found same moved capped sound = record {
  counted = λ code.
      rw same (
        omega (arith, b.counted code, moved code, total-put (holds code) k old new s.orders found));
  capped = capped;
  sound = λ j. rw same (ground (arith, get-put k j new s.orders, b.sound j));
}

-- Two orders with the same reservation.
holds-same :
    (code : String) (a b : Order)
    → a.discount_reserved ≡ b.discount_reserved
    → a.discount_code ≡ b.discount_code
    → holds code a ≡ holds code b
unfolding holds
holds-same code a b r c = rw (r, c)

module _ (s t : Store) (k : String) (old new : Order) (b : IsBooked s)
    (found : get k s.orders ≡ some old) (same : t.orders ≡ put k new s.orders) where
  -- An order that is no draft any more keeps its reservation, and the codes stay.
  pub IsBooked-keep :
      t.discount_codes ≡ s.discount_codes
      → new.discount_reserved ≡ old.discount_reserved
      → new.discount_code ≡ old.discount_code
      → is_draft new.status ≡ false
      → IsBooked t
  unfolding is_sound
  IsBooked-keep codes r c started =
      IsBooked-put s t k old new b found same
        (λ code.
          rw codes
            (ap (λ n. uses_of (get code s.discount_codes) + n) (sym (holds-same code new old r c))))
        (λ code. rw codes (b.capped code)) (ground (arith, b.sound k))

  -- The reservation is given back.
  pub IsBooked-release :
      t.discount_codes ≡ (release_discount old s.discount_codes).1
      → new.discount_reserved ≡ (release_discount old s.discount_codes).0.discount_reserved
      → new.discount_code ≡ (release_discount old s.discount_codes).0.discount_code
      → IsBooked t
  unfolding is_sound
  IsBooked-release codes r c =
      IsBooked-put s t k old new b found same
        (λ code. rw codes (
          omega (
            arith,
            release_uses old s.discount_codes code
                (omega (arith, b.counted code, get-le-total (holds code) k old s.orders found)),
            holds-same code new (release_discount old s.discount_codes).0 r c,
          )))
        (λ code. rw codes (release_capped old s.discount_codes code (b.capped code)))
        (ground (arith, release_order old s.discount_codes, b.sound k))

  -- A reservation is granted, and the order is no draft any more.
  pub IsBooked-reserve :
      (now : ℕ)
      → (reserve_discount now old s.discount_codes).refusal ≡ none
      → t.discount_codes ≡ (reserve_discount now old s.discount_codes).codes
      → new.discount_reserved ≡ (reserve_discount now old s.discount_codes).order.discount_reserved
      → new.discount_code ≡ (reserve_discount now old s.discount_codes).order.discount_code
      → is_draft new.status ≡ false
      → IsBooked t
  unfolding is_sound
  IsBooked-reserve now granted codes r c started =
      IsBooked-put s t k old new b found same
        (λ code. rw codes (
          omega (
            arith,
            reserve_uses now old s.discount_codes granted code,
            holds-same code new (reserve_discount now old s.discount_codes).order r c,
          )))
        (λ code. rw codes (reserve_capped now old s.discount_codes code (b.capped code)))
        (ground (arith, reserve_order now old s.discount_codes granted, b.sound k))

-- A draft holds no reservation.
pub draft_unreserved :
    (s : Store) (k : String) (order : Order)
    → IsBooked s
    → get k s.orders ≡ some order
    → is_draft order.status ≡ true
    → order.discount_reserved ≡ false
unfolding is_sound
draft_unreserved s k order b found open_ = ground (arith, b.sound k)

-- An order with no reservation is replaced by another.
pub IsBooked-idle :
    (s t : Store) (k : String) (old new : Order)
    → IsBooked s
    → get k s.orders ≡ some old
    → t.orders ≡ put k new s.orders
    → t.discount_codes ≡ s.discount_codes
    → old.discount_reserved ≡ false
    → new.discount_reserved ≡ false
    → IsBooked t
unfolding is_sound holds
IsBooked-idle s t k old new b found same codes r r' =
    IsBooked-put s t k old new b found same (λ code. rw (codes, r, r'))
      (λ code. rw codes (b.capped code)) (rw r')

-- A new order with no reservation is added.
pub IsBooked-add :
    (s t : Store) (k : String) (new : Order)
    → IsBooked s
    → get k s.orders ≡ none
    → t.orders ≡ put k new s.orders
    → t.discount_codes ≡ s.discount_codes
    → new.discount_reserved ≡ false
    → IsBooked t
unfolding is_sound holds
IsBooked-add s t k new b fresh same codes r = record {
  counted = λ code.
      rw (same, codes)
        (ground (arith, b.counted code, total-put_new (holds code) k new s.orders fresh));
  capped = λ code. rw codes (b.capped code);
  sound = λ j. rw same (ground (arith, get-put k j new s.orders, b.sound j));
}

-- Changes elsewhere in the store leave the books alone.
pub IsBooked-frame :
    (s t : Store)
    → IsBooked s
    → t.orders ≡ s.orders
    → t.discount_codes ≡ s.discount_codes
    → IsBooked t
IsBooked-frame s t b same codes = record {
  counted = λ code. rw (same, codes) (b.counted code);
  capped = λ code. rw codes (b.capped code);
  sound = λ j. rw same (b.sound j);
}
