-- ===== src/Sessions/Addresses.antt =====
-- The addresses that a config is used from, as a set (main.py: `unique_ips_for_uuid`).
use lumen_project_final.Prelude.{
  ◌+◌, ◌≤◌, ◌≡◌, refl, String, Bool, true, false, not, ◌&&◌, ◌||◌, some, List, [], ◌∷◌, arith,
  length, Bool-cases, inl, inr,
}
use lumen_project_final.Prelude.Eq.{◌==◌, string_eq, ==_iff, ==_refl}
use lumen_project_final.Prelude.Dict.{Dict, get, put, remove}
use lumen_project_final.Prelude.Member.{
  contains, distinct, remove_first, contains-add_once, distinct-add_once, contains-remove_ne,
}
use lumen_project_final.Panel.Access.{Connection, unique_ips}
use lumen_project_final.Sessions.{values}

-- A list without repetition is no longer than one that holds all that it holds.
length-remove_first :
    (x : String) (ys : List String)
    → contains x ys ≡ true
    → length (remove_first x ys) + 1 ≡ length ys
unfolding contains remove_first
length-remove_first x [] h = cc
length-remove_first x (y ∷ ys) h = ground (arith, length-remove_first x ys)

pub distinct-length :
    (xs ys : List String)
    → distinct xs ≡ true
    → ((x : String) → contains x xs ≡ true → contains x ys ≡ true)
    → length xs ≤ length ys
unfolding distinct contains
distinct-length [] ys d h = omega arith
distinct-length (x ∷ xs) ys d h =
    let there = h x (ground (arith, ==_refl x)) in
    let rest = distinct-length xs (remove_first x ys) (ground (arith, d)) (λ z k.
      elim (Bool-cases (x == z)) [
        | inl e ↦ absurd (ground (arith, k, d, ==_iff x z, e))
        | inr e ↦ ground (arith, contains-remove_ne z x ys e, h z (ground (arith, k, e)), e)
      ]) in
    let n = length-remove_first x ys there in omega arith

-- The config is used from that address.
unfoldable pub is_from : String → String → Connection → Bool
is_from uuid ip c = c.uuid == uuid && not (c.ip == "") && c.ip == ip

unfoldable pub is_used_from : String → String → List Connection → Bool
is_used_from uuid ip [] = false
is_used_from uuid ip (c ∷ cs) = is_from uuid ip c || is_used_from uuid ip cs

pub contains-unique_ips :
    (uuid ip : String) (cs : List Connection)
    → contains ip (unique_ips uuid cs) ≡ is_used_from uuid ip cs
unfolding unique_ips is_used_from contains is_from
contains-unique_ips uuid ip [] = refl
contains-unique_ips uuid ip (c ∷ cs) =
    ground (arith, contains-unique_ips uuid ip cs, contains-add_once ip c.ip (unique_ips uuid cs))

pub distinct-unique_ips :
    (uuid : String) (cs : List Connection) → distinct (unique_ips uuid cs) ≡ true
unfolding unique_ips distinct
distinct-unique_ips uuid [] = refl
distinct-unique_ips uuid (c ∷ cs) =
    ground (arith, distinct-unique_ips uuid cs, distinct-add_once c.ip (unique_ips uuid cs))

-- Fewer ways in which a config is used are no more addresses.
pub length-unique_ips :
    (uuid : String) (cs ds : List Connection)
    → ((ip : String) → is_used_from uuid ip cs ≡ true → is_used_from uuid ip ds ≡ true)
    → length (unique_ips uuid cs) ≤ length (unique_ips uuid ds)
length-unique_ips uuid cs ds h =
    distinct-length (unique_ips uuid cs) (unique_ips uuid ds) (distinct-unique_ips uuid cs) (λ ip k.
      ground (arith, h ip, k, contains-unique_ips uuid ip cs, contains-unique_ips uuid ip ds))

pub is_used_from-remove :
    (uuid ip conn_id : String) (m : Dict String Connection)
    → is_used_from uuid ip (values (remove conn_id m)) ≡ true
    → is_used_from uuid ip (values m) ≡ true
unfolding is_used_from remove
is_used_from-remove uuid ip conn_id [] h = cc
is_used_from-remove uuid ip conn_id ((k, c) ∷ m) h =
    ground (arith, h, is_used_from-remove uuid ip conn_id m)

pub is_used_from-put :
    (uuid ip conn_id : String) (d : Connection) (m : Dict String Connection)
    → is_used_from uuid ip (values (put conn_id d m)) ≡ true
    → (is_from uuid ip d || is_used_from uuid ip (values m)) ≡ true
unfolding is_used_from put
is_used_from-put uuid ip conn_id d [] h = ground (arith, h)
is_used_from-put uuid ip conn_id d ((k, c) ∷ m) h =
    ground (arith, h, is_used_from-put uuid ip conn_id d m)

pub is_used_from-get :
    (uuid ip conn_id : String) (d : Connection) (m : Dict String Connection)
    → get conn_id m ≡ some d
    → is_from uuid ip d ≡ true
    → is_used_from uuid ip (values m) ≡ true
unfolding is_used_from get
is_used_from-get uuid ip conn_id d [] h k = cc
is_used_from-get uuid ip conn_id d ((j, c) ∷ m) h k = elim (Bool-cases (j == conn_id)) [
  | inl e ↦ let same : c ≡ d = ground (arith, e, h) in rw same (ground (arith, k))
  | inr e ↦ ground (arith, is_used_from-get uuid ip conn_id d m (ground (arith, e, h)) k)
]
