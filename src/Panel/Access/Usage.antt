-- ===== src/Panel/Access/Usage.antt =====
-- Accounting and admission: `check_and_use` (relay_vless.py) and `is_ip_allowed` (main.py).
use lumen_project_final.Prelude.{
  ℕ, ◌+◌, ◌<◌, ◌≡◌, true, false, Option, none, some, String, List, [], ◌∷◌, arith, refl,
}
use lumen_project_final.Prelude.Eq.{string_eq, nat_eq, ==_refl}
use lumen_project_final.Prelude.Dict.{Dict, get, put, total, get-put, total-put, total-put_new}
use lumen_project_final.Panel.{Link, Sub, Services}
use lumen_project_final.Panel.Access.{
  is_link_allowed, within_quota, Traffic, charge, hour_count, check_and_use, Use, use_all,
}

abbrev used : Link → ℕ
used link = link.used_bytes

abbrev same : ℕ → ℕ
same n = n

hourly-put :
    (hour nbytes : ℕ) (o : Option ℕ) (m : Dict ℕ ℕ)
    → get hour m ≡ o
    → total same (put hour (hour_count o + nbytes) m) ≡ total same m + nbytes
unfolding hour_count
hourly-put hour nbytes none m e = ground (arith, total-put_new same hour (0 + nbytes) m e)
hourly-put hour nbytes (some n) m e = omega (arith, total-put same hour n (n + nbytes) m e)

-- The three counters move by the same amount.
abbrev pub InStep : Traffic → Traffic → Type 0
InStep t t' =
    (total used t'.links + t.total_bytes ≡ total used t.links + t'.total_bytes)
    × (total same t'.hourly + t.total_bytes ≡ total same t.hourly + t'.total_bytes)

charge-InStep :
    (o : Option Link) (uid : String) (nbytes hour : ℕ) (t : Traffic)
    → get uid t.links ≡ o
    → InStep t (charge o uid nbytes hour t)
unfolding charge
charge-InStep none uid nbytes hour t e = (refl, refl)
charge-InStep (some link) uid nbytes hour t e = (
  omega (
    arith,
    total-put used uid link (record link { used_bytes = link.used_bytes + nbytes }) t.links e,
  ),
  omega (arith, hourly-put hour nbytes (get hour t.hourly) t.hourly refl),
)

check_and_use-InStep :
    (e : Services) (subs : Dict String Sub) (uid : String) (nbytes now hour : ℕ) (t : Traffic)
    → InStep t (check_and_use e subs uid nbytes now hour t).1
unfolding check_and_use
check_and_use-InStep e subs uid nbytes now hour t =
    ground (arith, charge-InStep (get uid t.links) uid nbytes hour t refl)

-- Over any calls, the configs' own counters, the total and the hourly counters rise by one and the
-- same number of bytes: no byte is counted in one place and missed in another.
pub use_all-InStep :
    (e : Services) (subs : Dict String Sub) (us : List Use) (t : Traffic)
    → InStep t (use_all e subs us t)
unfolding use_all
use_all-InStep e subs [] t = (refl, refl)
use_all-InStep e subs (u ∷ us) t =
    let t' = (check_and_use e subs u.uid u.nbytes u.now u.hour t).1 in
    omega (
      arith,
      check_and_use-InStep e subs u.uid u.nbytes u.now u.hour t,
      use_all-InStep e subs us t',
    )

-- A metered config that `check_and_use` accepts was below its limit, and passes it by less than
-- this one call.
pub check_and_use_overshoot :
    (e : Services) (subs : Dict String Sub) (uid : String) (nbytes now hour : ℕ) (t : Traffic)
    (link : Link)
    → get uid t.links ≡ some link
    → 0 < link.limit_bytes
    → 0 < nbytes
    → (check_and_use e subs uid nbytes now hour t).0 ≡ true
    → (link' : Link) × (get uid (check_and_use e subs uid nbytes now hour t).1.links ≡ some link')
      × (link'.used_bytes ≡ link.used_bytes + nbytes)
      × (link'.used_bytes < link.limit_bytes + nbytes)
unfolding check_and_use is_link_allowed within_quota charge
check_and_use_overshoot e subs uid nbytes now hour t link found metered some_bytes accepted = (
  record link { used_bytes = link.used_bytes + nbytes },
  ground (
    arith,
    get-put uid uid (record link { used_bytes = link.used_bytes + nbytes }) t.links,
    ==_refl uid,
  ),
  refl,
  ground arith,
)

-- A config that is refused is left as it was, and nothing is counted.
pub check_and_use_refused :
    (e : Services) (subs : Dict String Sub) (uid : String) (nbytes now hour : ℕ) (t : Traffic)
    → (check_and_use e subs uid nbytes now hour t).0 ≡ false
    → (check_and_use e subs uid nbytes now hour t).1 ≡ t
unfolding check_and_use
check_and_use_refused e subs uid nbytes now hour t refused = ground arith
