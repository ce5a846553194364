-- ===== src/Vless/Routes.antt =====
-- The order in which the addresses of a target are tried (relay_vless.py): `_do_resolve`'s removal of
-- duplicates, `_interleave_families`, `_connection_schedule`, and the health of routes. Times are
-- in milliseconds; `R` is the type of Python's floats, with the update of the average as `mix`.
pub mod Order
pub mod Schedule
use lumen_project_final.Prelude.{
  ℕ, suc, ◌+◌, ◌*◌, ◌-◌, ◌^◌, ◌≡◌, ◌↔◌, min, max, Bool, true, false, not, ◌&&◌, ◌||◌, Option, none,
  some, String, List, [], ◌∷◌, ◌++◌, if◌then◌else◌, ltb, nat_eqb, take, arith,
}
use lumen_project_final.Prelude.Eq.{Eq, ◌==◌, string_eq, ==_iff}
use lumen_project_final.Prelude.Member.{contains, remove_first}
use lumen_project_final.Prelude.Dict.{Dict, get, put}

pub data Family : Type 0 where
  inet inet6 unknown : Family

abbrev pub same_family : Family → Family → Bool
same_family inet inet = true
same_family inet6 inet6 = true
same_family unknown unknown = true
same_family _ _ = false

-- An address as `getaddrinfo` gives it; `flow` and `scope` are 0 for IPv4.
pub record Endpoint : Type 0 where
  pub family : Family
  pub host : String
  pub port : ℕ
  pub flow : ℕ
  pub scope : ℕ

-- `_sockaddr_identity` compares all but the flow.
unfoldable pub same_endpoint : Endpoint → Endpoint → Bool
same_endpoint a b =
    same_family a.family b.family
    && a.host == b.host
    && nat_eqb a.port b.port
    && nat_eqb a.scope b.scope

unfoldable pub endpoint_eqb : Endpoint → Endpoint → Bool
unfolding same_endpoint
endpoint_eqb a b = same_endpoint a b && nat_eqb a.flow b.flow

pub same_family_iff : (f g : Family) → (same_family f g ≡ true) ↔ (f ≡ g)
same_family_iff f g = ground arith

pub endpoint_eqb_iff : (a b : Endpoint) → (endpoint_eqb a b ≡ true) ↔ (a ≡ b)
unfolding endpoint_eqb same_endpoint
endpoint_eqb_iff a b = ground (arith, same_family_iff a.family b.family, ==_iff a.host b.host)

instance abbrev pub endpoint_eq : Eq Endpoint
endpoint_eq = record { beq = endpoint_eqb; beq_iff = endpoint_eqb_iff }

unfoldable pub seen_in : Endpoint → List Endpoint → Bool
unfolding same_endpoint
seen_in a [] = false
seen_in a (b ∷ seen) = same_endpoint b a || seen_in a seen

-- The loop of `_do_resolve`: the first address of each identity, in the system's order.
unfoldable pub resolved : List Endpoint → List Endpoint → List Endpoint
unfolding seen_in
resolved seen [] = []
resolved seen (a ∷ infos) =
    let skipped = resolved seen infos in
    let kept = resolved (a ∷ seen) infos in
    if same_family a.family unknown || seen_in a seen then skipped else a ∷ kept

unfoldable pub of_family : Family → List Endpoint → List Endpoint
of_family f [] = []
of_family f (a ∷ xs) =
    let rest = of_family f xs in if same_family a.family f then a ∷ rest else rest

unfoldable pub other_family : Family → Family
other_family inet6 = inet
other_family _ = inet6

-- The two queues, popped in turn while one of them is left.
unfoldable pub alternate : List Endpoint → List Endpoint → List Endpoint
alternate [] ys = ys
alternate (x ∷ xs) [] = x ∷ xs
alternate (x ∷ xs) (y ∷ ys) = x ∷ y ∷ alternate xs ys

-- The preferred address goes to the front, where it is among them.
unfoldable pub preferring : Option Endpoint → List Endpoint → List Endpoint
preferring none addresses = addresses
preferring (some a) addresses =
    if contains a addresses then a ∷ remove_first a addresses else addresses

unfoldable pub by_family : List Endpoint → List Endpoint
unfolding of_family other_family alternate
by_family [] = []
by_family (a ∷ xs) =
    alternate (of_family a.family (a ∷ xs)) (of_family (other_family a.family) (a ∷ xs))

-- `_interleave_families`
unfoldable pub interleave_families : List Endpoint → Option Endpoint → List Endpoint
unfolding preferring by_family
interleave_families addresses preferred = by_family (preferring preferred addresses)

abbrev pub parallel_connect : ℕ
parallel_connect = 6

abbrev pub connect_stagger : ℕ
connect_stagger = 50

-- The families that were seen, and how many extra addresses there were.
unfoldable pub base_delay : Bool → ℕ → ℕ
base_delay true extra = connect_stagger * extra
base_delay false extra = 0

unfoldable pub family_seen : Family → List Family → Bool
family_seen f [] = false
family_seen f (g ∷ seen) = same_family g f || family_seen f seen

-- A route that cools down after a failure waits at least two staggers.
unfoldable pub cooled : Bool → ℕ → ℕ
cooled true delay = max delay (connect_stagger * 2)
cooled false delay = delay

-- The loop of `_connection_schedule`; `cooling` is whether a route's cooldown is after now.
unfoldable pub schedule_from :
    (Endpoint → Bool) → List Family → ℕ → List Endpoint → List (ℕ × Endpoint)
unfolding base_delay family_seen cooled
schedule_from cooling seen extra [] = []
schedule_from cooling seen extra (a ∷ xs) =
    let repeated = family_seen a.family seen in
    let extra' = if repeated then suc extra else extra in
    (cooled (cooling a) (base_delay repeated extra'), a)
    ∷ schedule_from cooling (a.family ∷ seen) extra' xs

-- `_connection_schedule`
unfoldable pub connection_schedule : (Endpoint → Bool) → List Endpoint → List (ℕ × Endpoint)
unfolding schedule_from
connection_schedule cooling addresses = schedule_from cooling [] 0 (take parallel_connect addresses)

-- A route's average connect time, failures in a row and end of the cooldown.
pub record Health (R : Type 0) : Type 0 where
  pub average : R
  pub failures : ℕ
  pub cools_until : ℕ

abbrev pub route_failure_base : ℕ
route_failure_base = 10000

abbrev pub route_failure_max : ℕ
route_failure_max = 300000

unfoldable pub cooldown : ℕ → ℕ
cooldown failures = min (route_failure_base * 2 ^ (failures - 1)) route_failure_max

-- `_record_route_success` and `_record_route_failure` on the health of one route.
unfoldable pub after_success : {R : Type 0} → (R → R → R) → R → Option (Health R) → Health R
after_success mix connect_ms none = record { average = connect_ms; failures = 0; cools_until = 0 }
after_success mix connect_ms (some old) = record {
  average = mix old.average connect_ms;
  failures = 0;
  cools_until = 0;
}

unfoldable pub after_failure : {R : Type 0} → R → ℕ → Option (Health R) → Health R
unfolding cooldown
after_failure slowest now none = record {
  average = slowest;
  failures = 1;
  cools_until = now + cooldown 1;
}
after_failure slowest now (some old) =
    let failures = min (old.failures + 1) 8 in
    record { average = old.average; failures = failures; cools_until = now + cooldown failures }
