-- ===== src/Vless/Routes/Order.antt =====
-- The order of the addresses (relay_vless.py: `_interleave_families`).
use mathlib.Core.List.{Perm, perm_middle, append-nil}
use mathlib.Core.List.Perm
use lumen_project_final.Prelude.{
  ◌≡◌, refl, Bool, true, false, not, ◌&&◌, Option, none, some, List, [], ◌∷◌, ◌++◌, arith,
  Bool-cases, inl, inr,
}
use lumen_project_final.Prelude.Eq.{◌==◌, string_eq, ==_iff}
use lumen_project_final.Prelude.Member.{contains, remove_first}
use lumen_project_final.Vless.Routes.{
  Family, unknown, same_family, Endpoint, endpoint_eq, of_family, other_family, alternate,
  preferring, by_family, interleave_families,
}

alternate-perm : (xs ys : List Endpoint) → Perm (alternate xs ys) (xs ++ ys)
unfolding alternate
alternate-perm [] ys = Perm.refl ys
alternate-perm (x ∷ xs) [] = rw (append-nil xs) (Perm.refl (x ∷ xs))
alternate-perm (x ∷ xs) (y ∷ ys) =
    Perm.cons x (Perm.trans (Perm.cons y (alternate-perm xs ys)) (Perm.symm (perm_middle xs ys)))

-- Only the families of the two queues.
abbrev pub is_known : List Endpoint → Bool
is_known [] = true
is_known (a ∷ xs) = not (same_family a.family unknown) && is_known xs

same_family-other :
    (f g : Family)
    → same_family f unknown ≡ false
    → same_family g unknown ≡ false
    → same_family g (other_family f) ≡ not (same_family g f)
unfolding other_family
same_family-other f g hf hg = ground arith

of_family-perm :
    (f : Family) (xs : List Endpoint)
    → same_family f unknown ≡ false
    → is_known xs ≡ true
    → Perm (of_family f xs ++ of_family (other_family f) xs) xs
unfolding of_family
of_family-perm f [] known all = Perm.refl []
of_family-perm f (a ∷ xs) known all =
    let rest = of_family-perm f xs known (ground arith) in
    let other : same_family a.family (other_family f) ≡ not (same_family a.family f) =
      same_family-other f a.family known (ground arith) in
    elim (Bool-cases (same_family a.family f)) [
      | inl mine ↦ rw (other, mine) (Perm.cons a rest)
      | inr not_mine ↦
          rw (other, not_mine)
            (Perm.trans (perm_middle (of_family f xs) (of_family (other_family f) xs))
              (Perm.cons a rest))
    ]

remove_first-perm :
    (a : Endpoint) (xs : List Endpoint) → contains a xs ≡ true → Perm (a ∷ remove_first a xs) xs
unfolding contains remove_first
remove_first-perm a [] h = absurd (ground arith)
remove_first-perm a (y ∷ ys) h = elim (Bool-cases (y == a)) [
  | inl same ↦ rw (same, (==_iff y a).0 same) (Perm.refl (a ∷ ys))
  | inr other ↦ rw other (
      Perm.trans (Perm.swap y a (remove_first a ys))
        (Perm.cons y (remove_first-perm a ys (ground arith))))
]

preferring-perm : (p : Option Endpoint) (xs : List Endpoint) → Perm (preferring p xs) xs
unfolding preferring
preferring-perm none xs = Perm.refl xs
preferring-perm (some a) xs = elim (Bool-cases (contains a xs)) [
  | inl there ↦ rw there (remove_first-perm a xs there)
  | inr missing ↦ rw missing (Perm.refl xs)
]

is_known-remove_first :
    (a : Endpoint) (xs : List Endpoint) → is_known xs ≡ true → is_known (remove_first a xs) ≡ true
unfolding remove_first
is_known-remove_first a [] all = refl
is_known-remove_first a (y ∷ ys) all = ground (arith, is_known-remove_first a ys)

is_known-contains :
    (a : Endpoint) (xs : List Endpoint)
    → contains a xs ≡ true
    → is_known xs ≡ true
    → same_family a.family unknown ≡ false
unfolding contains
is_known-contains a [] h all = absurd (ground arith)
is_known-contains a (y ∷ ys) h all = ground (arith, is_known-contains a ys, ==_iff y a)

is_known-preferring :
    (p : Option Endpoint) (xs : List Endpoint)
    → is_known xs ≡ true
    → is_known (preferring p xs) ≡ true
unfolding preferring
is_known-preferring none xs all = all
is_known-preferring (some a) xs all =
    ground (arith, is_known-remove_first a xs all, is_known-contains a xs)

by_family-perm : (xs : List Endpoint) → is_known xs ≡ true → Perm (by_family xs) xs
unfolding by_family
by_family-perm [] all = Perm.refl []
by_family-perm (a ∷ xs) all =
    Perm.trans
      (alternate-perm (of_family a.family (a ∷ xs)) (of_family (other_family a.family) (a ∷ xs)))
      (of_family-perm a.family (a ∷ xs) (ground arith) all)

-- Where every address is an IPv4 or an IPv6 one, the interleaved order is a permutation of the
-- resolved addresses: none is lost and none is repeated.
pub interleave_families-perm :
    (addresses : List Endpoint) (preferred : Option Endpoint)
    → is_known addresses ≡ true
    → Perm (interleave_families addresses preferred) addresses
unfolding interleave_families
interleave_families-perm addresses preferred all =
    Perm.trans (by_family-perm _ (is_known-preferring preferred addresses all))
      (preferring-perm preferred addresses)

abbrev pub first : List Endpoint → Option Endpoint
first [] = none
first (a ∷ xs) = some a

first-alternate : (a : Endpoint) (xs ys : List Endpoint) → first (alternate (a ∷ xs) ys) ≡ some a
unfolding alternate
first-alternate a xs [] = refl
first-alternate a xs (y ∷ ys) = refl

same_family_refl : (f : Family) → same_family f f ≡ true
same_family_refl f = ground arith

first-by_family : (xs : List Endpoint) → first (by_family xs) ≡ first xs
unfolding by_family of_family
first-by_family [] = refl
first-by_family (a ∷ xs) = rw (same_family_refl a.family) (first-alternate a _ _)

-- The address that won before is tried first, where it was resolved again.
pub interleave_families-first :
    (addresses : List Endpoint) (a : Endpoint)
    → contains a addresses ≡ true
    → first (interleave_families addresses (some a)) ≡ some a
unfolding interleave_families preferring
interleave_families-first addresses a there = rw (there, first-by_family)
