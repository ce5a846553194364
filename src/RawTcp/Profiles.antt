-- ===== src/RawTcp/Profiles.antt =====
-- The lookups of raw_tcp.py in both directions, from a location to a TLS name and back.
use lumen_project_final.Prelude.{
  ℕ, ◌+◌, ◌≤◌, ◌≡◌, refl, true, false, ◌&&◌, ◌||◌, Option, none, some, String, List, [], ◌∷◌,
  if◌then◌else◌, length, arith, sym, Option-cases, Bool-cases, inl, inr, if_cases,
}
use lumen_project_final.Prelude.Eq.{◌==◌, string_eq, ==_iff, ==_refl}
use lumen_project_final.Prelude.Dict.{Dict, get, put, get-put}
use lumen_project_final.Prelude.Member.{contains}
use lumen_project_final.Addresses.{normalize_sni}
use lumen_project_final.RawTcp.{
  Names, safe_location_id, row_ok, seen_with, read_row, read_rows, Deployment, is_default, deployed,
  deployment, names_for, only_one, sni_for, located, location_for_sni,
}

-- Each name stands once in the map and is in normal form, and a location has at most one name.
record IsProfile (e : Names) (seen : List String) (rows : Dict String String) : Type 0 where
  found :
      (location name : String)
      → contains name (names_for location rows) ≡ true
      → get name rows ≡ some location
  normal :
      (name location : String)
      → get name rows ≡ some location
      → normalize_sni e.hostnames name ≡ some name
  single : (location : String) → (location == "") ≡ false → length (names_for location rows) ≤ 1
  noted :
      (location : String)
      → (location == "") ≡ false
      → contains location seen ≡ false
      → names_for location rows ≡ []

names_for-put :
    (location name mapped : String) (rows : Dict String String)
    → get name rows ≡ none
    → length (names_for location (put name mapped rows))
      ≡ length (names_for location rows) + (if mapped == location then 1 else 0)
unfolding names_for get put
names_for-put location name mapped [] fresh = ground arith
names_for-put location name mapped ((n, l) ∷ rows) fresh =
    ground (arith, names_for-put location name mapped rows)

contains-names_for-put :
    (location name mapped j : String) (rows : Dict String String)
    → get name rows ≡ none
    → contains j (names_for location (put name mapped rows))
      ≡ (contains j (names_for location rows) || mapped == location && name == j)
unfolding names_for get put contains
contains-names_for-put location name mapped j [] fresh = ground arith
contains-names_for-put location name mapped j ((n, l) ∷ rows) fresh =
    ground (arith, contains-names_for-put location name mapped j rows)

length-nil : (xs : List String) → length xs ≡ 0 → xs ≡ []
length-nil [] h = refl
length-nil (x ∷ xs) h = absurd (omega (arith, h))

put-IsProfile :
    (e : Names) (raw location name : String) (seen : List String) (rows : Dict String String)
    → normalize_sni e.hostnames name ≡ some name
    → row_ok raw location name seen rows ≡ true
    → IsProfile e seen rows
    → IsProfile e (seen_with location seen) (put name location rows)
unfolding row_ok seen_with contains
put-IsProfile e raw location name seen rows normal fits v =
    let fresh : get name rows ≡ none = ground arith in
    record {
      found = λ l j h. ground (
        arith,
        contains-names_for-put l name location j rows fresh,
        v.found l j,
        get-put name j location rows,
        ==_iff location l,
        ==_iff name j,
      );
      normal = λ j l h. ground (arith, v.normal j l, get-put name j location rows, ==_iff name j);
      single = λ l h. ground (
        arith,
        names_for-put l name location rows fresh,
        v.single l h,
        v.noted l h,
        ==_iff location l,
      );
      noted = λ l h unseen. length-nil _ (
          ground (
            arith,
            names_for-put l name location rows fresh,
            v.noted l h,
            ==_iff location l,
            ==_refl l,
          ));
    }

-- A name that a row gives is the same when it is normalized once more.
abbrev pub IsStable : Names → String → Type 0
IsStable e raw_name =
    (name : String)
    → normalize_sni e.hostnames raw_name ≡ some name
    → normalize_sni e.hostnames name ≡ some name

abbrev pub AllStable : Names → List (String × String) → Type 0
AllStable e [] = Unit {0}
AllStable e ((raw_name, raw_location) ∷ rows) = IsStable e raw_name × AllStable e rows

-- A reading that has not failed has a profile.
HasProfile : Names → Option (List String × Dict String String) → Type 0
HasProfile e none = Unit
HasProfile e (some read) = IsProfile e read.0 read.1

read_row-HasProfile :
    (e : Names) (raw_name raw : String) (o : Option String) (seen : List String)
    (rows : Dict String String)
    → normalize_sni e.hostnames raw_name ≡ o
    → IsStable e raw_name
    → IsProfile e seen rows
    → HasProfile e (read_row e o raw seen rows)
unfolding read_row HasProfile
read_row-HasProfile e raw_name raw none seen rows q stable v = tt
read_row-HasProfile e raw_name raw (some name) seen rows q stable v =
    let location = safe_location_id e raw in
    if_cases (HasProfile e) (row_ok raw location name seen rows)
      (λ fits. put-IsProfile e raw location name seen rows (stable name q) fits v) (λ _. tt)

read_rows-IsProfile :
    (e : Names) (rows : List (String × String)) (read : Option (List String × Dict String String))
    (done : Dict String String)
    → AllStable e rows
    → HasProfile e read
    → read_rows e rows read ≡ some done
    → (seen : List String) × IsProfile e seen done
unfolding read_rows HasProfile
read_rows-IsProfile e [] none done stable v h = absurd (ground arith)
read_rows-IsProfile e [] (some (seen, rows)) done stable v h =
    let same : rows ≡ done = ground arith in (seen, rw same at v)
read_rows-IsProfile e ((raw_name, raw) ∷ rows) none done stable v h = absurd (ground arith)
read_rows-IsProfile e ((raw_name, raw) ∷ rows) (some (seen, read)) done stable v h =
    read_rows-IsProfile e rows (read_row e (normalize_sni e.hostnames raw_name) raw seen read) done
      stable.1
      (read_row-HasProfile e raw_name raw (normalize_sni e.hostnames raw_name) seen read refl
        stable.0 v)
      h

empty-IsProfile : (e : Names) → IsProfile e [] []
unfolding names_for contains get
empty-IsProfile e = record {
  found = λ l n h. absurd (ground arith);
  normal = λ n l h. absurd (ground arith);
  single = λ l h. omega arith;
  noted = λ l h g. refl;
}

deployed-rows :
    (e : Names) (host : String) (port : ℕ) (o : Option String) (rows : Option (Dict String String))
    (d : Deployment)
    → deployed e host port o rows ≡ some d
    → (rows ≡ some d.sni_locations)
      × (o ≡ some d.default_sni)
      × (get d.default_sni d.sni_locations ≡ some "")
unfolding deployed is_default
deployed-rows e host port none rows d h = absurd (ground arith)
deployed-rows e host port (some default) none d h = absurd (ground arith)
deployed-rows e host port (some default) (some rows) d h = elim (Option-cases (get default rows)) [
  | inl missing ↦ absurd (ground arith)
  | inr (location, found) ↦ ground (arith, ==_iff location "")
]

record IsDeployed (e : Names) (d : Deployment) : Type 0 where
  seen : List String
  profile : IsProfile e seen d.sni_locations
  default_found : get d.default_sni d.sni_locations ≡ some ""

deployment-IsDeployed :
    (e : Names) (host : String) (port : ℕ) (default_name : String) (rows : List (String × String))
    (d : Deployment)
    → AllStable e rows
    → deployment e host port default_name rows ≡ some d
    → IsDeployed e d
unfolding deployment HasProfile
deployment-IsDeployed e host port default_name rows d stable h =
    let parts =
      deployed-rows e host port (normalize_sni e.hostnames default_name)
        (read_rows e rows (some ([], []))) d h in
    let read =
      read_rows-IsProfile e rows (some ([], [])) d.sni_locations stable (empty-IsProfile e)
        parts.0 in
    record { seen = read.0; profile = read.1; default_found = parts.2 }

only_one-contains : (xs : List String) (x : String) → only_one xs ≡ some x → contains x xs ≡ true
unfolding only_one contains
only_one-contains [] x h = absurd (ground arith)
only_one-contains (y ∷ []) x h = ground (arith, ==_iff y x)
only_one-contains (y ∷ z ∷ xs) x h = absurd (ground arith)

contains-only_one :
    (xs : List String) (x : String) → contains x xs ≡ true → length xs ≤ 1 → only_one xs ≡ some x
unfolding only_one contains
contains-only_one [] x h short = absurd (ground arith)
contains-only_one (y ∷ []) x h short = ground (arith, ==_iff y x)
contains-only_one (y ∷ z ∷ xs) x h short = absurd (omega (arith, short))

contains-names_for :
    (location name : String) (rows : Dict String String)
    → get name rows ≡ some location
    → contains name (names_for location rows) ≡ true
unfolding names_for contains get
contains-names_for location name [] h = absurd (ground arith)
contains-names_for location name ((n, l) ∷ rows) h =
    ground (arith, contains-names_for location name rows, ==_iff n name, ==_refl l, ==_refl name)

located-normal :
    (e : Names) (name location : String) (d : Deployment)
    → IsDeployed e d
    → get name d.sni_locations ≡ some location
    → location_for_sni e name d ≡ some location
unfolding location_for_sni located
located-normal e name location d v found = ground (arith, v.profile.normal name location found)

-- On a deployment that was accepted, and whose names are the same when they are normalized once more,
-- a config's TLS name is the one by which the ingress finds the location that the config is for (the
-- default for none).
pub location_for_sni-sni_for :
    (e : Names) (host : String) (port : ℕ) (default_name : String) (rows : List (String × String))
    (d : Deployment) (location_id name : String)
    → AllStable e rows
    → deployment e host port default_name rows ≡ some d
    → sni_for e location_id d ≡ some name
    → location_for_sni e name d ≡ some (safe_location_id e location_id)
unfolding sni_for
location_for_sni-sni_for e host port default_name rows d location_id name stable h chosen =
    let v = deployment-IsDeployed e host port default_name rows d stable h in
    let location = safe_location_id e location_id in
    elim (Bool-cases (location == "")) [
      | inl default ↦
          let same : d.default_sni ≡ name = ground arith in
          let empty : location ≡ "" = (==_iff location "").0 default in
          rw (empty, sym same) (located-normal e d.default_sni "" d v v.default_found)
      | inr other ↦
          let one : only_one (names_for location d.sni_locations) ≡ some name = ground arith in
          located-normal e name location d v
            (v.profile.found location name (only_one-contains _ name one))
    ]

-- Every location that an accepted map of such names names has a TLS name: a config for it can be
-- made.
pub sni_for_complete :
    (e : Names) (host : String) (port : ℕ) (default_name : String) (rows : List (String × String))
    (d : Deployment) (location_id name : String)
    → AllStable e rows
    → deployment e host port default_name rows ≡ some d
    → (safe_location_id e location_id == "") ≡ false
    → get name d.sni_locations ≡ some (safe_location_id e location_id)
    → sni_for e location_id d ≡ some name
unfolding sni_for
sni_for_complete e host port default_name rows d location_id name stable h other mapped =
    let v = deployment-IsDeployed e host port default_name rows d stable h in
    let location = safe_location_id e location_id in
    rw (
      other,
      contains-only_one (names_for location d.sni_locations) name
          (contains-names_for location name d.sni_locations mapped)
          (v.profile.single location other),
    )
