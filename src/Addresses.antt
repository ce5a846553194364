-- ===== src/Addresses.antt =====
-- Addresses and TLS names (config_address.py: `normalize_address`, `normalize_sni`). What raises
-- there is `none` here; `ipaddress`, the IDNA codec and the Unicode tables are arguments.
use Prim.Native.Char.{code}
use lumen_project_final.Prelude.{
  ℕ, zero, suc, String, Bool, true, false, not, ◌&&◌, ◌||◌, Option, none, some, List, [], ◌∷◌,
  if◌then◌else◌, leb, ltb, nat_eqb, is_some, length,
}
use lumen_project_final.Prelude.Eq.{◌==◌, string_eq}
use lumen_project_final.Prelude.Text.{strip, is_space}
use lumen_project_final.Repository.Metadata.{codes}

-- `ipaddress.ip_address(raw).compressed`; `encode("idna").decode("ascii")`; `str.lower`; and the
-- digits that `\d` takes.
pub record Hostnames : Type 0 where
  pub compressed : String → Option String
  pub idna : String → Option String
  pub lower : String → String
  pub is_digit : ℕ → Bool

pub any_code : (ℕ → Bool) → List ℕ → Bool
any_code p [] = false
any_code p (c ∷ cs) = p c || any_code p cs

-- `/`, `?`, `#`, `@` and `%`; a text with "://" has a `/`.
abbrev is_refused : ℕ → Bool
is_refused c = nat_eqb c 47 || nat_eqb c 63 || nat_eqb c 35 || nat_eqb c 64 || nat_eqb c 37

ends_in : ℕ → List ℕ → Bool
ends_in k [] = false
ends_in k (c ∷ []) = nat_eqb c k
ends_in k (c ∷ d ∷ cs) = ends_in k (d ∷ cs)

without_last : String → String
without_last String.[] = String.[]
without_last (String.◌∷◌ c s) =
    let rest = without_last s in if s == "" then String.[] else String.◌∷◌ c rest

-- `raw[1:-1].strip()` of a text in square brackets
unfoldable pub unbracketed : String → String
unfolding ends_in without_last
unbracketed String.[] = String.[]
unbracketed (String.◌∷◌ c s) =
    if nat_eqb (code c) 91 && ends_in 93 (codes s) then strip (without_last s) else String.◌∷◌ c s

-- `raw.rstrip(".")`
unfoldable pub without_dots : String → String
without_dots String.[] = String.[]
without_dots (String.◌∷◌ c s) =
    let rest = without_dots s in
    if rest == "" && nat_eqb (code c) 46 then String.[] else String.◌∷◌ c rest

-- `\d+(\.\d+){3}`: so many groups are to come after this one, of which a digit was seen or not.
unfoldable pub is_ipv4_shape : (ℕ → Bool) → ℕ → Bool → List ℕ → Bool
is_ipv4_shape is_digit zero seen [] = seen
is_ipv4_shape is_digit (suc k) seen [] = false
is_ipv4_shape is_digit zero seen (c ∷ cs) = is_digit c && is_ipv4_shape is_digit zero true cs
is_ipv4_shape is_digit (suc k) seen (c ∷ cs) =
    let more = is_ipv4_shape is_digit (suc k) true cs in
    let next = is_ipv4_shape is_digit k false cs in
    if is_digit c then more else nat_eqb c 46 && seen && next

-- `domain.split(".")`
unfoldable pub labels : List ℕ → List ℕ → List (List ℕ)
labels part [] = part ∷ []
labels part (c ∷ cs) =
    let next = labels [] cs in
    let more = labels (c ∷ part) cs in if nat_eqb c 46 then part ∷ next else more

abbrev is_alnum : ℕ → Bool
is_alnum c = (leb 48 c && leb c 57) || (leb 97 c && leb c 122) || (leb 65 c && leb c 90)

is_inner : List ℕ → Bool
is_inner [] = false
is_inner (c ∷ []) = is_alnum c
is_inner (c ∷ d ∷ cs) = (is_alnum c || nat_eqb c 45) && is_inner (d ∷ cs)

-- `_LABEL`, on a label from either end
unfoldable pub is_label : List ℕ → Bool
unfolding is_inner
is_label [] = false
is_label (c ∷ cs) = is_alnum c && is_inner (c ∷ cs) && leb (length (c ∷ cs)) 63

unfoldable pub all_labels : List (List ℕ) → Bool
unfolding is_label
all_labels [] = true
all_labels (l ∷ ls) = is_label l && all_labels ls

unfoldable pub checked_domain : String → Option String
unfolding labels all_labels
checked_domain domain =
    if domain == ""
      || ltb 253 (length (codes domain))
      || not (all_labels (labels [] (codes domain)))
    then none
    else some domain

unfoldable pub domain_of : Hostnames → Option String → Option String
unfolding checked_domain
domain_of h none = none
domain_of h (some text) = checked_domain (h.lower text)

unfoldable pub address_or_domain : Hostnames → String → Option String → Option String
unfolding is_ipv4_shape domain_of without_dots
address_or_domain h raw (some ip) = some ip
address_or_domain h raw none =
    if is_ipv4_shape h.is_digit 3 false (codes raw)
    then none
    else domain_of h (h.idna (without_dots raw))

unfoldable pub checked_raw : Hostnames → String → Option String
unfolding address_or_domain any_code
checked_raw h raw =
    if raw == ""
    then none
    else if ltb 253 (length (codes raw)) || any_code is_space (codes raw)
    then none
    else if any_code is_refused (codes raw)
    then none
    else address_or_domain h raw (h.compressed raw)

unfoldable pub normalize_address : Hostnames → String → Option String
unfolding checked_raw unbracketed
normalize_address h value = checked_raw h (unbracketed (strip value))

-- A TLS name is no IP address.
unfoldable pub name_only : Hostnames → Option String → Option String
name_only h none = none
name_only h (some text) = if is_some (h.compressed text) then none else some text

unfoldable pub normalize_sni : Hostnames → String → Option String
unfolding normalize_address name_only
normalize_sni h value = name_only h (normalize_address h value)
