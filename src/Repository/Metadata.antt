-- ===== src/Repository/Metadata.antt =====
-- The texts of a line of proxy.txt (proxy_repository.py: parse_text, validate_url): what stands
-- before and after a number sign, and "country - N%".
use Prim.Native.Char.{code}
use lumen_project_final.Prelude.{
  ℕ, ◌+◌, ◌-◌, ◌*◌, String, Bool, true, false, ◌&&◌, Option, none, some, List, [], ◌∷◌, leb, length,
  nat_eqb, if◌then◌else◌,
}
use lumen_project_final.Prelude.Text.{cut, is_space}

unfoldable pub codes : String → List ℕ
codes String.[] = []
codes (String.◌∷◌ c s) = code c ∷ codes s

unfoldable pub reversed : List ℕ → List ℕ → List ℕ
reversed acc [] = acc
reversed acc (c ∷ cs) = reversed (c ∷ acc) cs

-- `value.split("#", 1)[0]`
unfoldable pub before_hash : String → String
before_hash String.[] = String.[]
before_hash (String.◌∷◌ c s) =
    let rest = before_hash s in if nat_eqb (code c) 35 then String.[] else String.◌∷◌ c rest

-- `line.rsplit("#", 1)`, `none` if there is no number sign
unfoldable pub split_last_hash : String → Option (String × String)
split_last_hash String.[] = none
split_last_hash (String.◌∷◌ c s) = elim (split_last_hash s) [
  | some (left, right) ↦ some (String.◌∷◌ c left, right)
  | none ↦ if nat_eqb (code c) 35 then some (String.[], s) else none
]

unfoldable pub starts_with : String → String → Bool
starts_with String.[] s = true
starts_with (String.◌∷◌ p ps) String.[] = false
starts_with (String.◌∷◌ p ps) (String.◌∷◌ c s) = nat_eqb (code p) (code c) && starts_with ps s

unfoldable pub skip_spaces : List ℕ → List ℕ
skip_spaces [] = []
skip_spaces (c ∷ cs) = let rest = skip_spaces cs in if is_space c then rest else c ∷ cs

-- The character that has to come next
abbrev expect : ℕ → List ℕ → Option (List ℕ)
expect k [] = none
expect k (c ∷ cs) = if nat_eqb c k then some cs else none

abbrev is_digit : ℕ → Bool
is_digit c = leb 48 c && leb c 57

-- The digits at the end of a text, from the right: their value, how many, and what is left of them.
abbrev Digits : Type 0
Digits = ℕ × ℕ × List ℕ

trailing_digits : ℕ → List ℕ → Digits
trailing_digits scale [] = (0, 0, [])
trailing_digits scale (c ∷ cs) =
    let (value, count, rest) = trailing_digits (10 * scale) cs in
    if is_digit c then ((c - 48) * scale + value, count + 1, rest) else (0, 0, c ∷ cs)

-- From the right: "%", up to three digits, "-", and a name that is not empty.
abbrev chain : Option (List ℕ) → (List ℕ → Option (ℕ × ℕ)) → Option (ℕ × ℕ)
chain none f = none
chain (some cs) f = f cs

-- The length of the name and the number
abbrev name_end : ℕ → List ℕ → Option (ℕ × ℕ)
name_end value [] = none
name_end value (c ∷ cs) = some (length (c ∷ cs), value)

abbrev after_digits : Digits → Option (ℕ × ℕ)
after_digits (value, count, rest) =
    if leb 1 count && leb count 3
    then chain (expect 45 (skip_spaces rest)) (λ cs. name_end value (skip_spaces cs))
    else none

from_right : List ℕ → Option (ℕ × ℕ)
unfolding skip_spaces trailing_digits
from_right cs =
    chain (expect 37 (skip_spaces cs)) (λ ds. after_digits (trailing_digits 1 (skip_spaces ds)))

abbrev cut_name : String → Option (ℕ × ℕ) → Option (String × ℕ)
cut_name s none = none
cut_name s (some (n, value)) = some (cut n s, value)

-- The pattern `^(.+?)\s*-\s*(\d{1,3})\s*%\s*$`, on ASCII digits
unfoldable pub read_metadata : String → Option (String × ℕ)
unfolding from_right codes reversed
read_metadata s = cut_name s (from_right (reversed [] (codes s)))
