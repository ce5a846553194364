-- ===== src/Countries.antt =====
-- Country metadata (countries.py): codes, names, flags and `normalize_country`.
pub mod Table
use Prim.Native.Char.{Char, code}
use Prim.Native.String as Text
use lumen_project_final.Prelude.{
  ℕ, ◌-◌, ◌*◌, String, Bool, true, false, not, ◌&&◌, ◌||◌, Option, none, some, List, [], ◌∷◌, ◌++◌,
  map, leb, nat_eqb, is_some, or_else, if◌then◌else◌,
}
use lumen_project_final.Prelude.Eq.{◌==◌, string_eq}
use lumen_project_final.Prelude.Dict.{Dict, get}
use lumen_project_final.Prelude.Text.{strip, cut}
use lumen_project_final.Countries.Table.{iso_countries, aliases, code_aliases}

-- Python's `str.upper` and `str.casefold`
pub record Casing : Type 0 where
  pub upper : String → String
  pub casefold : String → String

abbrev is_letter : ℕ → Bool
is_letter c = leb 65 c && leb c 90 || leb 97 c && leb c 122

-- `_CODE_RE.fullmatch`: two ASCII letters
unfoldable pub is_code_shape : String → Bool
is_code_shape (String.◌∷◌ a (String.◌∷◌ b String.[])) = is_letter (code a) && is_letter (code b)
is_code_shape _ = false

abbrev prepend : Char → Option (String × String) → Option (String × String)
prepend c none = none
prepend c (some (left, right)) = some (String.◌∷◌ c left, right)

-- `text.split("|", 1)`, `none` if there is no bar.
unfoldable pub split_bar : String → Option (String × String)
split_bar String.[] = none
split_bar (String.◌∷◌ c s) =
    let rest = prepend c (split_bar s) in if nat_eqb (code c) 124 then some ("", s) else rest

abbrev indicators : String
indicators = "🇦🇧🇨🇩🇪🇫🇬🇭🇮🇯🇰🇱🇲🇳🇴🇵🇶🇷🇸🇹🇺🇻🇼🇽🇾🇿"

-- An indicator takes four bytes.
abbrev flag_of : String → String
flag_of (String.◌∷◌ a (String.◌∷◌ b String.[])) =
    String.◌∷◌ (Text.char_at indicators (4 * (code a - 65)))
      (String.◌∷◌ (Text.char_at indicators (4 * (code b - 65))) String.[])
flag_of _ = "🌐"

module _ (casing : Casing) where
  -- `str(code or "").strip().upper()`
  abbrev clean_code : String → String
  clean_code value = casing.upper (strip value)

  unfoldable pub is_valid_code : String → Bool
  is_valid_code value = is_some (get (clean_code value) iso_countries)

  unfoldable pub country_name : String → String
  country_name value = or_else (get (clean_code value) iso_countries) (clean_code value)

  unfoldable pub flag_for : String → String
  unfolding is_code_shape
  flag_for value = if is_code_shape (clean_code value) then flag_of (clean_code value) else "🌐"

  -- `_NAME_TO_CODE`: the official names first; the first entry of a name counts.
  unfoldable pub name_to_code : Dict String String
  name_to_code =
      map (λ (entry : String × String). (casing.casefold entry.1, entry.0)) iso_countries ++ aliases

  -- The assigned code for a reserved or transitional one
  unfoldable pub code_of : String → String
  code_of text = let k = casing.upper text in or_else (get k code_aliases) k

  abbrev named : String → String → String × String
  named name k = (cut 60 (if name == "" then country_name k else name), k)

  by_name : String → Option String → String × String
  by_name text none = (cut 60 text, "")
  by_name text (some k) = (country_name k, k)

  single : String → String × String
  unfolding by_name code_of is_code_shape country_name name_to_code
  single text =
      if is_code_shape text
      then (country_name (code_of text), code_of text)
      else by_name text (get (casing.casefold text) name_to_code)

  -- "FI | Finland" in either order; what has no code on either side is read whole.
  paired : String → Option (String × String) → String × String
  unfolding single is_code_shape code_of country_name
  paired text none = single text
  paired text (some (left, right)) =
      if is_code_shape (strip left)
      then named (strip right) (code_of (strip left))
      else if is_code_shape (strip right)
      then named (strip left) (code_of (strip right))
      else single text

  unfoldable pub normalize_country : String → String × String
  unfolding paired split_bar
  normalize_country raw =
      let text = strip raw in if text == "" then ("Unknown", "") else paired text (split_bar text)
