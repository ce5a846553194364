-- ===== src/Repository/Catalogue.antt =====
-- What `parse_text` yields and a refresh makes of it (proxy_repository.py).
use mathlib.Core.List.{append_assoc, append-nil}
use lumen_project_final.Prelude.{
  suc, ap, sym, ◌++◌, ℕ, ◌-◌, ◌≤◌, ◌≡◌, refl, ◌∙◌, String, true, false, ◌||◌, Option, none, some,
  List, [], ◌∷◌, arith, length, leb, Bool-cases, Option-cases, inl, inr,
}
use lumen_project_final.Prelude.Eq.{◌==◌, string_eq, ==_iff, ==_refl}
use lumen_project_final.Prelude.Dict.{Dict, keys, get, put, get-put, get-put_self}
use lumen_project_final.Prelude.Member.{contains, distinct}
use lumen_project_final.Prelude.Text.{strip}
use lumen_project_final.Repository.Metadata.{split_last_hash, starts_with}
use lumen_project_final.Repository.{
  Library, Record, Repository, rows, validate_url, make_record, with_endpoint, with_metadata,
  split_line, parse_line, parse_lines, parse_text, max_proxies, index_rows, take_rows, refresh,
  get_record,
}

abbrev pub All {ℓ κ} : {A : Type ℓ} → (A → Type κ) → List A → Type κ
All P [] = Unit
All P (x ∷ xs) = P x × All P xs

abbrev pub ids : List Record → List String
ids [] = []
ids (r ∷ rs) = r.id ∷ ids rs

-- A record comes from a URL that was accepted, and is known by the hash of its endpoint.
pub record IsEntry (lib : Library) (r : Record) : Type 0 where
  pub raw : String
  pub accepted : validate_url lib raw ≡ some r.endpoint
  pub identified : r.id ≡ lib.identity r.endpoint
  pub health : r.health ≤ 100

record IsNew (lib : Library) (seen : List String) (r : Record) : Type 0 where
  entry : IsEntry lib r
  unseen : contains r.id seen ≡ false

with_endpoint-IsNew :
    (lib : Library) (seen : List String) (name raw : String) (health : ℕ) (e : Option String)
    {r : Record}
    → validate_url lib raw ≡ e
    → with_endpoint lib seen name health e ≡ some r
    → IsNew lib seen r
unfolding with_endpoint make_record
with_endpoint-IsNew lib seen name raw health none v h = cc
with_endpoint-IsNew lib seen name raw health (some e) {r} v h =
    elim (Bool-cases (contains (lib.identity e) seen)) [
      | inl c ↦ absurd (ground (arith, c))
      | inr c ↦
          let d : make_record lib e name health ≡ r = ground (arith, c) in
          rw⁻¹ d (record {
            entry = record { raw = raw; accepted = v; identified = refl; health = omega arith };
            unseen = c;
          })
    ]

with_metadata-IsNew :
    (lib : Library) (seen : List String) (raw : String) (m : Option (String × ℕ)) {r : Record}
    → with_metadata lib seen raw m ≡ some r
    → IsNew lib seen r
unfolding with_metadata
with_metadata-IsNew lib seen raw none h = cc
with_metadata-IsNew lib seen raw (some (name, health)) h =
    with_endpoint-IsNew lib seen name raw health (validate_url lib raw) refl h

split_line-IsNew :
    (lib : Library) (seen : List String) (o : Option (String × String)) {r : Record}
    → split_line lib seen o ≡ some r
    → IsNew lib seen r
unfolding split_line
split_line-IsNew lib seen none h = cc
split_line-IsNew lib seen (some (raw, suffix)) h = with_metadata-IsNew lib seen raw _ h

parse_line-IsNew :
    (lib : Library) (seen : List String) (l : String) {r : Record}
    → parse_line lib seen l ≡ some r
    → IsNew lib seen r
unfolding parse_line
parse_line-IsNew lib seen l h =
    let text = strip l in
    elim (Bool-cases (text == "" || starts_with ";" text || starts_with "//" text)) [
      | inl c ↦ absurd (ground (arith, c))
      | inr c ↦ split_line-IsNew lib seen (split_last_hash text) (ground (arith, c))
    ]

-- At most `left` records, no two of one identity and none of a seen one.
record IsParsed (lib : Library) (seen : List String) (left : ℕ) (rs : List Record) : Type 0 where
  few : length rs ≤ left
  distinct_ids : distinct (ids rs) ≡ true
  unseen : (j : String) → contains j seen ≡ true → contains j (ids rs) ≡ false
  entries : All (IsEntry lib) rs

one-IsParsed :
    (lib : Library) (seen : List String) (left : ℕ) (r : Record)
    → IsNew lib seen r
    → 1 ≤ left
    → IsParsed lib seen left (r ∷ [])
unfolding contains distinct
one-IsParsed lib seen left r n h = record {
  few = omega (arith, h);
  distinct_ids = refl;
  unseen = λ j s. ground (arith, s, n.unseen, ==_iff r.id j);
  entries = (n.entry, tt);
}

more-IsParsed :
    (lib : Library) (seen : List String) (left : ℕ) (r : Record) (rs : List Record)
    → IsNew lib seen r
    → 1 ≤ left
    → IsParsed lib (r.id ∷ seen) (left - 1) rs
    → IsParsed lib seen left (r ∷ rs)
unfolding contains distinct
more-IsParsed lib seen left r rs n h p = record {
  few = omega (arith, h, p.few);
  distinct_ids = ground (arith, p.distinct_ids, p.unseen r.id, ==_refl r.id);
  unseen = λ j s. ground (arith, s, n.unseen, ==_iff r.id j, p.unseen j);
  entries = (n.entry, p.entries);
}

parse_lines-IsParsed :
    (lib : Library) (ls seen : List String) (left : ℕ)
    → 1 ≤ left
    → IsParsed lib seen left (parse_lines lib ls seen left)
unfolding parse_lines distinct contains
parse_lines-IsParsed lib [] seen left h = record {
  few = omega arith;
  distinct_ids = refl;
  unseen = λ j s. refl;
  entries = tt;
}
parse_lines-IsParsed lib (l ∷ ls) seen left h = elim (Option-cases (parse_line lib seen l)) [
  | inl e ↦ rw (e, parse_lines) (parse_lines-IsParsed lib ls seen left h)
  | inr (r, e) ↦
      let n = parse_line-IsNew lib seen l e in
      rw (e, parse_lines)
        (elim (Bool-cases (leb left 1)) [
          | inl c ↦ rw c (one-IsParsed lib seen left r n h)
          | inr c ↦ rw c (
              more-IsParsed lib seen left r _ n h
                (parse_lines-IsParsed lib ls (r.id ∷ seen) (left - 1) (ground (arith, c))))
        ])
]

get-index_other :
    (j : String) (rs : List Record) (acc : Dict String Record)
    → contains j (ids rs) ≡ false
    → get j (index_rows acc rs) ≡ get j acc
unfolding index_rows contains
get-index_other j [] acc h = refl
get-index_other j (r ∷ rs) acc h =
    get-index_other j rs (put r.id r acc) (ground (arith, h))
    ∙ ground (arith, h, get-put r.id j r acc)

-- Every row is found under its identity.
get-index_rows :
    (rs : List Record) (acc : Dict String Record)
    → distinct (ids rs) ≡ true
    → All (λ r. get r.id (index_rows acc rs) ≡ some r) rs
unfolding index_rows distinct
get-index_rows [] acc d = tt
get-index_rows (r ∷ rs) acc d = (
  get-index_other r.id rs (put r.id r acc) (ground (arith, d)) ∙ get-put_self r.id r acc,
  get-index_rows rs (put r.id r acc) (ground (arith, d)),
)

-- The dictionary of those records and no others, in order, each under its identity.
abbrev pub by_id : List Record → Dict String Record
by_id [] = []
by_id (r ∷ rs) = (r.id, r) ∷ by_id rs

put-append :
    (k : String) (v : Record) (m : Dict String Record)
    → get k m ≡ none
    → put k v m ≡ m ++ (k, v) ∷ []
unfolding get put
put-append k v [] h = refl
put-append k v ((j, w) ∷ m) h = ground (arith, h, put-append k v m)

get-append_other :
    (j k : String) (v : Record) (m : Dict String Record)
    → get j m ≡ none
    → (k == j) ≡ false
    → get j (m ++ (k, v) ∷ []) ≡ none
unfolding get
get-append_other j k v [] h other = ground (arith, other)
get-append_other j k v ((i, w) ∷ m) h other = ground (arith, h, get-append_other j k v m)

-- Rows of different identities, none of them there before, go to the end in order.
index_rows-append :
    (rs : List Record) (acc : Dict String Record)
    → distinct (ids rs) ≡ true
    → ((j : String) → contains j (ids rs) ≡ true → get j acc ≡ none)
    → index_rows acc rs ≡ acc ++ by_id rs
unfolding index_rows distinct contains
index_rows-append [] acc d fresh = sym (append-nil acc)
index_rows-append (r ∷ rs) acc d fresh =
    rw (put-append r.id r acc (fresh r.id (ground (arith, ==_refl r.id)))) (
      index_rows-append rs (acc ++ (r.id, r) ∷ []) (ground (arith, d)) (λ j h.
        get-append_other j r.id r acc (fresh j (ground (arith, h)))
          (ground (arith, d, h, ==_iff r.id j)))
      ∙ append_assoc acc ((r.id, r) ∷ []) (by_id rs))

length-by_id : (rs : List Record) → length (by_id rs) ≡ length rs
length-by_id [] = refl
length-by_id (r ∷ rs) = ap suc (length-by_id rs)

keys-by_id : (rs : List Record) → keys (by_id rs) ≡ ids rs
unfolding keys
keys-by_id [] = refl
keys-by_id (r ∷ rs) = ap (◌∷◌ r.id) (keys-by_id rs)

All-by_id :
    (lib : Library) (rs : List Record)
    → All (IsEntry lib) rs
    → All (λ p. (p.0 ≡ p.1.id) × IsEntry lib p.1) (by_id rs)
All-by_id lib [] h = tt
All-by_id lib (r ∷ rs) h = ((refl, h.0), All-by_id lib rs h.1)

-- What is published of the records that were read: these and no others.
pub record IsCatalogue (lib : Library) (rs : List Record) (r : Repository) : Type 0 where
  pub published : r.records ≡ by_id rs
  pub few : length r.records ≤ max_proxies
  pub distinct_ids : distinct (keys r.records) ≡ true
  pub entries : All (λ p. (p.0 ≡ p.1.id) × IsEntry lib p.1) r.records
  pub found : All (λ x. get_record x.id r ≡ some x) rs

abbrev pub IsRefreshed : Library → List Record → Repository → Repository → Type 0
IsRefreshed lib [] old new = new.records ≡ old.records
IsRefreshed lib (x ∷ xs) old new = IsCatalogue lib (x ∷ xs) new × (new.error ≡ "")

catalogued :
    (lib : Library) (rs : List Record) (r : Repository)
    → IsParsed lib [] max_proxies rs
    → r.records ≡ index_rows [] rs
    → IsCatalogue lib rs r
unfolding get_record get
catalogued lib rs r p same =
    let all : r.records ≡ by_id rs = same ∙ index_rows-append rs [] p.distinct_ids (λ j h. refl) in
    record {
      published = all;
      few = rw (all, length-by_id rs) p.few;
      distinct_ids = rw (all, keys-by_id rs) p.distinct_ids;
      entries = rw all (All-by_id lib rs p.entries);
      found = rw same (get-index_rows rs [] p.distinct_ids);
    }

refresh_rows :
    (lib : Library) (rs : List Record) (now : ℕ) (old : Repository)
    → IsParsed lib [] max_proxies rs
    → IsRefreshed lib rs old (refresh true now (rows rs) old)
unfolding refresh take_rows
refresh_rows lib [] now old p = refl
refresh_rows lib (x ∷ xs) now old p = (catalogued lib (x ∷ xs) _ p refl, refl)

-- After a forced refresh from a text: if the text holds a valid proxy, the published catalogue is
-- exactly what was read from the text; it has at most 1,000 entries, no two share an identity, and
-- each has an endpoint that `validate_url` returned and stands, and is found, under the hash of
-- that endpoint; if the text holds none, the catalogue is the one from before.
pub refresh-IsRefreshed :
    (lib : Library) (lines : List String) (now : ℕ) (old : Repository)
    → IsRefreshed lib
        (parse_text lib lines)
        old
        (refresh true now (rows (parse_text lib lines)) old)
unfolding parse_text
refresh-IsRefreshed lib lines now old =
    refresh_rows lib (parse_lines lib lines [] max_proxies) now old
      (parse_lines-IsParsed lib lines [] max_proxies (omega arith))
