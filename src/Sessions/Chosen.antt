-- ===== src/Sessions/Chosen.antt =====
-- What `resolve_exit_selection` (main.py) chooses for a config that uses a proxy.
use Prim.Native.String as Text
use text.Mathlib.TextLemmas.{length-append}
use lumen_project_final.Prelude.{
  ◌≡◌, ◌≢◌, refl, sym, ap, ◌∙◌, String, Bool, true, false, ◌||◌, Option, none, some, arith,
  Option-cases, inl, inr, if_cases, is_some,
}
use lumen_project_final.Prelude.Eq.{◌==◌, string_eq}
use lumen_project_final.Prelude.Dict.{Dict}
use lumen_project_final.Repository.{
  Library, Record, Url, get_record, validate_url, checked_url, endpoint_of,
}
use lumen_project_final.Panel.{Link, Sub, MultiLocation}
use lumen_project_final.Panel.Access.{multi_location_for_link}
use lumen_project_final.Exits.{
  World, Resolved, unavailable, chosen, or_text, managed, custom, resolve_own, resolve_by,
  resolve_exit_selection,
}
use lumen_project_final.Exits.Exact.{OnlyExact, proxy_for, resolve_exit_selection-OnlyExact}

-- The catalogue lists no empty endpoint.
unfoldable pub HasEndpoints : World → Type 0
HasEndpoints w = (id : String) (r : Record) → get_record id w.repository ≡ some r → r.endpoint ≢ ""

-- The config leaves by a proxy: its group has Multi-Location on, or it has a proxy of its own.
abbrev pub uses_exit : Option Link → Dict String Sub → Bool
uses_exit none subs = false
uses_exit (some link) subs =
    is_some (multi_location_for_link link subs)
    || or_text link.exit_proxy_mode "direct" == "repository"
    || or_text link.exit_proxy_mode "direct" == "custom"

url_is_full : (s t : String) → Text.◌++◌ s (Text.◌++◌ "://" t) ≢ ""
url_is_full s t e =
    let n = sym (ap Text.count e) ∙ length-append s (Text.◌++◌ "://" t) in
    let m = length-append "://" t in absurd (omega arith)

checked_url-full :
    (lib : Library) (o : Option Url) {e : String} → checked_url lib o ≡ some e → e ≢ ""
unfolding checked_url
checked_url-full lib none h = cc
checked_url-full lib (some u) {e} h =
    let same : endpoint_of lib u ≡ e = ground (arith, h) in
    rw⁻¹ same (url_is_full (lib.lower u.scheme) u.netloc)

abbrev pub Leaves : Resolved → Type 0
Leaves (unavailable reason) = Unit {0}
Leaves (chosen none) = ⊥
Leaves (chosen (some s)) = s.endpoint ≢ ""

custom-Leaves :
    (w : World) (o : Option String) → ((e : String) → o ≡ some e → e ≢ "") → Leaves (custom w o)
unfolding custom
custom-Leaves w none full = tt
custom-Leaves w (some e) full = full e refl

managed-Leaves :
    (w : World) (id : String) (o : Option Record)
    → HasEndpoints w
    → get_record id w.repository ≡ o
    → Leaves (managed w o)
unfolding managed HasEndpoints
managed-Leaves w id none full e = tt
managed-Leaves w id (some r) full e = full id r e

resolve_own-Leaves :
    (w : World) (link : Link)
    → HasEndpoints w
    → (or_text link.exit_proxy_mode "direct" == "repository"
        || or_text link.exit_proxy_mode "direct" == "custom")
      ≡ true
    → Leaves (resolve_own w link)
unfolding resolve_own validate_url
resolve_own-Leaves w link full mode =
    if_cases Leaves (or_text link.exit_proxy_mode "direct" == "repository")
      (λ m. managed-Leaves w link.proxy_id (get_record link.proxy_id w.repository) full refl)
      (λ m.
        if_cases Leaves (or_text link.exit_proxy_mode "direct" == "custom")
          (λ c.
            custom-Leaves w (validate_url w.library link.custom_proxy)
              (λ e h. checked_url-full w.library _ h))
          (λ c. absurd (ground (arith, mode, m, c))))

exact-Leaves :
    (w : World) (ml : MultiLocation) (loc_id : String) (r : Resolved)
    → HasEndpoints w
    → OnlyExact w ml loc_id r
    → Leaves r
unfolding HasEndpoints
exact-Leaves w ml loc_id (unavailable reason) full h = tt
exact-Leaves w ml loc_id (chosen none) full h = h
exact-Leaves w ml loc_id (chosen (some s)) full h =
    rw h.endpoint (full (proxy_for w ml h.location) h.catalogued h.known)

pub resolve-Leaves :
    (w : World) (required : Bool) (o : Option Link) (subs : Dict String Sub) (loc_id : String)
    → HasEndpoints w
    → uses_exit o subs ≡ true
    → Leaves (resolve_exit_selection w required o subs loc_id)
unfolding resolve_exit_selection resolve_by
resolve-Leaves w required none subs loc_id full uses = cc
resolve-Leaves w required (some link) subs loc_id full uses =
    elim (Option-cases (multi_location_for_link link subs)) [
      | inl off ↦ rw off (resolve_own-Leaves w link full (ground (arith, uses, off)))
      | inr (ml, on) ↦
          exact-Leaves w ml loc_id _ full
            (resolve_exit_selection-OnlyExact w required link subs loc_id ml on)
    ]

pub leaves_at : {r q : Resolved} → r ≡ q → Leaves r → Leaves q
leaves_at e h = rw⁻¹ e h
