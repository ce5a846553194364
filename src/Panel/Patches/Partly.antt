-- ===== src/Panel/Patches/Partly.antt =====
-- A refused `update_link` (main.py) that has changed the config all the same.
use lumen_project_final.Prelude.{
  ℕ, ◌≡◌, ◌≢◌, ◌∙◌, ap, refl, Bool, Option, none, some, String, arith,
}
use lumen_project_final.Prelude.Eq.{string_eq}
use lumen_project_final.Prelude.Dict.{get, get-put_self}
use lumen_project_final.Prelude.Text.{cut}
use lumen_project_final.Panel.{Link, Panel, Result, ok, err, Services, bad_address}
use lumen_project_final.Panel.Links.{require, or_text}
use lumen_project_final.Panel.Patches.{
  Field, missing, unreadable, given, LinkPatch, Writes, go_on, run_writes, write_number, write_name,
  write_texts, write_settings, patch_writes, write_patch, patch_written, patch_checked, check_patch,
  update_link, Exit,
}

abbrev pub label_of : Option Link → Option String
label_of none = none
label_of (some link) = some link.label

-- The writes ended at the address, with that label.
abbrev Refused : String → Result (Unit {0}) × Link → Type 0
Refused text (err e, link) =
    (◌≡◌ {A = Result (Unit {0})} (err e) (err bad_address)) × (link.label ≡ text)
Refused text (ok u, link) = ⊥

write_texts-label :
    (body : LinkPatch) (label : String) (link : Link)
    → body.label ≡ some label
    → (write_texts body link).label ≡ cut 60 label
unfolding write_texts
write_texts-label body label link l = ground (arith, l)

-- A number that is not refused leaves the rest to run, with the same label.
go_on_number :
    (field : Field) (f : ℕ → Link → Link) (g : Writes) (text : String) (link : Link)
    → ((n : ℕ) (l : Link) → (f n l).label ≡ l.label)
    → field ≢ unreadable
    → link.label ≡ text
    → ((l : Link) → l.label ≡ text → Refused text (g l))
    → Refused text (go_on g (write_number field f link))
go_on_number missing f g text link h n l k = k link l
go_on_number unreadable f g text link h n l k = absurd (n refl)
go_on_number (given m) f g text link h n l k = k (f m link) (h m link ∙ l)

go_on_address :
    (name : Option String) (address : String) (check : String → Result String)
    (f : String → Link → Link) (g : Writes) (text : String) (link : Link)
    → name ≡ some address
    → check address ≡ err bad_address
    → link.label ≡ text
    → Refused text (go_on g (write_name name check f link))
go_on_address none address check f g text link n c l = cc
go_on_address (some a) address check f g text link n c l = ground (arith, n, c, l)

write_patch-Refused :
    (e : Services) (now : ℕ) (body : LinkPatch) (exit : Option Exit) (link : Link)
    (label address : String)
    → body.label ≡ some label
    → body.limit_bytes ≢ unreadable
    → body.expires_days ≢ unreadable
    → body.speed_limit_bytes ≢ unreadable
    → body.address ≡ some address
    → e.normalize_address (or_text address body.host) ≡ none
    → Refused (cut 60 label) (write_patch e now body exit link)
unfolding write_patch patch_writes run_writes write_settings require
write_patch-Refused e now body exit link label address l n1 n2 n3 a refused =
    go_on_number body.limit_bytes _ _ _ _ (λ n k. refl) n1 (write_texts-label body label link l)
      (λ k1 l1.
        go_on_number body.expires_days _ _ _ _ (λ n k. refl) n2 l1
          (λ k2 l2.
            go_on_number body.speed_limit_bytes _ _ _ _ (λ n k. refl) n3 l2
              (λ k3 l3. go_on_address body.address address _ _ _ _ k3 a (rw refused refl) l3)))

patch_written-Refused :
    (body : LinkPatch) (uid text : String) (saved : Bool) (r : Result (Unit {0}) × Link) (p : Panel)
    → Refused text r
    → let after = patch_written body uid saved r p in
      (after.0 ≡ err bad_address) × (label_of (get uid after.1.links) ≡ some text)
unfolding patch_written
patch_written-Refused body uid text saved (err e, link) p h =
    (h.0, ap label_of (get-put_self uid link p.links) ∙ ap some h.1)
patch_written-Refused body uid text saved (ok u, link) p h = absurd h

-- Where the address of a request is refused and its numbers are missing or read, the answer is an
-- error, and yet the config in memory has the request's label.
pub update_link-partly :
    (e : Services) (now : ℕ) (uid : String) (body : LinkPatch) (saved : Bool) (p : Panel)
    (link : Link) (exit : Option Exit) (label address : String)
    → get uid p.links ≡ some link
    → check_patch e link body p.subs ≡ ok exit
    → body.label ≡ some label
    → body.limit_bytes ≢ unreadable
    → body.expires_days ≢ unreadable
    → body.speed_limit_bytes ≢ unreadable
    → body.address ≡ some address
    → e.normalize_address (or_text address body.host) ≡ none
    → let after = update_link e now uid body saved p in
      (after.0 ≡ err bad_address) × (label_of (get uid after.1.links) ≡ some (cut 60 label))
unfolding update_link
update_link-partly e now uid body saved p link exit label address found passed l n1 n2 n3 a
      refused =
    rw (found, update_link, passed, patch_checked)
      (patch_written-Refused body uid (cut 60 label) saved (write_patch e now body exit link) p
        (write_patch-Refused e now body exit link label address l n1 n2 n3 a refused))
