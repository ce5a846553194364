-- ===== src/Panel/Patches/Grouped.antt =====
-- `update_link` (main.py) and the agreement of groups and configs.
use lumen_project_final.Prelude.{
  ℕ, ◌≡◌, ◌∙◌, refl, Bool, Option, none, some, String, List, [], ◌∷◌, Option-cases, inl, inr,
}
use lumen_project_final.Prelude.Eq.{string_eq}
use lumen_project_final.Prelude.Dict.{get, get-put_self}
use lumen_project_final.Panel.{Link, Panel, Result, ok, err, Services}
use lumen_project_final.Panel.Sync.{InSync, relink-InSync, move_link-InSync, finish_save-keeps}
use lumen_project_final.Panel.Patches.{
  Field, missing, unreadable, given, LinkPatch, Writes, go_on, run_writes, write_number, write_name,
  write_exit, write_texts, write_settings, patch_writes, write_patch, named_group, regroup,
  patch_written, patch_checked, check_patch, update_link, Exit,
}

-- A chain of writes leaves the group of a config alone.
abbrev StaysIn : Writes → Type 0
StaysIn f = (link : Link) → (f link).1.sub_id ≡ link.sub_id

go_on-StaysIn :
    (g : Writes) (r : Result (Unit {0}) × Link) {old : Option String}
    → r.1.sub_id ≡ old
    → StaysIn g
    → (go_on g r).1.sub_id ≡ old
go_on-StaysIn g (err e, link) s k = s
go_on-StaysIn g (ok u, link) s k = k link ∙ s

write_number-StaysIn :
    (field : Field) (f : ℕ → Link → Link)
    → ((n : ℕ) (link : Link) → (f n link).sub_id ≡ link.sub_id)
    → StaysIn (write_number field f)
write_number-StaysIn missing f h link = refl
write_number-StaysIn unreadable f h link = refl
write_number-StaysIn (given n) f h link = h n link

write_name-StaysIn :
    (name : Option String) (check : String → Result String) (f : String → Link → Link)
    → ((s : String) (link : Link) → (f s link).sub_id ≡ link.sub_id)
    → StaysIn (write_name name check f)
write_name-StaysIn none check f h link = refl
write_name-StaysIn (some s) check f h link = written (check s)
  where
    written : (r : Result String) → (write_name (some s) (λ _. r) f link).1.sub_id ≡ link.sub_id
    written (err e) = refl
    written (ok name) = h name link

write_exit-StaysIn :
    (exit : Option Exit) (link : Link) → (write_exit exit link).sub_id ≡ link.sub_id
unfolding write_exit
write_exit-StaysIn none link = refl
write_exit-StaysIn (some exit) link = refl

abbrev AllStayIn : List Writes → Type 0
AllStayIn [] = Unit {0}
AllStayIn (f ∷ fs) = StaysIn f × AllStayIn fs

run_writes-StaysIn : (fs : List Writes) → AllStayIn fs → StaysIn (run_writes fs)
unfolding run_writes
run_writes-StaysIn [] h link = refl
run_writes-StaysIn (f ∷ fs) h link =
    go_on-StaysIn (run_writes fs) (f link) (h.0 link) (run_writes-StaysIn fs h.1)

write_patch-StaysIn :
    (e : Services) (now : ℕ) (body : LinkPatch) (exit : Option Exit)
    → StaysIn (write_patch e now body exit)
unfolding write_patch patch_writes write_texts write_settings
write_patch-StaysIn e now body exit = run_writes-StaysIn (patch_writes e now body exit) (
  λ l. refl,
  (
    write_number-StaysIn body.limit_bytes _ (λ n l. refl),
    (
      write_number-StaysIn body.expires_days _ (λ n l. refl),
      (
        λ l. refl,
        (
          write_number-StaysIn body.speed_limit_bytes _ (λ n l. refl),
          (
            write_name-StaysIn body.address _ _ (λ s l. refl),
            (write_name-StaysIn body.sni _ _ (λ s l. refl), (write_exit-StaysIn exit, tt)),
          ),
        ),
      ),
    ),
  ),
)

regroup-InSync :
    (o : Option String) (uid : String) (link : Link) (p : Panel)
    → get uid p.links ≡ some link
    → InSync p
    → InSync (regroup o uid link p)
unfolding regroup
regroup-InSync none uid link p found v = v
regroup-InSync (some sub_id) uid link p found v =
    move_link-InSync uid link (named_group sub_id) p found v

patch_written-InSync :
    (body : LinkPatch) (uid : String) (saved : Bool) (old : Link) (r : Result (Unit {0}) × Link)
    (p : Panel)
    → get uid p.links ≡ some old
    → r.1.sub_id ≡ old.sub_id
    → InSync p
    → InSync (patch_written body uid saved r p).1
unfolding patch_written
patch_written-InSync body uid saved old (err e, link) p found same v =
    relink-InSync uid old link p found same v
patch_written-InSync body uid saved old (ok u, link) p found same v =
    finish_save-keeps InSync saved tt _ (
      regroup-InSync body.sub_id uid link _ (get-put_self uid link p.links)
        (relink-InSync uid old link p found same v))

patch_checked-InSync :
    (e : Services) (now : ℕ) (uid : String) (body : LinkPatch) (saved : Bool) (link : Link)
    (r : Result (Option Exit)) (p : Panel)
    → get uid p.links ≡ some link
    → InSync p
    → InSync (patch_checked e now uid body saved link r p).1
unfolding patch_checked
patch_checked-InSync e now uid body saved link (err failure) p found v = v
patch_checked-InSync e now uid body saved link (ok exit) p found v =
    patch_written-InSync body uid saved link (write_patch e now body exit link) p found
      (write_patch-StaysIn e now body exit link) v

-- Whatever a request changes of a config, also where a write raises after others were made.
pub update_link-InSync :
    (e : Services) (now : ℕ) (uid : String) (body : LinkPatch) (saved : Bool) (p : Panel)
    → InSync p
    → InSync (update_link e now uid body saved p).1
unfolding update_link
update_link-InSync e now uid body saved p v = elim (Option-cases (get uid p.links)) [
  | inl gone ↦ rw (gone, update_link) v
  | inr (link, found) ↦
      rw (found, update_link)
        (patch_checked-InSync e now uid body saved link (check_patch e link body p.subs) p found v)
]
