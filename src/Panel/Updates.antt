-- ===== src/Panel/Updates.antt =====
-- `update_sub` (main.py) on each of its branches, and the agreement of groups and configs.
use lumen_project_final.Prelude.{
  ◌≡◌, refl, Bool, Option, none, some, String, List, [], arith, Option-cases, if_cases, inl, inr,
}
use lumen_project_final.Prelude.Eq.{string_eq, ==_iff}
use lumen_project_final.Prelude.Dict.{get, put, get-put}
use lumen_project_final.Prelude.Member.{contains, distinct}
use lumen_project_final.Panel.{Sub, Panel, Result, Services}
use lumen_project_final.Panel.Groups.{
  Patch, patched, clean_ids, asked_ids, update_applied, update_found, update_sub,
}
use lumen_project_final.Panel.Sync.{InSync, finish_save-keeps}
use lumen_project_final.Panel.Resync.{sync_links-InSync, distinct-clean_ids, known-clean_ids}

same_ids-InSync :
    (sid : String) (sub sub' : Sub) (p : Panel)
    → get sid p.subs ≡ some sub
    → sub'.link_ids ≡ sub.link_ids
    → InSync p
    → InSync (record p { subs = put sid sub' p.subs })
same_ids-InSync sid sub sub' p found same v = record {
  agree =
      λ s j h. ground (arith, get-put sid s sub' p.subs, v.agree s j, ==_iff sid s, found, same);
  unique = λ s. ground (arith, get-put sid s sub' p.subs, v.unique s, v.unique sid, found, same);
}

update_applied-InSync :
    (e : Services) (sid : String) (body : Patch) (sub : Sub) (o : Option (List String)) (p : Panel)
    → get sid p.subs ≡ some sub
    → InSync p
    → InSync (update_applied e sid body sub (asked_ids p.links o) p)
unfolding update_applied asked_ids patched contains distinct
update_applied-InSync e sid body sub none p found v = same_ids-InSync sid sub _ p found refl v
update_applied-InSync e sid body sub (some ids) p found v =
    sync_links-InSync sid sub _ (clean_ids p.links ids []) p found refl
      (distinct-clean_ids p.links ids [] refl)
      (λ j. known-clean_ids p.links j ids [] (λ h. absurd (ground arith))) v

-- Whatever a request changes of a group, its name, password, locations or the whole list of its
-- configs, and whether or not the disk could be written: a group lists a config exactly when the
-- config names the group, and lists it once.
pub update_sub-InSync :
    (e : Services) (sid : String) (body : Patch) (saved : Bool) (p : Panel)
    → InSync p
    → InSync (update_sub e sid body saved p).1
unfolding update_sub update_found
update_sub-InSync e sid body saved p v = elim (Option-cases (get sid p.subs)) [
  | inl missing ↦ rw (missing, update_sub) v
  | inr (sub, found) ↦
      rw (found, update_sub)
        (if_cases (λ (r : Result (Unit {0}) × Panel). InSync r.1) _
          (λ _.
            finish_save-keeps InSync saved tt _
              (update_applied-InSync e sid body sub body.link_ids p found v))
          (λ _. v))
]
