-- ===== src/Tests/Signin.antt =====
-- The theorem on signed-out sessions, at two of them (main.py: `api_change_password`).
use lumen_project_final.Prelude.{◌≡◌, ◌≢◌, refl, false, some, String, List, [], ◌∷◌, arith}
use lumen_project_final.Prelude.Dict.{get}
use lumen_project_final.Prelude.Eq.{◌==◌, string_eq, ==_iff}
use lumen_project_final.Repository.Metadata.{codes}
use lumen_project_final.Signin.{
  Auth, Answer, Request, change_password, handle_all, is_valid_session,
}
use lumen_project_final.Signin.Expelled.{change_password_expels}

abbrev auth : Auth
auth = record { password_hash = "old!"; sessions = ("a", 500) ∷ ("b", 600) ∷ [] }

abbrev requests : List Request
requests = Request.asks (some "b") 20 ∷ Request.logs_in "new!" "c" 30 ∷ []

is_changed : (change_password (λ p. p) "old!" "new!" (some "a") 10 auth).0 ≡ Answer.done
unfolding change_password codes get
is_changed = refl

apart : (t s : String) → (t == s) ≡ false → t ≢ s
apart t s differ e = absurd (ground (arith, differ, e, ==_iff t s))

change_password_expels_example :
    (is_valid_session (some "b") 40 (
      handle_all (λ p. p) requests (change_password (λ p. p) "old!" "new!" (some "a") 10 auth).1)).0
    ≡ false
change_password_expels_example =
    change_password_expels (λ p. p) "old!" "new!" "a" "b" 10 40 requests auth is_changed
      (apart "b" "a" refl) (tt, (apart "b" "c" refl, tt))
