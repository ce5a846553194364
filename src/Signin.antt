-- ===== src/Signin.antt =====
-- Signing in to the panel (main.py: `create_session`, `is_valid_session`, `destroy_session`,
-- `require_auth`, `api_login`, `api_logout`, `api_change_password`). The hash, the drawn tokens and
-- the time, in seconds, are arguments; the save after a new password is not part of the model.
pub mod Expelled
use lumen_project_final.Prelude.{
  ℕ, ◌+◌, ◌*◌, Bool, true, false, not, Option, none, some, String, List, [], ◌∷◌, if◌then◌else◌,
  ltb, length,
}
use lumen_project_final.Prelude.Eq.{◌==◌, string_eq}
use lumen_project_final.Prelude.Dict.{Dict, get, put, remove}
use lumen_project_final.Repository.Metadata.{codes}

-- `AUTH` and `SESSIONS`: each token with its end
pub record Auth : Type 0 where
  pub password_hash : String
  pub sessions : Dict String ℕ

pub data Answer : Type 0 where
  done unauthorized wrong_password too_short : Answer

abbrev pub session_ttl : ℕ
session_ttl = 60 * 60 * 24 * 365

unfoldable pub create_session : String → ℕ → Auth → Auth
create_session token now a = record a { sessions = put token (now + session_ttl) a.sessions }

unfoldable pub session_checked : String → ℕ → Option ℕ → Auth → Bool × Auth
session_checked token now none a = (false, a)
session_checked token now (some end) a =
    if ltb end now then (false, record a { sessions = remove token a.sessions }) else (true, a)

-- `is_valid_session`; a session that is over is dropped.
unfoldable pub is_valid_session : Option String → ℕ → Auth → Bool × Auth
unfolding session_checked
is_valid_session none now a = (false, a)
is_valid_session (some token) now a =
    if token == "" then (false, a) else session_checked token now (get token a.sessions) a

unfoldable pub destroy_session : Option String → Auth → Auth
destroy_session none a = a
destroy_session (some token) a =
    if token == "" then a else record a { sessions = remove token a.sessions }

-- A request, by its cookie; any other one checks it.
pub data Request : Type 0 where
  logs_in : (password token : String) → (now : ℕ) → Request
  logs_out : (cookie : Option String) → Request
  asks : (cookie : Option String) → (now : ℕ) → Request
  changes : (current new : String) → (cookie : Option String) → (now : ℕ) → Request

module _ (hash_password : String → String) where
  unfoldable pub login : String → String → ℕ → Auth → Answer × Auth
  unfolding create_session
  login password token now a =
      if hash_password password == a.password_hash
      then (done, create_session token now a)
      else (wrong_password, a)

  -- The new password, and no session but the one that asked for it
  unfoldable pub replaced : String → String → String → ℕ → Auth → Answer × Auth
  replaced current new token now a =
      if not (hash_password current == a.password_hash)
      then (wrong_password, a)
      else if ltb (length (codes new)) 4
      then (too_short, a)
      else (
        done,
        record { password_hash = hash_password new; sessions = put token (now + session_ttl) [] },
      )

  unfoldable pub authorized : String → String → Option String → ℕ → Bool × Auth → Answer × Auth
  unfolding replaced
  authorized current new cookie now (false, a) = (unauthorized, a)
  authorized current new none now (true, a) = (unauthorized, a)
  authorized current new (some token) now (true, a) = replaced current new token now a

  -- `api_change_password` behind `require_auth`
  unfoldable pub change_password : String → String → Option String → ℕ → Auth → Answer × Auth
  unfolding is_valid_session authorized
  change_password current new cookie now a =
      authorized current new cookie now (is_valid_session cookie now a)

  unfoldable pub handle : Request → Auth → Auth
  unfolding login change_password destroy_session is_valid_session
  handle (logs_in password token now) a = (login password token now a).1
  handle (logs_out cookie) a = destroy_session cookie a
  handle (asks cookie now) a = (is_valid_session cookie now a).1
  handle (changes current new cookie now) a = (change_password current new cookie now a).1

  unfoldable pub handle_all : List Request → Auth → Auth
  unfolding handle
  handle_all [] a = a
  handle_all (r ∷ rs) a = handle_all rs (handle r a)
