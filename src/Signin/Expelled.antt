-- ===== src/Signin/Expelled.antt =====
-- Who is signed out by a new password (main.py: `api_change_password`).
use lumen_project_final.Prelude.{
  ℕ, ◌+◌, ◌≡◌, ◌≢◌, refl, ap, sym, ◌∙◌, Bool, true, false, not, Option, none, some, String, List,
  [], ◌∷◌, arith, Bool-cases, inl, inr, if_cases, ltb, length,
}
use lumen_project_final.Prelude.Eq.{◌==◌, string_eq, ==_iff}
use lumen_project_final.Prelude.Dict.{get, put, remove, get-put, get-remove}
use lumen_project_final.Repository.Metadata.{codes}
use lumen_project_final.Signin.{
  Auth, Answer, done, Request, logs_in, logs_out, asks, changes, create_session, session_checked,
  is_valid_session, destroy_session, login, replaced, authorized, change_password, handle,
  handle_all, session_ttl,
}

-- A request that does not hand out that token
abbrev pub Other : String → Request → Type 0
Other t (logs_in password token now) = t ≢ token
Other t r = Unit {0}

abbrev pub AllOther : String → List Request → Type 0
AllOther t [] = Unit {0}
AllOther t (r ∷ rs) = Other t r × AllOther t rs

-- No session has the token.
Absent : String → Auth → Type 0
Absent t a = get t a.sessions ≡ none

remove-Absent :
    (t token : String) (a : Auth)
    → Absent t a
    → Absent t (record a { sessions = remove token a.sessions })
unfolding Absent
remove-Absent t token a h = ground (arith, h, get-remove token t a.sessions)

is_valid_session-Absent :
    (t : String) (cookie : Option String) (now : ℕ) (a : Auth)
    → Absent t a
    → Absent t (is_valid_session cookie now a).1
unfolding is_valid_session session_checked
is_valid_session-Absent t none now a h = h
is_valid_session-Absent t (some token) now a h =
    if_cases (λ (r : Bool × Auth). Absent t r.1) (token == "") (λ e. h)
      (λ e. checked (get token a.sessions))
  where
    checked : (o : Option ℕ) → Absent t (session_checked token now o a).1
    checked none = h
    checked (some end) =
        if_cases (λ (r : Bool × Auth). Absent t r.1) (ltb end now) (λ k. remove-Absent t token a h)
          (λ k. h)

-- An absent token does not pass.
Absent-refused :
    (t : String) (now : ℕ) (a : Auth) → Absent t a → (is_valid_session (some t) now a).0 ≡ false
unfolding Absent is_valid_session session_checked
Absent-refused t now a h = rw h (ground arith)

-- The only session that is left after a new password
lone-Absent :
    (t token password : String) (end : ℕ)
    → t ≢ token
    → Absent t (record { password_hash = password; sessions = put token end [] })
unfolding Absent get
lone-Absent t token password end other =
    ground (arith, get-put token t end [], ==_iff token t, other)

put-Absent :
    (t token : String) (end : ℕ) (a : Auth)
    → t ≢ token
    → Absent t a
    → Absent t (record a { sessions = put token end a.sessions })
unfolding Absent
put-Absent t token end a other h =
    ground (arith, get-put token t end a.sessions, ==_iff token t, other, h)

module _ (hash : String → String) where
  login-Absent :
      (t password token : String) (now : ℕ) (a : Auth)
      → t ≢ token
      → Absent t a
      → Absent t (login hash password token now a).1
  unfolding login create_session
  login-Absent t password token now a other h =
      if_cases (λ (r : Answer × Auth). Absent t r.1) (hash password == a.password_hash)
        (λ k. put-Absent t token (now + session_ttl) a other h) (λ k. h)

  authorized-Absent :
      (t current new : String) (cookie : Option String) (now : ℕ) (r : Bool × Auth)
      → Absent t r.1
      → ((token : String) → cookie ≡ some token → r.0 ≡ true → t ≢ token)
      → Absent t (authorized hash current new cookie now r).1
  unfolding authorized replaced
  authorized-Absent t current new cookie now (false, b) h other = h
  authorized-Absent t current new none now (true, b) h other = h
  authorized-Absent t current new (some token) now (true, b) h other =
      if_cases (λ (r : Answer × Auth). Absent t r.1) (not (hash current == b.password_hash))
        (λ k. h)
        (λ k.
          if_cases (λ (r : Answer × Auth). Absent t r.1) (ltb (length (codes new)) 4) (λ l. h)
            (λ l. lone-Absent t token (hash new) (now + session_ttl) (other token refl refl)))

  -- Only a session that is there can ask for a new password, so an absent token stays out of it.
  change_password-Absent :
      (t current new : String) (cookie : Option String) (now : ℕ) (a : Auth)
      → Absent t a
      → Absent t (change_password hash current new cookie now a).1
  unfolding change_password Absent
  change_password-Absent t current new cookie now a h =
      authorized-Absent t current new cookie now (is_valid_session cookie now a)
        (is_valid_session-Absent t cookie now a h)
        (λ token e valid same.
          clash token (ap (λ c. (is_valid_session c now a).0) (sym e) ∙ valid) same)
    where
      clash : (token : String) → (is_valid_session (some token) now a).0 ≡ true → t ≡ token → ⊥
      clash token valid same =
          let refused = Absent-refused token now a (ap (λ x. get x a.sessions) (sym same) ∙ h) in
          absurd (ground (arith, refused, valid))

  destroy_session-Absent :
      (t : String) (cookie : Option String) (a : Auth)
      → Absent t a
      → Absent t (destroy_session cookie a)
  unfolding destroy_session
  destroy_session-Absent t none a h = h
  destroy_session-Absent t (some token) a h =
      if_cases (Absent t) (token == "") (λ e. h) (λ e. remove-Absent t token a h)

  handle-Absent :
      (t : String) (r : Request) (a : Auth) → Other t r → Absent t a → Absent t (handle hash r a)
  unfolding handle
  handle-Absent t (logs_in password token now) a other h =
      login-Absent t password token now a other h
  handle-Absent t (logs_out cookie) a other h = destroy_session-Absent t cookie a h
  handle-Absent t (asks cookie now) a other h = is_valid_session-Absent t cookie now a h
  handle-Absent t (changes current new cookie now) a other h =
      change_password-Absent t current new cookie now a h

  handle_all-Absent :
      (t : String) (rs : List Request) (a : Auth)
      → AllOther t rs
      → Absent t a
      → Absent t (handle_all hash rs a)
  unfolding handle_all
  handle_all-Absent t [] a others h = h
  handle_all-Absent t (r ∷ rs) a others h =
      handle_all-Absent t rs (handle hash r a) others.1 (handle-Absent t r a others.0 h)

  authorized-lone :
      (t current new token : String) (now : ℕ) (r : Bool × Auth)
      → t ≢ token
      → (authorized hash current new (some token) now r).0 ≡ done
      → Absent t (authorized hash current new (some token) now r).1
  unfolding authorized replaced
  authorized-lone t current new token now (false, b) other ok = cc
  authorized-lone t current new token now (true, b) other ok =
      elim (Bool-cases (hash current == b.password_hash)) [
        | inr wrong ↦ absurd (ground (arith, ok, wrong))
        | inl right ↦ elim (Bool-cases (ltb (length (codes new)) 4)) [
          | inl short ↦ absurd (ground (arith, ok, right, short))
          | inr long ↦ rw (right, long) (lone-Absent t token (hash new) (now + session_ttl) other)
        ]
      ]

  -- Once a session has set a new password, the token of any other session is refused, at any time,
  -- after any further requests, handled one after the other, of which none is a log-in that hands
  -- that token out again.
  pub change_password_expels :
      (current new token t : String) (now later : ℕ) (rs : List Request) (a : Auth)
      → (change_password hash current new (some token) now a).0 ≡ done
      → t ≢ token
      → AllOther t rs
      → (is_valid_session
          (some t)
          later
          (handle_all hash rs (change_password hash current new (some token) now a).1)).0
        ≡ false
  unfolding change_password
  change_password_expels current new token t now later rs a ok other others =
      Absent-refused t later _ (
        handle_all-Absent t rs _ others
          (authorized-lone t current new token now (is_valid_session (some token) now a) other ok))
