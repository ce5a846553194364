-- ===== src/Outbound/Socks/Exchange.antt =====
-- A SOCKS5 handshake that succeeds: what was sent, and what is left of the proxy's bytes
-- (outbound.py: `_socks_once`, `_read_socks_reply`).
use mathlib.Core.List.{append-nil}
use lumen_project_final.Prelude.{
  ℕ, ◌+◌, ◌≡◌, ◌≤◌, ◌≢◌, ◌⊎◌, refl, ap, sym, String, Bool, true, false, not, ◌&&◌, ◌||◌, some, List,
  [], ◌∷◌, ◌++◌, arith, leb, length, inl, inr, if◌then◌else◌, length-append, drop-length_append,
}
use lumen_project_final.Prelude.Eq.{◌==◌, string_eq, ==_iff}
use lumen_project_final.Outbound.Socks.{
  Hosts, socks_target, unread, skip, skip_name, skip_address, read_socks_reply, ready, replied,
  requested, authenticated, credentials, authenticate, greeting, chosen_method, socks_once,
}

-- A reply of RFC 1928 that grants the request: what is behind its kind, an address and a port.
pub data Granted : ℕ → List ℕ → Type 0 where
  by_ipv4 : (xs : List ℕ) → length xs ≡ 6 → Granted 1 xs
  by_domain : (n : ℕ) (xs : List ℕ) → length xs ≡ n + 2 → Granted 3 (n ∷ xs)
  by_ipv6 : (xs : List ℕ) → length xs ≡ 18 → Granted 4 xs

skip-append : (n : ℕ) (xs rest : List ℕ) → length xs ≡ n → skip n (xs ++ rest) ≡ unread rest
unfolding skip
skip-append n xs rest e = rw⁻¹ e (ground (arith, length-append xs rest, drop-length_append xs rest))

skip_address-Granted :
    (kind : ℕ) (xs rest : List ℕ) → Granted kind xs → skip_address kind (xs ++ rest) ≡ unread rest
unfolding skip_address skip_name
skip_address-Granted _ _ rest (by_ipv4 xs e) = skip-append 6 xs rest e
skip_address-Granted _ _ rest (by_domain n xs e) = skip-append (n + 2) xs rest e
skip_address-Granted _ _ rest (by_ipv6 xs e) = skip-append 18 xs rest e

-- What is sent behind the request, if there is anything
abbrev pub first_packet : List ℕ → List (List ℕ)
first_packet [] = []
first_packet (b ∷ packet) = (b ∷ packet) ∷ []

abbrev pub request : List ℕ → List ℕ
request target = 5 ∷ 1 ∷ 0 ∷ target

-- What a proxy sends that asks for a log-in, or for none, and grants the request; and all that it
-- relays after that.
pub data Accepts (rest : List ℕ) : Bool → List ℕ → Type 0 where
  plain :
      (reserved kind : ℕ) (xs : List ℕ)
      → Granted kind xs
      → Accepts rest false (5 ∷ 0 ∷ 5 ∷ 0 ∷ reserved ∷ kind ∷ (xs ++ rest))
  login :
      (reserved kind : ℕ) (xs : List ℕ)
      → Granted kind xs
      → Accepts rest true (5 ∷ 2 ∷ 1 ∷ 0 ∷ 5 ∷ 0 ∷ reserved ∷ kind ∷ (xs ++ rest))

replied_ready :
    (packet : List ℕ) (sent : List (List ℕ)) (rest : List ℕ)
    → replied packet sent (unread rest) ≡ ready (sent ++ first_packet packet) rest
unfolding replied
replied_ready [] sent rest = ap (λ x. ready x rest) (sym (append-nil sent))
replied_ready (b ∷ packet) sent rest = refl

requested_ready :
    (target packet : List ℕ) (sent : List (List ℕ)) (rest : List ℕ) (reserved kind : ℕ)
    (xs : List ℕ)
    → Granted kind xs
    → requested (some target) packet sent (5 ∷ 0 ∷ reserved ∷ kind ∷ (xs ++ rest))
      ≡ ready ((sent ++ request target ∷ []) ++ first_packet packet) rest
unfolding requested read_socks_reply
requested_ready target packet sent rest reserved kind xs g =
    rw (skip_address-Granted kind xs rest g)
      (replied_ready packet (sent ++ request target ∷ []) rest)

authenticate_ready :
    (user secret target packet : List ℕ) (sent : List (List ℕ)) (rest : List ℕ) (reserved kind : ℕ)
    (xs : List ℕ)
    → Granted kind xs
    → length user ≤ 255
    → length secret ≤ 255
    → authenticate user secret
        (some target)
        packet
        sent
        (1 ∷ 0 ∷ 5 ∷ 0 ∷ reserved ∷ kind ∷ (xs ++ rest))
      ≡ ready
          (((sent ++ credentials user secret ∷ []) ++ request target ∷ []) ++ first_packet packet)
          rest
unfolding authenticate authenticated
authenticate_ready user secret target packet sent rest reserved kind xs g u s =
    let fits : (leb (length user) 255 && leb (length secret) 255) ≡ true = ground (arith, u, s) in
    rw fits
      (requested_ready target packet (sent ++ credentials user secret ∷ []) rest reserved kind xs g)

has_auth_given :
    (username password : String)
    → (username ≢ "") ⊎ (password ≢ "")
    → (not (username == "") || not (password == "")) ≡ true
has_auth_given username password (inl n) = ground (arith, n, ==_iff username "")
has_auth_given username password (inr n) = ground (arith, n, ==_iff password "")

-- Whatever the proxy sends, if it grants the request, and asks for a log-in only where there is a
-- user name or a password of at most 255 bytes each, the handshake ends with the connection ready:
-- sent are the greeting, the credentials only if they were asked for, the request, and the first
-- packet last; and what is left unread is exactly what the proxy relays from the target.
pub socks_once-Accepts :
    (h : Hosts) (username password host : String) (port : ℕ) (target packet rest : List ℕ)
    (asked : Bool) (incoming : List ℕ)
    → Accepts rest asked incoming
    → socks_target h host port ≡ some target
    → (asked ≡ true → (username ≢ "") ⊎ (password ≢ ""))
    → length (h.utf8 username) ≤ 255
    → length (h.utf8 password) ≤ 255
    → let has_auth = not (username == "") || not (password == "") in
      socks_once h username password host port packet incoming
      ≡ ready
          (greeting has_auth
              ∷ (if asked then credentials (h.utf8 username) (h.utf8 password) ∷ [] else [])
            ++ request target ∷ first_packet packet)
          rest
unfolding socks_once chosen_method
socks_once-Accepts h username password host port target packet rest _ _ (plain reserved kind xs g) t
      given u p =
    rw t (requested_ready target packet (greeting _ ∷ []) rest reserved kind xs g)
socks_once-Accepts h username password host port target packet rest _ _ (login reserved kind xs g) t
      given u p =
    rw (t, has_auth_given username password (given refl))
      (authenticate_ready (h.utf8 username) (h.utf8 password) target packet (greeting true ∷ [])
        rest reserved kind xs g u p)
