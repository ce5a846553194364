-- ===== src/Outbound/Socks.antt =====
-- The SOCKS5 handshake with a proxy (outbound.py: `_socks_target`, `_read_socks_reply`,
-- `_socks_once`), on all that the proxy sends. A stream that ends and a time that is over are one.
pub mod Target
pub mod Exchange
use Prim.Native.Char.{code}
use lumen_project_final.Prelude.{
  ℕ, ◌+◌, ◌*◌, ◌/◌, ◌%◌, String, Bool, true, false, not, ◌&&◌, ◌||◌, Option, none, some, List, [],
  ◌∷◌, ◌++◌, if◌then◌else◌, leb, ltb, nat_eqb, length, take, drop,
}
use lumen_project_final.Prelude.Eq.{◌==◌, string_eq}

-- An address as `ipaddress.ip_address` packs it
pub data Ip : Type 0 where
  v4 v6 : List ℕ → Ip

-- What `ipaddress` and the codecs make of a text; `none` where they raise.
pub record Hosts : Type 0 where
  pub ip_address : String → Option Ip
  pub idna : String → Option (List ℕ)
  pub utf8 : String → List ℕ

is_bracket : ℕ → Bool
is_bracket c = nat_eqb c 91 || nat_eqb c 93

lstrip_brackets : String → String
unfolding is_bracket
lstrip_brackets String.[] = String.[]
lstrip_brackets (String.◌∷◌ c s) =
    let rest = lstrip_brackets s in if is_bracket (code c) then rest else String.◌∷◌ c s

rstrip_brackets : String → String
unfolding is_bracket
rstrip_brackets String.[] = String.[]
rstrip_brackets (String.◌∷◌ c s) =
    let rest = rstrip_brackets s in
    if rest == "" && is_bracket (code c) then String.[] else String.◌∷◌ c rest

-- `host.strip("[]")`
unfoldable pub bare_host : String → String
unfolding lstrip_brackets rstrip_brackets
bare_host host = rstrip_brackets (lstrip_brackets host)

-- `text.split("%", 1)[0]`
unfoldable pub before_zone : String → String
before_zone String.[] = String.[]
before_zone (String.◌∷◌ c s) =
    let rest = before_zone s in if nat_eqb (code c) 37 then String.[] else String.◌∷◌ c rest

-- `port.to_bytes(2, "big")`, `none` where it raises
unfoldable pub with_port : List ℕ → ℕ → Option (List ℕ)
with_port address port =
    if ltb port 65536 then some (address ++ port / 256 ∷ port % 256 ∷ []) else none

unfoldable pub name_target : Option (List ℕ) → ℕ → Option (List ℕ)
unfolding with_port
name_target none port = none
name_target (some encoded) port =
    if ltb 255 (length encoded) then none else with_port (3 ∷ length encoded ∷ encoded) port

unfoldable pub ip_target : Hosts → String → Option Ip → ℕ → Option (List ℕ)
unfolding name_target with_port
ip_target h bare (some (v4 packed)) port = with_port (1 ∷ packed) port
ip_target h bare (some (v6 packed)) port = with_port (4 ∷ packed) port
ip_target h bare none port = name_target (h.idna bare) port

-- `_socks_target`, `none` where it raises
unfoldable pub socks_target : Hosts → String → ℕ → Option (List ℕ)
unfolding ip_target
socks_target h host port =
    ip_target h (bare_host host) (h.ip_address (before_zone (bare_host host))) port

pub data SocksError : Type 0 where
  ended invalid_greeting authentication_required credentials_too_long : SocksError
  authentication_failed method_rejected connect_failed invalid_address_type bad_target : SocksError

-- What is left unread, or an error
pub data Reply : Type 0 where
  failed : SocksError → Reply
  unread : List ℕ → Reply

-- `readexactly(n)`, of which the value is not used
unfoldable pub skip : ℕ → List ℕ → Reply
skip n bytes = if ltb (length bytes) n then failed ended else unread (drop n bytes)

unfoldable pub skip_name : List ℕ → Reply
unfolding skip
skip_name [] = failed ended
skip_name (n ∷ bytes) = skip (n + 2) bytes

unfoldable pub skip_address : ℕ → List ℕ → Reply
unfolding skip skip_name
skip_address kind bytes =
    if nat_eqb kind 1
    then skip 6 bytes
    else if nat_eqb kind 4
    then skip 18 bytes
    else if nat_eqb kind 3
    then skip_name bytes
    else failed invalid_address_type

-- `_read_socks_reply`
unfoldable pub read_socks_reply : List ℕ → Reply
unfolding skip_address
read_socks_reply (version ∷ status ∷ reserved ∷ kind ∷ bytes) =
    if not (nat_eqb version 5) || not (nat_eqb status 0)
    then failed connect_failed
    else skip_address kind bytes
read_socks_reply bytes = failed ended

-- The two ends of a handshake: what was sent, in order, and either the error for which the
-- connection is closed or what the proxy has sent after its reply.
pub data Handshake : Type 0 where
  closed : SocksError → List (List ℕ) → Handshake
  ready : List (List ℕ) → List ℕ → Handshake

unfoldable pub replied : List ℕ → List (List ℕ) → Reply → Handshake
replied packet sent (failed e) = closed e sent
replied [] sent (unread rest) = ready sent rest
replied (b ∷ packet) sent (unread rest) = ready (sent ++ (b ∷ packet) ∷ []) rest

unfoldable pub requested : Option (List ℕ) → List ℕ → List (List ℕ) → List ℕ → Handshake
unfolding replied read_socks_reply
requested none packet sent incoming = closed bad_target sent
requested (some target) packet sent incoming =
    replied packet (sent ++ (5 ∷ 1 ∷ 0 ∷ target) ∷ []) (read_socks_reply incoming)

unfoldable pub authenticated : Option (List ℕ) → List ℕ → List (List ℕ) → List ℕ → Handshake
unfolding requested
authenticated target packet sent (version ∷ status ∷ incoming) =
    if not (nat_eqb version 1) || not (nat_eqb status 0)
    then closed authentication_failed sent
    else requested target packet sent incoming
authenticated target packet sent incoming = closed ended sent

-- The user name and the password, with their lengths
abbrev pub credentials : List ℕ → List ℕ → List ℕ
credentials user secret = 1 ∷ length user ∷ user ++ length secret ∷ secret

unfoldable pub authenticate :
    List ℕ → List ℕ → Option (List ℕ) → List ℕ → List (List ℕ) → List ℕ → Handshake
unfolding authenticated
authenticate user secret target packet sent incoming =
    if leb (length user) 255 && leb (length secret) 255
    then authenticated target packet (sent ++ credentials user secret ∷ []) incoming
    else closed credentials_too_long sent

abbrev pub greeting : Bool → List ℕ
greeting has_auth = if has_auth then 5 ∷ 2 ∷ 0 ∷ 2 ∷ [] else 5 ∷ 1 ∷ 0 ∷ []

unfoldable pub chosen_method :
    Bool → List ℕ → List ℕ → Option (List ℕ) → List ℕ → List (List ℕ) → List ℕ → Handshake
unfolding authenticate requested
chosen_method has_auth user secret target packet sent (version ∷ method ∷ incoming) =
    if not (nat_eqb version 5)
    then closed invalid_greeting sent
    else if nat_eqb method 2
    then (if has_auth
        then authenticate user secret target packet sent incoming
        else closed authentication_required sent)
    else if nat_eqb method 0
    then requested target packet sent incoming
    else closed method_rejected sent
chosen_method has_auth user secret target packet sent incoming = closed ended sent

-- `_socks_once` on an open connection
unfoldable pub socks_once : Hosts → String → String → String → ℕ → List ℕ → List ℕ → Handshake
unfolding chosen_method
socks_once h username password target port packet incoming =
    let has_auth = not (username == "") || not (password == "") in
    chosen_method has_auth (h.utf8 username) (h.utf8 password) (socks_target h target port) packet
      (greeting has_auth ∷ []) incoming
