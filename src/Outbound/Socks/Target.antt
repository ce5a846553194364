-- ===== src/Outbound/Socks/Target.antt =====
-- The target of a CONNECT as a SOCKS5 server reads it (outbound.py: `_socks_target`).
use mathlib.Core.List.{append_assoc}
use lumen_project_final.Prelude.{
  ℕ, ◌+◌, ◌*◌, ◌/◌, ◌%◌, ◌≡◌, refl, ◌∙◌, String, Option, none, some, List, [], ◌∷◌, ◌++◌, arith,
  ltb, nat_eqb, length, take, drop, if◌then◌else◌, take-length_append, drop-length_append,
  length-append,
}
use lumen_project_final.Vless.Bytes.{word_at}
use lumen_project_final.Outbound.Socks.{
  Ip, v4, v6, Hosts, bare_host, before_zone, with_port, name_target, ip_target, socks_target,
}

-- An address of RFC 1928, as its bytes
pub data Address : Type 0 where
  ipv4 domain ipv6 : List ℕ → Address

-- What a server reads behind VER, CMD and RSV: the kind, the address, the port, and what follows.
read_port : (List ℕ → Address) → ℕ → List ℕ → Option (Address × ℕ × List ℕ)
read_port address n bytes =
    if ltb (length bytes) (n + 2)
    then none
    else some (address (take n bytes), word_at 0 (drop n bytes), drop 2 (drop n bytes))

read_kind : ℕ → List ℕ → Option (Address × ℕ × List ℕ)
unfolding read_port
read_kind kind bytes =
    if nat_eqb kind 1
    then read_port ipv4 4 bytes
    else if nat_eqb kind 4
    then read_port ipv6 16 bytes
    else if nat_eqb kind 3
    then elim bytes [ [] ↦ none | n ∷ rest ↦ read_port domain n rest ]
    else none

unfoldable pub read_target : List ℕ → Option (Address × ℕ × List ℕ)
unfolding read_kind
read_target [] = none
read_target (kind ∷ bytes) = read_kind kind bytes

-- The address that a target stands for: that of an IP address, or a name for the proxy to resolve.
abbrev pub named : Option (List ℕ) → Option Address
named none = none
named (some encoded) = some (domain encoded)

abbrev pub address_of : Hosts → String → Option Ip → Option Address
address_of h bare (some (v4 packed)) = some (ipv4 packed)
address_of h bare (some (v6 packed)) = some (ipv6 packed)
address_of h bare none = named (h.idna bare)

-- An address is packed in as many bytes as its version has.
abbrev pub HasSize : Option Ip → Type 0
HasSize none = Unit {0}
HasSize (some (v4 packed)) = length packed ≡ 4
HasSize (some (v6 packed)) = length packed ≡ 16

port_bytes : (port : ℕ) → 256 * (port / 256) + port % 256 ≡ port
port_bytes port = omega arith

read_port_written :
    (address : List ℕ → Address) (xs : List ℕ) (port : ℕ) (rest : List ℕ)
    → read_port address (length xs) ((xs ++ port / 256 ∷ port % 256 ∷ []) ++ rest)
      ≡ some (address xs, port, rest)
unfolding read_port
read_port_written address xs port rest =
    let tail = port / 256 ∷ port % 256 ∷ rest in
    rw
      (
        append_assoc xs (port / 256 ∷ port % 256 ∷ []) rest,
        length-append xs tail,
        take-length_append xs tail,
        drop-length_append xs tail,
      )
      (ground (arith, port_bytes port))

with_port-read :
    (kind : ℕ) (address : List ℕ → Address) (xs : List ℕ) (port : ℕ) (rest : List ℕ)
    {bytes : List ℕ}
    → ((more : List ℕ) → read_target (kind ∷ more) ≡ read_port address (length xs) more)
    → with_port (kind ∷ xs) port ≡ some bytes
    → read_target (bytes ++ rest) ≡ some (address xs, port, rest)
unfolding with_port
with_port-read kind address xs port rest {bytes} reads h =
    let same : kind ∷ (xs ++ port / 256 ∷ port % 256 ∷ []) ≡ bytes = ground (arith, h) in
    rw⁻¹ same (reads _ ∙ read_port_written address xs port rest)

name-read :
    (xs : List ℕ) (port : ℕ) (rest : List ℕ) {bytes : List ℕ}
    → with_port (3 ∷ length xs ∷ xs) port ≡ some bytes
    → read_target (bytes ++ rest) ≡ some (domain xs, port, rest)
unfolding with_port read_target read_kind
name-read xs port rest {bytes} h =
    let same : 3 ∷ length xs ∷ (xs ++ port / 256 ∷ port % 256 ∷ []) ≡ bytes = ground (arith, h) in
    rw⁻¹ same (read_port_written domain xs port rest)

name_target-read :
    (o : Option (List ℕ)) (port : ℕ) (rest : List ℕ) {bytes : List ℕ}
    → name_target o port ≡ some bytes
    → (address : Address) × (named o ≡ some address)
      × (read_target (bytes ++ rest) ≡ some (address, port, rest))
unfolding name_target
name_target-read none port rest h = cc
name_target-read (some xs) port rest h =
    (domain xs, refl, name-read xs port rest (ground (arith, h)))

ip_target-read :
    (h : Hosts) (bare : String) (o : Option Ip) (port : ℕ) (rest : List ℕ) {bytes : List ℕ}
    → HasSize o
    → ip_target h bare o port ≡ some bytes
    → (address : Address) × (address_of h bare o ≡ some address)
      × (read_target (bytes ++ rest) ≡ some (address, port, rest))
unfolding ip_target read_target read_kind
ip_target-read h bare none port rest size e = name_target-read (h.idna bare) port rest e
ip_target-read h bare (some (v4 packed)) port rest size e =
    (ipv4 packed, refl, with_port-read 1 ipv4 packed port rest (λ more. rw size refl) e)
ip_target-read h bare (some (v6 packed)) port rest size e =
    (ipv6 packed, refl, with_port-read 4 ipv6 packed port rest (λ more. rw size refl) e)

-- Where a target can be asked for, and `ipaddress` packs IPv4 in 4 and IPv6 in 16 bytes, a SOCKS5
-- server reads from it exactly the port and the address: that of the host if the host without
-- brackets and zone is one, and else the host's name, which the proxy resolves; and what is sent
-- behind it is left.
pub socks_target-read_target :
    (h : Hosts) (host : String) (port : ℕ) (rest : List ℕ) {bytes : List ℕ}
    → HasSize (h.ip_address (before_zone (bare_host host)))
    → socks_target h host port ≡ some bytes
    → (address : Address) × (address_of h
          (bare_host host)
          (h.ip_address (before_zone (bare_host host)))
        ≡ some address)
      × (read_target (bytes ++ rest) ≡ some (address, port, rest))
unfolding socks_target
socks_target-read_target h host port rest size e =
    ip_target-read h (bare_host host) (h.ip_address (before_zone (bare_host host))) port rest size e
