-- ===== src/Tests/Socks.antt =====
-- The theorems on the SOCKS5 handshake, at a proxy that asks for a log-in (outbound.py).
use lumen_project_final.Prelude.{
  ℕ, ◌≡◌, refl, inl, Bool, true, false, Option, none, some, List, [], ◌∷◌, ◌++◌, arith,
}
use lumen_project_final.Prelude.Eq.{◌==◌, string_eq}
use lumen_project_final.Outbound.Socks.{
  Ip, Hosts, bare_host, before_zone, socks_target, ready, greeting, credentials, socks_once,
}
use lumen_project_final.Outbound.Socks.Target.{
  Address, address_of, read_target, socks_target-read_target,
}
use lumen_project_final.Outbound.Socks.Exchange.{Granted, Accepts, request, socks_once-Accepts}

-- One address of each version is known, and every name.
abbrev address_if : Bool → List ℕ → Option Ip
address_if true packed = some (Ip.v4 packed)
address_if false packed = none

abbrev hosts : Hosts
hosts = record {
  ip_address = λ text. address_if (text == "10.0.0.1") (10 ∷ 0 ∷ 0 ∷ 1 ∷ []);
  idna = λ text. some (97 ∷ 46 ∷ 98 ∷ []);
  utf8 = λ text. 117 ∷ [];
}

target_bytes : socks_target hosts "a.b" 443 ≡ some (3 ∷ 3 ∷ 97 ∷ 46 ∷ 98 ∷ 1 ∷ 187 ∷ [])
unfolding socks_target bare_host before_zone
target_bytes = refl

socks_target-read_target_example :
    (address : Address) × (address_of hosts
        (bare_host "a.b")
        (hosts.ip_address (before_zone (bare_host "a.b")))
      ≡ some address)
    × (read_target ((3 ∷ 3 ∷ 97 ∷ 46 ∷ 98 ∷ 1 ∷ 187 ∷ []) ++ 5 ∷ []) ≡ some (address, 443, 5 ∷ []))
unfolding bare_host before_zone
socks_target-read_target_example = socks_target-read_target hosts "a.b" 443 (5 ∷ []) tt target_bytes

abbrev bound : List ℕ
bound = 10 ∷ 0 ∷ 0 ∷ 9 ∷ 4 ∷ 56 ∷ []

socks_once-Accepts_example :
    socks_once hosts "u" "" "a.b" 443
      (7 ∷ [])
      (5 ∷ 2 ∷ 1 ∷ 0 ∷ 5 ∷ 0 ∷ 0 ∷ 1 ∷ (bound ++ 8 ∷ 9 ∷ []))
    ≡ ready
        (greeting true
          ∷ credentials (117 ∷ []) (117 ∷ [])
          ∷ request (3 ∷ 3 ∷ 97 ∷ 46 ∷ 98 ∷ 1 ∷ 187 ∷ [])
          ∷ (7 ∷ [])
          ∷ [])
        (8 ∷ 9 ∷ [])
socks_once-Accepts_example =
    socks_once-Accepts hosts "u" "" "a.b" 443 (3 ∷ 3 ∷ 97 ∷ 46 ∷ 98 ∷ 1 ∷ 187 ∷ []) (7 ∷ [])
      (8 ∷ 9 ∷ []) true _ (Accepts.login 0 1 bound (Granted.by_ipv4 bound refl)) target_bytes
      (λ asked. inl (λ e. cc)) (omega arith) (omega arith)
