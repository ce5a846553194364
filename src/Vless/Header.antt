-- ===== src/Vless/Header.antt =====
-- The VLESS request header (relay_vless.py): `_parse_vless_header`, `_vless_uuid_from_header` and the
-- loop of `_collect_header`.
pub mod Streaming
use lumen_project_final.Prelude.{
  ℕ, ◌+◌, Bool, true, false, ◌||◌, Option, none, some, String, List, [], ◌∷◌, ◌++◌, if◌then◌else◌,
  ltb, leb, nat_eqb, length, drop,
}
use lumen_project_final.Vless.{
  Codec, HeaderError, VlessHeader, Parsed, parsed, failed, incomplete_prefix, incomplete_options,
  unsupported_command, invalid_port, incomplete_ipv4, incomplete_length, incomplete_domain,
  bad_domain, incomplete_ipv6, unknown_kind,
}
use lumen_project_final.Vless.Bytes.{byte_at, word_at, slice}

-- The header that ends at a position: what follows is the payload.
unfoldable pub ends_at : ℕ → ℕ → ℕ → String → List ℕ → Parsed
ends_at pos command port address view =
    parsed (record { command = command; address = address; port = port; payload = drop pos view })

unfoldable pub domain_ends : ℕ → ℕ → ℕ → Option String → List ℕ → Parsed
unfolding ends_at
domain_ends pos command port none view = failed bad_domain
domain_ends pos command port (some address) view = ends_at pos command port address view

unfoldable pub parse_domain : Codec → ℕ → ℕ → ℕ → List ℕ → Parsed
unfolding domain_ends
parse_domain c pos command port view =
    if ltb (length view) (pos + 1)
    then failed incomplete_length
    else (let domain_len = byte_at pos view in
        if nat_eqb domain_len 0 || ltb (length view) (pos + 1 + domain_len)
        then failed incomplete_domain
        else domain_ends (pos + 1 + domain_len) command port
            (c.idna (slice (pos + 1) domain_len view)) view)

-- An address of a fixed number of bytes.
unfoldable pub parse_fixed : ℕ → (List ℕ → String) → HeaderError → ℕ → ℕ → ℕ → List ℕ → Parsed
unfolding ends_at
parse_fixed n text short pos command port view =
    if ltb (length view) (pos + n)
    then failed short
    else ends_at (pos + n) command port (text (slice pos n view)) view

-- The address of each kind: an IPv4 address, a domain name, an IPv6 address.
unfoldable pub parse_address : Codec → ℕ → ℕ → ℕ → ℕ → List ℕ → Parsed
unfolding parse_fixed parse_domain
parse_address c addr_type pos command port view =
    if nat_eqb addr_type 1
    then parse_fixed 4 c.ipv4_text incomplete_ipv4 pos command port view
    else if nat_eqb addr_type 2
    then parse_domain c pos command port view
    else if nat_eqb addr_type 3
    then parse_fixed 16 c.ipv6_text incomplete_ipv6 pos command port view
    else failed unknown_kind

-- From the command on, which stands behind the options.
unfoldable pub parse_request : Codec → ℕ → List ℕ → Parsed
unfolding parse_address
parse_request c pos view =
    if nat_eqb (byte_at pos view) 1
    then (if nat_eqb (word_at (pos + 1) view) 0
        then failed invalid_port
        else parse_address c (byte_at (pos + 3) view) (pos + 4) 1 (word_at (pos + 1) view) view)
    else failed unsupported_command

-- From the end of the options on, where the command stands.
unfoldable pub parse_options : Codec → ℕ → List ℕ → Parsed
unfolding parse_request
parse_options c pos view =
    if ltb (length view) (pos + 4) then failed incomplete_options else parse_request c pos view

-- `_parse_vless_header`
unfoldable pub parse_vless_header : Codec → List ℕ → Parsed
unfolding parse_options
parse_vless_header c view =
    if ltb (length view) 19
    then failed incomplete_prefix
    else parse_options c (18 + byte_at 17 view) view
