-- ===== src/Vless/Header/Streaming.antt =====
-- `_parse_vless_header` (relay_vless.py) on a buffer that grows.
use lumen_project_final.Prelude.{
  ℕ, ◌+◌, ◌≤◌, ◌≡◌, Bool, false, Option, none, some, String, List, ◌++◌, if◌then◌else◌, ltb, length,
  arith, length-append,
}
use lumen_project_final.Vless.{
  Codec, HeaderError, VlessHeader, Parsed, parsed, failed, incomplete_prefix, incomplete_ipv4,
  incomplete_ipv6,
}
use lumen_project_final.Vless.Bytes.{
  byte_at, word_at, slice, byte_at-append, drop-append, slice-append,
}
use lumen_project_final.Vless.Header.{
  ends_at, domain_ends, parse_domain, parse_fixed, parse_address, parse_request, parse_options,
  parse_vless_header,
}

-- The header with more payload.
abbrev pub grown : List ℕ → VlessHeader → VlessHeader
grown more h = record h { payload = h.payload ++ more }

ends_at-append :
    (pos command port : ℕ) (address : String) (view more : List ℕ) (h : VlessHeader)
    → pos ≤ length view
    → ends_at pos command port address view ≡ parsed h
    → ends_at pos command port address (view ++ more) ≡ parsed (grown more h)
unfolding ends_at
ends_at-append pos command port address view more h fits e =
    ground (arith, drop-append pos view more)

domain_ends-append :
    (pos command port : ℕ) (address : Option String) (view more : List ℕ) (h : VlessHeader)
    → pos ≤ length view
    → domain_ends pos command port address view ≡ parsed h
    → domain_ends pos command port address (view ++ more) ≡ parsed (grown more h)
unfolding domain_ends
domain_ends-append pos command port none view more h fits e = ground arith
domain_ends-append pos command port (some address) view more h fits e =
    ends_at-append pos command port address view more h fits e

parse_domain-append :
    (c : Codec) (pos command port : ℕ) (view more : List ℕ) (h : VlessHeader)
    → parse_domain c pos command port view ≡ parsed h
    → parse_domain c pos command port (view ++ more) ≡ parsed (grown more h)
unfolding parse_domain
parse_domain-append c pos command port view more h e =
    let n = byte_at pos view in
    ground (
      arith,
      length-append view more,
      byte_at-append pos view more,
      slice-append (pos + 1) n view more,
      domain_ends-append (pos + 1 + n) command port (c.idna (slice (pos + 1) n view)) view more h,
    )

parse_fixed-append :
    (n : ℕ) (text : List ℕ → String) (short : HeaderError) (pos command port : ℕ)
    (view more : List ℕ) (h : VlessHeader)
    → parse_fixed n text short pos command port view ≡ parsed h
    → parse_fixed n text short pos command port (view ++ more) ≡ parsed (grown more h)
unfolding parse_fixed
parse_fixed-append n text short pos command port view more h e = ground (
  arith,
  length-append view more,
  slice-append pos n view more,
  ends_at-append (pos + n) command port (text (slice pos n view)) view more h,
)

parse_address-append :
    (c : Codec) (addr_type pos command port : ℕ) (view more : List ℕ) (h : VlessHeader)
    → parse_address c addr_type pos command port view ≡ parsed h
    → parse_address c addr_type pos command port (view ++ more) ≡ parsed (grown more h)
unfolding parse_address
parse_address-append c addr_type pos command port view more h e = ground (
  arith,
  parse_domain-append c pos command port view more h,
  parse_fixed-append 4 c.ipv4_text incomplete_ipv4 pos command port view more h,
  parse_fixed-append 16 c.ipv6_text incomplete_ipv6 pos command port view more h,
)

word_at-append : (i : ℕ) (xs ys : List ℕ) → i + 2 ≤ length xs → word_at i (xs ++ ys) ≡ word_at i xs
word_at-append i xs ys h = ground (arith, byte_at-append i xs ys, byte_at-append (i + 1) xs ys)

parse_request-append :
    (c : Codec) (pos : ℕ) (view more : List ℕ) (h : VlessHeader)
    → pos + 4 ≤ length view
    → parse_request c pos view ≡ parsed h
    → parse_request c pos (view ++ more) ≡ parsed (grown more h)
unfolding parse_request
parse_request-append c pos view more h fits e = ground (
  arith,
  byte_at-append pos view more,
  byte_at-append (pos + 3) view more,
  word_at-append (pos + 1) view more,
  parse_address-append c (byte_at (pos + 3) view) (pos + 4) 1 (word_at (pos + 1) view) view more h,
)

parse_options-append :
    (c : Codec) (pos : ℕ) (view more : List ℕ) (h : VlessHeader)
    → parse_options c pos view ≡ parsed h
    → parse_options c pos (view ++ more) ≡ parsed (grown more h)
unfolding parse_options
parse_options-append c pos view more h e =
    ground (arith, length-append view more, parse_request-append c pos view more h)

guard-append :
    (b b' : Bool) (short : HeaderError) (x y : Parsed) (h h' : VlessHeader)
    → (b ≡ false → b' ≡ false)
    → (b ≡ false → x ≡ parsed h → y ≡ parsed h')
    → (if b then failed short else x) ≡ parsed h
    → (if b' then failed short else y) ≡ parsed h'
guard-append b b' short x y h h' longer same e = ground arith

-- A buffer that holds a whole header keeps it when more bytes come in: the same command, address and
-- port are read, and the new bytes stand at the end of the payload.
pub parse_vless_header-append :
    (c : Codec) (view more : List ℕ) (h : VlessHeader)
    → parse_vless_header c view ≡ parsed h
    → parse_vless_header c (view ++ more) ≡ parsed (grown more h)
unfolding parse_vless_header
parse_vless_header-append c view more h e =
    let n = byte_at 17 view in
    guard-append (ltb (length view) 19) (ltb (length (view ++ more)) 19) incomplete_prefix
      (parse_options c (18 + n) view)
      (parse_options c (18 + byte_at 17 (view ++ more)) (view ++ more)) h (grown more h)
      (λ long. ground (arith, length-append view more))
      (λ long whole.
        let same : byte_at 17 (view ++ more) ≡ n = byte_at-append 17 view more (ground arith) in
        rw same (parse_options-append c (18 + n) view more h whole))
      e
