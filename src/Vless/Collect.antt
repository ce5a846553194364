-- ===== src/Vless/Collect.antt =====
-- The loop that collects a header from the messages of a stream (relay_vless.py: `_collect_header`
-- without the prefetch for proxies, which no caller asks for, and `_vless_uuid_from_header`).
pub mod Chunks
use lumen_project_final.Prelude.{
  ℕ, ◌+◌, ◌*◌, ◌≤◌, ◌<◌, ◌≡◌, refl, Bool, true, false, not, ◌&&◌, Option, none, some, String, List,
  [], ◌∷◌, ◌++◌, if◌then◌else◌, ltb, leb, nat_eqb, length, arith, is_some,
}
use lumen_project_final.Vless.{
  Codec, VlessHeader, Parsed, parsed, failed, Message, chunk, disconnect, timeout, Collected, got,
  waiting, bad_version, too_large, disconnected, timed_out,
}
use lumen_project_final.Vless.Bytes.{byte_at, slice}
use lumen_project_final.Vless.Header.{parse_vless_header}

abbrev pub header_max : ℕ
header_max = 16 * 1024

-- `_vless_uuid_from_header`; `none` is its error.
unfoldable pub vless_uuid_from_header : Codec → List ℕ → Option String
vless_uuid_from_header c view =
    if ltb (length view) 17
    then none
    else if nat_eqb (byte_at 0 view) 0
    then some (c.uuid_text (slice 1 16 view))
    else none

-- The bytes so far are of another version than 0.
unfoldable pub is_foreign : List ℕ → Bool
is_foreign [] = false
is_foreign (version ∷ view) = not (nat_eqb version 0)

unfoldable pub concluded : Codec → Bool → List ℕ → Parsed → Collected
unfolding vless_uuid_from_header
concluded c include_uuid buffer (parsed h) =
    got h (length buffer) (if include_uuid then vless_uuid_from_header c buffer else none)
concluded c include_uuid buffer (failed reason) =
    if leb header_max (length buffer) then too_large else waiting buffer

-- What the bytes so far come to, before the next message is asked for.
unfoldable pub settled : Codec → Bool → List ℕ → Collected
unfolding is_foreign concluded
settled c include_uuid buffer =
    if include_uuid && is_foreign buffer
    then bad_version
    else concluded c include_uuid buffer (parse_vless_header c buffer)

-- One message to a collection: only one that waits takes it.
unfoldable pub receive : Codec → Bool → Collected → Message → Collected
unfolding settled
receive c include_uuid (waiting buffer) (chunk bytes) = settled c include_uuid (buffer ++ bytes)
receive c include_uuid (waiting buffer) disconnect = disconnected
receive c include_uuid (waiting buffer) timeout = timed_out
receive c include_uuid done message = done

unfoldable pub receive_all : Codec → Bool → List Message → Collected → Collected
unfolding receive
receive_all c include_uuid [] done = done
receive_all c include_uuid (message ∷ messages) done =
    receive_all c include_uuid messages (receive c include_uuid done message)

-- `_collect_header`
unfoldable pub collect_header : Codec → Bool → List ℕ → List Message → Collected
unfolding receive_all
collect_header c include_uuid early messages =
    receive_all c include_uuid messages (settled c include_uuid early)

-- The bytes of the messages, one after the other.
abbrev pub joined : List Message → List ℕ
joined [] = []
joined (chunk bytes ∷ messages) = bytes ++ joined messages
joined (disconnect ∷ messages) = joined messages
joined (timeout ∷ messages) = joined messages
