-- ===== src/Tests/Relays.antt =====
-- The relay on concrete streams: VLESS headers, routes, quotas and thresholds.
use lumen_project_final.Prelude.{
  ℕ, ◌+◌, ◌*◌, ◌≡◌, ◌≤◌, ◌++◌, refl, true, false, some, List, [], ◌∷◌, arith, nat_eqb, ◌/◌,
}
use lumen_project_final.Vless.{Codec, VlessHeader, parsed, chunk, Message}
use lumen_project_final.Vless.Header.{parse_vless_header}
use lumen_project_final.Vless.Header.Streaming.{parse_vless_header-append}
use lumen_project_final.Vless.Collect.{collect_header, joined, is_foreign}
use lumen_project_final.Vless.Collect.Chunks.{
  Grows, is_got, collect_header_sound, collect_header_complete,
}
use lumen_project_final.Vless.Routes.{
  Endpoint, endpoint_eq, inet, inet6, interleave_families, connection_schedule,
}
use lumen_project_final.Vless.Routes.Order.{interleave_families-perm}
use lumen_project_final.Vless.Routes.Schedule.{endpoints, all_late, connection_schedule-late}
use lumen_project_final.Vless.Flow.{observe_all, new_flow, low_water, IsTuned, flow-bounds}
use lumen_project_final.Quota.{Meter}
use lumen_project_final.Buckets.{Bucket, consumed_slices}
use lumen_project_final.Buckets.Rate.{
  Attempt, attempts, attempts_budget, sum, all_within, consumed_slices_whole,
}
use lumen_project_final.Quota.Exact.{
  Frame, add_frames, opened, close, IsExact, add_frames-IsExact, close_exact,
}
use mathlib.Core.List.{Perm}

abbrev codec : Codec
codec = record {
  ipv4_text = λ bytes. "ipv4";
  ipv6_text = λ bytes. "ipv6";
  uuid_text = λ bytes. "uuid";
  idna = λ bytes. some "domain";
}

-- Version 0, an identity of sixteen bytes, no options, command 1, port 443, and an IPv4 address.
abbrev head : List ℕ
head = 0 ∷ 1 ∷ 1 ∷ 1 ∷ 1 ∷ 1 ∷ 1 ∷ 1 ∷ 1 ∷ 1 ∷ 1 ∷ 1 ∷ 1 ∷ 1 ∷ 1 ∷ 1 ∷ 1 ∷ 0 ∷ 1 ∷ 1 ∷ 187 ∷ 1 ∷ []

abbrev tail : List ℕ
tail = 8 ∷ 8 ∷ 8 ∷ 8 ∷ 22 ∷ 3 ∷ []

abbrev header : List ℕ → VlessHeader
header payload = record { command = 1; address = "ipv4"; port = 443; payload = payload }

parse_vless_header-append_example :
    parse_vless_header codec ((head ++ tail) ++ 1 ∷ []) ≡ parsed (header (22 ∷ 3 ∷ 1 ∷ []))
unfolding parse_vless_header
parse_vless_header-append_example =
    parse_vless_header-append codec (head ++ tail) (1 ∷ []) (header (22 ∷ 3 ∷ [])) refl

abbrev messages : List Message
messages = chunk tail ∷ chunk (7 ∷ []) ∷ []

collect_header_sound_example : Grows codec (head ++ joined messages) (header (22 ∷ 3 ∷ [])) 28
unfolding collect_header parse_vless_header
collect_header_sound_example =
    collect_header_sound codec true head messages (header (22 ∷ 3 ∷ [])) 28 (some "uuid") refl

collect_header_complete_example : is_got (collect_header codec true head messages) ≡ true
unfolding parse_vless_header is_foreign
collect_header_complete_example =
    collect_header_complete codec true head messages (header (22 ∷ 3 ∷ 7 ∷ [])) refl refl
      (omega arith) refl

abbrev fast : Endpoint
fast = record { family = inet6; host = "2001:db8::1"; port = 443; flow = 0; scope = 0 }

abbrev slow : Endpoint
slow = record { family = inet; host = "192.0.2.1"; port = 443; flow = 0; scope = 0 }

abbrev addresses : List Endpoint
addresses = fast ∷ record fast { host = "2001:db8::2" } ∷ slow ∷ []

interleave_families-perm_example : Perm (interleave_families addresses (some slow)) addresses
interleave_families-perm_example = interleave_families-perm addresses (some slow) refl

connection_schedule-late_example :
    (endpoints (connection_schedule (λ a. true) addresses) ≡ addresses)
    × (all_late (λ a. true) (connection_schedule (λ a. true) addresses) ≡ true)
connection_schedule-late_example = connection_schedule-late (λ a. true) addresses

flow-bounds_example :
    IsTuned (observe_all (500 ∷ 90000 ∷ []) (new_flow 1 2000000))
    × (low_water (observe_all (500 ∷ 90000 ∷ []) (new_flow 1 2000000))
        ≤ (observe_all (500 ∷ 90000 ∷ []) (new_flow 1 2000000)).high_water)
flow-bounds_example = flow-bounds 1 2000000 (500 ∷ 90000 ∷ [])

-- Rates as whole numbers of bytes for each millisecond.
abbrev meter : Meter ℕ
meter = record {
  zero_rate = 0;
  is_zero = λ r. nat_eqb r 0;
  rate = λ amount elapsed. amount / elapsed;
  mix = λ old new. (3 * old + new) / 4;
  target = λ r interval. r * interval;
}

abbrev frames : List Frame
frames =
    record { nbytes = 1000; now = 1; granted = true }
    ∷ record { nbytes = 70000; now = 3; granted = true }
    ∷ record { nbytes = 500; now = 4; granted = false }
    ∷ []

add_frames-IsExact_example : IsExact (add_frames meter frames (opened meter true 0))
add_frames-IsExact_example = add_frames-IsExact meter true 0 frames

close_exact_example :
    ((close true (add_frames meter frames (opened meter true 0))).gate.pending ≡ 0)
    × ((close true (add_frames meter frames (opened meter true 0))).consumed
        ≡ (add_frames meter frames (opened meter true 0)).accepted)
close_exact_example = close_exact meter true true 0 frames

abbrev bucket : Bucket
bucket = record { rate = 2000; capacity = 65536000; tokens = 5000; last = 10 }

abbrev tries : List Attempt
tries = record { now = 11; amount = 6000 } ∷ record { now = 12; amount = 9000 } ∷ []

attempts_budget_example :
    (attempts tries bucket).0 + 10 * 2000 ≤ 5000 + (attempts tries bucket).1.last * 2000
attempts_budget_example = attempts_budget tries bucket

consumed_slices_whole_example :
    (sum (consumed_slices bucket 100) ≡ 1000 * 100)
    × (all_within 65536000 (consumed_slices bucket 100) ≡ true)
consumed_slices_whole_example = consumed_slices_whole bucket 100 (omega arith)
