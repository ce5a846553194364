-- ===== src/Vless/Collect/Chunks.antt =====
-- `_collect_header` (relay_vless.py) and the ways to cut a stream into messages.
use mathlib.Core.List.{append_assoc, append-nil}
use lumen_project_final.Prelude.{
  ℕ, ◌≤◌, ◌<◌, ◌≡◌, ◌⊎◌, refl, Bool, true, false, ◌&&◌, Option, none, String, List, [], ◌∷◌, ◌++◌,
  if◌then◌else◌, leb, length, drop, length-append, drop-length_append, arith, sym, Bool-cases, inl,
  inr,
}
use lumen_project_final.Vless.{
  Codec, VlessHeader, Parsed, parsed, failed, Message, chunk, disconnect, timeout, Collected, got,
  waiting, bad_version, too_large, disconnected, timed_out, HeaderError,
}
use lumen_project_final.Vless.Header.{parse_vless_header}
use lumen_project_final.Vless.Header.Streaming.{grown, parse_vless_header-append}
use lumen_project_final.Vless.Collect.{
  header_max, vless_uuid_from_header, is_foreign, concluded, settled, receive, receive_all,
  collect_header, joined,
}

abbrev pub is_waiting : Collected → Bool
is_waiting (waiting buffer) = true
is_waiting _ = false

-- A collection that has ended takes no message.
receive_all-done :
    (c : Codec) (u : Bool) (messages : List Message) (done : Collected)
    → is_waiting done ≡ false
    → receive_all c u messages done ≡ done
unfolding receive_all receive
receive_all-done c u [] done ended = refl
receive_all-done c u (message ∷ messages) (waiting buffer) ended = absurd (ground arith)
receive_all-done c u (message ∷ messages) (got h n id) ended =
    receive_all-done c u messages (got h n id) ended
receive_all-done c u (message ∷ messages) bad_version ended =
    receive_all-done c u messages bad_version ended
receive_all-done c u (message ∷ messages) too_large ended =
    receive_all-done c u messages too_large ended
receive_all-done c u (message ∷ messages) disconnected ended =
    receive_all-done c u messages disconnected ended
receive_all-done c u (message ∷ messages) timed_out ended =
    receive_all-done c u messages timed_out ended

Parsed-cases :
    (p : Parsed) → ((h : VlessHeader) × (p ≡ parsed h)) ⊎ ((r : HeaderError) × (p ≡ failed r))
Parsed-cases (parsed h) = inl (h, refl)
Parsed-cases (failed r) = inr (r, refl)

-- What a settled buffer can be.
data Settling (c : Codec) (u : Bool) (buffer : List ℕ) : Type 0 where
  read :
      (h : VlessHeader)
      → parse_vless_header c buffer ≡ parsed h
      → settled c u buffer
        ≡ got h (length buffer) (if u then vless_uuid_from_header c buffer else none)
      → Settling c u buffer
  waits :
      (r : HeaderError)
      → parse_vless_header c buffer ≡ failed r
      → length buffer < header_max
      → settled c u buffer ≡ waiting buffer
      → Settling c u buffer
  refuses : (u && is_foreign buffer) ≡ true → settled c u buffer ≡ bad_version → Settling c u buffer
  overflows : header_max ≤ length buffer → settled c u buffer ≡ too_large → Settling c u buffer

settling : (c : Codec) (u : Bool) (buffer : List ℕ) → Settling c u buffer
unfolding settled concluded
settling c u buffer = elim (Bool-cases (u && is_foreign buffer)) [
  | inl foreign ↦ refuses foreign (rw (foreign, settled))
  | inr known ↦ elim (Parsed-cases (parse_vless_header c buffer)) [
    | inl (h, e) ↦ read h e (rw (known, e, settled, concluded))
    | inr (r, e) ↦ elim (Bool-cases (leb header_max (length buffer))) [
      | inl long ↦ overflows (ground arith) (rw (known, e, settled, concluded, long))
      | inr short ↦ waits r e (ground arith) (rw (known, e, settled, concluded, short))
    ]
  ]
]

-- The header with `n` bytes of the stream is that of the stream, but that its payload lacks the bytes
-- from the `n`-th on.
abbrev pub Grows : Codec → List ℕ → VlessHeader → ℕ → Type 0
Grows c stream h n =
    (n ≤ length stream) × (parse_vless_header c stream ≡ parsed (grown (drop n stream) h))

read-Grows :
    (c : Codec) (buffer more : List ℕ) (h : VlessHeader)
    → parse_vless_header c buffer ≡ parsed h
    → Grows c (buffer ++ more) h (length buffer)
read-Grows c buffer more h whole = (
  omega (arith, length-append buffer more),
  rw (drop-length_append buffer more) (parse_vless_header-append c buffer more h whole),
)

settled-done :
    (c : Codec) (u : Bool) (buffer : List ℕ) (messages : List Message) (d : Collected)
    → settled c u buffer ≡ d
    → is_waiting d ≡ false
    → receive_all c u messages (settled c u buffer) ≡ d
settled-done c u buffer messages d e ended = rw e (receive_all-done c u messages d ended)

settled_sound :
    (c : Codec) (u : Bool) (buffer : List ℕ) (messages : List Message) (h : VlessHeader) (n : ℕ)
    (id : Option String)
    → (receive_all c u messages (waiting buffer) ≡ got h n id
        → Grows c (buffer ++ joined messages) h n)
    → receive_all c u messages (settled c u buffer) ≡ got h n id
    → Grows c (buffer ++ joined messages) h n
settled_sound c u buffer messages h n id next e = elim (settling c u buffer) [
  | read h' p q ↦
      let whole : parse_vless_header c buffer ≡ parsed h =
        ground (arith, settled-done c u buffer messages _ q refl) in
      let size : length buffer ≡ n = ground (arith, settled-done c u buffer messages _ q refl) in
      rw⁻¹ size (read-Grows c buffer (joined messages) h whole)
  | waits r p short q ↦ next (rw q at e)
  | refuses foreign q ↦ absurd (ground (arith, settled-done c u buffer messages _ q refl))
  | overflows long q ↦ absurd (ground (arith, settled-done c u buffer messages _ q refl))
]

waiting_sound :
    (c : Codec) (u : Bool) (messages : List Message) (buffer : List ℕ) (h : VlessHeader) (n : ℕ)
    (id : Option String)
    → receive_all c u messages (waiting buffer) ≡ got h n id
    → Grows c (buffer ++ joined messages) h n
unfolding receive_all receive
waiting_sound c u [] buffer h n id e = absurd (ground arith)
waiting_sound c u (chunk bytes ∷ messages) buffer h n id e =
    rw (sym (append_assoc buffer bytes (joined messages))) (
      settled_sound c u (buffer ++ bytes) messages h n id
        (waiting_sound c u messages (buffer ++ bytes) h n id) e)
waiting_sound c u (disconnect ∷ messages) buffer h n id e =
    absurd (ground (arith, receive_all-done c u messages disconnected refl))
waiting_sound c u (timeout ∷ messages) buffer h n id e =
    absurd (ground (arith, receive_all-done c u messages timed_out refl))

-- However the stream is cut into messages, if a header is collected from `n` bytes, these are the
-- first of the stream, and the header of the whole stream is the collected one with the bytes from
-- the `n`-th on behind its payload.
pub collect_header_sound :
    (c : Codec) (u : Bool) (early : List ℕ) (messages : List Message) (h : VlessHeader) (n : ℕ)
    (id : Option String)
    → collect_header c u early messages ≡ got h n id
    → Grows c (early ++ joined messages) h n
unfolding collect_header
collect_header_sound c u early messages h n id e =
    settled_sound c u early messages h n id (waiting_sound c u messages early h n id) e

abbrev pub only_chunks : List Message → Bool
only_chunks [] = true
only_chunks (chunk bytes ∷ messages) = only_chunks messages
only_chunks (_ ∷ messages) = false

abbrev pub is_got : Collected → Bool
is_got (got h n id) = true
is_got _ = false

is_foreign-append : (xs ys : List ℕ) → is_foreign xs ≡ true → is_foreign (xs ++ ys) ≡ true
unfolding is_foreign
is_foreign-append [] ys h = absurd (ground arith)
is_foreign-append (x ∷ xs) ys h = h

settled_complete :
    (c : Codec) (u : Bool) (buffer : List ℕ) (messages : List Message)
    → (u && is_foreign (buffer ++ joined messages)) ≡ false
    → length (buffer ++ joined messages) < header_max
    → ((r : HeaderError)
        → parse_vless_header c buffer ≡ failed r
        → is_got (receive_all c u messages (waiting buffer)) ≡ true)
    → is_got (receive_all c u messages (settled c u buffer)) ≡ true
settled_complete c u buffer messages ours short next = elim (settling c u buffer) [
  | read h' p q ↦ rw (settled-done c u buffer messages _ q refl)
  | waits r p _ q ↦ rw q (next r p)
  | refuses foreign q ↦ absurd (ground (arith, is_foreign-append buffer (joined messages)))
  | overflows long q ↦ absurd (omega (arith, length-append buffer (joined messages), long, short))
]

waiting_complete :
    (c : Codec) (u : Bool) (messages : List Message) (buffer : List ℕ) (h : VlessHeader)
    (r : HeaderError)
    → only_chunks messages ≡ true
    → (u && is_foreign (buffer ++ joined messages)) ≡ false
    → length (buffer ++ joined messages) < header_max
    → parse_vless_header c (buffer ++ joined messages) ≡ parsed h
    → parse_vless_header c buffer ≡ failed r
    → is_got (receive_all c u messages (waiting buffer)) ≡ true
unfolding receive_all receive
waiting_complete c u [] buffer h r chunks ours short whole part =
    absurd (ground (arith, append-nil buffer))
waiting_complete c u (chunk bytes ∷ messages) buffer h r chunks ours short whole part =
    let same : buffer ++ (bytes ++ joined messages) ≡ (buffer ++ bytes) ++ joined messages =
      sym (append_assoc buffer bytes (joined messages)) in
    settled_complete c u (buffer ++ bytes) messages (rw same at ours) (rw same at short)
      (λ r' part'.
        waiting_complete c u messages (buffer ++ bytes) h r' chunks (rw same at ours)
          (rw same at short) (rw same at whole) part')
waiting_complete c u (disconnect ∷ messages) buffer h r chunks ours short whole part =
    absurd (ground arith)
waiting_complete c u (timeout ∷ messages) buffer h r chunks ours short whole part =
    absurd (ground arith)

-- A stream of chunks that holds a whole header, and is shorter than the bound on headers (and of
-- version 0 where the identity is read), does give a header, however it is cut.
pub collect_header_complete :
    (c : Codec) (u : Bool) (early : List ℕ) (messages : List Message) (h : VlessHeader)
    → only_chunks messages ≡ true
    → (u && is_foreign (early ++ joined messages)) ≡ false
    → length (early ++ joined messages) < header_max
    → parse_vless_header c (early ++ joined messages) ≡ parsed h
    → is_got (collect_header c u early messages) ≡ true
unfolding collect_header
collect_header_complete c u early messages h chunks ours short whole =
    settled_complete c u early messages ours short
      (λ r part. waiting_complete c u messages early h r chunks ours short whole part)
