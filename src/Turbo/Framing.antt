-- ===== src/Turbo/Framing.antt =====
-- Frames as they are sent (turbo_ws_protocol.py: `_binary_header`), and a reader by the rules of RFC
-- 6455 for an unmasked frame.
use mathlib.Core.List.{append_assoc}
use native.Mathlib.Nat.{pow-suc}
use lumen_project_final.Prelude.{
  ℕ, zero, suc, ◌+◌, ◌*◌, ◌/◌, ◌%◌, ◌^◌, ◌<◌, ◌≤◌, ◌≡◌, refl, not, ◌||◌, Option, none, some, List,
  [], ◌∷◌, ◌++◌, if◌then◌else◌, ltb, nat_eqb, length, take, drop, arith, length-append,
  take-length_append, drop-length_append, Bool-cases, inl, inr,
}
use lumen_project_final.Turbo.{big_endian, binary_header, sent_frame}

unfoldable pub from_big_endian : ℕ → List ℕ → ℕ
from_big_endian acc [] = acc
from_big_endian acc (b ∷ bs) = from_big_endian (256 * acc + b) bs

from_big_endian-snoc :
    (acc : ℕ) (bs : List ℕ) (b : ℕ)
    → from_big_endian acc (bs ++ b ∷ []) ≡ 256 * from_big_endian acc bs + b
unfolding from_big_endian
from_big_endian-snoc acc [] b = refl
from_big_endian-snoc acc (x ∷ bs) b = from_big_endian-snoc (256 * acc + x) bs b

from_big_endian-big_endian : (k n : ℕ) → n < 256 ^ k → from_big_endian 0 (big_endian k n) ≡ n
unfolding from_big_endian big_endian
from_big_endian-big_endian zero n h = omega (arith)
from_big_endian-big_endian (suc k) n h =
    let power = pow-suc 256 k in
    let short : n / 256 < 256 ^ k = omega (arith, power) in
    let front = from_big_endian-big_endian k (n / 256) short in
    let back = from_big_endian-snoc 0 (big_endian k (n / 256)) (n % 256) in
    omega (arith, front, back)

length-big_endian : (k n : ℕ) → length (big_endian k n) ≡ k
unfolding big_endian
length-big_endian zero n = refl
length-big_endian (suc k) n =
    omega
      (arith, length-append (big_endian k (n / 256)) (n % 256 ∷ []), length-big_endian k (n / 256))

-- The payload of the announced length, which has to be there, and what is left.
abbrev pub read_payload : ℕ → List ℕ → Option (List ℕ × List ℕ)
read_payload n rest = if ltb (length rest) n then none else some (take n rest, drop n rest)

-- A length in `k` bytes, which has to be there and to need them; the highest bit is 0.
abbrev pub extended : ℕ → ℕ → List ℕ → Option (List ℕ × List ℕ)
extended k least rest =
    let n = from_big_endian 0 (take k rest) in
    if ltb (length rest) k || ltb n least || not (ltb n (2 ^ 63))
    then none
    else read_payload n (drop k rest)

-- The receiving side: a final binary frame without a mask, its length in the second byte or in the
-- two or eight after it, and the payload of that length; what follows is left.
abbrev pub read_frame : List ℕ → Option (List ℕ × List ℕ)
read_frame (opcode ∷ n ∷ rest) =
    if nat_eqb opcode 130
    then (if ltb n 126
        then read_payload n rest
        else if nat_eqb n 126
        then extended 2 126 rest
        else if nat_eqb n 127
        then extended 8 65536 rest
        else none)
    else none
read_frame _ = none

split_at :
    (k : ℕ) (xs ys : List ℕ) → length xs ≡ k → (take k (xs ++ ys) ≡ xs) × (drop k (xs ++ ys) ≡ ys)
split_at k xs ys e = rw⁻¹ e (take-length_append xs ys, drop-length_append xs ys)

read_payload-append :
    (payload rest : List ℕ) → read_payload (length payload) (payload ++ rest) ≡ some (payload, rest)
read_payload-append payload rest =
    let parts = split_at (length payload) payload rest refl in
    rw (parts.0, parts.1) (ground (arith, length-append payload rest))

extended-big_endian :
    (k least : ℕ) (payload rest : List ℕ)
    → length payload < 256 ^ k
    → least ≤ length payload
    → length payload < 2 ^ 63
    → extended k least ((big_endian k (length payload) ++ payload) ++ rest) ≡ some (payload, rest)
extended-big_endian k least payload rest h enough small =
    let n = length payload in
    let size = length-big_endian k n in
    let parts = split_at k (big_endian k n) (payload ++ rest) size in
    let long = length-append (big_endian k n) (payload ++ rest) in
    rw
      (
        append_assoc (big_endian k n) payload rest,
        parts.0,
        parts.1,
        from_big_endian-big_endian k n h,
      )
      (ground (arith, long, size, enough, small, read_payload-append payload rest))

read_frame-short :
    (payload rest : List ℕ)
    → length payload < 126
    → read_frame (130 ∷ length payload ∷ (payload ++ rest)) ≡ some (payload, rest)
read_frame-short payload rest h = ground (arith, h, read_payload-append payload rest)

-- A payload of less than 2^63 bytes is read back, whole and alone, from the frame that is sent for it
-- and whatever is sent behind it, whichever of the three forms its length takes.
pub read_frame-sent_frame :
    (payload rest : List ℕ)
    → length payload < 2 ^ 63
    → read_frame (sent_frame payload ++ rest) ≡ some (payload, rest)
unfolding sent_frame binary_header
read_frame-sent_frame payload rest h = elim (Bool-cases (ltb (length payload) 126)) [
  | inl short ↦ rw (short, sent_frame, binary_header) (read_frame-short payload rest (ground arith))
  | inr long ↦ elim (Bool-cases (ltb (length payload) 65536)) [
    | inl short ↦
        rw (long, short, sent_frame, binary_header)
          (extended-big_endian 2 126 payload rest (ground arith) (ground arith) h)
    | inr huge ↦
        rw (long, huge, sent_frame, binary_header)
          (extended-big_endian 8 65536 payload rest (omega (arith, h)) (ground arith) h)
  ]
]
