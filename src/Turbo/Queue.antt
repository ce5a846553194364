-- ===== src/Turbo/Queue.antt =====
-- The back pressure of the receive queue (turbo_ws_protocol.py).
use lumen_project_final.Prelude.{
  ℕ, suc, ◌+◌, ◌*◌, ◌-◌, ◌≤◌, ◌<◌, ◌≡◌, refl, Bool, true, false, ◌&&◌, Option, none, some, List, [],
  ◌∷◌, ◌++◌, leb, length, arith, length-append, if_cases,
}
use lumen_project_final.Turbo.{
  env_int, Limits, limits, Message, binary, text, Socket, queued_bytes, received_bytes, enqueue,
  after_receive, receive_from, receive_nowait,
}

-- Each low mark is below its high mark.
pub record IsOrdered (w : Limits) : Type 0 where
  pub queue : w.queue_low < w.queue_high
  pub bytes : w.bytes_low < w.bytes_high

env_int-bounds :
    (value : Option ℕ) (default minimum maximum : ℕ)
    → minimum ≤ maximum
    → (minimum ≤ env_int value default minimum maximum)
      × (env_int value default minimum maximum ≤ maximum)
unfolding env_int
env_int-bounds none default minimum maximum h = (omega arith, omega (arith, h))
env_int-bounds (some value) default minimum maximum h = (omega arith, omega (arith, h))

-- Whatever the environment holds, the low marks are below the high marks.
pub limits-IsOrdered :
    (high low bytes_high bytes_low : Option ℕ) → IsOrdered (limits high low bytes_high bytes_low)
unfolding limits
limits-IsOrdered high low bytes_high bytes_low =
    let h = env_int-bounds high 256 8 2048 (omega arith) in
    let l = env_int-bounds low 64 1 (env_int high 256 8 2048 - 1) (omega (arith, h.0)) in
    let b =
      env_int-bounds bytes_high (64 * 1024 * 1024) (4 * 1024 * 1024) (512 * 1024 * 1024)
        (omega arith) in
    record { queue = omega (arith, h.0, l.1); bytes = omega (arith, b.0) }

abbrev pub only_binary : List Message → Bool
only_binary [] = true
only_binary (binary n ∷ queue) = only_binary queue
only_binary (text bytes chars ∷ queue) = false

unfoldable pub weight : List Message → ℕ
unfolding queued_bytes
weight [] = 0
weight (m ∷ queue) = queued_bytes m + weight queue

-- The bytes are counted, and reading is paused exactly from the high marks down to the low ones.
pub record IsFlowing (w : Limits) (s : Socket) : Type 0 where
  pub counted : s.queue_bytes ≡ weight s.queue
  pub binaries : only_binary s.queue ≡ true
  pub open_below :
      s.read_paused ≡ false → (length s.queue < w.queue_high) × (s.queue_bytes < w.bytes_high)
  pub paused_above :
      s.read_paused ≡ true
      → (leb (length s.queue) w.queue_low && leb s.queue_bytes w.bytes_low) ≡ false

weight-append :
    (xs : List Message) (m : Message) → weight (xs ++ m ∷ []) ≡ weight xs + queued_bytes m
unfolding weight
weight-append [] m = omega arith
weight-append (x ∷ xs) m = omega (arith, weight-append xs m)

only_binary-append :
    (xs : List Message) (n : ℕ) → only_binary xs ≡ true → only_binary (xs ++ binary n ∷ []) ≡ true
only_binary-append [] n h = refl
only_binary-append (binary k ∷ xs) n h = only_binary-append xs n h
only_binary-append (text b c ∷ xs) n h = absurd (ground arith)

enqueue-IsFlowing :
    (w : Limits) (n : ℕ) (s : Socket)
    → IsOrdered w
    → IsFlowing w s
    → IsFlowing w (enqueue w (binary n) s)
unfolding enqueue
enqueue-IsFlowing w n s ordered v =
    if_cases (IsFlowing w) s.close_sent (λ closed. v)
      (λ _. record {
        counted = ground (arith, weight-append s.queue (binary n), v.counted);
        binaries = only_binary-append s.queue n v.binaries;
        open_below = λ h. ground arith;
        paused_above = λ h. ground (
          arith,
          length-append s.queue (binary n ∷ []),
          v.paused_above,
          ordered.queue,
          ordered.bytes,
        );
      })

after_receive-IsFlowing :
    (w : Limits) (m : Message) (rest : List Message) (s : Socket)
    → s.queue ≡ m ∷ rest
    → IsOrdered w
    → IsFlowing w s
    → IsFlowing w (after_receive w m rest s)
unfolding after_receive weight
after_receive-IsFlowing w (text b c) rest s e ordered v = absurd (ground (arith, v.binaries))
after_receive-IsFlowing w (binary n) rest s e ordered v =
    let counted : s.queue_bytes ≡ n + weight rest = rw (v.counted, e) in
    let longer : length s.queue ≡ suc (length rest) = rw e in
    let opened = v.open_below in
    record {
      counted = omega (arith, counted);
      binaries = rw e at v.binaries;
      open_below = λ h. ground (arith, ordered.queue, ordered.bytes);
      paused_above = λ h. ground arith;
    }

receive_from-IsFlowing :
    (w : Limits) (queue : List Message) (s : Socket)
    → s.queue ≡ queue
    → IsOrdered w
    → IsFlowing w s
    → IsFlowing w (receive_from w queue s).1
unfolding receive_from
receive_from-IsFlowing w [] s e ordered v = v
receive_from-IsFlowing w (m ∷ rest) s e ordered v = after_receive-IsFlowing w m rest s e ordered v

-- What happens to a connection: a binary frame comes in, or the application takes one out.
pub data Traffic (w : Limits) : Socket → Socket → Type 0 where
  arrives : (n : ℕ) (s : Socket) → Traffic w s (enqueue w (binary n) s)
  takes : (s : Socket) → Traffic w s (receive_nowait w s).1

pub data Run (w : Limits) (s : Socket) : Socket → Type 0 where
  stays : Run w s s
  goes_on : {t u : Socket} → Run w s t → Traffic w t u → Run w s u

Traffic-IsFlowing :
    {w : Limits} {s t : Socket} → IsOrdered w → Traffic w s t → IsFlowing w s → IsFlowing w t
unfolding receive_nowait
Traffic-IsFlowing {w} ordered (arrives n s) v = enqueue-IsFlowing w n s ordered v
Traffic-IsFlowing {w} ordered (takes s) v = receive_from-IsFlowing w s.queue s refl ordered v

Run-IsFlowing :
    (w : Limits) (s t : Socket) → IsOrdered w → Run w s t → IsFlowing w s → IsFlowing w t
Run-IsFlowing w s t ordered stays v = v
Run-IsFlowing w s t ordered (goes_on run traffic) v =
    Traffic-IsFlowing ordered traffic (Run-IsFlowing w s _ ordered run v)

abbrev pub connected : Socket
connected = record { queue = []; queue_bytes = 0; read_paused = false; close_sent = false }

connected-IsFlowing : (w : Limits) → IsOrdered w → IsFlowing w connected
unfolding weight
connected-IsFlowing w ordered = record {
  counted = refl;
  binaries = refl;
  open_below = λ h. (omega (arith, ordered.queue), omega (arith, ordered.bytes));
  paused_above = λ h. absurd (ground arith);
}

-- After any traffic of binary frames on a new connection, the bytes of the queue are counted exactly,
-- a connection that reads on is below both high marks, and a paused one is above a low mark.
pub Run-flows : (w : Limits) (s : Socket) → IsOrdered w → Run w connected s → IsFlowing w s
Run-flows w s ordered run = Run-IsFlowing w connected s ordered run (connected-IsFlowing w ordered)

-- A connection of binary frames does not stall: after any traffic, reading is not paused when the
-- application has taken the whole queue out.
pub Run-resumes :
    (w : Limits) (s : Socket)
    → IsOrdered w
    → Run w connected s
    → s.queue ≡ []
    → s.read_paused ≡ false
unfolding weight
Run-resumes w s ordered run empty =
    let v = Run-flows w s ordered run in ground (arith, v.counted, v.paused_above)

-- A text whose characters are fewer than its bytes leaves the difference on the counter when it is
-- received. Once that is past the marks, reading stays paused with an empty queue: no message is left
-- whose receipt could resume it.
pub receive_nowait-stalls :
    (w : Limits) (held bytes chars : ℕ)
    → w.bytes_high ≤ held + bytes
    → w.bytes_low < held + bytes - chars
    → let t =
        (receive_nowait w
          (enqueue w (text bytes chars) (record connected { queue_bytes = held }))).1 in
      (t.queue ≡ []) × (t.read_paused ≡ true)
unfolding receive_nowait receive_from enqueue after_receive received_bytes queued_bytes
receive_nowait-stalls w held bytes chars high low = (refl, ground arith)
