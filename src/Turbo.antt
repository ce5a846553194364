-- ===== src/Turbo.antt =====
-- The WebSocket data plane (turbo_ws_protocol.py): the receive queue with its water marks, the frame
-- header, and the limits read from the environment.
pub mod Queue
pub mod Framing
use lumen_project_final.Prelude.{
  ℕ, zero, suc, ◌+◌, ◌*◌, ◌-◌, ◌/◌, ◌%◌, min, max, Bool, true, false, not, ◌&&◌, ◌||◌, Option, none,
  some, List, [], ◌∷◌, ◌++◌, if◌then◌else◌, ltb, leb, length,
}

-- `_env_int`; `none` is a text that is no number. A negative number is below every minimum, as 0 is.
unfoldable pub env_int : Option ℕ → ℕ → ℕ → ℕ → ℕ
env_int none default minimum maximum = max minimum (min maximum default)
env_int (some value) default minimum maximum = max minimum (min maximum value)

pub record Limits : Type 0 where
  pub queue_high : ℕ
  pub queue_low : ℕ
  pub bytes_high : ℕ
  pub bytes_low : ℕ

-- The module's constants, from the values of their variables.
unfoldable pub limits : Option ℕ → Option ℕ → Option ℕ → Option ℕ → Limits
unfolding env_int
limits high low bytes_high bytes_low =
    let queue_high = env_int high 256 8 2048 in
    let top = env_int bytes_high (64 * 1024 * 1024) (4 * 1024 * 1024) (512 * 1024 * 1024) in
    record {
      queue_high = queue_high;
      queue_low = env_int low 64 1 (queue_high - 1);
      bytes_high = top;
      bytes_low =
          min (env_int bytes_low (16 * 1024 * 1024) (1024 * 1024) (128 * 1024 * 1024)) (top / 2);
    }

-- A queued message: a binary frame of a number of bytes, or a text with its bytes and characters.
pub data Message : Type 0 where
  binary : ℕ → Message
  text : ℕ → ℕ → Message

pub record Socket : Type 0 where
  pub queue : List Message
  pub queue_bytes : ℕ
  pub read_paused : Bool
  pub close_sent : Bool

-- What a message adds when it is queued, and what is taken off when it is received.
unfoldable pub queued_bytes : Message → ℕ
queued_bytes (binary n) = n
queued_bytes (text bytes chars) = bytes

unfoldable pub received_bytes : Message → ℕ
received_bytes (binary n) = n
received_bytes (text bytes chars) = chars

-- `send_receive_event_to_app`, for a message that could be decoded.
unfoldable pub enqueue : Limits → Message → Socket → Socket
unfolding queued_bytes
enqueue w m s =
    if s.close_sent
    then s
    else (let queue = s.queue ++ m ∷ [] in
        let bytes = s.queue_bytes + queued_bytes m in
        record s {
          queue = queue;
          queue_bytes = bytes;
          read_paused = s.read_paused || leb w.queue_high (length queue) || leb w.bytes_high bytes;
        })

-- `_after_receive`, on the queue that is left.
unfoldable pub after_receive : Limits → Message → List Message → Socket → Socket
unfolding received_bytes
after_receive w m rest s =
    let bytes = s.queue_bytes - received_bytes m in
    record s {
      queue = rest;
      queue_bytes = bytes;
      read_paused = s.read_paused && not (leb (length rest) w.queue_low && leb bytes w.bytes_low);
    }

unfoldable pub receive_from : Limits → List Message → Socket → Option Message × Socket
unfolding after_receive
receive_from w [] s = (none, s)
receive_from w (m ∷ rest) s = (some m, after_receive w m rest s)

-- `turbo_receive_nowait`; `receive` is the same once the queue has a message.
unfoldable pub receive_nowait : Limits → Socket → Option Message × Socket
unfolding receive_from
receive_nowait w s = receive_from w s.queue s

-- `struct.pack` with a big-endian number of some bytes.
unfoldable pub big_endian : ℕ → ℕ → List ℕ
big_endian zero n = []
big_endian (suc k) n = big_endian k (n / 256) ++ n % 256 ∷ []

-- `_binary_header`
unfoldable pub binary_header : ℕ → List ℕ
unfolding big_endian
binary_header n =
    if ltb n 126
    then 130 ∷ n ∷ []
    else if ltb n 65536
    then 130 ∷ 126 ∷ big_endian 2 n
    else 130 ∷ 127 ∷ big_endian 8 n

-- The two writes of `turbo_send_bytes`, for an open connection without compression.
unfoldable pub sent_frame : List ℕ → List ℕ
unfolding binary_header
sent_frame payload = binary_header (length payload) ++ payload
