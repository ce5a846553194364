-- ===== src/Vless.antt =====
-- The VLESS relay (relay_vless.py): the request header of a stream, the order in which the addresses
-- of a target are tried, and the buffer thresholds.
pub mod Bytes
pub mod Header
pub mod Collect
pub mod Routes
pub mod Flow
use lumen_project_final.Prelude.{ℕ, Option, String, List}

-- What Python's `socket`, `uuid` and codecs make of bytes.
pub record Codec : Type 0 where
  pub ipv4_text : List ℕ → String
  pub ipv6_text : List ℕ → String
  pub uuid_text : List ℕ → String
  pub idna : List ℕ → Option String

pub data HeaderError : Type 0 where
  incomplete_prefix incomplete_options unsupported_command invalid_port : HeaderError
  incomplete_ipv4 incomplete_length incomplete_domain bad_domain : HeaderError
  incomplete_ipv6 unknown_kind : HeaderError

pub record VlessHeader : Type 0 where
  pub command : ℕ
  pub address : String
  pub port : ℕ
  pub payload : List ℕ

pub data Parsed : Type 0 where
  parsed : VlessHeader → Parsed
  failed : HeaderError → Parsed

-- What `io.receive` gives: a chunk (a text is decoded by then), the end of the stream, or nothing
-- within `HEADER_TIMEOUT`.
pub data Message : Type 0 where
  chunk : List ℕ → Message
  disconnect timeout : Message

-- How the collection of a header ends; `waiting` is for the next message, with the bytes so far.
pub data Collected : Type 0 where
  got : VlessHeader → ℕ → Option String → Collected
  waiting : List ℕ → Collected
  bad_version too_large disconnected timed_out : Collected
