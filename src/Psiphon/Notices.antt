-- ===== src/Psiphon/Notices.antt =====
-- The Core's notices (psiphon/manager.py: _consume_notices, _handle_notice, _wait_for_ready;
-- psiphon/models.py: safe_region).
use Prim.Native.Char.{code}
use lumen_project_final.Prelude.{
  ℕ, String, Bool, true, false, ◌&&◌, ◌||◌, Option, none, some, List, [], ◌∷◌, ltb, leb,
  if◌then◌else◌,
}
use lumen_project_final.Prelude.Eq.{◌==◌, string_eq}
use lumen_project_final.Prelude.Text.{strip}
use lumen_project_final.Psiphon.{Ending, Process, Manager, has_port, or_text}

-- What `int(...)` of a notice's field gives.
pub data ℤ : Type 0 where
  pos negsuc : ℕ → ℤ

-- A decoded notice. A field that `int` refuses, or that is missing, is `none`.
pub record Notice : Type 0 where
  pub notice_type : String
  pub port : Option ℤ
  pub count : Option ℤ
  pub server_region : String

-- What `readline` gives. A line comes with its length and with the notice that it decodes to.
pub data Line : Type 0 where
  overrun end_of_stream : Line
  line : ℕ → Option Notice → Line

abbrev pub notice_line_limit : ℕ
notice_line_limit = 16384

-- `if self._socks_port and self._active_tunnels > 0: self._ready_event.set()`
unfoldable pub wake : Manager → Manager
wake m = record m { ready_event = m.ready_event || has_port m.socks_port && ltb 0 m.active_tunnels }

-- `if 1 <= port <= 65535: self._socks_port = port`
unfoldable pub set_port : ℤ → Manager → Manager
set_port (negsuc n) m = m
set_port (pos p) m = if leb 1 p && leb p 65535 then record m { socks_port = some p } else m

-- `max(0, count)`
abbrev pub at_least_zero : ℤ → ℕ
at_least_zero (pos n) = n
at_least_zero (negsuc n) = 0

unfoldable pub listening : Option ℤ → Manager → Manager
unfolding wake set_port
listening none m = m
listening (some p) m = wake (set_port p m)

unfoldable pub tunnels : Option ℤ → Manager → Manager
unfolding wake
tunnels none m = m
tunnels (some n) m = wake (record m { active_tunnels = at_least_zero n })

-- What Python knows of letters: `str.upper` and `str.isalpha`.
pub record Letters : Type 0 where
  pub upper : String → String
  pub is_alpha : String → Bool

abbrev is_pair : String → Bool
is_pair (String.◌∷◌ a (String.◌∷◌ b String.[])) = true
is_pair _ = false

-- Two letters, or nothing.
unfoldable pub safe_region : Letters → String → String
safe_region letters value =
    let text = strip (letters.upper value) in
    if is_pair text && letters.is_alpha text then text else ""

module _ (letters : Letters) where
  unfoldable pub dispatch_notice : Notice → Manager → Manager
  unfolding listening tunnels wake safe_region
  dispatch_notice n m =
      if n.notice_type == "ListeningSocksProxyPort"
      then listening n.port m
      else if n.notice_type == "Tunnels"
      then tunnels n.count m
      else if n.notice_type == "ConnectedServerRegion"
      then wake (record m {
        status = record m.status { selected_location = safe_region letters n.server_region };
      })
      else if n.notice_type == "Error"
      then wake (record m { notice_failure = "core_notice_error" })
      else wake m

  -- A line that is no JSON object is dropped.
  unfoldable pub handle_notice : Option Notice → Manager → Manager
  unfolding dispatch_notice
  handle_notice none m = m
  handle_notice (some n) m = dispatch_notice n m

  abbrev pub too_large : Manager → Manager
  too_large m = record m { notice_failure = "core_notice_too_large"; ready_event = true }

  -- One `readline` of a reader: whether it goes on, and what it leaves.
  unfoldable pub read_line : Line → Manager → Bool × Manager
  unfolding handle_notice
  read_line overrun m = (false, too_large m)
  read_line end_of_stream m = (false, m)
  read_line (line size notice) m =
      if ltb notice_line_limit size then (false, too_large m) else (true, handle_notice notice m)

  -- A reader's loop over the lines of its stream, until one ends it.
  unfoldable pub consume_notices : List Line → Manager → Manager
  unfolding read_line
  consume_notices [] m = m
  consume_notices (l ∷ rest) m = elim ((read_line l m).0) [
    | true ↦ consume_notices rest (read_line l m).1
    | false ↦ (read_line l m).1
  ]

  -- What the readers of both streams do in a while, line by line in the order of their turns.
  unfoldable pub hear : List Line → Manager → Manager
  unfolding read_line
  hear [] m = m
  hear (l ∷ rest) m = hear rest (read_line l m).1

-- How `asyncio.wait` came back: the ready event seen, the process's end, both or neither.
pub record Waited : Type 0 where
  pub ready_done : Bool
  pub exit_done : Option Ending

abbrev note_exit : Option Ending → Manager → Manager
note_exit none m = m
note_exit (some code) m = record m {
  process = some record { returncode = some code };
  status = record m.status { last_exit_code = some code };
  notice_failure = or_text m.notice_failure "core_exited";
}

-- With a process; with none it returns `False` at once.
unfoldable pub wait_for_ready : Waited → Option Process → Manager → Bool × Manager
wait_for_ready w none m = (false, m)
wait_for_ready w (some p) m =
    if w.ready_done && (m.ready_event && m.notice_failure == "")
    then (true, m)
    else (false, note_exit w.exit_done m)
