-- ===== src/Terminal.antt =====
-- internal/terminal/terminal.go: the messages of a terminal and the sessions of the agent. The
-- WebSocket, the PTY and the shell are third-party code or the operating system; a session is known by
-- a number that stands for its connection.
pub mod Messages
pub mod Sessions
pub mod Closing
pub mod Shell
pub mod Setup
use zth_sre.Prelude.{
  ℕ, ◌+◌, ◌-◌, ◌*◌, ◌%◌, ◌^◌, String, len, Bool, true, false, ◌&&◌, ◌||◌, not, Option, none, some,
  List, [], ◌∷◌, ◌++◌, if◌then◌else◌, ◌==◌, String_eq, ℕ_eq, ltb, leb, ◌≡◌,
}
use zth_sre.Prelude.Int.{ℤ, pos, negsuc, ℤ_eq, out_of_range}
use zth_sre.Http.{Method, is_get, Body}
use zth_sre.Server.Origins.{allowed_origin}

pub max_sessions : ℕ
max_sessions = 2

abbrev pub max_input_bytes : ℕ
max_input_bytes = 16384

abbrev pub max_message_bytes : ℕ
max_message_bytes = 131072

abbrev pub max_cols : ℕ
max_cols = 500

abbrev pub max_rows : ℕ
max_rows = 200

-- `message`
pub record Message : Type 0 where
  pub kind : String
  pub content : String
  pub cols : ℤ
  pub rows : ℤ

-- What ReadMessage returns: whether it is a text, its size, and what decoding it finds.
pub record Frame : Type 0 where
  pub is_text : Bool
  pub size : ℕ
  pub json : Body Message

-- The switch on the type: whether the message is refused.
unfoldable pub refused : Message → Bool
refused m =
    if m.kind == "input"
    then ltb max_input_bytes (len m.content) || not (m.cols == pos 0) || not (m.rows == pos 0)
    else if m.kind == "resize"
    then m.cols == pos 0
      || out_of_range max_cols m.cols
      || (m.rows == pos 0 || out_of_range max_rows m.rows)
      || not (m.content == "")
    else true

found : Option Message → Bool → Option Message
found none at_end = none
found (some m) at_end = if not at_end || refused m then none else some m

-- `decodeMessage`, with none for an error.
unfoldable pub decode_message : Frame → Option Message
unfolding found
decode_message f =
    if not f.is_text || ltb max_message_bytes f.size then none else found f.json.value f.json.at_end

-- `uint16`
unfoldable pub uint16 : ℤ → ℕ
uint16 (pos n) = n % 2 ^ 16
uint16 (negsuc n) = (2 ^ 16 - 1 - n % 2 ^ 16) % 2 ^ 16

-- The rows and columns that `resize` sets.
unfoldable pub winsize : Message → ℕ × ℕ
unfolding uint16
winsize m = (uint16 m.rows, uint16 m.cols)

-- The fields of an `Agent` that change; `sessions` has the keys of its map.
pub record Agent : Type 0 where
  pub active : ℕ
  pub closed : Bool
  pub sessions : List ℕ

unfoldable pub init : Agent
init = record { active = 0; closed = false; sessions = [] }

pub data Outcome : Type 0 where
  failed : ℕ → Outcome
  ok : Outcome
  -- The session is counted, and the upgrade starts.
  admitted : Outcome

-- The first critical section.
admit : Agent → Agent × Outcome
unfolding max_sessions
admit a =
    if a.closed || leb max_sessions a.active
    then (a, failed 503)
    else (record a { active = a.active + 1 }, admitted)

-- `ServeHTTP` up to the upgrade, with the values of the header Origin.
unfoldable pub serve_http : List String → String → Method → List String → Agent → Agent × Outcome
unfolding admit
serve_http allowed path method origins a =
    if not (path == "/healthz") && not (path == "/terminal")
    then (a, failed 404)
    else if not (is_get method)
    then (a, failed 405)
    else if path == "/healthz"
    then (a, ok)
    else if not (allowed_origin allowed origins)
    then (a, failed 403)
    else admit a

-- The critical section after the upgrade: none where the agent is closed.
unfoldable pub register : ℕ → Agent → Option Agent
register session a = if a.closed then none else some (record a { sessions = session ∷ a.sessions })

-- The deferred end of a session: out of the map, and then out of the count.
unfoldable pub unregister : List ℕ → List ℕ → Agent → Agent
unregister front back a = record a { sessions = front ++ back }

unfoldable pub release : Agent → Agent
release a = record a { active = a.active - 1 }

-- `Close`, up to the wait: the agent, and the sessions that are cancelled.
unfoldable pub close : Agent → Agent × List ℕ
close a = (record a { closed = true }, a.sessions)
