-- ===== src/JsmnStream/Root.antt =====
-- A whole document: what cc_jsmnStream_buffer returns once a JSON value was written to a new stream.
use libcc.Base.{ℕ, Bool, true, false}
use libcc.JsmnStream.{JsmnType, undefined, JsmnState, JsmnStream}
use libcc.JsmnStream.Json.{Json}

-- The state of a root that is done.
abbrev done_state : JsmnType → ℕ → JsmnState
done_state type c = record { type = type; has_key = false; has_end = true; count = c }

abbrev is_defined : JsmnType → Bool
is_defined undefined = false
is_defined _ = true
