-- ===== src/Go/Host.antt =====
-- What the server uses of Go's library and is not described here: the grammar of JSON texts, the
-- texts of its errors, floating point numbers and dates. Nothing is assumed of these functions.
use go_acp_server.Base.{ℕ, String, Option}
use go_acp_server.Json.{Json}

pub record Host : Type 0 where
  -- The value of a JSON text, `none` for a syntax error, and that error's text.
  pub parse : String → Option Json
  pub syntax_error : String → String
  -- The error of decoding a value into a Go type.
  pub type_error : String → Json → String
  -- json.Marshal; also the text of a raw message, whose spaces inside are not kept.
  pub marshal : Json → String
  -- "%g" of a number literal read as a float64
  pub format_g : Json → String
  -- Format(time.RFC3339) of a time in UTC, in nanoseconds from the zero time
  pub rfc3339 : ℕ → String
