-- ===== src/Acptest/Payload.antt =====
-- The messages of acptest/driver.go: one line of the server, decoded into maps, and the keys by which
-- answers are matched. A value of type `any` is a JSON value, with `null` for nil.
use go_acp_server.Base.{
  ℕ, String, Bool, true, false, not, List, [], ◌∷◌, Option, none, some, if◌then◌else◌, ltb, ◌||◌,
  lookup,
}
use go_acp_server.Go.Host.{Host}
use go_acp_server.Go.Numbers.{ℤ, decimal_int}
use go_acp_server.Go.Text.{◌^^◌}
use go_acp_server.Json.{Json, null, num, float, str, obj, members}
use go_acp_server.Json.Decode.{fill_map, decode_map, as_string}
use go_acp_server.Server.Proc.{Result, ok, err}

-- map[string]any
abbrev pub Map : Type 0
Map = List (String × Json)

-- v.(map[string]any), with `none` where it is no map; `none` also stands for a missing key.
unfoldable pub as_map : Option Json → Option Map
unfolding fill_map
as_map (some (obj ms)) = some (fill_map [] (members ms))
as_map _ = none

-- m[key] as a value of type `any`
unfoldable pub value_at : String → Map → Json
value_at key m = elim (lookup key m) [ none ↦ null | some v ↦ v ]

pub record Message : Type 0 where
  pub seq : ℕ
  pub raw : String
  pub payload : Map
  pub id : Json
  pub method : String
  pub params : Option Map
  pub result : Json
  pub error : Option Map

unfoldable pub message_of : String → Map → Message
unfolding as_map value_at
message_of line payload = record {
  seq = 0;
  raw = line;
  payload = payload;
  id = value_at "id" payload;
  method = as_string (lookup "method" payload);
  params = as_map (lookup "params" payload);
  result = value_at "result" payload;
  error = as_map (lookup "error" payload);
}

-- decodeMessage
unfoldable pub decode_line : Host → String → Result Message
decode_line h line = elim (h.parse line) [
  | none ↦ err (h.syntax_error line)
  | some v ↦ elim (decode_map [] v) [
    | none ↦ err (h.type_error "map[string]interface {}" v)
    | some payload ↦ ok (message_of line payload)
  ]
]

-- The message that `readLoop` keeps for a line.
unfoldable pub line_message : Host → String → Message
line_message h line = elim (decode_line h line) [
  | ok msg ↦ msg
  | err e ↦ record {
    seq = 0;
    raw = line;
    payload = ("_decodeError", str e) ∷ [];
    id = null;
    method = "";
    params = none;
    result = null;
    error = none;
  }
]

-- msg.ID != nil
unfoldable pub is_nil : Json → Bool
is_nil null = true
is_nil _ = false

-- What a float64 is used for, by the literal that it is read from: `v == math.Trunc(v)`, `int64(v)`
-- and FormatFloat(v, 'g', -1, 64).
pub record Float64 : Type 0 where
  pub is_whole : Json → Bool
  pub int64_of : Json → ℤ
  pub format : Json → String

-- A number of type float64, as decoding gives it.
unfoldable pub number_key : Float64 → Json → String
number_key f v = if f.is_whole v then "n:" ^^ decimal_int (f.int64_of v) else "n:" ^^ f.format v

-- The ids that `rpcIDKey` is called with: an int of the driver's own, or a decoded value.
pub data RpcId : Type 0 where
  own : ℤ → RpcId
  decoded : Json → RpcId

-- rpcIDKey
unfoldable pub id_key : Host → Float64 → RpcId → String
unfolding number_key
id_key h f (own n) = "n:" ^^ decimal_int n
id_key h f (decoded null) = "null"
id_key h f (decoded (str s)) = "s:" ^^ s
id_key h f (decoded (num n)) = number_key f (num n)
id_key h f (decoded (float t)) = number_key f (float t)
id_key h f (decoded v) = "j:" ^^ h.marshal v

-- messagesInRange
unfoldable pub in_range : ℕ → ℕ → Message → Bool
in_range start_seq end_seq msg = not (ltb msg.seq start_seq || ltb end_seq msg.seq)

unfoldable pub kept_in_range : ℕ → ℕ → List Message → List Message
unfolding in_range
kept_in_range start_seq end_seq [] = []
kept_in_range start_seq end_seq (msg ∷ msgs) =
    let rest = kept_in_range start_seq end_seq msgs in
    if in_range start_seq end_seq msg then msg ∷ rest else rest

unfoldable pub messages_in_range : List Message → ℕ → ℕ → List Message
unfolding kept_in_range
messages_in_range msgs start_seq end_seq =
    if ltb end_seq start_seq then [] else kept_in_range start_seq end_seq msgs
