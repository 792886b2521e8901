-- ===== src/Acptest/Turn.antt =====
-- `parseTurn` of acptest/driver.go: what a prompt's exchange says, taken from its messages.
use go_acp_server.Base.{
  String, ◌||◌, List, [], ◌∷◌, ◌++◌, Option, none, some, if◌then◌else◌, ◌==◌, lookup,
}
use go_acp_server.Acptest.Payload.{Map, as_map, value_at, Message, RpcId}
use go_acp_server.Go.Text.{join}
use go_acp_server.Json.{Json}
use go_acp_server.Json.Decode.{as_string}

pub record ToolEvent : Type 0 where
  pub update_type : String
  pub tool_call_id : String
  pub status : String
  pub title : String
  pub kind : String
  pub raw_input : Json
  pub raw_output : Json
  pub content : Json

pub record Exchange : Type 0 where
  pub request_id : RpcId
  pub messages : List Message
  pub response : Message

pub record Turn : Type 0 where
  pub exchange : Exchange
  pub session_id : String
  pub stop_reason : String
  pub user_text : String
  pub assistant_text : String
  pub updates : List Map
  pub tool_events : List ToolEvent

-- updatePayload
unfoldable pub update_payload : Message → Option Map
update_payload msg = elim msg.params [ none ↦ none | some params ↦ as_map (lookup "update" params) ]

-- stringValue, of a map that is not nil
unfoldable pub string_value : Map → String → String
string_value m key = as_string (lookup key m)

-- contentText
unfoldable pub content_text : Json → String
content_text v = elim (as_map (some v)) [
  | none ↦ ""
  | some content ↦ as_string (lookup "text" content)
]

-- The variables of the loop.
pub record Gathered : Type 0 where
  pub updates : List Map
  pub user_texts : List String
  pub agent_texts : List String
  pub tool_events : List ToolEvent

abbrev pub nothing_gathered : Gathered
nothing_gathered = record { updates = []; user_texts = []; agent_texts = []; tool_events = [] }

unfoldable pub tool_event : String → Map → ToolEvent
unfolding string_value value_at
tool_event kind update = record {
  update_type = kind;
  tool_call_id = string_value update "toolCallId";
  status = string_value update "status";
  title = string_value update "title";
  kind = string_value update "kind";
  raw_input = value_at "rawInput" update;
  raw_output = value_at "rawOutput" update;
  content = value_at "content" update;
}

abbrev pub add_text : String → List String → List String
add_text text texts = if text == "" then texts else texts ++ text ∷ []

-- The switch on the kind of an update.
unfoldable pub gather_kind : String → Map → Gathered → Gathered
unfolding content_text tool_event
gather_kind kind update g =
    let text = content_text (value_at "content" update) in
    if kind == "user_message_chunk"
    then record g { user_texts = add_text text g.user_texts }
    else if kind == "agent_message_chunk"
    then record g { agent_texts = add_text text g.agent_texts }
    else if kind == "tool_call" || kind == "tool_call_update"
    then record g { tool_events = g.tool_events ++ tool_event kind update ∷ [] }
    else g

-- One round of the loop.
unfoldable pub gather : Message → Gathered → Gathered
unfolding gather_kind update_payload
gather msg g =
    if msg.method == "session/update"
    then elim (update_payload msg) [
      | none ↦ g
      | some update ↦
          gather_kind (string_value update "sessionUpdate") update
            (record g { updates = g.updates ++ update ∷ [] })
    ]
    else g

unfoldable pub gather_all : List Message → Gathered → Gathered
gather_all [] g = g
gather_all (msg ∷ msgs) g = gather_all msgs (gather msg g)

unfoldable pub stop_reason_of : Message → String
stop_reason_of response = elim (as_map (some response.result)) [
  | none ↦ ""
  | some result ↦ string_value result "stopReason"
]

-- parseTurn
unfoldable pub parse_turn : Exchange → String → Turn
parse_turn ex session_id =
    let g = gather_all ex.messages nothing_gathered in
    record {
      exchange = ex;
      session_id = session_id;
      stop_reason = stop_reason_of ex.response;
      user_text = join "" g.user_texts;
      assistant_text = join "" g.agent_texts;
      updates = g.updates;
      tool_events = g.tool_events;
    }
