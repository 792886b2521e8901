-- ===== src/Updates.antt =====
-- `session/update` notifications (session_updates.go).
-- The slices that the writer is given are not nil, which the source would marshal as null.
pub mod Writer
pub mod Quiet
pub mod Ended
use go_acp_server.Base.{String, List, [], ◌∷◌, ◌++◌, Option, none, some, map, if◌then◌else◌, ◌==◌}
use go_acp_server.Go.Text.{is_blank}
use go_acp_server.Json.{Json, str, array, object}
use go_acp_server.Server.{notification}
use go_acp_server.Server.Proc.{Proc, ret, emit}

pub record PlanEntryUpdate : Type 0 where
  pub content : String
  pub priority : String
  pub status : String

pub record AvailableCommandUpdate : Type 0 where
  pub name : String
  pub description : String
  pub input : Option Json

pub record SessionConfigOptionUpdate : Type 0 where
  pub name : String
  pub description : String
  pub category : String
  pub value : Option Json

-- Fields with the tag `omitempty`.
abbrev pub omit_empty : String → String → List (String × Json)
omit_empty key s = if s == "" then [] else (key, str s) ∷ []

abbrev pub omit_nil : String → Option Json → List (String × Json)
omit_nil key none = []
omit_nil key (some v) = (key, v) ∷ []

unfoldable pub plan_entry : PlanEntryUpdate → Json
plan_entry e =
    object
      (("content", str e.content) ∷ ("priority", str e.priority) ∷ ("status", str e.status) ∷ [])

unfoldable pub available_command : AvailableCommandUpdate → Json
available_command c =
    object (("name", str c.name) ∷ ("description", str c.description) ∷ omit_nil "input" c.input)

unfoldable pub config_option : SessionConfigOptionUpdate → Json
config_option o = object (
    (("name", str o.name) ∷ omit_empty "description" o.description)
    ++ omit_empty "category" o.category
    ++ omit_nil "value" o.value)

-- writeSessionUpdateRaw
unfoldable pub write_session_update_raw : String → Json → Proc (Unit {0})
write_session_update_raw session_id update =
    emit
      (notification "session/update"
        (object (("sessionId", str session_id) ∷ ("update", update) ∷ [])))
      λ _. ret tt

-- The payload of a message chunk of one of the three kinds.
unfoldable pub chunk : String → String → Json
chunk kind text = object (
    ("content", object (("text", str text) ∷ ("type", str "text") ∷ []))
    ∷ ("sessionUpdate", str kind)
    ∷ [])

unfoldable pub write_session_update : String → String → Proc (Unit {0})
write_session_update session_id text =
    write_session_update_raw session_id (chunk "agent_message_chunk" text)

unfoldable pub write_user_message_update : String → String → Proc (Unit {0})
write_user_message_update session_id text =
    write_session_update_raw session_id (chunk "user_message_chunk" text)

unfoldable pub write_agent_thought_update : String → String → Proc (Unit {0})
write_agent_thought_update session_id text =
    write_session_update_raw session_id (chunk "agent_thought_chunk" text)

unfoldable pub write_plan_update : String → List PlanEntryUpdate → Proc (Unit {0})
write_plan_update session_id entries =
    write_session_update_raw session_id
      (object (("entries", array (map plan_entry entries)) ∷ ("sessionUpdate", str "plan") ∷ []))

unfoldable pub write_available_commands_update :
    String → List AvailableCommandUpdate → Proc (Unit {0})
write_available_commands_update session_id commands = write_session_update_raw session_id (
    object (
      ("availableCommands", array (map available_command commands))
      ∷ ("sessionUpdate", str "available_commands_update")
      ∷ []))

unfoldable pub write_current_mode_update : String → String → Proc (Unit {0})
write_current_mode_update session_id mode_id =
    write_session_update_raw session_id
      (object (("currentModeId", str mode_id) ∷ ("sessionUpdate", str "current_mode_update") ∷ []))

unfoldable pub write_config_option_update :
    String → List SessionConfigOptionUpdate → Proc (Unit {0})
write_config_option_update session_id options = write_session_update_raw session_id (
    object (
      ("configOptions", array (map config_option options))
      ∷ ("sessionUpdate", str "config_option_update")
      ∷ []))

-- The members of a session_info_update, in the order in which maps are marshalled.
unfoldable pub session_info_members : String → String → List (String × Json)
session_info_members title updated_at =
    ("sessionUpdate", str "session_info_update")
      ∷ (if is_blank title then [] else ("title", str title) ∷ [])
    ++ (if is_blank updated_at then [] else ("updatedAt", str updated_at) ∷ [])

unfoldable pub write_session_info_update : String → String → String → Proc (Unit {0})
write_session_info_update session_id title updated_at =
    write_session_update_raw session_id (object (session_info_members title updated_at))
