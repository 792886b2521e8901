-- ===== src/Updates/Writer.antt =====
-- `promptUpdateWriter` of session_updates.go: the updates that an executor may send in its turn.
use go_acp_server.Base.{String, Bool, true, false, List, Option, none, some, if◌then◌else◌, lookup}
use go_acp_server.Go.Text.{is_blank}
use go_acp_server.Json.{Json, object}
use go_acp_server.Json.Decode.{as_string}
use go_acp_server.Server.{Ctx}
use go_acp_server.Server.Cancel.{ctx_err, ctx_error_text}
use go_acp_server.Server.Proc.{Proc, ret, step, ◌>>=◌, ◌>>◌, on_none}
use go_acp_server.Updates.{
  PlanEntryUpdate, AvailableCommandUpdate, SessionConfigOptionUpdate, write_session_update_raw,
  write_session_update, write_user_message_update, write_agent_thought_update, write_plan_update,
  write_available_commands_update, write_current_mode_update, write_config_option_update,
}

-- What a method returns, and whether it called `onAgentText`.
pub record Sent : Type 0 where
  pub error : Option String
  pub agent_text : Bool

abbrev pub sent : Sent
sent = record { error = none; agent_text = false }

abbrev pub not_sent : String → Sent
not_sent e = record { error = some e; agent_text = false }

pub record Writer : Type 0 where
  pub session_id : String
  pub ctx : Ctx

-- assertContext; the writer's context is never nil.
unfoldable pub assert_context : Writer → Proc (Option String)
assert_context w =
    step (λ s. s)
      λ s. ret (elim (ctx_err s w.ctx) [ none ↦ none | some e ↦ some (ctx_error_text e) ])

-- Goes on unless there is an error.
abbrev pub unless : Option String → Proc Sent → Proc Sent
unless (some e) p = ret (not_sent e)
unless none p = p

-- Writes an update unless the context is done.
unfoldable pub send_update : Writer → Sent → Proc (Unit {0}) → Proc Sent
send_update w result write = assert_context w >>= λ failed. unless failed (write >> ret result)

unfoldable pub user_message_chunk : Writer → String → Proc Sent
user_message_chunk w text =
    if is_blank text
    then ret sent
    else send_update w sent (write_user_message_update w.session_id text)

unfoldable pub agent_message_chunk : Writer → String → Proc Sent
agent_message_chunk w text =
    if is_blank text
    then ret sent
    else send_update w (record { error = none; agent_text = true })
        (write_session_update w.session_id text)

unfoldable pub agent_thought_chunk : Writer → String → Proc Sent
agent_thought_chunk w text =
    if is_blank text
    then ret sent
    else send_update w sent (write_agent_thought_update w.session_id text)

unfoldable pub plan : Writer → List PlanEntryUpdate → Proc Sent
plan w entries = send_update w sent (write_plan_update w.session_id entries)

unfoldable pub available_commands : Writer → List AvailableCommandUpdate → Proc Sent
available_commands w commands =
    send_update w sent (write_available_commands_update w.session_id commands)

unfoldable pub current_mode : Writer → String → Proc Sent
current_mode w mode_id =
    if is_blank mode_id
    then ret (not_sent "current mode id is required")
    else send_update w sent (write_current_mode_update w.session_id mode_id)

unfoldable pub config_options : Writer → List SessionConfigOptionUpdate → Proc Sent
config_options w options = send_update w sent (write_config_option_update w.session_id options)

-- The checks of `Raw` on the payload; `none` is a nil map.
unfoldable pub raw_payload : Writer → Option (List (String × Json)) → Proc Sent
raw_payload w update = on_none update (ret (not_sent "update payload is required")) λ u.
    if is_blank (as_string (lookup "sessionUpdate" u))
    then ret (not_sent "update.sessionUpdate is required")
    else write_session_update_raw w.session_id (object u) >> ret sent

unfoldable pub raw : Writer → Option (List (String × Json)) → Proc Sent
raw w update = assert_context w >>= λ failed. unless failed (raw_payload w update)

-- One call of a method of the writer.
pub data UpdateCall : Type 0 where
  user_message agent_message agent_thought : String → UpdateCall
  plan_entries : List PlanEntryUpdate → UpdateCall
  commands : List AvailableCommandUpdate → UpdateCall
  mode : String → UpdateCall
  options : List SessionConfigOptionUpdate → UpdateCall
  raw_update : Option (List (String × Json)) → UpdateCall

unfoldable pub call_writer : Writer → UpdateCall → Proc Sent
call_writer w (user_message text) = user_message_chunk w text
call_writer w (agent_message text) = agent_message_chunk w text
call_writer w (agent_thought text) = agent_thought_chunk w text
call_writer w (plan_entries entries) = plan w entries
call_writer w (commands cs) = available_commands w cs
call_writer w (mode mode_id) = current_mode w mode_id
call_writer w (options os) = config_options w os
call_writer w (raw_update u) = raw w u
