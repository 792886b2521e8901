-- ===== src/Updates/Quiet.antt =====
-- session_updates.go and the answers to the client.
use go_acp_server.Base.{String, List, Option, none, some, refl, lookup}
use go_acp_server.Go.Text.{is_blank}
use go_acp_server.Json.{Json, object}
use go_acp_server.Json.Decode.{as_string}
use go_acp_server.Server.Owes.{Quiet, Quiet-bind, Owes-if}
use go_acp_server.Server.Proc.{Proc}
use go_acp_server.Updates.{
  write_session_update_raw, write_session_update, write_user_message_update,
  write_agent_thought_update, write_plan_update, write_available_commands_update,
  write_current_mode_update, write_config_option_update, write_session_info_update,
}
use go_acp_server.Updates.Writer.{
  Writer, Sent, sent, assert_context, unless, send_update, raw_payload, user_message_chunk,
  agent_message_chunk, agent_thought_chunk, plan, available_commands, current_mode, config_options,
  raw, UpdateCall, user_message, agent_message, agent_thought, plan_entries, commands, mode,
  options, raw_update, call_writer,
}

pub write_session_update_raw-Quiet :
    (session_id : String) (update : Json) → Quiet (write_session_update_raw session_id update)
unfolding write_session_update_raw
write_session_update_raw-Quiet session_id update id r = refl

pub write_session_info_update-Quiet :
    (session_id title updated_at : String)
    → Quiet (write_session_info_update session_id title updated_at)
unfolding write_session_info_update
write_session_info_update-Quiet session_id title updated_at =
    write_session_update_raw-Quiet session_id _

unless-Quiet : (failed : Option String) (p : Proc Sent) → Quiet p → Quiet (unless failed p)
unless-Quiet (some e) p h id = refl
unless-Quiet none p h id = h id

send_update-Quiet :
    (w : Writer) (r : Sent) (p : Proc (Unit {0})) → Quiet p → Quiet (send_update w r p)
unfolding send_update assert_context
send_update-Quiet w r p h =
    Quiet-bind (assert_context w) _ (λ id s. refl)
      λ failed. unless-Quiet failed _ (Quiet-bind p _ h (λ _ id. refl))

module _ (w : Writer) where
  pub user_message_chunk-Quiet : (text : String) → Quiet (user_message_chunk w text)
  unfolding user_message_chunk write_user_message_update
  user_message_chunk-Quiet text id =
      Owes-if id 0 (is_blank text) _ _ refl
        (send_update-Quiet w sent _ (write_session_update_raw-Quiet w.session_id _) id)

  pub agent_message_chunk-Quiet : (text : String) → Quiet (agent_message_chunk w text)
  unfolding agent_message_chunk write_session_update
  agent_message_chunk-Quiet text id =
      Owes-if id 0 (is_blank text) _ _ refl
        (send_update-Quiet w _ _ (write_session_update_raw-Quiet w.session_id _) id)

  agent_thought_chunk-Quiet : (text : String) → Quiet (agent_thought_chunk w text)
  unfolding agent_thought_chunk write_agent_thought_update
  agent_thought_chunk-Quiet text id =
      Owes-if id 0 (is_blank text) _ _ refl
        (send_update-Quiet w sent _ (write_session_update_raw-Quiet w.session_id _) id)

  pub current_mode-Quiet : (mode_id : String) → Quiet (current_mode w mode_id)
  unfolding current_mode write_current_mode_update
  current_mode-Quiet mode_id id =
      Owes-if id 0 (is_blank mode_id) _ _ refl
        (send_update-Quiet w sent _ (write_session_update_raw-Quiet w.session_id _) id)

  pub available_commands-Quiet : (cs : List _) → Quiet (available_commands w cs)
  unfolding available_commands write_available_commands_update
  available_commands-Quiet cs =
      send_update-Quiet w sent _ (write_session_update_raw-Quiet w.session_id _)

  pub config_options-Quiet : (os : List _) → Quiet (config_options w os)
  unfolding config_options write_config_option_update
  config_options-Quiet os =
      send_update-Quiet w sent _ (write_session_update_raw-Quiet w.session_id _)

  plan-Quiet : (entries : List _) → Quiet (plan w entries)
  unfolding plan write_plan_update
  plan-Quiet entries = send_update-Quiet w sent _ (write_session_update_raw-Quiet w.session_id _)

  raw_payload-Quiet : (u : Option (List (String × Json))) → Quiet (raw_payload w u)
  unfolding raw_payload
  raw_payload-Quiet none id = refl
  raw_payload-Quiet (some u) id =
      Owes-if id 0 (is_blank (as_string (lookup "sessionUpdate" u))) _ _ refl
        (Quiet-bind _ _ (write_session_update_raw-Quiet w.session_id (object u)) (λ _ i. refl) id)

  raw-Quiet : (u : Option (List (String × Json))) → Quiet (raw w u)
  unfolding raw assert_context
  raw-Quiet u =
      Quiet-bind (assert_context w) _ (λ id s. refl)
        λ failed. unless-Quiet failed _ (raw_payload-Quiet u)

  pub call_writer-Quiet : (call : UpdateCall) → Quiet (call_writer w call)
  unfolding call_writer
  call_writer-Quiet (user_message text) = user_message_chunk-Quiet text
  call_writer-Quiet (agent_message text) = agent_message_chunk-Quiet text
  call_writer-Quiet (agent_thought text) = agent_thought_chunk-Quiet text
  call_writer-Quiet (plan_entries entries) = plan-Quiet entries
  call_writer-Quiet (commands cs) = available_commands-Quiet cs
  call_writer-Quiet (mode mode_id) = current_mode-Quiet mode_id
  call_writer-Quiet (options os) = config_options-Quiet os
  call_writer-Quiet (raw_update u) = raw-Quiet u
