-- ===== src/Invariants/Updates.antt =====
-- The updates of session_updates.go under an invariant.
use go_acp_server.Server.{Server}
use go_acp_server.Base.{String, List, Option, none, some, lookup}
use go_acp_server.Go.Text.{is_blank}
use go_acp_server.Json.{Json, object}
use go_acp_server.Json.Decode.{as_string}
use go_acp_server.Server.Proc.{Proc}
use go_acp_server.Updates.{
  write_session_update_raw, write_session_update, write_user_message_update,
  write_agent_thought_update, write_plan_update, write_available_commands_update,
  write_current_mode_update, write_config_option_update, write_session_info_update,
}
use go_acp_server.Updates.Writer.{
  Writer, Sent, sent, assert_context, unless, send_update, raw_payload, user_message_chunk,
  agent_message_chunk, agent_thought_chunk, plan, available_commands, current_mode, config_options,
  raw, UpdateCall, user_message, agent_message, agent_thought, plan_entries, commands, mode,
  options, raw_update, call_writer,
}
use go_acp_server.Invariants.Rules.{Keeps, Keeps-bind, Keeps-if}

module _ (I : Server → Type 0) where
  pub write_session_update_raw-Keeps :
      (session_id : String) (update : Json) → Keeps I (write_session_update_raw session_id update)
  unfolding write_session_update_raw
  write_session_update_raw-Keeps session_id update r = tt

  pub write_session_info_update-Keeps :
      (session_id title updated_at : String)
      → Keeps I (write_session_info_update session_id title updated_at)
  unfolding write_session_info_update
  write_session_info_update-Keeps session_id title updated_at =
      write_session_update_raw-Keeps session_id _

  unless-Keeps : (failed : Option String) (p : Proc Sent) → Keeps I p → Keeps I (unless failed p)
  unless-Keeps (some e) p h = tt
  unless-Keeps none p h = h

  send_update-Keeps :
      (w : Writer) (r : Sent) (p : Proc (Unit {0})) → Keeps I p → Keeps I (send_update w r p)
  unfolding send_update assert_context
  send_update-Keeps w r p h =
      Keeps-bind I (assert_context w) _ (λ s i. (i, tt))
        λ failed. unless-Keeps failed _ (Keeps-bind I p _ h (λ _. tt))

  module _ (w : Writer) where
    pub user_message_chunk-Keeps : (text : String) → Keeps I (user_message_chunk w text)
    unfolding user_message_chunk write_user_message_update
    user_message_chunk-Keeps text =
        Keeps-if I (is_blank text) _ _ tt
          (send_update-Keeps w sent _ (write_session_update_raw-Keeps w.session_id _))

    pub agent_message_chunk-Keeps : (text : String) → Keeps I (agent_message_chunk w text)
    unfolding agent_message_chunk write_session_update
    agent_message_chunk-Keeps text =
        Keeps-if I (is_blank text) _ _ tt
          (send_update-Keeps w _ _ (write_session_update_raw-Keeps w.session_id _))

    agent_thought_chunk-Keeps : (text : String) → Keeps I (agent_thought_chunk w text)
    unfolding agent_thought_chunk write_agent_thought_update
    agent_thought_chunk-Keeps text =
        Keeps-if I (is_blank text) _ _ tt
          (send_update-Keeps w sent _ (write_session_update_raw-Keeps w.session_id _))

    pub current_mode-Keeps : (mode_id : String) → Keeps I (current_mode w mode_id)
    unfolding current_mode write_current_mode_update
    current_mode-Keeps mode_id =
        Keeps-if I (is_blank mode_id) _ _ tt
          (send_update-Keeps w sent _ (write_session_update_raw-Keeps w.session_id _))

    pub available_commands-Keeps : (cs : List _) → Keeps I (available_commands w cs)
    unfolding available_commands write_available_commands_update
    available_commands-Keeps cs =
        send_update-Keeps w sent _ (write_session_update_raw-Keeps w.session_id _)

    pub config_options-Keeps : (os : List _) → Keeps I (config_options w os)
    unfolding config_options write_config_option_update
    config_options-Keeps os =
        send_update-Keeps w sent _ (write_session_update_raw-Keeps w.session_id _)

    plan-Keeps : (entries : List _) → Keeps I (plan w entries)
    unfolding plan write_plan_update
    plan-Keeps entries = send_update-Keeps w sent _ (write_session_update_raw-Keeps w.session_id _)

    raw_payload-Keeps : (u : Option (List (String × Json))) → Keeps I (raw_payload w u)
    unfolding raw_payload
    raw_payload-Keeps none = tt
    raw_payload-Keeps (some u) =
        Keeps-if I (is_blank (as_string (lookup "sessionUpdate" u))) _ _ tt
          (Keeps-bind I _ _ (write_session_update_raw-Keeps w.session_id (object u)) (λ _. tt))

    raw-Keeps : (u : Option (List (String × Json))) → Keeps I (raw w u)
    unfolding raw assert_context
    raw-Keeps u =
        Keeps-bind I (assert_context w) _ (λ s i. (i, tt))
          λ failed. unless-Keeps failed _ (raw_payload-Keeps u)

    pub call_writer-Keeps : (call : UpdateCall) → Keeps I (call_writer w call)
    unfolding call_writer
    call_writer-Keeps (user_message text) = user_message_chunk-Keeps text
    call_writer-Keeps (agent_message text) = agent_message_chunk-Keeps text
    call_writer-Keeps (agent_thought text) = agent_thought_chunk-Keeps text
    call_writer-Keeps (plan_entries entries) = plan-Keeps entries
    call_writer-Keeps (commands cs) = available_commands-Keeps cs
    call_writer-Keeps (mode mode_id) = current_mode-Keeps mode_id
    call_writer-Keeps (options os) = config_options-Keeps os
    call_writer-Keeps (raw_update u) = raw-Keeps u
