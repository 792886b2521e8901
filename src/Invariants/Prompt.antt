-- ===== src/Invariants/Prompt.antt =====
-- `handlePrompt` and what it calls under an invariant.
use go_acp_server.Server.{Server}
use go_acp_server.Invariants.Sections.{
  Preserved, write_result-Keeps, write_error-Keeps, consume_cancel_flag-Keeps, with_cancel-Keeps,
  set_active_cancel-Keeps, clear_active_cancel-Keeps,
}
use go_acp_server.Invariants.Updates.{
  call_writer-Keeps, current_mode-Keeps, available_commands-Keeps, config_options-Keeps,
  user_message_chunk-Keeps, agent_message_chunk-Keeps, write_session_info_update-Keeps,
}
use go_acp_server.Invariants.Tools.{invoke_tool-Keeps}
use go_acp_server.Base.{String, Bool, false, ◌&&◌, ◌||◌, not, List, Option, some}
use go_acp_server.Go.Text.{is_blank}
use go_acp_server.Config.{Config, decode_params}
use go_acp_server.Protocol.{Message, ContentBlock, PromptRequest, decode_prompt}
use go_acp_server.Json.{Raw}
use go_acp_server.Prompt.Announce.{extract_prompt_text, emit_session_context_updates}
use go_acp_server.Prompt.Context.{SessionSnapshot}
use go_acp_server.Prompt.Executor.{Turn, reply, fail, update, invoke, check, perform}
use go_acp_server.Prompt.Turn.{
  turn_failed, touch_session, finish_turn, send_reply, run_executor, snapshot_session, run_turn,
  open_turn, start_turn, handle_prompt, is_empty,
}
use go_acp_server.Server.Cancel.{ctx_err, is_canceled}
use go_acp_server.Server.Proc.{Proc, ret, ◌>>=◌, on_fault}
use go_acp_server.Tools.{RuntimeToolInfo, tool_infos}
use go_acp_server.Tools.Invoke.{Invoker}
use go_acp_server.Updates.Writer.{Writer, Sent}
use go_acp_server.Invariants.Rules.{
  Keeps, Keeps-bind, Keeps-if, Keeps-on_error, Keeps-on_none, Keeps-on_fault,
}

module _ (I : Server → Type 0) (P : Preserved I) where
  pub perform-Keeps :
      (i : Invoker) (w : Writer) (turn : Turn) (emitted : Bool) → Keeps I (perform i w turn emitted)
  unfolding perform
  perform-Keeps i w (reply text) emitted = tt
  perform-Keeps i w (fail e) emitted = tt
  perform-Keeps i w (update call k) emitted =
      Keeps-bind I _ _ (call_writer-Keeps I w call)
        (λ s. perform-Keeps i w (k s.error) (emitted || s.agent_text))
  perform-Keeps i w (invoke ctx call name args_json k) emitted =
      Keeps-bind I _ _ (invoke_tool-Keeps I P i ctx call name args_json)
        (λ r. perform-Keeps i w (k r) emitted)
  perform-Keeps i w (check k) emitted =
      λ s i1. (i1, perform-Keeps i w (k (ctx_err s w.ctx)) emitted)

  and_then-Keeps :
      (p : Proc Sent) (rest : Proc (Option String))
      → Keeps I p
      → Keeps I rest
      → Keeps I (p >>= λ s. on_fault s.error (λ e. ret (some e)) rest)
  and_then-Keeps p rest h k = Keeps-bind I p _ h λ s. Keeps-on_fault I s.error _ rest (λ e. tt) k

  emit_session_context_updates-Keeps :
      (w : Writer) (snapshot : SessionSnapshot) (infos : List RuntimeToolInfo)
      → Keeps I (emit_session_context_updates w snapshot infos)
  unfolding emit_session_context_updates
  emit_session_context_updates-Keeps w snapshot infos =
      and_then-Keeps _ _ (current_mode-Keeps I w "default") (
        and_then-Keeps _ _ (available_commands-Keeps I w _) (
          Keeps-bind I _ _ (λ s i. (i, tt))
            λ caps. Keeps-bind I _ _ (config_options-Keeps I w _) λ s. tt))

  module _ (w : Writer) (id : Raw) where
    turn_failed-Keeps : (message : String) → Keeps I (turn_failed w id message)
    unfolding turn_failed
    turn_failed-Keeps message =
        Keeps-bind I _ _ (consume_cancel_flag-Keeps I P w.session_id) λ flagged.
          Keeps-bind I _ _ (λ s i. (i, tt))
            λ ctx_error.
              Keeps-if I (flagged || is_canceled ctx_error) _ _ (write_result-Keeps I P id _)
                (write_error-Keeps I P id _ message)

    finish_turn-Keeps : (title updated_at : String) → Keeps I (finish_turn w id title updated_at)
    unfolding finish_turn
    finish_turn-Keeps title updated_at =
        Keeps-bind I _ _ (consume_cancel_flag-Keeps I P w.session_id) λ flagged.
          Keeps-if I flagged _ _ (write_result-Keeps I P id _) (
            Keeps-bind I _ _ (write_session_info_update-Keeps I w.session_id title updated_at)
              λ _. write_result-Keeps I P id _)

    send_reply-Keeps :
        (text : String) (emitted : Bool) (title updated_at : String)
        → Keeps I (send_reply w id text emitted title updated_at)
    unfolding send_reply
    send_reply-Keeps text emitted title updated_at =
        Keeps-if I (not (is_blank text) && not emitted) _ _
          (Keeps-bind I _ _ (agent_message_chunk-Keeps I w text) λ s.
            Keeps-on_fault I s.error _ _ (λ e. turn_failed-Keeps _)
              (finish_turn-Keeps title updated_at))
          (finish_turn-Keeps title updated_at)

    module _ (c : Config) where
      run_executor-Keeps : (i : Invoker) (turn : Turn) → Keeps I (run_executor c i w id turn)
      unfolding run_executor touch_session
      run_executor-Keeps i turn = Keeps-bind I _ _ (perform-Keeps i w turn false) λ out.
          Keeps-on_error I out.0 _ _ (λ e. turn_failed-Keeps _)
            λ text.
              Keeps-bind I _ _ (λ t s i1. (P.touches w.session_id t s i1, tt))
                λ touched. send_reply-Keeps text out.1 _ _

      run_turn-Keeps : (blocks : List ContentBlock) → Keeps I (run_turn c w id blocks)
      unfolding run_turn snapshot_session
      run_turn-Keeps blocks =
          Keeps-bind I _ _ (λ s i. (i, tt))
            λ taken.
              Keeps-bind I _ _
                (emit_session_context_updates-Keeps w taken.0 (tool_infos taken.1.caps))
                λ failed.
                  Keeps-on_fault I failed _ _ (λ e. turn_failed-Keeps _)
                    (run_executor-Keeps taken.1 _)

      open_turn-Keeps : (blocks : List ContentBlock) → Keeps I (open_turn c w id blocks)
      unfolding open_turn
      open_turn-Keeps blocks =
          Keeps-if I (is_blank (extract_prompt_text blocks)) _ _ (run_turn-Keeps blocks) (
            Keeps-bind I _ _ (user_message_chunk-Keeps I w _)
              λ s. Keeps-on_fault I s.error _ _ (λ e. turn_failed-Keeps _) (run_turn-Keeps blocks))

  start_turn-Keeps : (c : Config) (id : Raw) (args : PromptRequest) → Keeps I (start_turn c id args)
  unfolding start_turn
  start_turn-Keeps c id args =
      Keeps-bind I _ _ (consume_cancel_flag-Keeps I P args.session_id) λ flagged.
        Keeps-if I flagged _ _ (write_result-Keeps I P id _) (
          Keeps-bind I _ _ (with_cancel-Keeps I P) λ ctx.
            Keeps-bind I _ _ (set_active_cancel-Keeps I P args.session_id ctx) λ _.
              Keeps-bind I _ _ (open_turn-Keeps _ id c args.prompt)
                λ _. clear_active_cancel-Keeps I P args.session_id)

  pub handle_prompt-Keeps : (c : Config) (req : Message) → Keeps I (handle_prompt c req)
  unfolding handle_prompt
  handle_prompt-Keeps c req =
      Keeps-on_error I (decode_params c.host decode_prompt req.params) _ _
        (λ e. write_error-Keeps I P req.id _ e)
        λ args.
          Keeps-bind I _ _ (λ s i. (i, tt))
            λ session. Keeps-on_none I session _ _ (write_error-Keeps I P req.id _ _) λ _.
              Keeps-if I (is_empty args.prompt) _ _ (write_error-Keeps I P req.id _ _)
                (start_turn-Keeps c req.id args)
