-- ===== src/Prompt/Answer.antt =====
-- The answers of `handlePrompt`, on each of its early returns.
use go_acp_server.Base.{String, Bool, false, ◌&&◌, ◌||◌, not, List, Option, some, refl}
use go_acp_server.Go.Text.{is_blank}
use go_acp_server.Config.{Config, decode_params}
use go_acp_server.Protocol.{Message, ContentBlock, PromptRequest, decode_prompt}
use go_acp_server.Json.{Raw}
use go_acp_server.Prompt.Announce.{extract_prompt_text, emit_session_context_updates}
use go_acp_server.Prompt.Context.{SessionSnapshot}
use go_acp_server.Prompt.Executor.{Turn, reply, fail, update, invoke, check, perform}
use go_acp_server.Prompt.Turn.{
  turn_failed, touch_session, finish_turn, send_reply, run_executor, snapshot_session, run_turn,
  open_turn, start_turn, handle_prompt, is_empty,
}
use go_acp_server.Server.Answers.{normalize_id}
use go_acp_server.Server.Cancel.{ctx_err, is_canceled}
use go_acp_server.Server.Owes.{
  Owes, Quiet, Quiet-bind, Owes-after, Owes-before, Owes-if, Owes-on_error, Owes-on_none,
  Owes-on_fault,
}
use go_acp_server.Server.Proc.{Proc, ret, ◌>>=◌, on_fault}
use go_acp_server.Server.Quiet.{
  write_result-Owes, write_error-Owes, consume_cancel_flag-Quiet, with_cancel-Quiet,
  set_active_cancel-Quiet, clear_active_cancel-Quiet,
}
use go_acp_server.Tools.{RuntimeToolInfo, tool_infos}
use go_acp_server.Tools.Invoke.{Invoker}
use go_acp_server.Tools.Quiet.{invoke_tool-Quiet}
use go_acp_server.Updates.Quiet.{
  call_writer-Quiet, current_mode-Quiet, available_commands-Quiet, config_options-Quiet,
  user_message_chunk-Quiet, agent_message_chunk-Quiet, write_session_info_update-Quiet,
}
use go_acp_server.Updates.Writer.{Writer, Sent}

-- Whatever an executor does in its turn, it writes no answer.
pub perform-Quiet :
    (i : Invoker) (w : Writer) (turn : Turn) (emitted : Bool) → Quiet (perform i w turn emitted)
unfolding perform
perform-Quiet i w (reply text) emitted id = refl
perform-Quiet i w (fail e) emitted id = refl
perform-Quiet i w (update call k) emitted id =
    Quiet-bind _ _ (call_writer-Quiet w call)
      (λ s. perform-Quiet i w (k s.error) (emitted || s.agent_text)) id
perform-Quiet i w (invoke ctx call name args_json k) emitted id =
    Quiet-bind _ _ (invoke_tool-Quiet i ctx call name args_json)
      (λ r. perform-Quiet i w (k r) emitted) id
perform-Quiet i w (check k) emitted id = λ s. perform-Quiet i w (k (ctx_err s w.ctx)) emitted id

and_then-Quiet :
    (p : Proc Sent) (rest : Proc (Option String))
    → Quiet p
    → Quiet rest
    → Quiet (p >>= λ s. on_fault s.error (λ e. ret (some e)) rest)
and_then-Quiet p rest h k =
    Quiet-bind p _ h λ s id. Owes-on_fault id 0 s.error _ rest (λ e. refl) (k id)

emit_session_context_updates-Quiet :
    (w : Writer) (snapshot : SessionSnapshot) (infos : List RuntimeToolInfo)
    → Quiet (emit_session_context_updates w snapshot infos)
unfolding emit_session_context_updates
emit_session_context_updates-Quiet w snapshot infos =
    and_then-Quiet _ _ (current_mode-Quiet w "default") (
      and_then-Quiet _ _ (available_commands-Quiet w _) (
        Quiet-bind _ _ (λ id s. refl)
          λ caps. Quiet-bind _ _ (config_options-Quiet w _) λ s id. refl))

module _ (w : Writer) (id : Raw) where
  turn_failed-Owes : (message : String) → Owes (normalize_id id) 1 (turn_failed w id message)
  unfolding turn_failed
  turn_failed-Owes message = Owes-after _ _ _ 1 (consume_cancel_flag-Quiet w.session_id) λ flagged.
      Owes-after _ _ _ 1 (λ j s. refl)
        λ ctx_error.
          Owes-if _ 1 (flagged || is_canceled ctx_error) _ _ (write_result-Owes id _)
            (write_error-Owes id _ message)

  finish_turn-Owes :
      (title updated_at : String) → Owes (normalize_id id) 1 (finish_turn w id title updated_at)
  unfolding finish_turn
  finish_turn-Owes title updated_at =
      Owes-after _ _ _ 1 (consume_cancel_flag-Quiet w.session_id) λ flagged.
        Owes-if _ 1 flagged _ _ (write_result-Owes id _) (
          Owes-after _ _ _ 1 (write_session_info_update-Quiet w.session_id title updated_at)
            λ _. write_result-Owes id _)

  send_reply-Owes :
      (text : String) (emitted : Bool) (title updated_at : String)
      → Owes (normalize_id id) 1 (send_reply w id text emitted title updated_at)
  unfolding send_reply
  send_reply-Owes text emitted title updated_at =
      Owes-if _ 1 (not (is_blank text) && not emitted) _ _
        (Owes-after _ _ _ 1 (agent_message_chunk-Quiet w text) λ s.
          Owes-on_fault _ 1 s.error _ _ (λ e. turn_failed-Owes _)
            (finish_turn-Owes title updated_at))
        (finish_turn-Owes title updated_at)

  module _ (c : Config) where
    run_executor-Owes :
        (i : Invoker) (turn : Turn) → Owes (normalize_id id) 1 (run_executor c i w id turn)
    unfolding run_executor touch_session
    run_executor-Owes i turn = Owes-after _ _ _ 1 (perform-Quiet i w turn false) λ out.
        Owes-on_error _ 1 out.0 _ _ (λ e. turn_failed-Owes _)
          λ text. Owes-after _ _ _ 1 (λ j t s. refl) λ touched. send_reply-Owes text out.1 _ _

    run_turn-Owes : (blocks : List ContentBlock) → Owes (normalize_id id) 1 (run_turn c w id blocks)
    unfolding run_turn snapshot_session
    run_turn-Owes blocks =
        Owes-after _ _ _ 1 (λ j s. refl)
          λ taken.
            Owes-after _ _ _ 1
              (emit_session_context_updates-Quiet w taken.0 (tool_infos taken.1.caps))
              λ failed.
                Owes-on_fault _ 1 failed _ _ (λ e. turn_failed-Owes _) (run_executor-Owes taken.1 _)

    open_turn-Owes :
        (blocks : List ContentBlock) → Owes (normalize_id id) 1 (open_turn c w id blocks)
    unfolding open_turn
    open_turn-Owes blocks =
        Owes-if _ 1 (is_blank (extract_prompt_text blocks)) _ _ (run_turn-Owes blocks) (
          Owes-after _ _ _ 1 (user_message_chunk-Quiet w _)
            λ s. Owes-on_fault _ 1 s.error _ _ (λ e. turn_failed-Owes _) (run_turn-Owes blocks))

start_turn-Owes :
    (c : Config) (id : Raw) (args : PromptRequest) → Owes (normalize_id id) 1 (start_turn c id args)
unfolding start_turn
start_turn-Owes c id args =
    Owes-after _ _ _ 1 (consume_cancel_flag-Quiet args.session_id) λ flagged.
      Owes-if _ 1 flagged _ _ (write_result-Owes id _) (
        Owes-after _ _ _ 1 with_cancel-Quiet λ ctx.
          Owes-after _ _ _ 1 (set_active_cancel-Quiet args.session_id ctx) λ _.
            Owes-before _ _ _ 1 (open_turn-Owes _ id c args.prompt)
              λ _. clear_active_cancel-Quiet args.session_id)

pub handle_prompt-Owes :
    (c : Config) (req : Message) → Owes (normalize_id req.id) 1 (handle_prompt c req)
unfolding handle_prompt
handle_prompt-Owes c req =
    Owes-on_error _ 1 (decode_params c.host decode_prompt req.params) _ _
      (λ e. write_error-Owes req.id _ e)
      λ args.
        Owes-after _ _ _ 1 (λ j s. refl)
          λ session. Owes-on_none _ 1 session _ _ (write_error-Owes req.id _ _) λ _.
            Owes-if _ 1 (is_empty args.prompt) _ _ (write_error-Owes req.id _ _)
              (start_turn-Owes c req.id args)
