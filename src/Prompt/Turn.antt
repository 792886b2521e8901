-- ===== src/Prompt/Turn.antt =====
-- `handlePrompt` of request_handlers.go, in the stages between its early returns.
use go_acp_server.Base.{
  String, Bool, true, false, ◌&&◌, ◌||◌, not, List, [], ◌∷◌, none, some, if◌then◌else◌, lookup,
  insert,
}
use go_acp_server.Go.Text.{◌^^◌, trim_space, is_blank}
use go_acp_server.Go.Host.{Host}
use go_acp_server.Json.{Raw}
use go_acp_server.Config.{Config, decode_params, format_time}
use go_acp_server.Protocol.{Message, ContentBlock, PromptRequest, decode_prompt}
use go_acp_server.Protocol.Replies.{prompt_response}
use go_acp_server.Prompt.Announce.{
  extract_prompt_text, clone_content_blocks, emit_session_context_updates,
}
use go_acp_server.Prompt.Context.{SessionSnapshot, with_session_runtime_context}
use go_acp_server.Prompt.Executor.{Turn, perform}
use go_acp_server.Server.{Server, Time}
use go_acp_server.Server.Answers.{write_result, write_error, err_invalid_params, err_internal_error}
use go_acp_server.Server.Cancel.{
  ctx_err, is_canceled, with_cancel, set_active_cancel, clear_active_cancel, consume_cancel_flag,
}
use go_acp_server.Server.Proc.{Proc, ret, step, now, ◌>>=◌, ◌>>◌, read, on_error, on_none, on_fault}
use go_acp_server.Tools.{tool_infos}
use go_acp_server.Tools.Invoke.{Invoker}
use go_acp_server.Updates.{write_session_info_update}
use go_acp_server.Updates.Writer.{Writer, user_message_chunk, agent_message_chunk}

-- What `handlePrompt` does with an error: a cancelled turn is answered as such.
unfoldable pub turn_failed : Writer → Raw → String → Proc (Unit {0})
turn_failed w id message = do
  flagged ← consume_cancel_flag w.session_id
  ctx_error ← read (λ s. ctx_err s w.ctx)
  if flagged || is_canceled ctx_error
      then write_result id (prompt_response "cancelled")
      else write_error id err_internal_error message

-- `session.updatedAt = t`, on the object that the map holds.
unfoldable pub touch : String → Time → Server → Server
touch session_id t s = elim (lookup session_id s.sessions) [
  | none ↦ s
  | some session ↦ record s {
    sessions = insert session_id (record session { updated_at = t }) s.sessions;
  }
]

unfoldable pub title_of : String → Server → String
title_of session_id s = elim (lookup session_id s.sessions) [
  | none ↦ ""
  | some session ↦ trim_space session.title
]

-- The update of the session after a reply: its new time and its title, as they are written.
unfoldable pub touch_session : Host → String → Proc (String × String)
touch_session h session_id =
    now λ t. step (touch session_id t) λ s. ret (format_time h t, title_of session_id s)

-- From the last check of the cancel flag to the answer.
unfoldable pub finish_turn : Writer → Raw → String → String → Proc (Unit {0})
finish_turn w id title updated_at = do
  flagged ← consume_cancel_flag w.session_id
  if flagged
      then write_result id (prompt_response "cancelled")
      else write_session_info_update w.session_id title updated_at
        >> write_result id (prompt_response "end_turn")

-- The reply is sent as one chunk if the executor has sent none.
unfoldable pub send_reply : Writer → Raw → String → Bool → String → String → Proc (Unit {0})
send_reply w id reply chunk_emitted title updated_at =
    if not (is_blank reply) && not chunk_emitted
    then agent_message_chunk w reply >>= (λ s.
      on_fault s.error (λ e. turn_failed w id ("failed to emit agent_message_chunk: " ^^ e))
        (finish_turn w id title updated_at))
    else finish_turn w id title updated_at

-- The executor's turn and what follows it.
unfoldable pub run_executor : Config → Invoker → Writer → Raw → Turn → Proc (Unit {0})
run_executor c i w id turn = do
  (result, chunk_emitted) ← perform i w turn false
  on_error result (λ e. turn_failed w id ("prompt failed: " ^^ e))
      λ reply. do
        (updated_at, title) ← touch_session c.host w.session_id
        send_reply w id reply chunk_emitted title updated_at

-- What the turn takes from the session under its lock: a copy, and the tools for the capabilities.
unfoldable pub snapshot_session : Config → String → Proc (SessionSnapshot × Invoker)
snapshot_session c session_id =
    step (λ s. s)
      λ s.
        let snapshot : SessionSnapshot = elim (lookup session_id s.sessions) [
          | none ↦ record { cwd = ""; mcp_servers = [] }
          | some session ↦ record { cwd = session.cwd; mcp_servers = session.mcp_servers }
        ] in
        ret (
          snapshot,
          record {
            host = c.host;
            session_id = session_id;
            cwd = snapshot.cwd;
            caps = s.client_caps;
          },
        )

-- `handlePrompt` from the snapshot on.
unfoldable pub run_turn : Config → Writer → Raw → List ContentBlock → Proc (Unit {0})
run_turn c w id blocks = do
  (snapshot, i) ← snapshot_session c w.session_id
  failed ← emit_session_context_updates w snapshot (tool_infos i.caps)
  on_fault failed (λ e. turn_failed w id ("failed to emit session context updates: " ^^ e))
      (run_executor c i w id (
        c.stream_reply (with_session_runtime_context w.ctx w.session_id snapshot)
          (clone_content_blocks blocks) (tool_infos i.caps)))

-- `handlePrompt` from the user's message on.
unfoldable pub open_turn : Config → Writer → Raw → List ContentBlock → Proc (Unit {0})
open_turn c w id blocks =
    let text = extract_prompt_text blocks in
    if is_blank text
    then run_turn c w id blocks
    else user_message_chunk w text >>= (λ s.
      on_fault s.error (λ e. turn_failed w id ("failed to emit user_message_chunk: " ^^ e))
        (run_turn c w id blocks))

abbrev pub is_empty : List ContentBlock → Bool
is_empty [] = true
is_empty (b ∷ bs) = false

-- `handlePrompt` from its test of the cancel flag on; the context is ended by no one at the end.
unfoldable pub start_turn : Config → Raw → PromptRequest → Proc (Unit {0})
start_turn c id args = do
  flagged ← consume_cancel_flag args.session_id
  if flagged then write_result id (prompt_response "cancelled") else do
    ctx ← with_cancel
    set_active_cancel args.session_id ctx
    open_turn c (record { session_id = args.session_id; ctx = ctx }) id args.prompt
    clear_active_cancel args.session_id

-- handlePrompt
unfoldable pub handle_prompt : Config → Message → Proc (Unit {0})
handle_prompt c req =
    on_error (decode_params c.host decode_prompt req.params)
      (λ e. write_error req.id err_invalid_params e)
      λ args. do
        session ← read (λ s. lookup args.session_id s.sessions)
        on_none session
            (write_error req.id err_invalid_params ("unknown session '" ^^ args.session_id ^^ "'"))
            λ _.
              if is_empty args.prompt
              then write_error req.id err_invalid_params
                  "prompt must include at least one content block"
              else start_turn c req.id args
