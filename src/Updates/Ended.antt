-- ===== src/Updates/Ended.antt =====
-- The update writer of a prompt whose context is done.
use go_acp_server.Base.{Bool, true, false, some, ◌≡◌, refl, if◌then◌else◌}
use go_acp_server.Go.Text.{is_blank}
use go_acp_server.Server.{Server, CtxError}
use go_acp_server.Server.Alone.{alone}
use go_acp_server.Server.Cancel.{ctx_err, ctx_error_text}
use go_acp_server.Server.Proc.{Proc, ret, ◌>>=◌}
use go_acp_server.Updates.Writer.{
  Sent, sent, not_sent, Writer, assert_context, send_update, unless, user_message_chunk,
  agent_message_chunk, agent_thought_chunk, plan, available_commands, current_mode, config_options,
  raw, UpdateCall, user_message, agent_message, agent_thought, plan_entries, commands, mode,
  options, raw_update, call_writer,
}

module _ (s : Server) where
  -- The call changes nothing, writes nothing and reports no agent text.
  abbrev pub SendsNothing : Proc Sent → Type 0
  SendsNothing p = (r : Sent) × (alone p s ≡ some (s, r)) × (r.agent_text ≡ false)

  returns : (r : Sent) → r.agent_text ≡ false → SendsNothing (ret r)
  returns r h = (r, refl, h)

  SendsNothing-if :
      (b : Bool) (p q : Proc Sent)
      → SendsNothing p
      → SendsNothing q
      → SendsNothing (if b then p else q)
  SendsNothing-if true p q h k = h
  SendsNothing-if false p q h k = k

  module _ (w : Writer) (e : CtxError) (over : ctx_err s w.ctx ≡ some e) where
    guarded : (p : Proc Sent) → SendsNothing (assert_context w >>= λ failed. unless failed p)
    unfolding assert_context ◌>>=◌
    guarded p = (not_sent (ctx_error_text e), rw (over, alone) refl, refl)

    -- Once its context is done, no method of the writer writes an update or says that it has sent the
    -- agent's text, whatever its arguments.
    pub call_writer-SendsNothing : (call : UpdateCall) → SendsNothing (call_writer w call)
    unfolding call_writer user_message_chunk agent_message_chunk agent_thought_chunk plan
        available_commands current_mode config_options raw send_update
    call_writer-SendsNothing (user_message text) =
        SendsNothing-if (is_blank text) _ _ (returns sent refl) (guarded _)
    call_writer-SendsNothing (agent_message text) =
        SendsNothing-if (is_blank text) _ _ (returns sent refl) (guarded _)
    call_writer-SendsNothing (agent_thought text) =
        SendsNothing-if (is_blank text) _ _ (returns sent refl) (guarded _)
    call_writer-SendsNothing (plan_entries entries) = guarded _
    call_writer-SendsNothing (commands cs) = guarded _
    call_writer-SendsNothing (mode mode_id) =
        SendsNothing-if (is_blank mode_id) _ _ (returns (not_sent _) refl) (guarded _)
    call_writer-SendsNothing (options os) = guarded _
    call_writer-SendsNothing (raw_update u) = guarded _
