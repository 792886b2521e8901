-- ===== src/Invariants/Sections.antt =====
-- The critical sections of the server, as the interface that an invariant fills, and the parts of
-- the server that only cancel or exchange messages with the client.
use go_acp_server.Base.{suc, String, Bool, true, List, Option, ◌≡◌, ◌==◌, lookup, delete}
use go_acp_server.Go.FilePath.{is_abs}
use go_acp_server.Go.Numbers.{ℤ}
use go_acp_server.Go.Host.{Host}
use go_acp_server.Go.Text.{◌^^◌}
use go_acp_server.Handlers.Sessions.{add_session, rebind_session}
use go_acp_server.Invariants.Rules.{Keeps, Keeps-bind, Keeps-if, Keeps-on_none, Keeps-on_fault}
use go_acp_server.Json.{Json, Raw}
use go_acp_server.Json.Decode.{Decoder}
use go_acp_server.Prompt.Turn.{touch}
use go_acp_server.Protocol.{Message, McpServer, ClientCapabilities}
use go_acp_server.Server.{Server, Ctx, CtxError, Time, canceled}
use go_acp_server.Server.Answers.{write_result, write_error}
use go_acp_server.Server.Cancel.{
  end_ctx, cancel_session, with_cancel, set_active_cancel, clear_active_cancel, clear_cancel_flag,
  consume_cancel_flag,
}
use go_acp_server.Server.Pending.{
  next_counter, next_request_id, send, register, register_pending_response,
  unregister_pending_response, accept, rpc_id_key, handle_client_response, exchange, call_client,
}

-- Each critical section keeps the invariant; a session's directory has been found to be absolute.
pub record Preserved (I : Server → Type 0) : Type 0 where
  pub counts : (s : Server) → I s → I (record s { request_id_counter = next_counter s })
  pub registers : (id : String) (s : Server) → I s → I (register id s)
  pub unregisters :
      (id : String) (s : Server)
      → I s
      → I (record s { pending_responses = delete ("s:" ^^ id) s.pending_responses })
  pub accepts : (key : String) (msg : Message) (s : Server) → I s → I (accept key msg s)
  pub sends : (ch : String) (msg : Message) (s : Server) → I s → I (send ch msg s)
  pub receives : (ch : String) (s : Server) → I s → I (record s { channels = delete ch s.channels })
  pub flags : (fs : List (String × Bool)) (s : Server) → I s → I (record s { cancel_flags = fs })
  pub cancels : (cs : List (String × Ctx)) (s : Server) → I s → I (record s { active_cancels = cs })
  pub ends : (c : Ctx) (e : CtxError) (s : Server) → I s → I (end_ctx c e s)
  pub opens : (s : Server) → I s → I (record s { next_ctx = suc s.next_ctx })
  pub learns : (c : ClientCapabilities) (s : Server) → I s → I (record s { client_caps = c })
  pub adds :
      (id cwd : String) (ms : List McpServer) (t : Time) (s : Server)
      → is_abs cwd ≡ true
      → I s
      → I (add_session id cwd ms t s)
  pub rebinds :
      (id cwd : String) (ms : List McpServer) (t : Time) (s : Server)
      → is_abs cwd ≡ true
      → I s
      → I (rebind_session id cwd ms t s)
  pub touches : (id : String) (t : Time) (s : Server) → I s → I (touch id t s)

module _ (I : Server → Type 0) (P : Preserved I) where
  pub write_result-Keeps : (id : Raw) (r : Json) → Keeps I (write_result id r)
  unfolding write_result
  write_result-Keeps id r _ = tt

  pub write_error-Keeps : (id : Raw) (code : ℤ) (text : String) → Keeps I (write_error id code text)
  unfolding write_error
  write_error-Keeps id code text _ = tt

  pub cancel_session-Keeps : (session_id : String) → Keeps I (cancel_session session_id)
  unfolding cancel_session
  cancel_session-Keeps session_id s i = (
    P.flags _ s i,
    Keeps-on_none I (lookup session_id s.active_cancels) _ _ tt
        (λ ctx s1 i1. (P.ends ctx canceled s1 i1, tt)),
  )

  pub with_cancel-Keeps : Keeps I with_cancel
  unfolding with_cancel
  with_cancel-Keeps s i = (P.opens s i, tt)

  pub set_active_cancel-Keeps :
      (session_id : String) (ctx : Ctx) → Keeps I (set_active_cancel session_id ctx)
  unfolding set_active_cancel
  set_active_cancel-Keeps session_id ctx s i = (P.cancels _ s i, tt)

  pub clear_active_cancel-Keeps : (session_id : String) → Keeps I (clear_active_cancel session_id)
  unfolding clear_active_cancel
  clear_active_cancel-Keeps session_id s i = (P.cancels _ s i, tt)

  pub clear_cancel_flag-Keeps : (session_id : String) → Keeps I (clear_cancel_flag session_id)
  unfolding clear_cancel_flag
  clear_cancel_flag-Keeps session_id s i = (P.flags _ s i, tt)

  pub consume_cancel_flag-Keeps : (session_id : String) → Keeps I (consume_cancel_flag session_id)
  unfolding consume_cancel_flag
  consume_cancel_flag-Keeps session_id s i = (P.flags _ s i, tt)

  pub handle_client_response-Keeps :
      (h : Host) (msg : Message) → Keeps I (handle_client_response h msg)
  unfolding handle_client_response
  handle_client_response-Keeps h msg = Keeps-if I (rpc_id_key h msg.id == "") _ _ tt λ s i. (
    P.accepts _ msg s i,
    Keeps-on_none I (lookup (rpc_id_key h msg.id) s.pending_responses) _ _ tt
        (λ ch s1 i1. (P.sends ch msg s1 i1, tt)),
  )

  module _ {A : Type 0} (h : Host) (ctx : Ctx) (method : String) (params : Json)
      (out : Option (Decoder A)) (zero : A) where
    pub call_client-Keeps : Keeps I (call_client h ctx method params out zero)
    unfolding call_client next_request_id register_pending_response unregister_pending_response
        exchange
    call_client-Keeps =
        Keeps-bind I _ _ (λ s i. (P.counts s i, tt))
          λ id.
            Keeps-bind I _ _ (λ s i. (P.registers id s i, tt))
              λ _.
                Keeps-bind I _ _ (λ r. Keeps-on_fault I r _ _ (λ e. tt) (λ m. tt, λ e. tt))
                  λ _. Keeps-bind I _ _ (λ s i. (P.unregisters id s i, tt)) λ _. tt
