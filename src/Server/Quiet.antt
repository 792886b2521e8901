-- ===== src/Server/Quiet.antt =====
-- Answers and the parts of the server that are no answers: cancellation, and `callClient`.
use go_acp_server.Base.{String, Option, none, some, refl, ◌==◌, lookup}
use go_acp_server.Go.Host.{Host}
use go_acp_server.Go.Numbers.{ℤ}
use go_acp_server.Json.{Json, Raw}
use go_acp_server.Json.Decode.{Decoder}
use go_acp_server.Protocol.{Message}
use go_acp_server.Server.{Ctx}
use go_acp_server.Server.Answers.{normalize_id, write_result, write_error}
use go_acp_server.Server.Cancel.{
  cancel_session, with_cancel, set_active_cancel, clear_active_cancel, clear_cancel_flag,
  consume_cancel_flag,
}
use go_acp_server.Server.Owes.{Owes, Quiet, Quiet-bind, Owes-if, Owes-on_none}
use go_acp_server.Server.Pending.{
  next_request_id, register_pending_response, unregister_pending_response, handle_client_response,
  exchange, call_client, rpc_id_key,
}

pub write_result-Owes : (id : Raw) (r : Json) → Owes (normalize_id id) 1 (write_result id r)
unfolding write_result
write_result-Owes id r = (refl, 0, refl, λ _. refl)

pub write_error-Owes :
    (id : Raw) (code : ℤ) (text : String) → Owes (normalize_id id) 1 (write_error id code text)
unfolding write_error
write_error-Owes id code text = (refl, 0, refl, λ _. refl)

pub cancel_session-Quiet : (session_id : String) → Quiet (cancel_session session_id)
unfolding cancel_session
cancel_session-Quiet session_id id s =
    Owes-on_none id 0 (lookup session_id s.active_cancels) _ _ refl (λ ctx s1. refl)

pub with_cancel-Quiet : Quiet with_cancel
unfolding with_cancel
with_cancel-Quiet id s = refl

pub set_active_cancel-Quiet :
    (session_id : String) (ctx : Ctx) → Quiet (set_active_cancel session_id ctx)
unfolding set_active_cancel
set_active_cancel-Quiet session_id ctx id s = refl

pub clear_active_cancel-Quiet : (session_id : String) → Quiet (clear_active_cancel session_id)
unfolding clear_active_cancel
clear_active_cancel-Quiet session_id id s = refl

pub clear_cancel_flag-Quiet : (session_id : String) → Quiet (clear_cancel_flag session_id)
unfolding clear_cancel_flag
clear_cancel_flag-Quiet session_id id s = refl

pub consume_cancel_flag-Quiet : (session_id : String) → Quiet (consume_cancel_flag session_id)
unfolding consume_cancel_flag
consume_cancel_flag-Quiet session_id id s = refl

pub handle_client_response-Quiet : (h : Host) (msg : Message) → Quiet (handle_client_response h msg)
unfolding handle_client_response
handle_client_response-Quiet h msg id = Owes-if id 0 (rpc_id_key h msg.id == "") _ _ refl (λ s.
    Owes-on_none id 0 (lookup (rpc_id_key h msg.id) s.pending_responses) _ _ refl (λ ch s1. refl))

module _ {A : Type 0} (h : Host) (ctx : Ctx) (method : String) (params : Json)
    (out : Option (Decoder A)) (zero : A) where
  exchange-Quiet : (req_id : String) → Quiet (exchange h ctx method params out zero req_id)
  unfolding exchange
  exchange-Quiet req_id id none = (λ msg. refl, λ e. refl)
  exchange-Quiet req_id id (some e) = refl

  pub call_client-Quiet : Quiet (call_client h ctx method params out zero)
  unfolding call_client next_request_id register_pending_response unregister_pending_response
  call_client-Quiet = Quiet-bind _ _ next λ req_id. Quiet-bind _ _ (registered req_id) λ _.
      Quiet-bind _ _ (exchange-Quiet req_id)
        λ answer. Quiet-bind _ _ (unregistered req_id) λ _ id. refl
    where
      next : Quiet next_request_id
      next id s = refl

      registered : (req_id : String) → Quiet (register_pending_response req_id)
      registered req_id id s = refl

      unregistered : (req_id : String) → Quiet (unregister_pending_response req_id)
      unregistered req_id id s = refl
