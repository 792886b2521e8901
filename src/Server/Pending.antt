-- ===== src/Server/Pending.antt =====
-- Requests to the client and their answers (server.go and `handleClientResponse` of
-- request_handlers.go). The lines for the logger are left out.
pub mod Delivery
pub mod Ids
use mathlib.Core.Option
use go_acp_server.Base.{
  ℕ, ◌+◌, ◌%◌, ◌^◌, String, Bool, true, false, List, [], ◌∷◌, Option, none, some, if◌then◌else◌,
  lookup, insert, delete, ◌==◌,
}
use go_acp_server.Go.Text.{◌^^◌}
use go_acp_server.Go.Numbers.{decimal, decimal_int}
use go_acp_server.Go.Host.{Host}
use go_acp_server.Json.{Json, null, bool, num, float, str, arr, obj, Raw}
use go_acp_server.Json.Decode.{Decoder}
use go_acp_server.Protocol.{Message, RpcError}
use go_acp_server.Server.{Server, Ctx, CtxError, request}
use go_acp_server.Server.Cancel.{ctx_error_text}
use go_acp_server.Server.Proc.{
  Result, ok, err, Proc, ret, step, emit, await, ◌>>=◌, ◌>>◌, modify, on_none, on_fault,
}

-- The counter is a uint64.
unfoldable pub request_id : ℕ → String
request_id n = "acp-client-" ^^ decimal n

abbrev pub next_counter : Server → ℕ
next_counter s = (s.request_id_counter + 1) % 2 ^ 64

unfoldable pub next_request_id : Proc String
next_request_id =
    step (λ s. record s { request_id_counter = next_counter s })
      λ s. ret (request_id (next_counter s))

-- `ch <- msg`. A channel is sent to once: its entry of `pendingResponses` is deleted first.
unfoldable pub send : String → Message → Server → Server
send ch msg s = record s { channels = insert ch msg s.channels }

-- The channel is new, so nothing is on it.
unfoldable pub register : String → Server → Server
unfolding send
register id s =
    let key = "s:" ^^ id in
    let fresh = record s { channels = delete id s.channels } in
    elim (lookup key s.early_responses) [
      | none ↦ record fresh { pending_responses = insert key id s.pending_responses }
      | some early ↦ send id early (record fresh { early_responses = delete key s.early_responses })
    ]

unfoldable pub register_pending_response : String → Proc (Unit {0})
register_pending_response id = modify (register id)

unfoldable pub unregister_pending_response : String → Proc (Unit {0})
unregister_pending_response id =
    modify λ s. record s { pending_responses = delete ("s:" ^^ id) s.pending_responses }

unfoldable pub rpc_id_key : Host → Raw → String
rpc_id_key h none = ""
rpc_id_key h (some (str s)) = "s:" ^^ s
rpc_id_key h (some (num n)) = "n:" ^^ h.format_g (num n)
rpc_id_key h (some (float t)) = "n:" ^^ h.format_g (float t)
rpc_id_key h (some (bool true)) = "b:true"
rpc_id_key h (some (bool false)) = "b:false"
rpc_id_key h (some v) = "j:" ^^ h.marshal v

-- The section of `handleClientResponse` under the mutex.
unfoldable pub accept : String → Message → Server → Server
accept key msg s = elim (lookup key s.pending_responses) [
  | some ch ↦ record s { pending_responses = delete key s.pending_responses }
  | none ↦ record s { early_responses = insert key msg s.early_responses }
]

unfoldable pub handle_client_response : Host → Message → Proc (Unit {0})
handle_client_response h msg =
    let key = rpc_id_key h msg.id in
    if key == ""
    then ret tt
    else step (accept key msg)
        λ s. on_none (lookup key s.pending_responses) (ret tt) λ ch. modify (send ch msg)

-- json.Unmarshal of the result of an answer.
unfoldable pub decoded : {A : Type 0} → Host → String → Json → Option A → Result A
decoded h method v (some a) = ok a
decoded h method v none =
    err ("client method " ^^ method ^^ " returned invalid result: " ^^ h.type_error method v)

-- `out` is nil where the result is not wanted; an absent result and `null` leave it as it is.
unfoldable pub read_result : {A : Type 0} → Host → String → Option (Decoder A) → A → Raw → Result A
unfolding decoded
read_result h method none zero r = ok zero
read_result h method (some decode) zero none = ok zero
read_result h method (some decode) zero (some null) = ok zero
read_result h method (some decode) zero (some v) = decoded h method v (decode zero v)

-- What `callClient` makes of the answer.
unfoldable pub client_result :
    {A : Type 0} → Host → String → Option (Decoder A) → A → Message → Result A
unfolding read_result
client_result h method out zero msg = elim msg.error [
  | some e ↦
      err ("client method " ^^ method ^^ " failed: (" ^^ decimal_int e.code ^^ ") " ^^ e.message)
  | none ↦ read_result h method out zero msg.result
]

-- The write and the wait of `callClient`.
unfoldable pub exchange :
    {A : Type 0} → Host → Ctx → String → Json → Option (Decoder A) → A → String → Proc (Result A)
exchange h ctx method params out zero id = emit (request id method params) λ failed.
    on_fault failed (λ e. ret (err e))
      (await id ctx (λ msg. ret (client_result h method out zero msg))
        (λ e. ret (err (ctx_error_text e))))

unfoldable pub call_client :
    {A : Type 0} → Host → Ctx → String → Json → Option (Decoder A) → A → Proc (Result A)
call_client h ctx method params out zero = do
  id ← next_request_id
  register_pending_response id
  answer ← exchange h ctx method params out zero id
  unregister_pending_response id
  ret answer
