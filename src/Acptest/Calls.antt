-- ===== src/Acptest/Calls.antt =====
-- The methods of `Driver` that wait or write, as trees of atomic actions.
use go_acp_server.Base.{ℕ, ◌+◌, String, List, [], ◌∷◌, Option, none, some, if◌then◌else◌}
use go_acp_server.Acptest.Driver.{
  ClientReply, Env, Chan, Driver, as_int64, bump_id, queue_of, first_reply, take_reply,
  set_current_session, await_response, forget_response, is_request, waiting, numbered, take_line,
  send_response,
}
use go_acp_server.Acptest.Payload.{
  as_map, value_at, Message, RpcId, own, id_key, line_message, messages_in_range,
}
use go_acp_server.Acptest.Turn.{Exchange, Turn, string_value, parse_turn}
use go_acp_server.Go.Numbers.{ℤ, decimal_int}
use go_acp_server.Go.Text.{◌^^◌, is_blank}
use go_acp_server.Json.{Json, num, str, array, object}
use go_acp_server.Server.Encode.{error_json}
use go_acp_server.Server.Proc.{Result, ok, err}

pub data Stopped : Type 0 where
  timed_out context_done : Stopped

-- A goroutine of the test: a critical section, a line written to the server, a wait in `Do`. A write
-- waits on an `io.Pipe`, without a timer or a context, until the server has read the line: it is the
-- action at which it returns, and a write that waits is one that has not been run yet.
pub data Act (A : Type 0) : Type 0 where
  ret : A → Act A
  step : (Driver → Driver) → (Driver → Act A) → Act A
  write : Json → (Option String → Act A) → Act A
  wait : Chan → (Message → Act A) → (Stopped → Act A) → Act A

infixl 5 ◌>>=◌ ◌>>◌
unfoldable pub ◌>>=◌ : {A B : Type 0} → Act A → (A → Act B) → Act B
ret a >>= g = g a
step f k >>= g = step f (λ d. k d >>= g)
write v k >>= g = write v (λ r. k r >>= g)
wait ch k x >>= g = wait ch (λ m. k m >>= g) (λ r. x r >>= g)

abbrev pub ◌>>◌ : {A B : Type 0} → Act A → Act B → Act B
p >> q = p >>= λ _. q

abbrev pub look : {A : Type 0} → (Driver → A) → Act A
look f = step (λ d. d) (λ d. ret (f d))

abbrev pub change : (Driver → Driver) → Act (Unit {0})
change f = step f (λ _. ret tt)

-- What `Do` returns: an exchange, an exchange whose answer is an error, or no exchange.
pub data Done : Type 0 where
  answered : Exchange → Done
  refused : Exchange → String → Done
  failed : String → Done

unfoldable pub request_json : RpcId → String → Json → Json
request_json (own n) method params =
    object
      (("id", num n) ∷ ("jsonrpc", str "2.0") ∷ ("method", str method) ∷ ("params", params) ∷ [])
request_json (RpcId.decoded v) method params =
    object (("id", v) ∷ ("jsonrpc", str "2.0") ∷ ("method", str method) ∷ ("params", params) ∷ [])

abbrev pub id_text : RpcId → String
id_text (own n) = decimal_int n
id_text _ = ""

-- The error of an answer, as `Do` reports it.
unfoldable pub report : Env → Exchange → Done
report env ex = elim ex.response.error [
  | none ↦ answered ex
  | some e ↦ refused ex (
      "json-rpc error code="
      ^^ env.show (value_at "code" e)
      ^^ " message="
      ^^ env.show (value_at "message" e))
]

-- `Do` from the answer on.
unfoldable pub collect : Env → RpcId → ℕ → Message → Act Done
unfolding report
collect env id start_seq response =
    look (λ d. messages_in_range d.messages (start_seq + 1) response.seq) >>= λ msgs.
    ret (report env (record { request_id = id; messages = msgs; response = response }))

unfoldable pub give_up : String → RpcId → String → Stopped → Act Done
give_up method id key timed_out =
    change (forget_response key)
    >> ret (failed ("timeout waiting response for method " ^^ method ^^ " id=" ^^ id_text id))
give_up method id key context_done = ret (failed "context canceled")

-- `Do` from the write on.
unfoldable pub send_request : Env → RpcId → String → String → Json → ℕ → Act Done
unfolding collect give_up request_json
send_request env id key method params start_seq = write (request_json id method params) λ fault.
    elim fault [
      | some e ↦ change (forget_response key) >> ret (failed e)
      | none ↦
          wait (record { key = key; start_seq = start_seq }) (collect env id start_seq)
            (give_up method id key)
    ]

-- Do
unfoldable pub do_request : Env → String → Json → Act Done
unfolding send_request
do_request env method params = step bump_id λ before.
    let id = own (as_int64 before.next_id) in
    let key = id_key env.host env.float64 id in
    step (await_response key) λ d.
      if d.closed
      then ret (failed "driver is closed")
      else send_request env id key method params d.seq

unfoldable pub reply_json : Json → ClientReply → Json
unfolding error_json
reply_json id reply = elim reply.error [
  | some e ↦
      object (("error", error_json e.code e.message) ∷ ("id", id) ∷ ("jsonrpc", str "2.0") ∷ [])
  | none ↦ object (("id", id) ∷ ("jsonrpc", str "2.0") ∷ ("result", reply.result) ∷ [])
]

-- The reply of the handler, or else the next one of the queue.
unfoldable pub handled_or_queued : Option ClientReply → String → Act ClientReply
handled_or_queued (some reply) method = ret reply
handled_or_queued none method = step (take_reply method) λ d. ret (first_reply (queue_of method d))

-- resolveClientReply; whether it was handled is not used.
unfoldable pub resolve_client_reply : Env → Message → Act ClientReply
resolve_client_reply env req = handled_or_queued (env.client_handler req) req.method

-- replyToClientRequest
unfoldable pub reply_to_client_request : Env → Message → Act (Unit {0})
unfolding reply_json
reply_to_client_request env req =
    resolve_client_reply env req >>= λ reply. write (reply_json req.id reply) λ _. ret tt

unfoldable pub deliver : Option Chan → Message → Act (Unit {0})
deliver none msg = ret tt
deliver (some ch) msg = change (send_response ch msg)

-- One round of `readLoop`.
unfoldable pub read_line : Env → String → Act (Unit {0})
read_line env line =
    let msg = line_message env.host line in
    step (take_line env msg) λ d.
      (if is_request msg then reply_to_client_request env (numbered msg d) else ret tt)
      >> deliver (waiting env msg d) (numbered msg d)

-- Initialize; a nil map of capabilities is left out.
unfoldable pub initialize : Env → ℤ → Option Json → Act Done
initialize env version caps = do_request env "initialize" (elim caps [
  | none ↦ object (("protocolVersion", num version) ∷ [])
  | some c ↦ object (("clientCapabilities", c) ∷ ("protocolVersion", num version) ∷ [])
])

abbrev pub new_session_params : String → List Json → Json
new_session_params cwd [] = object (("cwd", str cwd) ∷ [])
new_session_params cwd (m ∷ ms) = object (("cwd", str cwd) ∷ ("mcpServers", array (m ∷ ms)) ∷ [])

-- NewSession returns the id, which it remembers, or an error.
unfoldable pub session_made : Exchange → Act (Result String)
session_made ex = elim (as_map (some ex.response.result)) [
  | none ↦ ret (err "session/new missing result object")
  | some result ↦
      let session_id = string_value result "sessionId" in
      if is_blank session_id
      then ret (err "session/new missing sessionId")
      else change (set_current_session session_id) >> ret (ok session_id)
]

unfoldable pub new_session : Env → String → List Json → Act (Result String)
unfolding session_made
new_session env cwd servers =
    do_request env "session/new" (new_session_params cwd servers) >>= λ done. elim done [
      | failed e ↦ ret (err e)
      | refused ex e ↦ ret (err e)
      | answered ex ↦ session_made ex
    ]

-- Prompt
unfoldable pub prompt : Env → String → List Json → Act (Result Turn)
prompt env session_id blocks =
    do_request env "session/prompt"
      (object (("prompt", array blocks) ∷ ("sessionId", str session_id) ∷ []))
    >>= λ done. elim done [
      | failed e ↦ ret (err e)
      | refused ex e ↦ ret (err e)
      | answered ex ↦ ret (ok (parse_turn ex session_id))
    ]

-- PromptCurrent and PromptTextCurrent
unfoldable pub prompt_current : Env → List Json → Act (Result Turn)
prompt_current env blocks = look (λ d. d.current_session_id) >>= λ session_id.
    if is_blank session_id
    then ret (err "current session is empty")
    else prompt env session_id blocks

unfoldable pub prompt_text_current : Env → String → Act (Result Turn)
prompt_text_current env text =
    prompt_current env (object (("text", str text) ∷ ("type", str "text") ∷ []) ∷ [])

-- What `Close` waits for: an error value of a goroutine, nil among them, or nothing in time.
pub data Ended : Type 0 where
  clean cancelled eof late : Ended
  fault : String → Ended

-- The end of `Close`, by what the server and the read loop have sent.
unfoldable pub close_error : Ended → Ended → Option String
close_error (fault e) r = some e
close_error eof r = some "EOF"
close_error late r = some "timeout waiting for server stop"
close_error _ (fault e) = some e
close_error _ late = some "timeout waiting for read loop stop"
close_error _ _ = none
