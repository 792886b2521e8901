-- ===== src/Acptest/Driver.antt =====
-- The state of `Driver` in acptest/driver.go, and the operations that are one critical section. What
-- is given when a driver is made stands in `Env`; the pipes and the two goroutines that `NewDriver`
-- starts belong to the schedule (Acptest/System).
use go_acp_server.Base.{
  ℕ, suc, ◌+◌, ◌-◌, ◌%◌, ◌^◌, String, Bool, true, false, not, ◌&&◌, List, [], ◌∷◌, ◌++◌, Option,
  none, some, if◌then◌else◌, ◌==◌, ltb, lookup, insert, delete,
}
use go_acp_server.Acptest.Payload.{Float64, Message, decoded, id_key, is_nil}
use go_acp_server.Go.Host.{Host}
use go_acp_server.Go.Numbers.{ℤ, pos, negsuc}
use go_acp_server.Go.Text.{trim_space}
use go_acp_server.Json.{Json, null}
use go_acp_server.Protocol.{RpcError}

pub record ClientReply : Type 0 where
  pub result : Json
  pub error : Option RpcError

pub record Env : Type 0 where
  pub host : Host
  pub float64 : Float64
  -- "%v" of a value of type any
  pub show : Json → String
  -- WithClientHandler; `none` is handled=false
  pub client_handler : Message → Option ClientReply

-- A channel of capacity one: it is named by the key that it is registered under, and by how many lines
-- had been read then.
pub record Chan : Type 0 where
  pub key : String
  pub start_seq : ℕ

pub record Driver : Type 0 where
  pub seq : ℕ
  pub messages : List Message
  -- The channel of a key, by its second name.
  pub pending : List (String × ℕ)
  -- An int of 64 bits, by its bits.
  pub next_id : ℕ
  pub current_session_id : String
  pub client_queues : List (String × List ClientReply)
  pub closed : Bool
  -- What has been sent; each channel is read once.
  pub channels : List (Chan × Message)

-- NewDriver
unfoldable pub new_driver : Driver
new_driver = record {
  seq = 0;
  messages = [];
  pending = [];
  next_id = 1;
  current_session_id = "";
  client_queues = [];
  closed = false;
  channels = [];
}

-- WithTimeout, over the timeout before, in nanoseconds
unfoldable pub with_timeout : ℤ → ℤ → ℤ
with_timeout (pos (suc n)) old = pos (suc n)
with_timeout _ old = old

abbrev pub default_request_timeout : ℤ
default_request_timeout = pos 5_000_000_000

-- The int that the counter's bits stand for.
unfoldable pub as_int64 : ℕ → ℤ
as_int64 n = if ltb n (2 ^ 63) then pos n else negsuc (2 ^ 64 - 1 - n)

-- nextRequestID, which returns the number before
unfoldable pub bump_id : Driver → Driver
bump_id d = record d { next_id = (d.next_id + 1) % 2 ^ 64 }

-- QueueClientReply
abbrev pub listed : Option (List ClientReply) → List ClientReply
listed none = []
listed (some queue) = queue

abbrev pub queue_of : String → Driver → List ClientReply
queue_of method d = listed (lookup method d.client_queues)

unfoldable pub queue_client_reply : String → ClientReply → Driver → Driver
queue_client_reply method reply d = record d {
  client_queues = insert method (queue_of method d ++ reply ∷ []) d.client_queues;
}

-- QueueClientResult and QueueClientError
unfoldable pub queue_client_result : String → Json → Driver → Driver
unfolding queue_client_reply
queue_client_result method result =
    queue_client_reply method (record { result = result; error = none })

unfoldable pub queue_client_error : String → ℤ → String → Driver → Driver
unfolding queue_client_reply
queue_client_error method code message =
    queue_client_reply method
      (record { result = null; error = some (record { code = code; message = message }) })

-- The head of a queue and the rest, or the default reply.
abbrev pub first_reply : List ClientReply → ClientReply
first_reply [] = record { result = null; error = none }
first_reply (reply ∷ queue) = reply

unfoldable pub drop_reply : String → List ClientReply → Driver → Driver
drop_reply method [] d = d
drop_reply method (reply ∷ queue) d = record d {
  client_queues = insert method queue d.client_queues;
}

-- The last section of `resolveClientReply`: the reply and the state.
unfoldable pub take_reply : String → Driver → Driver
unfolding drop_reply
take_reply method d = drop_reply method (queue_of method d) d

-- SetCurrentSession
unfoldable pub set_current_session : String → Driver → Driver
set_current_session session_id d = record d { current_session_id = trim_space session_id }

-- The flag that `Close` sets.
unfoldable pub mark_closed : Driver → Driver
mark_closed d = record d { closed = true }

-- The section of `Do` in which it registers; a closed driver is left as it is.
unfoldable pub await_response : String → Driver → Driver
await_response key d = if d.closed then d else record d { pending = insert key d.seq d.pending }

unfoldable pub forget_response : String → Driver → Driver
forget_response key d = record d { pending = delete key d.pending }

abbrev pub is_request : Message → Bool
is_request msg = not (msg.method == "") && not (is_nil msg.id)

abbrev pub is_response : Message → Bool
is_response msg = msg.method == "" && not (is_nil msg.id)

abbrev pub chan_of : String → Option ℕ → Option Chan
chan_of key none = none
chan_of key (some start_seq) = some (record { key = key; start_seq = start_seq })

-- The channel that a line is for, if it is an answer that is waited for.
unfoldable pub waiting : Env → Message → Driver → Option Chan
waiting env msg d =
    let key = id_key env.host env.float64 (decoded msg.id) in
    if is_response msg then chan_of key (lookup key d.pending) else none

-- The message with its number.
abbrev pub numbered : Message → Driver → Message
numbered msg d = record msg { seq = d.seq + 1 }

abbrev pub without : Option Chan → List (String × ℕ) → List (String × ℕ)
without none pending = pending
without (some ch) pending = delete ch.key pending

-- The section of `readLoop`.
unfoldable pub take_line : Env → Message → Driver → Driver
unfolding waiting
take_line env msg d = record d {
  seq = d.seq + 1;
  messages = d.messages ++ numbered msg d ∷ [];
  pending = without (waiting env msg d) d.pending;
}

-- `respCh <- msg`
unfoldable pub send_response : Chan → Message → Driver → Driver
send_response ch msg d = record d { channels = d.channels ++ (ch, msg) ∷ [] }
