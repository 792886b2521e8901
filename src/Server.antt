-- ===== src/Server.antt =====
-- The state of `Server` (server.go) that its mutexes guard, with the writer, the contexts and the
-- channels that its goroutines share. Each is a value here; a critical section is one update.
pub mod Proc
pub mod Cancel
pub mod Pending
pub mod Answers
pub mod Owes
pub mod Quiet
pub mod Alone
pub mod Writes
pub mod Encode
pub mod Solo
use go_acp_server.Base.{ℕ, String, Bool, List, [], Option, none}
use go_acp_server.Json.{Json, Raw}
use go_acp_server.Go.Numbers.{ℤ}
use go_acp_server.Protocol.{Message, ClientCapabilities, McpServer, no_capabilities}

-- What `rpcWriter.write` puts on the wire: the four outgoing structs of protocol.go. An absent id of
-- an answer is written as `null`; an absent `params` is left out.
pub data Line : Type 0 where
  success : Json → Json → Line
  failure : Json → ℤ → String → Line
  request : String → String → Json → Line
  notification : String → Json → Line

-- time.Time, in nanoseconds from its zero value.
abbrev pub Time : Type 0
Time = ℕ

-- A context of the program, by number: 0 is the one that `Serve` is called with.
abbrev pub Ctx : Type 0
Ctx = ℕ

pub data CtxError : Type 0 where
  canceled deadline_exceeded : CtxError

-- sessionState
pub record Session : Type 0 where
  pub cwd : String
  pub title : String
  pub mcp_servers : List McpServer
  pub updated_at : Time

pub record Server : Type 0 where
  pub sessions : List (String × Session)
  pub client_caps : ClientCapabilities
  pub cancel_flags : List (String × Bool)
  pub active_cancels : List (String × Ctx)
  pub request_id_counter : ℕ
  -- A channel of capacity one is named by the request id that it waits for.
  pub pending_responses : List (String × String)
  pub early_responses : List (String × Message)
  -- What has been sent on each channel and not yet received.
  pub channels : List (String × Message)
  -- The contexts that are done and why, and the number of the next one.
  pub done : List (Ctx × CtxError)
  pub next_ctx : Ctx

-- rpcWriter: the lines written, newest last, and the error that the buffered writer keeps. Only
-- `write` uses it, under its own mutex.
pub record Wire : Type 0 where
  pub lines : List Line
  pub error : Option String

-- newRPCWriter
abbrev pub new_wire : Wire
new_wire = record { lines = []; error = none }

-- NewServer; context 0 is the caller's.
unfoldable pub new_server : Server
new_server = record {
  sessions = [];
  client_caps = no_capabilities;
  cancel_flags = [];
  active_cancels = [];
  request_id_counter = 0;
  pending_responses = [];
  early_responses = [];
  channels = [];
  done = [];
  next_ctx = 1;
}
