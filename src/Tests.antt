-- ===== src/Tests.antt =====
-- What the tests share: a server with a small table for the JSON texts that it is given, an executor
-- that reads a file and replies, and some states.
pub mod Schedules
pub mod Messages
pub mod Turns
pub mod Driver
pub mod Transports
use go_acp_server.Base.{String, true, false, [], ◌∷◌, Option, none, some, if◌then◌else◌, ◌==◌}
use go_acp_server.Config.{Config}
use go_acp_server.Go.Host.{Host}
use go_acp_server.Go.Numbers.{pos}
use go_acp_server.Go.Text.{◌^^◌}
use go_acp_server.Json.{Json, num, str, array, object}
use go_acp_server.Prompt.Executor.{Turn, reply, fail, invoke, check}
use go_acp_server.Protocol.{ClientCapabilities}
use go_acp_server.Serve.{Choice}
use go_acp_server.Server.{Server, Session, new_server}
use go_acp_server.Server.Proc.{ok, err}
use go_acp_server.Tools.Invoke.{Invoker}
use go_acp_server.Updates.Writer.{Writer}

abbrev pub authenticate_text : String
authenticate_text = "{\"jsonrpc\":\"2.0\",\"id\":7,\"method\":\"authenticate\"}"

abbrev pub authenticate_json : Json
authenticate_json =
    object (("jsonrpc", str "2.0") ∷ ("id", num (pos 7)) ∷ ("method", str "authenticate") ∷ [])

abbrev pub new_text : String
new_text =
    "{\"jsonrpc\":\"2.0\",\"id\":1,\"method\":\"session/new\",\"params\":{\"cwd\":\"/work\",\"mcpServers\":[]}}"

abbrev pub new_json : Json
new_json = object (
    ("jsonrpc", str "2.0")
    ∷ ("id", num (pos 1))
    ∷ ("method", str "session/new")
    ∷ ("params", object (("cwd", str "/work") ∷ ("mcpServers", array []) ∷ []))
    ∷ [])

-- The texts that the tests send.
abbrev pub parse_table : String → Option Json
parse_table text =
    if text == authenticate_text
    then some authenticate_json
    else if text == new_text
    then some new_json
    else if text == "{\"path\":\"notes.txt\"}"
    then some (object (("path", str "notes.txt") ∷ []))
    else none

abbrev pub host : Host
host = record {
  parse = parse_table;
  syntax_error = λ text. "invalid character";
  type_error = λ name v. "cannot unmarshal into " ^^ name;
  marshal = λ v. "{}";
  format_g = λ v. "7";
  rfc3339 = λ t. "2024-01-01T00:00:00Z";
}

-- Asks for a file, and replies with it.
abbrev pub reading_turn : Turn
reading_turn = check λ e.
    invoke 1 "call-1" "fs_read_text_file" "{\"path\":\"notes.txt\"}"
      λ answer. elim answer [ ok text ↦ reply text | err message ↦ fail message ]

abbrev pub config : Config
config = record {
  host = host;
  version = "1.0.0";
  stream_reply = λ context blocks infos. reading_turn;
}

abbrev pub good : Choice
good = record { write_error = none; bytes = some []; time = 0; ended_first = false }

abbrev pub reading : ClientCapabilities
reading = record {
  fs = record { read_text_file = true; write_text_file = false };
  terminal = false;
}

abbrev pub invoker : Invoker
invoker = record { host = host; session_id = "eino-1"; cwd = "/work"; caps = reading }

abbrev pub writer : Writer
writer = record { session_id = "eino-1"; ctx = 1 }

abbrev pub made : Session
made = record { cwd = "/work"; title = ""; mcp_servers = []; updated_at = 0 }

abbrev pub busy : Server
busy = record new_server {
  active_cancels = ("eino-1", 1) ∷ [];
  cancel_flags = ("eino-1", true) ∷ [];
  next_ctx = 2;
}
