-- ===== src/Prompt/Context.antt =====
-- session_context.go: the metadata that travels in a prompt's context.
use go_acp_server.Base.{String, List, Option, none, some, if◌then◌else◌, ◌==◌}
use go_acp_server.Protocol.{McpServer}
use go_acp_server.Server.{Ctx}

-- sessionSnapshot of server.go
pub record SessionSnapshot : Type 0 where
  pub cwd : String
  pub mcp_servers : List McpServer

-- SessionRuntimeContext; SessionMCPServer has the fields of mcpServer.
pub record SessionRuntimeContext : Type 0 where
  pub session_id : String
  pub cwd : String
  pub mcp_servers : List McpServer

-- A context with its value at `sessionRuntimeContextKey`.
pub record PromptContext : Type 0 where
  pub ctx : Ctx
  pub value : Option SessionRuntimeContext

unfoldable pub with_session_runtime_context : Ctx → String → SessionSnapshot → PromptContext
with_session_runtime_context ctx session_id snapshot = record {
  ctx = ctx;
  value =
      some (record {
        session_id = session_id;
        cwd = snapshot.cwd;
        mcp_servers = snapshot.mcp_servers;
      });
}

abbrev checked : SessionRuntimeContext → Option SessionRuntimeContext
checked meta = if meta.session_id == "" then none else some meta

-- `none` is a nil context, and the result is `none` where the second result is false.
unfoldable pub session_runtime_context_from_context :
    Option PromptContext → Option SessionRuntimeContext
session_runtime_context_from_context none = none
session_runtime_context_from_context (some c) = elim c.value [ none ↦ none | some m ↦ checked m ]

unfoldable pub session_id_from_context : Option PromptContext → Option String
unfolding session_runtime_context_from_context
session_id_from_context c = elim (session_runtime_context_from_context c) [
  | none ↦ none
  | some meta ↦ some meta.session_id
]
