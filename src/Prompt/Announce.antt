-- ===== src/Prompt/Announce.antt =====
-- What `handlePrompt` takes from the request and says before the executor runs: the text of the prompt
-- and the updates of `emitSessionContextUpdates` (request_handlers.go).
use go_acp_server.Base.{
  String, List, [], ◌∷◌, Option, none, some, map, if◌then◌else◌, ◌==◌, lookup, insert,
}
use go_acp_server.Go.Text.{trim_space, join}
use go_acp_server.Go.Sort.{sort_by}
use go_acp_server.Json.{bool, str, array}
use go_acp_server.Json.Decode.{as_string}
use go_acp_server.Protocol.{ContentBlock, McpServer, ClientCapabilities}
use go_acp_server.Prompt.Context.{SessionSnapshot}
use go_acp_server.Server.Proc.{Proc, ret, ◌>>=◌, read, on_fault}
use go_acp_server.Tools.{RuntimeToolInfo}
use go_acp_server.Updates.{AvailableCommandUpdate, SessionConfigOptionUpdate}
use go_acp_server.Updates.Writer.{Writer, Sent, available_commands, current_mode, config_options}

abbrev text_of : ContentBlock → List String → List String
text_of block rest =
    let text = trim_space (as_string (lookup "text" block)) in
    if as_string (lookup "type" block) == "text"
    then (if text == "" then rest else text ∷ rest)
    else rest

unfoldable pub prompt_lines : List ContentBlock → List String
prompt_lines [] = []
prompt_lines (block ∷ blocks) = text_of block (prompt_lines blocks)

-- extractPromptText
unfoldable pub extract_prompt_text : List ContentBlock → String
unfolding prompt_lines
extract_prompt_text blocks = join "\n" (prompt_lines blocks)

-- cloneContentBlocks
unfoldable pub clone_block : ContentBlock → ContentBlock → ContentBlock
clone_block clone [] = clone
clone_block clone ((k, v) ∷ ms) = clone_block (insert k v clone) ms

unfoldable pub clone_content_blocks : List ContentBlock → List ContentBlock
unfolding clone_block
clone_content_blocks [] = []
clone_content_blocks (block ∷ blocks) = clone_block [] block ∷ clone_content_blocks blocks

-- The commands of available_commands_update, for tools in the order of their names.
unfoldable pub commands_of : List RuntimeToolInfo → List AvailableCommandUpdate
commands_of [] = []
commands_of (info ∷ infos) =
    let name = trim_space info.name in
    let desc = trim_space info.desc in
    if name == ""
    then commands_of infos
    else record {
      name = name;
      description = if desc == "" then "ACP runtime tool" else desc;
      input = none;
    }
      ∷ commands_of infos

unfoldable pub mcp_names : List McpServer → List String
mcp_names [] = []
mcp_names (m ∷ ms) =
    let name = trim_space m.name in if name == "" then mcp_names ms else name ∷ mcp_names ms

unfoldable pub session_configs :
    SessionSnapshot → ClientCapabilities → List SessionConfigOptionUpdate
unfolding mcp_names
session_configs snapshot caps =
    record {
      name = "cwd";
      description = "Current working directory for this session";
      category = "runtime";
      value = some (str snapshot.cwd);
    }
    ∷ record {
      name = "mcp_servers";
      description = "Bound MCP server names in this session";
      category = "runtime";
      value = some (array (map str (sort_by (λ s. s) (mcp_names snapshot.mcp_servers))));
    }
    ∷ record {
      name = "fs_read_text_file_enabled";
      description = "Whether ACP client supports fs/read_text_file";
      category = "capability";
      value = some (bool caps.fs.read_text_file);
    }
    ∷ record {
      name = "fs_write_text_file_enabled";
      description = "Whether ACP client supports fs/write_text_file";
      category = "capability";
      value = some (bool caps.fs.write_text_file);
    }
    ∷ record {
      name = "terminal_enabled";
      description = "Whether ACP client supports terminal/* methods";
      category = "capability";
      value = some (bool caps.terminal);
    }
    ∷ []

-- `if err := p; err != nil { return err }; rest`
abbrev pub and_then : Proc Sent → Proc (Option String) → Proc (Option String)
and_then p rest = p >>= λ s. on_fault s.error (λ e. ret (some e)) rest

-- emitSessionContextUpdates
unfoldable pub emit_session_context_updates :
    Writer → SessionSnapshot → List RuntimeToolInfo → Proc (Option String)
emit_session_context_updates w snapshot infos = and_then (current_mode w "default") (
    and_then (available_commands w (commands_of (sort_by (λ i. i.name) infos))) (
      read (λ s. s.client_caps) >>= λ caps.
      config_options w (session_configs snapshot caps) >>= λ s. ret s.error))
