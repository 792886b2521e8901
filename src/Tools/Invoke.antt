-- ===== src/Tools/Invoke.antt =====
-- `runtimeToolInvoker` of tool_invoker.go, and `newSessionID` of server.go.
use go_acp_server.Base.{String, Bool, [], ◌∷◌, Option, none, some, if◌then◌else◌, ◌==◌}
use go_acp_server.Go.Text.{◌^^◌, trim_space, is_blank}
use go_acp_server.Go.Numbers.{decimal, hex}
use go_acp_server.Go.FilePath.{is_abs, clean, join_path}
use go_acp_server.Go.Host.{Host}
use go_acp_server.Json.{Json, null, str, array, object}
use go_acp_server.Protocol.{ClientCapabilities}
use go_acp_server.Server.{Ctx}
use go_acp_server.Server.Pending.{call_client}
use go_acp_server.Server.Proc.{
  Result, ok, err, Proc, ret, random, now, ◌>>=◌, ◌>>◌, on_error, on_none,
}
use go_acp_server.Updates.{write_session_update_raw}
use go_acp_server.Tools.{
  Tool, fs_read_text_file, fs_write_text_file, terminal_create, terminal_output,
  terminal_wait_for_exit, terminal_kill, terminal_release, tool_of, client_method,
}
use go_acp_server.Tools.Args.{
  decode_read_args, decode_write_args, decode_create_args, no_terminal, decode_terminal_id,
  read_request, write_request, create_request, terminal_request, decode_content, no_exit,
  decode_exit, exit_json, no_output, decode_output, output_json,
}

unfoldable pub new_session_id : Proc String
new_session_id = random λ bytes. elim bytes [
  | some bs ↦ ret ("eino-" ^^ hex bs)
  | none ↦ now λ t. ret ("eino-" ^^ decimal t)
]

pub record Invoker : Type 0 where
  pub host : Host
  pub session_id : String
  pub cwd : String
  pub caps : ClientCapabilities

unfoldable pub resolve_path : String → String → String
resolve_path cwd path =
    let trimmed = trim_space path in
    if trimmed == ""
    then trimmed
    else if is_abs trimmed
    then clean trimmed
    else clean (join_path cwd trimmed)

-- decodeJSONValue
unfoldable pub decode_json_value : Host → String → Json
decode_json_value h raw =
    if is_blank raw then null else elim (h.parse raw) [ none ↦ str raw | some v ↦ v ]

unfoldable pub text_tool_call_content : String → Json
text_tool_call_content text = array (
    object (
      ("content", object (("text", str text) ∷ ("type", str "text") ∷ []))
      ∷ ("type", str "content")
      ∷ [])
    ∷ [])

-- json.Unmarshal of the arguments
unfoldable pub tool_args : {A : Type 0} → Host → String → (Json → Option A) → String → Result A
tool_args h name decode text = elim (h.parse text) [
  | none ↦ err ("invalid args for " ^^ name ^^ ": " ^^ h.syntax_error text)
  | some v ↦ elim (decode v) [
    | none ↦ err ("invalid args for " ^^ name ^^ ": " ^^ h.type_error name v)
    | some a ↦ ok a
  ]
]

-- Whether the client's capabilities allow a tool.
abbrev pub allowed : ClientCapabilities → Tool → Bool
allowed caps fs_read_text_file = caps.fs.read_text_file
allowed caps fs_write_text_file = caps.fs.write_text_file
allowed caps _ = caps.terminal

abbrev capability_name : Tool → String
capability_name fs_read_text_file = "fs.readTextFile"
capability_name fs_write_text_file = "fs.writeTextFile"
capability_name _ = "terminal"

unfoldable pub not_available : String → Tool → String
not_available name tool =
    "tool " ^^ name ^^ " is not available: " ^^ capability_name tool ^^ " not supported by client"

abbrev ok_text : String
ok_text = "{\"ok\":true}"

-- The calls of the four tools that act on one terminal.
unfoldable pub terminal_call :
    {A : Type 0}
    → Invoker
    → Ctx
    → Tool
    → String
    → String
    → Option (A → Json → Option A)
    → A
    → (A → String)
    → Proc (Result String)
terminal_call i ctx tool name args_json out zero show =
    on_error (tool_args i.host name (decode_terminal_id no_terminal) args_json) (λ e. ret (err e))
      λ args. if is_blank args.terminal_id then ret (err "terminalId is required") else do
        answer ←
            call_client i.host ctx (client_method tool)
              (terminal_request i.session_id args.terminal_id) out zero
        on_error answer (λ e. ret (err e)) λ a. ret (ok (show a))

-- One case of the switch, behind its test of the capabilities.
unfoldable pub run_tool : Invoker → Ctx → Tool → String → String → Proc (Result String)
run_tool i ctx fs_read_text_file name args_json =
    on_error (tool_args i.host name decode_read_args args_json) (λ e. ret (err e))
      λ args.
        if is_blank args.path
        then ret (err "path is required")
        else call_client i.host ctx "fs/read_text_file"
            (read_request i.session_id (resolve_path i.cwd args.path) args.line args.limit)
            (some decode_content) ""
run_tool i ctx fs_write_text_file name args_json =
    on_error (tool_args i.host name decode_write_args args_json) (λ e. ret (err e))
      λ args. if is_blank args.path then ret (err "path is required") else do
        answer ←
            call_client {A = Unit {0}} i.host ctx "fs/write_text_file"
              (write_request i.session_id (resolve_path i.cwd args.path) args.content) none tt
        on_error answer (λ e. ret (err e)) λ _. ret (ok ok_text)
run_tool i ctx terminal_create name args_json =
    on_error (tool_args i.host name decode_create_args args_json) (λ e. ret (err e))
      λ args. if is_blank args.command then ret (err "command is required") else do
        answer ←
            call_client i.host ctx "terminal/create"
              (create_request i.session_id args.command args.args
                (if is_blank args.cwd then none else some (resolve_path i.cwd args.cwd)))
              (some decode_terminal_id) no_terminal
        on_error answer (λ e. ret (err e))
            λ out. ret (ok (i.host.marshal (object (("terminalId", str out.terminal_id) ∷ []))))
run_tool i ctx terminal_output name args_json =
    terminal_call i ctx terminal_output name args_json (some decode_output) no_output
      λ out. i.host.marshal (output_json out)
run_tool i ctx terminal_wait_for_exit name args_json =
    terminal_call i ctx terminal_wait_for_exit name args_json (some decode_exit) no_exit
      λ out. i.host.marshal (exit_json out)
run_tool i ctx terminal_kill name args_json =
    terminal_call {A = Unit {0}} i ctx terminal_kill name args_json none tt λ _. ok_text
run_tool i ctx terminal_release name args_json =
    terminal_call {A = Unit {0}} i ctx terminal_release name args_json none tt λ _. ok_text

-- invokeTool
unfoldable pub dispatch_tool : Invoker → Ctx → String → String → Proc (Result String)
dispatch_tool i ctx name args_json =
    on_none (tool_of name) (ret (err ("unknown tool: " ^^ name))) λ tool.
      if allowed i.caps tool
      then run_tool i ctx tool name args_json
      else ret (err (not_available name tool))

unfoldable pub tool_call_started : Host → String → String → String → Json
tool_call_started h id name args_json = object (
    ("rawInput", decode_json_value h args_json)
    ∷ ("sessionUpdate", str "tool_call")
    ∷ ("status", str "in_progress")
    ∷ ("title", str name)
    ∷ ("toolCallId", str id)
    ∷ [])

unfoldable pub tool_call_ended : Host → String → Result String → Json
tool_call_ended h id (err e) = object (
    ("content", text_tool_call_content e)
    ∷ ("sessionUpdate", str "tool_call_update")
    ∷ ("status", str "failed")
    ∷ ("toolCallId", str id)
    ∷ [])
tool_call_ended h id (ok result) = object (
    ("content", text_tool_call_content result)
    ∷ ("rawOutput", decode_json_value h result)
    ∷ ("sessionUpdate", str "tool_call_update")
    ∷ ("status", str "completed")
    ∷ ("toolCallId", str id)
    ∷ [])

-- The id that a call goes by: a new one where the executor gives none.
unfoldable pub call_id : String → Proc String
call_id tool_call_id =
    let trimmed = trim_space tool_call_id in if trimmed == "" then new_session_id else ret trimmed

-- InvokeTool
unfoldable pub invoke_tool : Invoker → Ctx → String → String → String → Proc (Result String)
invoke_tool i ctx tool_call_id name args_json = do
  id ← call_id tool_call_id
  write_session_update_raw i.session_id (tool_call_started i.host id name args_json)
  result ← dispatch_tool i ctx name args_json
  write_session_update_raw i.session_id (tool_call_ended i.host id result)
  ret result
