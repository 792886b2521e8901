-- ===== src/Invariants/Tools.antt =====
-- `InvokeTool` under an invariant.
use go_acp_server.Server.{Server}
use go_acp_server.Invariants.Sections.{Preserved, call_client-Keeps}
use go_acp_server.Invariants.Updates.{write_session_update_raw-Keeps}
use go_acp_server.Base.{String, Option, none, some, ◌==◌}
use go_acp_server.Go.Text.{trim_space, is_blank}
use go_acp_server.Json.{Json}
use go_acp_server.Server.{Ctx}
use go_acp_server.Server.Proc.{Result, err, ret, Proc, ◌>>=◌, on_error}
use go_acp_server.Tools.{
  Tool, fs_read_text_file, fs_write_text_file, terminal_create, terminal_output,
  terminal_wait_for_exit, terminal_kill, terminal_release, tool_of,
}
use go_acp_server.Tools.Args.{
  decode_read_args, decode_write_args, decode_create_args, no_terminal, decode_terminal_id,
}
use go_acp_server.Tools.Invoke.{
  new_session_id, Invoker, tool_args, allowed, terminal_call, run_tool, dispatch_tool, call_id,
  invoke_tool,
}
use go_acp_server.Invariants.Rules.{Keeps, Keeps-bind, Keeps-if, Keeps-on_error, Keeps-on_none}

module _ (I : Server → Type 0) (P : Preserved I) where
  pub new_session_id-Keeps : Keeps I new_session_id
  unfolding new_session_id
  new_session_id-Keeps none = λ t. tt
  new_session_id-Keeps (some bs) = tt

  module _ (i : Invoker) (ctx : Ctx) where
    -- What is made of the client's answer.
    answered-Keeps :
        {A : Type 0} (p : Proc (Result A)) (good : A → Proc (Result String))
        → Keeps I p
        → ((a : A) → Keeps I (good a))
        → Keeps I (p >>= λ answer. on_error answer (λ e. ret (err e)) good)
    answered-Keeps p good h k =
        Keeps-bind I p _ h λ answer. Keeps-on_error I answer _ good (λ e. tt) k

    terminal_call-Keeps :
        {A : Type 0} (tool : Tool) (name args_json : String) (out : Option (A → Json → Option A))
        (zero : A) (show : A → String)
        → Keeps I (terminal_call i ctx tool name args_json out zero show)
    unfolding terminal_call
    terminal_call-Keeps tool name args_json out zero show =
        Keeps-on_error I (tool_args i.host name (decode_terminal_id no_terminal) args_json) _ _
          (λ e. tt)
          λ args.
            Keeps-if I (is_blank args.terminal_id) _ _ tt
              (answered-Keeps _ _ (call_client-Keeps I P i.host ctx _ _ out zero) (λ a. tt))

    run_tool-Keeps :
        (tool : Tool) (name args_json : String) → Keeps I (run_tool i ctx tool name args_json)
    unfolding run_tool
    run_tool-Keeps fs_read_text_file name args_json =
        Keeps-on_error I (tool_args i.host name decode_read_args args_json) _ _ (λ e. tt)
          λ args. Keeps-if I (is_blank args.path) _ _ tt (call_client-Keeps I P i.host ctx _ _ _ _)
    run_tool-Keeps fs_write_text_file name args_json =
        Keeps-on_error I (tool_args i.host name decode_write_args args_json) _ _ (λ e. tt)
          λ args.
            Keeps-if I (is_blank args.path) _ _ tt
              (answered-Keeps _ _ (call_client-Keeps I P i.host ctx _ _ _ _) (λ a. tt))
    run_tool-Keeps terminal_create name args_json =
        Keeps-on_error I (tool_args i.host name decode_create_args args_json) _ _ (λ e. tt)
          λ args.
            Keeps-if I (is_blank args.command) _ _ tt
              (answered-Keeps _ _ (call_client-Keeps I P i.host ctx _ _ _ _) (λ a. tt))
    run_tool-Keeps terminal_output name args_json = terminal_call-Keeps _ name args_json _ _ _
    run_tool-Keeps terminal_wait_for_exit name args_json =
        terminal_call-Keeps _ name args_json _ _ _
    run_tool-Keeps terminal_kill name args_json = terminal_call-Keeps _ name args_json _ _ _
    run_tool-Keeps terminal_release name args_json = terminal_call-Keeps _ name args_json _ _ _

    dispatch_tool-Keeps : (name args_json : String) → Keeps I (dispatch_tool i ctx name args_json)
    unfolding dispatch_tool
    dispatch_tool-Keeps name args_json =
        Keeps-on_none I (tool_of name) _ _ tt
          λ tool. Keeps-if I (allowed i.caps tool) _ _ (run_tool-Keeps tool name args_json) tt

    call_id-Keeps : (tool_call_id : String) → Keeps I (call_id tool_call_id)
    unfolding call_id
    call_id-Keeps tool_call_id =
        Keeps-if I (trim_space tool_call_id == "") _ _ (new_session_id-Keeps) tt

    pub invoke_tool-Keeps :
        (tool_call_id name args_json : String)
        → Keeps I (invoke_tool i ctx tool_call_id name args_json)
    unfolding invoke_tool
    invoke_tool-Keeps tool_call_id name args_json =
        Keeps-bind I _ _ (call_id-Keeps tool_call_id) λ call.
          Keeps-bind I _ _ (write_session_update_raw-Keeps I i.session_id _) λ _.
            Keeps-bind I _ _ (dispatch_tool-Keeps name args_json)
              λ result. Keeps-bind I _ _ (write_session_update_raw-Keeps I i.session_id _) λ _. tt
