-- ===== src/Tools/Quiet.antt =====
-- `InvokeTool` and the answers to the client.
use go_acp_server.Base.{String, Option, none, some, refl, ◌==◌}
use go_acp_server.Go.Text.{trim_space, is_blank}
use go_acp_server.Json.{Json}
use go_acp_server.Server.{Ctx}
use go_acp_server.Server.Owes.{Quiet, Quiet-bind, Owes-if, Owes-on_error, Owes-on_none}
use go_acp_server.Server.Proc.{Result, err, ret, Proc, ◌>>=◌, on_error}
use go_acp_server.Server.Quiet.{call_client-Quiet}
use go_acp_server.Updates.Quiet.{write_session_update_raw-Quiet}
use go_acp_server.Tools.{
  Tool, fs_read_text_file, fs_write_text_file, terminal_create, terminal_output,
  terminal_wait_for_exit, terminal_kill, terminal_release, tool_of,
}
use go_acp_server.Tools.Args.{
  decode_read_args, decode_write_args, decode_create_args, no_terminal, decode_terminal_id,
}
use go_acp_server.Tools.Invoke.{
  new_session_id, Invoker, tool_args, allowed, terminal_call, run_tool, dispatch_tool, call_id,
  invoke_tool,
}

pub new_session_id-Quiet : Quiet new_session_id
unfolding new_session_id
new_session_id-Quiet id none = λ t. refl
new_session_id-Quiet id (some bs) = refl

module _ (i : Invoker) (ctx : Ctx) where
  -- What is made of the client's answer.
  answered-Quiet :
      {A : Type 0} (p : Proc (Result A)) (good : A → Proc (Result String))
      → Quiet p
      → ((a : A) → Quiet (good a))
      → Quiet (p >>= λ answer. on_error answer (λ e. ret (err e)) good)
  answered-Quiet p good h k =
      Quiet-bind p _ h λ answer id. Owes-on_error id 0 answer _ good (λ e. refl) (λ a. k a id)

  terminal_call-Quiet :
      {A : Type 0} (tool : Tool) (name args_json : String) (out : Option (A → Json → Option A))
      (zero : A) (show : A → String)
      → Quiet (terminal_call i ctx tool name args_json out zero show)
  unfolding terminal_call
  terminal_call-Quiet tool name args_json out zero show id =
      Owes-on_error id 0 (tool_args i.host name (decode_terminal_id no_terminal) args_json) _ _
        (λ e. refl)
        λ args.
          Owes-if id 0 (is_blank args.terminal_id) _ _ refl
            (answered-Quiet _ _ (call_client-Quiet i.host ctx _ _ out zero) (λ a j. refl) id)

  run_tool-Quiet :
      (tool : Tool) (name args_json : String) → Quiet (run_tool i ctx tool name args_json)
  unfolding run_tool
  run_tool-Quiet fs_read_text_file name args_json id =
      Owes-on_error id 0 (tool_args i.host name decode_read_args args_json) _ _ (λ e. refl)
        λ args. Owes-if id 0 (is_blank args.path) _ _ refl (call_client-Quiet i.host ctx _ _ _ _ id)
  run_tool-Quiet fs_write_text_file name args_json id =
      Owes-on_error id 0 (tool_args i.host name decode_write_args args_json) _ _ (λ e. refl)
        λ args.
          Owes-if id 0 (is_blank args.path) _ _ refl
            (answered-Quiet _ _ (call_client-Quiet i.host ctx _ _ _ _) (λ a j. refl) id)
  run_tool-Quiet terminal_create name args_json id =
      Owes-on_error id 0 (tool_args i.host name decode_create_args args_json) _ _ (λ e. refl)
        λ args.
          Owes-if id 0 (is_blank args.command) _ _ refl
            (answered-Quiet _ _ (call_client-Quiet i.host ctx _ _ _ _) (λ a j. refl) id)
  run_tool-Quiet terminal_output name args_json id = terminal_call-Quiet _ name args_json _ _ _ id
  run_tool-Quiet terminal_wait_for_exit name args_json id =
      terminal_call-Quiet _ name args_json _ _ _ id
  run_tool-Quiet terminal_kill name args_json id = terminal_call-Quiet _ name args_json _ _ _ id
  run_tool-Quiet terminal_release name args_json id = terminal_call-Quiet _ name args_json _ _ _ id

  dispatch_tool-Quiet : (name args_json : String) → Quiet (dispatch_tool i ctx name args_json)
  unfolding dispatch_tool
  dispatch_tool-Quiet name args_json id =
      Owes-on_none id 0 (tool_of name) _ _ refl
        λ tool. Owes-if id 0 (allowed i.caps tool) _ _ (run_tool-Quiet tool name args_json id) refl

  call_id-Quiet : (tool_call_id : String) → Quiet (call_id tool_call_id)
  unfolding call_id
  call_id-Quiet tool_call_id id =
      Owes-if id 0 (trim_space tool_call_id == "") _ _ (new_session_id-Quiet id) refl

  pub invoke_tool-Quiet :
      (tool_call_id name args_json : String) → Quiet (invoke_tool i ctx tool_call_id name args_json)
  unfolding invoke_tool
  invoke_tool-Quiet tool_call_id name args_json =
      Quiet-bind _ _ (call_id-Quiet tool_call_id) λ call.
        Quiet-bind _ _ (write_session_update_raw-Quiet i.session_id _) λ _.
          Quiet-bind _ _ (dispatch_tool-Quiet name args_json)
            λ result. Quiet-bind _ _ (write_session_update_raw-Quiet i.session_id _) λ _ id. refl
