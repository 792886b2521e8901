-- ===== src/Tools/Permitted.antt =====
-- What a tool call may write, and the lines of `InvokeTool`.
use go_acp_server.Base.{String, true, [], ◌∷◌, Option, none, some, ◌≡◌, refl, ◌==◌}
use go_acp_server.Go.Text.{trim_space, is_blank}
use go_acp_server.Json.{Json, str, object}
use go_acp_server.Server.{Ctx, Line, request, notification}
use go_acp_server.Server.Pending.{
  next_request_id, register_pending_response, unregister_pending_response, exchange, call_client,
}
use go_acp_server.Server.Proc.{Result, err, ret, Proc, ◌>>=◌, on_error}
use go_acp_server.Server.Writes.{
  Writes, Writes-bind, Writes-if, Writes-on_error, Writes-on_none, Writes-on_fault,
}
use go_acp_server.Updates.{write_session_update_raw}
use go_acp_server.Tools.{
  Tool, fs_read_text_file, fs_write_text_file, terminal_create, terminal_output,
  terminal_wait_for_exit, terminal_kill, terminal_release, tool_of, client_method,
}
use go_acp_server.Tools.Args.{
  decode_read_args, decode_write_args, decode_create_args, no_terminal, decode_terminal_id,
}
use go_acp_server.Tools.Invoke.{
  new_session_id, Invoker, tool_args, allowed, terminal_call, run_tool, dispatch_tool, call_id,
  invoke_tool,
}

-- A request is for the method of a tool that the client's capabilities allow; a notification is an
-- update of the invoker's session.
abbrev pub Permitted : Invoker → Line → Type 0
Permitted i (request id method params) =
    (tool : Tool) × (method ≡ client_method tool) × (allowed i.caps tool ≡ true)
Permitted i (notification method params) =
    (update : Json) × (method ≡ "session/update")
    × (params ≡ object (("sessionId", str i.session_id) ∷ ("update", update) ∷ []))
Permitted i _ = ⊥

module _ (i : Invoker) (ctx : Ctx) where
  update-Permitted : (u : Json) → Writes (Permitted i) (write_session_update_raw i.session_id u)
  unfolding write_session_update_raw
  update-Permitted u = ((u, refl, refl), λ r. tt)

  module _ (tool : Tool) (h : allowed i.caps tool ≡ true) where
    call_client-Permitted :
        {A : Type 0} (params : Json) (out : Option (A → Json → Option A)) (zero : A)
        → Writes (Permitted i) (call_client i.host ctx (client_method tool) params out zero)
    unfolding call_client next_request_id register_pending_response unregister_pending_response
        exchange
    call_client-Permitted params out zero =
        Writes-bind _ _ _ (λ s. tt)
          λ id.
            Writes-bind _ _ _ (λ s. tt)
              λ _.
                Writes-bind _ _ _
                  ((tool, refl, h), λ r. Writes-on_fault _ r _ _ (λ e. tt) (λ m. tt, λ e. tt))
                  λ _. Writes-bind _ _ _ (λ s. tt) λ _. tt

    answered-Permitted :
        {A : Type 0} (p : Proc (Result A)) (good : A → Proc (Result String))
        → Writes (Permitted i) p
        → ((a : A) → Writes (Permitted i) (good a))
        → Writes (Permitted i) (p >>= λ answer. on_error answer (λ e. ret (err e)) good)
    answered-Permitted p good hp hg =
        Writes-bind _ p _ hp λ answer. Writes-on_error _ answer _ good (λ e. tt) hg

    terminal_call-Permitted :
        {A : Type 0} (name args_json : String) (out : Option (A → Json → Option A)) (zero : A)
        (show : A → String)
        → Writes (Permitted i) (terminal_call i ctx tool name args_json out zero show)
    unfolding terminal_call
    terminal_call-Permitted name args_json out zero show =
        Writes-on_error _ (tool_args i.host name (decode_terminal_id no_terminal) args_json) _ _
          (λ e. tt)
          λ args.
            Writes-if _ (is_blank args.terminal_id) _ _ (λ _. tt)
              λ _. answered-Permitted _ _ (call_client-Permitted _ out zero) (λ a. tt)

  run_tool-Permitted :
      (tool : Tool) (name args_json : String)
      → allowed i.caps tool ≡ true
      → Writes (Permitted i) (run_tool i ctx tool name args_json)
  unfolding run_tool
  run_tool-Permitted fs_read_text_file name args_json h =
      Writes-on_error _ (tool_args i.host name decode_read_args args_json) _ _ (λ e. tt)
        λ args.
          Writes-if _ (is_blank args.path) _ _ (λ _. tt)
            λ _. call_client-Permitted fs_read_text_file h _ _ _
  run_tool-Permitted fs_write_text_file name args_json h =
      Writes-on_error _ (tool_args i.host name decode_write_args args_json) _ _ (λ e. tt)
        λ args.
          Writes-if _ (is_blank args.path) _ _ (λ _. tt)
            λ _.
              answered-Permitted fs_write_text_file h _ _
                (call_client-Permitted fs_write_text_file h _ _ _) (λ a. tt)
  run_tool-Permitted terminal_create name args_json h =
      Writes-on_error _ (tool_args i.host name decode_create_args args_json) _ _ (λ e. tt)
        λ args.
          Writes-if _ (is_blank args.command) _ _ (λ _. tt)
            λ _.
              answered-Permitted terminal_create h _ _
                (call_client-Permitted terminal_create h _ _ _) (λ a. tt)
  run_tool-Permitted terminal_output name args_json h =
      terminal_call-Permitted terminal_output h name args_json _ _ _
  run_tool-Permitted terminal_wait_for_exit name args_json h =
      terminal_call-Permitted terminal_wait_for_exit h name args_json _ _ _
  run_tool-Permitted terminal_kill name args_json h =
      terminal_call-Permitted terminal_kill h name args_json _ _ _
  run_tool-Permitted terminal_release name args_json h =
      terminal_call-Permitted terminal_release h name args_json _ _ _

  dispatch_tool-Permitted :
      (name args_json : String) → Writes (Permitted i) (dispatch_tool i ctx name args_json)
  unfolding dispatch_tool
  dispatch_tool-Permitted name args_json = Writes-on_none _ (tool_of name) _ _ tt λ tool _.
      Writes-if _ (allowed i.caps tool) _ _ (run_tool-Permitted tool name args_json) (λ _. tt)

  new_session_id-Permitted : Writes (Permitted i) new_session_id
  unfolding new_session_id
  new_session_id-Permitted none = λ t. tt
  new_session_id-Permitted (some bs) = tt

  call_id-Permitted : (tool_call_id : String) → Writes (Permitted i) (call_id tool_call_id)
  unfolding call_id
  call_id-Permitted tool_call_id =
      Writes-if _ (trim_space tool_call_id == "") _ _ (λ _. new_session_id-Permitted) (λ _. tt)

  -- Whatever its name and arguments, a tool call writes only requests for methods that the client's
  -- capabilities allow and updates of its own session, and so no answer.
  pub invoke_tool-Permitted :
      (tool_call_id name args_json : String)
      → Writes (Permitted i) (invoke_tool i ctx tool_call_id name args_json)
  unfolding invoke_tool
  invoke_tool-Permitted tool_call_id name args_json =
      Writes-bind _ _ _ (call_id-Permitted tool_call_id) λ call.
        Writes-bind _ _ _ (update-Permitted _) λ _.
          Writes-bind _ _ _ (dispatch_tool-Permitted name args_json)
            λ result. Writes-bind _ _ _ (update-Permitted _) λ _. tt
