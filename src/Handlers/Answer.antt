-- ===== src/Handlers/Answer.antt =====
-- The answers of the handlers of request_handlers.go.
use go_acp_server.Base.{String, ◌&&◌, not, none, some, refl, ◌==◌}
use go_acp_server.Go.FilePath.{is_abs}
use go_acp_server.Go.Text.{trim_space, is_blank}
use go_acp_server.Config.{Config, decode_params}
use go_acp_server.Handlers.{
  handle_initialize, handle_authenticate, method_of, handle_method, handle_request,
  handle_notification, Method, initialize, authenticate, session_new, session_load, session_list,
  session_prompt,
}
use go_acp_server.Handlers.Sessions.{
  create_session, handle_new_session, load_session, handle_load_session, handle_list_sessions,
}
use go_acp_server.Prompt.Answer.{handle_prompt-Owes}
use go_acp_server.Protocol.{
  Message, McpServer, decode_initialize, decode_authenticate, decode_cancel, decode_new_session,
  decode_load_session, decode_list_sessions,
}
use go_acp_server.Server.Answers.{normalize_id}
use go_acp_server.Server.Owes.{Owes, Quiet, Owes-after, Owes-if, Owes-on_error, Owes-on_none}
use go_acp_server.Server.Quiet.{
  write_result-Owes, write_error-Owes, clear_cancel_flag-Quiet, cancel_session-Quiet,
}
use go_acp_server.Tools.Quiet.{new_session_id-Quiet}
use go_acp_server.Base.{List, Option}

module _ (c : Config) (req : Message) where
  handle_initialize-Owes : Owes (normalize_id req.id) 1 (handle_initialize c req)
  unfolding handle_initialize
  handle_initialize-Owes =
      Owes-on_error _ 1 (decode_params c.host decode_initialize req.params) _ _
        (λ e. write_error-Owes req.id _ e)
        λ args. Owes-after _ _ _ 1 (λ j s. refl) λ _. write_result-Owes req.id _

  handle_authenticate-Owes : Owes (normalize_id req.id) 1 (handle_authenticate c req)
  unfolding handle_authenticate
  handle_authenticate-Owes =
      Owes-on_error _ 1 (decode_params c.host decode_authenticate req.params) _ _
        (λ e. write_error-Owes req.id _ e) λ args. write_result-Owes req.id _

  create_session-Owes :
      (cwd : String) (servers : List McpServer)
      → Owes (normalize_id req.id) 1 (create_session c req cwd servers)
  unfolding create_session
  create_session-Owes cwd servers = Owes-after _ _ _ 1 new_session_id-Quiet λ id.
      Owes-after _ _ _ 1 (λ j t s. refl)
        λ _. Owes-after _ _ _ 1 (clear_cancel_flag-Quiet id) λ _. write_result-Owes req.id _

  handle_new_session-Owes : Owes (normalize_id req.id) 1 (handle_new_session c req)
  unfolding handle_new_session
  handle_new_session-Owes =
      Owes-on_error _ 1 (decode_params c.host decode_new_session req.params) _ _
        (λ e. write_error-Owes req.id _ e)
        λ args. Owes-if _ 1 (args.cwd == "") _ _ (write_error-Owes req.id _ _) (
          Owes-if _ 1 (not (is_abs args.cwd)) _ _ (write_error-Owes req.id _ _)
            (create_session-Owes args.cwd args.mcp_servers))

  load_session-Owes :
      (id cwd : String) (servers : List McpServer)
      → Owes (normalize_id req.id) 1 (load_session c req id cwd servers)
  unfolding load_session
  load_session-Owes id cwd servers =
      Owes-after _ _ _ 1 (λ j s. refl)
        λ session. Owes-on_none _ 1 session _ _ (write_error-Owes req.id _ _) λ _.
          Owes-after _ _ _ 1 (λ j t s. refl)
            λ _. Owes-after _ _ _ 1 (clear_cancel_flag-Quiet id) λ _. write_result-Owes req.id _

  handle_load_session-Owes : Owes (normalize_id req.id) 1 (handle_load_session c req)
  unfolding handle_load_session
  handle_load_session-Owes =
      Owes-on_error _ 1 (decode_params c.host decode_load_session req.params) _ _
        (λ e. write_error-Owes req.id _ e)
        λ args. Owes-if _ 1 (trim_space args.session_id == "") _ _ (write_error-Owes req.id _ _) (
          Owes-if _ 1 (is_blank args.cwd) _ _ (write_error-Owes req.id _ _) (
            Owes-if _ 1 (not (is_abs args.cwd)) _ _ (write_error-Owes req.id _ _)
              (load_session-Owes (trim_space args.session_id) args.cwd args.mcp_servers)))

  handle_list_sessions-Owes : Owes (normalize_id req.id) 1 (handle_list_sessions c req)
  unfolding handle_list_sessions
  handle_list_sessions-Owes =
      Owes-on_error _ 1 (decode_params c.host decode_list_sessions req.params) _ _
        (λ e. write_error-Owes req.id _ e)
        λ args.
          Owes-if _ 1 (not (trim_space args.cwd == "") && not (is_abs (trim_space args.cwd))) _ _
            (write_error-Owes req.id _ _)
            (Owes-if _ 1 (not (is_blank args.cursor)) _ _ (write_error-Owes req.id _ _)
              (Owes-after _ _ _ 1 (λ j s. refl) λ rows. write_result-Owes req.id _))

  handle_method-Owes : (m : Option Method) → Owes (normalize_id req.id) 1 (handle_method c req m)
  unfolding handle_method
  handle_method-Owes (some initialize) = handle_initialize-Owes
  handle_method-Owes (some authenticate) = handle_authenticate-Owes
  handle_method-Owes (some session_new) = handle_new_session-Owes
  handle_method-Owes (some session_load) = handle_load_session-Owes
  handle_method-Owes (some session_list) = handle_list_sessions-Owes
  handle_method-Owes (some session_prompt) = handle_prompt-Owes c req
  handle_method-Owes none = write_error-Owes req.id _ _

  -- On every path through the handler of a request, whatever the other goroutines, the client and the
  -- executor do in between, exactly one answer is written, a result or an error, and its id is the
  -- request's (`null` where that is absent).
  pub handle_request-Owes : Owes (normalize_id req.id) 1 (handle_request c req)
  unfolding handle_request
  handle_request-Owes = handle_method-Owes (method_of req.method)

  -- A notification is never answered, on no path through its handler.
  pub handle_notification-Quiet : Quiet (handle_notification c req)
  unfolding handle_notification
  handle_notification-Quiet id =
      Owes-if id 0 (req.method == "session/cancel") _ _
        (Owes-on_error id 0 (decode_params c.host decode_cancel req.params) _ _ (λ e. refl)
          λ args. cancel_session-Quiet args.session_id id)
        refl
