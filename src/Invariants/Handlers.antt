-- ===== src/Invariants/Handlers.antt =====
-- The handlers of request_handlers.go under an invariant.
use go_acp_server.Server.{Server}
use go_acp_server.Invariants.Sections.{
  Preserved, write_result-Keeps, write_error-Keeps, clear_cancel_flag-Keeps, cancel_session-Keeps,
}
use go_acp_server.Invariants.Tools.{new_session_id-Keeps}
use go_acp_server.Invariants.Prompt.{handle_prompt-Keeps}
use go_acp_server.Base.{String, ◌&&◌, not, none, some, ◌==◌, ◌≡◌, true, arith}
use go_acp_server.Go.FilePath.{is_abs}
use go_acp_server.Go.Text.{trim_space, is_blank}
use go_acp_server.Config.{Config, decode_params}
use go_acp_server.Handlers.{
  handle_initialize, handle_authenticate, method_of, handle_method, handle_request,
  handle_notification, Method, initialize, authenticate, session_new, session_load, session_list,
  session_prompt,
}
use go_acp_server.Handlers.Sessions.{
  create_session, handle_new_session, load_session, handle_load_session, handle_list_sessions,
}
use go_acp_server.Protocol.{
  Message, McpServer, decode_initialize, decode_authenticate, decode_cancel, decode_new_session,
  decode_load_session, decode_list_sessions,
}
use go_acp_server.Base.{List, Option}
use go_acp_server.Invariants.Rules.{
  Keeps, Keeps-bind, Keeps-if, Keeps-unless, Keeps-on_error, Keeps-on_none,
}

module _ (I : Server → Type 0) (P : Preserved I) where
  module _ (c : Config) (req : Message) where
    handle_initialize-Keeps : Keeps I (handle_initialize c req)
    unfolding handle_initialize
    handle_initialize-Keeps =
        Keeps-on_error I (decode_params c.host decode_initialize req.params) _ _
          (λ e. write_error-Keeps I P req.id _ e)
          λ args.
            Keeps-bind I _ _ (λ s i. (P.learns _ s i, tt)) λ _. write_result-Keeps I P req.id _

    handle_authenticate-Keeps : Keeps I (handle_authenticate c req)
    unfolding handle_authenticate
    handle_authenticate-Keeps =
        Keeps-on_error I (decode_params c.host decode_authenticate req.params) _ _
          (λ e. write_error-Keeps I P req.id _ e) λ args. write_result-Keeps I P req.id _

    create_session-Keeps :
        (cwd : String) (servers : List McpServer)
        → is_abs cwd ≡ true
        → Keeps I (create_session c req cwd servers)
    unfolding create_session
    create_session-Keeps cwd servers h = Keeps-bind I _ _ (new_session_id-Keeps I P) λ id.
        Keeps-bind I _ _ (λ t s i. (P.adds id cwd servers t s h i, tt))
          λ _.
            Keeps-bind I _ _ (clear_cancel_flag-Keeps I P id) λ _. write_result-Keeps I P req.id _

    handle_new_session-Keeps : Keeps I (handle_new_session c req)
    unfolding handle_new_session
    handle_new_session-Keeps =
        Keeps-on_error I (decode_params c.host decode_new_session req.params) _ _
          (λ e. write_error-Keeps I P req.id _ e)
          λ args. Keeps-if I (args.cwd == "") _ _ (write_error-Keeps I P req.id _ _) (
            Keeps-unless I (not (is_abs args.cwd)) _ _ (write_error-Keeps I P req.id _ _)
              λ h. create_session-Keeps args.cwd args.mcp_servers (ground (arith, h)))

    load_session-Keeps :
        (id cwd : String) (servers : List McpServer)
        → is_abs cwd ≡ true
        → Keeps I (load_session c req id cwd servers)
    unfolding load_session
    load_session-Keeps id cwd servers h =
        Keeps-bind I _ _ (λ s i. (i, tt))
          λ session. Keeps-on_none I session _ _ (write_error-Keeps I P req.id _ _) λ _.
            Keeps-bind I _ _ (λ t s i. (P.rebinds id cwd servers t s h i, tt))
              λ _.
                Keeps-bind I _ _ (clear_cancel_flag-Keeps I P id)
                  λ _. write_result-Keeps I P req.id _

    handle_load_session-Keeps : Keeps I (handle_load_session c req)
    unfolding handle_load_session
    handle_load_session-Keeps =
        Keeps-on_error I (decode_params c.host decode_load_session req.params) _ _
          (λ e. write_error-Keeps I P req.id _ e)
          λ args.
            Keeps-if I (trim_space args.session_id == "") _ _ (write_error-Keeps I P req.id _ _) (
              Keeps-if I (is_blank args.cwd) _ _ (write_error-Keeps I P req.id _ _) (
                Keeps-unless I (not (is_abs args.cwd)) _ _ (write_error-Keeps I P req.id _ _) λ h.
                  load_session-Keeps (trim_space args.session_id) args.cwd args.mcp_servers
                    (ground (arith, h))))

    handle_list_sessions-Keeps : Keeps I (handle_list_sessions c req)
    unfolding handle_list_sessions
    handle_list_sessions-Keeps =
        Keeps-on_error I (decode_params c.host decode_list_sessions req.params) _ _
          (λ e. write_error-Keeps I P req.id _ e)
          λ args.
            Keeps-if I (not (trim_space args.cwd == "") && not (is_abs (trim_space args.cwd))) _ _
              (write_error-Keeps I P req.id _ _)
              (Keeps-if I (not (is_blank args.cursor)) _ _ (write_error-Keeps I P req.id _ _)
                (Keeps-bind I _ _ (λ s i. (i, tt)) λ rows. write_result-Keeps I P req.id _))

    handle_method-Keeps : (m : Option Method) → Keeps I (handle_method c req m)
    unfolding handle_method
    handle_method-Keeps (some initialize) = handle_initialize-Keeps
    handle_method-Keeps (some authenticate) = handle_authenticate-Keeps
    handle_method-Keeps (some session_new) = handle_new_session-Keeps
    handle_method-Keeps (some session_load) = handle_load_session-Keeps
    handle_method-Keeps (some session_list) = handle_list_sessions-Keeps
    handle_method-Keeps (some session_prompt) = handle_prompt-Keeps I P c req
    handle_method-Keeps none = write_error-Keeps I P req.id _ _

    pub handle_request-Keeps : Keeps I (handle_request c req)
    unfolding handle_request
    handle_request-Keeps = handle_method-Keeps (method_of req.method)

    pub handle_notification-Keeps : Keeps I (handle_notification c req)
    unfolding handle_notification
    handle_notification-Keeps =
        Keeps-if I (req.method == "session/cancel") _ _
          (Keeps-on_error I (decode_params c.host decode_cancel req.params) _ _ (λ e. tt)
            λ args. cancel_session-Keeps I P args.session_id)
          tt
