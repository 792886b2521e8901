-- ===== src/Handlers.antt =====
-- The handlers of request_handlers.go but for `handlePrompt`, and the two that dispatch on the method.
pub mod Sessions
pub mod Answer
pub mod Listing
pub mod Direct
use go_acp_server.Base.{String, Option, none, some, if◌then◌else◌, ◌==◌}
use go_acp_server.Go.Text.{◌^^◌, is_blank}
use go_acp_server.Config.{Config, decode_params}
use go_acp_server.Protocol.{Message, decode_initialize, decode_authenticate, decode_cancel}
use go_acp_server.Protocol.Replies.{initialize_response, empty_response}
use go_acp_server.Prompt.Turn.{handle_prompt}
use go_acp_server.Server.Answers.{
  write_result, write_error, err_invalid_params, err_method_not_found,
}
use go_acp_server.Server.Cancel.{cancel_session}
use go_acp_server.Server.Proc.{Proc, ret, ◌>>=◌, ◌>>◌, modify, on_error}
use Sessions.{handle_new_session, handle_load_session, handle_list_sessions}

unfoldable pub build_version : String → String
build_version version = if is_blank version then "dev" else version

unfoldable pub handle_initialize : Config → Message → Proc (Unit {0})
handle_initialize c req =
    on_error (decode_params c.host decode_initialize req.params)
      (λ e. write_error req.id err_invalid_params e)
      λ args. do
        modify λ s. record s { client_caps = args.client_capabilities }
        write_result req.id (initialize_response (build_version c.version))

unfoldable pub handle_authenticate : Config → Message → Proc (Unit {0})
handle_authenticate c req =
    on_error (decode_params c.host decode_authenticate req.params)
      (λ e. write_error req.id err_invalid_params e) λ _. write_result req.id empty_response

-- The cases of the switch of `handleRequest`.
pub data Method : Type 0 where
  initialize authenticate session_new session_load session_list session_prompt : Method

-- `switch req.Method`
unfoldable pub method_of : String → Option Method
method_of name =
    if name == "initialize"
    then some initialize
    else if name == "authenticate"
    then some authenticate
    else if name == "session/new"
    then some session_new
    else if name == "session/load"
    then some session_load
    else if name == "session/list"
    then some session_list
    else if name == "session/prompt"
    then some session_prompt
    else none

unfoldable pub handle_method : Config → Message → Option Method → Proc (Unit {0})
handle_method c req (some initialize) = handle_initialize c req
handle_method c req (some authenticate) = handle_authenticate c req
handle_method c req (some session_new) = handle_new_session c req
handle_method c req (some session_load) = handle_load_session c req
handle_method c req (some session_list) = handle_list_sessions c req
handle_method c req (some session_prompt) = handle_prompt c req
handle_method c req none =
    write_error req.id err_method_not_found ("method not found: " ^^ req.method)

unfoldable pub handle_request : Config → Message → Proc (Unit {0})
handle_request c req = handle_method c req (method_of req.method)

-- Unknown notifications are ignored; an invalid one is logged.
unfoldable pub handle_notification : Config → Message → Proc (Unit {0})
handle_notification c req =
    if req.method == "session/cancel"
    then on_error (decode_params c.host decode_cancel req.params) (λ _. ret tt)
        (λ args. cancel_session args.session_id)
    else ret tt
