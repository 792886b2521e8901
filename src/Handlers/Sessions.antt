-- ===== src/Handlers/Sessions.antt =====
-- `session/new`, `session/load` and `session/list` of request_handlers.go.
use go_acp_server.Base.{
  String, Bool, true, ◌&&◌, not, List, Option, none, some, map, if◌then◌else◌, ◌==◌, lookup, insert,
  keep,
}
use go_acp_server.Go.Text.{◌^^◌, trim_space, is_blank}
use go_acp_server.Go.FilePath.{is_abs}
use go_acp_server.Go.Sort.{sort_by}
use go_acp_server.Go.Host.{Host}
use go_acp_server.Config.{Config, decode_params, format_time}
use go_acp_server.Protocol.{
  Message, McpServer, decode_new_session, decode_load_session, decode_list_sessions,
}
use go_acp_server.Protocol.Replies.{
  new_session_response, empty_response, SessionInfo, list_sessions_response,
}
use go_acp_server.Server.{Server, Session, Time}
use go_acp_server.Server.Answers.{write_result, write_error, err_invalid_params}
use go_acp_server.Server.Cancel.{clear_cancel_flag}
use go_acp_server.Server.Proc.{Proc, now, ◌>>=◌, ◌>>◌, modify, read, on_error, on_none}
use go_acp_server.Tools.Invoke.{new_session_id}

-- `s.sessions[id] = &sessionState{...}`
unfoldable pub add_session : String → String → List McpServer → Time → Server → Server
add_session id cwd mcp_servers t s =
    let session : Session = record {
      cwd = cwd;
      title = "";
      mcp_servers = mcp_servers;
      updated_at = t;
    } in
    record s { sessions = insert id session s.sessions }

unfoldable pub create_session : Config → Message → String → List McpServer → Proc (Unit {0})
create_session c req cwd mcp_servers = do
  id ← new_session_id
  now λ t. modify (add_session id cwd mcp_servers t)
  clear_cancel_flag id
  write_result req.id (new_session_response id)

unfoldable pub handle_new_session : Config → Message → Proc (Unit {0})
handle_new_session c req =
    on_error (decode_params c.host decode_new_session req.params)
      (λ e. write_error req.id err_invalid_params e)
      λ args.
        if args.cwd == ""
        then write_error req.id err_invalid_params "cwd is required"
        else if not (is_abs args.cwd)
        then write_error req.id err_invalid_params "cwd must be an absolute path"
        else create_session c req args.cwd args.mcp_servers

-- The section under the session's lock; the session is the object that the map holds.
unfoldable pub rebind_session : String → String → List McpServer → Time → Server → Server
rebind_session id cwd mcp_servers t s = elim (lookup id s.sessions) [
  | none ↦ s
  | some session ↦ record s {
    sessions =
        insert id (record session { cwd = cwd; mcp_servers = mcp_servers; updated_at = t })
          s.sessions;
  }
]

unfoldable pub load_session : Config → Message → String → String → List McpServer → Proc (Unit {0})
load_session c req id cwd mcp_servers = do
  session ← read (λ s. lookup id s.sessions)
  on_none session (write_error req.id err_invalid_params ("unknown session '" ^^ id ^^ "'")) λ _. do
    now λ t. modify (rebind_session id cwd mcp_servers t)
    clear_cancel_flag id
    write_result req.id empty_response

unfoldable pub handle_load_session : Config → Message → Proc (Unit {0})
handle_load_session c req =
    on_error (decode_params c.host decode_load_session req.params)
      (λ e. write_error req.id err_invalid_params e)
      λ args.
        let id = trim_space args.session_id in
        if id == ""
        then write_error req.id err_invalid_params "sessionId is required"
        else if is_blank args.cwd
        then write_error req.id err_invalid_params "cwd is required"
        else if not (is_abs args.cwd)
        then write_error req.id err_invalid_params "cwd must be an absolute path"
        else load_session c req id args.cwd args.mcp_servers

abbrev pub optional_text : String → Option String
optional_text s = if s == "" then none else some s

-- What `session/list` says of one session.
unfoldable pub session_row : Host → String × Session → SessionInfo
unfolding format_time
session_row h (id, session) = record {
  session_id = id;
  cwd = session.cwd;
  title = optional_text (trim_space session.title);
  updated_at = optional_text (format_time h session.updated_at);
}

-- A row passes an empty filter, and otherwise by its directory.
abbrev pub passes : String → SessionInfo → Bool
passes filter row = if filter == "" then true else row.cwd == filter

-- The rows of `session/list`: all sessions in the order of their ids, then filtered.
unfoldable pub list_rows : Host → String → List (String × Session) → List SessionInfo
unfolding session_row sort_by
list_rows h filter sessions =
    keep (passes filter) (sort_by (λ row. row.session_id) (map (session_row h) sessions))

unfoldable pub handle_list_sessions : Config → Message → Proc (Unit {0})
handle_list_sessions c req =
    on_error (decode_params c.host decode_list_sessions req.params)
      (λ e. write_error req.id err_invalid_params e)
      λ args.
        let filter = trim_space args.cwd in
        if not (filter == "") && not (is_abs filter)
        then write_error req.id err_invalid_params "cwd must be an absolute path"
        else if not (is_blank args.cursor)
        then write_error req.id err_invalid_params "cursor is not supported"
        else read (λ s. list_rows c.host filter s.sessions) >>= λ rows.
            write_result req.id (list_sessions_response rows)
