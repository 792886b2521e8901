-- ===== src/Acptest/Heard/Tools.antt =====
-- The two updates of a tool call (tool_invoker.go), as `parseTurn` of acptest/driver.go takes them.
use go_acp_server.Base.{String, [], ◌∷◌, ◌++◌, ◌≡◌, ◌∙◌, ap, insert, lookup}
use go_acp_server.Acptest.Heard.Lines.{IsReadBack, received, gather-update}
use go_acp_server.Acptest.Payload.{RpcId, Message, line_message, value_at}
use go_acp_server.Acptest.Turn.{
  ToolEvent, Gathered, nothing_gathered, gather, gather_kind, gather_all, tool_event, string_value,
  parse_turn,
}
use go_acp_server.Go.Host.{Host}
use go_acp_server.Json.{Json, null, str, object}
use go_acp_server.Json.Decode.{fill_map, as_string}
use go_acp_server.Server.{Line, notification}
use go_acp_server.Server.Encode.{line_json}
use go_acp_server.Server.Proc.{Result, ok, err}
use go_acp_server.Tools.Invoke.{
  tool_call_started, tool_call_ended, decode_json_value, text_tool_call_content,
}

-- What `writeSessionUpdateRaw` writes.
abbrev pub raw_line : String → Json → Line
raw_line session_id update =
    notification "session/update" (object (("sessionId", str session_id) ∷ ("update", update) ∷ []))

abbrev pub started_event : Host → String → String → String → ToolEvent
started_event h id name args_json = record {
  update_type = "tool_call";
  tool_call_id = id;
  status = "in_progress";
  title = name;
  kind = "";
  raw_input = decode_json_value h args_json;
  raw_output = null;
  content = null;
}

abbrev pub ended_event : Host → String → Result String → ToolEvent
ended_event h id (ok result) = record {
  update_type = "tool_call_update";
  tool_call_id = id;
  status = "completed";
  title = "";
  kind = "";
  raw_input = null;
  raw_output = decode_json_value h result;
  content = text_tool_call_content result;
}
ended_event h id (err e) = record {
  update_type = "tool_call_update";
  tool_call_id = id;
  status = "failed";
  title = "";
  kind = "";
  raw_input = null;
  raw_output = null;
  content = text_tool_call_content e;
}

started-heard :
    (h : Host) (session_id id name args_json : String) (g : Gathered)
    → IsReadBack h (raw_line session_id (tool_call_started h id name args_json))
    → (gather
        (line_message h
          (h.marshal (line_json (raw_line session_id (tool_call_started h id name args_json)))))
        g).tool_events
      ≡ g.tool_events ++ started_event h id name args_json ∷ []
unfolding tool_call_started gather_kind tool_event string_value value_at fill_map insert lookup
    as_string
started-heard h session_id id name args_json g e =
    ap (λ (x : Gathered). x.tool_events)
      (gather-update h session_id
        (("rawInput", decode_json_value h args_json)
          ∷ ("sessionUpdate", str "tool_call")
          ∷ ("status", str "in_progress")
          ∷ ("title", str name)
          ∷ ("toolCallId", str id)
          ∷ [])
        g e)

ended-heard :
    (h : Host) (session_id id : String) (result : Result String) (g : Gathered)
    → IsReadBack h (raw_line session_id (tool_call_ended h id result))
    → (gather
        (line_message h (h.marshal (line_json (raw_line session_id (tool_call_ended h id result)))))
        g).tool_events
      ≡ g.tool_events ++ ended_event h id result ∷ []
unfolding tool_call_ended gather_kind tool_event string_value value_at fill_map insert lookup
    as_string
ended-heard h session_id id (ok result) g e =
    ap (λ (x : Gathered). x.tool_events)
      (gather-update h session_id
        (("content", text_tool_call_content result)
          ∷ ("rawOutput", decode_json_value h result)
          ∷ ("sessionUpdate", str "tool_call_update")
          ∷ ("status", str "completed")
          ∷ ("toolCallId", str id)
          ∷ [])
        g e)
ended-heard h session_id id (err text) g e =
    ap (λ (x : Gathered). x.tool_events)
      (gather-update h session_id
        (("content", text_tool_call_content text)
          ∷ ("sessionUpdate", str "tool_call_update")
          ∷ ("status", str "failed")
          ∷ ("toolCallId", str id)
          ∷ [])
        g e)

-- From the two updates of a tool call, in lines that are read back as they were written, `parseTurn`
-- takes two events: the first has the call's id, the tool's name as its title, the status
-- "in_progress" and the arguments; the second has the id, the status "completed" with the result
-- or "failed" with none, and the text of the result or of the error as its content.
pub parse_turn-tool_call :
    (h : Host) (session_id id name args_json : String) (result : Result String) (rid : RpcId)
    (response : Message)
    → IsReadBack h (raw_line session_id (tool_call_started h id name args_json))
    → IsReadBack h (raw_line session_id (tool_call_ended h id result))
    → (parse_turn
        (record {
          request_id = rid;
          messages = received h (
              raw_line session_id (tool_call_started h id name args_json)
              ∷ raw_line session_id (tool_call_ended h id result)
              ∷ []);
          response = response;
        })
        session_id).tool_events
      ≡ started_event h id name args_json ∷ ended_event h id result ∷ []
unfolding parse_turn gather_all
parse_turn-tool_call h session_id id name args_json result rid response e e' =
    ended-heard h session_id id result _ e'
    ∙ ap (λ x. x ++ ended_event h id result ∷ [])
        (started-heard h session_id id name args_json nothing_gathered e)
