-- ===== src/Tests/Driver.antt =====
-- Runs of the test driver, by itself and with lines of the server.
use go_acp_server.Base.{
  ℕ, String, Bool, true, false, List, [], ◌∷◌, Option, none, some, ◌≡◌, refl, if◌then◌else◌, ◌==◌,
  lookup, insert, All, is_some, map, length, delete,
}
use go_acp_server.Acptest.Calls.{
  do_request, send_request, collect, report, read_line, deliver, Act, Done, ret, answered,
  ◌>>=◌ as ◌>>>=◌,
}
use go_acp_server.Acptest.Driver.{
  ClientReply, Env, Driver, new_driver, waiting, as_int64, bump_id, await_response, take_line,
  send_response,
}
use go_acp_server.Acptest.Answered.{call_and_line, next_message, do_request-answered}
use go_acp_server.Acptest.Exchanges.{CallCovers, run-CallCovers}
use go_acp_server.Acptest.Heard.{parse_turn-perform}
use go_acp_server.Acptest.Heard.Lines
use go_acp_server.Acptest.Heard.Tools.{raw_line, started_event, ended_event, parse_turn-tool_call}
use go_acp_server.Tools.Invoke.{tool_call_started, tool_call_ended, decode_json_value}
use go_acp_server.Acptest.Heard.Lines.{concat, spoken, received, say}
use go_acp_server.Acptest.Numbering.{take, drop, messages_in_range-slice}
use go_acp_server.Acptest.Payload.{
  number_key, decode_line, message_of, kept_in_range, in_range, value_at, as_map, is_nil, Float64,
  Message, messages_in_range, id_key, own, line_message,
}
use go_acp_server.Acptest.Queues.{
  Traffic, queued, asked as asks, replies, fifo_replies, replies-Queues,
}
use go_acp_server.Acptest.System as System
use go_acp_server.Acptest.System.{
  happen, run_caller, next_line, advance, select, received_on, Answer, Event, calls, line, reads,
  runs,
}
use go_acp_server.Acptest.Turn.{Turn, parse_turn}
use go_acp_server.Go.Host.{Host}
use go_acp_server.Go.Numbers.{ℤ, pos, decimal_int}
use go_acp_server.Json.Decode.{fill_map, decode_map, as_string}
use go_acp_server.Json.{Json, null, num, str, object}
use go_acp_server.Server.{new_server, success, notification, Line}
use go_acp_server.Server.Cancel.{ctx_err, find_done}
use go_acp_server.Server.Proc.{Result, err, ◌>>=◌}
use go_acp_server.Updates.{write_session_update, write_session_update_raw, chunk}
use go_acp_server.Go.Text.{is_blank, trim_space, trim_left}
use go_acp_server.Server.Encode.{line_json}
use go_acp_server.Server.Solo.{Outcome, solo, lines_in}
use go_acp_server.Prompt.Executor.{perform}
use go_acp_server.Updates.Writer.{
  UpdateCall, agent_message, call_writer, agent_message_chunk, send_update, assert_context,
}
use go_acp_server.Tests.{host, invoker, writer}

abbrev int_of : Json → ℤ
int_of (num n) = n
int_of _ = pos 0

abbrev floats : Float64
floats = record { is_whole = λ v. true; int64_of = int_of; format = λ v. "0.5" }

abbrev handler : Message → Option ClientReply
handler msg =
    if msg.method == "fs/handled"
    then some (record { result = str "handled"; error = none })
    else none

abbrev answer_text : String
answer_text = "{\"jsonrpc\":\"2.0\",\"id\":1,\"result\":{}}"

abbrev answer_line : Line
answer_line = success (num (pos 1)) (object [])

-- A host that knows one line.
abbrev driver_host : Host
driver_host = record host {
  parse = λ text. if text == answer_text then some (line_json answer_line) else none;
}

abbrev env : Env
env = record { host = driver_host; float64 = floats; show = λ v. "?"; client_handler = handler }

abbrev ready : Answer
ready = record { fault = none; stopped = none }

-- A call, a line that is no JSON and the answer.
abbrev one_call : List Event
one_call =
    calls "initialize" (object [])
    ∷ line "oops"
    ∷ runs 0 ready
    ∷ runs 0 ready
    ∷ reads ready
    ∷ runs 0 ready
    ∷ line answer_text
    ∷ reads ready
    ∷ reads ready
    ∷ runs 0 ready
    ∷ runs 0 ready
    ∷ []

run-CallCovers_example :
    All
      (CallCovers env (System.run env System.start one_call).driver)
      (System.run env System.start one_call).callers
run-CallCovers_example = run-CallCovers env one_call

abbrev request : String → Message
request method = record {
  seq = 0;
  raw = "";
  payload = [];
  id = num (pos 3);
  method = method;
  params = none;
  result = null;
  error = none;
}

abbrev reply_of : String → ClientReply
reply_of text = record { result = str text; error = none }

abbrev traffic : List Traffic
traffic =
    queued "fs/read" (reply_of "one")
    ∷ queued "fs/handled" (reply_of "never")
    ∷ queued "fs/read" (reply_of "two")
    ∷ asks (request "fs/read")
    ∷ asks (request "fs/handled")
    ∷ asks (request "fs/read")
    ∷ asks (request "fs/read")
    ∷ []

replies-Queues_example : replies env new_driver traffic ≡ fifo_replies env (λ m. []) traffic
unfolding new_driver lookup
replies-Queues_example = replies-Queues env traffic (λ m. []) new_driver (λ m. refl)

abbrev third : List Message
third =
    record (request "a") { seq = 1 }
    ∷ record (request "b") { seq = 2 }
    ∷ record (request "c") { seq = 3 }
    ∷ []

messages_in_range-slice_example : messages_in_range third 2 3 ≡ take 2 (drop 1 third)
messages_in_range-slice_example = messages_in_range-slice third 1 2 (refl, (refl, (refl, tt)))

-- The driver has read one line.
abbrev before : List Event
before = line "oops" ∷ reads ready ∷ []

do_request-answered_example :
    (d' : Driver) × (call_and_line env answer_text
        (System.run env System.start before).driver
        (do_request env "initialize" (object []))
      ≡ (
        d',
        ret (
            report env (record {
              request_id = own (pos 1);
              messages =
                  next_message env answer_text (System.run env System.start before).driver ∷ [];
              response = next_message env answer_text (System.run env System.start before).driver;
            })),
      ))
    × (lookup "n:1" d'.pending ≡ none)
unfolding System.run happen advance next_line read_line take_line new_driver as_int64 id_key
    decimal_int
do_request-answered_example =
    do_request-answered env before "initialize" (object []) answer_text answer_line refl refl refl
      (record { whole = refl; value = refl })

abbrev saying : List UpdateCall
saying = agent_message "Hello" ∷ agent_message " " ∷ []

abbrev hello_line : Line
hello_line = notification "session/update" (
    object (
      ("sessionId", str "eino-1")
      ∷ (
        "update",
        object (
            ("content", object (("text", str "Hello") ∷ ("type", str "text") ∷ []))
            ∷ ("sessionUpdate", str "agent_message_chunk")
            ∷ []),
      )
      ∷ []))

-- The host writes and reads one text.
abbrev hello_host : Host
hello_host = record host { marshal = λ v. "hello"; parse = λ text. some (line_json hello_line) }

abbrev said : Outcome (Result String × Bool)
said = solo 0 (perform invoker writer (say saying "done") false) new_server

abbrev hello_turn : Turn
hello_turn =
    parse_turn
      (record {
        request_id = own (pos 1);
        messages = received hello_host (lines_in said);
        response = request "";
      })
      "eino-1"

parse_turn-perform_example :
    (is_some said ≡ true)
    × (hello_turn.assistant_text ≡ concat spoken saying)
    × (hello_turn.user_text ≡ concat Lines.asked saying)
unfolding ctx_err find_done new_server perform ◌>>=◌ call_writer agent_message_chunk is_blank
    send_update assert_context write_session_update write_session_update_raw chunk
parse_turn-perform_example =
    parse_turn-perform hello_host invoker writer new_server 0 saying "done" "eino-1" (own (pos 1))
      (request "") refl (tt, (tt, tt)) (refl, tt)

abbrev outcome : Act Done → ℕ × Bool
outcome (ret (answered ex)) = (length ex.messages, true)
outcome _ = (0, false)

-- The call has its one_call: the line before the answer is in it.
one_exchange : map outcome (System.run env System.start one_call).callers ≡ (2, true) ∷ []
unfolding happen run_caller next_line advance select received_on do_request send_request collect
    report bump_id await_response read_line take_line line_message decode_line message_of waiting
    messages_in_range kept_in_range in_range id_key number_key as_int64 lookup insert delete
    value_at as_map fill_map decode_map as_string is_nil new_driver decimal_int deliver
    send_response ◌>>>=◌ System.run line_json
one_exchange = refl

abbrev member : String → Option Json → Option Json
member key v = elim (as_map v) [ none ↦ none | some ms ↦ lookup key ms ]

-- A host that writes an update of a tool call by its status, and reads two of them.
abbrev opened_line : Line
opened_line = raw_line "eino-1" (tool_call_started host "call-1" "fs_read_text_file" "")

abbrev shut_line : Line
shut_line = raw_line "eino-1" (tool_call_ended host "call-1" (err "no file"))

abbrev told_host : Host
told_host = record host {
  marshal = λ v. as_string (member "status" (member "update" (member "params" (some v))));
  parse = λ text.
      if text == "in_progress" then some (line_json opened_line) else some (line_json shut_line);
}

parse_turn-tool_call_example :
    (parse_turn
      (record {
        request_id = own (pos 1);
        messages = received told_host (
            raw_line "eino-1" (tool_call_started told_host "call-1" "fs_read_text_file" "")
            ∷ raw_line "eino-1" (tool_call_ended told_host "call-1" (err "no file"))
            ∷ []);
        response = request "";
      })
      "eino-1").tool_events
    ≡ started_event told_host "call-1" "fs_read_text_file" ""
      ∷ ended_event told_host "call-1" (err "no file")
      ∷ []
unfolding tool_call_started tool_call_ended decode_json_value is_blank trim_space trim_left as_map
    lookup fill_map insert as_string line_json
parse_turn-tool_call_example =
    parse_turn-tool_call told_host "eino-1" "call-1" "fs_read_text_file" "" (err "no file")
      (own (pos 1)) (request "") refl refl
