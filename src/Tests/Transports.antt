-- ===== src/Tests/Transports.antt =====
-- Runs of the transports, with a host whose lines are short.
use go_acp_server.Base.{ℕ, true, List, [], ◌∷◌, none, some, Option, ◌≡◌, refl, map, arith}
use go_acp_server.Connections.Bodies.{handle_http-lines}
use go_acp_server.Connections.Endpoint.{
  new_call, without_first, endpoint, Served, serve_on, serve_next, served, is_reading, is_idle,
  all_idle, returned,
}
use go_acp_server.Connections.Http.{body_too_large, handle_http, respond_to, max_body_bytes}
use go_acp_server.Connections.Lock.{Step, enters, acts, leaves, take_steps, unlocked, back_with}
use go_acp_server.Connections.Outcome.{
  serve_tokens, rounds_of, fails_after, serve_web_socket-lines, serve_web_socket-stuck,
}
use go_acp_server.Connections.Serial.{take_steps-Sequential}
use go_acp_server.Connections.Serial.Steps.{Sequential}
use go_acp_server.Connections.WebSocket.{is_conn_closed_error, World, serve_web_socket}
use go_acp_server.Go.Fault.{Fault, new_fault}
use go_acp_server.Go.Numbers.{pos}
use go_acp_server.Go.Scan.{Source, is_cr, char_bytes, bytes, raw_lines, drop_cr}
use go_acp_server.Json.{null}
use go_acp_server.Serve.{
  Event, line, reads, happen, take_line, run_reader, advance, write, error_of, serve_line,
}
use go_acp_server.Server.{Line, failure, new_server}
use go_acp_server.Server.Answers.{err_parse_error, write_error, normalize_id}
use go_acp_server.Server.Proc.{◌>>=◌}
use go_acp_server.Go.Text.{trim_space, trim_left, trim_right, keep_char}
use mathlib.Core.List.{Mem}
use go_acp_server.Tests.{config, good}

abbrev closed : Fault
closed = record (new_fault "EOF") { is_eof = true }

-- Two lines that are no JSON, with an answer for each.
abbrev oops : List Event
oops = line "" ∷ reads good ∷ line "" ∷ reads good ∷ []

abbrev world : World
world = record {
  rounds = rounds_of ("oops" ∷ "again\n" ∷ []) closed;
  writes = [];
  in_first = true;
  events = oops;
}

abbrev sources : ℕ → Source
sources i = record { text = "oops\n"; fault = none }

-- Two calls; the second one has to wait for the first.
abbrev overlapping : List Step
overlapping =
    enters 0 ∷ acts 0 (line "") ∷ enters 1 ∷ acts 0 (reads good) ∷ leaves 0 ∷ enters 1 ∷ []

take_steps-Sequential_example :
    let l = take_steps config sources (unlocked new_server) overlapping in
    (rs : List (ℕ × Served)) × Sequential config sources new_server rs
    × ((i : ℕ) (f : Option Fault)
        → l.stages i ≡ back_with f
        → (r : Served) × Mem (i, r) rs × (r.lines ≡ (l.wires i).lines) × (r.fault ≡ f))
take_steps-Sequential_example = take_steps-Sequential config sources new_server overlapping

abbrev complaint : Line
complaint = failure null err_parse_error "failed to parse JSON-RPC message: invalid character"

abbrev left_behind : Served
left_behind = record { server = new_server; lines = complaint ∷ complaint ∷ []; fault = none }

serve_web_socket-lines_example :
    serve_web_socket config world (endpoint new_server) true
    ≡ some (record { endpoint = endpoint new_server; texts = "{}" ∷ "{}" ∷ []; error = none })
unfolding new_server new_call without_first serve_on serve_next served is_reading is_idle all_idle
    happen take_line run_reader advance write error_of serve_line write_error normalize_id drop_cr
    is_cr bytes char_bytes trim_right keep_char trim_space trim_left is_conn_closed_error ◌>>=◌
serve_web_socket-lines_example =
    serve_web_socket-lines config world new_server ("oops" ∷ "again\n" ∷ []) closed left_behind refl
      refl refl
      (
        ((refl, (refl, (refl, (refl, tt)))), omega arith),
        (((refl, (refl, (refl, (refl, (refl, tt))))), omega arith), tt),
      )
      refl
      ((((refl, (refl, tt)), omega arith), refl), ((((refl, (refl, tt)), omega arith), refl), tt))

abbrev broken : World
broken = record world { writes = fails_after 0 (new_fault "broken pipe") }

serve_web_socket-stuck_example : serve_web_socket config broken (endpoint new_server) true ≡ none
unfolding new_server new_call without_first serve_on serve_next served is_reading is_idle all_idle
    happen take_line run_reader advance write error_of serve_line write_error normalize_id drop_cr
    is_cr bytes char_bytes trim_right keep_char trim_space trim_left is_conn_closed_error ◌>>=◌
serve_web_socket-stuck_example =
    serve_web_socket-stuck config broken new_server ("oops" ∷ "again\n" ∷ []) closed
      (new_fault "broken pipe") left_behind 0 refl refl refl
      (
        ((refl, (refl, (refl, (refl, tt)))), omega arith),
        (((refl, (refl, (refl, (refl, (refl, tt))))), omega arith), tt),
      )
      refl (omega arith)
      ((((refl, (refl, tt)), omega arith), refl), ((((refl, (refl, tt)), omega arith), refl), tt))

handle_http-lines_example :
    handle_http config
      (pos 100)
      oops
      (endpoint new_server)
      (record { method = "POST"; body = record { text = "oops\r\nagain"; fault = none } })
    ≡ respond_to config
        (returned (serve_tokens config oops new_server (map drop_cr (raw_lines "oops\r\nagain"))))
unfolding max_body_bytes bytes char_bytes
handle_http-lines_example =
    handle_http-lines config (pos 100) oops new_server "oops\r\nagain" (omega arith) (omega arith)

abbrev first_complaint : Served
first_complaint = record {
  server = new_server;
  lines = complaint ∷ [];
  fault = some body_too_large;
}
