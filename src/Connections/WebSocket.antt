-- ===== src/Connections/WebSocket.antt =====
-- connections/websocket.go: two goroutines that copy text messages through pipes, and `Serve` between
-- them. What the connection does is given for each call of its methods.
use go_acp_server.Base.{
  String, Bool, true, false, List, [], ◌∷◌, Option, none, some, if◌then◌else◌, ◌||◌, nat_eq,
}
use go_acp_server.Config.{Config}
use go_acp_server.Connections.Endpoint.{Endpoint, no_endpoint, endpoint_serve, max_line, out_text}
use go_acp_server.Go.Fault.{Fault, new_fault}
use go_acp_server.Go.Scan.{scan}
use go_acp_server.Go.Text.{◌^^◌, trim_right}
use go_acp_server.Serve.{Event}
use go_acp_server.Server.{Line}

-- isConnClosedError
unfoldable pub is_conn_closed_error : Fault → Bool
is_conn_closed_error e = e.is_eof || e.is_net_closed

-- The error that a goroutine records for one of `ReadText` or `WriteText`.
unfoldable pub conn_error : Fault → Option Fault
unfolding is_conn_closed_error
conn_error e = if is_conn_closed_error e || e.is_canceled then none else some e

-- The error that it records for a write into the pipe.
unfoldable pub pipe_error : Fault → Option Fault
pipe_error e = if e.is_closed_pipe then none else some e

-- The rounds of the first goroutine: `ReadText` fails at last, or gives a message that the pipe refuses at
-- last, or one that it takes.
pub data Inbound : Type 0 where
  read_fault : Fault → Inbound
  refused : String → Fault → Inbound
  taken : String → Inbound → Inbound

-- strings.TrimRight(msg, "\n")
abbrev pub trim_newlines : String → String
trim_newlines msg = trim_right (λ c. nat_eq c 10) msg

unfoldable pub frame : String → String
frame msg = trim_newlines msg ^^ "\n"

abbrev pub Copied : Type 0
Copied = String × Option Fault

-- What the first goroutine puts into the pipe, and the error that it records.
unfoldable pub copy_in : Inbound → Copied
unfolding frame conn_error pipe_error
copy_in (read_fault e) = ("", conn_error e)
copy_in (refused msg e) = ("", pipe_error e)
copy_in (taken msg rounds) = let (text, fault) = copy_in rounds in (frame msg ^^ text, fault)

pub record Sent : Type 0 where
  -- The texts that the connection has taken.
  pub texts : List String
  pub fault : Option Fault
  -- Whether all of the pipe has been read; a write into it waits for its reader.
  pub drained : Bool

abbrev pub sent_first : String → Sent → Sent
sent_first t s = record { texts = t ∷ s.texts; fault = s.fault; drained = s.drained }

-- `scanner.Err()`, if the loop gets there.
abbrev pub scanner_end : Option Fault → Sent
scanner_end none = record { texts = []; fault = none; drained = true }
scanner_end (some e) = record {
  texts = [];
  fault = if e.is_eof then none else some e;
  drained = false;
}

abbrev pub is_last : List String → Option Fault → Bool
is_last [] none = true
is_last _ _ = false

-- The second goroutine, by the results of `WriteText`, which succeeds where none is given.
unfoldable pub copy_out : List String → Option Fault → List (Option Fault) → Sent
unfolding conn_error
copy_out [] end writes = scanner_end end
copy_out (t ∷ ts) end [] = sent_first t (copy_out ts end [])
copy_out (t ∷ ts) end (none ∷ writes) = sent_first t (copy_out ts end writes)
copy_out (t ∷ ts) end (some e ∷ writes) = record {
  texts = [];
  fault = conn_error e;
  drained = is_last ts end;
}

-- recordErr
unfoldable pub record_err : Option Fault → Option Fault → Option Fault
record_err none e = e
record_err (some first) e = some first

abbrev pub serve_error : Option Fault → Option Fault
serve_error none = none
serve_error (some e) = if e.is_canceled then none else some e

-- `firstErr` at the end. The two goroutines record in either order, `Serve` comes last.
unfoldable pub first_err : Bool → Option Fault → Option Fault → Option Fault → Option Fault
unfolding record_err
first_err in_first fault_in fault_out fault =
    record_err
      (if in_first
        then record_err (record_err none fault_in) fault_out
        else record_err (record_err none fault_out) fault_in)
      (serve_error fault)

-- What the connection does, and the schedule.
pub record World : Type 0 where
  pub rounds : Inbound
  pub writes : List (Option Fault)
  pub in_first : Bool
  pub events : List Event

pub record Bridged : Type 0 where
  pub endpoint : Endpoint
  pub texts : List String
  pub error : Option Fault

unfoldable pub bridge_out :
    Config → World → Option Fault → Option (Endpoint × List Line × Option Fault) → Option Bridged
unfolding copy_out first_err out_text
bridge_out c w fault_in none = none
bridge_out c w fault_in (some (e, lines, fault)) =
    let input = scan max_line (record { text = out_text c.host lines; fault = none }) in
    let sent = copy_out input.tokens input.fault w.writes in
    if sent.drained
    then some (record {
      endpoint = e;
      texts = sent.texts;
      error = first_err w.in_first fault_in sent.fault fault;
    })
    else none

abbrev pub endpoint_error : Endpoint → String → Option Bridged
endpoint_error e text = some (record { endpoint = e; texts = []; error = some (new_fault text) })

-- ServeWebSocket; `none` if it does not return.
unfoldable pub serve_web_socket : Config → World → Endpoint → Bool → Option Bridged
unfolding bridge_out copy_in endpoint_serve
serve_web_socket c w no_endpoint has_conn =
    endpoint_error no_endpoint "connections: endpoint is nil"
serve_web_socket c w e false = endpoint_error e "connections: websocket conn is nil"
serve_web_socket c w e true =
    let (text, fault_in) = copy_in w.rounds in
    bridge_out c w fault_in (endpoint_serve c w.events e (record { text = text; fault = none }))
