-- ===== src/Serve.antt =====
-- `Serve` of server.go: what it does with one line, and the whole server as goroutines that are
-- interleaved by a schedule. The schedule also says which writes fail, what the clock and the random
-- source return, and when a context ends.
pub mod Weights
pub mod Accounts
pub mod Balance
use go_acp_server.Base.{
  ℕ, zero, suc, String, Bool, true, false, not, List, [], ◌∷◌, ◌++◌, Option, none, some,
  if◌then◌else◌, ◌==◌, lookup, delete,
}
use go_acp_server.Go.Text.{◌^^◌, trim_space, is_blank}
use go_acp_server.Config.{Config}
use go_acp_server.Handlers.{handle_request, handle_notification}
use go_acp_server.Protocol.{Message, no_message, decode_message, has_id}
use go_acp_server.Server.{Server, Line, Ctx, CtxError, Time, Wire, new_wire, new_server}
use go_acp_server.Server.Answers.{write_error, err_parse_error, err_invalid_request}
use go_acp_server.Server.Cancel.{ctx_err, end_ctx}
use go_acp_server.Server.Pending.{handle_client_response}
use go_acp_server.Server.Proc.{Proc, ret, step, emit, await, random, now, ◌>>=◌, ◌>>◌}

-- The part of the loop behind the decoding; the result is a request for a new goroutine.
unfoldable pub serve_message : Config → Message → Proc (Option Message)
serve_message c msg =
    if not (msg.jsonrpc == "2.0")
    then (if has_id msg
        then write_error msg.id err_invalid_request "jsonrpc must be '2.0'" >> ret none
        else ret none)
    else if is_blank msg.method
    then (if has_id msg then handle_client_response c.host msg >> ret none else ret none)
    else if has_id msg
    then ret (some msg)
    else handle_notification c msg >> ret none

-- One round of the loop of `Serve`.
unfoldable pub serve_line : Config → String → Proc (Option Message)
serve_line c text =
    let line = trim_space text in
    if line == "" then ret none else elim (c.host.parse line) [
      | none ↦
          write_error none err_parse_error
            ("failed to parse JSON-RPC message: " ^^ c.host.syntax_error line)
          >> ret none
      | some v ↦ elim (decode_message no_message v) [
        | none ↦
            write_error none err_parse_error
              ("failed to parse JSON-RPC message: " ^^ c.host.type_error "message" v)
            >> ret none
        | some msg ↦ serve_message c msg
      ]
    ]

-- What the world answers to one action.
pub record Choice : Type 0 where
  pub write_error : Option String
  pub bytes : Option (List ℕ)
  pub time : Time
  pub ended_first : Bool

-- rpcWriter.write: the buffered writer keeps its first error and writes nothing after it.
unfoldable pub write : Option String → Line → Wire → Wire
write fault line out = elim out.error [
  | some e ↦ out
  | none ↦ elim fault [
    | some e ↦ record out { error = some e }
    | none ↦ record out { lines = out.lines ++ line ∷ [] }
  ]
]

-- The error that the write returns.
unfoldable pub error_of : Option String → Wire → Option String
error_of fault out = elim out.error [ some e ↦ some e | none ↦ fault ]

-- The `select` of `callClient`; where neither case is ready it waits.
unfoldable pub select :
    {A : Type 0}
    → Bool
    → String
    → Ctx
    → (Message → Proc A)
    → (CtxError → Proc A)
    → Server
    → Server × Proc A
select {A} ended_first ch ctx k d s =
    let receive : Message → Server × Proc A =
      λ m. (record s { channels = delete ch s.channels }, k m) in
    elim (ctx_err s ctx) [
      | none ↦ elim (lookup ch s.channels) [ none ↦ (s, await ch ctx k d) | some m ↦ receive m ]
      | some e ↦ elim (lookup ch s.channels) [
        | none ↦ (s, d e)
        | some m ↦ if ended_first then (s, d e) else receive m
      ]
    ]

-- What the goroutines share.
pub record Shared : Type 0 where
  pub server : Server
  pub wire : Wire

-- One action of a goroutine.
unfoldable pub advance : {A : Type 0} → Choice → Shared → Proc A → Shared × Proc A
advance ch w (ret a) = (w, ret a)
advance ch w (step f k) = (record w { server = f w.server }, k w.server)
advance ch w (emit l k) =
    (record w { wire = write ch.write_error l w.wire }, k (error_of ch.write_error w.wire))
advance ch w (await c ctx k d) =
    let (server, p) = select ch.ended_first c ctx k d w.server in (record w { server = server }, p)
advance ch w (random k) = (w, k ch.bytes)
advance ch w (now k) = (w, k ch.time)

pub record System : Type 0 where
  pub shared : Shared
  -- The loop's own goroutine, and those of the requests that it has started.
  pub reader : Proc (Option Message)
  pub threads : List (Proc (Unit {0}))
  -- The lines that have been read so far, newest first.
  pub inputs : List String

pub data Event : Type 0 where
  line : String → Event
  reads : Choice → Event
  runs : ℕ → Choice → Event
  ends : Ctx → CtxError → Event

-- The next line is read when the loop is done with the one before.
unfoldable pub take_line : Config → String → System → Proc (Option Message) → System
take_line c text sys (ret none) = record sys {
  reader = serve_line c text;
  inputs = text ∷ sys.inputs;
}
take_line c text sys _ = sys

-- `go s.handleRequest(ctx, req)`, or one action of the loop.
unfoldable pub run_reader : Config → Choice → System → Proc (Option Message) → System
run_reader c ch sys (ret (some msg)) = record sys {
  reader = ret none;
  threads = handle_request c msg ∷ sys.threads;
}
run_reader c ch sys p =
    let (shared, rest) = advance ch sys.shared p in record sys { shared = shared; reader = rest }

unfoldable pub run_thread :
    Choice → Shared → ℕ → List (Proc (Unit {0})) → Shared × List (Proc (Unit {0}))
run_thread ch w n [] = (w, [])
run_thread ch w zero (p ∷ ps) = let (w', p') = advance ch w p in (w', p' ∷ ps)
run_thread ch w (suc n) (p ∷ ps) = let (w', ps') = run_thread ch w n ps in (w', p ∷ ps')

unfoldable pub happen : Config → System → Event → System
happen c sys (line text) = take_line c text sys sys.reader
happen c sys (reads ch) = run_reader c ch sys sys.reader
happen c sys (runs n ch) =
    let (shared, threads) = run_thread ch sys.shared n sys.threads in
    record sys { shared = shared; threads = threads }
happen c sys (ends ctx e) = record sys {
  shared = record sys.shared { server = end_ctx ctx e sys.shared.server };
}

unfoldable pub run : Config → System → List Event → System
run c sys [] = sys
run c sys (e ∷ es) = run c (happen c sys e) es

-- `Serve` on a new server.
abbrev pub start : System
start = record {
  shared = record { server = new_server; wire = new_wire };
  reader = ret none;
  threads = [];
  inputs = [];
}
