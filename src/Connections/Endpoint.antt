-- ===== src/Connections/Endpoint.antt =====
-- `Endpoint` of connections/endpoint.go, which lets one `Serve` run at a time, and `Serve` of server.go from
-- its reader to its result.
use go_acp_server.Base.{
  ℕ, String, Bool, true, false, List, [], ◌∷◌, Option, none, some, if◌then◌else◌, nat_eq, ◌&&◌,
}
use go_acp_server.Config.{Config}
use go_acp_server.Go.Fault.{Fault, new_fault}
use go_acp_server.Go.Host.{Host}
use go_acp_server.Go.Scan.{Source, scan}
use go_acp_server.Go.Text.{◌^^◌}
use go_acp_server.Protocol.{Message}
use go_acp_server.Serve.{System, Event, line, happen}
use go_acp_server.Server.{Server, Ctx, CtxError, Line, new_wire}
use go_acp_server.Server.Encode.{line_json}
use go_acp_server.Server.Proc.{Proc, ret}

-- 4*1024*1024
abbrev pub max_line : ℕ
max_line = 4_194_304

-- The text that the writer puts on `out`.
unfoldable pub out_text : Host → List Line → String
out_text h [] = ""
out_text h (l ∷ ls) = (h.marshal (line_json l) ^^ "\n") ^^ out_text h ls

unfoldable pub without_first : List (Ctx × CtxError) → List (Ctx × CtxError)
without_first [] = []
without_first ((ctx, e) ∷ done) =
    let rest = without_first done in if nat_eq ctx 0 then rest else (ctx, e) ∷ rest

-- Each call has a new context, which is number 0 while it runs.
unfoldable pub new_call : Server → Server
unfolding without_first
new_call s = record s { done = without_first s.done }

-- A new call of `Serve`; the server is as the calls before left it.
abbrev pub serving : Server → System
serving s = record {
  shared = record { server = new_call s; wire = new_wire };
  reader = ret none;
  threads = [];
  inputs = [];
}

unfoldable pub is_idle : {A : Type 0} → Proc A → Bool
is_idle (ret a) = true
is_idle _ = false

unfoldable pub all_idle : List (Proc (Unit {0})) → Bool
unfolding is_idle
all_idle [] = true
all_idle (p ∷ ps) = is_idle p && all_idle ps

-- The loop reads its next token when it is done with the one before.
unfoldable pub is_reading : Proc (Option Message) → Bool
is_reading (ret none) = true
is_reading _ = false

unfoldable pub serve_next : Config → System → Event → List String → System × List String
serve_next c sys (line _) [] = (sys, [])
serve_next c sys (line _) (t ∷ ts) =
    if is_reading sys.reader then (happen c sys (line t), ts) else (sys, t ∷ ts)
serve_next c sys e ts = (happen c sys e, ts)

unfoldable pub serve_on : Config → System → List Event → List String → System × List String
unfolding serve_next
serve_on c sys [] ts = (sys, ts)
serve_on c sys (e ∷ es) ts = let (sys', ts') = serve_next c sys e ts in serve_on c sys' es ts'

pub record Served : Type 0 where
  pub server : Server
  pub lines : List Line
  pub fault : Option Fault

unfoldable pub served : Option Fault → System → List String → Option Served
unfolding is_reading all_idle
served fault sys [] =
    if is_reading sys.reader && all_idle sys.threads
    then some (record { server = sys.shared.server; lines = sys.shared.wire.lines; fault = fault })
    else none
served fault sys (t ∷ ts) = none

-- `Server.Serve` under a schedule, whose `line` events say when the loop reads; `none` if it has not
-- returned.
unfoldable pub serve : Config → List Event → Server → Source → Option Served
unfolding serve_on served
serve c es s src =
    let input = scan max_line src in
    let (sys, left) = serve_on c (serving s) es input.tokens in served input.fault sys left

-- What `Endpoint.Serve` is called on: no endpoint, or one with a server or without.
pub data Endpoint : Type 0 where
  no_endpoint no_server : Endpoint
  endpoint : Server → Endpoint

-- A call that holds the lock returns, and the server is left for the next one.
abbrev pub returned : Option Served → Option (Endpoint × List Line × Option Fault)
returned none = none
returned (some r) = some (endpoint r.server, r.lines, r.fault)

-- Endpoint.Serve, by the call that holds the lock.
unfoldable pub endpoint_serve :
    Config → List Event → Endpoint → Source → Option (Endpoint × List Line × Option Fault)
unfolding serve
endpoint_serve c es (endpoint s) src = returned (serve c es s src)
endpoint_serve c es e src = some (e, [], some (new_fault "connections: endpoint server is nil"))
