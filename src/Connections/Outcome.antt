-- ===== src/Connections/Outcome.antt =====
-- What the transports of connections/ make of a run of `Serve`.
use go_acp_server.Base.{
  ℕ, ◌+◌, ◌<◌, String, true, false, List, [], ◌∷◌, map, Option, none, some, ◌≡◌, refl, ◌∙◌, ap,
  arith, All, length, zero, suc,
}
use go_acp_server.Config.{Config}
use go_acp_server.Connections.Endpoint.{
  Endpoint, endpoint, endpoint_serve, returned, max_line, out_text, serving, serve_on, served,
  Served, serve,
}
use go_acp_server.Connections.Framing.{Fits, lines_text, scan-lines_text}
use go_acp_server.Connections.WebSocket.{
  Inbound, taken, read_fault, conn_error, is_conn_closed_error, trim_newlines, frame, copy_in,
  copy_out, sent_first, first_err, record_err, World, bridge_out, serve_web_socket,
}
use go_acp_server.Go.Fault.{Fault}
use go_acp_server.Go.Host.{Host}
use go_acp_server.Go.Scan.{drop_cr, Scanned, scan}
use go_acp_server.Go.Text.{◌^^◌}
use go_acp_server.Serve.{Event, System}
use go_acp_server.Server.{Server, Line}
use go_acp_server.Server.Encode.{line_json}

-- `Serve` on tokens that are there already.
abbrev pub serve_tokens : Config → List Event → Server → List String → Option Served
serve_tokens c es s ts = let (sys, left) = serve_on c (serving s) es ts in served none sys left

abbrev pub line_text : Host → Line → String
line_text h l = h.marshal (line_json l)

-- A text that a scanner gives back as it was written.
abbrev pub Kept : String → Type 0
Kept t = Fits max_line t × (drop_cr t ≡ t)

out_text-lines : (h : Host) (ls : List Line) → out_text h ls ≡ lines_text (map (line_text h) ls)
unfolding out_text
out_text-lines h [] = refl
out_text-lines h (l ∷ ls) = ap (λ x. (line_text h l ^^ "\n") ^^ x) (out_text-lines h ls)

Fits-of_Kept : (ts : List String) → All Kept ts → All (Fits max_line) ts
Fits-of_Kept [] h = tt
Fits-of_Kept (t ∷ ts) ((f, k), hs) = (f, Fits-of_Kept ts hs)

drop_cr-Kept : (ts : List String) → All Kept ts → map drop_cr ts ≡ ts
drop_cr-Kept [] h = refl
drop_cr-Kept (t ∷ ts) ((f, k), hs) = rw (k, drop_cr-Kept ts hs) refl

scan-out_text :
    (h : Host) (ls : List Line)
    → All Kept (map (line_text h) ls)
    → scan max_line (record { text = out_text h ls; fault = none })
      ≡ record { tokens = map (line_text h) ls; fault = none }
scan-out_text h ls k =
    ap (λ x. scan max_line (record { text = x; fault = none })) (out_text-lines h ls)
    ∙ scan-lines_text max_line none (map (line_text h) ls) (Fits-of_Kept _ k)
    ∙ ap (λ x. record { tokens = x; fault = none }) (drop_cr-Kept _ k)

-- The messages until the connection is closed.
abbrev pub rounds_of : List String → Fault → Inbound
rounds_of [] e = read_fault e
rounds_of (m ∷ ms) e = taken m (rounds_of ms e)

copy_in-rounds :
    (msgs : List String) (e : Fault)
    → copy_in (rounds_of msgs e) ≡ (lines_text (map trim_newlines msgs), conn_error e)
unfolding copy_in frame
copy_in-rounds [] e = refl
copy_in-rounds (m ∷ ms) e = rw (copy_in-rounds ms e) refl

copy_out-all :
    (ts : List String) → copy_out ts none [] ≡ record { texts = ts; fault = none; drained = true }
unfolding copy_out
copy_out-all [] = refl
copy_out-all (t ∷ ts) = ap (sent_first t) (copy_out-all ts)

serve-lines_text :
    (c : Config) (es : List Event) (s : Server) (ls : List String)
    → All (Fits max_line) ls
    → serve c es s (record { text = lines_text ls; fault = none })
      ≡ serve_tokens c es s (map drop_cr ls)
unfolding serve
serve-lines_text c es s ls f =
    ap
      (λ (i : Scanned).
        let (sys, left) = serve_on c (serving s) es i.tokens in served i.fault sys left)
      (scan-lines_text max_line none ls f)

-- What `ServeWebSocket` does, by what `Serve` makes of the messages as lines.
bridged :
    (c : Config) (w : World) (s : Server) (msgs : List String) (e : Fault)
    → w.rounds ≡ rounds_of msgs e
    → All (Fits max_line) (map trim_newlines msgs)
    → serve_web_socket c w (endpoint s) true
      ≡ bridge_out c w
          (conn_error e)
          (returned (serve_tokens c w.events s (map drop_cr (map trim_newlines msgs))))
unfolding serve_web_socket endpoint_serve
bridged c w s msgs e h f =
    ap
      (λ (q : String × Option Fault).
        bridge_out c w q.1 (returned (serve c w.events s (record { text = q.0; fault = none }))))
      (ap copy_in h ∙ copy_in-rounds msgs e)
    ∙ ap (λ x. bridge_out c w (conn_error e) (returned x))
        (serve-lines_text c w.events s (map trim_newlines msgs) f)

closed-silent : (e : Fault) → is_conn_closed_error e ≡ true → conn_error e ≡ none
unfolding conn_error
closed-silent e h = rw h refl

pub served-fault :
    (fault : Option Fault) (sys : System) (left : List String) (r : Served)
    → served fault sys left ≡ some r
    → r.fault ≡ fault
unfolding served
served-fault fault sys [] r h = ground (arith, h)
served-fault fault sys (t ∷ ts) r h = cc

bridged-lines :
    (c : Config) (w : World) (s : Server) (msgs : List String) (e : Fault) (r : Served)
    → w.rounds ≡ rounds_of msgs e
    → is_conn_closed_error e ≡ true
    → All (Fits max_line) (map trim_newlines msgs)
    → serve_tokens c w.events s (map drop_cr (map trim_newlines msgs)) ≡ some r
    → serve_web_socket c w (endpoint s) true
      ≡ bridge_out c w none (some (endpoint r.server, r.lines, none))
bridged-lines c w s msgs e r h q f p =
    let (sys, left) = serve_on c (serving s) w.events (map drop_cr (map trim_newlines msgs)) in
    bridged c w s msgs e h f
    ∙ ap
        (λ x.
          bridge_out c w x
            (returned (serve_tokens c w.events s (map drop_cr (map trim_newlines msgs)))))
        (closed-silent e q)
    ∙ ap (λ x. bridge_out c w none (returned x)) p
    ∙ ap (λ x. bridge_out c w none (some (endpoint r.server, r.lines, x)))
        (served-fault none sys left r p)

bridge_out-Kept :
    (c : Config) (w : World) (e : Endpoint) (ls : List Line)
    → w.writes ≡ []
    → All Kept (map (line_text c.host) ls)
    → bridge_out c w none (some (e, ls, none))
      ≡ some (record { endpoint = e; texts = map (line_text c.host) ls; error = none })
unfolding bridge_out first_err record_err
bridge_out-Kept c w e ls t k =
    rw (scan-out_text c.host ls k, t, copy_out-all (map (line_text c.host) ls)) (ground arith)

-- A client sends messages over a connection that takes every text, and closes it. If each message is without a
-- newline except at its end and below the limit of a line, and `Serve` returns on the messages as
-- its lines, and its output lines are below the limit too and end in no carriage return, then
-- `ServeWebSocket` returns with no error, each output line is one text, in their order, and the server is as
-- `Serve` leaves it.
pub serve_web_socket-lines :
    (c : Config) (w : World) (s : Server) (msgs : List String) (e : Fault) (r : Served)
    → w.rounds ≡ rounds_of msgs e
    → w.writes ≡ []
    → is_conn_closed_error e ≡ true
    → All (Fits max_line) (map trim_newlines msgs)
    → serve_tokens c w.events s (map drop_cr (map trim_newlines msgs)) ≡ some r
    → All Kept (map (line_text c.host) r.lines)
    → serve_web_socket c w (endpoint s) true
      ≡ some (record {
        endpoint = endpoint r.server;
        texts = map (line_text c.host) r.lines;
        error = none;
      })
serve_web_socket-lines c w s msgs e r h t q f p k =
    bridged-lines c w s msgs e r h q f p ∙ bridge_out-Kept c w (endpoint r.server) r.lines t k

length-map : (f : Line → String) (ls : List Line) → length (map f ls) ≡ length ls
length-map f [] = refl
length-map f (l ∷ ls) = ap suc (length-map f ls)

-- The results of `WriteText`: so many texts are taken, and the next one fails.
abbrev pub fails_after : ℕ → Fault → List (Option Fault)
fails_after zero e = some e ∷ []
fails_after (suc k) e = none ∷ fails_after k e

copy_out-fails :
    (k : ℕ) (e : Fault) (ts : List String)
    → k + 1 < length ts
    → (copy_out ts none (fails_after k e)).drained ≡ false
unfolding copy_out
copy_out-fails k e [] h = absurd (omega arith)
copy_out-fails zero e (t ∷ []) h = absurd (omega (arith, h))
copy_out-fails zero e (t ∷ t' ∷ ts) h = refl
copy_out-fails (suc k) e (t ∷ ts) h = copy_out-fails k e ts (omega (arith, h))

bridge_out-fails :
    (c : Config) (w : World) (e : Endpoint) (ls : List Line) (k : ℕ) (e' : Fault)
    → w.writes ≡ fails_after k e'
    → k + 1 < length ls
    → All Kept (map (line_text c.host) ls)
    → bridge_out c w none (some (e, ls, none)) ≡ none
unfolding bridge_out
bridge_out-fails c w e ls k e' t b kept =
    rw
      (
        scan-out_text c.host ls kept,
        t,
        copy_out-fails k e' (map (line_text c.host) ls)
            (omega (arith, length-map (line_text c.host) ls, b)),
      )
      refl

-- A write of a text that fails, when `Serve` has another line to write after it, keeps `ServeWebSocket`
-- from returning: nobody reads the pipe any more.
pub serve_web_socket-stuck :
    (c : Config) (w : World) (s : Server) (msgs : List String) (e e' : Fault) (r : Served) (k : ℕ)
    → w.rounds ≡ rounds_of msgs e
    → w.writes ≡ fails_after k e'
    → is_conn_closed_error e ≡ true
    → All (Fits max_line) (map trim_newlines msgs)
    → serve_tokens c w.events s (map drop_cr (map trim_newlines msgs)) ≡ some r
    → k + 1 < length r.lines
    → All Kept (map (line_text c.host) r.lines)
    → serve_web_socket c w (endpoint s) true ≡ none
serve_web_socket-stuck c w s msgs e e' r k h t q f p b kept =
    bridged-lines c w s msgs e r h q f p
    ∙ bridge_out-fails c w (endpoint r.server) r.lines k e' t b kept
