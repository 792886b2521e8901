-- ===== src/Connections/Bodies.antt =====
-- Request bodies of connections/http.go, below and above the limit.
use Prim.Native.String.{[], ◌∷◌}
use go_acp_server.Base.{
  ℕ, ◌-◌, ◌≤◌, ◌<◌, code, String, List, map, Option, none, ◌≡◌, refl, ◌∙◌, ap, arith,
}
use go_acp_server.Config.{Config}
use go_acp_server.Connections.Endpoint.{
  endpoint, endpoint_serve, max_line, serving, serve_on, served, serve, returned,
}
use go_acp_server.Connections.Framing.{scan-below}
use go_acp_server.Connections.Http.{
  max_body_bytes, limit_body, respond_to, handle_post, handle_http,
}
use go_acp_server.Connections.Outcome.{serve_tokens}
use go_acp_server.Go.Fault.{Fault}
use go_acp_server.Go.Numbers.{ℤ}
use go_acp_server.Go.Scan.{char_bytes, bytes, raw_lines, drop_cr, Scanned}
use go_acp_server.Serve.{Event}
use go_acp_server.Server.{Server}

limit_body-whole :
    (n : ℕ) (s : String) (fault : Option Fault)
    → bytes s ≤ n
    → limit_body n s fault ≡ record { text = s; fault = fault }
unfolding limit_body bytes
limit_body-whole n [] fault h = refl
limit_body-whole n (c ∷ s) fault h =
    rw (limit_body-whole (n - char_bytes (code c)) s fault (omega (arith, h))) (ground (arith, h))

-- A POST with a body that is read without an error, is within the limit and below the limit of a line,
-- is answered by what `Serve` makes of the body's lines, each without one carriage return at its end.
pub handle_http-lines :
    (c : Config) (opts : ℤ) (es : List Event) (s : Server) (text : String)
    → bytes text ≤ max_body_bytes opts
    → bytes text < max_line
    → handle_http c opts es
        (endpoint s)
        (record { method = "POST"; body = record { text = text; fault = none } })
      ≡ respond_to c (returned (serve_tokens c es s (map drop_cr (raw_lines text))))
unfolding handle_http handle_post endpoint_serve serve
handle_http-lines c opts es s text h b =
    ap (λ x. respond_to c (returned (serve c es s x)))
      (limit_body-whole (max_body_bytes opts) text none h)
    ∙ ap
        (λ (i : Scanned). respond_to c (
          returned
            (let (sys, left) = serve_on c (serving s) es i.tokens in served i.fault sys left)))
        (scan-below max_line (record { text = text; fault = none }) b)
