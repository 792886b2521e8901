-- ===== src/Connections/Http.antt =====
-- connections/http.go.
use Prim.Native.String.{[], ◌∷◌}
use go_acp_server.Base.{
  true, ℕ, suc, ◌-◌, code, String, not, List, Option, none, some, if◌then◌else◌, ◌==◌, leb,
}
use go_acp_server.Config.{Config}
use go_acp_server.Connections.Endpoint.{Endpoint, no_endpoint, endpoint_serve, out_text}
use go_acp_server.Go.Fault.{Fault, new_fault}
use go_acp_server.Go.Numbers.{ℤ, pos}
use go_acp_server.Go.Scan.{Source, char_bytes}
use go_acp_server.Go.Text.{◌^^◌}
use go_acp_server.Serve.{Event}
use go_acp_server.Server.{Line}

-- NewHTTPHandler: the limit for a body.
unfoldable pub max_body_bytes : ℤ → ℕ
max_body_bytes (pos (suc n)) = suc n
max_body_bytes _ = 4_194_304

pub record Request : Type 0 where
  pub method : String
  pub body : Source

pub record Response : Type 0 where
  pub status : ℕ
  pub headers : List (String × String)
  pub body : String

abbrev pub body_too_large : Fault
body_too_large = record (new_fault "http: request body too large") { is_too_large = true }

-- http.MaxBytesReader: of a character that the limit cuts nothing is kept.
unfoldable pub limit_body : ℕ → String → Option Fault → Source
unfolding char_bytes
limit_body n [] fault = record { text = []; fault = fault }
limit_body n (c ∷ s) fault =
    let rest = limit_body (n - char_bytes (code c)) s fault in
    if leb (char_bytes (code c)) n
    then record { text = c ∷ rest.text; fault = rest.fault }
    else record { text = []; fault = some body_too_large }

-- http.Error
abbrev pub http_error : List (String × String) → String → ℕ → Response
http_error headers text status = record {
  status = status;
  headers =
      List.◌∷◌ ("Content-Type", "text/plain; charset=utf-8")
        (List.◌∷◌ ("X-Content-Type-Options", "nosniff") headers);
  body = text ^^ "\n";
}

-- The reader of a body that passes the limit makes the server close the connection.
unfoldable pub close_header : Fault → List (String × String)
close_header e = if e.is_too_large then List.◌∷◌ ("Connection", "close") List.[] else List.[]

-- The answer by what `Serve` has left.
unfoldable pub respond : Config → List Line → Option Fault → Response
unfolding out_text close_header
respond c lines (some e) = http_error (close_header e) e.text (if e.is_eof then 400 else 500)
respond c lines none = record {
  status = 200;
  headers = List.◌∷◌ ("Content-Type", "application/x-ndjson; charset=utf-8") List.[];
  body = out_text c.host lines;
}

abbrev pub respond_to :
    Config → Option (Endpoint × List Line × Option Fault) → Option (Endpoint × Response)
respond_to c none = none
respond_to c (some (e, lines, fault)) = some (e, respond c lines fault)

-- The handler behind the check of the method.
unfoldable pub handle_post :
    Config → ℤ → List Event → Endpoint → Source → Option (Endpoint × Response)
unfolding limit_body endpoint_serve respond max_body_bytes
handle_post c opts es no_endpoint body =
    some (no_endpoint, http_error List.[] "endpoint is required" 500)
handle_post c opts es e body =
    respond_to c (endpoint_serve c es e (limit_body (max_body_bytes opts) body.text body.fault))

-- The handler; `none` if `Serve` does not return.
unfoldable pub handle_http :
    Config → ℤ → List Event → Endpoint → Request → Option (Endpoint × Response)
unfolding handle_post
handle_http c opts es e r =
    if not (r.method == "POST")
    then some (e, http_error (List.◌∷◌ ("Allow", "POST") List.[]) "method not allowed" 405)
    else handle_post c opts es e r.body
