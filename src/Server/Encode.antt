-- ===== src/Server/Encode.antt =====
-- The JSON of the lines that the server writes: the tags of the four outgoing structs of protocol.go.
use go_acp_server.Base.{String, [], ◌∷◌}
use go_acp_server.Go.Numbers.{ℤ}
use go_acp_server.Json.{Json, num, str, object}
use go_acp_server.Server.{Line, success, failure, request, notification}

-- rpcError
unfoldable pub error_json : ℤ → String → Json
error_json code message = object (("code", num code) ∷ ("message", str message) ∷ [])

unfoldable pub line_json : Line → Json
unfolding error_json
line_json (success id result) =
    object (("jsonrpc", str "2.0") ∷ ("id", id) ∷ ("result", result) ∷ [])
line_json (failure id code message) =
    object (("jsonrpc", str "2.0") ∷ ("id", id) ∷ ("error", error_json code message) ∷ [])
line_json (request id method params) =
    object
      (("jsonrpc", str "2.0") ∷ ("id", str id) ∷ ("method", str method) ∷ ("params", params) ∷ [])
line_json (notification method params) =
    object (("jsonrpc", str "2.0") ∷ ("method", str method) ∷ ("params", params) ∷ [])
