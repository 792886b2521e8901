-- ===== src/Config.antt =====
-- What `NewServer` is given, with Go's library, and the helpers that all handlers share.
use go_acp_server.Base.{String, List, Option, none, some, zero, suc, []}
use go_acp_server.Go.Text.{◌^^◌}
use go_acp_server.Go.Host.{Host}
use go_acp_server.Json.{Json, object, Raw}
use go_acp_server.Protocol.{ContentBlock}
use go_acp_server.Prompt.Context.{PromptContext}
use go_acp_server.Prompt.Executor.{Turn}
use go_acp_server.Server.{Time}
use go_acp_server.Server.Proc.{Result, ok, err}
use go_acp_server.Tools.{RuntimeToolInfo}

pub record Config : Type 0 where
  pub host : Host
  pub version : String
  pub stream_reply : PromptContext → List ContentBlock → List RuntimeToolInfo → Turn

-- The text that decodeParams decodes.
abbrev pub params_value : Raw → Json
params_value none = object []
params_value (some v) = v

-- decodeParams: absent parameters are read as an empty object.
unfoldable pub decode_params : {A : Type 0} → Host → (Json → Option A) → Raw → Result A
decode_params h decode raw = elim (decode (params_value raw)) [
  | none ↦ err ("invalid params: " ^^ h.type_error "params" (params_value raw))
  | some a ↦ ok a
]

-- formatRFC3339UTC
unfoldable pub format_time : Host → Time → String
format_time h zero = ""
format_time h (suc t) = h.rfc3339 (suc t)
