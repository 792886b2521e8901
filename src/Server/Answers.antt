-- ===== src/Server/Answers.antt =====
-- `writeResult` and `writeError` of server.go. Both drop the error of the write, which is logged.
use go_acp_server.Base.{String, none, some}
use go_acp_server.Go.Numbers.{ℤ, negsuc}
use go_acp_server.Json.{Json, null, Raw}
use go_acp_server.Server.{success, failure}
use go_acp_server.Server.Proc.{Proc, ret, emit}

abbrev pub err_parse_error : ℤ
err_parse_error = negsuc 32699

abbrev pub err_invalid_request : ℤ
err_invalid_request = negsuc 32599

abbrev pub err_method_not_found : ℤ
err_method_not_found = negsuc 32600

abbrev pub err_invalid_params : ℤ
err_invalid_params = negsuc 32601

abbrev pub err_internal_error : ℤ
err_internal_error = negsuc 32602

-- normalizeID
unfoldable pub normalize_id : Raw → Json
normalize_id none = null
normalize_id (some v) = v

unfoldable pub write_result : Raw → Json → Proc (Unit {0})
write_result id result = emit (success (normalize_id id) result) λ _. ret tt

unfoldable pub write_error : Raw → ℤ → String → Proc (Unit {0})
write_error id code message = emit (failure (normalize_id id) code message) λ _. ret tt
