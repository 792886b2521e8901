-- ===== src/Go/Fault.antt =====
-- Errors with what `errors.Is` finds in their chains.
use go_acp_server.Base.{String, Bool, false}

pub record Fault : Type 0 where
  pub text : String
  pub is_eof : Bool
  pub is_net_closed : Bool
  pub is_closed_pipe : Bool
  pub is_canceled : Bool
  -- *http.MaxBytesError
  pub is_too_large : Bool

-- errors.New
abbrev pub new_fault : String → Fault
new_fault text = record {
  text = text;
  is_eof = false;
  is_net_closed = false;
  is_closed_pipe = false;
  is_canceled = false;
  is_too_large = false;
}
