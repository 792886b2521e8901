-- ===== src/Server/Cancel.antt =====
-- Contexts, and the cancel flags and cancel functions of the sessions (request_handlers.go).
pub mod Turns
use go_acp_server.Base.{
  ℕ, suc, ◌+◌, String, Bool, true, false, List, [], ◌∷◌, Option, none, some, nat_eq, if◌then◌else◌,
  lookup, insert, delete, is_some,
}
use go_acp_server.Server.{Server, Ctx, CtxError, canceled, deadline_exceeded}
use go_acp_server.Server.Proc.{Proc, ret, step, ◌>>=◌, modify, on_none}

unfoldable pub find_done : List (Ctx × CtxError) → Ctx → Option CtxError
find_done [] c = none
find_done ((d, e) ∷ rest) c = if nat_eq d c then some e else find_done rest c

-- ctx.Err(): a context ends by itself, or with the context of `Serve`, whose child it is.
unfoldable pub ctx_err : Server → Ctx → Option CtxError
unfolding find_done
ctx_err s c = elim (find_done s.done c) [ none ↦ find_done s.done 0 | some e ↦ some e ]

-- The text of a context's error.
unfoldable pub ctx_error_text : CtxError → String
ctx_error_text canceled = "context canceled"
ctx_error_text deadline_exceeded = "context deadline exceeded"

-- err == context.Canceled
abbrev pub is_canceled : Option CtxError → Bool
is_canceled (some canceled) = true
is_canceled _ = false

-- Ends a context, once.
unfoldable pub end_ctx : Ctx → CtxError → Server → Server
unfolding ctx_err
end_ctx c e s = if is_some (ctx_err s c) then s else record s { done = (c, e) ∷ s.done }

-- context.WithCancel(ctx), for the context of `Serve`
unfoldable pub with_cancel : Proc Ctx
with_cancel = step (λ s. record s { next_ctx = suc s.next_ctx }) (λ s. ret s.next_ctx)

unfoldable pub cancel_session : String → Proc (Unit {0})
cancel_session session_id =
    step (λ s. record s { cancel_flags = insert session_id true s.cancel_flags })
      λ s.
        on_none (lookup session_id s.active_cancels) (ret tt) λ ctx. modify (end_ctx ctx canceled)

unfoldable pub set_active_cancel : String → Ctx → Proc (Unit {0})
set_active_cancel session_id ctx =
    modify λ s. record s { active_cancels = insert session_id ctx s.active_cancels }

unfoldable pub clear_active_cancel : String → Proc (Unit {0})
clear_active_cancel session_id =
    modify λ s. record s { active_cancels = delete session_id s.active_cancels }

unfoldable pub clear_cancel_flag : String → Proc (Unit {0})
clear_cancel_flag session_id =
    modify λ s. record s { cancel_flags = delete session_id s.cancel_flags }

-- The value of a missing key is false.
abbrev pub is_set : Option Bool → Bool
is_set none = false
is_set (some v) = v

unfoldable pub flag_of : String → Server → Bool
flag_of session_id s = is_set (lookup session_id s.cancel_flags)

unfoldable pub consume_cancel_flag : String → Proc Bool
consume_cancel_flag session_id =
    step (λ s. record s { cancel_flags = delete session_id s.cancel_flags })
      λ s. ret (flag_of session_id s)
