-- ===== src/Prompt/Executor.antt =====
-- A `PromptExecutor` as what it does in one turn: calls of its update writer and of its tools, looks
-- at its context, and a return. What it computes in between is in the functions of the tree.
use go_acp_server.Base.{String, Bool, ◌||◌, Option}
use go_acp_server.Server.{Ctx, CtxError}
use go_acp_server.Server.Cancel.{ctx_err}
use go_acp_server.Server.Proc.{Result, ok, err, Proc, ret, step, ◌>>=◌}
use go_acp_server.Tools.Invoke.{Invoker, invoke_tool}
use go_acp_server.Updates.Writer.{Writer, UpdateCall, call_writer}

pub data Turn : Type 0 where
  reply : String → Turn
  fail : String → Turn
  update : UpdateCall → (Option String → Turn) → Turn
  -- The context of the call, its id, the tool's name and the arguments.
  invoke : Ctx → String → String → String → (Result String → Turn) → Turn
  check : (Option CtxError → Turn) → Turn

-- Runs a turn; the Boolean says whether an agent chunk has been sent.
unfoldable pub perform : Invoker → Writer → Turn → Bool → Proc (Result String × Bool)
perform i w (reply text) chunk_emitted = ret (ok text, chunk_emitted)
perform i w (fail e) chunk_emitted = ret (err e, chunk_emitted)
perform i w (update call k) chunk_emitted =
    call_writer w call >>= λ s. perform i w (k s.error) (chunk_emitted || s.agent_text)
perform i w (invoke ctx id name args_json k) chunk_emitted =
    invoke_tool i ctx id name args_json >>= λ r. perform i w (k r) chunk_emitted
perform i w (check k) chunk_emitted =
    step (λ s. s) λ s. perform i w (k (ctx_err s w.ctx)) chunk_emitted
