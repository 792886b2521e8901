-- ===== src/Server/Proc.antt =====
-- A goroutine of the server as a tree of atomic actions: a critical section on the shared state, one
-- write of a line, a wait, a read of the clock or of the random source. Between two actions any other
-- goroutine may run.
use go_acp_server.Base.{ℕ, String, List, Option, none, some}
use go_acp_server.Protocol.{Message}
use go_acp_server.Server.{Server, Line, Ctx, CtxError, Time}

pub data Result {ℓ} (A : Type ℓ) : Type ℓ where
  ok : A → Result A
  err : String → Result A

pub data Proc (A : Type 0) : Type 0 where
  ret : A → Proc A
  -- The new state is computed from the old one, and the rest may use what the old one held.
  step : (Server → Server) → (Server → Proc A) → Proc A
  -- `rpcWriter.write`, with the error that it returns.
  emit : Line → (Option String → Proc A) → Proc A
  -- `select` between a message on a channel and the end of a context.
  await : String → Ctx → (Message → Proc A) → (CtxError → Proc A) → Proc A
  random : (Option (List ℕ) → Proc A) → Proc A
  now : (Time → Proc A) → Proc A

infixl 5 ◌>>=◌ ◌>>◌
unfoldable pub ◌>>=◌ : {A B : Type 0} → Proc A → (A → Proc B) → Proc B
ret a >>= g = g a
step f k >>= g = step f (λ s. k s >>= g)
emit l k >>= g = emit l (λ r. k r >>= g)
await ch ctx k d >>= g = await ch ctx (λ m. k m >>= g) (λ e. d e >>= g)
random k >>= g = random (λ bs. k bs >>= g)
now k >>= g = now (λ t. k t >>= g)

abbrev pub ◌>>◌ : {A B : Type 0} → Proc A → Proc B → Proc B
p >> q = p >>= λ _. q

-- The critical sections that only read, and those that only write.
abbrev pub read : {A : Type 0} → (Server → A) → Proc A
read f = step (λ s. s) (λ s. ret (f s))

abbrev pub modify : (Server → Server) → Proc (Unit {0})
modify f = step f (λ _. ret tt)

-- A chain of steps that may fail, and a match on an optional value.
abbrev pub on_error : {A B : Type 0} → Result A → (String → Proc B) → (A → Proc B) → Proc B
on_error (ok a) bad good = good a
on_error (err e) bad good = bad e

-- `if err := p; err != nil`
abbrev pub on_fault : {B : Type 0} → Option String → (String → Proc B) → Proc B → Proc B
on_fault (some e) bad good = bad e
on_fault none bad good = good

abbrev pub on_none : {A B : Type 0} → Option A → Proc B → (A → Proc B) → Proc B
on_none none missing found = missing
on_none (some a) missing found = found a
