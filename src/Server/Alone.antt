-- ===== src/Server/Alone.antt =====
-- What critical sections do to the state when no other goroutine runs between them.
use go_acp_server.Base.{Option, none, some, ◌≡◌, arith}
use go_acp_server.Server.{Server}
use go_acp_server.Server.Proc.{Proc, ret, step, emit, await, random, now, ◌>>=◌}

-- The state and the result after the critical sections, `none` if there is another action.
abbrev pub alone : {A : Type 0} → Proc A → Server → Option (Server × A)
alone (ret a) s = some (s, a)
alone (step f k) s = alone (k s) (f s)
alone (emit l k) s = none
alone (await c ctx k d) s = none
alone (random k) s = none
alone (now k) s = none

pub alone-bind :
    {A B : Type 0} (p : Proc A) (g : A → Proc B) (s t : Server) (a : A)
    → alone p s ≡ some (t, a)
    → alone (p >>= g) s ≡ alone (g a) t
unfolding ◌>>=◌
alone-bind (ret b) g s t a h = ground arith
alone-bind (step f k) g s t a h = alone-bind (k s) g (f s) t a h
alone-bind (emit l k) g s t a h = cc
alone-bind (await c ctx k d) g s t a h = cc
alone-bind (random k) g s t a h = cc
alone-bind (now k) g s t a h = cc
