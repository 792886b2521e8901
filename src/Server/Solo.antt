-- ===== src/Server/Solo.antt =====
-- What a goroutine writes when no other runs, every write succeeds and it waits for nothing.
use go_acp_server.Base.{List, [], ◌∷◌, ◌++◌, Option, none, some, ◌≡◌, refl, arith}
use go_acp_server.Server.{Server, Line, Time}
use go_acp_server.Server.Proc.{Proc, ret, step, emit, await, random, now, ◌>>=◌}

abbrev pub Outcome : Type 0 → Type 0
Outcome A = Option (Server × List Line × A)

abbrev pub prepend : {A : Type 0} → List Line → Outcome A → Outcome A
prepend ls none = none
prepend ls (some (s, ms, a)) = some (s, ls ++ ms, a)

-- The state at the end, the lines and the result; `none` if it waits for a message. The clock stands
-- at `t`, and the random source fails.
abbrev pub solo : {A : Type 0} → Time → Proc A → Server → Outcome A
solo t (ret a) s = some (s, [], a)
solo t (step f k) s = solo t (k s) (f s)
solo t (emit l k) s = prepend (l ∷ []) (solo t (k none) s)
solo t (await ch ctx k d) s = none
solo t (random k) s = solo t (k none) s
solo t (now k) s = solo t (k t) s

abbrev pub lines_in : {A : Type 0} → Outcome A → List Line
lines_in none = []
lines_in (some (s, ls, a)) = ls

prepend-prepend :
    {A : Type 0} (l : Line) (ls : List Line) (o : Outcome A)
    → prepend (l ∷ []) (prepend ls o) ≡ prepend (l ∷ ls) o
prepend-prepend l ls none = refl
prepend-prepend l ls (some (s, ms, a)) = refl

prepend-nil : {A : Type 0} (o : Outcome A) → o ≡ prepend [] o
prepend-nil none = refl
prepend-nil (some (s, ms, a)) = refl

prepend-some :
    {A : Type 0} (l : Line) (o : Outcome A) (s : Server) (ls : List Line) (a : A)
    → prepend (l ∷ []) o ≡ some (s, ls, a)
    → (ms : List Line) × (o ≡ some (s, ms, a)) × (ls ≡ l ∷ ms)
prepend-some l none s ls a e = cc
prepend-some l (some (s', ms, a')) s ls a e = (ms, ground (arith, e), ground (arith, e))

pub solo-bind :
    {A B : Type 0} (t : Time) (p : Proc A) (g : A → Proc B) (s s' : Server) (ls : List Line) (a : A)
    → solo t p s ≡ some (s', ls, a)
    → solo t (p >>= g) s ≡ prepend ls (solo t (g a) s')
unfolding ◌>>=◌
solo-bind t (ret b) g s s' ls a h = cc (prepend-nil (solo t (g b) s))
solo-bind t (step f k) g s s' ls a h = solo-bind t (k s) g (f s) s' ls a h
solo-bind t (emit l k) g s s' ls a h =
    let (ms, e, shape) = prepend-some l (solo t (k none) s) s' ls a h in
    rw (shape, solo-bind t (k none) g s s' ms a e) (prepend-prepend l ms (solo t (g a) s'))
solo-bind t (await c ctx k d) g s s' ls a h = cc
solo-bind t (random k) g s s' ls a h = solo-bind t (k none) g s s' ls a h
solo-bind t (now k) g s s' ls a h = solo-bind t (k t) g s s' ls a h
