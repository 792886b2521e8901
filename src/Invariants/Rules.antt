-- ===== src/Invariants/Rules.antt =====
-- When a goroutine keeps an invariant of the shared state: each of its critical sections does, from
-- every state in which the invariant holds.
use go_acp_server.Base.{String, Bool, true, false, ◌≡◌, refl, Option, none, some, if◌then◌else◌}
use go_acp_server.Server.{Server}
use go_acp_server.Server.Proc.{
  Result, ok, err, Proc, ret, step, emit, await, random, now, ◌>>=◌, on_error, on_none, on_fault,
}

module _ (I : Server → Type 0) where
  abbrev pub Keeps : {A : Type 0} → Proc A → Type 0
  Keeps (ret a) = Unit
  Keeps (step f k) = (s : Server) → I s → I (f s) × Keeps (k s)
  Keeps (emit l k) = (r : Option String) → Keeps (k r)
  Keeps (await c ctx k d) = ((m : _) → Keeps (k m)) × ((e : _) → Keeps (d e))
  Keeps (random k) = (bs : _) → Keeps (k bs)
  Keeps (now k) = (t : _) → Keeps (k t)

  pub Keeps-bind :
      {A B : Type 0} (p : Proc A) (g : A → Proc B)
      → Keeps p
      → ((a : A) → Keeps (g a))
      → Keeps (p >>= g)
  unfolding ◌>>=◌
  Keeps-bind (ret a) g h hg = hg a
  Keeps-bind (step f k) g h hg = λ s i. ((h s i).0, Keeps-bind (k s) g (h s i).1 hg)
  Keeps-bind (emit l k) g h hg = λ r. Keeps-bind (k r) g (h r) hg
  Keeps-bind (await c ctx k d) g (h, h') hg =
      (λ m. Keeps-bind (k m) g (h m) hg, λ e. Keeps-bind (d e) g (h' e) hg)
  Keeps-bind (random k) g h hg = λ bs. Keeps-bind (k bs) g (h bs) hg
  Keeps-bind (now k) g h hg = λ t. Keeps-bind (k t) g (h t) hg

  module _ {A : Type 0} where
    pub Keeps-if : (b : Bool) (p q : Proc A) → Keeps p → Keeps q → Keeps (if b then p else q)
    Keeps-if true p q h k = h
    Keeps-if false p q h k = k

    -- The same where the second branch uses that the test has failed.
    pub Keeps-unless :
        (b : Bool) (p q : Proc A) → Keeps p → (b ≡ false → Keeps q) → Keeps (if b then p else q)
    Keeps-unless true p q h k = h
    Keeps-unless false p q h k = k refl

    pub Keeps-on_error :
        {B : Type 0} (r : Result B) (bad : String → Proc A) (good : B → Proc A)
        → ((e : String) → Keeps (bad e))
        → ((b : B) → Keeps (good b))
        → Keeps (on_error r bad good)
    Keeps-on_error (ok b) bad good h k = k b
    Keeps-on_error (err e) bad good h k = h e

    pub Keeps-on_none :
        {B : Type 0} (o : Option B) (missing : Proc A) (found : B → Proc A)
        → Keeps missing
        → ((b : B) → Keeps (found b))
        → Keeps (on_none o missing found)
    Keeps-on_none none missing found h k = h
    Keeps-on_none (some b) missing found h k = k b

    pub Keeps-on_fault :
        (o : Option String) (bad : String → Proc A) (good : Proc A)
        → ((e : String) → Keeps (bad e))
        → Keeps good
        → Keeps (on_fault o bad good)
    Keeps-on_fault none bad good h k = k
    Keeps-on_fault (some e) bad good h k = h e
