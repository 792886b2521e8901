-- ===== src/Server/Writes.antt =====
-- What the lines that a goroutine writes have in common, on every path that it may take.
use go_acp_server.Base.{String, Bool, true, false, ◌≡◌, refl, Option, none, some, if◌then◌else◌}
use go_acp_server.Server.{Server, Line}
use go_acp_server.Server.Proc.{
  Result, ok, err, Proc, ret, step, emit, await, random, now, ◌>>=◌, on_error, on_none, on_fault,
}

-- Every line written satisfies `P`.
abbrev pub Writes : {A : Type 0} → (Line → Type 0) → Proc A → Type 0
Writes P (ret a) = Unit
Writes P (step f k) = (s : Server) → Writes P (k s)
Writes P (emit l k) = P l × ((r : Option String) → Writes P (k r))
Writes P (await c ctx k d) = ((m : _) → Writes P (k m)) × ((e : _) → Writes P (d e))
Writes P (random k) = (bs : _) → Writes P (k bs)
Writes P (now k) = (t : _) → Writes P (k t)

module _ (P : Line → Type 0) where
  pub Writes-bind :
      {A B : Type 0} (p : Proc A) (g : A → Proc B)
      → Writes P p
      → ((a : A) → Writes P (g a))
      → Writes P (p >>= g)
  unfolding ◌>>=◌
  Writes-bind (ret a) g h hg = hg a
  Writes-bind (step f k) g h hg = λ s. Writes-bind (k s) g (h s) hg
  Writes-bind (emit l k) g (h, hs) hg = (h, λ r. Writes-bind (k r) g (hs r) hg)
  Writes-bind (await c ctx k d) g (h, h') hg =
      (λ m. Writes-bind (k m) g (h m) hg, λ e. Writes-bind (d e) g (h' e) hg)
  Writes-bind (random k) g h hg = λ bs. Writes-bind (k bs) g (h bs) hg
  Writes-bind (now k) g h hg = λ t. Writes-bind (k t) g (h t) hg

  module _ {A : Type 0} where
    -- Each branch may use what the test says.
    pub Writes-if :
        (b : Bool) (p q : Proc A)
        → (b ≡ true → Writes P p)
        → (b ≡ false → Writes P q)
        → Writes P (if b then p else q)
    Writes-if true p q h k = h refl
    Writes-if false p q h k = k refl

    pub Writes-on_error :
        {B : Type 0} (r : Result B) (bad : String → Proc A) (good : B → Proc A)
        → ((e : String) → Writes P (bad e))
        → ((b : B) → Writes P (good b))
        → Writes P (on_error r bad good)
    Writes-on_error (ok b) bad good h k = k b
    Writes-on_error (err e) bad good h k = h e

    pub Writes-on_none :
        {B : Type 0} (o : Option B) (missing : Proc A) (found : B → Proc A)
        → Writes P missing
        → ((b : B) → o ≡ some b → Writes P (found b))
        → Writes P (on_none o missing found)
    Writes-on_none none missing found h k = h
    Writes-on_none (some b) missing found h k = k b refl

    pub Writes-on_fault :
        (o : Option String) (bad : String → Proc A) (good : Proc A)
        → ((e : String) → Writes P (bad e))
        → Writes P good
        → Writes P (on_fault o bad good)
    Writes-on_fault none bad good h k = k
    Writes-on_fault (some e) bad good h k = h e
