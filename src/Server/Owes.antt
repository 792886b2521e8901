-- ===== src/Server/Owes.antt =====
-- How many answers a goroutine still writes, on every path that it may take and whatever the other
-- goroutines do between its actions.
use go_acp_server.Base.{
  ℕ, suc, ◌+◌, String, subst, Bool, true, false, Option, none, some, ◌≡◌, refl, arith,
  if◌then◌else◌,
}
use go_acp_server.Json.{Json}
use go_acp_server.Server.{Server, Line, success, failure, request, notification}
use go_acp_server.Server.Proc.{
  Result, ok, err, Proc, ret, step, emit, await, random, now, ◌>>=◌, on_error, on_none, on_fault,
}

-- A line that is an answer has the id and is one of the `n`; what follows writes the others.
abbrev pub Pays : Json → Line → ℕ → (ℕ → Type 0) → Type 0
Pays id (success j r) n K = (j ≡ id) × (m : ℕ) × (n ≡ suc m) × K m
Pays id (failure j c t) n K = (j ≡ id) × (m : ℕ) × (n ≡ suc m) × K m
Pays id (request i m p) n K = K n
Pays id (notification m p) n K = K n

-- On every path exactly `n` answers are written, all with this id.
abbrev pub Owes : {A : Type 0} → Json → ℕ → Proc A → Type 0
Owes id n (ret a) = n ≡ 0
Owes id n (step f k) = (s : Server) → Owes id n (k s)
Owes id n (emit l k) = Pays id l n (λ m. (r : Option String) → Owes id m (k r))
Owes id n (await c ctx k d) = ((m : _) → Owes id n (k m)) × ((e : _) → Owes id n (d e))
Owes id n (random k) = (bs : _) → Owes id n (k bs)
Owes id n (now k) = (t : _) → Owes id n (k t)

-- No answer is written.
abbrev pub Quiet : {A : Type 0} → Proc A → Type 0
Quiet p = (id : Json) → Owes id 0 p

module _ {A B : Type 0} (id : Json) where
  pub Owes-bind :
      (p : Proc A) (g : A → Proc B) (m n k : ℕ)
      → k ≡ m + n
      → Owes id m p
      → ((a : A) → Owes id n (g a))
      → Owes id k (p >>= g)
  unfolding ◌>>=◌
  Owes-bind (ret a) g m n k e h hg = subst (λ x. Owes id x (g a)) (omega arith) (hg a)
  Owes-bind (step f c) g m n k e h hg = λ s. Owes-bind (c s) g m n k e (h s) hg
  Owes-bind (emit (success j r) c) g m n k e (q, m', e', h) hg =
      (q, m' + n, omega arith, λ r. Owes-bind (c r) g m' n (m' + n) refl (h r) hg)
  Owes-bind (emit (failure j x t) c) g m n k e (q, m', e', h) hg =
      (q, m' + n, omega arith, λ r. Owes-bind (c r) g m' n (m' + n) refl (h r) hg)
  Owes-bind (emit (request i x t) c) g m n k e h hg = λ r. Owes-bind (c r) g m n k e (h r) hg
  Owes-bind (emit (notification x t) c) g m n k e h hg = λ r. Owes-bind (c r) g m n k e (h r) hg
  Owes-bind (await c ctx y d) g m n k e (h, h') hg =
      (λ x. Owes-bind (y x) g m n k e (h x) hg, λ x. Owes-bind (d x) g m n k e (h' x) hg)
  Owes-bind (random c) g m n k e h hg = λ bs. Owes-bind (c bs) g m n k e (h bs) hg
  Owes-bind (now c) g m n k e h hg = λ t. Owes-bind (c t) g m n k e (h t) hg

  -- Nothing is answered before, and nothing after.
  pub Owes-after :
      (p : Proc A) (g : A → Proc B) (n : ℕ)
      → Quiet p
      → ((a : A) → Owes id n (g a))
      → Owes id n (p >>= g)
  Owes-after p g n h hg = Owes-bind p g 0 n n (omega arith) (h id) hg

  pub Owes-before :
      (p : Proc A) (g : A → Proc B) (n : ℕ)
      → Owes id n p
      → ((a : A) → Quiet (g a))
      → Owes id n (p >>= g)
  Owes-before p g n h hg = Owes-bind p g n 0 n (omega arith) h (λ a. hg a id)

pub Quiet-bind :
    {A B : Type 0} (p : Proc A) (g : A → Proc B)
    → Quiet p
    → ((a : A) → Quiet (g a))
    → Quiet (p >>= g)
Quiet-bind p g h hg id = Owes-after id p g 0 h (λ a. hg a id)

module _ {A : Type 0} (id : Json) (n : ℕ) where
  pub Owes-if :
      (b : Bool) (p q : Proc A) → Owes id n p → Owes id n q → Owes id n (if b then p else q)
  Owes-if true p q h k = h
  Owes-if false p q h k = k

  pub Owes-on_error :
      {B : Type 0} (r : Result B) (bad : String → Proc A) (good : B → Proc A)
      → ((e : String) → Owes id n (bad e))
      → ((b : B) → Owes id n (good b))
      → Owes id n (on_error r bad good)
  Owes-on_error (ok b) bad good h k = k b
  Owes-on_error (err e) bad good h k = h e

  pub Owes-on_none :
      {B : Type 0} (o : Option B) (missing : Proc A) (found : B → Proc A)
      → Owes id n missing
      → ((b : B) → Owes id n (found b))
      → Owes id n (on_none o missing found)
  Owes-on_none none missing found h k = h
  Owes-on_none (some b) missing found h k = k b

  pub Owes-on_fault :
      (o : Option String) (bad : String → Proc A) (good : Proc A)
      → ((e : String) → Owes id n (bad e))
      → Owes id n good
      → Owes id n (on_fault o bad good)
  Owes-on_fault none bad good h k = k
  Owes-on_fault (some e) bad good h k = h e
