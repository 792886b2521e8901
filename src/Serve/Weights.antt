-- ===== src/Serve/Weights.antt =====
-- The answers that a goroutine still writes, counted with a weight for each id.
use go_acp_server.Base.{
  ℕ, ◌+◌, ◌*◌, String, List, [], ◌∷◌, ◌++◌, Option, none, ◌≡◌, refl, subst, arith, Bool, lookup,
  Option-cases, Bool-cases, inl, inr,
}
use go_acp_server.Json.{Json}
use go_acp_server.Server.{
  Server, Line, Wire, success, failure, request, notification, Ctx, CtxError,
}
use go_acp_server.Server.Cancel.{ctx_err}
use go_acp_server.Server.Owes.{Owes}
use go_acp_server.Server.Proc.{Proc, ret, step, emit, await, random, now, ◌>>=◌}
use go_acp_server.Protocol.{Message}
use go_acp_server.Serve.{Choice, write, error_of, select, Shared, advance}

module _ (w : Json → ℕ) where
  abbrev pub line_weight : Line → ℕ
  line_weight (success id r) = w id
  line_weight (failure id c t) = w id
  line_weight (request i m p) = 0
  line_weight (notification m p) = 0

  -- The weight of the answers among some lines.
  abbrev pub total : List Line → ℕ
  total [] = 0
  total (l ∷ ls) = line_weight l + total ls

  pub total-append : (ls : List Line) (l : Line) → total (ls ++ l ∷ []) ≡ total ls + line_weight l
  total-append [] l = omega arith
  total-append (x ∷ ls) l = omega (arith, total-append ls l)

  total-write :
      (fault : Option String) (l : Line) (out : Wire)
      → fault ≡ none
      → out.error ≡ none
      → total (write fault l out).lines ≡ total out.lines + line_weight l
  unfolding write
  total-write fault l out f q = ground (arith, total-append out.lines l)

  -- On every path the answers written weigh `n`, less what is due for the result.
  abbrev pub Weighs : {A : Type 0} → (A → ℕ) → ℕ → Proc A → Type 0
  Weighs due n (ret a) = n ≡ due a
  Weighs due n (step f k) = (s : Server) → Weighs due n (k s)
  Weighs due n (emit l k) =
      (m : ℕ) × (n ≡ line_weight l + m) × ((r : Option String) → Weighs due m (k r))
  Weighs due n (await c ctx k d) =
      ((m : Message) → Weighs due n (k m)) × ((e : CtxError) → Weighs due n (d e))
  Weighs due n (random k) = (bs : Option (List ℕ)) → Weighs due n (k bs)
  Weighs due n (now k) = (t : ℕ) → Weighs due n (k t)

  module _ {A B : Type 0} (due : B → ℕ) (id : Json) where
    -- A part that owes answers, and then the rest.
    pub Weighs-bind :
        (p : Proc A) (g : A → Proc B) (m n k : ℕ)
        → k ≡ m * w id + n
        → Owes id m p
        → ((a : A) → Weighs due n (g a))
        → Weighs due k (p >>= g)
    unfolding ◌>>=◌
    Weighs-bind (ret a) g m n k e h hg =
        subst (λ x. Weighs due x (g a)) (rw (e, h) (omega arith)) (hg a)
    Weighs-bind (step f c) g m n k e h hg = λ s. Weighs-bind (c s) g m n k e (h s) hg
    Weighs-bind (emit (success j r) c) g m n k e (q, m', e', h) hg = (
      m' * w id + n,
      rw (e, e', q) (omega arith),
      λ r. Weighs-bind (c r) g m' n (m' * w id + n) refl (h r) hg,
    )
    Weighs-bind (emit (failure j x t) c) g m n k e (q, m', e', h) hg = (
      m' * w id + n,
      rw (e, e', q) (omega arith),
      λ r. Weighs-bind (c r) g m' n (m' * w id + n) refl (h r) hg,
    )
    Weighs-bind (emit (request i x t) c) g m n k e h hg =
        (k, omega arith, λ r. Weighs-bind (c r) g m n k e (h r) hg)
    Weighs-bind (emit (notification x t) c) g m n k e h hg =
        (k, omega arith, λ r. Weighs-bind (c r) g m n k e (h r) hg)
    Weighs-bind (await c ctx y d) g m n k e (h, h') hg =
        (λ x. Weighs-bind (y x) g m n k e (h x) hg, λ x. Weighs-bind (d x) g m n k e (h' x) hg)
    Weighs-bind (random c) g m n k e h hg = λ bs. Weighs-bind (c bs) g m n k e (h bs) hg
    Weighs-bind (now c) g m n k e h hg = λ t. Weighs-bind (c t) g m n k e (h t) hg

  pub Owes-Weighs :
      {A : Type 0} (id : Json) (p : Proc A) (m n : ℕ)
      → n ≡ m * w id
      → Owes id m p
      → Weighs (λ _. 0) n p
  Owes-Weighs id (ret a) m n e h = rw (e, h) (omega arith)
  Owes-Weighs id (step f c) m n e h = λ s. Owes-Weighs id (c s) m n e (h s)
  Owes-Weighs id (emit (success j r) c) m n e (q, k, e', h) =
      (k * w id, rw (e, e', q) (omega arith), λ r. Owes-Weighs id (c r) k (k * w id) refl (h r))
  Owes-Weighs id (emit (failure j x t) c) m n e (q, k, e', h) =
      (k * w id, rw (e, e', q) (omega arith), λ r. Owes-Weighs id (c r) k (k * w id) refl (h r))
  Owes-Weighs id (emit (request i x t) c) m n e h =
      (n, omega arith, λ r. Owes-Weighs id (c r) m n e (h r))
  Owes-Weighs id (emit (notification x t) c) m n e h =
      (n, omega arith, λ r. Owes-Weighs id (c r) m n e (h r))
  Owes-Weighs id (await c ctx y d) m n e (h, h') =
      (λ x. Owes-Weighs id (y x) m n e (h x), λ x. Owes-Weighs id (d x) m n e (h' x))
  Owes-Weighs id (random c) m n e h = λ bs. Owes-Weighs id (c bs) m n e (h bs)
  Owes-Weighs id (now c) m n e h = λ t. Owes-Weighs id (c t) m n e (h t)

  -- What one action of a goroutine leaves to be written, without faults of the writer.
  module _ {A : Type 0} (due : A → ℕ) where
    abbrev pub Left : ℕ → Shared → Shared × Proc A → Type 0
    Left n before after =
        (m : ℕ) × Weighs due m after.1
        × (total after.0.wire.lines + m ≡ total before.wire.lines + n)
        × (after.0.wire.error ≡ none)

    select-Left :
        (ended : Bool) (ch : String) (ctx : Ctx) (k : Message → Proc A) (d : CtxError → Proc A)
        (s : Shared) (n : ℕ)
        → s.wire.error ≡ none
        → ((m : Message) → Weighs due n (k m))
        → ((e : CtxError) → Weighs due n (d e))
        → Left n s (
            let (server, p) = select ended ch ctx k d s.server in (record s { server = server }, p))
    unfolding select
    select-Left ended ch ctx k d s n q hk hd = elim (Option-cases (ctx_err s.server ctx)) [
      | inl alive ↦ elim (Option-cases (lookup ch s.server.channels)) [
        | inl empty ↦ rw (alive, empty, select) (n, (hk, hd), refl, q)
        | inr (m, full) ↦ rw (alive, full, select) (n, hk m, refl, q)
      ]
      | inr (x, over) ↦ elim (Option-cases (lookup ch s.server.channels)) [
        | inl empty ↦ rw (over, empty, select) (n, hd x, refl, q)
        | inr (m, full) ↦ elim (Bool-cases ended) [
          | inl first ↦ rw (over, full, first, select) (n, hd x, refl, q)
          | inr later ↦ rw (over, full, later, select) (n, hk m, refl, q)
        ]
      ]
    ]

    pub advance-Left :
        (ch : Choice) (s : Shared) (p : Proc A) (n : ℕ)
        → ch.write_error ≡ none
        → s.wire.error ≡ none
        → Weighs due n p
        → Left n s (advance ch s p)
    unfolding advance write error_of
    advance-Left ch s (ret a) n f q h = (n, h, refl, q)
    advance-Left ch s (step g k) n f q h = (n, h s.server, refl, q)
    advance-Left ch s (emit l k) n f q (m, e, h) =
        (m, h _, omega (arith, total-write ch.write_error l s.wire f q, e), ground arith)
    advance-Left ch s (await c ctx k d) n f q (h, h') =
        select-Left ch.ended_first c ctx k d s n q h h'
    advance-Left ch s (random k) n f q h = (n, h ch.bytes, refl, q)
    advance-Left ch s (now k) n f q h = (n, h ch.time, refl, q)
