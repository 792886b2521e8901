-- ===== src/Acptest/Rely.antt =====
-- The invariant of the driver's state, and goroutines that keep it while the others do.
use go_acp_server.Base.{
  ℕ, ◌+◌, ◌≤◌, ◌<◌, String, true, List, [], ◌∷◌, ◌++◌, Option, ◌≡◌, refl, ◌∙◌, ap, sym, All, length,
  insert, delete, Bool-cases, inl, inr, ◌==◌,
}
use mathlib.Core.List.{append_assoc, append-nil}
use go_acp_server.Acptest.Calls.{Act, ret, step, write, wait, Stopped, ◌>>=◌}
use go_acp_server.Acptest.Driver.{Env, Chan, Driver, is_response}
use go_acp_server.Acptest.Numbering.{Numbered}
use go_acp_server.Acptest.Payload.{Message, decoded, id_key}

-- The message stands at the place of its number.
pub record Placed (m : Message) (msgs : List Message) : Type 0 where
  pub front : List Message
  pub back : List Message
  pub splits : msgs ≡ front ++ m ∷ back
  pub place : m.seq ≡ length front + 1

-- An answer for the channel: it came after the channel was registered.
pub record Answers (env : Env) (msgs : List Message) (ch : Chan) (m : Message) : Type 0 where
  pub later : ch.start_seq < m.seq
  pub placed : Placed m msgs
  pub is_answer : is_response m ≡ true
  pub keyed : id_key env.host env.float64 (decoded m.id) ≡ ch.key

pub record Sound (env : Env) (d : Driver) : Type 0 where
  pub numbered : Numbered 0 d.messages
  pub counted : length d.messages ≡ d.seq
  pub known : All (λ (e : String × ℕ). e.1 ≤ d.seq) d.pending
  pub answers : All (λ (e : Chan × Message). Answers env d.messages e.0 e.1) d.channels

-- The driver forgets no message.
pub record Grows (d d' : Driver) : Type 0 where
  pub more : List Message
  pub grown : d'.messages ≡ d.messages ++ more

pub Grows-same : (d d' : Driver) → d'.messages ≡ d.messages → Grows d d'
Grows-same d d' e = record { more = []; grown = e ∙ sym (append-nil d.messages) }

pub Grows-trans : (d d' d'' : Driver) → Grows d d' → Grows d' d'' → Grows d d''
Grows-trans d d' d'' p q = record {
  more = p.more ++ q.more;
  grown = q.grown ∙ ap (λ x. x ++ q.more) p.grown ∙ append_assoc d.messages p.more q.more;
}

pub Placed-append :
    (m : Message) (msgs more : List Message) → Placed m msgs → Placed m (msgs ++ more)
Placed-append m msgs more p = record {
  front = p.front;
  back = p.back ++ more;
  splits = ap (λ x. x ++ more) p.splits ∙ append_assoc p.front (m ∷ p.back) more;
  place = p.place;
}

pub Answers-append :
    (env : Env) (msgs more : List Message) (ch : Chan) (m : Message)
    → Answers env msgs ch m
    → Answers env (msgs ++ more) ch m
Answers-append env msgs more ch m a = record {
  later = a.later;
  placed = Placed-append m msgs more a.placed;
  is_answer = a.is_answer;
  keyed = a.keyed;
}

pub Answers-Grows :
    (env : Env) (d d' : Driver) (ch : Chan) (m : Message)
    → Grows d d'
    → Answers env d.messages ch m
    → Answers env d'.messages ch m
Answers-Grows env d d' ch m g a = rw g.grown (Answers-append env d.messages g.more ch m a)

-- What a goroutine does keeps the invariant and ends with a result that satisfies `Q`, from a state
-- that has grown to at least `d`, and if the others keep the invariant too.
module _ (env : Env) {A : Type 0} (Q : Driver → A → Type 0) where
  abbrev pub Good : Driver → Act A → Type 0
  Good d (ret a) = Q d a
  Good d (step f k) =
      (d' : Driver)
      → Grows d d'
      → Sound env d'
      → Sound env (f d') × Grows d' (f d') × Good (f d') (k d')
  Good d (write v k) = (r : Option String) → Good d (k r)
  Good d (wait ch k x) =
      ((m : Message) (d' : Driver)
        → Grows d d'
        → Sound env d'
        → Answers env d'.messages ch m
        → Good d' (k m))
      × ((r : Stopped) → Good d (x r))

  pub Good-Grows :
      ((a : A) (d d' : Driver) → Grows d d' → Q d a → Q d' a)
      → (p : Act A) (d d' : Driver) → Grows d d'
      → Good d p
      → Good d' p
  Good-Grows mono (ret a) d d' g h = mono a d d' g h
  Good-Grows mono (step f k) d d' g h = λ e i s. h e (Grows-trans d d' e g i) s
  Good-Grows mono (write v k) d d' g h = λ r. Good-Grows mono (k r) d d' g (h r)
  Good-Grows mono (wait ch k x) d d' g (h, h') =
      (λ m e i s a. h m e (Grows-trans d d' e g i) s a, λ r. Good-Grows mono (x r) d d' g (h' r))

pub Good-bind :
    (env : Env) {A B : Type 0} (Q : Driver → A → Type 0) (R : Driver → B → Type 0) (p : Act A)
    (g : A → Act B) (d : Driver)
    → Good env Q d p
    → ((a : A) (d' : Driver) → Grows d d' → Q d' a → Good env R d' (g a))
    → Good env R d (p >>= g)
unfolding ◌>>=◌
Good-bind env Q R (ret a) g d h k = k a d (Grows-same d d refl) h
Good-bind env Q R (step f c) g d h k = λ e i s.
    let (s', i', h') = h e i s in
    (
      s',
      i',
      Good-bind env Q R (c e) g (f e) h'
          (λ a e' j. k a e' (Grows-trans d (f e) e' (Grows-trans d e (f e) i i') j)),
    )
Good-bind env Q R (write v c) g d h k = λ r. Good-bind env Q R (c r) g d (h r) k
Good-bind env Q R (wait ch c x) g d (h, h') k = (
  λ m e i s a.
      Good-bind env Q R (c m) g e (h m e i s a) (λ b e' j. k b e' (Grows-trans d e e' i j)),
  λ r. Good-bind env Q R (x r) g d (h' r) k,
)

pub All-insert :
    {V : Type 0} (P : String × V → Type 0) (key : String) (v : V) (m : List (String × V))
    → P (key, v)
    → All P m
    → All P (insert key v m)
unfolding insert
All-insert P key v [] h hs = (h, tt)
All-insert P key v ((at, w) ∷ m) h (k, hs) = elim (Bool-cases (at == key)) [
  | inl same ↦ rw same (h, hs)
  | inr other ↦ rw other (k, All-insert P key v m h hs)
]

pub All-delete :
    {V : Type 0} (P : String × V → Type 0) (key : String) (m : List (String × V))
    → All P m
    → All P (delete key m)
unfolding delete
All-delete P key [] hs = tt
All-delete P key ((at, w) ∷ m) (k, hs) = elim (Bool-cases (at == key)) [
  | inl same ↦ rw same (All-delete P key m hs)
  | inr other ↦ rw other (k, All-delete P key m hs)
]

pub All-map :
    {A : Type 0} (P Q : A → Type 0) (xs : List A) → ((x : A) → P x → Q x) → All P xs → All Q xs
All-map P Q [] f h = tt
All-map P Q (x ∷ xs) f (h, hs) = (f x h, All-map P Q xs f hs)
