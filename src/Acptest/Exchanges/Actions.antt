-- ===== src/Acptest/Exchanges/Actions.antt =====
-- One action of a goroutine of acptest/driver.go, among others.
use go_acp_server.Base.{
  ℕ, zero, suc, Bool, true, false, List, [], ◌∷◌, Option, none, some, ◌≡◌, refl, ◌∙◌, subst, All,
  Bool-cases, inl, inr, ◌==◌, nat_eq, nat_eq_iff, eq_iff, ◌&&◌,
}
use go_acp_server.Acptest.Calls.{
  Act, ret, step, write, wait, Stopped, Done, answered, refused, failed,
}
use go_acp_server.Acptest.Driver.{Env, Chan, Driver}
use go_acp_server.Acptest.Payload.{Message}
use go_acp_server.Acptest.Rely.{Answers, Sound, Grows, Grows-same, Good, Good-Grows, All-map}
use go_acp_server.Acptest.Exchanges.Covers.{DoneCovers, exchange-Grows}
use go_acp_server.Acptest.Exchanges.Goroutines.{GoodCall, GoodLoop}
use go_acp_server.Acptest.System.{received_on, Answer, select, advance, System, run_caller}

-- The goroutines keep the invariant, and their results cover what was exchanged.
pub record Invariant (env : Env) (sys : System) : Type 0 where
  pub sound : Sound env sys.driver
  pub reads_on : GoodLoop env sys.driver sys.reader
  pub calls_on : All (GoodCall env sys.driver) sys.callers

pub Covers-Grows :
    (env : Env) (r : Done) (d d' : Driver) → Grows d d' → DoneCovers env d r → DoneCovers env d' r
Covers-Grows env (answered ex) d d' g h = exchange-Grows env ex d d' g h
Covers-Grows env (refused ex e) d d' g h = exchange-Grows env ex d d' g h
Covers-Grows env (failed e) d d' g h = tt

pub GoodCall-Grows :
    (env : Env) (d d' : Driver) (p : Act Done) → Grows d d' → GoodCall env d p → GoodCall env d' p
GoodCall-Grows env d d' p g h = Good-Grows env (DoneCovers env) (Covers-Grows env) p d d' g h

pub GoodLoop-Grows :
    (env : Env) (d d' : Driver) (p : Act (Unit {0}))
    → Grows d d'
    → GoodLoop env d p
    → GoodLoop env d' p
GoodLoop-Grows env d d' p g h = Good-Grows env (λ e u. Unit) (λ a e e' i k. tt) p d d' g h

pub &&-split : (a b : Bool) → (a && b) ≡ true → (a ≡ true) × (b ≡ true)
&&-split true true e = (refl, refl)
&&-split true false e = cc
&&-split false b e = cc

pub Answers-same :
    (env : Env) (at ch : Chan) (m : Message) (msgs : List Message)
    → at.key ≡ ch.key
    → at.start_seq ≡ ch.start_seq
    → Answers env msgs at m
    → Answers env msgs ch m
Answers-same env at ch m msgs k s a = record {
  later = rw (← s) a.later;
  placed = a.placed;
  is_answer = a.is_answer;
  keyed = a.keyed ∙ k;
}

pub some_inj : (x y : Message) → ◌≡◌ {A = Option Message} (some x) (some y) → x ≡ y
some_inj x y h = cc

pub received_on-Answers :
    (env : Env) (ch : Chan) (m : Message) (msgs : List Message) (cs : List (Chan × Message))
    → received_on ch cs ≡ some m
    → All (λ (e : Chan × Message). Answers env msgs e.0 e.1) cs
    → Answers env msgs ch m
unfolding received_on
received_on-Answers env ch m msgs [] e h = cc
received_on-Answers env ch m msgs ((at, x) ∷ cs) e (a, h) =
    elim (Bool-cases (at.key == ch.key && nat_eq at.start_seq ch.start_seq)) [
      | inr other ↦ received_on-Answers env ch m msgs cs (rw other at e) h
      | inl same ↦
          let (left, right) = &&-split (at.key == ch.key) (nat_eq at.start_seq ch.start_seq) same in
          Answers-same env at ch m msgs ((eq_iff at.key ch.key).0 left)
            ((nat_eq_iff at.start_seq ch.start_seq).0 right)
            (subst (λ y. Answers env msgs at y) (some_inj x m (rw same at e)) a)
    ]

-- One action of a goroutine.
module _ (env : Env) {A : Type 0} (Q : Driver → A → Type 0) where
  pub select-Good :
      (o : Option Stopped) (ch : Chan) (k : Message → Act A) (x : Stopped → Act A) (d : Driver)
      → Sound env d
      → Good env Q d (wait ch k x)
      → Good env Q d (select o ch k x d)
  unfolding select
  select-Good (some r) ch k x d s (h, h') = h' r
  select-Good none ch k x d s (h, h') = received (received_on ch d.channels) refl
    where
      received :
          (o : Option Message)
          → received_on ch d.channels ≡ o
          → Good env Q d (elim o [ none ↦ wait ch k x | some m ↦ k m ])
      received none e = (h, h')
      received (some m) e =
          h m d (Grows-same d d refl) s
            (received_on-Answers env ch m d.messages d.channels e s.answers)

  pub advance-Good :
      (a : Answer) (d : Driver) (p : Act A)
      → Sound env d
      → Good env Q d p
      → Sound env (advance a d p).0
        × Grows d (advance a d p).0
        × Good env Q (advance a d p).0 (advance a d p).1
  unfolding advance
  advance-Good a d (ret x) s h = (s, Grows-same d d refl, h)
  advance-Good a d (step f k) s h = h d (Grows-same d d refl) s
  advance-Good a d (write v k) s h = (s, Grows-same d d refl, h a.fault)
  advance-Good a d (wait ch k x) s h = (s, Grows-same d d refl, select-Good a.stopped ch k x d s h)

pub run_caller-Good :
    (env : Env) (a : Answer) (d : Driver) (n : ℕ) (ps : List (Act Done))
    → Sound env d
    → All (GoodCall env d) ps
    → Sound env (run_caller a d n ps).0
      × Grows d (run_caller a d n ps).0
      × All (GoodCall env (run_caller a d n ps).0) (run_caller a d n ps).1
unfolding run_caller
run_caller-Good env a d n [] s h = (s, Grows-same d d refl, tt)
run_caller-Good env a d zero (p ∷ ps) s (h, hs) =
    let (s', g, h') = advance-Good env (DoneCovers env) a d p s h in
    (s', g, (h', All-map _ _ ps (λ q k. GoodCall-Grows env d _ q g k) hs))
run_caller-Good env a d (suc n) (p ∷ ps) s (h, hs) =
    let (s', g, hs') = run_caller-Good env a d n ps s hs in
    (s', g, (GoodCall-Grows env d _ p g h, hs'))
