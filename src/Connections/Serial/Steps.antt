-- ===== src/Connections/Serial/Steps.antt =====
-- The invariant of the lock of connections/endpoint.go, and the steps of a call.
use go_acp_server.Base.{
  ℕ, String, Bool, true, false, List, [], ◌∷◌, ◌++◌, Option, none, some, nat_eq, nat_eq_iff, ◌&&◌,
  ◌≡◌, refl, ◌∙◌, ap, sym, subst, arith, Bool-cases, inl, inr,
}
use mathlib.Core.List.{Mem, mem-cons_of_mem, mem-cons_self}
use go_acp_server.Config.{Config}
use go_acp_server.Connections.Endpoint.{
  new_call, max_line, serve_next, serve_on, served, Served, serve, serving, is_reading, all_idle,
}
use go_acp_server.Connections.Lock.{
  Task, inside, back_with, Lock, update, system_of, task_of, no_more, enter, act_in, leave, is_over,
}
use go_acp_server.Go.Fault.{Fault}
use go_acp_server.Go.Scan.{Source, scan}
use go_acp_server.Serve.{System, Event}
use go_acp_server.Server.{Server, Wire, new_wire}
use go_acp_server.Server.Proc.{ret}

-- The server behind some calls, the last one first.
abbrev pub last_server : Server → List (ℕ × Served) → Server
last_server s [] = s
last_server s ((i, r) ∷ rs) = r.server

-- The results of calls that run one after the other.
abbrev pub Sequential : Config → (ℕ → Source) → Server → List (ℕ × Served) → Type 0
Sequential c sources s [] = Unit
Sequential c sources s ((i, r) ∷ rs) =
    Sequential c sources s rs
    × (es : List Event) × (serve c es (last_server s rs) (sources i) ≡ some r)

pub update-here : {A : Type 0} (i : ℕ) (a : A) (f : ℕ → A) → update i a f i ≡ a
update-here i a f = ground (arith, nat_eq_iff i i)

pub update-other :
    {A : Type 0} (i j : ℕ) (a : A) (f : ℕ → A) → nat_eq i j ≡ false → update i a f j ≡ f j
update-other i j a f h = rw h refl

abbrev pub rewired : System → Wire → System
rewired sys w = record {
  shared = record { server = sys.shared.server; wire = w };
  reader = sys.reader;
  threads = sys.threads;
  inputs = sys.inputs;
}

pub inside-inj : (t t' : Task) → inside t ≡ inside t' → t ≡ t'
inside-inj t t' e = cc

pub serve_on-snoc :
    (c : Config) (es : List Event) (e : Event) (sys : System) (ts : List String)
    → serve_on c sys (es ++ e ∷ []) ts
      ≡ (let (sys', ts') = serve_on c sys es ts in serve_next c sys' e ts')
unfolding serve_on
serve_on-snoc c [] e sys ts = refl
serve_on-snoc c (x ∷ es) e sys ts =
    let (sys', ts') = serve_next c sys x ts in serve_on-snoc c es e sys' ts'

pub served-over :
    (fault : Option Fault) (sys : System) (left : List String)
    → (no_more left && (is_reading sys.reader && all_idle sys.threads)) ≡ true
    → served fault sys left
      ≡ some (record { server = sys.shared.server; lines = sys.shared.wire.lines; fault = fault })
unfolding served
served-over fault sys [] h = rw h refl
served-over fault sys (t ∷ ts) h = cc

module _ (c : Config) (sources : ℕ → Source) (s : Server) where
  -- No call is inside, or the one whose writer the server has.
  abbrev pub Current : Bool → Lock → List (ℕ × Served) → Type 0
  Current false l rs =
      (l.server ≡ last_server s rs) × ((i : ℕ) (t : Task) → l.stages i ≡ inside t → ⊥)
  Current true l rs =
      (t : Task) × (l.stages l.writer ≡ inside t)
      × ((i : ℕ) (t' : Task) → l.stages i ≡ inside t' → i ≡ l.writer)
      × (es : List Event) × (serve_on c (serving (last_server s rs)) es
            (scan max_line (sources l.writer)).tokens
          ≡ (system_of l t, t.left))
      × (t.fault ≡ (scan max_line (sources l.writer)).fault)

  -- The calls that have returned have results of the sequence.
  abbrev pub Recorded : Lock → List (ℕ × Served) → Type 0
  Recorded l rs =
      (i : ℕ) (f : Option Fault)
      → l.stages i ≡ back_with f
      → (r : Served) × Mem (i, r) rs × (r.lines ≡ (l.wires i).lines) × (r.fault ≡ f)

  pub record Serial (l : Lock) : Type 0 where
    pub results : List (ℕ × Served)
    pub sequential : Sequential c sources s results
    pub recorded : Recorded l results
    pub current : Current l.locked l results

  pub enter-Serial :
      (i : ℕ) (l : Lock) (k : Serial l) → Current false l k.results → Serial (enter i (sources i) l)
  unfolding serve_on
  enter-Serial i l k (same, nobody) = record {
    results = k.results;
    sequential = k.sequential;
    recorded = λ j f e. elim (Bool-cases (nat_eq i j)) [
      | inl me ↦ absurd (outsider (rw me at e))
      | inr other ↦ rw other (k.recorded j f (rw other at e))
    ];
    current = (
      _,
      update-here i _ l.stages,
      λ j t e. elim (Bool-cases (nat_eq i j)) [
        | inl me ↦ sym ((nat_eq_iff i j).0 me)
        | inr other ↦ absurd (nobody j t (rw other at e))
      ],
      [],
      entered,
      refl,
    );
  }
    where
      tokens : List String
      tokens = (scan max_line (sources i)).tokens

      state : Server → Wire → System × List String
      state server wire = (
        record {
          shared = record { server = server; wire = wire };
          reader = ret none;
          threads = [];
          inputs = [];
        },
        tokens,
      )

      entered :
          state (new_call (last_server s k.results)) new_wire
          ≡ state (new_call l.server) (update i new_wire l.wires i)
      entered =
          ap (λ x. state (new_call x) new_wire) (sym same)
          ∙ ap (state (new_call l.server)) (sym (update-here i new_wire l.wires))

      outsider : {t : Task} {f : Option Fault} → inside t ≡ back_with f → ⊥
      outsider e = cc

  pub act-Serial :
      (i : ℕ) (e : Event) (t : Task) (l : Lock) (k : Serial l)
      → l.stages i ≡ inside t
      → Current true l k.results
      → Current true (act_in c i e t l) k.results
  act-Serial i e t l k at (t', here, only, es, ran, fault) =
      let me : i ≡ l.writer = only i t at in
      let same : t' ≡ t = inside-inj t' t (sym here ∙ ap l.stages (sym me) ∙ at) in
      let (sys, left) = serve_next c (system_of l t) e t.left in
      (
        task_of sys left t.fault,
        ap (λ x. update i (inside (task_of sys left t.fault)) l.stages x) (sym me)
            ∙ update-here i _ l.stages,
        λ j t'' q. elim (Bool-cases (nat_eq i j)) [
          | inl eq ↦ sym ((nat_eq_iff i j).0 eq) ∙ me
          | inr other ↦ only j t'' (rw other at q)
        ],
        es ++ e ∷ [],
        serve_on-snoc c es e _ _
            ∙ ap (λ (x : System × List String). serve_next c x.0 e x.1)
                (ran ∙ ap (λ (x : Task). (system_of l x, x.left)) same)
            ∙ ap (λ w. (rewired sys w, left)) (sym (update-here l.writer sys.shared.wire l.wires)),
        ap (λ (x : Task). x.fault) (sym same) ∙ fault,
      )

  pub act-Recorded :
      (i : ℕ) (e : Event) (t : Task) (l : Lock) (rs : List (ℕ × Served))
      → l.stages i ≡ inside t
      → i ≡ l.writer
      → Recorded l rs
      → Recorded (act_in c i e t l) rs
  act-Recorded i e t l rs at me h j f q = elim (Bool-cases (nat_eq i j)) [
    | inl eq ↦ absurd (outsider (rw eq at q))
    | inr other ↦
        let other' : nat_eq l.writer j ≡ false = ap (λ x. nat_eq x j) (sym me) ∙ other in
        rw other' (h j f (rw other at q))
  ]
    where
      outsider : {t' : Task} {f' : Option Fault} → inside t' ≡ back_with f' → ⊥
      outsider x = cc

  pub leave-Serial :
      (i : ℕ) (t : Task) (l : Lock) (k : Serial l)
      → l.stages i ≡ inside t
      → is_over t ≡ true
      → Current true l k.results
      → Serial (leave i t.fault l)
  unfolding serve
  leave-Serial i t l k at over (t', here, only, es, ran, fault) =
      let me : i ≡ l.writer = only i t at in
      let same : t' ≡ t = inside-inj t' t (sym here ∙ ap l.stages (sym me) ∙ at) in
      let fault' = ap (λ (x : Task). x.fault) (sym same) ∙ fault in
      let r : Served = record {
        server = l.server;
        lines = (l.wires l.writer).lines;
        fault = t.fault;
      } in
      record {
        results = (l.writer, r) ∷ k.results;
        sequential = (
          k.sequential,
          es,
          ap (λ (x : System × List String). served (scan max_line (sources l.writer)).fault x.0 x.1)
                (ran ∙ ap (λ (x : Task). (system_of l x, x.left)) same)
              ∙ ap (λ x. served x (system_of l t) t.left) (sym fault')
              ∙ served-over t.fault (system_of l t) t.left over,
        );
        recorded = λ j f q. elim (Bool-cases (nat_eq i j)) [
          | inl eq ↦ (
            r,
            subst (λ x. Mem (x, r) ((l.writer, r) ∷ k.results)) (sym me ∙ (nat_eq_iff i j).0 eq)
                mem-cons_self,
            ap (λ x. (l.wires x).lines) (sym me ∙ (nat_eq_iff i j).0 eq),
            back-inj t.fault f (rw eq at q),
          )
          | inr other ↦
              let (r', m, lines, f') = k.recorded j f (rw other at q) in
              (r', mem-cons_of_mem _ m, lines, f')
        ];
        current = (
          refl,
          λ j t'' q. elim (Bool-cases (nat_eq i j)) [
            | inl eq ↦ absurd (outsider (rw eq at q))
            | inr other ↦ absurd (differ j other (me ∙ sym (only j t'' (rw other at q))))
          ],
        );
      }
    where
      back-inj : (f f' : Option Fault) → back_with f ≡ back_with f' → f ≡ f'
      back-inj f f' x = cc

      outsider : {t' : Task} {f' : Option Fault} → back_with f' ≡ inside t' → ⊥
      outsider x = cc

      differ : (j : ℕ) → nat_eq i j ≡ false → i ≡ j → ⊥
      differ j h e = ground (arith, nat_eq_iff i j, h, e)
