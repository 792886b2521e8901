-- ===== src/Acptest/Exchanges/Covers.antt =====
-- The exchange that `Do` of acptest/driver.go makes of an answer.
use go_acp_server.Base.{
  ℕ, zero, suc, ◌+◌, ◌-◌, ◌≤◌, true, List, [], ◌∷◌, ◌++◌, ◌≡◌, refl, ◌∙◌, ap, sym, arith, length,
}
use mathlib.Core.List.{append_assoc}
use go_acp_server.Acptest.Calls.{Done, answered, refused, failed}
use go_acp_server.Acptest.Driver.{Env, Driver, is_response}
use go_acp_server.Acptest.Numbering.{drop, take, take-drop, messages_in_range-slice}
use go_acp_server.Acptest.Payload.{Message, RpcId, decoded, id_key, messages_in_range}
use go_acp_server.Acptest.Rely.{Answers, Sound, Grows}
use go_acp_server.Acptest.Turn.{Exchange}

-- The exchange has all lines from some line on to its answer, which is the last one and is for its id.
pub record Covers (env : Env) (d : Driver) (ex : Exchange) : Type 0 where
  pub front : List Message
  pub between : List Message
  pub back : List Message
  pub whole : d.messages ≡ front ++ (ex.messages ++ back)
  pub ends : ex.messages ≡ between ++ ex.response ∷ []
  pub is_answer : is_response ex.response ≡ true
  pub keyed :
      id_key env.host env.float64 (decoded ex.response.id)
      ≡ id_key env.host env.float64 ex.request_id

abbrev pub DoneCovers : Env → Driver → Done → Type 0
DoneCovers env d (answered ex) = Covers env d ex
DoneCovers env d (refused ex e) = Covers env d ex
DoneCovers env d (failed e) = Unit

take-through :
    (k : ℕ) (front : List Message) (m : Message) (back : List Message)
    → k ≡ length front
    → take (suc k) (front ++ m ∷ back) ≡ front ++ m ∷ []
take-through k [] m back e = let e' : 0 ≡ k = omega (arith, e) in rw (← e') refl
take-through zero (x ∷ front) m back e = absurd (omega (arith, e))
take-through (suc k) (x ∷ front) m back e =
    ap (◌∷◌ x) (take-through k front m back (omega (arith, e)))

slice-placed :
    (start count : ℕ) (front : List Message) (m : Message) (back : List Message)
    → start + count ≡ length front + 1
    → start ≤ length front
    → take count (drop start (front ++ m ∷ back)) ≡ drop start front ++ m ∷ []
slice-placed zero count front m back e b =
    let e' : suc (length front) ≡ count = omega (arith, e) in
    rw (← e') (take-through (length front) front m back refl)
slice-placed (suc start) count [] m back e b = absurd (omega arith)
slice-placed (suc start) count (x ∷ front) m back e b =
    slice-placed start count front m back (omega (arith, e)) (omega arith)

-- What `Do` makes of an answer.
pub collect-Covers :
    (env : Env) (id : RpcId) (start : ℕ) (m : Message) (d : Driver)
    → Sound env d
    → Answers env d.messages (record { key = id_key env.host env.float64 id; start_seq = start }) m
    → Covers env d (record {
      request_id = id;
      messages = messages_in_range d.messages (start + 1) m.seq;
      response = m;
    })
collect-Covers env id start m d s a =
    let count = m.seq - start in
    let same : m.seq ≡ start + count = omega (arith, a.later) in
    let slice =
      ap (messages_in_range d.messages (start + 1)) same
      ∙ messages_in_range-slice d.messages start count s.numbered in
    record {
      front = take start d.messages;
      between = drop start a.placed.front;
      back = drop count (drop start d.messages);
      whole = sym (
          ap (λ x. take start d.messages ++ (x ++ drop count (drop start d.messages))) slice
          ∙ ap (λ x. take start d.messages ++ x) (take-drop count (drop start d.messages))
          ∙ take-drop start d.messages);
      ends =
          slice
          ∙ ap (λ x. take count (drop start x)) a.placed.splits
          ∙ slice-placed start count a.placed.front m a.placed.back
              (omega (arith, a.placed.place, a.later)) (omega (arith, a.placed.place, a.later));
      is_answer = a.is_answer;
      keyed = a.keyed;
    }

pub exchange-Grows :
    (env : Env) (ex : Exchange) (d d' : Driver) → Grows d d' → Covers env d ex → Covers env d' ex
exchange-Grows env ex d d' g c = record {
  front = c.front;
  between = c.between;
  back = c.back ++ g.more;
  whole =
      g.grown
      ∙ ap (λ x. x ++ g.more) c.whole
      ∙ append_assoc c.front (ex.messages ++ c.back) g.more
      ∙ ap (λ x. c.front ++ x) (append_assoc ex.messages c.back g.more);
  ends = c.ends;
  is_answer = c.is_answer;
  keyed = c.keyed;
}
