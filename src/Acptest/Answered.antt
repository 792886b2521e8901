-- ===== src/Acptest/Answered.antt =====
-- A call of `Do` of acptest/driver.go and the line of the server that answers it.
use go_acp_server.Base.{
  ℕ, zero, suc, ◌+◌, ◌%◌, ◌^◌, String, false, List, [], ◌∷◌, ◌++◌, Option, none, some, ◌≡◌, refl,
  ◌∙◌, ap, sym, arith, lookup, insert, lookup-insert_self, lookup-delete_self, length,
  length-append, Bool-cases, Option-cases, inl, inr, ◌==◌, ◌&&◌, nat_eq, nat_eq_iff, eq_refl,
}
use go_acp_server.Acptest.Calls.{
  Act, Stopped, ret, step, write, wait, ◌>>=◌, Done, collect, give_up, report, do_request,
  send_request, read_line, deliver,
}
use go_acp_server.Acptest.Driver.{
  Env, Chan, Driver, as_int64, bump_id, await_response, is_request, waiting, numbered, take_line,
  send_response,
}
use go_acp_server.Acptest.Exchanges.{run-Sound}
use go_acp_server.Acptest.Exchanges.Actions.{received_on-Answers}
use go_acp_server.Acptest.Numbering.{Numbered-snoc, take, drop, messages_in_range-slice}
use go_acp_server.Acptest.Rely.{Sound}
use go_acp_server.Acptest.System.{Answer, Event, received_on, select, advance, run, start}
use go_acp_server.Acptest.Payload.{Message, RpcId, own, id_key, line_message, messages_in_range}
use go_acp_server.Json.{Json, num}
use go_acp_server.Server.{Line}
use go_acp_server.Server.Encode.{line_json}
use go_acp_server.Acptest.Matching.{IsAnswerTo, IsExact, waiting-answer, answer-is_request}

-- A goroutine by itself until it returns or waits; its writes succeed.
unfoldable pub settle : {A : Type 0} → Driver → Act A → Driver × Act A
settle d (ret x) = (d, ret x)
settle d (step f k) = settle (f d) (k d)
settle d (write v k) = settle d (k none)
settle d (wait ch k x) = (d, wait ch k x)

abbrev pub untimed : Answer
untimed = record { fault = none; stopped = none }

-- A call runs until it waits, the read loop takes a line, and the call goes on.
abbrev pub goes_on : Driver → Act Done → Driver × Act Done
goes_on d p = let (d', q) = advance untimed d p in settle d' q

abbrev pub line_then : Env → String → Driver × Act Done → Driver × Act Done
line_then env text (d, p) = goes_on (settle d (read_line env text)).0 p

abbrev pub call_and_line : Env → String → Driver → Act Done → Driver × Act Done
call_and_line env text d p = line_then env text (settle d p)

received_on-snoc :
    (ch : Chan) (m : Message) (cs : List (Chan × Message))
    → received_on ch cs ≡ none
    → received_on ch (cs ++ (ch, m) ∷ []) ≡ some m
unfolding received_on
received_on-snoc ch m [] h = ground (arith, eq_refl ch.key, nat_eq_iff ch.start_seq ch.start_seq)
received_on-snoc ch m ((at, x) ∷ cs) h =
    elim (Bool-cases (at.key == ch.key && nat_eq at.start_seq ch.start_seq)) [
      | inl same ↦ absurd (some_none x (rw same at h))
      | inr other ↦ rw other (received_on-snoc ch m cs (rw other at h))
    ]
  where
    some_none : (y : Message) → ◌≡◌ {A = Option Message} (some y) none → ⊥
    some_none y e = cc

-- No answer is on a channel that is made now: answers come later than their channels.
channel-new :
    (env : Env) (key : String) (d : Driver)
    → Sound env d
    → received_on (record { key = key; start_seq = d.seq }) d.channels ≡ none
channel-new env key d s =
    elim (Option-cases (received_on (record { key = key; start_seq = d.seq }) d.channels)) [
      | inl nothing ↦ nothing
      | inr (m, got) ↦
          let a = received_on-Answers env _ m d.messages d.channels got s.answers in
          let p = a.placed in
          absurd (
            omega (
              arith,
              a.later,
              p.place,
              s.counted,
              ap length p.splits,
              length-append p.front (m ∷ p.back),
            ))
    ]

last-one :
    (k : ℕ) (front : List Message) (m : Message)
    → k ≡ length front
    → take 1 (drop k (front ++ m ∷ [])) ≡ m ∷ []
last-one zero [] m e = refl
last-one zero (x ∷ front) m e = absurd (omega (arith, e))
last-one (suc k) [] m e = absurd (omega (arith, e))
last-one (suc k) (x ∷ front) m e = last-one k front m (omega (arith, e))

-- The driver when a call waits.
abbrev pub registered : Env → Driver → Driver
registered env d = record d {
  next_id = (d.next_id + 1) % 2 ^ 64;
  pending = insert (id_key env.host env.float64 (own (as_int64 d.next_id))) d.seq d.pending;
}

abbrev pub chan_of_call : Env → Driver → Chan
chan_of_call env d = record {
  key = id_key env.host env.float64 (own (as_int64 d.next_id));
  start_seq = d.seq;
}

call-waits :
    (env : Env) (method : String) (params : Json) (d : Driver)
    → d.closed ≡ false
    → settle d (do_request env method params) ≡ (
      registered env d,
      wait
          (chan_of_call env d)
          (collect env (own (as_int64 d.next_id)) d.seq)
          (give_up method (own (as_int64 d.next_id)) (chan_of_call env d).key),
    )
unfolding settle do_request send_request bump_id await_response
call-waits env method params d alive = rw (alive, settle) refl

line-given :
    (env : Env) (text : String) (d : Driver) (ch : Chan)
    → is_request (line_message env.host text) ≡ false
    → waiting env (line_message env.host text) d ≡ some ch
    → settle d (read_line env text) ≡ (
      send_response ch
          (numbered (line_message env.host text) d)
          (take_line env (line_message env.host text) d),
      ret tt,
    )
unfolding settle read_line deliver ◌>>=◌
line-given env text d ch q w = rw (q, w, settle) refl

call-gets :
    (ch : Chan) (k : Message → Act Done) (m : Message) (x : Stopped → Act Done) (d : Driver)
    → received_on ch d.channels ≡ some m
    → advance untimed d (wait ch k x) ≡ (d, k m)
unfolding advance select
call-gets ch k m x d got = rw (got, select) refl

call-returns :
    (env : Env) (id : RpcId) (ch : Chan) (m : Message) (x : Stopped → Act Done) (d : Driver)
    → received_on ch d.channels ≡ some m
    → messages_in_range d.messages (ch.start_seq + 1) m.seq ≡ m ∷ []
    → (let (d', p) = advance untimed d (wait ch (collect env id ch.start_seq) x) in settle d' p)
      ≡ (d, ret (report env (record { request_id = id; messages = m ∷ []; response = m })))
unfolding settle collect ◌>>=◌
call-returns env id ch m x d got slice =
    ap (λ (y : Driver × Act Done). settle y.0 y.1)
      (call-gets ch (collect env id ch.start_seq) m x d got)
    ∙ ap (λ ms. (d, ret (report env (record { request_id = id; messages = ms; response = m }))))
        slice

-- The server's line as the driver keeps it next.
abbrev pub next_message : Env → String → Driver → Message
next_message env text d = numbered (line_message env.host text) d

sole-message :
    (env : Env) (text : String) (d : Driver)
    → Sound env d
    → messages_in_range (d.messages ++ next_message env text d ∷ []) (d.seq + 1) (d.seq + 1)
      ≡ next_message env text d ∷ []
sole-message env text d s =
    messages_in_range-slice (d.messages ++ next_message env text d ∷ []) d.seq 1
      (Numbered-snoc 0 d.messages (next_message env text d) s.numbered (omega (arith, s.counted)))
    ∙ last-one d.seq d.messages (next_message env text d) (sym s.counted)

take_line-pending :
    (env : Env) (msg : Message) (d : Driver) (ch : Chan)
    → waiting env msg d ≡ some ch
    → lookup ch.key (take_line env msg d).pending ≡ none
unfolding take_line
take_line-pending env msg d ch w = rw w (lookup-delete_self ch.key d.pending)

-- In every state that a driver gets into and that is not closed: `Do` is called and waits, the read loop
-- takes one line, which is a result or an error of the server for the id of the call, and `Do` goes
-- on. Then `Do` returns what `report` makes of that line, as the response and as the one
-- message of the exchange, and no request waits for the id. No write fails and no timer is ready, and the id is exact
-- as a float64.
pub do_request-answered :
    (env : Env) (es : List Event) (method : String) (params : Json) (text : String) (l : Line)
    → let d = (run env start es).driver in
      let m = next_message env text d in
      d.closed ≡ false
      → IsAnswerTo (num (as_int64 d.next_id)) l
      → env.host.parse text ≡ some (line_json l)
      → IsExact env.float64 (as_int64 d.next_id)
      → (d' : Driver) × (call_and_line env text d (do_request env method params) ≡ (
        d',
        ret (
            report env
              (record { request_id = own (as_int64 d.next_id); messages = m ∷ []; response = m })),
      ))
        × (lookup (id_key env.host env.float64 (own (as_int64 d.next_id))) d'.pending ≡ none)
unfolding send_response take_line
do_request-answered env es method params text l alive a p x =
    let d = (run env start es).driver in
    let s = run-Sound env es in
    let id = own (as_int64 d.next_id) in
    let ch = chan_of_call env d in
    let d1 = registered env d in
    let w =
      waiting-answer env d1 text (as_int64 d.next_id) l d.seq a p x
        (lookup-insert_self ch.key d.seq d.pending) in
    let msg = line_message env.host text in
    let d2 = send_response ch (numbered msg d1) (take_line env msg d1) in
    (
      d2,
      ap (line_then env text) (call-waits env method params d alive)
          ∙ ap
              (λ (y : Driver × Act (Unit {0})).
                goes_on y.0 (wait ch (collect env id d.seq) (give_up method id ch.key)))
              (line-given env text d1 ch (answer-is_request env text (as_int64 d.next_id) l a p) w)
          ∙ call-returns env id ch (numbered msg d1) (give_up method id ch.key) d2
              (received_on-snoc ch (numbered msg d1) d.channels (channel-new env ch.key d s))
              (sole-message env text d s),
      take_line-pending env msg d1 ch w,
    )
