-- ===== src/Acptest/Exchanges/Goroutines.antt =====
-- `Do` and `readLoop` of acptest/driver.go, action by action, among other goroutines.
use go_acp_server.Base.{
  ℕ, String, Bool, true, false, [], ◌∷◌, ◌++◌, Option, none, some, ◌≡◌, refl, subst, arith,
  if◌then◌else◌, Bool-cases, Option-cases, inl, inr, lookup,
}
use go_acp_server.Acptest.Calls.{
  Act, ret, Stopped, timed_out, context_done, ◌>>=◌, Done, report, collect, give_up, send_request,
  do_request, handled_or_queued, resolve_client_reply, deliver, reply_to_client_request, read_line,
}
use go_acp_server.Acptest.Driver.{
  ClientReply, Env, Chan, Driver, bump_id, queue_of, take_reply, forget_response, is_request,
  is_response, waiting, numbered, take_line, send_response,
}
use go_acp_server.Acptest.Payload.{Message, RpcId, decoded, id_key, line_message}
use go_acp_server.Acptest.Rely.{Answers, Sound, Grows-same, Answers-Grows, Good, Good-bind}
use go_acp_server.Acptest.Turn.{Exchange}
use go_acp_server.Json.{Json}
use go_acp_server.Acptest.Exchanges.Covers.{Covers, DoneCovers, collect-Covers}
use go_acp_server.Acptest.Exchanges.Sections.{
  lookup-known, take_line-Sound, send_response-Sound, await_response-Sound, await_response-messages,
  forget_response-Sound, drop_reply-Sound,
}

module _ (env : Env) where
  -- A call of `Do`.
  abbrev pub GoodCall : Driver → Act Done → Type 0
  GoodCall = Good env (DoneCovers env)

  report-Covers : (d : Driver) (ex : Exchange) → Covers env d ex → DoneCovers env d (report env ex)
  unfolding report
  report-Covers d ex h = elim (Option-cases ex.response.error) [
    | inl fine ↦ rw (fine, report) h
    | inr (e, bad) ↦ rw (bad, report) h
  ]

  give_up-GoodCall :
      (method : String) (id : RpcId) (key : String) (d : Driver) (r : Stopped)
      → GoodCall d (give_up method id key r)
  unfolding give_up forget_response ◌>>=◌
  give_up-GoodCall method id key d timed_out =
      λ d' g s. (forget_response-Sound env key d' s, Grows-same _ _ refl, tt)
  give_up-GoodCall method id key d context_done = tt

  send_request-GoodCall :
      (id : RpcId) (method : String) (params : Json) (start : ℕ) (d : Driver)
      → GoodCall d (send_request env id (id_key env.host env.float64 id) method params start)
  unfolding send_request collect forget_response ◌>>=◌
  send_request-GoodCall id method params start d none = (
    λ m d1 g1 s1 a d2 g2 s2. (
      s2,
      Grows-same d2 d2 refl,
      report-Covers d2 _ (collect-Covers env id start m d2 s2 (Answers-Grows env d1 d2 _ m g2 a)),
    ),
    give_up-GoodCall method id (id_key env.host env.float64 id) d,
  )
  send_request-GoodCall id method params start d (some e) =
      λ d' g s. (forget_response-Sound env _ d' s, Grows-same _ _ refl, tt)

  Good-if :
      (b : Bool) (d : Driver) (p q : Act Done)
      → GoodCall d p
      → GoodCall d q
      → GoodCall d (if b then p else q)
  Good-if true d p q h k = h
  Good-if false d p q h k = k

  pub do_request-GoodCall :
      (method : String) (params : Json) (d : Driver) → GoodCall d (do_request env method params)
  unfolding do_request bump_id
  do_request-GoodCall method params d = λ d1 g1 s1. (
    record { numbered = s1.numbered; counted = s1.counted; known = s1.known; answers = s1.answers },
    Grows-same _ _ refl,
    λ d2 g2 s2. (
      await_response-Sound env _ d2 s2,
      Grows-same _ _ (await_response-messages env _ d2),
      Good-if d2.closed _ _ _ tt (send_request-GoodCall _ method params d2.seq _),
    ),
  )

  -- The read loop.
  abbrev pub GoodLoop : Driver → Act (Unit {0}) → Type 0
  GoodLoop = Good env (λ d x. Unit)

  handled_or_queued-Good :
      (o : Option ClientReply) (method : String) (d : Driver)
      → Good env (λ d x. Unit) d (handled_or_queued o method)
  unfolding handled_or_queued take_reply
  handled_or_queued-Good none method d =
      λ d' g s. let (s', g') = drop_reply-Sound env method (queue_of method d') d' s in (s', g', tt)
  handled_or_queued-Good (some reply) method d = tt

  reply-GoodLoop : (req : Message) (d : Driver) → GoodLoop d (reply_to_client_request env req)
  unfolding reply_to_client_request resolve_client_reply
  reply-GoodLoop req d =
      Good-bind env (λ d x. Unit) (λ d x. Unit) _ _ d (handled_or_queued-Good _ req.method d)
        (λ reply d' g q r. tt)

  reply_if-GoodLoop :
      (b : Bool) (req : Message) (d : Driver)
      → GoodLoop d (if b then reply_to_client_request env req else ret tt)
  reply_if-GoodLoop true req d = reply-GoodLoop req d
  reply_if-GoodLoop false req d = tt

  waiting-Answers :
      (msg : Message) (d : Driver) (ch : Chan)
      → Sound env d
      → waiting env msg d ≡ some ch
      → Answers env (d.messages ++ numbered msg d ∷ []) ch (numbered msg d)
  unfolding waiting
  waiting-Answers msg d ch s e = elim (Bool-cases (is_response msg)) [
    | inr other ↦ absurd (none_some ch (rw other at e))
    | inl answer ↦
        elim (Option-cases (lookup (id_key env.host env.float64 (decoded msg.id)) d.pending)) [
          | inl unknown ↦ absurd (none_some ch (rw (answer, unknown) at e))
          | inr (start, found) ↦
              subst (λ c. Answers env (d.messages ++ numbered msg d ∷ []) c (numbered msg d))
                (some_inj _ ch (rw (answer, found) at e))
                (record {
                  later = omega (arith, lookup-known _ start d.seq d.pending found s.known);
                  placed = record {
                    front = d.messages;
                    back = [];
                    splits = refl;
                    place = omega (arith, s.counted);
                  };
                  is_answer = answer;
                  keyed = refl;
                })
        ]
  ]
    where
      none_some : (c : Chan) → ◌≡◌ {A = Option Chan} none (some c) → ⊥
      none_some c h = cc

      some_inj : (x y : Chan) → ◌≡◌ {A = Option Chan} (some x) (some y) → x ≡ y
      some_inj x y h = cc

  deliver-GoodLoop :
      (o : Option Chan) (m : Message) (d : Driver)
      → ((ch : Chan) → o ≡ some ch → Answers env d.messages ch m)
      → GoodLoop d (deliver o m)
  unfolding deliver send_response
  deliver-GoodLoop none m d a = tt
  deliver-GoodLoop (some ch) m d a = λ d' g s. (
    send_response-Sound env ch m d' (Answers-Grows env d d' ch m g (a ch refl)) s,
    Grows-same _ _ refl,
    tt,
  )

  pub read_line-GoodLoop : (line : String) (d : Driver) → GoodLoop d (read_line env line)
  unfolding read_line take_line
  read_line-GoodLoop line d = λ d1 g1 s1.
      let msg = line_message env.host line in
      (
        take_line-Sound env msg d1 s1,
        record { more = numbered msg d1 ∷ []; grown = refl },
        Good-bind env (λ x y. Unit) (λ x y. Unit) _ _ _
            (reply_if-GoodLoop (is_request msg) (numbered msg d1) _)
            (λ u d2 g2 q. deliver-GoodLoop (waiting env msg d1) (numbered msg d1) d2 (λ ch e.
              Answers-Grows env (take_line env msg d1) d2 ch _ g2
                (waiting-Answers msg d1 ch s1 e))),
      )
