-- ===== src/Prompt/Cancelled.antt =====
-- The turns that end as cancelled: one whose session is flagged before it starts, and one that fails
-- after a cancel.
use go_acp_server.Base.{
  String, Bool, true, false, ◌||◌, ◌≡◌, refl, ◌∙◌, ap, delete, Bool-cases, inl, inr, if◌then◌else◌,
  [], ◌∷◌, some, is_some, Option-cases, lookup, lookup-insert_self, lookup-delete_self,
}
use go_acp_server.Config.{Config, decode_params}
use go_acp_server.Handlers.{handle_notification, handle_request, handle_method, method_of}
use go_acp_server.Json.{Raw}
use go_acp_server.Prompt.Turn.{turn_failed, start_turn, handle_prompt, is_empty}
use go_acp_server.Protocol.{
  Message, PromptRequest, CancelNotification, decode_prompt, decode_cancel,
}
use go_acp_server.Protocol.Replies.{prompt_response}
use go_acp_server.Serve.{Choice, Shared, advance, write}
use go_acp_server.Server.{Server, Session, Ctx, CtxError, Time, canceled, Line, success, failure}
use go_acp_server.Server.Alone.{alone}
use go_acp_server.Server.Answers.{write_result, write_error, normalize_id, err_internal_error}
use go_acp_server.Server.Cancel.{
  flag_of, is_set, ctx_err, is_canceled, end_ctx, cancel_session, consume_cancel_flag,
}
use go_acp_server.Server.Cancel.Turns.{
  flagged, cancel_session_active, cancel_session_idle, end_ctx-flags,
}
use go_acp_server.Server.Proc.{
  Proc, ret, step, emit, await, random, now, ok, ◌>>=◌, on_error, on_none,
}
use go_acp_server.Server.Solo.{solo}
use go_acp_server.Updates.Writer.{Writer}

-- The answer of a cancelled turn.
abbrev pub cancelled : Raw → Line
cancelled id = success (normalize_id id) (prompt_response "cancelled")

-- The state after a check has taken the flag of a session.
abbrev pub unflagged : String → Shared → Shared
unflagged session_id w = record w {
  server = record w.server { cancel_flags = delete session_id w.server.cancel_flags };
}

solo-alone :
    {A : Type 0} (t : Time) (p : Proc A) (s s' : Server) (a : A)
    → alone p s ≡ some (s', a)
    → solo t p s ≡ some (s', [], a)
solo-alone t (ret b) s s' a h = cc
solo-alone t (step f k) s s' a h = solo-alone t (k s) (f s) s' a h
solo-alone t (emit l k) s s' a h = cc
solo-alone t (await c ctx k d) s s' a h = cc
solo-alone t (random k) s s' a h = cc
solo-alone t (now k) s s' a h = cc

-- What a cancel of the session leaves, and what the prompt reads of it.
record IsCancelled (session_id : String) (s s' : Server) : Type 0 where
  sessions : s'.sessions ≡ s.sessions
  flag : flag_of session_id s' ≡ true

end_ctx-sessions : (c : Ctx) (e : CtxError) (s : Server) → (end_ctx c e s).sessions ≡ s.sessions
unfolding end_ctx
end_ctx-sessions c e s = elim (Bool-cases (is_some (ctx_err s c))) [
  | inl over ↦ rw over refl
  | inr alive ↦ rw alive refl
]

flagged-IsCancelled :
    (session_id : String) (s : Server) → IsCancelled session_id s (flagged session_id s)
unfolding flag_of
flagged-IsCancelled session_id s = record {
  sessions = refl;
  flag = ap is_set (lookup-insert_self session_id true s.cancel_flags);
}

cancel_session-IsCancelled :
    (t : Time) (session_id : String) (s : Server)
    → (s' : Server) × (solo t (cancel_session session_id) s ≡ some (s', [], tt))
      × IsCancelled session_id s s'
unfolding flag_of
cancel_session-IsCancelled t session_id s =
    elim (Option-cases (lookup session_id s.active_cancels)) [
      | inl idle ↦ (
        flagged session_id s,
        solo-alone t (cancel_session session_id) s _ tt (cancel_session_idle session_id s idle),
        flagged-IsCancelled session_id s,
      )
      | inr (c, active) ↦
          let f = flagged session_id s in
          let k = flagged-IsCancelled session_id s in
          (
            end_ctx c canceled f,
            solo-alone t (cancel_session session_id) s _ tt
                (cancel_session_active session_id s c active),
            record {
              sessions = end_ctx-sessions c canceled f;
              flag = ap (λ x. is_set (lookup session_id x)) (end_ctx-flags c canceled f) ∙ k.flag;
            },
          )
    ]

handle_cancel :
    (c : Config) (note : Message) (args : CancelNotification)
    → note.method ≡ "session/cancel"
    → decode_params c.host decode_cancel note.params ≡ ok args
    → handle_notification c note ≡ cancel_session args.session_id
unfolding handle_notification
handle_cancel c note args m d = rw (m, d) refl

-- The request of a prompt that is not refused, up to the test of the flag.
handle_accepted :
    (c : Config) (req : Message) (args : PromptRequest) (session : Session) (t : Time) (s : Server)
    → req.method ≡ "session/prompt"
    → decode_params c.host decode_prompt req.params ≡ ok args
    → lookup args.session_id s.sessions ≡ some session
    → is_empty args.prompt ≡ false
    → solo t (handle_request c req) s ≡ solo t (start_turn c req.id args) s
unfolding handle_request handle_method method_of handle_prompt ◌>>=◌
handle_accepted c req args session t s m d known full =
    rw (m, d, on_error) (rw (solo, known, on_none) (rw full refl))

start_turn-solo :
    (c : Config) (id : Raw) (args : PromptRequest) (t : Time) (s : Server)
    → flag_of args.session_id s ≡ true
    → solo t (start_turn c id args) s
      ≡ some
          (record s { cancel_flags = delete args.session_id s.cancel_flags }, cancelled id ∷ [], tt)
unfolding start_turn consume_cancel_flag ◌>>=◌ write_result
start_turn-solo c id args t s flag = rw (solo, flag) refl

-- A cancel of a session, whether or not a turn of it is running, and then a prompt of it that is not
-- refused (it decodes, its session is known and it has a block), with no goroutine between them and with
-- writes that succeed: the cancel writes nothing, the prompt writes the one line that says that it is
-- cancelled. The executor is not called, no context is opened, no session changes, and the flag
-- is gone, so that the next prompt is not cancelled by it.
pub cancel_then_prompt :
    (c : Config) (note req : Message) (target : CancelNotification) (args : PromptRequest)
    (session : Session) (t : Time) (s : Server)
    → note.method ≡ "session/cancel"
    → decode_params c.host decode_cancel note.params ≡ ok target
    → req.method ≡ "session/prompt"
    → decode_params c.host decode_prompt req.params ≡ ok args
    → target.session_id ≡ args.session_id
    → lookup args.session_id s.sessions ≡ some session
    → is_empty args.prompt ≡ false
    → (s1 s2 : Server) × (solo t (handle_notification c note) s ≡ some (s1, [], tt))
      × (solo t (handle_request c req) s1 ≡ some (s2, cancelled req.id ∷ [], tt))
      × (s2.sessions ≡ s.sessions)
      × (s2.next_ctx ≡ s1.next_ctx)
      × (flag_of args.session_id s2 ≡ false)
unfolding flag_of
cancel_then_prompt c note req target args session t s m d m' d' same known full =
    let (s1, ran, k) = cancel_session-IsCancelled t args.session_id s in
    let known' = ap (λ x. lookup args.session_id x) k.sessions ∙ known in
    (
      s1,
      record s1 { cancel_flags = delete args.session_id s1.cancel_flags },
      ap (λ p. solo t p s) (handle_cancel c note target m d ∙ ap cancel_session same) ∙ ran,
      handle_accepted c req args session t s1 m' d' known' full
          ∙ start_turn-solo c req.id args t s1 k.flag,
      k.sessions,
      refl,
      ap is_set (lookup-delete_self args.session_id s1.cancel_flags),
    )

-- What a failed turn answers: as cancelled if its session is flagged or its context has been
-- cancelled, and otherwise the error.
abbrev pub failure_answer : Bool → Raw → String → Line
failure_answer stopped id message =
    if stopped then cancelled id else failure (normalize_id id) err_internal_error message

-- A turn that fails takes the session's flag, then looks at its context, and then writes one answer:
-- that it is cancelled if the flag was set or the context is cancelled, and the error otherwise, also
-- when the context has only run out of time. Nothing else happens in between.
pub turn_failed_answer :
    (u : Writer) (id : Raw) (message : String) (w : Shared) (a b d : Choice)
    → let one = advance a w (turn_failed u id message) in
      let two = advance b one.0 one.1 in
      advance d two.0 two.1 ≡ (
        record (unflagged u.session_id w) {
          wire =
              write d.write_error
                (failure_answer
                  (flag_of u.session_id w.server || is_canceled (ctx_err w.server u.ctx))
                  id
                  message)
                w.wire;
        },
        ret tt,
      )
unfolding turn_failed consume_cancel_flag ◌>>=◌ advance write_result write_error ctx_err
turn_failed_answer u id message w a b d =
    elim (Bool-cases (flag_of u.session_id w.server || is_canceled (ctx_err w.server u.ctx))) [
      | inl stopped ↦ rw (stopped, advance) refl
      | inr failed ↦ rw (failed, advance) refl
    ]
