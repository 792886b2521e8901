-- ===== src/Handlers/Direct.antt =====
-- The requests that the handlers of request_handlers.go answer without asking the client.
use go_acp_server.Base.{
  ℕ, zero, suc, String, Bool, true, false, not, ◌&&◌, List, [], ◌∷◌, Option, none, some, ◌≡◌, ◌≢◌,
  refl, length, if◌then◌else◌, ◌==◌, lookup,
}
use go_acp_server.Config.{Config, decode_params}
use go_acp_server.Go.FilePath.{is_abs}
use go_acp_server.Go.Numbers.{hex, decimal}
use go_acp_server.Go.Text.{◌^^◌, trim_space, is_blank}
use go_acp_server.Handlers.{
  handle_initialize, handle_authenticate, method_of, handle_method, handle_request, Method,
  initialize, authenticate, session_new, session_load, session_list, session_prompt,
}
use go_acp_server.Handlers.Answer.{handle_request-Owes}
use go_acp_server.Handlers.Sessions.{
  rebind_session, create_session, handle_new_session, load_session, handle_load_session,
  handle_list_sessions,
}
use go_acp_server.Json.{Json}
use go_acp_server.Protocol.{
  Message, McpServer, decode_initialize, decode_authenticate, decode_new_session,
  decode_load_session, decode_list_sessions,
}
use go_acp_server.Protocol.Replies.{empty_response}
use go_acp_server.Serve.{Choice, Shared, error_of, advance}
use go_acp_server.Server.{Server, Line, success, failure, request, notification}
use go_acp_server.Server.Answers.{normalize_id, write_result, write_error}
use go_acp_server.Server.Cancel.{clear_cancel_flag}
use go_acp_server.Server.Owes.{Owes, Pays}
use go_acp_server.Server.Proc.{
  Result, ok, err, Proc, ret, step, emit, await, random, now, ◌>>=◌, on_error, on_none, modify,
  ◌>>◌,
}
use go_acp_server.Tools.Invoke.{new_session_id}

-- The next actions of a goroutine, each with the state in which it runs and what the world answers, so
-- that others may do anything in between; the lines that it writes, and what is left of it.
unfoldable pub acts : {A : Type 0} → List (Choice × Shared) → Proc A → List Line × Proc A
unfolding advance
acts [] p = ([], p)
acts ((ch, w) ∷ turns) (emit l k) =
    let (ls, q) = acts turns (advance ch w (emit l k)).1 in (l ∷ ls, q)
acts ((ch, w) ∷ turns) p = acts turns (advance ch w p).1

-- At most so many actions are left, none of which is a wait.
abbrev Within : {A : Type 0} → ℕ → Proc A → Type 0
Within n (ret a) = Unit
Within zero _ = ⊥
Within (suc n) (step f k) = (s : Server) → Within n (k s)
Within (suc n) (emit l k) = (r : Option String) → Within n (k r)
Within (suc n) (random k) = (bs : Option (List ℕ)) → Within n (k bs)
Within (suc n) (now k) = (t : ℕ) → Within n (k t)
Within (suc n) (await key ctx k d) = ⊥

-- Among the lines are `n` answers, all with this id.
abbrev pub Answered : Json → ℕ → List Line → Type 0
Answered id n [] = n ≡ 0
Answered id n (l ∷ ls) = Pays id l n (λ m. Answered id m ls)

abbrev pub IsReturned : {A : Type 0} → Proc A → Type 0
IsReturned (ret a) = Unit
IsReturned _ = ⊥

abbrev Settled : {A : Type 0} → Json → ℕ → List Line × Proc A → Type 0
Settled id n (ls, p) = Answered id n ls × IsReturned p

acts-Settled :
    {A : Type 0} (id : Json) (n : ℕ) (turns : List (Choice × Shared)) (p : Proc A)
    → Within (length turns) p
    → Owes id n p
    → Settled id n (acts turns p)
unfolding acts advance
acts-Settled id n [] (ret a) h o = (o, tt)
acts-Settled id n [] (step f k) h o = elim h [ ]
acts-Settled id n [] (emit l k) h o = elim h [ ]
acts-Settled id n [] (random k) h o = elim h [ ]
acts-Settled id n [] (now k) h o = elim h [ ]
acts-Settled id n [] (await key ctx k d) h o = elim h [ ]
acts-Settled id n ((ch, w) ∷ turns) (ret a) h o = acts-Settled id n turns (ret a) tt o
acts-Settled id n ((ch, w) ∷ turns) (step f k) h o =
    acts-Settled id n turns (k w.server) (h w.server) (o w.server)
acts-Settled id n ((ch, w) ∷ turns) (random k) h o =
    acts-Settled id n turns (k ch.bytes) (h ch.bytes) (o ch.bytes)
acts-Settled id n ((ch, w) ∷ turns) (now k) h o =
    acts-Settled id n turns (k ch.time) (h ch.time) (o ch.time)
acts-Settled id n ((ch, w) ∷ turns) (await key ctx k d) h o = elim h [ ]
acts-Settled id n ((ch, w) ∷ turns) (emit (success j v) k) h (q, m, e, o) =
    let r = error_of ch.write_error w.wire in
    let (a, b) = acts-Settled id m turns (k r) (h r) (o r) in ((q, m, e, a), b)
acts-Settled id n ((ch, w) ∷ turns) (emit (failure j x t) k) h (q, m, e, o) =
    let r = error_of ch.write_error w.wire in
    let (a, b) = acts-Settled id m turns (k r) (h r) (o r) in ((q, m, e, a), b)
acts-Settled id n ((ch, w) ∷ turns) (emit (request i x v) k) h o =
    let r = error_of ch.write_error w.wire in acts-Settled id n turns (k r) (h r) (o r)
acts-Settled id n ((ch, w) ∷ turns) (emit (notification x v) k) h o =
    let r = error_of ch.write_error w.wire in acts-Settled id n turns (k r) (h r) (o r)

module _ (n : ℕ) where
  Within-if :
      (b : Bool) (p q : Proc (Unit {0})) → Within n p → Within n q → Within n (if b then p else q)
  Within-if true p q h k = h
  Within-if false p q h k = k

  Within-on_error :
      {B : Type 0} (r : Result B) (bad : String → Proc (Unit {0})) (good : B → Proc (Unit {0}))
      → ((e : String) → Within n (bad e))
      → ((b : B) → Within n (good b))
      → Within n (on_error r bad good)
  Within-on_error (ok b) bad good h k = k b
  Within-on_error (err e) bad good h k = h e

  Within-on_none :
      {B : Type 0} (o : Option B) (missing : Proc (Unit {0})) (found : B → Proc (Unit {0}))
      → Within n missing
      → ((b : B) → Within n (found b))
      → Within n (on_none o missing found)
  Within-on_none none missing found h k = h
  Within-on_none (some b) missing found h k = k b

new_session_id-Within :
    {A : Type 0} (n : ℕ) (g : String → Proc A)
    → ((id : String) → Within n (g id))
    → ((id : String) → Within (suc n) (g id))
    → Within (suc (suc n)) (new_session_id >>= g)
unfolding new_session_id ◌>>=◌
new_session_id-Within n g h h' = λ bs. drawn bs
  where
    drawn :
        (bs : Option (List ℕ))
        → Within (suc n) (
            (elim bs [
              | some b ↦ ret ("eino-" ^^ hex b)
              | none ↦ now λ t. ret ("eino-" ^^ decimal t)
            ])
            >>= g)
    drawn none = λ t. h ("eino-" ^^ decimal t)
    drawn (some b) = h' ("eino-" ^^ hex b)

module _ (c : Config) (req : Message) where
  refused : (n : ℕ) (code : _) (e : String) → Within (suc n) (write_error req.id code e)
  unfolding write_error
  refused n code e = λ r. tt

  handle_initialize-Within : Within 6 (handle_initialize c req)
  unfolding handle_initialize write_result ◌>>=◌
  handle_initialize-Within =
      Within-on_error 6 (decode_params c.host decode_initialize req.params) _ _ (refused 5 _)
        (λ args s r. tt)

  handle_authenticate-Within : Within 6 (handle_authenticate c req)
  unfolding handle_authenticate write_result
  handle_authenticate-Within =
      Within-on_error 6 (decode_params c.host decode_authenticate req.params) _ _ (refused 5 _)
        (λ args r. tt)

  create_session-Within :
      (cwd : String) (servers : List McpServer) → Within 6 (create_session c req cwd servers)
  unfolding create_session clear_cancel_flag write_result ◌>>=◌
  create_session-Within cwd servers =
      new_session_id-Within 4 _ (λ id t s s' r. tt) (λ id t s s' r. tt)

  handle_new_session-Within : Within 6 (handle_new_session c req)
  unfolding handle_new_session
  handle_new_session-Within =
      Within-on_error 6 (decode_params c.host decode_new_session req.params) _ _ (refused 5 _)
        λ args. Within-if 6 (args.cwd == "") _ _ (refused 5 _ _) (
          Within-if 6 (not (is_abs args.cwd)) _ _ (refused 5 _ _)
            (create_session-Within args.cwd args.mcp_servers))

  load_session-Within :
      (id cwd : String) (servers : List McpServer) → Within 6 (load_session c req id cwd servers)
  unfolding load_session clear_cancel_flag write_result ◌>>=◌
  load_session-Within id cwd servers = λ s.
      Within-on_none 5 (lookup id s.sessions) _
        (λ _.
          now (λ t. modify (rebind_session id cwd servers t))
          >> (clear_cancel_flag id >> write_result req.id empty_response))
        (refused 4 _ _) (λ session t s1 s2 r. tt)

  handle_load_session-Within : Within 6 (handle_load_session c req)
  unfolding handle_load_session
  handle_load_session-Within =
      Within-on_error 6 (decode_params c.host decode_load_session req.params) _ _ (refused 5 _)
        λ args. Within-if 6 (trim_space args.session_id == "") _ _ (refused 5 _ _) (
          Within-if 6 (is_blank args.cwd) _ _ (refused 5 _ _) (
            Within-if 6 (not (is_abs args.cwd)) _ _ (refused 5 _ _)
              (load_session-Within (trim_space args.session_id) args.cwd args.mcp_servers)))

  handle_list_sessions-Within : Within 6 (handle_list_sessions c req)
  unfolding handle_list_sessions write_result ◌>>=◌
  handle_list_sessions-Within =
      Within-on_error 6 (decode_params c.host decode_list_sessions req.params) _ _ (refused 5 _)
        λ args.
          Within-if 6 (not (trim_space args.cwd == "") && not (is_abs (trim_space args.cwd))) _ _
            (refused 5 _ _)
            (Within-if 6 (not (is_blank args.cursor)) _ _ (refused 5 _ _) (λ s r. tt))

  handle_method-Within :
      (m : Option Method) → m ≢ some session_prompt → Within 6 (handle_method c req m)
  unfolding handle_method
  handle_method-Within (some initialize) h = handle_initialize-Within
  handle_method-Within (some authenticate) h = handle_authenticate-Within
  handle_method-Within (some session_new) h = handle_new_session-Within
  handle_method-Within (some session_load) h = handle_load_session-Within
  handle_method-Within (some session_list) h = handle_list_sessions-Within
  handle_method-Within (some session_prompt) h = absurd (h refl)
  handle_method-Within none h = refused 5 _ _

  -- A request with any method but "session/prompt", known or not: once its goroutine has done six actions,
  -- whatever the other goroutines, the client and the context do between them and whatever the
  -- random source, the clock and the writes return, it has returned, and exactly one of the lines that it
  -- has given to the writer is an answer, with the request's id. So it never waits for the client.
  pub handle_request-Answered :
      (turns : List (Choice × Shared))
      → method_of req.method ≢ some session_prompt
      → length turns ≡ 6
      → Answered (normalize_id req.id) 1 (acts turns (handle_request c req)).0
        × IsReturned (acts turns (handle_request c req)).1
  unfolding handle_request
  handle_request-Answered turns other n =
      acts-Settled (normalize_id req.id) 1 turns (handle_request c req)
        (rw n (handle_method-Within (method_of req.method) other)) (handle_request-Owes c req)
