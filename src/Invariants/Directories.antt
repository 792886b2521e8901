-- ===== src/Invariants/Directories.antt =====
-- The directories of sessions, which `session/new` and `session/load` set.
use go_acp_server.Base.{
  String, true, false, some, ◌≡◌, refl, ◌==◌, lookup, insert, All, List, [], ◌∷◌, Option-cases,
  Bool-cases, inl, inr, subst, sym, arith,
}
use go_acp_server.Config.{Config}
use go_acp_server.Go.FilePath.{is_abs}
use go_acp_server.Go.Text.{◌^^◌, is_blank}
use go_acp_server.Handlers.Sessions.{add_session, rebind_session}
use go_acp_server.Invariants.Sections.{Preserved}
use go_acp_server.Invariants.System.{run-keeps}
use go_acp_server.Prompt.Context.{SessionSnapshot}
use go_acp_server.Prompt.Turn.{touch, snapshot_session}
use go_acp_server.Tools.Invoke.{Invoker, resolve_path}
use go_acp_server.Tools.Paths.{resolve_path-IsCleanPath}
use go_acp_server.Go.FilePath.Clean.{IsCleanPath}
use go_acp_server.Server.Alone.{alone}
use go_acp_server.Protocol.{McpServer, Message}
use go_acp_server.Serve.{Event, run, start}
use go_acp_server.Server.{Server, Session, Ctx, CtxError, Time, new_server}
use go_acp_server.Server.Cancel.{ctx_err, end_ctx}
use go_acp_server.Server.Pending.{register, accept, send}

abbrev pub Rooted : List (String × Session) → Type 0
Rooted m = All (λ e. is_abs e.1.cwd ≡ true) m

-- Every session has an absolute directory.
abbrev pub IsRooted : Server → Type 0
IsRooted s = Rooted s.sessions

-- A session with an absolute directory may be put in.
insert-Rooted :
    (id : String) (x : Session) (m : List (String × Session))
    → is_abs x.cwd ≡ true
    → Rooted m
    → Rooted (insert id x m)
unfolding insert
insert-Rooted id x [] h r = (h, tt)
insert-Rooted id x ((other, y) ∷ m) h (k, r) = elim (Bool-cases (other == id)) [
  | inl same ↦ rw same (h, r)
  | inr apart ↦ rw apart (k, insert-Rooted id x m h r)
]

-- A session that is found has an absolute directory.
lookup-Rooted :
    (id : String) (x : Session) (m : List (String × Session))
    → lookup id m ≡ some x
    → Rooted m
    → is_abs x.cwd ≡ true
unfolding lookup
lookup-Rooted id x [] e r = ground (arith, e)
lookup-Rooted id x ((other, y) ∷ m) e (k, r) = ground (arith, e, k, lookup-Rooted id x m)

register-sessions : (id : String) (s : Server) → (register id s).sessions ≡ s.sessions
unfolding register send
register-sessions id s = elim (Option-cases (lookup ("s:" ^^ id) s.early_responses)) [
  | inl e ↦ rw (e, register) refl
  | inr (m, e) ↦ rw (e, register) refl
]

accept-sessions :
    (key : String) (msg : Message) (s : Server) → (accept key msg s).sessions ≡ s.sessions
unfolding accept
accept-sessions key msg s = elim (Option-cases (lookup key s.pending_responses)) [
  | inl e ↦ rw (e, accept) refl
  | inr (ch, e) ↦ rw (e, accept) refl
]

end_ctx-sessions : (c : Ctx) (e : CtxError) (s : Server) → (end_ctx c e s).sessions ≡ s.sessions
unfolding end_ctx
end_ctx-sessions c e s = elim (Option-cases (ctx_err s c)) [
  | inl alive ↦ rw (alive, end_ctx) refl
  | inr (x, over) ↦ rw (over, end_ctx) refl
]

rebind_session-Rooted :
    (id cwd : String) (ms : List McpServer) (t : Time) (s : Server)
    → is_abs cwd ≡ true
    → IsRooted s
    → IsRooted (rebind_session id cwd ms t s)
unfolding rebind_session
rebind_session-Rooted id cwd ms t s h r = elim (Option-cases (lookup id s.sessions)) [
  | inl missing ↦ rw (missing, rebind_session) r
  | inr (x, found) ↦ rw (found, rebind_session) (insert-Rooted id _ s.sessions h r)
]

touch-Rooted : (id : String) (t : Time) (s : Server) → IsRooted s → IsRooted (touch id t s)
unfolding touch
touch-Rooted id t s r = elim (Option-cases (lookup id s.sessions)) [
  | inl missing ↦ rw (missing, touch) r
  | inr (x, found) ↦
      rw (found, touch) (insert-Rooted id _ s.sessions (lookup-Rooted id x s.sessions found r) r)
]

rooted : Preserved IsRooted
unfolding send add_session
rooted = record {
  counts = λ s r. r;
  registers = λ id s r. subst Rooted (sym (register-sessions id s)) r;
  unregisters = λ id s r. r;
  accepts = λ key msg s r. subst Rooted (sym (accept-sessions key msg s)) r;
  sends = λ ch msg s r. r;
  receives = λ ch s r. r;
  flags = λ fs s r. r;
  cancels = λ cs s r. r;
  ends = λ c e s r. subst Rooted (sym (end_ctx-sessions c e s)) r;
  opens = λ s r. r;
  learns = λ c s r. r;
  adds = λ id cwd ms t s h r. insert-Rooted id _ s.sessions h r;
  rebinds = rebind_session-Rooted;
  touches = touch-Rooted;
}

-- After every schedule, failing writes included, every session has an absolute directory.
pub sessions-IsRooted : (c : Config) (es : List Event) → IsRooted (run c start es).shared.server
unfolding new_server
sessions-IsRooted = run-keeps IsRooted rooted tt

-- What a turn takes from a session that exists.
snapshot_session-found :
    (c : Config) (id : String) (x : Session) (s : Server)
    → lookup id s.sessions ≡ some x
    → (p : SessionSnapshot × Invoker) × (alone (snapshot_session c id) s ≡ some (s, p))
      × (p.1.cwd ≡ x.cwd)
unfolding snapshot_session
snapshot_session-found c id x s found = rw (found, alone) (_, refl, refl)

-- After every schedule, the tools that a turn of any session is given resolve every path that is not
-- blank to an absolute path without empty parts, `.` and `..`.
pub tools-IsCleanPath :
    (c : Config) (es : List Event) (id path : String) (x : Session)
    → lookup id (run c start es).shared.server.sessions ≡ some x
    → is_blank path ≡ false
    → (p : SessionSnapshot × Invoker) × (alone
          (snapshot_session c id)
          (run c start es).shared.server
        ≡ some ((run c start es).shared.server, p))
      × IsCleanPath (resolve_path p.1.cwd path)
tools-IsCleanPath c es id path x found full =
    let s = (run c start es).shared.server in
    let (p, taken, same) = snapshot_session-found c id x s found in
    (
      p,
      taken,
      rw same (
          resolve_path-IsCleanPath x.cwd path
            (lookup-Rooted id x s.sessions found (sessions-IsRooted c es)) full),
    )
