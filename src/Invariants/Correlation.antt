-- ===== src/Invariants/Correlation.antt =====
-- The two maps that match answers with calls.
use go_acp_server.Base.{
  String, none, ◌≡◌, refl, ◌==◌, lookup, insert, delete, lookup-insert, lookup-delete, eq_iff,
  Option-cases, Bool-cases, inl, inr, ◌⊎◌, arith, All, List, [], ◌∷◌,
}
use go_acp_server.Config.{Config}
use go_acp_server.Go.Text.{◌^^◌}
use go_acp_server.Handlers.Sessions.{add_session, rebind_session}
use go_acp_server.Invariants.Sections.{Preserved}
use go_acp_server.Invariants.System.{run-keeps}
use go_acp_server.Prompt.Turn.{touch}
use go_acp_server.Protocol.{McpServer, Message}
use go_acp_server.Serve.{Event, run, start}
use go_acp_server.Server.{Server, Ctx, CtxError, Time, new_server}
use go_acp_server.Server.Cancel.{ctx_err, end_ctx}
use go_acp_server.Server.Pending.{register, accept, send}

-- A call waits under its own id.
abbrev pub Named : List (String × String) → Type 0
Named m = All (λ e. e.0 ≡ "s:" ^^ e.1) m

insert-Named :
    (id : String) (m : List (String × String)) → Named m → Named (insert ("s:" ^^ id) id m)
unfolding insert
insert-Named id [] h = (refl, tt)
insert-Named id ((key, ch) ∷ m) (e, h) = elim (Bool-cases (key == "s:" ^^ id)) [
  | inl same ↦ rw same (refl, h)
  | inr other ↦ rw other (e, insert-Named id m h)
]

delete-Named : (k : String) (m : List (String × String)) → Named m → Named (delete k m)
unfolding delete
delete-Named k [] h = tt
delete-Named k ((key, ch) ∷ m) (e, h) = elim (Bool-cases (key == k)) [
  | inl same ↦ rw same (delete-Named k m h)
  | inr other ↦ rw other (e, delete-Named k m h)
]

-- No key is in both maps, and a call waits under its own id.
pub record Matched (pending : List (String × String)) (early : List (String × Message))
    : Type 0 where
  pub apart : (key : String) → (lookup key pending ≡ none) ⊎ (lookup key early ≡ none)
  pub named : Named pending

abbrev pub Correlates : Server → Type 0
Correlates s = Matched s.pending_responses s.early_responses

-- A call waits from now on; no answer has come for it.
wait-Matched :
    (id : String) (pending : List (String × String)) (early : List (String × Message))
    → lookup ("s:" ^^ id) early ≡ none
    → Matched pending early
    → Matched (insert ("s:" ^^ id) id pending) early
wait-Matched id pending early free h = record {
  apart = λ key. elim (Bool-cases ("s:" ^^ id == key)) [
    | inl same ↦ inr (ground (arith, eq_iff ("s:" ^^ id) key, free))
    | inr other ↦ rw (lookup-insert, other) (h.apart key)
  ];
  named = insert-Named id pending h.named;
}

-- A key leaves the waiting calls.
leave-Matched :
    (k : String) (pending : List (String × String)) (early : List (String × Message))
    → Matched pending early
    → Matched (delete k pending) early
leave-Matched k pending early h = record {
  apart = λ key. elim (h.apart key) [
    | inl e ↦ inl (ground (arith, lookup-delete k key pending, e))
    | inr e ↦ inr e
  ];
  named = delete-Named k pending h.named;
}

-- An answer is kept for which no call waits.
keep-Matched :
    (k : String) (msg : Message) (pending : List (String × String))
    (early : List (String × Message))
    → lookup k pending ≡ none
    → Matched pending early
    → Matched pending (insert k msg early)
keep-Matched k msg pending early free h = record {
  apart = λ key. elim (Bool-cases (k == key)) [
    | inl same ↦ inl (ground (arith, eq_iff k key, free))
    | inr other ↦ rw (lookup-insert, other) (h.apart key)
  ];
  named = h.named;
}

-- An early answer is taken.
take-Matched :
    (k : String) (pending : List (String × String)) (early : List (String × Message))
    → Matched pending early
    → Matched pending (delete k early)
take-Matched k pending early h = record {
  apart = λ key. elim (h.apart key) [
    | inl e ↦ inl e
    | inr e ↦ inr (ground (arith, lookup-delete k key early, e))
  ];
  named = h.named;
}

register-Correlates : (id : String) (s : Server) → Correlates s → Correlates (register id s)
unfolding register send
register-Correlates id s h = elim (Option-cases (lookup ("s:" ^^ id) s.early_responses)) [
  | inl e ↦ rw (e, register) (wait-Matched id _ _ e h)
  | inr (m, e) ↦ rw (e, register) (take-Matched ("s:" ^^ id) _ _ h)
]

accept-Correlates :
    (key : String) (msg : Message) (s : Server) → Correlates s → Correlates (accept key msg s)
unfolding accept
accept-Correlates key msg s h = elim (Option-cases (lookup key s.pending_responses)) [
  | inl e ↦ rw (e, accept) (keep-Matched key msg _ _ e h)
  | inr (ch, e) ↦ rw (e, accept) (leave-Matched key _ _ h)
]

end_ctx-Correlates :
    (c : Ctx) (e : CtxError) (s : Server) → Correlates s → Correlates (end_ctx c e s)
unfolding end_ctx
end_ctx-Correlates c e s h = elim (Option-cases (ctx_err s c)) [
  | inl alive ↦ rw (alive, end_ctx) h
  | inr (x, over) ↦ rw (over, end_ctx) h
]

rebind_session-Correlates :
    (id cwd : String) (ms : List McpServer) (t : Time) (s : Server)
    → Correlates s
    → Correlates (rebind_session id cwd ms t s)
unfolding rebind_session
rebind_session-Correlates id cwd ms t s h = elim (Option-cases (lookup id s.sessions)) [
  | inl missing ↦ rw (missing, rebind_session) h
  | inr (x, found) ↦ rw (found, rebind_session) h
]

touch-Correlates : (id : String) (t : Time) (s : Server) → Correlates s → Correlates (touch id t s)
unfolding touch
touch-Correlates id t s h = elim (Option-cases (lookup id s.sessions)) [
  | inl missing ↦ rw (missing, touch) h
  | inr (x, found) ↦ rw (found, touch) h
]

correlates : Preserved Correlates
unfolding send add_session
correlates = record {
  counts = λ s h. h;
  registers = register-Correlates;
  unregisters = λ id s h. leave-Matched ("s:" ^^ id) _ _ h;
  accepts = accept-Correlates;
  sends = λ ch msg s h. h;
  receives = λ ch s h. h;
  flags = λ fs s h. h;
  cancels = λ cs s h. h;
  ends = end_ctx-Correlates;
  opens = λ s h. h;
  learns = λ c s h. h;
  adds = λ id cwd ms t s d h. h;
  rebinds = λ id cwd ms t s d h. rebind_session-Correlates id cwd ms t s h;
  touches = touch-Correlates;
}

-- After every schedule, failing writes included, no id is both waited for and kept as an early
-- answer, and a call waits under no id but its own.
pub answers-Correlate : (c : Config) (es : List Event) → Correlates (run c start es).shared.server
unfolding new_server lookup
answers-Correlate = run-keeps Correlates correlates (record { apart = λ key. inl refl; named = tt })
