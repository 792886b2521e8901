-- ===== src/Server/Cancel/Turns.antt =====
-- What a `session/cancel` does to the turns of its session.
use go_acp_server.Base.{
  ◌==◌, if◌then◌else◌, String, Bool, true, false, ◌∷◌, none, some, ◌≡◌, refl, arith, ap, lookup,
  insert, delete, lookup-insert, lookup-insert_self, lookup-delete_self, is_some, Option-cases, inl,
  inr, nat_eq_iff,
}
use go_acp_server.Server.{Server, Ctx, CtxError, canceled}
use go_acp_server.Server.Alone.{alone}
use go_acp_server.Server.Cancel.{
  find_done, ctx_err, end_ctx, is_set, cancel_session, set_active_cancel, clear_active_cancel,
  flag_of, consume_cancel_flag,
}
use go_acp_server.Server.Proc.{ret, ◌>>=◌, ◌>>◌, on_none}

ctx_err-here :
    (c : Ctx) (e : CtxError) (s : Server) → ctx_err (record s { done = (c, e) ∷ s.done }) c ≡ some e
unfolding ctx_err find_done
ctx_err-here c e s = ground (arith, nat_eq_iff c c)

-- A context that is ended is done.
pub end_ctx-done :
    (c : Ctx) (e : CtxError) (s : Server) → is_some (ctx_err (end_ctx c e s) c) ≡ true
unfolding end_ctx
end_ctx-done c e s = elim (Option-cases (ctx_err s c)) [
  | inl alive ↦ rw alive (ap is_some (ctx_err-here c e s))
  | inr (x, over) ↦ rw over (ap is_some over)
]

-- The state with the flag of a session set.
abbrev pub flagged : String → Server → Server
flagged session_id s = record s { cancel_flags = insert session_id true s.cancel_flags }

pub cancel_session_active :
    (session_id : String) (s : Server) (c : Ctx)
    → lookup session_id s.active_cancels ≡ some c
    → alone (cancel_session session_id) s ≡ some (end_ctx c canceled (flagged session_id s), tt)
unfolding cancel_session
cancel_session_active session_id s c e = rw (e, on_none, alone) refl

pub cancel_session_idle :
    (session_id : String) (s : Server)
    → lookup session_id s.active_cancels ≡ none
    → alone (cancel_session session_id) s ≡ some (flagged session_id s, tt)
unfolding cancel_session
cancel_session_idle session_id s e = rw (e, on_none, alone) refl

pub end_ctx-flags :
    (c : Ctx) (e : CtxError) (s : Server) → (end_ctx c e s).cancel_flags ≡ s.cancel_flags
unfolding end_ctx
end_ctx-flags c e s = elim (Option-cases (ctx_err s c)) [
  | inl alive ↦ rw alive refl
  | inr (x, over) ↦ rw over refl
]

module _ (session_id : String) (s t : Server)
    (e : t.cancel_flags ≡ insert session_id true s.cancel_flags) where
  flag_set : flag_of session_id t ≡ true
  unfolding flag_of
  flag_set = rw e (ap is_set (lookup-insert_self session_id true s.cancel_flags))

  flag_after :
      (other : String) → flag_of other t ≡ (if session_id == other then true else flag_of other s)
  unfolding flag_of
  flag_after other = rw (e, lookup-insert) (is_set-if (session_id == other))
    where
      is_set-if :
          (b : Bool)
          → is_set (if b then some true else lookup other s.cancel_flags)
            ≡ (if b then true else is_set (lookup other s.cancel_flags))
      is_set-if true = refl
      is_set-if false = refl

-- A cancel for a session whose turn has registered its cancel function ends the context of that turn,
-- and sets the flag of the session and of no other.
pub cancel_ends_turn :
    (session_id : String) (s : Server) (c : Ctx)
    → lookup session_id s.active_cancels ≡ some c
    → (t : Server) × (alone (cancel_session session_id) s ≡ some (t, tt))
      × (is_some (ctx_err t c) ≡ true)
      × ((other : String)
          → flag_of other t ≡ (if session_id == other then true else flag_of other s))
unfolding flag_of
cancel_ends_turn session_id s c e =
    let t = end_ctx c canceled (flagged session_id s) in
    (
      t,
      cancel_session_active session_id s c e,
      end_ctx-done c canceled (flagged session_id s),
      flag_after session_id s t (end_ctx-flags c canceled (flagged session_id s)),
    )

-- When two turns of one session overlap, the end of the first removes the cancel function of the
-- second: a later cancel then ends no context at all, and only sets the flag.
pub overlap_loses_cancel :
    (session_id : String) (s : Server) (first second : Ctx)
    → (t : Server) × (alone
          (set_active_cancel session_id first
            >> set_active_cancel session_id second
            >> clear_active_cancel session_id
            >> cancel_session session_id)
          s
        ≡ some (t, tt))
      × (t.done ≡ s.done)
      × (flag_of session_id t ≡ true)
unfolding set_active_cancel clear_active_cancel ◌>>=◌ flag_of
overlap_loses_cancel session_id s first second =
    let u = record s {
      active_cancels =
          delete session_id (insert session_id second (insert session_id first s.active_cancels));
    } in
    (
      flagged session_id u,
      cancel_session_idle session_id u (lookup-delete_self session_id _),
      refl,
      flag_set session_id u (flagged session_id u) refl,
    )

-- The flag that a cancel sets is seen by one check and not by the next.
pub flag_seen_once :
    (session_id : String) (s : Server)
    → flag_of session_id s ≡ true
    → (t : Server) × (alone {A = Bool × Bool}
          (consume_cancel_flag session_id >>= λ first.
            consume_cancel_flag session_id >>= λ second. ret (first, second))
          s
        ≡ some (t, (true, false)))
      × (flag_of session_id t ≡ false)
unfolding consume_cancel_flag ◌>>=◌ flag_of
flag_seen_once session_id s h =
    let u = record s { cancel_flags = delete session_id s.cancel_flags } in
    let gone = ap is_set (lookup-delete_self session_id s.cancel_flags) in
    (
      record s { cancel_flags = delete session_id (delete session_id s.cancel_flags) },
      rw (h, gone) refl,
      ap is_set (lookup-delete_self session_id u.cancel_flags),
    )
