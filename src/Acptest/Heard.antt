-- ===== src/Acptest/Heard.antt =====
-- What the driver's `parseTurn` takes from the updates of the server's `promptUpdateWriter`.
pub mod Lines
pub mod Tools
use go_acp_server.Base.{
  String, Bool, true, false, ◌||◌, List, [], ◌∷◌, ◌++◌, none, some, ◌≡◌, refl, ◌∙◌, map, All,
  Bool-cases, inl, inr, is_some, insert, lookup,
}
use go_acp_server.Acptest.Payload.{RpcId, Message}
use go_acp_server.Acptest.Turn.{Gathered, nothing_gathered, gather_kind, gather_all, parse_turn}
use go_acp_server.Go.Host.{Host}
use go_acp_server.Go.Text.{is_blank, join}
use go_acp_server.Json.{Json, str, object, array}
use go_acp_server.Json.Decode.{fill_map, as_string}
use go_acp_server.Prompt.Executor.{perform}
use go_acp_server.Server.{Server, Line, Time}
use go_acp_server.Server.Cancel.{ctx_err}
use go_acp_server.Server.Proc.{Result, ok, Proc, ◌>>=◌}
use go_acp_server.Server.Solo.{solo, lines_in, solo-bind}
use go_acp_server.Tools.Invoke.{Invoker}
use go_acp_server.Updates.{
  plan_entry, available_command, config_option, chunk, write_session_update_raw,
  write_user_message_update, write_session_update, write_agent_thought_update, write_plan_update,
  write_available_commands_update, write_current_mode_update, write_config_option_update,
}
use text.Mathlib.TextLemmas.{nil-append}
use go_acp_server.Updates.Writer.{
  Sent, sent, Writer, user_message, agent_message, agent_thought, plan_entries, commands, mode,
  options, raw_update, send_update, assert_context, user_message_chunk, agent_message_chunk,
  agent_thought_chunk, plan, available_commands, current_mode, config_options, UpdateCall,
  call_writer,
}
use go_acp_server.Acptest.Heard.Lines.{
  IsReadBack, received, gathered, say, spoken, asked, IsPlain, concat, update_line, gather-update,
  Grows, Grows-refl, Grows-trans, gathered-append, All-split, Says, silent, Brings, chunk_members,
  agent-Brings, user-Brings,
}

-- One update, written while the context of the turn is alive.
module _ (h : Host) (w : Writer) (s : Server) (alive : ctx_err s w.ctx ≡ none) where
  one_line :
      (r : Sent) (ms : List (String × Json)) (user agent : String)
      → Brings ms user agent
      → Says h s (send_update w r (write_session_update_raw w.session_id (object ms))) user agent
  unfolding send_update write_session_update_raw assert_context gather_all ◌>>=◌
  one_line r ms user agent k = record {
    lines = update_line w.session_id ms ∷ [];
    result = r;
    runs = λ t. rw (alive, solo) refl;
    adds = λ g b.
        let q = k (record g { updates = g.updates ++ fill_map [] ms ∷ [] }) in
        rw (gather-update h w.session_id ms g b.0)
          (record { user_added = q.user_added; agent_added = q.agent_added });
  }

  -- Updates of other kinds bring no text.
  other_line :
      (r : Sent) (ms : List (String × Json))
      → Brings ms "" ""
      → Says h s (send_update w r (write_session_update_raw w.session_id (object ms))) "" ""
  other_line r ms k = one_line r ms "" "" k

  call-Says :
      (call : UpdateCall) → IsPlain call → Says h s (call_writer w call) (asked call) (spoken call)
  unfolding call_writer user_message_chunk agent_message_chunk agent_thought_chunk plan
      available_commands current_mode config_options write_user_message_update write_session_update
      write_agent_thought_update write_plan_update write_available_commands_update
      write_current_mode_update write_config_option_update chunk chunk_members gather_kind fill_map
      insert lookup as_string
  call-Says (user_message text) p = elim (Bool-cases (is_blank text)) [
    | inl b ↦ rw b (silent h s _)
    | inr n ↦
        rw n (one_line sent (chunk_members "user_message_chunk" text) text "" (user-Brings text n))
  ]
  call-Says (agent_message text) p = elim (Bool-cases (is_blank text)) [
    | inl b ↦ rw b (silent h s _)
    | inr n ↦
        rw n (one_line _ (chunk_members "agent_message_chunk" text) "" text (agent-Brings text n))
  ]
  call-Says (agent_thought text) p = elim (Bool-cases (is_blank text)) [
    | inl b ↦ rw b (silent h s _)
    | inr n ↦ rw n (other_line sent (chunk_members "agent_thought_chunk" text) (λ g. Grows-refl _))
  ]
  call-Says (plan_entries entries) p =
      other_line sent
        (("entries", array (map plan_entry entries)) ∷ ("sessionUpdate", str "plan") ∷ [])
        (λ g. Grows-refl _)
  call-Says (commands cs) p =
      other_line sent
        (("availableCommands", array (map available_command cs))
          ∷ ("sessionUpdate", str "available_commands_update")
          ∷ [])
        (λ g. Grows-refl _)
  call-Says (mode mode_id) p = elim (Bool-cases (is_blank mode_id)) [
    | inl b ↦ rw b (silent h s _)
    | inr n ↦ rw n (
        other_line sent
          (("currentModeId", str mode_id) ∷ ("sessionUpdate", str "current_mode_update") ∷ [])
          (λ g. Grows-refl _))
  ]
  call-Says (options os) p =
      other_line sent
        (("configOptions", array (map config_option os))
          ∷ ("sessionUpdate", str "config_option_update")
          ∷ [])
        (λ g. Grows-refl _)
  call-Says (raw_update u) p = elim p [ ]

  -- The calls of a turn, one after the other.
  record Plays (t : Time) (p : Proc (Result String × Bool)) (user agent text : String)
      : Type 0 where
    lines : List Line
    chunk_emitted : Bool
    runs : solo t p s ≡ some (s, lines, (ok text, chunk_emitted))
    adds : (g : Gathered) → All (IsReadBack h) lines → Grows user agent g (gathered h lines g)

  perform-Plays :
      (i : Invoker) (t : Time) (calls : List UpdateCall) (text : String) (emitted : Bool)
      → All IsPlain calls
      → Plays t
          (perform i w (say calls text) emitted)
          (concat asked calls)
          (concat spoken calls)
          text
  unfolding perform gather_all
  perform-Plays i t [] text emitted p = record {
    lines = [];
    chunk_emitted = emitted;
    runs = refl;
    adds = λ g b. Grows-refl g;
  }
  perform-Plays i t (call ∷ calls) text emitted (p, ps) =
      let first = call-Says call p in
      let rest = perform-Plays i t calls text (emitted || first.result.agent_text) ps in
      record {
        lines = first.lines ++ rest.lines;
        chunk_emitted = rest.chunk_emitted;
        runs =
            solo-bind t (call_writer w call) _ s s first.lines first.result (first.runs t)
            ∙ rw rest.runs refl;
        adds = λ g b.
            let (b1, b2) = All-split h first.lines rest.lines b in
            rw (gathered-append h first.lines rest.lines g)
              (Grows-trans g (gathered h first.lines g) _ (first.adds g b1) (rest.adds _ b2));
      }

-- The driver hears what the executor says: from the lines that a turn writes while its context is
-- alive, `parseTurn` takes as the assistant's text the texts of the executor's agent chunks, and as the
-- user's text those of its user chunks, each in the order of the calls and without the blank ones. The
-- executor does not use `Raw`, no other goroutine runs, no write fails, and each line is read back as
-- it was written.
pub parse_turn-perform :
    (h : Host) (i : Invoker) (w : Writer) (s : Server) (t : Time) (calls : List UpdateCall)
    (text session_id : String) (id : RpcId) (response : Message)
    → ctx_err s w.ctx ≡ none
    → All IsPlain calls
    → All (IsReadBack h) (lines_in (solo t (perform i w (say calls text) false) s))
    → let o = solo t (perform i w (say calls text) false) s in
      let turn =
        parse_turn
          (record { request_id = id; messages = received h (lines_in o); response = response })
          session_id in
      (is_some o ≡ true)
      × (turn.assistant_text ≡ concat spoken calls)
      × (turn.user_text ≡ concat asked calls)
unfolding parse_turn join
parse_turn-perform h i w s t calls text session_id id response alive plain back =
    let p = perform-Plays h w s alive i t calls text false plain in
    let grown = p.adds nothing_gathered (rw p.runs at back) in
    rw p.runs (refl, grown.agent_added ∙ nil-append _, grown.user_added ∙ nil-append _)
