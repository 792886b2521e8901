-- ===== src/Tests/Turns.antt =====
-- Turns: what an executor does, its tools and its updates, and cancellation.
use go_acp_server.Base.{
  List, String, Bool, true, false, [], ◌∷◌, none, some, ◌≡◌, refl, if◌then◌else◌, ◌==◌, lookup,
  is_some, ◌||◌,
}
use go_acp_server.Go.FilePath.{is_abs}
use go_acp_server.Go.FilePath.Clean.{IsCleanPath}
use go_acp_server.Go.Numbers.{pos}
use go_acp_server.Go.Text.{is_blank}
use go_acp_server.Json.{Json, num, str, array, object}
use go_acp_server.Prompt.Answer.{perform-Quiet}
use go_acp_server.Prompt.Executor.{perform}
use go_acp_server.Protocol.{Message, no_message, decode_cancel, decode_prompt}
use go_acp_server.Serve.{Shared, advance, write}
use go_acp_server.Server.{Server, canceled, new_server, new_wire}
use go_acp_server.Server.Alone.{alone}
use go_acp_server.Server.Cancel.{
  cancel_session, ctx_err, find_done, is_canceled, flag_of, set_active_cancel, clear_active_cancel,
  consume_cancel_flag,
}
use go_acp_server.Server.Cancel.Turns.{cancel_ends_turn, overlap_loses_cancel, flag_seen_once}
use go_acp_server.Server.Owes.{Quiet}
use go_acp_server.Server.Proc.{ret, ◌>>=◌, ◌>>◌}
use go_acp_server.Server.Writes.{Writes}
use go_acp_server.Tools.{tool_infos, tool_of}
use go_acp_server.Tools.Invoke.{invoke_tool, resolve_path}
use go_acp_server.Tools.Paths.{resolve_path-IsCleanPath}
use go_acp_server.Tools.Permitted.{Permitted, invoke_tool-Permitted}
use go_acp_server.Tools.Infos.{lists, allows, tool_infos-allowed}
use go_acp_server.Updates.Writer.{agent_message, call_writer}
use go_acp_server.Updates.Ended.{SendsNothing, call_writer-SendsNothing}
use go_acp_server.Prompt.Cancelled.{
  cancelled, unflagged, failure_answer, cancel_then_prompt, turn_failed_answer,
}
use go_acp_server.Prompt.Turn.{turn_failed}
use go_acp_server.Handlers.{handle_notification, handle_request}
use go_acp_server.Config.{decode_params}
use go_acp_server.Server.Solo.{solo}
use go_acp_server.Tests.{made, reading_turn, config, good, reading, invoker, writer, busy}

perform-Quiet_example : Quiet (perform invoker writer reading_turn false)
perform-Quiet_example = perform-Quiet invoker writer reading_turn false

invoke_tool-Permitted_example :
    Writes
      (Permitted invoker)
      (invoke_tool invoker 1 "call-1" "fs_read_text_file" "{\"path\":\"notes.txt\"}")
invoke_tool-Permitted_example =
    invoke_tool-Permitted invoker 1 "call-1" "fs_read_text_file" "{\"path\":\"notes.txt\"}"

tool_infos-allowed_example :
    lists "terminal_kill" (tool_infos reading) ≡ allows reading (tool_of "terminal_kill")
tool_infos-allowed_example = tool_infos-allowed reading "terminal_kill"

resolve_path-IsCleanPath_example : IsCleanPath (resolve_path "/work" " ../notes/./a.txt ")
unfolding is_abs is_blank
resolve_path-IsCleanPath_example = resolve_path-IsCleanPath "/work" " ../notes/./a.txt " refl refl

cancel_ends_turn_example :
    (t : Server) × (alone (cancel_session "eino-1") busy ≡ some (t, tt))
    × (is_some (ctx_err t 1) ≡ true)
    × ((other : String)
        → flag_of other t ≡ (if "eino-1" == other then true else flag_of other busy))
unfolding lookup
cancel_ends_turn_example = cancel_ends_turn "eino-1" busy 1 refl

overlap_loses_cancel_example :
    (t : Server) × (alone
        (set_active_cancel "eino-1" 1
          >> set_active_cancel "eino-1" 2
          >> clear_active_cancel "eino-1"
          >> cancel_session "eino-1")
        new_server
      ≡ some (t, tt))
    × (t.done ≡ new_server.done)
    × (flag_of "eino-1" t ≡ true)
overlap_loses_cancel_example = overlap_loses_cancel "eino-1" new_server 1 2

flag_seen_once_example :
    (t : Server) × (alone {A = Bool × Bool}
        (consume_cancel_flag "eino-1" >>= λ first.
          consume_cancel_flag "eino-1" >>= λ second. ret (first, second))
        busy
      ≡ some (t, (true, false)))
    × (flag_of "eino-1" t ≡ false)
unfolding flag_of lookup
flag_seen_once_example = flag_seen_once "eino-1" busy refl

abbrev shared : Shared
shared = record { server = busy; wire = new_wire }

abbrev cancel_note : Message
cancel_note = record no_message {
  jsonrpc = "2.0";
  method = "session/cancel";
  params = some (object (("sessionId", str "eino-1") ∷ []));
}

abbrev hello_block : List (String × Json)
hello_block = ("text", str "hello") ∷ ("type", str "text") ∷ []

abbrev hello_prompt : Message
hello_prompt = record no_message {
  jsonrpc = "2.0";
  id = some (num (pos 3));
  method = "session/prompt";
  params =
      some
        (object (("prompt", array (object hello_block ∷ [])) ∷ ("sessionId", str "eino-1") ∷ []));
}

-- A session with a turn that runs.
abbrev occupied : Server
occupied = record busy { sessions = ("eino-1", made) ∷ [] }

cancel_then_prompt_example :
    (s1 s2 : Server) × (solo 0 (handle_notification config cancel_note) occupied
      ≡ some (s1, [], tt))
    × (solo 0 (handle_request config hello_prompt) s1
        ≡ some (s2, cancelled (some (num (pos 3))) ∷ [], tt))
    × (s2.sessions ≡ ("eino-1", made) ∷ [])
    × (s2.next_ctx ≡ s1.next_ctx)
    × (flag_of "eino-1" s2 ≡ false)
unfolding decode_params decode_cancel decode_prompt lookup
cancel_then_prompt_example =
    cancel_then_prompt config cancel_note hello_prompt (record { session_id = "eino-1" })
      (record { session_id = "eino-1"; prompt = hello_block ∷ [] }) made 0 occupied refl refl refl
      refl refl refl refl

turn_failed_answer_example :
    let one = advance good shared (turn_failed writer (some (num (pos 3))) "prompt failed: no") in
    let two = advance good one.0 one.1 in
    advance good two.0 two.1 ≡ (
      record (unflagged "eino-1" shared) {
        wire =
            write none
              (failure_answer
                (flag_of "eino-1" busy || is_canceled (ctx_err busy 1))
                (some (num (pos 3)))
                "prompt failed: no")
              new_wire;
      },
      ret tt,
    )
turn_failed_answer_example =
    turn_failed_answer writer (some (num (pos 3))) "prompt failed: no" shared good good good

abbrev ended : Server
ended = record new_server { done = (1, canceled) ∷ []; next_ctx = 2 }

call_writer-SendsNothing_example : SendsNothing ended (call_writer writer (agent_message "done"))
unfolding ctx_err find_done
call_writer-SendsNothing_example =
    call_writer-SendsNothing ended writer canceled refl (agent_message "done")
