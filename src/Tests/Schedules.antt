-- ===== src/Tests/Schedules.antt =====
-- Runs of the whole server: a request with a line that is no JSON, and one that makes a session.
use go_acp_server.Base.{ℕ, List, [], ◌∷◌, some, ◌≡◌, refl, lookup, insert, delete}
use go_acp_server.Config.{decode_params}
use go_acp_server.Go.FilePath.{is_abs}
use go_acp_server.Go.FilePath.Clean.{IsCleanPath}
use go_acp_server.Go.Text.{is_blank}
use go_acp_server.Handlers.{handle_request, handle_method, method_of, handle_authenticate}
use go_acp_server.Json.{Json}
use go_acp_server.Protocol.{
  decode_message, decode_authenticate, has_id, decode_new_session, decode_mcp_servers,
}
use go_acp_server.Serve.{
  Event, line, reads, runs, run, start, happen, take_line, run_reader, run_thread, advance, write,
  error_of, serve_line, serve_message,
}
use go_acp_server.Serve.Accounts.{asked}
use go_acp_server.Serve.Balance.{answers_balance}
use go_acp_server.Serve.Weights.{total}
use go_acp_server.Server.{new_server}
use go_acp_server.Server.Alone.{alone}
use go_acp_server.Server.Answers.{normalize_id, write_result, write_error}
use go_acp_server.Server.Cancel.{clear_cancel_flag}
use go_acp_server.Server.Proc.{◌>>=◌}
use go_acp_server.Tools.Invoke.{Invoker, resolve_path, new_session_id}
use go_acp_server.Handlers.Sessions.{handle_new_session, create_session, add_session}
use go_acp_server.Prompt.Context.{SessionSnapshot}
use go_acp_server.Prompt.Turn.{snapshot_session}
use go_acp_server.Invariants.Correlation.{Correlates, answers-Correlate}
use go_acp_server.Invariants.Directories.{IsRooted, sessions-IsRooted, tools-IsCleanPath}
use go_acp_server.Go.Numbers.{hex}
use go_acp_server.Protocol.Replies.{new_session_response}
use go_acp_server.Tests.{authenticate_text, new_text, config, good, made}

-- A request and a line that is no JSON: the loop writes the second answer before the goroutine of the
-- request writes the first.
abbrev schedule : List Event
schedule =
    line authenticate_text ∷ reads good ∷ line "oops" ∷ reads good ∷ reads good ∷ runs 0 good ∷ []

abbrev ones : Json → ℕ
ones v = 1

answers_balance_example :
    total ones (run config start schedule).shared.wire.lines
    ≡ asked ones config (run config start schedule).inputs
unfolding run happen take_line run_reader run_thread advance write error_of serve_line serve_message
    handle_request handle_method method_of handle_authenticate decode_params decode_authenticate
    decode_message has_id write_result write_error normalize_id is_blank ◌>>=◌
answers_balance_example =
    answers_balance ones config schedule (tt, (refl, (tt, (refl, (refl, (refl, tt)))))) refl
      (tt, tt)

-- A session is made: the actions take the random bytes, look at the clock, put the session in, clear
-- its flag and write the answer.
abbrev making : List Event
making =
    line new_text
    ∷ reads good
    ∷ runs 0 good
    ∷ runs 0 good
    ∷ runs 0 good
    ∷ runs 0 good
    ∷ runs 0 good
    ∷ []

sessions-IsRooted_example : IsRooted (run config start making).shared.server
sessions-IsRooted_example = sessions-IsRooted config making

tools-IsCleanPath_example :
    (p : SessionSnapshot × Invoker) × (alone
        (snapshot_session config "eino-")
        (run config start making).shared.server
      ≡ some ((run config start making).shared.server, p))
    × IsCleanPath (resolve_path p.1.cwd "../notes.txt")
unfolding run happen take_line run_reader run_thread advance write error_of serve_line serve_message
    handle_request handle_method method_of handle_new_session create_session add_session
    new_session_id clear_cancel_flag new_session_response decode_params decode_new_session
    decode_mcp_servers decode_message has_id write_result normalize_id is_blank is_abs hex lookup
    insert delete new_server ◌>>=◌
tools-IsCleanPath_example = tools-IsCleanPath config making "eino-" "../notes.txt" made refl refl

answers-Correlate_example : Correlates (run config start making).shared.server
answers-Correlate_example = answers-Correlate config making
