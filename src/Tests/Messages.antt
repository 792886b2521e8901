-- ===== src/Tests/Messages.antt =====
-- Single messages: a request, a notification, answers of the client, and `session/list`.
use go_acp_server.Server.Pending.Ids.{called, nth_id, nth_id-distinct}
use go_acp_server.Go.Numbers.{decimal, pos}
use go_acp_server.Server.Pending.{
  next_request_id, request_id, rpc_id_key, register_pending_response, unregister_pending_response,
  handle_client_response,
}
use go_acp_server.Base.{List, arith, ◌≢◌, [], ◌∷◌, none, some, ◌≡◌, refl, lookup, map, keep}
use go_acp_server.Handlers.{handle_request, handle_notification, method_of}
use go_acp_server.Handlers.Direct.{acts, Answered, IsReturned, handle_request-Answered}
use go_acp_server.Serve.{Choice, Shared}
use go_acp_server.Handlers.Answer.{handle_request-Owes, handle_notification-Quiet}
use go_acp_server.Json.{num, str, array, object}
use go_acp_server.Protocol.{Message, no_message}
use go_acp_server.Server.{Server, new_server, new_wire}
use go_acp_server.Server.Alone.{alone}
use go_acp_server.Server.Answers.{normalize_id}
use go_acp_server.Server.Owes.{Owes, Quiet}
use go_acp_server.Server.Pending.Delivery.{IsDelivered, delivery, late_answer_kept}
use go_acp_server.Server.Proc.{◌>>◌}
use go_acp_server.Handlers.Listing.{list_rows-Ordered}
use go_acp_server.Handlers.Sessions.{session_row, passes, list_rows}
use mathlib.Core.List.{Perm}
use go_acp_server.Go.Sort.Ordered.{Ordered}
use go_acp_server.Tests.{host, config, good, made}

-- `session/new` without parameters
abbrev new_request : Message
new_request = record no_message { jsonrpc = "2.0"; id = some (num (pos 2)); method = "session/new" }

-- `session/new` with a directory
abbrev make_request : Message
make_request = record new_request {
  id = some (num (pos 1));
  params = some (object (("cwd", str "/work") ∷ ("mcpServers", array []) ∷ []));
}

handle_request-Owes_example : Owes (num (pos 2)) 1 (handle_request config new_request)
unfolding normalize_id
handle_request-Owes_example = handle_request-Owes config new_request

abbrev turn : Choice × Shared
turn = (good, record { server = new_server; wire = new_wire })

abbrev turns : List (Choice × Shared)
turns = turn ∷ turn ∷ turn ∷ turn ∷ turn ∷ turn ∷ []

handle_request-Answered_example :
    Answered (num (pos 1)) 1 (acts turns (handle_request config make_request)).0
    × IsReturned (acts turns (handle_request config make_request)).1
unfolding method_of normalize_id
handle_request-Answered_example = handle_request-Answered config make_request turns (λ e. cc) refl

abbrev cancel_notice : Message
cancel_notice = record no_message {
  jsonrpc = "2.0";
  method = "session/cancel";
  params = some (object (("sessionId", str "eino-1") ∷ []));
}

handle_notification-Quiet_example : Quiet (handle_notification config cancel_notice)
handle_notification-Quiet_example = handle_notification-Quiet config cancel_notice

abbrev answer : Message
answer = record no_message {
  jsonrpc = "2.0";
  id = some (str "acp-client-1");
  result = some (object []);
}

delivery_example :
    ((t : Server) × (alone
          (register_pending_response "acp-client-1" >> handle_client_response host answer)
          new_server
        ≡ some (t, tt))
      × IsDelivered "acp-client-1" answer t)
    × ((t : Server) × (alone
            (handle_client_response host answer >> register_pending_response "acp-client-1")
            new_server
          ≡ some (t, tt))
        × IsDelivered "acp-client-1" answer t)
unfolding rpc_id_key new_server lookup
delivery_example = delivery host "acp-client-1" answer new_server refl (refl, refl)

abbrev in_wait : Server
in_wait = record new_server {
  pending_responses = ("s:acp-client-1", "acp-client-1") ∷ [];
  request_id_counter = 1;
}

late_answer_kept_example :
    (t : Server) × (alone
        (unregister_pending_response "acp-client-1" >> handle_client_response host answer)
        in_wait
      ≡ some (t, tt))
    × (lookup "s:acp-client-1" t.early_responses ≡ some answer)
    × (lookup "s:acp-client-1" t.pending_responses ≡ none)
unfolding rpc_id_key
late_answer_kept_example = late_answer_kept host "acp-client-1" answer in_wait refl

list_rows-Ordered_example :
    Perm
      (list_rows host "/work" (("b", made) ∷ ("a", made) ∷ []))
      (keep (passes "/work") (map (session_row host) (("b", made) ∷ ("a", made) ∷ [])))
    × Ordered (λ row. row.session_id) (list_rows host "/work" (("b", made) ∷ ("a", made) ∷ []))
list_rows-Ordered_example = list_rows-Ordered host "/work" (("b", made) ∷ ("a", made) ∷ [])

-- The counter wraps between the two calls.
abbrev late : Server
late = record new_server { request_id_counter = 18446744073709551614 }

repeated : nth_id 3 late ≡ "acp-client-2"
unfolding nth_id called next_request_id request_id decimal
repeated = refl

nth_id-distinct_example : nth_id 0 late ≢ nth_id 3 late
nth_id-distinct_example =
    nth_id-distinct late 0 3 (omega arith) (omega arith) (λ e. omega (arith, e))
