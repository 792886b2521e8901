-- ===== src/Handlers/Listing.antt =====
-- The rows of `session/list`.
use mathlib.Core.List.{Perm}
use go_acp_server.Base.{String, List, map, keep}
use go_acp_server.Go.Host.{Host}
use go_acp_server.Go.Sort.{sort_by}
use go_acp_server.Go.Sort.Ordered.{Ordered, sort_by-Ordered, keep-Ordered, keep-sort_by}
use go_acp_server.Handlers.Sessions.{session_row, passes, list_rows}
use go_acp_server.Protocol.Replies.{SessionInfo}
use go_acp_server.Server.{Session}

-- The rows of `session/list` are those of the sessions that the filter lets pass, each once, in the
-- order of their ids, whatever the order in which the map is read.
pub list_rows-Ordered :
    (h : Host) (filter : String) (sessions : List (String × Session))
    → Perm (list_rows h filter sessions) (keep (passes filter) (map (session_row h) sessions))
      × Ordered (λ row. row.session_id) (list_rows h filter sessions)
unfolding list_rows
list_rows-Ordered h filter sessions =
    let rows : List SessionInfo = map (session_row h) sessions in
    (
      keep-sort_by (λ row. row.session_id) (passes filter) rows,
      keep-Ordered (λ row. row.session_id) (passes filter) (sort_by (λ row. row.session_id) rows)
          (sort_by-Ordered (λ row. row.session_id) rows),
    )
