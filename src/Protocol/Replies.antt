-- ===== src/Protocol/Replies.antt =====
-- The JSON of the answers of protocol.go, with the fields in the order of the structs and empty ones
-- left out where the tags say `omitempty`.
use go_acp_server.Base.{String, true, List, [], ◌∷◌, ◌++◌, Option, none, some, map}
use go_acp_server.Go.Numbers.{pos}
use go_acp_server.Json.{Json, bool, num, str, array, object}

abbrev pub optional : String → Option String → List (String × Json)
optional key none = []
optional key (some s) = (key, str s) ∷ []

-- initializeResponse, with the values that the server always gives but for its version
unfoldable pub initialize_response : String → Json
initialize_response version = object (
    ("protocolVersion", num (pos 1))
    ∷ (
      "agentCapabilities",
      object (
          ("loadSession", bool true)
          ∷ ("sessionCapabilities", object (("list", object []) ∷ []))
          ∷ []),
    )
    ∷ ("authMethods", array [])
    ∷ (
      "agentInfo",
      object (
          ("name", str "eino-acp-agent")
          ∷ ("title", str "Eino ACP Agent")
          ∷ ("version", str version)
          ∷ []),
    )
    ∷ [])

-- authenticateResponse and loadSessionResponse
abbrev pub empty_response : Json
empty_response = object []

unfoldable pub new_session_response : String → Json
new_session_response session_id = object (("sessionId", str session_id) ∷ [])

pub record SessionInfo : Type 0 where
  pub session_id : String
  pub cwd : String
  pub title : Option String
  pub updated_at : Option String

unfoldable pub session_info : SessionInfo → Json
session_info i = object (
    ("sessionId", str i.session_id) ∷ ("cwd", str i.cwd) ∷ optional "title" i.title
    ++ optional "updatedAt" i.updated_at)

-- listSessionsResponse; the server sets no nextCursor
unfoldable pub list_sessions_response : List SessionInfo → Json
unfolding session_info
list_sessions_response rows = object (("sessions", array (map session_info rows)) ∷ [])

unfoldable pub prompt_response : String → Json
prompt_response stop_reason = object (("stopReason", str stop_reason) ∷ [])
