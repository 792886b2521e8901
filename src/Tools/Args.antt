-- ===== src/Tools/Args.antt =====
-- The arguments that tools take and the requests and results of the client's methods (the types at
-- the end of tool_invoker.go).
use mathlib.Core.Option
use go_acp_server.Base.{
  String, Bool, false, List, [], ◌∷◌, ◌++◌, Option, none, some, map, if◌then◌else◌,
}
use go_acp_server.Go.Numbers.{ℤ, pos}
use go_acp_server.Json.{Json, bool, num, str, array, object}
use go_acp_server.Json.Decode.{
  equal_fold, Decoder, decode_string, decode_bool, decode_int, decode_pointer, decode_slice,
  decode_struct,
}
use go_acp_server.Protocol.Replies.{optional}

pub record ReadTextFileToolArgs : Type 0 where
  pub path : String
  pub line : Option ℤ
  pub limit : Option ℤ

unfoldable pub decode_read_args : Json → Option ReadTextFileToolArgs
unfolding decode_struct decode_string decode_pointer decode_int equal_fold
decode_read_args =
    decode_struct
      (λ k v a.
        if equal_fold k "path"
        then Option.map (λ s. record a { path = s }) (decode_string a.path v)
        else if equal_fold k "line"
        then Option.map (λ n. record a { line = n }) (decode_pointer decode_int (pos 0) a.line v)
        else if equal_fold k "limit"
        then Option.map (λ n. record a { limit = n }) (decode_pointer decode_int (pos 0) a.limit v)
        else some a)
      (record { path = ""; line = none; limit = none })

pub record WriteTextFileToolArgs : Type 0 where
  pub path : String
  pub content : String

unfoldable pub decode_write_args : Json → Option WriteTextFileToolArgs
unfolding decode_struct decode_string equal_fold
decode_write_args =
    decode_struct
      (λ k v a.
        if equal_fold k "path"
        then Option.map (λ s. record a { path = s }) (decode_string a.path v)
        else if equal_fold k "content"
        then Option.map (λ s. record a { content = s }) (decode_string a.content v)
        else some a)
      (record { path = ""; content = "" })

pub record TerminalCreateToolArgs : Type 0 where
  pub command : String
  pub args : List String
  pub cwd : String

unfoldable pub decode_create_args : Json → Option TerminalCreateToolArgs
unfolding decode_struct decode_string decode_slice equal_fold
decode_create_args =
    decode_struct
      (λ k v a.
        if equal_fold k "command"
        then Option.map (λ s. record a { command = s }) (decode_string a.command v)
        else if equal_fold k "args"
        then Option.map (λ l. record a { args = l }) (decode_slice decode_string "" a.args v)
        else if equal_fold k "cwd"
        then Option.map (λ s. record a { cwd = s }) (decode_string a.cwd v)
        else some a)
      (record { command = ""; args = []; cwd = "" })

pub record TerminalIdToolArgs : Type 0 where
  pub terminal_id : String

abbrev pub no_terminal : TerminalIdToolArgs
no_terminal = record { terminal_id = "" }

-- terminalIDToolArgs, and createTerminalResponse, which has the same field
unfoldable pub decode_terminal_id : Decoder TerminalIdToolArgs
unfolding decode_struct decode_string equal_fold
decode_terminal_id = decode_struct λ k v a.
    if equal_fold k "terminalId"
    then Option.map (λ s. record a { terminal_id = s }) (decode_string a.terminal_id v)
    else some a

abbrev pub optional_int : String → Option ℤ → List (String × Json)
optional_int key none = []
optional_int key (some n) = (key, num n) ∷ []

unfoldable pub read_request : String → String → Option ℤ → Option ℤ → Json
read_request session_id path line limit = object (
    (("sessionId", str session_id) ∷ ("path", str path) ∷ optional_int "line" line)
    ++ optional_int "limit" limit)

unfoldable pub write_request : String → String → String → Json
write_request session_id path content =
    object (("sessionId", str session_id) ∷ ("path", str path) ∷ ("content", str content) ∷ [])

-- A nil or empty `args` is left out.
abbrev args_field : List String → List (String × Json)
args_field [] = []
args_field (a ∷ as') = ("args", array (map str (a ∷ as'))) ∷ []

unfoldable pub create_request : String → String → List String → Option String → Json
create_request session_id command args cwd = object (
    (("sessionId", str session_id) ∷ ("command", str command) ∷ args_field args)
    ++ optional "cwd" cwd)

unfoldable pub terminal_request : String → String → Json
terminal_request session_id terminal_id =
    object (("sessionId", str session_id) ∷ ("terminalId", str terminal_id) ∷ [])

unfoldable pub decode_content : Decoder String
unfolding decode_struct decode_string equal_fold
decode_content = decode_struct λ k v a. if equal_fold k "content" then decode_string a v else some a

pub record WaitForExitResponse : Type 0 where
  pub exit_code : Option ℤ
  pub signal : Option String

abbrev pub no_exit : WaitForExitResponse
no_exit = record { exit_code = none; signal = none }

unfoldable pub decode_exit : Decoder WaitForExitResponse
unfolding decode_struct decode_string decode_int decode_pointer equal_fold
decode_exit = decode_struct λ k v a.
    if equal_fold k "exitCode"
    then Option.map (λ n. record a { exit_code = n })
        (decode_pointer decode_int (pos 0) a.exit_code v)
    else if equal_fold k "signal"
    then Option.map (λ s. record a { signal = s }) (decode_pointer decode_string "" a.signal v)
    else some a

unfoldable pub exit_json : WaitForExitResponse → Json
exit_json r = object (optional_int "exitCode" r.exit_code ++ optional "signal" r.signal)

pub record TerminalOutputResponse : Type 0 where
  pub output : String
  pub truncated : Bool
  pub exit_status : Option WaitForExitResponse

abbrev pub no_output : TerminalOutputResponse
no_output = record { output = ""; truncated = false; exit_status = none }

unfoldable pub decode_output : Decoder TerminalOutputResponse
unfolding decode_struct decode_string decode_bool decode_pointer decode_exit equal_fold
decode_output = decode_struct λ k v a.
    if equal_fold k "output"
    then Option.map (λ s. record a { output = s }) (decode_string a.output v)
    else if equal_fold k "truncated"
    then Option.map (λ b. record a { truncated = b }) (decode_bool a.truncated v)
    else if equal_fold k "exitStatus"
    then Option.map (λ e. record a { exit_status = e })
        (decode_pointer decode_exit no_exit a.exit_status v)
    else some a

unfoldable pub output_json : TerminalOutputResponse → Json
unfolding exit_json
output_json r = object (
    (("output", str r.output) ∷ ("truncated", bool r.truncated) ∷ [])
    ++ elim r.exit_status [ none ↦ [] | some e ↦ ("exitStatus", exit_json e) ∷ [] ])
