-- ===== src/Protocol.antt =====
-- The message types of protocol.go: what a client sends, by the decoding of their JSON. The types
-- of the answers are in Protocol/Replies.antt.
pub mod Replies
use mathlib.Core.Option
use go_acp_server.Base.{
  String, Bool, false, List, [], ◌∷◌, Option, none, some, if◌then◌else◌, is_some, lookup,
}
use go_acp_server.Go.Numbers.{ℤ, pos}
use go_acp_server.Json.{Json, null, Raw}
use go_acp_server.Json.Decode.{
  equal_fold, Decoder, decode_string, decode_bool, decode_int, decode_any, decode_raw,
  decode_pointer, decode_slice, decode_struct, decode_map,
}

pub record RpcError : Type 0 where
  pub code : ℤ
  pub message : String

unfoldable pub decode_rpc_error : Decoder RpcError
unfolding decode_struct decode_int decode_string equal_fold
decode_rpc_error = decode_struct λ k v a.
    if equal_fold k "code"
    then Option.map (λ n. record a { code = n }) (decode_int a.code v)
    else if equal_fold k "message"
    then Option.map (λ s. record a { message = s }) (decode_string a.message v)
    else some a

-- incomingMessage
pub record Message : Type 0 where
  pub jsonrpc : String
  pub id : Raw
  pub method : String
  pub params : Raw
  pub result : Raw
  pub error : Option RpcError

abbrev pub no_message : Message
no_message = record {
  jsonrpc = "";
  id = none;
  method = "";
  params = none;
  result = none;
  error = none;
}

unfoldable pub decode_message : Decoder Message
unfolding decode_struct decode_raw decode_string decode_pointer decode_rpc_error equal_fold
decode_message = decode_struct λ k v a.
    if equal_fold k "jsonrpc"
    then Option.map (λ s. record a { jsonrpc = s }) (decode_string a.jsonrpc v)
    else if equal_fold k "id"
    then Option.map (λ r. record a { id = r }) (decode_raw a.id v)
    else if equal_fold k "method"
    then Option.map (λ s. record a { method = s }) (decode_string a.method v)
    else if equal_fold k "params"
    then Option.map (λ r. record a { params = r }) (decode_raw a.params v)
    else if equal_fold k "result"
    then Option.map (λ r. record a { result = r }) (decode_raw a.result v)
    else if equal_fold k "error"
    then Option.map (λ e. record a { error = e })
        (decode_pointer decode_rpc_error (record { code = pos 0; message = "" }) a.error v)
    else some a

-- hasID
unfoldable pub has_id : Message → Bool
has_id m = is_some m.id

pub record FileSystemCapabilities : Type 0 where
  pub read_text_file : Bool
  pub write_text_file : Bool

pub record ClientCapabilities : Type 0 where
  pub fs : FileSystemCapabilities
  pub terminal : Bool

abbrev pub no_capabilities : ClientCapabilities
no_capabilities = record {
  fs = record { read_text_file = false; write_text_file = false };
  terminal = false;
}

unfoldable pub decode_fs : Decoder FileSystemCapabilities
unfolding decode_struct decode_bool equal_fold
decode_fs = decode_struct λ k v a.
    if equal_fold k "readTextFile"
    then Option.map (λ b. record a { read_text_file = b }) (decode_bool a.read_text_file v)
    else if equal_fold k "writeTextFile"
    then Option.map (λ b. record a { write_text_file = b }) (decode_bool a.write_text_file v)
    else some a

unfoldable pub decode_capabilities : Decoder ClientCapabilities
unfolding decode_struct decode_bool decode_fs equal_fold
decode_capabilities = decode_struct λ k v a.
    if equal_fold k "fs"
    then Option.map (λ c. record a { fs = c }) (decode_fs a.fs v)
    else if equal_fold k "terminal"
    then Option.map (λ b. record a { terminal = b }) (decode_bool a.terminal v)
    else some a

pub record InitializeRequest : Type 0 where
  pub protocol_version : Json
  pub client_capabilities : ClientCapabilities

unfoldable pub decode_initialize : Json → Option InitializeRequest
unfolding decode_struct decode_any decode_capabilities equal_fold
decode_initialize =
    decode_struct
      (λ k v a.
        if equal_fold k "protocolVersion"
        then Option.map (λ j. record a { protocol_version = j }) (decode_any a.protocol_version v)
        else if equal_fold k "clientCapabilities"
        then Option.map (λ c. record a { client_capabilities = c })
            (decode_capabilities a.client_capabilities v)
        else some a)
      (record { protocol_version = null; client_capabilities = no_capabilities })

pub record AuthenticateRequest : Type 0 where
  pub method_id : String

unfoldable pub decode_authenticate : Json → Option AuthenticateRequest
unfolding decode_struct decode_string equal_fold
decode_authenticate =
    decode_struct
      (λ k v a.
        if equal_fold k "methodId"
        then Option.map (λ s. record a { method_id = s }) (decode_string a.method_id v)
        else some a)
      (record { method_id = "" })

pub record McpServer : Type 0 where
  pub type : String
  pub name : String
  pub command : String
  pub args : List String
  pub url : String

unfoldable pub decode_mcp_server : Decoder McpServer
unfolding decode_struct decode_string decode_slice equal_fold
decode_mcp_server = decode_struct λ k v a.
    if equal_fold k "type"
    then Option.map (λ s. record a { type = s }) (decode_string a.type v)
    else if equal_fold k "name"
    then Option.map (λ s. record a { name = s }) (decode_string a.name v)
    else if equal_fold k "command"
    then Option.map (λ s. record a { command = s }) (decode_string a.command v)
    else if equal_fold k "args"
    then Option.map (λ l. record a { args = l }) (decode_slice decode_string "" a.args v)
    else if equal_fold k "url"
    then Option.map (λ s. record a { url = s }) (decode_string a.url v)
    else some a

unfoldable pub decode_mcp_servers : Decoder (List McpServer)
unfolding decode_slice decode_mcp_server
decode_mcp_servers =
    decode_slice decode_mcp_server
      (record { type = ""; name = ""; command = ""; args = []; url = "" })

pub record NewSessionRequest : Type 0 where
  pub cwd : String
  pub mcp_servers : List McpServer

unfoldable pub decode_new_session : Json → Option NewSessionRequest
unfolding decode_struct decode_string decode_mcp_servers equal_fold
decode_new_session =
    decode_struct
      (λ k v a.
        if equal_fold k "cwd"
        then Option.map (λ s. record a { cwd = s }) (decode_string a.cwd v)
        else if equal_fold k "mcpServers"
        then Option.map (λ l. record a { mcp_servers = l }) (decode_mcp_servers a.mcp_servers v)
        else some a)
      (record { cwd = ""; mcp_servers = [] })

pub record LoadSessionRequest : Type 0 where
  pub session_id : String
  pub cwd : String
  pub mcp_servers : List McpServer

unfoldable pub decode_load_session : Json → Option LoadSessionRequest
unfolding decode_struct decode_string decode_mcp_servers equal_fold
decode_load_session =
    decode_struct
      (λ k v a.
        if equal_fold k "sessionId"
        then Option.map (λ s. record a { session_id = s }) (decode_string a.session_id v)
        else if equal_fold k "cwd"
        then Option.map (λ s. record a { cwd = s }) (decode_string a.cwd v)
        else if equal_fold k "mcpServers"
        then Option.map (λ l. record a { mcp_servers = l }) (decode_mcp_servers a.mcp_servers v)
        else some a)
      (record { session_id = ""; cwd = ""; mcp_servers = [] })

pub record ListSessionsRequest : Type 0 where
  pub cwd : String
  pub cursor : String

unfoldable pub decode_list_sessions : Json → Option ListSessionsRequest
unfolding decode_struct decode_string equal_fold
decode_list_sessions =
    decode_struct
      (λ k v a.
        if equal_fold k "cwd"
        then Option.map (λ s. record a { cwd = s }) (decode_string a.cwd v)
        else if equal_fold k "cursor"
        then Option.map (λ s. record a { cursor = s }) (decode_string a.cursor v)
        else some a)
      (record { cwd = ""; cursor = "" })

-- ContentBlock is map[string]any.
abbrev pub ContentBlock : Type 0
ContentBlock = List (String × Json)

pub record PromptRequest : Type 0 where
  pub session_id : String
  pub prompt : List ContentBlock

unfoldable pub decode_prompt : Json → Option PromptRequest
unfolding decode_struct decode_string decode_slice decode_map equal_fold
decode_prompt =
    decode_struct
      (λ k v a.
        if equal_fold k "sessionId"
        then Option.map (λ s. record a { session_id = s }) (decode_string a.session_id v)
        else if equal_fold k "prompt"
        then Option.map (λ l. record a { prompt = l }) (decode_slice decode_map [] a.prompt v)
        else some a)
      (record { session_id = ""; prompt = [] })

pub record CancelNotification : Type 0 where
  pub session_id : String

unfoldable pub decode_cancel : Json → Option CancelNotification
unfolding decode_struct decode_string equal_fold
decode_cancel =
    decode_struct
      (λ k v a.
        if equal_fold k "sessionId"
        then Option.map (λ s. record a { session_id = s }) (decode_string a.session_id v)
        else some a)
      (record { session_id = "" })
