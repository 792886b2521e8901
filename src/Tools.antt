-- ===== src/Tools.antt =====
-- The runtime tools of tool_invoker.go: their names, and what `ToolInfos` says of them. The types of
-- their arguments and `InvokeTool` are in the modules below.
pub mod Args
pub mod Invoke
pub mod Quiet
pub mod Paths
pub mod Permitted
pub mod Infos
use go_acp_server.Base.{
  String, Bool, true, false, List, [], ◌∷◌, ◌++◌, Option, none, some, if◌then◌else◌, ◌==◌,
}
use go_acp_server.Protocol.{ClientCapabilities}

-- The cases of the switch of `invokeTool`.
pub data Tool : Type 0 where
  fs_read_text_file fs_write_text_file : Tool
  terminal_create terminal_output terminal_wait_for_exit terminal_kill terminal_release : Tool

abbrev pub tool_name : Tool → String
tool_name fs_read_text_file = "fs_read_text_file"
tool_name fs_write_text_file = "fs_write_text_file"
tool_name terminal_create = "terminal_create"
tool_name terminal_output = "terminal_output"
tool_name terminal_wait_for_exit = "terminal_wait_for_exit"
tool_name terminal_kill = "terminal_kill"
tool_name terminal_release = "terminal_release"

-- The client's method that a tool calls.
abbrev pub client_method : Tool → String
client_method fs_read_text_file = "fs/read_text_file"
client_method fs_write_text_file = "fs/write_text_file"
client_method terminal_create = "terminal/create"
client_method terminal_output = "terminal/output"
client_method terminal_wait_for_exit = "terminal/wait_for_exit"
client_method terminal_kill = "terminal/kill"
client_method terminal_release = "terminal/release"

-- `switch toolName`
unfoldable pub tool_of : String → Option Tool
tool_of name =
    if name == "fs_read_text_file"
    then some fs_read_text_file
    else if name == "fs_write_text_file"
    then some fs_write_text_file
    else if name == "terminal_create"
    then some terminal_create
    else if name == "terminal_output"
    then some terminal_output
    else if name == "terminal_wait_for_exit"
    then some terminal_wait_for_exit
    else if name == "terminal_kill"
    then some terminal_kill
    else if name == "terminal_release"
    then some terminal_release
    else none

pub data ToolParamType : Type 0 where
  object_type number_type integer_type string_type array_type null_type boolean_type : ToolParamType

-- ToolParamInfo: type, element, sub-parameters, description, enum and whether it is required.
mutual
  pub data ToolParamInfo : Type 0 where
    param_info : ToolParamType → ElemInfo → SubParams → String → List String → Bool → ToolParamInfo

  pub data ElemInfo : Type 0 where
    no_elem : ElemInfo
    elem : ToolParamInfo → ElemInfo

  pub data SubParams : Type 0 where
    no_params : SubParams
    sub_param : String → ToolParamInfo → SubParams → SubParams

pub record RuntimeToolInfo : Type 0 where
  pub name : String
  pub desc : String
  pub params : List (String × ToolParamInfo)

abbrev pub simple : ToolParamType → Bool → String → ToolParamInfo
simple type required desc = param_info type no_elem no_params desc [] required

abbrev pub terminal_id_params : List (String × ToolParamInfo)
terminal_id_params =
    ("terminalId", simple string_type true "Terminal ID from terminal_create.") ∷ []

abbrev pub read_info : RuntimeToolInfo
read_info = record {
  name = "fs_read_text_file";
  desc = "Read a text file from the ACP client using fs/read_text_file.";
  params =
      ("path", simple string_type true "Absolute or session-relative file path.")
      ∷ ("line", simple integer_type false "1-based start line.")
      ∷ ("limit", simple integer_type false "Maximum number of lines to read.")
      ∷ [];
}

abbrev pub write_info : RuntimeToolInfo
write_info = record {
  name = "fs_write_text_file";
  desc = "Write a text file via ACP fs/write_text_file.";
  params =
      ("path", simple string_type true "Absolute or session-relative file path.")
      ∷ ("content", simple string_type true "Full text content to write.")
      ∷ [];
}

abbrev pub create_info : RuntimeToolInfo
create_info = record {
  name = "terminal_create";
  desc = "Create a terminal command via ACP terminal/create.";
  params =
      ("command", simple string_type true "Executable to run.")
      ∷ (
        "args",
        param_info array_type (elem (simple string_type false "")) no_params "Command arguments." []
            false,
      )
      ∷ ("cwd", simple string_type false "Optional absolute or session-relative working directory.")
      ∷ [];
}

abbrev pub terminal_infos : List RuntimeToolInfo
terminal_infos =
    create_info
    ∷ record {
      name = "terminal_output";
      desc = "Get current output via ACP terminal/output.";
      params = terminal_id_params;
    }
    ∷ record {
      name = "terminal_wait_for_exit";
      desc = "Wait for terminal command exit via ACP terminal/wait_for_exit.";
      params = terminal_id_params;
    }
    ∷ record {
      name = "terminal_kill";
      desc = "Kill a running terminal command via ACP terminal/kill.";
      params = terminal_id_params;
    }
    ∷ record {
      name = "terminal_release";
      desc = "Release a terminal resource via ACP terminal/release.";
      params = terminal_id_params;
    }
    ∷ []

-- ToolInfos; it never fails.
unfoldable pub tool_infos : ClientCapabilities → List RuntimeToolInfo
tool_infos caps =
    (if caps.fs.read_text_file then read_info ∷ [] else [])
    ++ (if caps.fs.write_text_file then write_info ∷ [] else [])
    ++ (if caps.terminal then terminal_infos else [])
