-- ===== src/Tools/Infos.antt =====
-- The tools that `ToolInfos` announces.
use go_acp_server.Base.{
  String, Bool, true, false, List, [], ◌∷◌, Option, none, some, ◌≡◌, refl, ◌==◌, arith, eq_iff,
  if◌then◌else◌, ◌||◌, ◌⊎◌, inl, inr, Bool-cases, ◌&&◌, ◌++◌,
}
use go_acp_server.Protocol.{ClientCapabilities}
use go_acp_server.Tools.{
  Tool, fs_read_text_file, fs_write_text_file, terminal_create, terminal_output,
  terminal_wait_for_exit, terminal_kill, terminal_release, tool_of, tool_name, RuntimeToolInfo,
  tool_infos, read_info, write_info, terminal_infos,
}
use go_acp_server.Tools.Invoke.{allowed}

-- Some info has the name.
abbrev pub lists : String → List RuntimeToolInfo → Bool
lists name [] = false
lists name (info ∷ infos) = info.name == name || lists name infos

lists-append :
    (name : String) (xs ys : List RuntimeToolInfo)
    → lists name (xs ++ ys) ≡ (lists name xs || lists name ys)
lists-append name [] ys = refl
lists-append name (x ∷ xs) ys = ground (arith, lists-append name xs ys)

listed_if :
    (b : Bool) (name : String) (infos : List RuntimeToolInfo)
    → lists name (if b then infos else []) ≡ (b && lists name infos)
listed_if true name infos = refl
listed_if false name infos = refl

-- A name is listed by its capability's flag.
lists-tool_infos :
    (caps : ClientCapabilities) (name : String)
    → lists name (tool_infos caps) ≡ (
        (caps.fs.read_text_file && lists name (read_info ∷ []))
        || (caps.fs.write_text_file && lists name (write_info ∷ []))
        || (caps.terminal && lists name terminal_infos))
unfolding tool_infos
lists-tool_infos caps name = simp (lists-append, listed_if)

known_tool :
    (tool : Tool) (caps : ClientCapabilities)
    → lists (tool_name tool) (tool_infos caps) ≡ allowed caps tool
known_tool fs_read_text_file caps = rw lists-tool_infos (ground arith)
known_tool _ caps = rw lists-tool_infos (ground arith)

same_text : (s t : String) → (s ≡ t) ⊎ (((s == t) ≡ false) × ((t == s) ≡ false))
same_text s t = elim (Bool-cases (s == t)) [
  | inl e ↦ inl ((eq_iff s t).0 e)
  | inr n ↦ inr (n, ground (arith, eq_iff s t, eq_iff t s))
]

other_name :
    (name : String) (tool : Tool)
    → ("fs_read_text_file" == name) ≡ false
    → ("fs_write_text_file" == name) ≡ false
    → ("terminal_create" == name) ≡ false
    → ("terminal_output" == name) ≡ false
    → ("terminal_wait_for_exit" == name) ≡ false
    → ("terminal_kill" == name) ≡ false
    → ("terminal_release" == name) ≡ false
    → (tool_name tool == name) ≡ false
other_name name fs_read_text_file n0 n1 n2 n3 n4 n5 n6 = n0
other_name name fs_write_text_file n0 n1 n2 n3 n4 n5 n6 = n1
other_name name terminal_create n0 n1 n2 n3 n4 n5 n6 = n2
other_name name terminal_output n0 n1 n2 n3 n4 n5 n6 = n3
other_name name terminal_wait_for_exit n0 n1 n2 n3 n4 n5 n6 = n4
other_name name terminal_kill n0 n1 n2 n3 n4 n5 n6 = n5
other_name name terminal_release n0 n1 n2 n3 n4 n5 n6 = n6

-- The switch finds a tool by its name alone.
tool_of_cases :
    (name : String)
    → ((tool : Tool) × (name ≡ tool_name tool))
      ⊎ ((tool_of name ≡ none) × ((tool : Tool) → (tool_name tool == name) ≡ false))
unfolding tool_of
tool_of_cases name = elim (same_text name "fs_read_text_file") [
  | inl e ↦ inl (fs_read_text_file, e)
  | inr n0 ↦ elim (same_text name "fs_write_text_file") [
    | inl e ↦ inl (fs_write_text_file, e)
    | inr n1 ↦ elim (same_text name "terminal_create") [
      | inl e ↦ inl (terminal_create, e)
      | inr n2 ↦ elim (same_text name "terminal_output") [
        | inl e ↦ inl (terminal_output, e)
        | inr n3 ↦ elim (same_text name "terminal_wait_for_exit") [
          | inl e ↦ inl (terminal_wait_for_exit, e)
          | inr n4 ↦ elim (same_text name "terminal_kill") [
            | inl e ↦ inl (terminal_kill, e)
            | inr n5 ↦ elim (same_text name "terminal_release") [
              | inl e ↦ inl (terminal_release, e)
              | inr n6 ↦ inr (
                rw (n0.0, n1.0, n2.0, n3.0, n4.0, n5.0, n6.0) refl,
                λ tool. other_name name tool n0.1 n1.1 n2.1 n3.1 n4.1 n5.1 n6.1,
              )
            ]
          ]
        ]
      ]
    ]
  ]
]

tool_of-tool_name : (tool : Tool) → tool_of (tool_name tool) ≡ some tool
unfolding tool_of
tool_of-tool_name fs_read_text_file = refl
tool_of-tool_name _ = refl

unknown_tool :
    (name : String) (caps : ClientCapabilities)
    → ((tool : Tool) → (tool_name tool == name) ≡ false)
    → lists name (tool_infos caps) ≡ false
unknown_tool name caps n =
    rw
      (
        lists-tool_infos,
        n fs_read_text_file,
        n fs_write_text_file,
        n terminal_create,
        n terminal_output,
        n terminal_wait_for_exit,
        n terminal_kill,
        n terminal_release,
      )
      (ground arith)

-- Whether the tool of a name, if there is one, is allowed.
abbrev pub allows : ClientCapabilities → Option Tool → Bool
allows caps none = false
allows caps (some tool) = allowed caps tool

-- `ToolInfos` names exactly the tools that `InvokeTool` runs: a name is listed just when it is the
-- name of a tool and the capabilities allow that tool.
pub tool_infos-allowed :
    (caps : ClientCapabilities) (name : String)
    → lists name (tool_infos caps) ≡ allows caps (tool_of name)
tool_infos-allowed caps name = elim (tool_of_cases name) [
  | inl (tool, e) ↦ rw (e, tool_of-tool_name tool) (known_tool tool caps)
  | inr (unknown, n) ↦ rw unknown (unknown_tool name caps n)
]
