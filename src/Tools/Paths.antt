-- ===== src/Tools/Paths.antt =====
-- `resolvePath` of tool_invoker.go.
use go_acp_server.Base.{String, true, false, ◌≡◌, Bool-cases, inl, inr}
use go_acp_server.Go.FilePath.{is_abs, join_path}
use go_acp_server.Go.FilePath.Clean.{IsCleanPath, clean-IsCleanPath, is_abs-join_path}
use go_acp_server.Go.Text.{trim_space, is_blank}
use go_acp_server.Tools.Invoke.{resolve_path}

-- In a session whose directory is absolute, every path that is not blank is resolved to an absolute
-- path of names: none is empty, `.` or `..`, and none holds a slash.
pub resolve_path-IsCleanPath :
    (cwd path : String)
    → is_abs cwd ≡ true
    → is_blank path ≡ false
    → IsCleanPath (resolve_path cwd path)
unfolding resolve_path is_blank
resolve_path-IsCleanPath cwd path h k = elim (Bool-cases (is_abs (trim_space path))) [
  | inl absolute ↦ rw (k, absolute) (clean-IsCleanPath (trim_space path) absolute)
  | inr relative ↦
      rw (k, relative)
        (clean-IsCleanPath (join_path cwd (trim_space path))
          (is_abs-join_path cwd (trim_space path) h k))
]
