-- ===== src/Acptest/Format.antt =====
-- `Turn.Format` of acptest/driver.go. A line break of `Fprintf` is "\n".
use go_acp_server.Base.{String, List, [], ◌∷◌, if◌then◌else◌, ◌==◌}
use go_acp_server.Acptest.Payload.{is_nil}
use go_acp_server.Acptest.Turn.{ToolEvent, Turn}
use go_acp_server.Go.Host.{Host}
use go_acp_server.Go.Text.{◌^^◌, trim_space, is_blank}
use go_acp_server.Json.{Json, null}

-- prettyJSON; every value has a text
unfoldable pub pretty_json : Host → Json → String
pretty_json h null = "null"
pretty_json h v = h.marshal v

-- A part of the summary that is there if its text is not blank.
abbrev pub unless_blank : String → String → String
unless_blank text part = if is_blank text then "" else part

unfoldable pub format_event : Host → ToolEvent → String
unfolding pretty_json
format_event h ev =
    "- ["
    ^^ trim_space ev.update_type
    ^^ unless_blank ev.status ("/" ^^ ev.status)
    ^^ "] id="
    ^^ ev.tool_call_id
    ^^ unless_blank ev.title (" title=" ^^ ev.title)
    ^^ unless_blank ev.kind (" kind=" ^^ ev.kind)
    ^^ "\n"
    ^^ (if is_nil ev.raw_input then "" else "  input: " ^^ pretty_json h ev.raw_input ^^ "\n")
    ^^ (if is_nil ev.raw_output then "" else "  output: " ^^ pretty_json h ev.raw_output ^^ "\n")

unfoldable pub format_events : Host → List ToolEvent → String
unfolding format_event
format_events h [] = ""
format_events h (ev ∷ evs) = format_event h ev ^^ format_events h evs

abbrev pub tools_part : Host → List ToolEvent → String
tools_part h [] = ""
tools_part h (ev ∷ evs) = "Tools:\n" ^^ format_events h (ev ∷ evs)

-- What the builder holds.
unfoldable pub summary : Host → Turn → String
unfolding format_events
summary h t =
    unless_blank t.session_id ("Session: " ^^ t.session_id ^^ "\n")
    ^^ unless_blank t.stop_reason ("StopReason: " ^^ t.stop_reason ^^ "\n")
    ^^ unless_blank t.user_text ("User:\n" ^^ trim_space t.user_text ^^ "\n")
    ^^ unless_blank t.assistant_text ("Assistant:\n" ^^ trim_space t.assistant_text ^^ "\n")
    ^^ tools_part h t.tool_events

-- Format
unfoldable pub format : Host → Turn → String
unfolding summary
format h t = if summary h t == "" then "(empty turn)" else trim_space (summary h t)
