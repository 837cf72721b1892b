-- ===== src/Transcript/Browser.antt =====
-- projectBrowserFrames of internal/session/transcript.go: an older frame of the browser is replaced by
-- a notice once a later action of the browser succeeded. An index that the source gives as -1 is none.
pub mod Calls
use text.Mathlib.Text.{starts_with}
use coagent.Base.{
  ℕ, ◌+◌, Bool, true, false, not, ◌&&◌, List, [], ◌∷◌, Option, none, some, String, ltb,
  if◌then◌else◌, find_key,
}
use coagent.Transcript.{WireMessage, ToolCall, is_tool, is_assistant_row}

abbrev pub superseded_browser_frame : String
superseded_browser_frame =
    "[browser frame replaced — its task facts are in the task_state of the next playwright call]"

-- `IsBrowserToolID` of internal/tool/tool.go.
unfoldable pub is_browser_tool_id : String → Bool
is_browser_tool_id id = starts_with id "mcp__playwright__"

-- `callOwner`: the index of the message that holds the call, the entry that was written last first.
pub own_calls : ℕ → List ToolCall → List (String × ℕ) → List (String × ℕ)
own_calls i [] owners = owners
own_calls i (c ∷ cs) owners = own_calls i cs ((c.id, i) ∷ owners)

pub call_owner : ℕ → List WireMessage → List (String × ℕ) → List (String × ℕ)
unfolding own_calls
call_owner i [] owners = owners
call_owner i (m ∷ ms) owners =
    call_owner (i + 1) ms (if is_assistant_row m then own_calls i m.tool_calls owners else owners)

abbrev is_later : ℕ → Option ℕ → Bool
is_later i none = true
is_later i (some j) = ltb j i

abbrev later_of : Option ℕ → Option ℕ → Option ℕ
later_of none latest = latest
later_of (some i) latest = if is_later i latest then some i else latest

-- `latestSuccessCall`.
pub latest_success_call : List (String × ℕ) → List WireMessage → Option ℕ → Option ℕ
unfolding is_browser_tool_id
latest_success_call owners [] latest = latest
latest_success_call owners (m ∷ ms) latest = latest_success_call owners ms (
    if is_tool m && (not m.tool_error && is_browser_tool_id m.tool_name)
    then later_of (find_key owners m.tool_call_id) latest
    else latest)

abbrev is_before : ℕ → Option ℕ → Bool
is_before i none = false
is_before i (some j) = ltb i j

pub frame_at : ℕ → Option ℕ → WireMessage → WireMessage
unfolding is_browser_tool_id
frame_at i latest m =
    if is_tool m && (is_browser_tool_id m.tool_name && is_before i latest)
    then record m { content = superseded_browser_frame; images = [] }
    else m

pub frames_from : ℕ → Option ℕ → List WireMessage → List WireMessage
frames_from i latest [] = []
frames_from i latest (m ∷ ms) = frame_at i latest m ∷ frames_from (i + 1) latest ms

pub project_browser_frames : List WireMessage → List WireMessage
project_browser_frames messages =
    frames_from 0 (latest_success_call (call_owner 0 messages []) messages none) messages
