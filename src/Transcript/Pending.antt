-- ===== src/Transcript/Pending.antt =====
-- The calls of internal/session/transcript.go and session.go that a session still has to run or to
-- wait for. A map is a list of its entries; the staged calls are those that a producer outside the
-- loop will answer.
use text.Mathlib.Text.{starts_with}
use coagent.Base.{
  Bool, false, not, ◌&&◌, List, [], ◌∷◌, ◌++◌, none, some, String, str_eq, if◌then◌else◌, holds_key,
  find_key, reverse, last_or,
}
use coagent.Transcript.{
  WireMessage, user, assistant, tool, system, ToolCall, is_assistant_row, is_empty,
  unresolved_calls_matching,
}

-- `unresolvedToolCalls` of internal/session/session.go: the map from identity to name, the entry that
-- was written last first.
unfoldable pub unresolved_names :
    List String → List ToolCall → List (String × String) → List (String × String)
unresolved_names resolved [] names = names
unresolved_names resolved (c ∷ cs) names =
    unresolved_names resolved cs (if holds_key resolved c.id then names else (c.id, c.name) ∷ names)

-- Its walk, from the newest message on; the set holds what the results behind resolve.
unfoldable pub unresolved_newest_first : List String → List WireMessage → List (String × String)
unresolved_newest_first resolved [] = []
unresolved_newest_first resolved (m ∷ older) = elim m.role [
  | user ↦ []
  | assistant ↦ if is_empty m.tool_calls then [] else unresolved_names resolved m.tool_calls []
  | tool ↦ unresolved_newest_first (m.tool_call_id ∷ resolved) older
  | system ↦ unresolved_newest_first resolved older
]

unfoldable pub unresolved_tool_calls : List WireMessage → List (String × String)
unresolved_tool_calls messages = unresolved_newest_first [] (reverse messages)

-- A map's entry, or the empty text.
abbrev pub name_of : List (String × String) → String → String
name_of names id = elim (find_key names id) [ none ↦ "" | some name ↦ name ]

unfoldable pub pending_of :
    List (String × String) → List (String × String) → List ToolCall → List ToolCall
pending_of pending staged [] = []
pending_of pending staged (c ∷ cs) =
    let rest = pending_of pending staged cs in
    if str_eq (name_of pending c.id) c.name && not (str_eq (name_of staged c.id) c.name)
    then c ∷ rest
    else rest

unfoldable pub pending_among :
    List (String × String) → List (String × String) → List WireMessage → List ToolCall
pending_among pending staged [] = []
pending_among pending staged (m ∷ ms) =
    pending_of pending staged m.tool_calls ++ pending_among pending staged ms

-- The calls that the loop has to run; those that are staged wait for a producer.
unfoldable pub pending_in_loop_calls : List (String × String) → List WireMessage → List ToolCall
pending_in_loop_calls staged messages =
    pending_among (unresolved_tool_calls messages) staged messages

abbrev pub is_staged : List (String × String) → ToolCall → Bool
is_staged staged c = str_eq (name_of staged c.id) c.name

pub pending_external_calls : List (String × String) → List WireMessage → List ToolCall
pending_external_calls staged messages = unresolved_calls_matching messages (is_staged staged)

abbrev pub agents_md_message_prefix : String
agents_md_message_prefix =
    "User preferences from AGENTS.md files (lower priority than system instructions):\n\n"

abbrev is_answer : List (String × String) → List WireMessage → WireMessage → Bool
is_answer staged messages last =
    is_assistant_row last && is_empty (pending_in_loop_calls staged messages)

pub unanswered_work : List (String × String) → List WireMessage → Bool
unanswered_work staged [] = false
unanswered_work staged (m ∷ []) =
    not (starts_with m.content agents_md_message_prefix) && not (is_answer staged (m ∷ []) m)
unanswered_work staged (m ∷ m' ∷ ms) = not (is_answer staged (m ∷ m' ∷ ms) (last_or m' ms))

pub has_pending_work : List (String × String) → List WireMessage → Bool
has_pending_work staged messages =
    is_empty (pending_external_calls staged messages) && unanswered_work staged messages
