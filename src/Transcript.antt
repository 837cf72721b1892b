-- ===== src/Transcript.antt =====
-- internal/session/transcript.go: the transcript of a session, its repair before it is sent to a
-- model, the tool calls that it still owes a result, and the estimate of its size. A message is the
-- wire message of internal/llmwire; a map or a set of the source is a list. The cost and the sealed
-- reasoning of a message are only copied and compared, and stand for themselves.
pub mod Repair
pub mod Answers
pub mod Keeps
pub mod Stored
pub mod Pending
pub mod Sizes
pub mod Browser
mod Tests
use Prim.Native.String.{len, ◌++◌ as str_append}
use text.Mathlib.Text.{starts_with}
use coagent.Base.{
  ℕ, zero, suc, ◌+◌, ◌-◌, ◌*◌, ◌/◌, min, Bool, true, false, not, ◌&&◌, ◌||◌, List, [], ◌∷◌, ◌++◌,
  Option, none, some, String, str_eq, ltb, leb, length, drop, any, if◌then◌else◌, holds_key,
  find_key, reverse, last_or,
}

pub data WireRole : Type 0 where
  user assistant tool system : WireRole

pub record ToolCall : Type 0 where
  pub id : String
  pub name : String
  pub arguments : String

pub record ImageRef : Type 0 where
  pub path : String
  pub size : ℕ
  pub width : ℕ
  pub height : ℕ

pub record WireMessage : Type 0 where
  pub role : WireRole
  pub content : String
  pub tool_call_id : String
  pub tool_name : String
  pub tool_error : Bool
  pub tool_calls : List ToolCall
  pub reasoning_content : String
  pub reasoning_raw : String
  pub images : List ImageRef
  pub cost_usd : ℕ

abbrev pub is_user : WireMessage → Bool
is_user m = elim m.role [ user ↦ true | _ ↦ false ]

abbrev pub is_assistant_row : WireMessage → Bool
is_assistant_row m = elim m.role [ assistant ↦ true | _ ↦ false ]

abbrev pub is_tool : WireMessage → Bool
is_tool m = elim m.role [ tool ↦ true | _ ↦ false ]

abbrev pub is_empty {ℓ} : {A : Type ℓ} → List A → Bool
is_empty [] = true
is_empty (x ∷ xs) = false

abbrev pub is_blank_id : String → Bool
is_blank_id id = str_eq id ""

-- A tool result that names its call.
unfoldable pub is_result : WireMessage → Bool
is_result m = is_tool m && not (is_blank_id m.tool_call_id)

-- An assistant message that calls tools.
unfoldable pub is_call_row : WireMessage → Bool
is_call_row m = is_assistant_row m && not (is_empty m.tool_calls)

-- The identities of the calls, those that are blank left out.
unfoldable pub call_ids : List ToolCall → List String
call_ids [] = []
call_ids (c ∷ cs) = let rest = call_ids cs in if is_blank_id c.id then rest else c.id ∷ rest

-- `allToolCallIDs` of `repairTranscript`.
unfoldable pub all_tool_call_ids : List WireMessage → List String
all_tool_call_ids [] = []
all_tool_call_ids (m ∷ ms) =
    let rest = all_tool_call_ids ms in
    if is_assistant_row m then call_ids m.tool_calls ++ rest else rest

-- `resultsByCallID` of `repairTranscript`: the first result of each call; `seen` is `seenResultIDs`.
unfoldable pub index_results :
    List String → List String → List WireMessage → List (String × WireMessage)
unfolding is_result
index_results ids seen [] = []
index_results ids seen (m ∷ ms) =
    let takes =
      is_result m && (not (holds_key seen m.tool_call_id) && holds_key ids m.tool_call_id) in
    let rest = index_results ids (if takes then m.tool_call_id ∷ seen else seen) ms in
    if takes then (m.tool_call_id, m) ∷ rest else rest

unfoldable pub has_incomplete_tool_calls : List ToolCall → Bool
has_incomplete_tool_calls [] = false
has_incomplete_tool_calls (c ∷ cs) =
    (is_blank_id c.id || str_eq c.name "") || has_incomplete_tool_calls cs

-- The message that stands in for a result that is missing.
abbrev pub missing_result : ToolCall → WireMessage
missing_result c = record {
  role = tool;
  content =
      str_append "[transcript repair] missing tool result for "
        (str_append c.name (str_append " (id: " (str_append c.id ")")));
  tool_call_id = c.id;
  tool_name = c.name;
  tool_error = false;
  tool_calls = [];
  reasoning_content = "";
  reasoning_raw = "";
  images = [];
  cost_usd = 0;
}

-- What `emitToolResults` appends for one call whose turn it is.
unfoldable pub result_for :
    List (String × WireMessage) → List String → Bool → ToolCall → List WireMessage
result_for results pending incomplete c = elim (find_key results c.id) [
  | some r ↦ r ∷ []
  | none ↦ if holds_key pending c.id then [] else if incomplete then [] else missing_result c ∷ []
]

abbrev pub is_due : List String → ToolCall → Bool
is_due emitted c = not (is_blank_id c.id || holds_key emitted c.id)

-- The loop of `emitToolResults`: the messages that it appends, and `emittedResults` after it.
unfoldable pub emit_calls :
    List (String × WireMessage)
    → List String
    → Bool
    → List String
    → List ToolCall
    → List WireMessage × List String
emit_calls results pending incomplete emitted [] = ([], emitted)
emit_calls results pending incomplete emitted (c ∷ cs) =
    let due = is_due emitted c in
    let rest = emit_calls results pending incomplete (if due then c.id ∷ emitted else emitted) cs in
    if due then (result_for results pending incomplete c ++ rest.0, rest.1) else rest

abbrev pub emit_tool_results :
    List (String × WireMessage)
    → List String
    → List String
    → List ToolCall
    → List WireMessage × List String
emit_tool_results results pending emitted cs =
    emit_calls results pending (has_incomplete_tool_calls cs) emitted cs

-- The rebuilding loop of `repairTranscript`.
unfoldable pub rebuild :
    List (String × WireMessage) → List String → List String → List WireMessage → List WireMessage
unfolding is_call_row is_result
rebuild results pending emitted [] = []
rebuild results pending emitted (m ∷ ms) =
    let emits = is_call_row m in
    let group =
      if emits then emit_tool_results results pending emitted m.tool_calls else ([], emitted) in
    let rest = rebuild results pending group.1 ms in
    if is_result m then rest else m ∷ (group.0 ++ rest)

-- The pending calls are those that a producer outside the loop will answer.
unfoldable pub repair_transcript : List WireMessage → List String → List WireMessage
repair_transcript messages pending =
    rebuild (index_results (all_tool_call_ids messages) [] messages) pending [] messages

-- `resolved` of `unresolvedCallsMatching`.
unfoldable pub resolved_ids : List WireMessage → List String
unfolding is_result
resolved_ids [] = []
resolved_ids (m ∷ ms) =
    let rest = resolved_ids ms in if is_result m then m.tool_call_id ∷ rest else rest

pub unresolved_of : List String → (ToolCall → Bool) → List ToolCall → List ToolCall
unresolved_of resolved matches [] = []
unresolved_of resolved matches (c ∷ cs) =
    let rest = unresolved_of resolved matches cs in
    if not (is_blank_id c.id) && (not (holds_key resolved c.id) && matches c)
    then c ∷ rest
    else rest

pub unresolved_in : List String → (ToolCall → Bool) → List WireMessage → List ToolCall
unresolved_in resolved matches [] = []
unresolved_in resolved matches (m ∷ ms) =
    let rest = unresolved_in resolved matches ms in
    if is_assistant_row m then unresolved_of resolved matches m.tool_calls ++ rest else rest

pub unresolved_calls_matching : List WireMessage → (ToolCall → Bool) → List ToolCall
unresolved_calls_matching messages matches = unresolved_in (resolved_ids messages) matches messages
