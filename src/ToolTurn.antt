-- ===== src/ToolTurn.antt =====
-- internal/session/step_tools.go: the tool calls of one answer, from the checks before they are
-- scheduled to the items that their results become. What a tool does, the texts of errors and the
-- fingerprints are functions of the call.
pub mod Items
pub mod Commit
pub mod Truncate
mod Tests
use Prim.Native.String.{◌++◌ as str_append}
use text.Mathlib.Text.{starts_with}
use coagent.Base.{
  ℕ, ◌+◌, Bool, true, false, not, ◌&&◌, ◌||◌, List, [], ◌∷◌, Option, none, some, map, String,
  str_eq, ltb, length, any, if◌then◌else◌, holds_key,
}
use coagent.LoopDetector.{ToolRecord}
use coagent.Stage.{
  Tool, Call, CallError, CallResult, Context, Outcome, call_error, executed, failed, suspended,
  skipped, cancelled, schedule,
}
use coagent.Transcript.{ToolCall, ImageRef}
use coagent.Transcript.Browser.{is_browser_tool_id}

-- `toolCallResultItem`; its raw error is only logged.
pub record Item : Type 0 where
  pub index : ℕ
  pub tool_call : ToolCall
  pub content : String
  pub untrusted : Bool
  pub images : List ImageRef
  pub direct_messages : List String
  pub outcome : Outcome

-- A result that a tool returned, with the text that `formatToolResult` makes of it.
pub record ToolResult : Type 0 where
  pub content : String
  pub untrusted : Bool
  pub images : List ImageRef
  pub direct_messages : List String

-- What the calls of a turn meet outside this file; `wrap` is `wrapUntrustedContent`, and `identify`
-- `identifyUntrustedContent`, whose boundary is random.
pub record Turn : Type 0 where
  pub browser : Bool
  pub tool_of : ToolCall → Option Tool
  pub context : Context
  pub result_of : ToolCall → ToolResult
  pub error_text : ToolCall → String
  pub wrap : String → String
  pub identify : String → String
  pub redact : String → String
  pub fingerprint_args : ToolCall → ℕ
  pub fingerprint_result : String → List ImageRef → ℕ

abbrev pub browser_extra_action_notice : String
browser_extra_action_notice =
    "Only one browser action runs per turn; this call was not executed. Look at the result of the first call, then act again. Use browser_fill_form to fill several fields at once."

abbrev pub skipped_text : String
skipped_text = "skipped: an earlier tool call in this turn failed"

-- `IsUntrustedOutputSource` of internal/tool/tool.go.
abbrev pub is_untrusted_output_source : String → Bool
is_untrusted_output_source name =
    holds_key ("webfetch" ∷ "websearch" ∷ []) name || starts_with name "mcp__"

abbrev calls_tool : List ToolCall → String → Bool
calls_tool batch name = any (λ c. str_eq c.name name) batch

-- `batchConflict`: the text of its error.
pub batch_conflict : List ToolCall → ToolCall → Option String
batch_conflict batch call =
    let has_task = calls_tool batch "task" in
    if (has_task || calls_tool batch "send_to_subagent") && str_eq call.name "sleep"
    then some (
        str_append "sleep cannot be combined with " (
          str_append (if has_task then "task" else "send_to_subagent")
            ": subagent completion wakes the session automatically"))
    else none

pub failed_item : Turn → ℕ → ToolCall → String → Item
failed_item turn i call err =
    let content = str_append "Error: " err in
    record {
      index = i;
      tool_call = call;
      content = if is_untrusted_output_source call.name then turn.wrap content else content;
      untrusted = is_untrusted_output_source call.name;
      images = [];
      direct_messages = [];
      outcome = failed;
    }

-- An item whose fields are zero but for those given.
abbrev bare_item : ℕ → ToolCall → String → Outcome → Item
bare_item i call content outcome = record {
  index = i;
  tool_call = call;
  content = content;
  untrusted = false;
  images = [];
  direct_messages = [];
  outcome = outcome;
}

abbrev zero_item : Item
zero_item = bare_item 0 (record { id = ""; name = ""; arguments = "" }) "" executed

-- The text of the error of a result; a call that carries an error of its own has it from the batch.
pub error_of : Turn → List ToolCall → ToolCall → Option CallError → String
unfolding batch_conflict
error_of turn batch call (some call_error) = elim (batch_conflict batch call) [
  | none ↦ ""
  | some text ↦ text
]
error_of turn batch call _ = turn.error_text call

pub map_result : Turn → List ToolCall → ℕ → ToolCall → CallResult → Item
unfolding error_of failed_item
map_result turn batch i call r =
    let from_result : Item =
      let result = turn.result_of call in
      record {
        index = i;
        tool_call = call;
        content = result.content;
        untrusted = result.untrusted;
        images = result.images;
        direct_messages = result.direct_messages;
        outcome = r.outcome;
      } in
    let ran =
      if r.has_result
      then from_result
      else failed_item turn i call (error_of turn batch call r.err) in
    elim r.outcome [
      | cancelled ↦ bare_item 0 call "" cancelled
      | suspended ↦ bare_item 0 call "" suspended
      | skipped ↦ bare_item i call skipped_text skipped
      | executed ↦ ran
      | failed ↦ ran
    ]

-- `mapExecutorReport`, at the calls from index `i` on.
pub map_executor_report : Turn → List ToolCall → ℕ → List ToolCall → List CallResult → List Item
unfolding map_result
map_executor_report turn batch i [] rs = []
map_executor_report turn batch i (c ∷ cs) [] =
    zero_item ∷ map_executor_report turn batch (i + 1) cs []
map_executor_report turn batch i (c ∷ cs) (r ∷ rs) =
    map_result turn batch i c r ∷ map_executor_report turn batch (i + 1) cs rs

-- The calls that `filterExtraBrowserActions` schedules for the browser's agent.
pub first_browser_actions : Bool → List ToolCall → List ToolCall
unfolding is_browser_tool_id
first_browser_actions seen [] = []
first_browser_actions seen (c ∷ cs) =
    let is_action = is_browser_tool_id c.name in
    let rest = first_browser_actions (seen || is_action) cs in
    if is_action && seen then rest else c ∷ rest

abbrev pub filter_extra_browser_actions : Bool → List ToolCall → List ToolCall
filter_extra_browser_actions browser calls =
    if browser then first_browser_actions false calls else calls

-- The items of all calls: those that were not scheduled have a notice, and the others, in order, the
-- items of the report.
pub fill_results : Bool → ℕ → List ToolCall → List Item → List Item
unfolding is_browser_tool_id
fill_results seen i [] items = []
fill_results seen i (c ∷ cs) [] =
    let is_action = is_browser_tool_id c.name in
    (if is_action && seen then bare_item i c browser_extra_action_notice skipped else zero_item)
    ∷ fill_results (seen || is_action) (i + 1) cs []
fill_results seen i (c ∷ cs) (item ∷ items) =
    let is_action = is_browser_tool_id c.name in
    let extra = fill_results (seen || is_action) (i + 1) cs (item ∷ items) in
    let rest = fill_results (seen || is_action) (i + 1) cs items in
    if is_action && seen
    then bare_item i c browser_extra_action_notice skipped ∷ extra
    else record item { index = i } ∷ rest

abbrev pub to_call : Turn → List ToolCall → ToolCall → Call
to_call turn batch call = record {
  tool = turn.tool_of call;
  unresolved = elim (batch_conflict batch call) [ none ↦ false | some text ↦ true ];
}

abbrev pub is_not_alone : Option String → List ToolCall → Bool
is_not_alone none calls = false
is_not_alone (some id) calls = ltb 1 (length calls) && calls_tool calls id

pub reject_all : Turn → String → ℕ → List ToolCall → List Item
unfolding failed_item
reject_all turn err i [] = []
reject_all turn err i (c ∷ cs) = failed_item turn i c err ∷ reject_all turn err (i + 1) cs

abbrev pub alone_text : Option String → String
alone_text none = ""
alone_text (some id) = str_append id " must be invoked alone in its activated command turn"

-- The scheduling of `executeToolCallsInternal`.
pub schedule_calls : Turn → List ToolCall → List Item
unfolding fill_results map_executor_report
schedule_calls turn calls =
    let scheduled = filter_extra_browser_actions turn.browser calls in
    let report = schedule turn.context (map (to_call turn scheduled) scheduled) in
    let mapped = map_executor_report turn scheduled 0 scheduled report.results in
    if turn.browser then fill_results false 0 calls mapped else mapped

-- `executeToolCallsInternal`; the activation is the identity of the tool that a command activated.
pub execute_tool_calls_internal : Turn → Option String → List ToolCall → List Item
unfolding schedule_calls reject_all
execute_tool_calls_internal turn activation calls =
    if is_not_alone activation calls
    then reject_all turn (alone_text activation) 0 calls
    else schedule_calls turn calls

abbrev pub is_terminal : Outcome → Bool
is_terminal executed = true
is_terminal failed = true
is_terminal _ = false

-- The records of `runToolCalls`.
pub terminal_records : Turn → List Item → List ToolRecord
terminal_records turn [] = []
terminal_records turn (r ∷ rs) =
    let rest = terminal_records turn rs in
    if is_terminal r.outcome
    then record {
      name = r.tool_call.name;
      args_hash = turn.fingerprint_args r.tool_call;
      result_hash = turn.fingerprint_result r.content r.images;
      failed = elim r.outcome [ failed ↦ true | _ ↦ false ];
    }
      ∷ rest
    else rest
