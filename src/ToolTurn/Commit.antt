-- ===== src/ToolTurn/Commit.antt =====
-- internal/session/step_tools.go: how the items of a turn become rows, and what the store does with
-- them (internal/sessionstore/commit_parts.go and direct_output_store.go). The rows are those of the
-- session, of which the active ones are its transcript. That the rest of the transaction succeeds is
-- given, and so is the text of a warning.
pub mod Settles
pub mod Walk
pub mod Drains
use Prim.Native.String.{len, ◌++◌ as str_append}
use coagent.Base.{
  ℕ, ◌+◌, ◌-◌, ◌*◌, Bool, true, false, not, ◌&&◌, ◌||◌, List, [], ◌∷◌, ◌++◌, Option, none, some,
  map, String, str_eq, ltb, leb, ◌==◌, length, any, if◌then◌else◌,
}
use coagent.LoopDetector.{
  LoopDetector, LoopAction, warn, block, force_text_only, warn_failure, check, record_round,
}
use coagent.Stage.{Outcome, executed, failed, suspended, skipped, cancelled}
use coagent.Transcript.{WireMessage, tool, ToolCall, ImageRef, is_tool, is_empty}
use coagent.Transcript.Pending.{name_of, unresolved_tool_calls}
use coagent.Transcript.Browser.{project_browser_frames}
use coagent.ToolTurn.{Item, Turn, execute_tool_calls_internal, terminal_records, is_terminal}

pub record StoredRow : Type 0 where
  pub message : WireMessage
  pub is_active : Bool

-- The text that the tool's call shows to the user, by the two parts of its key.
pub record Output : Type 0 where
  pub tool_call_id : String
  pub number : ℕ
  pub content : String

pub record TurnState : Type 0 where
  pub rows : List StoredRow
  pub messages : List WireMessage
  pub outputs : List Output
  pub detector : LoopDetector
  pub is_suspended : Bool
  pub staged : List (String × String)
  pub activation : Option String

-- What the commit meets: whether the rest of the transaction succeeds, the detector's warnings, and
-- the notice for a number of omitted outputs.
pub record CommitEnv : Type 0 where
  pub commits : Bool
  pub warning_text : LoopDetector → LoopAction → String → String
  pub omitted_notice : ℕ → String

abbrev pub max_direct_messages : ℕ
max_direct_messages = 4

abbrev pub max_direct_message_bytes : ℕ
max_direct_message_bytes = 16384

abbrev pub max_direct_total_bytes : ℕ
max_direct_total_bytes = 32768

abbrev pub is_direct : String → Bool
is_direct message = not (str_eq message "") && not (ltb max_direct_message_bytes (len message))

-- `validCount` and `validBytes`.
pub count_valid : List String → ℕ × ℕ
count_valid [] = (0, 0)
count_valid (m ∷ ms) =
    let rest = count_valid ms in if is_direct m then (rest.0 + 1, rest.1 + len m) else rest

-- The capping loop, from `count` kept messages on: the messages it keeps.
pub cap_from : ℕ → ℕ → List String → List String
cap_from count budget [] = []
cap_from count budget (m ∷ ms) =
    let skip = cap_from count budget ms in
    let keep = cap_from (count + 1) (budget - len m) ms in
    if count == max_direct_messages - 1
    then []
    else if is_direct m && not (ltb budget (len m))
    then m ∷ keep
    else skip

pub cap_direct_output : CommitEnv → List String → List String
unfolding count_valid cap_from
cap_direct_output env direct =
    let valid = count_valid direct in
    let capped = cap_from 0 max_direct_total_bytes direct in
    if valid.0 == length direct
      && (leb valid.0 max_direct_messages && leb valid.1 max_direct_total_bytes)
    then direct
    else capped ++ env.omitted_notice (length direct - length capped) ∷ []

-- The index of the last result that ran to its end.
pub warn_index : ℕ → List Item → Option ℕ → Option ℕ
warn_index i [] last = last
warn_index i (r ∷ rs) last = warn_index (i + 1) rs (if is_terminal r.outcome then some i else last)

pub prepend_loop_warning : CommitEnv → LoopDetector → LoopAction → String → String → String
prepend_loop_warning env d action name content =
    let warned = str_append (env.warning_text d action name) (str_append "\n\n" content) in
    elim action [ warn ↦ warned | warn_failure ↦ warned | _ ↦ content ]

abbrev pub is_undecided : Outcome → Bool
is_undecided suspended = true
is_undecided cancelled = true
is_undecided _ = false

abbrev is_at : ℕ → Option ℕ → Bool
is_at i none = false
is_at i (some j) = i == j

-- The row of a decided item.
pub tool_row : Turn → CommitEnv → LoopDetector → LoopAction → Bool → Item → WireMessage
unfolding prepend_loop_warning
tool_row turn env d action is_last r =
    let content = if r.untrusted then turn.identify r.content else r.content in
    record {
      role = tool;
      content =
          if is_last then prepend_loop_warning env d action r.tool_call.name content else content;
      tool_call_id = r.tool_call.id;
      tool_name = r.tool_call.name;
      tool_error = elim r.outcome [ failed ↦ true | skipped ↦ true | _ ↦ false ];
      tool_calls = [];
      reasoning_content = "";
      reasoning_raw = "";
      images = r.images;
      cost_usd = 0;
    }

-- `c.ToolResults` of `recordToolResults`, at the items from index `i` on.
pub tool_results :
    Turn → CommitEnv → LoopDetector → LoopAction → Option ℕ → ℕ → List Item → List WireMessage
unfolding tool_row
tool_results turn env d action last i [] = []
tool_results turn env d action last i (r ∷ rs) =
    let rest = tool_results turn env d action last (i + 1) rs in
    if is_undecided r.outcome then rest else tool_row turn env d action (is_at i last) r ∷ rest

pub number_outputs : String → ℕ → List String → List Output
number_outputs id j [] = []
number_outputs id j (text ∷ texts) =
    record { tool_call_id = id; number = j; content = text } ∷ number_outputs id (j + 1) texts

-- `c.Outputs` of `recordToolResults`.
pub tool_outputs : Turn → CommitEnv → List Item → List Output
unfolding cap_direct_output number_outputs
tool_outputs turn env [] = []
tool_outputs turn env (r ∷ rs) =
    let rest = tool_outputs turn env rs in
    let direct = cap_direct_output env (map turn.redact r.direct_messages) in
    if is_undecided r.outcome then rest else number_outputs r.tool_call.id 0 direct ++ rest

abbrev bool_eq : Bool → Bool → Bool
bool_eq true b = b
bool_eq false b = not b

-- The first row that answers the call.
unfoldable pub find_answer : List StoredRow → String → Option WireMessage
find_answer [] id = none
find_answer (r ∷ rs) id =
    let rest = find_answer rs id in
    if is_tool r.message && str_eq r.message.tool_call_id id then some r.message else rest

-- `insertToolResultOnceAt`: a result that is stored already must be the same.
pub insert_tool_result_once : List StoredRow → WireMessage → Option (List StoredRow)
unfolding find_answer
insert_tool_result_once rows m = elim (find_answer rows m.tool_call_id) [
  | none ↦ some (rows ++ record { message = m; is_active = true } ∷ [])
  | some existing ↦
      if str_eq existing.content m.content
        && (bool_eq existing.tool_error m.tool_error && str_eq existing.tool_name m.tool_name)
      then some rows
      else none
]

-- `commitToolResultsTx`.
pub commit_tool_results : List StoredRow → List WireMessage → Option (List StoredRow)
unfolding insert_tool_result_once
commit_tool_results rows [] = some rows
commit_tool_results rows (m ∷ ms) = elim (insert_tool_result_once rows m) [
  | none ↦ none
  | some rows' ↦ commit_tool_results rows' ms
]

unfoldable pub active_messages : List StoredRow → List WireMessage
active_messages [] = []
active_messages (r ∷ rs) =
    let rest = active_messages rs in if r.is_active then r.message ∷ rest else rest

-- `reloadMessagesLocked`.
pub reload_messages : Turn → List StoredRow → List WireMessage
unfolding active_messages
reload_messages turn rows =
    let messages = active_messages rows in
    if turn.browser then project_browser_frames messages else messages

-- The commit of results and outputs; none is an error, and nothing is stored.
pub commit : Turn → CommitEnv → TurnState → List WireMessage → List Output → Option TurnState
unfolding commit_tool_results reload_messages
commit turn env st results outputs =
    if env.commits
    then elim (commit_tool_results st.rows results) [
      | none ↦ none
      | some rows ↦ some (record st {
        rows = rows;
        messages = reload_messages turn rows;
        outputs = st.outputs ++ outputs;
      })
    ]
    else none

abbrev is_activated : Option String → Item → Bool
is_activated none r = false
is_activated (some id) r = not (is_empty r.direct_messages) && str_eq r.tool_call.name id

-- `consumeActivation`, over the items that executed.
pub consume_activation : Option String → List Item → Option String
consume_activation activation [] = activation
consume_activation activation (r ∷ rs) =
    let is_executed : Bool = elim r.outcome [ executed ↦ true | _ ↦ false ] in
    consume_activation (if is_executed && is_activated activation r then none else activation) rs

-- What a step leaves: the state, and whether it returned an error.
pub record Ran : Type 0 where
  pub state : TurnState
  pub is_error : Bool

-- The end of `recordToolResults` and of a blocked turn.
abbrev ran_or : TurnState → Option TurnState → Ran
ran_or st none = record { state = st; is_error = true }
ran_or st (some st') = record { state = st'; is_error = false }

pub record_tool_results : Turn → CommitEnv → TurnState → List Item → LoopAction → Ran
unfolding tool_results tool_outputs warn_index commit consume_activation
record_tool_results turn env st items action =
    let results = tool_results turn env st.detector action (warn_index 0 items none) 0 items in
    elim (commit turn env st results (tool_outputs turn env items)) [
      | none ↦ record { state = st; is_error = true }
      | some st' ↦ record {
        state = record st' { activation = consume_activation st'.activation items };
        is_error = false;
      }
    ]

abbrev pub is_blocking : LoopAction → Bool
is_blocking block = true
is_blocking force_text_only = true
is_blocking _ = false

abbrev pub loop_block_message : String
loop_block_message =
    "[BLOCKED: Tool execution blocked — you were warned about repetitive behavior but continued the same pattern. You MUST respond with text explaining your situation. No tool calls will be executed until you demonstrate a new approach.]"

abbrev pub block_message : ToolCall → WireMessage
block_message c = record {
  role = tool;
  content = loop_block_message;
  tool_call_id = c.id;
  tool_name = c.name;
  tool_error = true;
  tool_calls = [];
  reasoning_content = "";
  reasoning_raw = "";
  images = [];
  cost_usd = 0;
}

abbrev pub is_suspension : Item → Bool
is_suspension r = elim r.outcome [ suspended ↦ true | _ ↦ false ]

-- The part of `runToolCalls` behind the block.
pub execute_and_record : Turn → CommitEnv → TurnState → List ToolCall → Ran
unfolding record_tool_results
execute_and_record turn env st calls =
    let items = execute_tool_calls_internal turn st.activation calls in
    let post = check (record_round st.detector (terminal_records turn items)) in
    record_tool_results turn env
      (record st { detector = post.0; is_suspended = st.is_suspended || any is_suspension items })
      items post.1

pub run_tool_calls : Turn → CommitEnv → TurnState → List ToolCall → Ran
unfolding execute_and_record commit
run_tool_calls turn env st calls =
    let checked = check st.detector in
    let st' = record st { detector = checked.0 } in
    if is_blocking checked.1
    then ran_or st' (commit turn env st' (map block_message calls) [])
    else execute_and_record turn env st' calls

-- `IsExternalCall` of internal/tool/tool.go.
abbrev pub is_external_call : String → Bool
is_external_call name = str_eq name "sleep" || (str_eq name "task" || str_eq name "config_edit")

-- The staging loop of `toolStep`; an entry that is written again stands in front.
pub stage_calls :
    List (String × String) → List (String × String) → List ToolCall → List (String × String)
stage_calls unresolved staged [] = staged
stage_calls unresolved staged (c ∷ cs) =
    let is_open = is_external_call c.name && str_eq (name_of unresolved c.id) c.name in
    stage_calls unresolved (if is_open then (c.id, c.name) ∷ staged else staged) cs

pub tool_step : Turn → CommitEnv → TurnState → List ToolCall → Ran
unfolding run_tool_calls stage_calls
tool_step turn env st calls =
    let ran = run_tool_calls turn env st calls in
    let unresolved = unresolved_tool_calls ran.state.messages in
    if ran.state.is_suspended
    then record ran {
      state = record ran.state { staged = stage_calls unresolved ran.state.staged calls };
    }
    else ran
