-- ===== src/ToolTurn/Tests.antt =====
-- A turn of two calls: one tool returns a result, and the other suspends.
use coagent.Base.{
  ℕ, ◌≤◌, ◌/◌, length, arith, ◌≡◌, refl, true, false, List, [], ◌∷◌, map, none, some, str_eq,
  if◌then◌else◌,
}
use coagent.LoopDetector.{LoopDetector}
use coagent.Stage.{returns, fails}
use coagent.Transcript.{WireMessage, user, assistant, WireRole, ToolCall}
use coagent.ToolTurn.{Turn, execute_tool_calls_internal}
use coagent.Stage.{
  schedule, schedule_stages, schedule_stage, plan_stages, plan_from, initial, execute_stage,
  run_stage, invoke, execute, append_results, count_outcomes, count_outcome,
}
use coagent.Transcript.{has_incomplete_tool_calls}
use coagent.Transcript.Pending.{pending_in_loop_calls}
use coagent.ToolTurn.{batch_conflict, map_result, map_executor_report, schedule_calls}
use coagent.ToolTurn.Commit.{active_messages, tool_step}
use coagent.ToolTurn.Commit.Drains.{only_waits, are_whole, tool_step-pending_in_loop_calls}
use coagent.ToolTurn.Truncate.{Truncation, truncate_head_tail}
use coagent.ToolTurn.Truncate.Fits.{Truncates, truncate_head_tail-Truncates}
use coagent.ToolTurn.Items.{calls_of}
use coagent.ToolTurn.Commit.{StoredRow, TurnState, CommitEnv, find_answer, run_tool_calls}
use coagent.ToolTurn.Commit.Settles.{
  Settles, are_fresh, answered, call_ids_of, run_tool_calls-Settles,
}

abbrev message : WireRole → List ToolCall → WireMessage
message role calls = record {
  role = role;
  content = "text";
  tool_call_id = "";
  tool_name = "";
  tool_error = false;
  tool_calls = calls;
  reasoning_content = "";
  reasoning_raw = "";
  images = [];
  cost_usd = 0;
}

abbrev calls : List ToolCall
calls =
    record { id = "c1"; name = "read"; arguments = "{}" }
    ∷ record { id = "c2"; name = "sleep"; arguments = "{}" }
    ∷ []

abbrev history : List WireMessage
history = message user [] ∷ message assistant calls ∷ []

abbrev rows : List StoredRow
rows = map (λ m. record { message = m; is_active = true }) history

abbrev turn : Turn
turn = record {
  browser = false;
  tool_of = λ c. some (record {
    parallel_safe = false;
    execution = if str_eq c.name "sleep" then fails true else returns false;
  });
  context = record { done_at_stage = λ i. false; done_at_call = λ i. false };
  result_of =
      λ c. record { content = "done"; untrusted = false; images = []; direct_messages = [] };
  error_text = λ c. "error";
  wrap = λ text. text;
  identify = λ text. text;
  redact = λ text. text;
  fingerprint_args = λ c. 1;
  fingerprint_result = λ text images. 2;
}

abbrev env : CommitEnv
env = record {
  commits = true;
  warning_text = λ d action name. "warning";
  omitted_notice = λ n. "omitted";
}

abbrev detector : LoopDetector
detector = record {
  window = [];
  warn_fingerprint = [];
  warn_active = false;
  blocked = false;
  consecutive_blocks = 0;
  is_text_only = false;
}

abbrev state : TurnState
state = record {
  rows = rows;
  messages = history;
  outputs = [];
  detector = detector;
  is_suspended = false;
  staged = [];
  activation = none;
}

calls_fresh : are_fresh rows (call_ids_of calls) ≡ true
unfolding are_fresh find_answer
calls_fresh = refl

run_tool_calls-Settles_example :
    Settles turn rows (answered turn state calls) (run_tool_calls turn env state calls)
    × (calls_of (execute_tool_calls_internal turn none calls) ≡ calls)
run_tool_calls-Settles_example = run_tool_calls-Settles turn env state calls refl calls_fresh

history_ends : active_messages rows ≡ history
unfolding active_messages
history_ends = refl

history_whole : are_whole history ≡ true
unfolding are_whole has_incomplete_tool_calls
history_whole = refl

-- The first call returns a result, and the second one, which is external, suspends.
calls_wait : only_waits (execute_tool_calls_internal turn none calls) ≡ true
unfolding only_waits execute_tool_calls_internal schedule_calls map_executor_report map_result
    batch_conflict schedule schedule_stages schedule_stage plan_stages plan_from initial
    execute_stage run_stage invoke execute append_results count_outcomes count_outcome
calls_wait = refl

tool_step-pending_in_loop_calls_example :
    pending_in_loop_calls
      (tool_step turn env state calls).state.staged
      (tool_step turn env state calls).state.messages
    ≡ []
tool_step-pending_in_loop_calls_example =
    tool_step-pending_in_loop_calls turn env state (message user [] ∷ []) (message assistant calls)
      refl calls_fresh history_ends refl refl history_whole calls_wait

-- A marker of one rune, and half of what is available for the head.
abbrev halves : Truncation
halves = record {
  marker = λ omitted. 46 ∷ [];
  has_important_tail = λ runes. true;
  share = λ important n. n / 2;
}

abbrev runes : List ℕ
runes = 97 ∷ 98 ∷ 99 ∷ 100 ∷ 101 ∷ 102 ∷ []

truncate_head_tail-Truncates_example :
    Truncates runes (46 ∷ []) 5 (truncate_head_tail halves runes 5)
    × (length (truncate_head_tail halves runes 5) ≤ 5)
truncate_head_tail-Truncates_example =
    truncate_head_tail-Truncates halves runes 5 (λ b n. omega arith)
