-- ===== src/Checkpoint/Tests.antt =====
-- A transcript of five rows, whose last two are a call and its result: the cut is before the call.
use coagent.Base.{
  ◌≡◌, refl, true, false, ℕ, ◌+◌, List, [], ◌∷◌, none, some, String, all, holds_key, arith,
}
use coagent.Transcript.{
  WireRole, WireMessage, user, assistant, tool, ToolCall, repair_transcript, resolved_ids,
  all_tool_call_ids, call_ids, is_result, rebuild, index_results, emit_calls, result_for,
  is_call_row, has_incomplete_tool_calls,
}
use coagent.Transcript.Repair.{is_paired}
use coagent.Transcript.Sizes.{
  estimate_text, image_token_estimate, message_estimate, estimate_tokens, image_base64_bytes,
  image_pressure,
}
use coagent.Checkpoint.{
  Skills, CheckpointPrefix, is_marked_summary, compaction_header_size, parse_skill_row,
  parse_checkpoint_prefix, select_skill_from, select_current_skill, is_valid_header,
}
use coagent.Checkpoint.Split.{
  role_eq, calls_eq, images_eq, raw_messages_equal, all_equal, group_calls, group_names,
  owns_results, is_valid_grouping, raw_cut_legal, is_split, search_down, first_split,
  select_tail_split, try_levels, try_bounds, split_args, select_checkpoint_split,
}
use coagent.Checkpoint.Split.Legal.{raw_cut_legal-is_paired}
use coagent.Checkpoint.Assemble.{
  Row, Assembled, is_carried, skill_rows, compacted_from, assemble_checkpoint,
}
use coagent.Checkpoint.Assemble.Conserves.{stored_as, times_in}
use coagent.Checkpoint.Compact.{
  CompactArgs, compacted, messages_of, is_relieving, candidate, find_split, compact_at,
  compact_locked,
}
use coagent.Checkpoint.Compact.Safe.{Relieves, compact_locked-Relieves, compact_locked-stored_as}

abbrev message : WireRole → String → WireMessage
message role content = record {
  role = role;
  content = content;
  tool_call_id = "";
  tool_name = "";
  tool_error = false;
  tool_calls = [];
  reasoning_content = "";
  reasoning_raw = "";
  images = [];
  cost_usd = 0;
}

abbrev reads : ToolCall
reads = record { id = "c1"; name = "read"; arguments = "{}" }

abbrev calls : WireMessage
calls = record (message assistant "reading") { tool_calls = reads ∷ [] }

abbrev answers : WireMessage
answers = record (message tool "done") { tool_call_id = "c1"; tool_name = "read" }

abbrev row : ℕ → WireMessage → Row
row id m = record { message = m; row_id = id }

abbrev rows : List Row
rows =
    row 1 (message user "the task")
    ∷ row 2 (message user "look")
    ∷ row 3 (message assistant "seen")
    ∷ row 4 calls
    ∷ row 5 answers
    ∷ []

abbrev tail : List WireMessage
tail = calls ∷ answers ∷ []

tail_legal : raw_cut_legal tail ≡ true
unfolding raw_cut_legal all_equal raw_messages_equal role_eq calls_eq images_eq is_valid_grouping
    group_names group_calls owns_results repair_transcript rebuild index_results emit_calls
    result_for is_call_row is_result all_tool_call_ids call_ids has_incomplete_tool_calls
tail_legal = refl

raw_cut_legal-is_paired_example :
    (is_paired [] [] tail ≡ true)
    × (all (holds_key (resolved_ids tail)) (all_tool_call_ids tail) ≡ true)
raw_cut_legal-is_paired_example = raw_cut_legal-is_paired tail tail_legal

-- A tail that holds a result and no call is not legal.
orphan_illegal : raw_cut_legal (answers ∷ []) ≡ false
unfolding raw_cut_legal all_equal raw_messages_equal role_eq calls_eq images_eq is_valid_grouping
    group_names group_calls owns_results repair_transcript rebuild index_results emit_calls
    result_for is_call_row is_result all_tool_call_ids call_ids has_incomplete_tool_calls
orphan_illegal = refl

abbrev no_skills : Skills
no_skills = record { last_envelope = λ text. none; is_exact_envelope = λ text. false }

abbrev summary : WireMessage
summary = message user "summary"

abbrev args : CompactArgs
args = record {
  skills = no_skills;
  prompt_estimate = 10;
  summarizer_base_estimate = 10;
  request_overhead = 20;
  window = 1000;
  cutoff = 100;
  bounds = 50 ∷ 90 ∷ [];
  completion_pin = 0;
  completion_pending = false;
  summarize = λ split. some summary;
}

abbrev new : Assembled
new = record {
  rows = row 1 (message user "the task") ∷ row 0 summary ∷ row 4 calls ∷ row 5 answers ∷ [];
  compacted_ids = 2 ∷ 3 ∷ [];
}

abbrev prefix : CheckpointPrefix
prefix = record { summary_row_idx = none; skill_row_idx = none; raw_start = 1 }

split_found : select_checkpoint_split (messages_of rows) prefix 10 1000 0 (50 ∷ 90 ∷ []) ≡ some 3
unfolding select_checkpoint_split split_args try_bounds try_levels select_tail_split first_split
    search_down is_split raw_cut_legal all_equal raw_messages_equal role_eq calls_eq images_eq
    is_valid_grouping group_names group_calls owns_results repair_transcript rebuild index_results
    emit_calls result_for is_call_row is_result all_tool_call_ids call_ids has_incomplete_tool_calls
    estimate_tokens message_estimate estimate_text image_token_estimate image_pressure
    image_base64_bytes
split_found = refl

rows_compacted : compact_locked args rows ≡ compacted new
unfolding compact_locked compact_at candidate is_relieving find_split compaction_header_size
    parse_checkpoint_prefix parse_skill_row is_marked_summary select_current_skill select_skill_from
    is_valid_header assemble_checkpoint skill_rows is_carried compacted_from select_checkpoint_split
    split_args try_bounds try_levels select_tail_split first_split search_down is_split
    raw_cut_legal all_equal raw_messages_equal role_eq calls_eq images_eq is_valid_grouping
    group_names group_calls owns_results repair_transcript rebuild index_results emit_calls
    result_for is_call_row is_result all_tool_call_ids call_ids has_incomplete_tool_calls
    estimate_tokens message_estimate estimate_text image_token_estimate image_pressure
    image_base64_bytes
rows_compacted = refl

compact_locked-Relieves_example : Relieves args rows new
compact_locked-Relieves_example = compact_locked-Relieves args rows new rows_compacted

compact_locked-stored_as_example :
    stored_as 3 new.rows + times_in 3 new.compacted_ids ≡ stored_as 3 rows
compact_locked-stored_as_example =
    compact_locked-stored_as args rows new 3 (omega arith) rows_compacted
