-- ===== src/Transcript/Tests.antt =====
-- A transcript whose assistant calls two tools: one answered twice, the other not at all, and a result
-- of no call.
use coagent.Base.{◌≡◌, refl, true, false, List, [], ◌∷◌, some, String, holds_key}
use coagent.Transcript.{
  WireRole, WireMessage, user, assistant, tool, ToolCall, repair_transcript, resolved_ids,
  all_tool_call_ids, call_ids, is_result, missing_result, rebuild, index_results, emit_calls,
  result_for, is_call_row, has_incomplete_tool_calls,
}
use coagent.Transcript.Repair.{is_paired, repair_transcript-is_paired}
use coagent.Transcript.Answers.{is_answered, resolved_ids-repair_transcript}
use coagent.Transcript.Keeps.{conversation, conversation-repair_transcript}
use coagent.Transcript.Stored.{first_result, first_result-repair_transcript}

abbrev message : WireRole → String → WireMessage
message role content = record {
  role = role;
  content = content;
  tool_call_id = "";
  tool_name = "";
  tool_error = false;
  tool_calls = [];
  reasoning_content = "";
  reasoning_raw = "";
  images = [];
  cost_usd = 0;
}

abbrev asks : WireMessage
asks = message user "look"

abbrev reads : ToolCall
reads = record { id = "c1"; name = "read"; arguments = "{}" }

abbrev edits : ToolCall
edits = record { id = "c2"; name = "edit"; arguments = "{}" }

abbrev calls : WireMessage
calls = record (message assistant "") { tool_calls = reads ∷ edits ∷ [] }

abbrev result : String → String → WireMessage
result id content = record (message tool content) { tool_call_id = id }

abbrev turn : List WireMessage
turn =
    asks
    ∷ result "c0" "stray"
    ∷ calls
    ∷ result "c2" "first"
    ∷ message user "go on"
    ∷ result "c2" "second"
    ∷ []

-- The stray result and the second one are gone, and the missing one is stood in for.
turn_repaired :
    repair_transcript turn []
    ≡ asks ∷ calls ∷ missing_result reads ∷ result "c2" "first" ∷ message user "go on" ∷ []
unfolding repair_transcript rebuild index_results emit_calls result_for is_call_row is_result
    all_tool_call_ids call_ids has_incomplete_tool_calls
turn_repaired = refl

repair_transcript-is_paired_example : is_paired [] [] (repair_transcript turn []) ≡ true
repair_transcript-is_paired_example = repair_transcript-is_paired turn []

resolved_ids-repair_transcript_example :
    holds_key (resolved_ids (repair_transcript turn ("c1" ∷ []))) "c1"
    ≡ is_answered (holds_key (resolved_ids turn) "c1") ("c1" ∷ []) "c1" turn
resolved_ids-repair_transcript_example = resolved_ids-repair_transcript turn ("c1" ∷ []) "c1"

conversation-repair_transcript_example :
    conversation (repair_transcript turn []) ≡ conversation turn
conversation-repair_transcript_example = conversation-repair_transcript turn []

turn_calls : holds_key (all_tool_call_ids turn) "c2" ≡ true
unfolding all_tool_call_ids call_ids
turn_calls = refl

turn_answers : first_result "c2" turn ≡ some (result "c2" "first")
unfolding first_result is_result
turn_answers = refl

first_result-repair_transcript_example :
    first_result "c2" (repair_transcript turn []) ≡ some (result "c2" "first")
first_result-repair_transcript_example =
    first_result-repair_transcript turn [] "c2" (result "c2" "first") turn_calls turn_answers
