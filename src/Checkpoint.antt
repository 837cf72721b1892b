-- ===== src/Checkpoint.antt =====
-- internal/session/checkpoint.go: how a compaction cuts a transcript into a head, which a summary
-- replaces, and a tail that stays, and how it puts the new transcript together. The products of a
-- float fraction and the window are numbers that the caller gives, and so is what the renderer of
-- skills finds in a text.
pub mod Split
pub mod Assemble
pub mod Compact
mod Tests
use Prim.Native.String.{len, slice}
use text.Mathlib.Text.{starts_with}
use coagent.Base.{
  ℕ, zero, suc, ◌+◌, ◌-◌, ◌/◌, min, Bool, true, false, not, ◌&&◌, ◌||◌, List, [], ◌∷◌, ◌++◌, Option,
  none, some, String, str_eq, ltb, leb, ◌==◌, length, take, drop, if◌then◌else◌, holds_key,
  find_key, get_elem?,
}
use coagent.Transcript.{
  WireMessage, WireRole, user, assistant, tool, system, ToolCall, ImageRef, is_user, is_tool,
  is_assistant_row, is_empty, is_blank_id, is_result, repair_transcript,
}
use coagent.Transcript.Pending.{agents_md_message_prefix, name_of}
use coagent.Transcript.Sizes.{estimate_tokens, image_pressure}

abbrev pub compaction_mark_open : String
compaction_mark_open =
    "[CONTEXT SUMMARY of older history — lossy; later verbatim messages are newer and take precedence on conflict]"

abbrev pub compaction_mark_close : String
compaction_mark_close = "[/CONTEXT SUMMARY]"

abbrev pub image_bytes_low_water : ℕ
image_bytes_low_water = 6291456

abbrev pub image_count_low_water : ℕ
image_count_low_water = 10

-- `strings.HasSuffix`.
abbrev pub ends_with : String → String → Bool
ends_with text suffix =
    leb (len suffix) (len text) && str_eq (slice text (len text - len suffix) (len text)) suffix

pub is_marked_summary : String → Bool
is_marked_summary content =
    starts_with content compaction_mark_open && ends_with content compaction_mark_close

-- What `lastEnvelope` and `exactEnvelope` find in a text.
pub record Skills : Type 0 where
  pub last_envelope : String → Option String
  pub is_exact_envelope : String → Bool

-- An index that the source gives as -1 is none.
pub record CheckpointPrefix : Type 0 where
  pub summary_row_idx : Option ℕ
  pub skill_row_idx : Option ℕ
  pub raw_start : ℕ

pub compaction_header_size : List WireMessage → ℕ
compaction_header_size [] = 0
compaction_header_size (m ∷ ms) =
    let is_opening : Bool = elim m.role [
      | system ↦ true
      | _ ↦ starts_with m.content agents_md_message_prefix
    ] in
    if is_opening then min 2 (length (m ∷ ms)) else 1

-- The skill row that may stand right behind the summary row.
pub parse_skill_row : Skills → List WireMessage → ℕ → CheckpointPrefix
parse_skill_row skills messages header_size =
    let plain : CheckpointPrefix = record {
      summary_row_idx = some header_size;
      skill_row_idx = none;
      raw_start = header_size + 1;
    } in
    elim (get_elem? messages (header_size + 1)) [
      | none ↦ plain
      | some next ↦
          if skills.is_exact_envelope next.content && is_user next
          then record {
            summary_row_idx = some header_size;
            skill_row_idx = some (header_size + 1);
            raw_start = header_size + 2;
          }
          else plain
    ]

pub parse_checkpoint_prefix : Skills → List WireMessage → ℕ → CheckpointPrefix
unfolding parse_skill_row
parse_checkpoint_prefix skills messages header_size =
    let raw : CheckpointPrefix = record {
      summary_row_idx = none;
      skill_row_idx = none;
      raw_start = header_size;
    } in
    elim (get_elem? messages header_size) [
      | none ↦ raw
      | some row ↦
          if is_user row && is_marked_summary row.content
          then parse_skill_row skills messages header_size
          else raw
    ]

-- `selectCurrentSkill`, at the messages from index `i` on; the row at `skip` is left out.
pub select_skill_from :
    Skills → Option ℕ → ℕ → List WireMessage → Option (ℕ × String) → Option (ℕ × String)
select_skill_from skills skip i [] last = last
select_skill_from skills skip i (m ∷ ms) last =
    let is_skipped : Bool = elim skip [ none ↦ false | some j ↦ i == j ] in
    let is_source = is_user m || (is_tool m && str_eq m.tool_name "skill") in
    let found : Option (ℕ × String) = elim (skills.last_envelope m.content) [
      | none ↦ last
      | some env ↦ some (i, env)
    ] in
    select_skill_from skills skip (i + 1) ms (if not is_skipped && is_source then found else last)

pub select_current_skill : Skills → List WireMessage → ℕ → Option ℕ → Option (ℕ × String)
select_current_skill skills messages start skip =
    select_skill_from skills skip start (drop start messages) none

-- `validateCompactionHeader`: whether it accepts the header.
pub is_valid_header : List WireMessage → Bool
is_valid_header [] = true
is_valid_header (m ∷ ms) =
    (not (is_tool m) && (is_blank_id m.tool_call_id && is_empty m.tool_calls)) && is_valid_header ms
