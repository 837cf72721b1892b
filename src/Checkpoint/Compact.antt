-- ===== src/Checkpoint/Compact.antt =====
-- compactLocked of internal/session/compaction.go: one attempt to compact a transcript. The summary
-- that the model gives for a split, or its failure, is a function, and so are the sizes that come
-- from the prompt and the window.
pub mod Safe
use coagent.Base.{
  ℕ, ◌+◌, Bool, true, false, not, ◌&&◌, ◌||◌, List, [], ◌∷◌, ◌++◌, Option, none, some, map, String,
  ltb, leb, ◌==◌, take, drop, if◌then◌else◌,
}
use coagent.Transcript.{WireMessage}
use coagent.Transcript.Sizes.{estimate_tokens, image_pressure}
use coagent.Checkpoint.{
  Skills, CheckpointPrefix, compaction_header_size, parse_checkpoint_prefix, select_current_skill,
  is_valid_header,
}
use coagent.Checkpoint.Split.{select_checkpoint_split}
use coagent.Checkpoint.Assemble.{Row, Assembled, assemble_checkpoint}

abbrev pub image_bytes_high_water : ℕ
image_bytes_high_water = 12582912

abbrev pub image_count_high_water : ℕ
image_count_high_water = 20

pub record CompactArgs : Type 0 where
  pub skills : Skills
  pub prompt_estimate : ℕ
  pub summarizer_base_estimate : ℕ
  pub request_overhead : ℕ
  pub window : ℕ
  pub cutoff : ℕ
  pub bounds : List ℕ
  pub completion_pin : ℕ
  pub completion_pending : Bool
  pub summarize : ℕ → Option WireMessage

pub data CompactResult : Type 0 where
  nothing invalid_header header_too_large summary_failed non_relieving : CompactResult
  compacted : Assembled → CompactResult

abbrev pub messages_of : List Row → List WireMessage
messages_of rows = map (λ r. r.message) rows

-- The checks of a candidate: it must relieve the pressure.
unfoldable pub is_relieving : CompactArgs → List WireMessage → Bool
is_relieving args messages =
    not (ltb args.cutoff (estimate_tokens messages + args.request_overhead))
    && (not (ltb image_bytes_high_water (image_pressure messages).0)
        && not (ltb image_count_high_water (image_pressure messages).1))

abbrev pub prefix_of : CompactArgs → List Row → CheckpointPrefix
prefix_of args rows =
    parse_checkpoint_prefix args.skills (messages_of rows)
      (compaction_header_size (messages_of rows))

-- The candidate for a split and its summary.
unfoldable pub candidate : CompactArgs → List Row → ℕ → WireMessage → Assembled
candidate args rows split summary =
    let header_size = compaction_header_size (messages_of rows) in
    let cp = prefix_of args rows in
    assemble_checkpoint cp header_size split
      (select_current_skill args.skills (messages_of rows) header_size cp.summary_row_idx) summary
      rows

unfoldable pub find_split : CompactArgs → List Row → Option ℕ
find_split args rows =
    select_checkpoint_split (messages_of rows) (prefix_of args rows) args.summarizer_base_estimate
      args.window args.completion_pin args.bounds

unfoldable pub compact_at : CompactArgs → List Row → ℕ → CompactResult
compact_at args rows split = elim (args.summarize split) [
  | none ↦ summary_failed
  | some summary ↦
      let new = candidate args rows split summary in
      if is_relieving args (messages_of new.rows) then compacted new else non_relieving
]

unfoldable pub compact_locked : CompactArgs → List Row → CompactResult
unfolding compact_at
compact_locked args rows =
    let header = take (compaction_header_size (messages_of rows)) (messages_of rows) in
    if args.completion_pending && args.completion_pin == 0
    then nothing
    else if not (is_valid_header header)
    then invalid_header
    else if ltb args.cutoff (estimate_tokens header + args.prompt_estimate)
    then header_too_large
    else elim (find_split args rows) [ none ↦ nothing | some split ↦ compact_at args rows split ]
