-- ===== src/Checkpoint/Compact/Safe.antt =====
-- compactLocked of internal/session/compaction.go: what a successful compaction leaves.
use coagent.Base.{
  ℕ, ◌+◌, ◌≤◌, ◌<◌, ◌≡◌, sym, ap, ◌∙◌, true, List, ◌∷◌, ◌++◌, none, some, take, drop, inl, inr, ◌⊎◌,
  arith, Option-cases,
}
use coagent.Transcript.{WireMessage}
use coagent.Transcript.Sizes.{estimate_tokens, image_pressure}
use coagent.Checkpoint.{
  Skills, CheckpointPrefix, compaction_header_size, parse_checkpoint_prefix, parse_skill_row,
  select_current_skill,
}
use coagent.Checkpoint.Split.Search.{IsCut, select_checkpoint_split-IsCut}
use coagent.Checkpoint.Assemble.{Row, Assembled, skill_rows}
use coagent.Checkpoint.Assemble.Conserves.{
  stored_as, times_in, StandsIn, assemble_checkpoint-stored_as, assemble_checkpoint-rows,
}
use coagent.Checkpoint.Compact.{
  CompactArgs, compacted, messages_of, is_relieving, prefix_of, candidate, find_split, compact_at,
  compact_locked, image_bytes_high_water, image_count_high_water,
}

-- Where the scaffolding of the last summary stands.
record IsPrefix (header : ℕ) (cp : CheckpointPrefix) : Type 0 where
  behind_header : header ≤ cp.raw_start
  skill :
      (cp.skill_row_idx ≡ none)
      ⊎ ((cp.skill_row_idx ≡ some (header + 1)) × (cp.raw_start ≡ header + 2))

parse_skill_row-IsPrefix :
    (skills : Skills) (messages : List WireMessage) (header : ℕ)
    → IsPrefix header (parse_skill_row skills messages header)
unfolding parse_skill_row
parse_skill_row-IsPrefix skills messages header = ground arith

parse_checkpoint_prefix-IsPrefix :
    (skills : Skills) (messages : List WireMessage) (header : ℕ)
    → IsPrefix header (parse_checkpoint_prefix skills messages header)
unfolding parse_checkpoint_prefix
parse_checkpoint_prefix-IsPrefix skills messages header =
    ground (arith, parse_skill_row-IsPrefix skills messages header)

IsPrefix-StandsIn :
    (header split : ℕ) (cp : CheckpointPrefix)
    → IsPrefix header cp
    → cp.raw_start < split
    → (header ≤ split) × StandsIn header split cp.skill_row_idx
IsPrefix-StandsIn header split cp h k = (
  omega (arith, h, k),
  elim h.skill [
    | inl e ↦ inl e
    | inr (e, e') ↦ inr (header + 1, e, omega arith, omega (arith, e', k))
  ],
)

-- What a compaction that is committed has been through.
record Chosen (args : CompactArgs) (rows : List Row) (new : Assembled) : Type 0 where
  split : ℕ
  summary : WireMessage
  found : find_split args rows ≡ some split
  is_new : candidate args rows split summary ≡ new
  relieving : is_relieving args (messages_of new.rows) ≡ true

compact_at-Chosen :
    (args : CompactArgs) (rows : List Row) (split : ℕ) (new : Assembled)
    → find_split args rows ≡ some split
    → compact_at args rows split ≡ compacted new
    → Chosen args rows new
unfolding compact_at
compact_at-Chosen args rows split new found h = elim (Option-cases (args.summarize split)) [
  | inl e ↦ absurd (ground (arith, e, h))
  | inr (summary, e) ↦
      let is_new : candidate args rows split summary ≡ new = ground (arith, e, h) in
      record {
        split = split;
        summary = summary;
        found = found;
        is_new = is_new;
        relieving = ground (arith, e, h, is_new);
      }
]

compact_locked-Chosen :
    (args : CompactArgs) (rows : List Row) (new : Assembled)
    → compact_locked args rows ≡ compacted new
    → Chosen args rows new
unfolding compact_locked
compact_locked-Chosen args rows new h = elim (Option-cases (find_split args rows)) [
  | inl e ↦ absurd (ground (arith, e, h))
  | inr (split, e) ↦ compact_at-Chosen args rows split new e (ground (arith, e, h))
]

find_split-IsCut :
    (args : CompactArgs) (rows : List Row) (split : ℕ)
    → find_split args rows ≡ some split
    → IsCut
        (messages_of rows)
        (prefix_of args rows).raw_start
        args.completion_pin
        args.summarizer_base_estimate
        args.bounds
        split
unfolding find_split
find_split-IsCut args rows split h =
    select_checkpoint_split-IsCut (messages_of rows) (prefix_of args rows)
      args.summarizer_base_estimate args.window args.completion_pin args.bounds split h

-- The new transcript keeps the header in front and a legal tail behind, and relieves the pressure.
pub record Relieves (args : CompactArgs) (rows : List Row) (new : Assembled) : Type 0 where
  pub split : ℕ
  pub cut :
      IsCut
        (messages_of rows)
        (prefix_of args rows).raw_start
        args.completion_pin
        args.summarizer_base_estimate
        args.bounds
        split
  pub between : List Row
  pub kept :
      new.rows
      ≡ (take (compaction_header_size (messages_of rows)) rows ++ between) ++ drop split rows
  pub fits : estimate_tokens (messages_of new.rows) + args.request_overhead ≤ args.cutoff
  pub bytes : (image_pressure (messages_of new.rows)).0 ≤ image_bytes_high_water
  pub images : (image_pressure (messages_of new.rows)).1 ≤ image_count_high_water

is_relieving-bounds :
    (args : CompactArgs) (messages : List WireMessage)
    → is_relieving args messages ≡ true
    → (estimate_tokens messages + args.request_overhead ≤ args.cutoff)
      × ((image_pressure messages).0 ≤ image_bytes_high_water)
      × ((image_pressure messages).1 ≤ image_count_high_water)
unfolding is_relieving
is_relieving-bounds args messages h = ground (arith, h)

-- A compaction that succeeds keeps the header in front and the tail behind the cut as they were, with
-- a legal cut that spares the pinned completion rows, and the new transcript is below every
-- threshold at which a compaction starts.
pub compact_locked-Relieves :
    (args : CompactArgs) (rows : List Row) (new : Assembled)
    → compact_locked args rows ≡ compacted new
    → Relieves args rows new
unfolding candidate
compact_locked-Relieves args rows new h =
    let c = compact_locked-Chosen args rows new h in
    let bounds = is_relieving-bounds args (messages_of new.rows) c.relieving in
    let header = compaction_header_size (messages_of rows) in
    let cp = prefix_of args rows in
    let skill = select_current_skill args.skills (messages_of rows) header cp.summary_row_idx in
    record {
      split = c.split;
      cut = find_split-IsCut args rows c.split c.found;
      between = record { message = c.summary; row_id = 0 } ∷ skill_rows cp c.split skill rows;
      kept =
          ap (λ (a : Assembled). a.rows) (sym c.is_new)
          ∙ assemble_checkpoint-rows cp header c.split skill c.summary rows;
      fits = bounds.0;
      bytes = bounds.1;
      images = bounds.2;
    }

-- A compaction that succeeds neither loses nor doubles a stored row: each is in the new transcript or
-- among the compacted ones as often as it was in the old transcript.
pub compact_locked-stored_as :
    (args : CompactArgs) (rows : List Row) (new : Assembled) (x : ℕ)
    → 0 < x
    → compact_locked args rows ≡ compacted new
    → stored_as x new.rows + times_in x new.compacted_ids ≡ stored_as x rows
unfolding candidate
compact_locked-stored_as args rows new x pos h =
    let c = compact_locked-Chosen args rows new h in
    let header = compaction_header_size (messages_of rows) in
    let cp = prefix_of args rows in
    let skill = select_current_skill args.skills (messages_of rows) header cp.summary_row_idx in
    let cut = find_split-IsCut args rows c.split c.found in
    let is_prefix = parse_checkpoint_prefix-IsPrefix args.skills (messages_of rows) header in
    let stands = IsPrefix-StandsIn header c.split cp is_prefix cut.behind_base in
    ap (λ (a : Assembled). stored_as x a.rows + times_in x a.compacted_ids) (sym c.is_new)
    ∙ assemble_checkpoint-stored_as cp header c.split skill c.summary rows x pos stands.0 stands.1
