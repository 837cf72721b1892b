-- ===== src/Checkpoint/Assemble.antt =====
-- assembleCheckpointLocked of internal/session/checkpoint.go: the rows after a compaction. The two
-- slices of messages and row identities are one list of rows; a row that is not stored has 0.
pub mod Conserves
use coagent.Base.{
  ℕ, zero, suc, ◌+◌, ◌-◌, Bool, true, false, not, ◌&&◌, ◌||◌, List, [], ◌∷◌, ◌++◌, Option, none,
  some, String, str_eq, ltb, leb, ◌==◌, take, drop, if◌then◌else◌, get_elem?,
}
use coagent.Transcript.{WireMessage, user}
use coagent.Checkpoint.{CheckpointPrefix}

pub record Row : Type 0 where
  pub message : WireMessage
  pub row_id : ℕ

abbrev pub user_message : String → WireMessage
user_message text = record {
  role = user;
  content = text;
  tool_call_id = "";
  tool_name = "";
  tool_error = false;
  tool_calls = [];
  reasoning_content = "";
  reasoning_raw = "";
  images = [];
  cost_usd = 0;
}

-- `carriedSkill`: the current skill is the row that the last compaction put back.
unfoldable pub is_carried : CheckpointPrefix → Option (ℕ × String) → Bool
is_carried cp none = false
is_carried cp (some (i, env)) = elim cp.skill_row_idx [ none ↦ false | some j ↦ i == j ]

abbrev pub row_list : Option Row → List Row
row_list none = []
row_list (some r) = r ∷ []

-- The row of the current skill in the new transcript.
unfoldable pub skill_rows : CheckpointPrefix → ℕ → Option (ℕ × String) → List Row → List Row
unfolding is_carried
skill_rows cp split none rows = []
skill_rows cp split (some (i, env)) rows =
    if is_carried cp (some (i, env))
    then row_list (get_elem? rows i)
    else if not (str_eq env "") && (leb cp.raw_start i && ltb i split)
    then record { message = user_message env; row_id = 0 } ∷ []
    else []

-- The identities of the rows that the summary replaces, at the rows from index `i` on.
unfoldable pub compacted_from : Option ℕ → ℕ → List Row → List ℕ
compacted_from carried i [] = []
compacted_from carried i (r ∷ rs) =
    let rest = compacted_from carried (i + 1) rs in
    let is_kept : Bool = elim carried [ none ↦ false | some j ↦ i == j ] in
    if is_kept || r.row_id == 0 then rest else r.row_id ∷ rest

pub record Assembled : Type 0 where
  pub rows : List Row
  pub compacted_ids : List ℕ

unfoldable pub assemble_checkpoint :
    CheckpointPrefix → ℕ → ℕ → Option (ℕ × String) → WireMessage → List Row → Assembled
unfolding skill_rows is_carried compacted_from
assemble_checkpoint cp header_size split skill summary rows = record {
  rows =
      (take header_size rows
        ++ record { message = summary; row_id = 0 } ∷ skill_rows cp split skill rows)
      ++ drop split rows;
  compacted_ids =
      compacted_from (if is_carried cp skill then cp.skill_row_idx else none) header_size
        (take (split - header_size) (drop header_size rows));
}
