-- ===== src/ToolTurn/Commit/Settles.antt =====
-- runToolCalls of internal/session/step_tools.go: each call of a turn gets its one result.
use coagent.Base.{
  ℕ, ◌+◌, ◌≡◌, refl, sym, ap, ◌∙◌, Bool, true, false, not, ◌&&◌, ◌||◌, List, [], ◌∷◌, ◌++◌, Option,
  none, some, inl, inr, map, String, str_eq, str_eq_iff, if◌then◌else◌, arith, Bool-cases,
  holds_key, any,
}
use coagent.LoopDetector.{LoopDetector, LoopAction, check, record_round}
use coagent.Transcript.{WireMessage, ToolCall, is_tool, is_empty}
use coagent.ToolTurn.{Item, Turn, execute_tool_calls_internal, terminal_records}
use coagent.ToolTurn.Items.{calls_of, execute_tool_calls_internal-calls_of}
use coagent.ToolTurn.Commit.{
  StoredRow, TurnState, CommitEnv, Ran, Output, is_undecided, tool_results, tool_row, tool_outputs,
  warn_index, find_answer, insert_tool_result_once, commit_tool_results, commit,
  record_tool_results, execute_and_record, run_tool_calls, is_blocking, block_message,
  is_suspension, reload_messages,
}

abbrev pub call_ids_of : List ToolCall → List String
call_ids_of cs = map (λ (c : ToolCall). c.id) cs

abbrev pub result_ids : List WireMessage → List String
result_ids ms = map (λ (m : WireMessage). m.tool_call_id) ms

-- The rows that a commit appends for the messages.
abbrev pub stored : List WireMessage → List StoredRow
stored ms = map (λ m. record { message = m; is_active = true }) ms

-- No row answers one of the identities, and they differ.
unfoldable pub are_fresh : List StoredRow → List String → Bool
are_fresh rows [] = true
are_fresh rows (id ∷ ids) =
    let rest = are_fresh rows ids in
    let answered : Bool = elim (find_answer rows id) [ none ↦ false | some m ↦ true ] in
    not answered && (not (holds_key ids id) && rest)

-- The calls whose outcome is neither suspended nor cancelled.
unfoldable pub decided : List Item → List ToolCall
decided [] = []
decided (r ∷ rs) =
    let rest = decided rs in if is_undecided r.outcome then rest else r.tool_call ∷ rest

are_fresh-find_answer :
    (rows : List StoredRow) (id : String) (ids : List String)
    → are_fresh rows (id ∷ ids) ≡ true
    → find_answer rows id ≡ none
unfolding are_fresh
are_fresh-find_answer rows id ids h = ground (arith, h)

are_fresh-rest :
    (rows : List StoredRow) (id : String) (ids : List String)
    → are_fresh rows (id ∷ ids) ≡ true
    → are_fresh rows ids ≡ true
unfolding are_fresh
are_fresh-rest rows id ids h = ground (arith, h)

are_fresh-differs :
    (rows : List StoredRow) (id : String) (ids : List String)
    → are_fresh rows (id ∷ ids) ≡ true
    → holds_key ids id ≡ false
unfolding are_fresh
are_fresh-differs rows id ids h = ground (arith, h)

find_answer-append :
    (rows : List StoredRow) (m : WireMessage) (id : String)
    → find_answer rows id ≡ none
    → str_eq m.tool_call_id id ≡ false
    → find_answer (rows ++ stored (m ∷ [])) id ≡ none
unfolding find_answer
find_answer-append [] m id h other = ground (arith, other)
find_answer-append (r ∷ rows) m id h other = ground (arith, h, find_answer-append rows m id, other)

are_fresh-append :
    (rows : List StoredRow) (m : WireMessage) (ids : List String)
    → are_fresh rows ids ≡ true
    → holds_key ids m.tool_call_id ≡ false
    → are_fresh (rows ++ stored (m ∷ [])) ids ≡ true
unfolding are_fresh
are_fresh-append rows m [] h other = refl
are_fresh-append rows m (id ∷ ids) h other = ground (
  arith,
  h,
  other,
  str_eq_iff m.tool_call_id id,
  str_eq_iff id m.tool_call_id,
  find_answer-append rows m id,
  are_fresh-append rows m ids,
)

append-stored :
    (rows : List StoredRow) (m : WireMessage) (ms : List WireMessage)
    → (rows ++ stored (m ∷ [])) ++ stored ms ≡ rows ++ stored (m ∷ ms)
append-stored [] m ms = refl
append-stored (r ∷ rows) m ms = ap (λ (rs : List StoredRow). r ∷ rs) (append-stored rows m ms)

append_nil {ℓ} : {A : Type ℓ} (xs : List A) → xs ++ [] ≡ xs
append_nil [] = refl
append_nil (x ∷ xs) = ap (λ ys. x ∷ ys) (append_nil xs)

-- Results whose calls have no row yet are all appended.
commit_tool_results-stored :
    (rows : List StoredRow) (ms : List WireMessage)
    → are_fresh rows (result_ids ms) ≡ true
    → commit_tool_results rows ms ≡ some (rows ++ stored ms)
unfolding commit_tool_results insert_tool_result_once
commit_tool_results-stored rows [] h = ap some (sym (append_nil rows))
commit_tool_results-stored rows (m ∷ ms) h =
    let rows' = rows ++ stored (m ∷ []) in
    let fresh : are_fresh rows' (result_ids ms) ≡ true =
      are_fresh-append rows m (result_ids ms) (are_fresh-rest rows m.tool_call_id (result_ids ms) h)
        (are_fresh-differs rows m.tool_call_id (result_ids ms) h) in
    let inserts : insert_tool_result_once rows m ≡ some rows' =
      ground (arith, are_fresh-find_answer rows m.tool_call_id (result_ids ms) h) in
    ground (arith, inserts, commit_tool_results-stored rows' ms fresh, append-stored rows m ms)

result_ids-tool_results :
    (turn : Turn) (env : CommitEnv) (d : LoopDetector) (action : LoopAction) (last : Option ℕ)
    (i : ℕ) (items : List Item)
    → result_ids (tool_results turn env d action last i items) ≡ call_ids_of (decided items)
unfolding tool_results tool_row decided
result_ids-tool_results turn env d action last i [] = refl
result_ids-tool_results turn env d action last i (r ∷ items) =
    ground (arith, result_ids-tool_results turn env d action last (i + 1) items)

holds_key-decided :
    (id : String) (items : List Item)
    → holds_key (call_ids_of (calls_of items)) id ≡ false
    → holds_key (call_ids_of (decided items)) id ≡ false
unfolding decided
holds_key-decided id [] h = refl
holds_key-decided id (r ∷ items) h = ground (arith, h, holds_key-decided id items)

are_fresh-decided :
    (rows : List StoredRow) (items : List Item)
    → are_fresh rows (call_ids_of (calls_of items)) ≡ true
    → are_fresh rows (call_ids_of (decided items)) ≡ true
unfolding are_fresh decided
are_fresh-decided rows [] h = refl
are_fresh-decided rows (r ∷ items) h =
    ground (arith, h, holds_key-decided r.tool_call.id items, are_fresh-decided rows items)

result_ids-block_message : (cs : List ToolCall) → result_ids (map block_message cs) ≡ call_ids_of cs
result_ids-block_message [] = refl
result_ids-block_message (c ∷ cs) =
    ap (λ (ids : List String). c.id ∷ ids) (result_ids-block_message cs)

-- The calls that a turn answers at once: all if the detector blocks it, else those that are decided.
unfoldable pub answered : Turn → TurnState → List ToolCall → List ToolCall
answered turn st cs =
    if is_blocking (check st.detector).1
    then cs
    else decided (execute_tool_calls_internal turn st.activation cs)

abbrev pub are_tools : List WireMessage → Bool
are_tools [] = true
are_tools (m ∷ ms) = is_tool m && (is_empty m.tool_calls && are_tools ms)

tool_results-are_tools :
    (turn : Turn) (env : CommitEnv) (d : LoopDetector) (action : LoopAction) (last : Option ℕ)
    (i : ℕ) (items : List Item)
    → are_tools (tool_results turn env d action last i items) ≡ true
unfolding tool_results tool_row
tool_results-are_tools turn env d action last i [] = refl
tool_results-are_tools turn env d action last i (r ∷ items) =
    ground (arith, tool_results-are_tools turn env d action last (i + 1) items)

are_tools-block_message : (cs : List ToolCall) → are_tools (map block_message cs) ≡ true
are_tools-block_message [] = refl
are_tools-block_message (c ∷ cs) = are_tools-block_message cs

-- The step succeeds, appends one active row per answered call, in order, with the call's
-- identity, and reloads the transcript.
pub record Settles (turn : Turn) (rows : List StoredRow) (answers : List ToolCall) (ran : Ran)
    : Type 0 where
  pub succeeds : ran.is_error ≡ false
  pub results : List WireMessage
  pub appended : ran.state.rows ≡ rows ++ stored results
  pub in_order : result_ids results ≡ call_ids_of answers
  pub are_results : are_tools results ≡ true
  pub reloaded : ran.state.messages ≡ reload_messages turn ran.state.rows

-- The state behind a commit of results that are all new.
abbrev with_results : Turn → TurnState → List WireMessage → List Output → TurnState
with_results turn st ms outputs = record st {
  rows = st.rows ++ stored ms;
  messages = reload_messages turn (st.rows ++ stored ms);
  outputs = st.outputs ++ outputs;
}

commit-stored :
    (turn : Turn) (env : CommitEnv) (st : TurnState) (ms : List WireMessage) (outputs : List Output)
    → env.commits ≡ true
    → are_fresh st.rows (result_ids ms) ≡ true
    → commit turn env st ms outputs ≡ some (with_results turn st ms outputs)
unfolding commit
commit-stored turn env st ms outputs works fresh =
    ground (arith, works, commit_tool_results-stored st.rows ms fresh)

execute_and_record-Settles :
    (turn : Turn) (env : CommitEnv) (st : TurnState) (cs : List ToolCall)
    → env.commits ≡ true
    → are_fresh st.rows (call_ids_of cs) ≡ true
    → Settles turn st.rows
        (decided (execute_tool_calls_internal turn st.activation cs))
        (execute_and_record turn env st cs)
unfolding execute_and_record record_tool_results
execute_and_record-Settles turn env st cs works fresh =
    let items = execute_tool_calls_internal turn st.activation cs in
    let whole = execute_tool_calls_internal-calls_of turn st.activation cs in
    let post = check (record_round st.detector (terminal_records turn items)) in
    let ran = record st {
      detector = post.0;
      is_suspended = st.is_suspended || any is_suspension items;
    } in
    let results = tool_results turn env post.0 post.1 (warn_index 0 items none) 0 items in
    let ids = result_ids-tool_results turn env post.0 post.1 (warn_index 0 items none) 0 items in
    let all : are_fresh st.rows (call_ids_of (calls_of items)) ≡ true =
      ap (λ (ds : List ToolCall). are_fresh st.rows (call_ids_of ds)) whole ∙ fresh in
    let new : are_fresh st.rows (result_ids results) ≡ true =
      ap (are_fresh st.rows) ids ∙ are_fresh-decided st.rows items all in
    let stores = commit-stored turn env ran results (tool_outputs turn env items) works new in
    record {
      succeeds = ground (arith, stores);
      results = results;
      appended = ground (arith, stores);
      in_order = ids;
      are_results = tool_results-are_tools turn env post.0 post.1 (warn_index 0 items none) 0 items;
      reloaded = ground (arith, stores);
    }

-- Of a turn whose calls have identities that differ and that no stored row answers, and whose
-- transaction meets no error of its own, the step returns no error, and it appends exactly one
-- active result row per answered call, in the order of the calls and with their identities. All
-- calls are answered if the detector blocks the turn, and else those that are neither suspended nor
-- cancelled, each by its own item.
pub run_tool_calls-Settles :
    (turn : Turn) (env : CommitEnv) (st : TurnState) (cs : List ToolCall)
    → env.commits ≡ true
    → are_fresh st.rows (call_ids_of cs) ≡ true
    → Settles turn st.rows (answered turn st cs) (run_tool_calls turn env st cs)
      × (calls_of (execute_tool_calls_internal turn st.activation cs) ≡ cs)
unfolding run_tool_calls answered
run_tool_calls-Settles turn env st cs works fresh =
    let checked = check st.detector in
    let st' = record st { detector = checked.0 } in
    let blocked = map block_message cs in
    let ids = result_ids-block_message cs in
    let stores = commit-stored turn env st' blocked [] works (ap (are_fresh st.rows) ids ∙ fresh) in
    (
      elim (Bool-cases (is_blocking checked.1)) [
        | inl e ↦ record {
          succeeds = ground (arith, e, stores);
          results = blocked;
          appended = ground (arith, e, stores);
          in_order = ground (arith, e, ids);
          are_results = are_tools-block_message cs;
          reloaded = ground (arith, e, stores);
        }
        | inr e ↦
            let runs = execute_and_record-Settles turn env st' cs works fresh in
            record {
              succeeds = ground (arith, e, runs.succeeds);
              results = runs.results;
              appended = ground (arith, e, runs.appended);
              in_order = ground (arith, e, runs.in_order);
              are_results = runs.are_results;
              reloaded = ground (arith, e, runs.reloaded);
            }
      ],
      execute_tool_calls_internal-calls_of turn st.activation cs,
    )
