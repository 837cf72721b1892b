-- ===== src/ToolTurn/Commit/Drains.antt =====
-- toolStep of internal/session/step_tools.go: behind it the loop has no call left to run.
use coagent.Base.{
  ◌≡◌, refl, sym, ap, ◌∙◌, Bool, true, false, not, ◌&&◌, ◌||◌, List, [], ◌∷◌, ◌++◌, inl, inr, ◌⊎◌,
  String, str_eq_iff, arith, Bool-cases, holds_key, any,
}
use coagent.LoopDetector.{check}
use coagent.Transcript.{
  WireMessage, ToolCall, is_assistant_row, is_empty, has_incomplete_tool_calls,
}
use coagent.Transcript.Pending.{
  name_of, unresolved_names, unresolved_tool_calls, pending_of, pending_among,
  pending_in_loop_calls,
}
use coagent.Transcript.Browser.Calls.{
  unresolved_tool_calls-project_browser_frames, pending_in_loop_calls-project_browser_frames,
}
use coagent.ToolTurn.{Item, Turn, execute_tool_calls_internal}
use coagent.ToolTurn.Items.{calls_of, execute_tool_calls_internal-calls_of}
use coagent.ToolTurn.Commit.{
  StoredRow, TurnState, CommitEnv, is_undecided, is_suspension, active_messages, reload_messages,
  is_external_call, run_tool_calls, tool_step, is_blocking, execute_and_record, record_tool_results,
  commit,
}
use coagent.ToolTurn.Commit.Settles.{
  are_fresh, answered, decided, call_ids_of, stored, are_tools, run_tool_calls-Settles,
}
use coagent.ToolTurn.Commit.Walk.{
  active_messages-append, called, unresolved_names-called, is_external_in,
  stage_calls-is_external_in, unresolved_tool_calls-walk,
}

-- Every item that is not decided is suspended and external.
unfoldable pub only_waits : List Item → Bool
only_waits [] = true
only_waits (r ∷ rs) =
    (not (is_undecided r.outcome) || (is_suspension r && is_external_call r.tool_call.name))
    && only_waits rs

called-only_waits :
    (seen : List String) (id name : String) (items : List Item)
    → only_waits items ≡ true
    → ((x : String) → holds_key (call_ids_of (decided items)) x ≡ true → holds_key seen x ≡ true)
    → called seen id name (calls_of items) ≡ true
    → (is_external_in id name (calls_of items) ≡ true) × (any is_suspension items ≡ true)
unfolding only_waits called is_external_in decided
called-only_waits seen id name [] waits covers h = absurd (ground (arith, h))
called-only_waits seen id name (r ∷ items) waits covers h =
    elim (Bool-cases (called seen id name (calls_of items))) [
      | inl e ↦
          let rest =
            called-only_waits seen id name items (ground (arith, waits))
              (λ x k. covers x (ground (arith, k))) e in
          (ground (arith, rest.0), ground (arith, rest.1))
      | inr e ↦
          let own = covers r.tool_call.id in
          let same = str_eq_iff r.tool_call.id r.tool_call.id in
          (ground (arith, waits, h, e, own, same), ground (arith, waits, h, e, own, same))
    ]

called-all_seen :
    (seen : List String) (id name : String) (cs : List ToolCall)
    → ((x : String) → holds_key (call_ids_of cs) x ≡ true → holds_key seen x ≡ true)
    → called seen id name cs ≡ false
unfolding called
called-all_seen seen id name [] covers = refl
called-all_seen seen id name (c ∷ cs) covers = ground (
  arith,
  covers c.id,
  str_eq_iff c.id c.id,
  called-all_seen seen id name cs (λ x k. covers x (ground (arith, k))),
)

pending_of-none :
    (names staged : List (String × String)) (cs : List ToolCall)
    → ((id : String) → (name_of names id ≡ "") ⊎ (name_of staged id ≡ name_of names id))
    → has_incomplete_tool_calls cs ≡ false
    → pending_of names staged cs ≡ []
unfolding pending_of has_incomplete_tool_calls
pending_of-none names staged [] covers whole = refl
pending_of-none names staged (c ∷ cs) covers whole = ground (
  arith,
  whole,
  covers c.id,
  str_eq_iff (name_of names c.id) c.name,
  str_eq_iff (name_of staged c.id) c.name,
  str_eq_iff c.name "",
  pending_of-none names staged cs covers,
)

-- Every call of the messages has an identity and a name.
unfoldable pub are_whole : List WireMessage → Bool
are_whole [] = true
are_whole (m ∷ ms) = not (has_incomplete_tool_calls m.tool_calls) && are_whole ms

are_whole-append :
    (ms ns : List WireMessage)
    → are_whole ms ≡ true
    → are_tools ns ≡ true
    → are_whole (ms ++ ns) ≡ true
unfolding are_whole has_incomplete_tool_calls
are_whole-append [] [] h k = refl
are_whole-append [] (n ∷ ns) h k = ground (arith, k, are_whole-append [] ns)
are_whole-append (m ∷ ms) ns h k = ground (arith, h, are_whole-append ms ns, k)

pending_among-none :
    (names staged : List (String × String)) (ms : List WireMessage)
    → ((id : String) → (name_of names id ≡ "") ⊎ (name_of staged id ≡ name_of names id))
    → are_whole ms ≡ true
    → pending_among names staged ms ≡ []
unfolding pending_among are_whole
pending_among-none names staged [] covers whole = refl
pending_among-none names staged (m ∷ ms) covers whole = ground (
  arith,
  whole,
  pending_of-none names staged m.tool_calls covers,
  pending_among-none names staged ms covers,
)

execute_and_record-is_suspended :
    (turn : Turn) (env : CommitEnv) (st : TurnState) (cs : List ToolCall)
    → (execute_and_record turn env st cs).state.is_suspended
      ≡ st.is_suspended || any is_suspension (execute_tool_calls_internal turn st.activation cs)
unfolding execute_and_record record_tool_results commit
execute_and_record-is_suspended turn env st cs = ground arith

module _ (turn : Turn) (env : CommitEnv) (st : TurnState) (cs : List ToolCall) (seen : List String)
    (covers : (x : String)
      → holds_key (call_ids_of (answered turn st cs)) x ≡ true
      → holds_key seen x ≡ true)
    (waits : only_waits (execute_tool_calls_internal turn st.activation cs) ≡ true) where
  -- A call that is still open behind the turn is external, and the session is suspended.
  answered-called :
      (id name : String)
      → called seen id name cs ≡ true
      → (is_external_in id name cs ≡ true)
        × ((run_tool_calls turn env st cs).state.is_suspended ≡ true)
  unfolding run_tool_calls answered
  answered-called id name h =
      let items = execute_tool_calls_internal turn st.activation cs in
      let whole = execute_tool_calls_internal-calls_of turn st.activation cs in
      elim (Bool-cases (is_blocking (check st.detector).1)) [
        | inl e ↦ absurd (
            ground
              (arith, h, called-all_seen seen id name cs (λ x k. covers x (ground (arith, e, k)))))
        | inr e ↦
            let found =
              called-only_waits seen id name items waits (λ x k. covers x (ground (arith, e, k)))
                (ap (called seen id name) whole ∙ h) in
            let st' = record st { detector = (check st.detector).0 } in
            let suspends = execute_and_record-is_suspended turn env st' cs in
            (
              ap (is_external_in id name) (sym whole) ∙ found.0,
              ground (arith, e, suspends, found.1),
            )
      ]

  -- So each name that the unresolved calls have is also the staged one.
  staged-covers :
      (names : List (String × String))
      → names ≡ unresolved_names seen cs []
      → unresolved_tool_calls (run_tool_calls turn env st cs).state.messages ≡ names
      → (id : String)
      → (name_of names id ≡ "")
        ⊎ (name_of (tool_step turn env st cs).state.staged id ≡ name_of names id)
  unfolding tool_step
  staged-covers names same open_calls id =
      let ran = (run_tool_calls turn env st cs).state in
      let name = name_of names id in
      let found =
        unresolved_names-called seen id name cs [] (ap (λ ns. name_of ns id) (sym same)) in
      elim found [
        | inl e ↦ inl (sym e)
        | inr e ↦
            let own = answered-called id name e in
            let stages = stage_calls-is_external_in names ran.staged id name cs refl own.0 in
            inr (ground (arith, own.1, open_calls, stages))
      ]

tool_step-messages :
    (turn : Turn) (env : CommitEnv) (st : TurnState) (cs : List ToolCall)
    → (tool_step turn env st cs).state.messages ≡ (run_tool_calls turn env st cs).state.messages
unfolding tool_step
tool_step-messages turn env st cs = ground arith

reload_messages-calls :
    (turn : Turn) (staged : List (String × String)) (rows : List StoredRow)
    → (unresolved_tool_calls (reload_messages turn rows)
        ≡ unresolved_tool_calls (active_messages rows))
      × (pending_in_loop_calls staged (reload_messages turn rows)
          ≡ pending_in_loop_calls staged (active_messages rows))
unfolding reload_messages
reload_messages-calls turn staged rows =
    let ms = active_messages rows in
    (
      ground (arith, unresolved_tool_calls-project_browser_frames ms),
      ground (arith, pending_in_loop_calls-project_browser_frames staged ms),
    )

-- Behind a tool step the loop has no call left to run, so it asks the model again or waits. The
-- transcript ends in the message with the calls, every call has an identity and a name, those of
-- the turn have no stored result and differ, the transaction meets no error of its own, and a call
-- is left undecided only by suspending, which only the external tools do.
pub tool_step-pending_in_loop_calls :
    (turn : Turn) (env : CommitEnv) (st : TurnState) (older : List WireMessage) (m : WireMessage)
    → env.commits ≡ true
    → are_fresh st.rows (call_ids_of m.tool_calls) ≡ true
    → active_messages st.rows ≡ older ++ m ∷ []
    → is_assistant_row m ≡ true
    → is_empty m.tool_calls ≡ false
    → are_whole (older ++ m ∷ []) ≡ true
    → only_waits (execute_tool_calls_internal turn st.activation m.tool_calls) ≡ true
    → pending_in_loop_calls
        (tool_step turn env st m.tool_calls).state.staged
        (tool_step turn env st m.tool_calls).state.messages
      ≡ []
unfolding pending_in_loop_calls
tool_step-pending_in_loop_calls turn env st older m works fresh ends is_row calls whole waits =
    let cs = m.tool_calls in
    let runs = (run_tool_calls-Settles turn env st cs works fresh).0 in
    let results = runs.results in
    let rows = st.rows ++ stored results in
    let staged = (tool_step turn env st cs).state.staged in
    let messages : active_messages rows ≡ (older ++ m ∷ []) ++ results =
      active_messages-append st.rows results ∙ ap (λ ms. ms ++ results) ends in
    let walk = unresolved_tool_calls-walk older results m runs.are_results is_row calls in
    let reloads : (run_tool_calls turn env st cs).state.messages ≡ reload_messages turn rows =
      runs.reloaded ∙ ap (reload_messages turn) runs.appended in
    let names = unresolved_tool_calls ((older ++ m ∷ []) ++ results) in
    let open_calls : unresolved_tool_calls (run_tool_calls turn env st cs).state.messages ≡ names =
      ap unresolved_tool_calls reloads
      ∙ (reload_messages-calls turn staged rows).0
      ∙ ap unresolved_tool_calls messages in
    let covers =
      staged-covers turn env st cs walk.0
        (λ x k. walk.2 x (ap (λ ids. holds_key ids x) runs.in_order ∙ k)) waits names walk.1
        open_calls in
    ap (pending_in_loop_calls staged) (tool_step-messages turn env st cs ∙ reloads)
    ∙ (reload_messages-calls turn staged rows).1
    ∙ ap (pending_in_loop_calls staged) messages
    ∙ pending_among-none names staged ((older ++ m ∷ []) ++ results) covers
        (are_whole-append (older ++ m ∷ []) results whole runs.are_results)
