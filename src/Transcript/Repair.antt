-- ===== src/Transcript/Repair.antt =====
-- repairTranscript of internal/session/transcript.go: what it returns is paired.
use coagent.Base.{
  ◌≡◌, refl, sym, subst, Bool, true, false, not, ◌&&◌, ◌||◌, List, [], ◌∷◌, ◌++◌, some, String,
  str_eq_iff, str_eq_refl, arith, if◌then◌else◌, holds_key, find_key, Bool-cases, Option-cases, inl,
  inr, ◌⊎◌,
}
use coagent.Transcript.{
  WireMessage, ToolCall, is_result, is_call_row, is_blank_id, call_ids, all_tool_call_ids,
  index_results, has_incomplete_tool_calls, missing_result, result_for, is_due, emit_calls,
  emit_tool_results, rebuild, repair_transcript,
}

-- An independent description of a paired transcript: a result stands in the group of results right
-- behind the assistant message with its call, and no call has two. The first list holds the calls
-- whose group this is, the second the calls that have their result.
unfoldable pub is_paired : List String → List String → List WireMessage → Bool
is_paired group seen [] = true
is_paired group seen (m ∷ ms) =
    let here = is_result m in
    let rest =
      is_paired (if here then group else call_ids m.tool_calls)
        (if here then m.tool_call_id ∷ seen else seen) ms in
    if here
    then holds_key group m.tool_call_id && (not (holds_key seen m.tool_call_id) && rest)
    else rest

-- Each entry of the index is a result under its own identity.
abbrev pub IsIndex : List (String × WireMessage) → Type 0
IsIndex results =
    (id : String) (r : WireMessage)
    → find_key results id ≡ some r
    → (is_result r ≡ true) × (r.tool_call_id ≡ id)

pub index_results-IsIndex :
    (ids seen : List String) (ms : List WireMessage) → IsIndex (index_results ids seen ms)
unfolding index_results
index_results-IsIndex ids seen [] id r h = ground (arith, h)
index_results-IsIndex ids seen (m ∷ ms) id r h = ground (
  arith,
  h,
  str_eq_iff m.tool_call_id id,
  index_results-IsIndex ids seen ms id r,
  index_results-IsIndex ids (m.tool_call_id ∷ seen) ms id r,
)

-- The first set is within the second.
abbrev Within : List String → List String → Type 0
Within xs ys = (id : String) → holds_key xs id ≡ true → holds_key ys id ≡ true

abbrev pub OneOrNone : ToolCall → List WireMessage → Type 0
OneOrNone c out =
    (out ≡ [])
    ⊎ ((r : WireMessage) × (out ≡ r ∷ []) × (is_result r ≡ true) × (r.tool_call_id ≡ c.id))

pub missing_result-is_result :
    (c : ToolCall) → is_blank_id c.id ≡ false → is_result (missing_result c) ≡ true
unfolding is_result
missing_result-is_result c h = ground (arith, h)

pub result_for-OneOrNone :
    (results : List (String × WireMessage)) (pending : List String) (incomplete : Bool)
    (c : ToolCall)
    → IsIndex results
    → is_blank_id c.id ≡ false
    → OneOrNone c (result_for results pending incomplete c)
unfolding result_for
result_for-OneOrNone results pending incomplete c index named =
    elim (Option-cases (find_key results c.id)) [
      | inr (r, e) ↦ inr (r, ground (arith, e), (index c.id r e).0, (index c.id r e).1)
      | inl e ↦ elim (Bool-cases (holds_key pending c.id || incomplete)) [
        | inl left_out ↦ inl (ground (arith, e, left_out))
        | inr stubbed ↦
            inr
              (missing_result c, ground (arith, e, stubbed), missing_result-is_result c named, refl)
      ]
    ]

Within-cons :
    (seen emitted : List String) (id : String) → Within seen emitted → Within seen (id ∷ emitted)
Within-cons seen emitted id h x k = ground (arith, k, h x)

Within-cons-cons :
    (seen emitted : List String) (id : String)
    → Within seen emitted
    → Within (id ∷ seen) (id ∷ emitted)
Within-cons-cons seen emitted id h x k = ground (arith, k, h x)

-- One result in the group of its call, which had none.
is_paired-cons :
    (group seen emitted : List String) (r : WireMessage) (ms : List WireMessage)
    → is_result r ≡ true
    → holds_key group r.tool_call_id ≡ true
    → Within seen emitted
    → holds_key emitted r.tool_call_id ≡ false
    → is_paired group (r.tool_call_id ∷ seen) ms ≡ true
    → is_paired group seen (r ∷ ms) ≡ true
unfolding is_paired
is_paired-cons group seen emitted r ms res inside within fresh rest =
    ground (arith, res, inside, fresh, rest, within r.tool_call_id)

call_ids-head :
    (group : List String) (c : ToolCall) (cs : List ToolCall)
    → Within (call_ids (c ∷ cs)) group
    → is_blank_id c.id ≡ false
    → holds_key group c.id ≡ true
unfolding call_ids
call_ids-head group c cs inside named = ground (arith, inside c.id, named, str_eq_refl c.id)

call_ids-tail :
    (group : List String) (c : ToolCall) (cs : List ToolCall)
    → Within (call_ids (c ∷ cs)) group
    → Within (call_ids cs) group
unfolding call_ids
call_ids-tail group c cs inside id h = ground (arith, inside id, h)

pub is_due-named :
    (emitted : List String) (c : ToolCall) → is_due emitted c ≡ true → is_blank_id c.id ≡ false
is_due-named emitted c h = ground (arith, h)

pub is_due-fresh :
    (emitted : List String) (c : ToolCall)
    → is_due emitted c ≡ true
    → holds_key emitted c.id ≡ false
is_due-fresh emitted c h = ground (arith, h)

module _ (results : List (String × WireMessage)) (pending : List String) (incomplete : Bool) where
  pub emit_calls-due :
      (emitted : List String) (c : ToolCall) (cs : List ToolCall)
      → is_due emitted c ≡ true
      → emit_calls results pending incomplete emitted (c ∷ cs) ≡ (
        result_for results pending incomplete c
            ++ (emit_calls results pending incomplete (c.id ∷ emitted) cs).0,
        (emit_calls results pending incomplete (c.id ∷ emitted) cs).1,
      )
  unfolding emit_calls
  emit_calls-due emitted c cs due = rw (due, emit_calls)

  pub emit_calls-not_due :
      (emitted : List String) (c : ToolCall) (cs : List ToolCall)
      → is_due emitted c ≡ false
      → emit_calls results pending incomplete emitted (c ∷ cs)
        ≡ emit_calls results pending incomplete emitted cs
  unfolding emit_calls
  emit_calls-not_due emitted c cs skipped = rw (skipped, emit_calls)

-- What follows a group is paired, whatever calls of those emitted have their result.
abbrev Continues : List String → List WireMessage → List WireMessage × List String → Type 0
Continues group rest out =
    (seen : List String) → Within seen out.1 → is_paired group seen rest ≡ true

module _ (results : List (String × WireMessage)) (pending : List String) (index : IsIndex results)
    (incomplete : Bool) where
  emit_calls-is_paired :
      (group seen emitted : List String) (cs : List ToolCall) (rest : List WireMessage)
      → Within seen emitted
      → Within (call_ids cs) group
      → Continues group rest (emit_calls results pending incomplete emitted cs)
      → is_paired group seen ((emit_calls results pending incomplete emitted cs).0 ++ rest) ≡ true
  unfolding emit_calls
  emit_calls-is_paired group seen emitted [] rest within inside = λ next. next seen within
  emit_calls-is_paired group seen emitted (c ∷ cs) rest within inside =
      let later = call_ids-tail group c cs inside in
      elim (Bool-cases (is_due emitted c)) [
        | inr e ↦
            rw (emit_calls-not_due results pending incomplete emitted c cs e)
              (emit_calls-is_paired group seen emitted cs rest within later)
        | inl e ↦
            let named = is_due-named emitted c e in
            let out = emit_calls results pending incomplete (c.id ∷ emitted) cs in
            rw (emit_calls-due results pending incomplete emitted c cs e)
              (elim (result_for-OneOrNone results pending incomplete c index named) [
                | inl e' ↦ rw e' (
                    emit_calls-is_paired group seen (c.id ∷ emitted) cs rest
                      (Within-cons seen emitted c.id within) later)
                | inr (r, e', res, same) ↦ rw e' (λ next.
                    is_paired-cons group seen emitted r (out.0 ++ rest) res
                      (subst (λ i. holds_key group i ≡ true) (sym same)
                        (call_ids-head group c cs inside named))
                      within
                      (subst (λ i. holds_key emitted i ≡ false) (sym same)
                        (is_due-fresh emitted c e))
                      (subst (λ i. is_paired group (i ∷ seen) (out.0 ++ rest) ≡ true) (sym same)
                        (emit_calls-is_paired group (c.id ∷ seen) (c.id ∷ emitted) cs rest
                          (Within-cons-cons seen emitted c.id within) later next)))
              ])
      ]

pub is_result-not_call_row : (m : WireMessage) → is_result m ≡ true → is_call_row m ≡ false
unfolding is_result is_call_row
is_result-not_call_row m h = ground (arith, h)

module _ (results : List (String × WireMessage)) (pending emitted : List String) (m : WireMessage)
    (ms : List WireMessage) where
  pub rebuild-result :
      is_result m ≡ true
      → rebuild results pending emitted (m ∷ ms) ≡ rebuild results pending emitted ms
  unfolding rebuild
  rebuild-result h = rw (h, is_result-not_call_row m h, rebuild)

  pub rebuild-call_row :
      is_result m ≡ false
      → is_call_row m ≡ true
      → rebuild results pending emitted (m ∷ ms)
        ≡ m
          ∷ ((emit_tool_results results pending emitted m.tool_calls).0
              ++ rebuild results pending
                  (emit_tool_results results pending emitted m.tool_calls).1
                  ms)
  unfolding rebuild
  rebuild-call_row h k = rw (h, k, rebuild)

  pub rebuild-other :
      is_result m ≡ false
      → is_call_row m ≡ false
      → rebuild results pending emitted (m ∷ ms) ≡ m ∷ rebuild results pending emitted ms
  unfolding rebuild
  rebuild-other h k = rw (h, k, rebuild)

-- Before a message that is no result, the group does not matter.
is_paired-other :
    (group seen : List String) (m : WireMessage) (ms : List WireMessage)
    → is_result m ≡ false
    → is_paired (call_ids m.tool_calls) seen ms ≡ true
    → is_paired group seen (m ∷ ms) ≡ true
unfolding is_paired
is_paired-other group seen m ms h k = rw (h, is_paired) k

module _ (results : List (String × WireMessage)) (pending : List String)
    (index : IsIndex results) where
  rebuild-is_paired :
      (group seen emitted : List String) (ms : List WireMessage)
      → Within seen emitted
      → is_paired group seen (rebuild results pending emitted ms) ≡ true
  unfolding rebuild is_paired
  rebuild-is_paired group seen emitted [] within = refl
  rebuild-is_paired group seen emitted (m ∷ ms) within = elim (Bool-cases (is_result m)) [
    | inl e ↦
        rw (rebuild-result results pending emitted m ms e)
          (rebuild-is_paired group seen emitted ms within)
    | inr e ↦ elim (Bool-cases (is_call_row m)) [
      | inr k ↦ rw (rebuild-other results pending emitted m ms e k) (
          is_paired-other group seen m (rebuild results pending emitted ms) e
            (rebuild-is_paired (call_ids m.tool_calls) seen emitted ms within))
      | inl k ↦
          let out = emit_tool_results results pending emitted m.tool_calls in
          let rest = rebuild results pending out.1 ms in
          let ids = call_ids m.tool_calls in
          rw (rebuild-call_row results pending emitted m ms e k) (
            is_paired-other group seen m (out.0 ++ rest) e (
              emit_calls-is_paired results pending index (has_incomplete_tool_calls m.tool_calls)
                ids seen emitted m.tool_calls rest within (λ id h. h)
                (λ seen' within'. rebuild-is_paired ids seen' out.1 ms within')))
    ]
  ]

-- Whatever the transcript, its repair is paired: each result stands in the group right behind the
-- assistant message that holds its call, and no call has two results.
pub repair_transcript-is_paired :
    (ms : List WireMessage) (pending : List String)
    → is_paired [] [] (repair_transcript ms pending) ≡ true
unfolding repair_transcript
repair_transcript-is_paired ms pending =
    rebuild-is_paired (index_results (all_tool_call_ids ms) [] ms) pending
      (index_results-IsIndex (all_tool_call_ids ms) [] ms) [] [] [] ms (λ id h. h)
