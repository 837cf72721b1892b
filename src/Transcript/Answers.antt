-- ===== src/Transcript/Answers.antt =====
-- repairTranscript of internal/session/transcript.go: which calls have a result afterwards.
use coagent.Base.{
  ◌≡◌, refl, ap, ◌∙◌, Bool, true, false, not, ◌&&◌, ◌||◌, List, [], ◌∷◌, ◌++◌, Option, none, some,
  String, str_eq, str_eq_iff, arith, any-append, if◌then◌else◌, holds_key, find_key, Bool-cases,
  Option-cases, inl, inr,
}
use coagent.Transcript.{
  WireMessage, ToolCall, is_result, is_call_row, is_blank_id, call_ids, all_tool_call_ids,
  index_results, has_incomplete_tool_calls, result_for, is_due, emit_calls, rebuild,
  repair_transcript, resolved_ids,
}
use coagent.Transcript.Repair.{
  rebuild-result, rebuild-call_row, rebuild-other, IsIndex, index_results-IsIndex, emit_calls-due,
  emit_calls-not_due, missing_result-is_result, is_due-named, is_due-fresh, is_result-not_call_row,
}

-- Whether the first message that calls `id` gets it a result: one that is in the transcript, or one
-- that stands in for it if no producer will answer and the message is complete.
unfoldable pub is_answered : Bool → List String → String → List WireMessage → Bool
is_answered stored pending id [] = false
is_answered stored pending id (m ∷ ms) =
    let rest = is_answered stored pending id ms in
    if is_call_row m && holds_key (call_ids m.tool_calls) id
    then stored || (not (holds_key pending id) && not (has_incomplete_tool_calls m.tool_calls))
    else rest

abbrev is_some {ℓ} : {A : Type ℓ} → Option A → Bool
is_some none = false
is_some (some a) = true

resolved_ids-append :
    (xs ys : List WireMessage) → resolved_ids (xs ++ ys) ≡ resolved_ids xs ++ resolved_ids ys
unfolding resolved_ids
resolved_ids-append [] ys = refl
resolved_ids-append (x ∷ xs) ys = ground (arith, resolved_ids-append xs ys)

pub holds_key-append :
    (xs ys : List String) (id : String)
    → holds_key (xs ++ ys) id ≡ holds_key xs id || holds_key ys id
holds_key-append xs ys id = any-append (str_eq id) xs ys

module _ (results : List (String × WireMessage)) (pending : List String) (id : String) where
  -- What one call gives for `id`.
  abbrev answers : Bool → Bool
  answers incomplete =
      is_some (find_key results id) || (not (holds_key pending id) && not incomplete)

  module _ (index : IsIndex results) (incomplete : Bool) where
    resolved_ids-result_for :
        (c : ToolCall)
        → is_blank_id c.id ≡ false
        → holds_key (resolved_ids (result_for results pending incomplete c)) id
          ≡ str_eq id c.id && answers incomplete
    unfolding result_for resolved_ids
    resolved_ids-result_for c named =
        let stub = missing_result-is_result c named in
        elim (Option-cases (find_key results c.id)) [
          | inl e ↦ ground (arith, e, stub, str_eq_iff id c.id)
          | inr (r, e) ↦
              let (res, same) = index c.id r e in ground (arith, e, res, same, str_eq_iff id c.id)
        ]

    -- A call that is not due asks for nothing new.
    pub resolved_ids-emit_calls :
        (emitted : List String) (cs : List ToolCall)
        → (holds_key (resolved_ids (emit_calls results pending incomplete emitted cs).0) id
            ≡ not (holds_key emitted id) && (holds_key (call_ids cs) id && answers incomplete))
          × (holds_key (emit_calls results pending incomplete emitted cs).1 id
              ≡ holds_key emitted id || holds_key (call_ids cs) id)
    unfolding emit_calls resolved_ids call_ids
    resolved_ids-emit_calls emitted [] = ground arith
    resolved_ids-emit_calls emitted (c ∷ cs) = elim (Bool-cases (is_due emitted c)) [
      | inr e ↦
          rw (emit_calls-not_due results pending incomplete emitted c cs e)
            (ground (arith, e, str_eq_iff id c.id, resolved_ids-emit_calls emitted cs))
      | inl e ↦
          let out = emit_calls results pending incomplete (c.id ∷ emitted) cs in
          let head = result_for results pending incomplete c in
          let named = is_due-named emitted c e in
          rw
            (
              emit_calls-due results pending incomplete emitted c cs e,
              resolved_ids-append head out.0,
            )
            (ground (
              arith,
              e,
              named,
              is_due-fresh emitted c e,
              str_eq_iff id c.id,
              holds_key-append (resolved_ids head) (resolved_ids out.0) id,
              resolved_ids-result_for c named,
              resolved_ids-emit_calls (c.id ∷ emitted) cs,
            ))
    ]

  module _ (index : IsIndex results) where
    resolved_ids-rebuild :
        (emitted : List String) (ms : List WireMessage)
        → holds_key (resolved_ids (rebuild results pending emitted ms)) id
          ≡ not (holds_key emitted id) && is_answered (is_some (find_key results id)) pending id ms
    unfolding rebuild resolved_ids is_answered
    resolved_ids-rebuild emitted [] = ground arith
    resolved_ids-rebuild emitted (m ∷ ms) = elim (Bool-cases (is_result m)) [
      | inl e ↦
          rw (rebuild-result results pending emitted m ms e)
            (ground (arith, e, is_result-not_call_row m e, resolved_ids-rebuild emitted ms))
      | inr e ↦ elim (Bool-cases (is_call_row m)) [
        | inr k ↦
            rw (rebuild-other results pending emitted m ms e k)
              (ground (arith, e, k, resolved_ids-rebuild emitted ms))
        | inl k ↦
            let incomplete = has_incomplete_tool_calls m.tool_calls in
            let out = emit_calls results pending incomplete emitted m.tool_calls in
            let rest = rebuild results pending out.1 ms in
            rw (rebuild-call_row results pending emitted m ms e k) (
              ground (
                arith,
                e,
                k,
                resolved_ids-append out.0 rest,
                holds_key-append (resolved_ids out.0) (resolved_ids rest) id,
                resolved_ids-emit_calls index incomplete emitted m.tool_calls,
                resolved_ids-rebuild out.1 ms,
              ))
      ]
    ]

-- The index holds a result of `id` if the transcript does and some message calls it.
find_key-index_results :
    (ids seen : List String) (ms : List WireMessage) (id : String)
    → is_some (find_key (index_results ids seen ms) id)
      ≡ not (holds_key seen id) && (holds_key ids id && holds_key (resolved_ids ms) id)
unfolding index_results resolved_ids
find_key-index_results ids seen [] id = ground arith
find_key-index_results ids seen (m ∷ ms) id = ground (
  arith,
  str_eq_iff m.tool_call_id id,
  str_eq_iff id m.tool_call_id,
  find_key-index_results ids seen ms id,
  find_key-index_results ids (m.tool_call_id ∷ seen) ms id,
)

-- An identity that no message calls is answered nowhere.
is_answered-uncalled :
    (stored : Bool) (pending : List String) (id : String) (ms : List WireMessage)
    → holds_key (all_tool_call_ids ms) id ≡ false
    → is_answered stored pending id ms ≡ false
unfolding is_answered all_tool_call_ids is_call_row
is_answered-uncalled stored pending id [] h = refl
is_answered-uncalled stored pending id (m ∷ ms) h = ground (
  arith,
  h,
  holds_key-append (call_ids m.tool_calls) (all_tool_call_ids ms) id,
  is_answered-uncalled stored pending id ms,
)

-- After the repair, an identity has a result exactly if the first assistant message that calls it
-- gets it one: its stored result, or a message that stands in for one, unless a producer is still to
-- answer the call or the message is incomplete. So no outcome is made up for a pending call.
pub resolved_ids-repair_transcript :
    (ms : List WireMessage) (pending : List String) (id : String)
    → holds_key (resolved_ids (repair_transcript ms pending)) id
      ≡ is_answered (holds_key (resolved_ids ms) id) pending id ms
unfolding repair_transcript
resolved_ids-repair_transcript ms pending id =
    let ids = all_tool_call_ids ms in
    let results = index_results ids [] ms in
    let index = index_results-IsIndex ids [] ms in
    let stored = find_key-index_results ids [] ms id in
    resolved_ids-rebuild results pending id index [] ms ∙ elim (Bool-cases (holds_key ids id)) [
      | inl e ↦ ap (λ b. is_answered b pending id ms) (ground (arith, e, stored))
      | inr e ↦ ground (
        arith,
        is_answered-uncalled (is_some (find_key results id)) pending id ms e,
        is_answered-uncalled (holds_key (resolved_ids ms) id) pending id ms e,
      )
    ]
