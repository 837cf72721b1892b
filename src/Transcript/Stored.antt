-- ===== src/Transcript/Stored.antt =====
-- repairTranscript of internal/session/transcript.go: the stored results that it keeps.
use coagent.Base.{
  ◌≡◌, refl, ◌∙◌, Bool, true, false, ◌&&◌, List, [], ◌∷◌, ◌++◌, String, str_eq, str_eq_iff, arith,
  if◌then◌else◌, Bool-cases, inl, inr, ◌⊎◌, Option, none, some, holds_key, find_key,
}
use mathlib.Core.List.{append_assoc}
use coagent.Transcript.{
  WireMessage, ToolCall, is_result, is_call_row, is_assistant_row, is_blank_id, call_ids,
  has_incomplete_tool_calls, result_for, is_due, emit_calls, rebuild, repair_transcript,
  index_results, all_tool_call_ids,
}
use coagent.Transcript.Repair.{
  rebuild-result, rebuild-call_row, rebuild-other, IsIndex, index_results-IsIndex, emit_calls-due,
  emit_calls-not_due, is_due-named, result_for-OneOrNone,
}
use coagent.Transcript.Answers.{holds_key-append, resolved_ids-emit_calls}

-- The first result of a call.
unfoldable pub first_result : String → List WireMessage → Option WireMessage
first_result id [] = none
first_result id (m ∷ ms) =
    let rest = first_result id ms in
    if is_result m && str_eq m.tool_call_id id then some m else rest

find_key-first_result :
    (ids seen : List String) (ms : List WireMessage) (id : String)
    → holds_key ids id ≡ true
    → holds_key seen id ≡ false
    → find_key (index_results ids seen ms) id ≡ first_result id ms
unfolding index_results first_result
find_key-first_result ids seen [] id called fresh = refl
find_key-first_result ids seen (m ∷ ms) id called fresh = ground (
  arith,
  called,
  fresh,
  str_eq_iff m.tool_call_id id,
  str_eq_iff id m.tool_call_id,
  find_key-first_result ids seen ms id called,
  find_key-first_result ids (m.tool_call_id ∷ seen) ms id called,
)

not_assistant : (m : WireMessage) → is_result m ≡ true → is_assistant_row m ≡ false
unfolding is_result
not_assistant m h = ground (arith, h)

is_call_row-assistant : (m : WireMessage) → is_call_row m ≡ true → is_assistant_row m ≡ true
unfolding is_call_row
is_call_row-assistant m h = ground (arith, h)

no_calls :
    (m : WireMessage)
    → is_call_row m ≡ false
    → (is_assistant_row m ≡ false) ⊎ (call_ids m.tool_calls ≡ [])
unfolding is_call_row call_ids
no_calls m h = ground (arith, h)

module _ (results : List (String × WireMessage)) (pending : List String) (index : IsIndex results)
    (id : String) (r : WireMessage) (stored : find_key results id ≡ some r) where
  first_result-result_for :
      (incomplete : Bool) (c : ToolCall) (rest : List WireMessage)
      → is_blank_id c.id ≡ false
      → first_result id (result_for results pending incomplete c ++ rest)
        ≡ (if str_eq c.id id then some r else first_result id rest)
  unfolding first_result result_for
  first_result-result_for incomplete c rest named =
      elim (result_for-OneOrNone results pending incomplete c index named) [
        | inl e ↦ rw e (ground (arith, stored, str_eq_iff c.id id, e))
        | inr (s, e, res, same) ↦ rw (e, res, same) (ground (arith, stored, str_eq_iff c.id id, e))
      ]

  first_result-emit_calls :
      (incomplete : Bool) (emitted : List String) (cs : List ToolCall) (rest : List WireMessage)
      → holds_key emitted id ≡ false
      → first_result id ((emit_calls results pending incomplete emitted cs).0 ++ rest)
        ≡ (if holds_key (call_ids cs) id then some r else first_result id rest)
  unfolding emit_calls call_ids
  first_result-emit_calls incomplete emitted [] rest fresh = refl
  first_result-emit_calls incomplete emitted (c ∷ cs) rest fresh =
      elim (Bool-cases (is_due emitted c)) [
        | inr e ↦ rw (emit_calls-not_due results pending incomplete emitted c cs e) (
            ground (
              arith,
              e,
              fresh,
              str_eq_iff c.id id,
              str_eq_iff id c.id,
              first_result-emit_calls incomplete emitted cs rest fresh,
            ))
        | inl e ↦
            let named = is_due-named emitted c e in
            let head = result_for results pending incomplete c in
            let out = (emit_calls results pending incomplete (c.id ∷ emitted) cs).0 in
            rw
              (emit_calls-due results pending incomplete emitted c cs e, append_assoc head out rest)
              (ground (
                arith,
                named,
                fresh,
                str_eq_iff c.id id,
                str_eq_iff id c.id,
                first_result-result_for incomplete c (out ++ rest) named,
                first_result-emit_calls incomplete (c.id ∷ emitted) cs rest,
              ))
      ]

  first_result-rebuild :
      (emitted : List String) (ms : List WireMessage)
      → holds_key emitted id ≡ false
      → first_result id (rebuild results pending emitted ms)
        ≡ (if holds_key (all_tool_call_ids ms) id then some r else none)
  unfolding rebuild first_result all_tool_call_ids is_call_row
  first_result-rebuild emitted [] fresh = refl
  first_result-rebuild emitted (m ∷ ms) fresh = elim (Bool-cases (is_result m)) [
    | inl e ↦
        rw (rebuild-result results pending emitted m ms e)
          (ground (arith, e, not_assistant m e, fresh, first_result-rebuild emitted ms))
    | inr e ↦ elim (Bool-cases (is_call_row m)) [
      | inr k ↦ rw (rebuild-other results pending emitted m ms e k) (
          ground (
            arith,
            e,
            k,
            fresh,
            no_calls m k,
            holds_key-append (call_ids m.tool_calls) (all_tool_call_ids ms) id,
            first_result-rebuild emitted ms,
          ))
      | inl k ↦
          let incomplete = has_incomplete_tool_calls m.tool_calls in
          let out = emit_calls results pending incomplete emitted m.tool_calls in
          let rest = rebuild results pending out.1 ms in
          rw (rebuild-call_row results pending emitted m ms e k) (
            ground (
              arith,
              e,
              fresh,
              is_call_row-assistant m k,
              holds_key-append (call_ids m.tool_calls) (all_tool_call_ids ms) id,
              (resolved_ids-emit_calls results pending id index incomplete emitted m.tool_calls).1,
              first_result-emit_calls incomplete emitted m.tool_calls rest fresh,
              first_result-rebuild out.1 ms,
            ))
    ]
  ]

-- The result that a called identity has in the transcript, the first if there are several, is the one
-- that it has after the repair, unchanged.
pub first_result-repair_transcript :
    (ms : List WireMessage) (pending : List String) (id : String) (r : WireMessage)
    → holds_key (all_tool_call_ids ms) id ≡ true
    → first_result id ms ≡ some r
    → first_result id (repair_transcript ms pending) ≡ some r
unfolding repair_transcript
first_result-repair_transcript ms pending id r called has =
    let ids = all_tool_call_ids ms in
    let stored = find_key-first_result ids [] ms id called refl ∙ has in
    ground (
      arith,
      called,
      first_result-rebuild (index_results ids [] ms) pending (index_results-IsIndex ids [] ms) id r
          stored [] ms refl,
    )
