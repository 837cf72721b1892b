-- ===== src/Transcript/Keeps.antt =====
-- repairTranscript of internal/session/transcript.go: the messages that it does not touch.
use coagent.Base.{
  ◌≡◌, refl, Bool, List, [], ◌∷◌, ◌++◌, String, arith, if◌then◌else◌, Bool-cases, inl, inr,
}
use coagent.Transcript.{
  WireMessage, ToolCall, is_result, is_call_row, has_incomplete_tool_calls, is_due, emit_calls,
  rebuild, repair_transcript, index_results, all_tool_call_ids,
}
use coagent.Transcript.Repair.{
  rebuild-result, rebuild-call_row, rebuild-other, IsIndex, index_results-IsIndex, emit_calls-due,
  emit_calls-not_due, is_due-named, result_for-OneOrNone,
}

-- The messages that are no results of a call.
pub conversation : List WireMessage → List WireMessage
conversation [] = []
conversation (m ∷ ms) = let rest = conversation ms in if is_result m then rest else m ∷ rest

conversation-append :
    (xs ys : List WireMessage) → conversation (xs ++ ys) ≡ conversation xs ++ conversation ys
unfolding conversation
conversation-append [] ys = refl
conversation-append (x ∷ xs) ys = ground (arith, conversation-append xs ys)

module _ (results : List (String × WireMessage)) (pending : List String)
    (index : IsIndex results) where
  conversation-emit_calls :
      (incomplete : Bool) (emitted : List String) (cs : List ToolCall)
      → conversation (emit_calls results pending incomplete emitted cs).0 ≡ []
  unfolding emit_calls conversation
  conversation-emit_calls incomplete emitted [] = refl
  conversation-emit_calls incomplete emitted (c ∷ cs) = elim (Bool-cases (is_due emitted c)) [
    | inr e ↦
        rw (emit_calls-not_due results pending incomplete emitted c cs e)
          (conversation-emit_calls incomplete emitted cs)
    | inl e ↦
        let rest = conversation-emit_calls incomplete (c.id ∷ emitted) cs in
        rw (emit_calls-due results pending incomplete emitted c cs e)
          (elim (result_for-OneOrNone results pending incomplete c index
            (is_due-named emitted c e)) [
              | inl e' ↦ rw e' rest
              | inr (r, e', res, same) ↦ rw (e', res) rest
            ])
  ]

  conversation-rebuild :
      (emitted : List String) (ms : List WireMessage)
      → conversation (rebuild results pending emitted ms) ≡ conversation ms
  unfolding rebuild conversation
  conversation-rebuild emitted [] = refl
  conversation-rebuild emitted (m ∷ ms) = elim (Bool-cases (is_result m)) [
    | inl e ↦
        rw (rebuild-result results pending emitted m ms e)
          (ground (arith, e, conversation-rebuild emitted ms))
    | inr e ↦ elim (Bool-cases (is_call_row m)) [
      | inr k ↦
          rw (rebuild-other results pending emitted m ms e k)
            (ground (arith, e, conversation-rebuild emitted ms))
      | inl k ↦
          let incomplete = has_incomplete_tool_calls m.tool_calls in
          let out = emit_calls results pending incomplete emitted m.tool_calls in
          let rest = rebuild results pending out.1 ms in
          rw (rebuild-call_row results pending emitted m ms e k) (
            ground (
              arith,
              e,
              conversation-append out.0 rest,
              conversation-emit_calls incomplete emitted m.tool_calls,
              conversation-rebuild out.1 ms,
            ))
    ]
  ]

-- The repair keeps every message that is no result of a call, in its order and unchanged.
pub conversation-repair_transcript :
    (ms : List WireMessage) (pending : List String)
    → conversation (repair_transcript ms pending) ≡ conversation ms
unfolding repair_transcript
conversation-repair_transcript ms pending =
    let ids = all_tool_call_ids ms in
    conversation-rebuild (index_results ids [] ms) pending (index_results-IsIndex ids [] ms) [] ms
