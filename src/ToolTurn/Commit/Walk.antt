-- ===== src/ToolTurn/Commit/Walk.antt =====
-- unresolvedToolCalls of internal/session/session.go behind the results of a turn, and the staging loop
-- of toolStep.
use mathlib.Core.List.{reverse_aux, reverse_aux-append, reverse_aux-eq}
use coagent.Base.{
  ◌≡◌, refl, ap, ◌∙◌, Bool, true, false, not, ◌&&◌, ◌||◌, List, [], ◌∷◌, ◌++◌, inl, inr, ◌⊎◌,
  reverse, String, str_eq, str_eq_iff, if◌then◌else◌, arith, Bool-cases, holds_key, any,
}
use coagent.Transcript.{WireMessage, ToolCall, is_assistant_row, is_empty}
use coagent.Transcript.Pending.{
  name_of, unresolved_names, unresolved_newest_first, unresolved_tool_calls,
}
use coagent.ToolTurn.Commit.{StoredRow, active_messages, is_external_call, stage_calls}
use coagent.ToolTurn.Commit.Settles.{result_ids, stored, are_tools}

pub active_messages-append :
    (rows : List StoredRow) (ms : List WireMessage)
    → active_messages (rows ++ stored ms) ≡ active_messages rows ++ ms
unfolding active_messages
active_messages-append [] [] = refl
active_messages-append [] (m ∷ ms) =
    ap (λ (ns : List WireMessage). m ∷ ns) (active_messages-append [] ms)
active_messages-append (r ∷ rows) ms = ground (arith, active_messages-append rows ms)

pub answers_id : String → List WireMessage → Bool
answers_id id ms = any (λ m. str_eq id m.tool_call_id) ms

pub answers_id-result_ids :
    (id : String) (ms : List WireMessage) → answers_id id ms ≡ holds_key (result_ids ms) id
unfolding answers_id
answers_id-result_ids id [] = refl
answers_id-result_ids id (m ∷ ms) =
    ap (λ b. str_eq id m.tool_call_id || b) (answers_id-result_ids id ms)

pub answers_id-reverse_aux :
    (id : String) (ms ns : List WireMessage)
    → answers_id id (reverse_aux ms ns) ≡ answers_id id ms || answers_id id ns
unfolding answers_id
answers_id-reverse_aux id [] ns = refl
answers_id-reverse_aux id (m ∷ ms) ns = ground (arith, answers_id-reverse_aux id ms (m ∷ ns))

pub are_tools-reverse_aux :
    (ms ns : List WireMessage)
    → are_tools ms ≡ true
    → are_tools ns ≡ true
    → are_tools (reverse_aux ms ns) ≡ true
are_tools-reverse_aux [] ns h k = k
are_tools-reverse_aux (m ∷ ms) ns h k =
    are_tools-reverse_aux ms (m ∷ ns) (ground (arith, h)) (ground (arith, h, k))

-- The walk passes the results to the message that holds the calls, and has seen what they answer.
pub unresolved_newest_first-walk :
    (seen : List String) (ts older : List WireMessage) (m : WireMessage)
    → are_tools ts ≡ true
    → is_assistant_row m ≡ true
    → is_empty m.tool_calls ≡ false
    → (seen' : List String) × (unresolved_newest_first seen (ts ++ m ∷ older)
        ≡ unresolved_names seen' m.tool_calls [])
      × ((id : String) → holds_key seen' id ≡ answers_id id ts || holds_key seen id)
unfolding unresolved_newest_first answers_id
unresolved_newest_first-walk seen [] older m tools is_row calls =
    (seen, ground (arith, is_row, calls), λ id. refl)
unresolved_newest_first-walk seen (t ∷ ts) older m tools is_row calls =
    let rest =
      unresolved_newest_first-walk (t.tool_call_id ∷ seen) ts older m (ground (arith, tools)) is_row
        calls in
    (rest.0, ground (arith, tools, rest.1), λ id. ground (arith, rest.2 id))

-- Whether one of the calls has the identity and the name, and its identity is not seen.
unfoldable pub called : List String → String → String → List ToolCall → Bool
called seen id name cs =
    any (λ c. str_eq c.id id && (str_eq c.name name && not (holds_key seen c.id))) cs

pub unresolved_names-called :
    (seen : List String) (id name : String) (cs : List ToolCall) (names : List (String × String))
    → name_of (unresolved_names seen cs names) id ≡ name
    → (name_of names id ≡ name) ⊎ (called seen id name cs ≡ true)
unfolding unresolved_names called
unresolved_names-called seen id name [] names h = inl h
unresolved_names-called seen id name (c ∷ cs) names h =
    let names' = if holds_key seen c.id then names else (c.id, c.name) ∷ names in
    ground (
      arith,
      unresolved_names-called seen id name cs names' h,
      str_eq_iff c.id id,
      str_eq_iff c.name name,
    )

stage_calls-keeps :
    (unresolved staged : List (String × String)) (id name : String) (cs : List ToolCall)
    → name_of unresolved id ≡ name
    → name_of staged id ≡ name
    → name_of (stage_calls unresolved staged cs) id ≡ name
unfolding stage_calls
stage_calls-keeps unresolved staged id name [] h k = k
stage_calls-keeps unresolved staged id name (c ∷ cs) h k =
    let is_open = is_external_call c.name && str_eq (name_of unresolved c.id) c.name in
    stage_calls-keeps unresolved (if is_open then (c.id, c.name) ∷ staged else staged) id name cs h
      (ground (arith, h, k, str_eq_iff c.id id, str_eq_iff (name_of unresolved c.id) c.name))

-- Whether one of the calls has the identity and the name, and is external.
unfoldable pub is_external_in : String → String → List ToolCall → Bool
is_external_in id name cs =
    any (λ c. str_eq c.id id && (str_eq c.name name && is_external_call c.name)) cs

pub stage_calls-is_external_in :
    (unresolved staged : List (String × String)) (id name : String) (cs : List ToolCall)
    → name_of unresolved id ≡ name
    → is_external_in id name cs ≡ true
    → name_of (stage_calls unresolved staged cs) id ≡ name
unfolding stage_calls is_external_in
stage_calls-is_external_in unresolved staged id name [] h k = absurd (ground (arith, k))
stage_calls-is_external_in unresolved staged id name (c ∷ cs) h k =
    let is_open = is_external_call c.name && str_eq (name_of unresolved c.id) c.name in
    let staged' = if is_open then (c.id, c.name) ∷ staged else staged in
    elim (Bool-cases (is_external_in id name cs)) [
      | inl e ↦ stage_calls-is_external_in unresolved staged' id name cs h e
      | inr e ↦ stage_calls-keeps unresolved staged' id name cs h (
          ground (
            arith,
            h,
            k,
            e,
            str_eq_iff c.id id,
            str_eq_iff c.name name,
            str_eq_iff (name_of unresolved c.id) c.name,
          ))
    ]

-- After the results, the walk finds the calls of the last answer, and has seen each result.
pub unresolved_tool_calls-walk :
    (older results : List WireMessage) (m : WireMessage)
    → are_tools results ≡ true
    → is_assistant_row m ≡ true
    → is_empty m.tool_calls ≡ false
    → (seen : List String) × (unresolved_tool_calls ((older ++ m ∷ []) ++ results)
        ≡ unresolved_names seen m.tool_calls [])
      × ((x : String) → holds_key (result_ids results) x ≡ true → holds_key seen x ≡ true)
unfolding unresolved_tool_calls
unresolved_tool_calls-walk older results m tools is_row calls =
    let order : reverse ((older ++ m ∷ []) ++ results) ≡ reverse results ++ m ∷ reverse older =
      reverse_aux-append (older ++ m ∷ []) results []
      ∙ ap (reverse_aux results) (reverse_aux-append older (m ∷ []) [])
      ∙ reverse_aux-eq results (m ∷ reverse older) in
    let walk =
      unresolved_newest_first-walk [] (reverse results) (reverse older) m
        (are_tools-reverse_aux results [] tools refl) is_row calls in
    (
      walk.0,
      ap (unresolved_newest_first []) order ∙ walk.1,
      λ x k. ground (
        arith,
        k,
        walk.2 x,
        answers_id-reverse_aux x results [],
        answers_id-result_ids x results,
      ),
    )
