-- ===== src/Checkpoint/Split/Legal.antt =====
-- rawCutLegal of internal/session/checkpoint.go: what a legal tail is.
use coagent.Base.{
  ◌≡◌, refl, sym, ap, ◌∙◌, Bool, true, false, not, ◌&&◌, ◌||◌, List, [], ◌∷◌, none, inl, inr, ◌⊎◌,
  String, str_eq_iff, arith, Option-cases, holds_key, all,
}
use coagent.Transcript.{
  WireMessage, WireRole, ToolCall, is_result, is_call_row, is_assistant_row, is_empty, call_ids,
  all_tool_call_ids, resolved_ids, repair_transcript, has_incomplete_tool_calls,
}
use coagent.Transcript.Repair.{is_paired, repair_transcript-is_paired}
use coagent.Transcript.Answers.{is_answered, resolved_ids-repair_transcript, holds_key-append}
use coagent.Checkpoint.Split.{
  role_eq, calls_eq, raw_messages_equal, all_equal, group_calls, group_names, is_valid_grouping,
  raw_cut_legal,
}

calls_eq-call_ids : (cs ds : List ToolCall) → calls_eq cs ds ≡ true → call_ids cs ≡ call_ids ds
unfolding calls_eq call_ids
calls_eq-call_ids [] [] h = refl
calls_eq-call_ids [] (d ∷ ds) h = ground (arith, h)
calls_eq-call_ids (c ∷ cs) [] h = ground (arith, h)
calls_eq-call_ids (c ∷ cs) (d ∷ ds) h =
    ground (arith, h, str_eq_iff c.id d.id, calls_eq-call_ids cs ds)

role_eq_sound : (a b : WireRole) → role_eq a b ≡ true → a ≡ b
unfolding role_eq
role_eq_sound a b h = ground (arith, h)

-- What the pairing reads of a message.
record SameShape (a b : WireMessage) : Type 0 where
  role : a.role ≡ b.role
  id : a.tool_call_id ≡ b.tool_call_id
  ids : call_ids a.tool_calls ≡ call_ids b.tool_calls

raw_messages_equal-SameShape : (a b : WireMessage) → raw_messages_equal a b ≡ true → SameShape a b
unfolding raw_messages_equal
raw_messages_equal-SameShape a b h = ground (
  arith,
  h,
  role_eq_sound a.role b.role,
  str_eq_iff a.tool_call_id b.tool_call_id,
  calls_eq-call_ids a.tool_calls b.tool_calls,
)

is_paired-cons_same :
    (a b : WireMessage) (as1 bs : List WireMessage) (group seen : List String)
    → SameShape a b
    → ((g s : List String) → is_paired g s as1 ≡ is_paired g s bs)
    → is_paired group seen (a ∷ as1) ≡ is_paired group seen (b ∷ bs)
unfolding is_paired is_result
is_paired-cons_same a b as1 bs group seen same rest =
    ground (arith, same, rest group (a.tool_call_id ∷ seen), rest (call_ids a.tool_calls) seen)

all_equal-is_paired :
    (as1 bs : List WireMessage) (group seen : List String)
    → all_equal as1 bs ≡ true
    → is_paired group seen as1 ≡ is_paired group seen bs
unfolding all_equal
all_equal-is_paired [] [] group seen h = refl
all_equal-is_paired [] (b ∷ bs) group seen h = absurd (ground (arith, h))
all_equal-is_paired (a ∷ as1) [] group seen h = absurd (ground (arith, h))
all_equal-is_paired (a ∷ as1) (b ∷ bs) group seen h =
    let same = raw_messages_equal-SameShape a b (ground (arith, h)) in
    is_paired-cons_same a b as1 bs group seen same
      (λ g s. all_equal-is_paired as1 bs g s (ground (arith, h)))

all_equal-resolved_ids :
    (as1 bs : List WireMessage) → all_equal as1 bs ≡ true → resolved_ids as1 ≡ resolved_ids bs
unfolding all_equal resolved_ids is_result
all_equal-resolved_ids [] [] h = refl
all_equal-resolved_ids [] (b ∷ bs) h = absurd (ground (arith, h))
all_equal-resolved_ids (a ∷ as1) [] h = absurd (ground (arith, h))
all_equal-resolved_ids (a ∷ as1) (b ∷ bs) h =
    let same = raw_messages_equal-SameShape a b (ground (arith, h)) in
    ground (arith, same, h, all_equal-resolved_ids as1 bs)

-- A valid grouping has no incomplete message.
all_complete : List WireMessage → Bool
all_complete [] = true
all_complete (m ∷ ms) =
    (not (is_assistant_row m) || not (has_incomplete_tool_calls m.tool_calls)) && all_complete ms

group_calls_complete :
    (names : List (String × String)) (cs : List ToolCall)
    → (group_calls names cs ≡ none) ⊎ (has_incomplete_tool_calls cs ≡ false)
unfolding group_calls has_incomplete_tool_calls
group_calls_complete names [] = ground arith
group_calls_complete names (c ∷ cs) =
    ground (arith, group_calls_complete ((c.id, c.name) ∷ names) cs)

group_names_complete :
    (names : List (String × String)) (ms : List WireMessage)
    → (group_names names ms ≡ none) ⊎ (all_complete ms ≡ true)
unfolding group_names all_complete
group_names_complete names [] = ground arith
group_names_complete names (m ∷ ms) = elim (Option-cases (group_calls names m.tool_calls)) [
  | inl e ↦ ground (arith, e, group_names_complete names ms)
  | inr (names', e) ↦ ground (
    arith,
    e,
    group_calls_complete names m.tool_calls,
    group_names_complete names ms,
    group_names_complete names' ms,
  )
]

no_call_ids : (m : WireMessage) → (is_empty m.tool_calls ≡ false) ⊎ (call_ids m.tool_calls ≡ [])
unfolding call_ids
no_call_ids m = ground arith

-- In a transcript of complete messages every called identity is answered if none is pending.
is_answered_complete :
    (stored : Bool) (id : String) (ms : List WireMessage)
    → all_complete ms ≡ true
    → holds_key (all_tool_call_ids ms) id ≡ true
    → is_answered stored [] id ms ≡ true
unfolding is_answered all_complete all_tool_call_ids is_call_row call_ids
is_answered_complete stored id [] complete called = ground (arith, called)
is_answered_complete stored id (m ∷ ms) complete called = ground (
  arith,
  complete,
  called,
  no_call_ids m,
  holds_key-append (call_ids m.tool_calls) (all_tool_call_ids ms) id,
  is_answered_complete stored id ms,
)

all_held :
    (p : String → Bool) (ids : List String)
    → ((id : String) → holds_key ids id ≡ true → p id ≡ true)
    → all p ids ≡ true
all_held p [] each = refl
all_held p (id ∷ ids) each =
    let first : p id ≡ true = each id (ground (arith, str_eq_iff id id)) in
    let rest = all_held p ids (λ i held. each i (ground (arith, held))) in
    ground (arith, first, rest)

-- A tail that the repair gives back, and whose messages are complete.
record Settled (tail : List WireMessage) : Type 0 where
  same : all_equal (repair_transcript tail []) tail ≡ true
  complete : all_complete tail ≡ true

raw_cut_legal-Settled :
    (m : WireMessage) (ms : List WireMessage) → raw_cut_legal (m ∷ ms) ≡ true → Settled (m ∷ ms)
unfolding raw_cut_legal is_valid_grouping
raw_cut_legal-Settled m ms h =
    let grouped : is_valid_grouping (m ∷ ms) ≡ true = ground (arith, h) in
    record {
      same = ground (arith, h);
      complete = ground (arith, grouped, group_names_complete [] (m ∷ ms));
    }

Settled-is_paired : (tail : List WireMessage) → Settled tail → is_paired [] [] tail ≡ true
Settled-is_paired tail h =
    sym (all_equal-is_paired (repair_transcript tail []) tail [] [] h.same)
    ∙ repair_transcript-is_paired tail []

Settled-resolved_ids :
    (tail : List WireMessage) (id : String)
    → Settled tail
    → holds_key (all_tool_call_ids tail) id ≡ true
    → holds_key (resolved_ids tail) id ≡ true
Settled-resolved_ids tail id h called =
    sym (
      ap (λ (ids : List String). holds_key ids id)
        (all_equal-resolved_ids (repair_transcript tail []) tail h.same))
    ∙ resolved_ids-repair_transcript tail [] id
    ∙ is_answered_complete (holds_key (resolved_ids tail) id) id tail h.complete called

-- Every legal tail stands on its own, also one without a call: its results are paired with its
-- calls, so that none of them is left without the call it answers, and each of its calls has a
-- result in it.
pub raw_cut_legal-is_paired :
    (tail : List WireMessage)
    → raw_cut_legal tail ≡ true
    → (is_paired [] [] tail ≡ true)
      × (all (holds_key (resolved_ids tail)) (all_tool_call_ids tail) ≡ true)
unfolding raw_cut_legal all_tool_call_ids is_paired
raw_cut_legal-is_paired [] h = (refl, refl)
raw_cut_legal-is_paired (m ∷ ms) h =
    let settled = raw_cut_legal-Settled m ms h in
    (
      Settled-is_paired (m ∷ ms) settled,
      all_held (holds_key (resolved_ids (m ∷ ms))) (all_tool_call_ids (m ∷ ms))
          (λ id called. Settled-resolved_ids (m ∷ ms) id settled called),
    )
