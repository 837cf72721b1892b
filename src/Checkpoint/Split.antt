-- ===== src/Checkpoint/Split.antt =====
-- The search for the cut in internal/session/checkpoint.go. `bound` is `int(inputFraction * window)`
-- for the fraction that is tried, which the caller gives.
pub mod Search
pub mod Legal
use coagent.Base.{
  ℕ, zero, suc, ◌+◌, ◌-◌, ◌/◌, min, Bool, true, false, not, ◌&&◌, ◌||◌, List, [], ◌∷◌, ◌++◌, Option,
  none, some, String, str_eq, ltb, leb, ◌==◌, length, take, drop, if◌then◌else◌, holds_key,
  find_key,
}
use coagent.Transcript.{
  WireMessage, WireRole, user, assistant, tool, system, ToolCall, ImageRef, is_tool,
  is_assistant_row, is_empty, is_blank_id, is_result, repair_transcript,
}
use coagent.Transcript.Pending.{name_of}
use coagent.Transcript.Sizes.{estimate_tokens, image_pressure}
use coagent.Checkpoint.{CheckpointPrefix, image_bytes_low_water, image_count_low_water}

unfoldable pub role_eq : WireRole → WireRole → Bool
role_eq user user = true
role_eq assistant assistant = true
role_eq tool tool = true
role_eq system system = true
role_eq _ _ = false

unfoldable pub calls_eq : List ToolCall → List ToolCall → Bool
calls_eq [] [] = true
calls_eq (c ∷ cs) (d ∷ ds) =
    (str_eq c.id d.id && (str_eq c.name d.name && str_eq c.arguments d.arguments)) && calls_eq cs ds
calls_eq _ _ = false

unfoldable pub images_eq : List ImageRef → List ImageRef → Bool
images_eq [] [] = true
images_eq (r ∷ rs) (q ∷ qs) =
    (str_eq r.path q.path && (r.size == q.size && (r.width == q.width && r.height == q.height)))
    && images_eq rs qs
images_eq _ _ = false

-- `rawMessagesEqual`.
unfoldable pub raw_messages_equal : WireMessage → WireMessage → Bool
unfolding role_eq calls_eq images_eq
raw_messages_equal a b =
    role_eq a.role b.role
    && (str_eq a.content b.content
        && (str_eq a.tool_call_id b.tool_call_id
            && (str_eq a.tool_name b.tool_name
                && (str_eq a.reasoning_content b.reasoning_content
                    && (str_eq a.reasoning_raw b.reasoning_raw
                        && (a.cost_usd == b.cost_usd
                            && (images_eq a.images b.images
                                && calls_eq a.tool_calls b.tool_calls)))))))

unfoldable pub all_equal : List WireMessage → List WireMessage → Bool
all_equal [] [] = true
all_equal (a ∷ as1) (b ∷ bs) = raw_messages_equal a b && all_equal as1 bs
all_equal _ _ = false

-- The first loop of `validateRawGrouping`: `callNames`, or nothing if it rejects.
unfoldable pub group_calls :
    List (String × String) → List ToolCall → Option (List (String × String))
group_calls names [] = some names
group_calls names (c ∷ cs) =
    let rest = group_calls ((c.id, c.name) ∷ names) cs in
    if is_blank_id c.id || str_eq c.name ""
    then none
    else elim (find_key names c.id) [ none ↦ rest | some name ↦ none ]

unfoldable pub group_names :
    List (String × String) → List WireMessage → Option (List (String × String))
group_names names [] = some names
group_names names (m ∷ ms) =
    if is_assistant_row m
    then elim (group_calls names m.tool_calls) [ none ↦ none | some names' ↦ group_names names' ms ]
    else group_names names ms

-- The second loop: each result is the first of its call and has its name.
unfoldable pub owns_results : List (String × String) → List String → List WireMessage → Bool
owns_results names seen [] = true
owns_results names seen (m ∷ ms) =
    let here = is_result m in
    let rest = owns_results names (if here then m.tool_call_id ∷ seen else seen) ms in
    if here
    then not (holds_key seen m.tool_call_id)
      && ((str_eq m.tool_name "" || str_eq (name_of names m.tool_call_id) m.tool_name) && rest)
    else rest

-- `validateRawGrouping`: whether it accepts the messages.
unfoldable pub is_valid_grouping : List WireMessage → Bool
unfolding group_names owns_results
is_valid_grouping messages = elim (group_names [] messages) [
  | none ↦ false
  | some names ↦ owns_results names [] messages
]

unfoldable pub raw_cut_legal : List WireMessage → Bool
unfolding all_equal
raw_cut_legal [] = true
raw_cut_legal (m ∷ ms) =
    all_equal (repair_transcript (m ∷ ms) []) (m ∷ ms) && is_valid_grouping (m ∷ ms)

pub record TailLimit : Type 0 where
  pub floor : Bool
  pub ceilings : Bool

pub record SelectTailSplitArgs : Type 0 where
  pub messages : List WireMessage
  pub base : ℕ
  pub min_tail : ℕ
  pub tail_cap : ℕ
  pub request_base_estimate : ℕ
  pub limit : TailLimit
  pub bound : ℕ

abbrev exceeds_ceilings : List WireMessage → Bool
exceeds_ceilings tail =
    ltb image_bytes_low_water (image_pressure tail).0
    || ltb image_count_low_water (image_pressure tail).1

-- The body of the loop of `selectTailSplit`: whether it returns at this split.
unfoldable pub is_split : SelectTailSplitArgs → ℕ → Bool
is_split args split =
    let tail = drop split args.messages in
    let head = repair_transcript (take split args.messages) [] in
    not (args.limit.floor && ltb (estimate_tokens tail) args.min_tail)
    && (not (args.limit.ceilings && exceeds_ceilings tail)
        && (raw_cut_legal tail
            && not (ltb args.bound (args.request_base_estimate + estimate_tokens head))))

unfoldable pub search_down : SelectTailSplitArgs → ℕ → Option ℕ
search_down args zero = none
search_down args (suc n) =
    let rest = search_down args n in
    if ltb args.base (suc n) then if is_split args (suc n) then some (suc n) else rest else none

-- Where the loop starts.
unfoldable pub first_split : SelectTailSplitArgs → ℕ
first_split args =
    let last = length args.messages - 1 in
    if ltb 0 args.tail_cap && ltb args.tail_cap last then args.tail_cap else last

unfoldable pub select_tail_split : SelectTailSplitArgs → Option ℕ
unfolding first_split
select_tail_split args = search_down args (first_split args)

abbrev pub tail_levels : List TailLimit
tail_levels =
    record { floor = true; ceilings = true }
    ∷ record { floor = false; ceilings = true }
    ∷ record { floor = false; ceilings = false }
    ∷ []

unfoldable pub try_levels : SelectTailSplitArgs → List TailLimit → Option ℕ
try_levels args [] = none
try_levels args (level ∷ levels) = elim (select_tail_split (record args { limit = level })) [
  | some split ↦ some split
  | none ↦ try_levels args levels
]

-- The two fractions, by their bounds, with all levels each.
unfoldable pub try_bounds : SelectTailSplitArgs → List ℕ → Option ℕ
try_bounds args [] = none
try_bounds args (bound ∷ bounds) = elim (try_levels (record args { bound = bound }) tail_levels) [
  | some split ↦ some split
  | none ↦ try_bounds args bounds
]

-- The arguments that are the same for each try; `limit` and `bound` are set by it.
unfoldable pub split_args : List WireMessage → ℕ → ℕ → ℕ → ℕ → SelectTailSplitArgs
split_args messages base request_base_estimate window completion_pin = record {
  messages = messages;
  base = base;
  min_tail = min (window / 10) (estimate_tokens (drop base messages) / 2);
  tail_cap = if ltb base completion_pin then completion_pin else length messages;
  request_base_estimate = request_base_estimate;
  limit = record { floor = false; ceilings = false };
  bound = 0;
}

unfoldable pub select_checkpoint_split :
    List WireMessage → CheckpointPrefix → ℕ → ℕ → ℕ → List ℕ → Option ℕ
unfolding split_args
select_checkpoint_split messages cp request_base_estimate window completion_pin bounds =
    if leb (length messages) cp.raw_start
    then none
    else try_bounds (split_args messages cp.raw_start request_base_estimate window completion_pin)
        bounds
