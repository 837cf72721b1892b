-- ===== src/ToolTurn/Items.antt =====
-- executeToolCallsInternal of internal/session/step_tools.go: each call has one item.
use coagent.Base.{
  ℕ, zero, suc, ◌+◌, ◌≡◌, refl, sym, ap, ◌∙◌, Bool, false, ◌||◌, List, [], ◌∷◌, Option, inl, inr,
  map, String, length, arith, Bool-cases,
}
use coagent.Stage.{CallResult, schedule}
use coagent.Stage.Results.{indices, numbers_from}
use coagent.Stage.Schedule.{schedule-indices}
use coagent.Transcript.{ToolCall}
use coagent.Transcript.Browser.{is_browser_tool_id}
use coagent.ToolTurn.{
  Item, Turn, map_result, map_executor_report, first_browser_actions, filter_extra_browser_actions,
  fill_results, to_call, reject_all, alone_text, schedule_calls, execute_tool_calls_internal,
  failed_item,
}

abbrev pub calls_of : List Item → List ToolCall
calls_of items = map (λ (r : Item). r.tool_call) items

length-indices : (rs : List CallResult) → length (indices rs) ≡ length rs
length-indices [] = refl
length-indices (r ∷ rs) = ap suc (length-indices rs)

length-numbers_from : (i n : ℕ) → length (numbers_from i n) ≡ n
length-numbers_from i zero = refl
length-numbers_from i (suc n) = ap suc (length-numbers_from (i + 1) n)

length-map {ℓ κ} :
    {A : Type ℓ} {B : Type κ} (f : A → B) (xs : List A) → length (map f xs) ≡ length xs
length-map f [] = refl
length-map f (x ∷ xs) = ap suc (length-map f xs)

map_result-tool_call :
    (turn : Turn) (batch : List ToolCall) (i : ℕ) (c : ToolCall) (r : CallResult)
    → (map_result turn batch i c r).tool_call ≡ c
unfolding map_result failed_item
map_result-tool_call turn batch i c r = ground arith

map_executor_report-calls_of :
    (turn : Turn) (batch : List ToolCall) (i : ℕ) (cs : List ToolCall) (rs : List CallResult)
    → length rs ≡ length cs
    → calls_of (map_executor_report turn batch i cs rs) ≡ cs
unfolding map_executor_report
map_executor_report-calls_of turn batch i [] rs h = refl
map_executor_report-calls_of turn batch i (c ∷ cs) [] h = absurd (omega (arith, h))
map_executor_report-calls_of turn batch i (c ∷ cs) (r ∷ rs) h = ground (
  arith,
  map_result-tool_call turn batch i c r,
  map_executor_report-calls_of turn batch (i + 1) cs rs (omega (arith, h)),
)

fill_results-calls_of :
    (seen : Bool) (i : ℕ) (cs : List ToolCall) (items : List Item)
    → calls_of items ≡ first_browser_actions seen cs
    → calls_of (fill_results seen i cs items) ≡ cs
unfolding fill_results first_browser_actions
fill_results-calls_of seen i [] items h = refl
fill_results-calls_of seen i (c ∷ cs) [] h =
    ground (arith, h, fill_results-calls_of (seen || is_browser_tool_id c.name) (i + 1) cs [])
fill_results-calls_of seen i (c ∷ cs) (item ∷ items) h =
    let seen' = seen || is_browser_tool_id c.name in
    ground (
      arith,
      h,
      fill_results-calls_of seen' (i + 1) cs (item ∷ items),
      fill_results-calls_of seen' (i + 1) cs items,
    )

reject_all-calls_of :
    (turn : Turn) (err : String) (i : ℕ) (cs : List ToolCall)
    → calls_of (reject_all turn err i cs) ≡ cs
unfolding reject_all failed_item
reject_all-calls_of turn err i [] = refl
reject_all-calls_of turn err i (c ∷ cs) =
    ap (λ (ds : List ToolCall). c ∷ ds) (reject_all-calls_of turn err (i + 1) cs)

schedule_calls-calls_of :
    (turn : Turn) (cs : List ToolCall) → calls_of (schedule_calls turn cs) ≡ cs
unfolding schedule_calls
schedule_calls-calls_of turn cs =
    let scheduled = filter_extra_browser_actions turn.browser cs in
    let calls = map (to_call turn scheduled) scheduled in
    let results = (schedule turn.context calls).results in
    let lengths : length results ≡ length scheduled =
      sym (length-indices results)
      ∙ ap length (schedule-indices turn.context calls)
      ∙ length-numbers_from 0 (length calls)
      ∙ length-map (to_call turn scheduled) scheduled in
    let mapped = map_executor_report-calls_of turn scheduled 0 scheduled results lengths in
    elim (Bool-cases turn.browser) [
      | inl e ↦ ground (
        arith,
        e,
        mapped,
        fill_results-calls_of false 0 cs (map_executor_report turn scheduled 0 scheduled results),
      )
      | inr e ↦ ground (arith, e, mapped)
    ]

-- Each call of a turn has exactly one item, in the order of the calls, whether it was rejected,
-- filtered out or scheduled.
pub execute_tool_calls_internal-calls_of :
    (turn : Turn) (activation : Option String) (cs : List ToolCall)
    → calls_of (execute_tool_calls_internal turn activation cs) ≡ cs
unfolding execute_tool_calls_internal
execute_tool_calls_internal-calls_of turn activation cs =
    ground (
      arith,
      reject_all-calls_of turn (alone_text activation) 0 cs,
      schedule_calls-calls_of turn cs,
    )
