-- ===== src/Stage/Tests.antt =====
-- Concrete turns: two tools safe to run in parallel, one that is not and fails, and one behind it.
use coagent.Base.{◌≡◌, refl, true, false, List, [], ◌∷◌, ◌++◌, arith, some, All, ◌⊎◌, ◌≤◌}
use coagent.Stage.{
  Call, Stage, Context, returns, fails, CallResult, schedule, schedule_stages, plan_stages, initial,
  plan_from, plan_run, schedule_stage, execute_stage, run_stage, run_parallel_stage, invoke,
  execute, append_results, count_outcomes, count_outcome,
}
use coagent.Stage.Counts.{any_blocks}
use coagent.Stage.Results.{indices, numbers_from}
use coagent.Stage.Schedule.{schedule-indices, schedule-Halts, is_not_run}
use coagent.Stage.Overlap.{
  Window, Reaches, stay, after, fresh, IsBounded, fresh-IsBounded, take_slot, count_in, moves,
  context_ends,
}
use coagent.Stage.Waits.{steps, IsOver, CanMove, IsWaiting, fresh-go_on}

abbrev reads : Call
reads = record {
  tool = some (record { parallel_safe = true; execution = returns false });
  unresolved = false;
}

abbrev edits_fails : Call
edits_fails = record {
  tool = some (record { parallel_safe = false; execution = fails false });
  unresolved = false;
}

abbrev turn : List Call
turn = reads ∷ reads ∷ edits_fails ∷ reads ∷ []

abbrev background : Context
background = record { done_at_stage = λ i. false; done_at_call = λ i. false }

schedule-indices_example : indices (schedule background turn).results ≡ numbers_from 0 4
schedule-indices_example = schedule-indices background turn

abbrev first_stages : List Stage
first_stages =
    record { start = 0; stop = 2; parallel = true }
    ∷ record { start = 2; stop = 3; parallel = false }
    ∷ []

abbrev last_stage : Stage
last_stage = record { start = 3; stop = 4; parallel = true }

turn_planned : plan_stages turn ≡ first_stages ++ last_stage ∷ []
unfolding plan_stages plan_from plan_run
turn_planned = refl

turn_blocks :
    any_blocks (schedule_stages background turn first_stages (initial turn)).report.results ≡ true
unfolding schedule_stages schedule_stage execute_stage run_stage run_parallel_stage invoke execute
    append_results count_outcomes count_outcome initial
turn_blocks = refl

schedule-Halts_example :
    (rs : List CallResult) × ((schedule background turn).results
      ≡ (schedule_stages background turn first_stages (initial turn)).report.results ++ rs)
    × All (λ r. is_not_run r.outcome ≡ true) rs
schedule-Halts_example =
    schedule-Halts background turn first_stages (last_stage ∷ []) turn_planned turn_blocks

-- Of two calls one executes its tool, and the loop is not yet at the other.
abbrev one_running : Window
one_running = record (fresh 2) { pending = 1; executing = 1; max_overlap = 1 }

one_running-Reaches : Reaches (fresh 2) one_running
one_running-Reaches =
    after _ _ _
      (after _ _ _ (stay (fresh 2))
        (moves _ _ (take_slot (fresh 2) refl (omega arith) (omega arith))))
      (moves _ _ (count_in (record (fresh 2) { pending = 1; started = 1 }) (omega arith)))

fresh-IsBounded_example : IsBounded one_running
fresh-IsBounded_example = fresh-IsBounded 2 one_running one_running-Reaches

-- Of one call the tool executes, and the context has ended.
abbrev last_running : Window
last_running = record (fresh 1) { pending = 0; executing = 1; max_overlap = 1; is_done = true }

last_running-Reaches : Reaches (fresh 1) last_running
last_running-Reaches =
    after _ _ _
      (after _ _ _
        (after _ _ _ (stay (fresh 1))
          (moves _ _ (take_slot (fresh 1) refl (omega arith) (omega arith))))
        (moves _ _ (count_in (record (fresh 1) { pending = 0; started = 1 }) (omega arith))))
      (context_ends (record (fresh 1) { pending = 0; executing = 1; max_overlap = 1 }) refl)

fresh-go_on_example :
    (steps (fresh 1) last_running last_running-Reaches ≤ 6)
    × (IsOver last_running ⊎ CanMove last_running ⊎ IsWaiting last_running)
fresh-go_on_example = fresh-go_on 1 last_running last_running-Reaches
