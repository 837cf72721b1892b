-- ===== src/Stage/Counts.antt =====
-- countOutcomes and the counters of Schedule in internal/tool/stage.go.
use coagent.Base.{
  ℕ, suc, ◌+◌, ◌≡◌, refl, Bool, true, false, List, [], ◌∷◌, ◌++◌, arith, length, count_if,
  count_if-append, Option, some, none, ◌||◌, any, any-append,
}
use coagent.Stage.{
  Call, Stage, CallError, skipped_error, Context, Outcome, executed, failed, suspended, skipped,
  cancelled, CallResult, Summary, Progress, mark_range, invoke, execute, run_parallel_stage,
  run_stage, schedule_stage, count_outcome, count_outcomes, append_results, cancel_stage,
  skip_stage, execute_stage, blocks,
}

abbrev pub is_executed : Outcome → Bool
is_executed executed = true
is_executed _ = false

abbrev pub is_failed : Outcome → Bool
is_failed failed = true
is_failed _ = false

abbrev pub is_suspended : Outcome → Bool
is_suspended suspended = true
is_suspended _ = false

abbrev pub is_skipped : Outcome → Bool
is_skipped skipped = true
is_skipped _ = false

-- The number of results whose outcome passes a test.
abbrev pub tally : (Outcome → Bool) → List CallResult → ℕ
tally f rs = count_if (λ r. f r.outcome) rs

abbrev pub any_blocks : List CallResult → Bool
any_blocks rs = any (λ r. blocks r.outcome) rs

-- The counters of `s` after the results `rs`, from those of `s0`.
pub record Adds (s0 : Summary) (rs : List CallResult) (s : Summary) : Type 0 where
  pub calls : s.calls ≡ s0.calls
  pub stages : s.stages ≡ s0.stages
  pub executed_calls : s.executed_calls ≡ s0.executed_calls + tally is_executed rs
  pub failed_calls : s.failed_calls ≡ s0.failed_calls + tally is_failed rs
  pub suspended_calls : s.suspended_calls ≡ s0.suspended_calls + tally is_suspended rs
  pub skipped_calls : s.skipped_calls ≡ s0.skipped_calls

pub count_outcomes-Adds : (rs : List CallResult) (s : Summary) → Adds s rs (count_outcomes rs s).0
unfolding count_outcomes count_outcome
count_outcomes-Adds [] s = ground arith
count_outcomes-Adds (r ∷ rs) s =
    let rest = count_outcomes-Adds rs (count_outcome r.outcome s) in ground (arith, rest)

count_outcomes-blocks :
    (rs : List CallResult) (s : Summary) → (count_outcomes rs s).1 ≡ any_blocks rs
unfolding count_outcomes count_outcome
count_outcomes-blocks [] s = refl
count_outcomes-blocks (r ∷ rs) s =
    ground (arith, count_outcomes-blocks rs (count_outcome r.outcome s))

invoke-not_skipped : (i : ℕ) (c : Call) → is_skipped (invoke i c).outcome ≡ false
unfolding invoke execute
invoke-not_skipped i c = ground arith

run_parallel_stage-none_skipped :
    (x : Context) (b : Bool) (i : ℕ) (cs : List Call)
    → tally is_skipped (run_parallel_stage x b i cs).0 ≡ 0
unfolding run_parallel_stage
run_parallel_stage-none_skipped x b i [] = refl
run_parallel_stage-none_skipped x b i (c ∷ cs) = ground (
  arith,
  invoke-not_skipped i c,
  run_parallel_stage-none_skipped x true (i + 1) cs,
  run_parallel_stage-none_skipped x (b || x.done_at_call i) (i + 1) cs,
)

run_stage-none_skipped :
    (x : Context) (st : Stage) (cs : List Call) → tally is_skipped (run_stage x st cs).0 ≡ 0
unfolding run_stage
run_stage-none_skipped x st [] = refl
run_stage-none_skipped x st (c ∷ cs) = ground (
  arith,
  invoke-not_skipped st.start c,
  run_parallel_stage-none_skipped x false st.start (c ∷ cs),
)

-- What `markRange` adds to each counter of the results.
record Marks (rs : List CallResult) (n : ℕ) : Type 0 where
  executed_calls : tally is_executed rs ≡ 0
  failed_calls : tally is_failed rs ≡ 0
  suspended_calls : tally is_suspended rs ≡ 0
  skipped_calls : tally is_skipped rs ≡ n
  none_blocks : any_blocks rs ≡ false

mark_range-skipped :
    (e : Option CallError) (i : ℕ) (cs : List Call) → Marks (mark_range skipped e i cs) (length cs)
unfolding mark_range
mark_range-skipped e i [] = ground arith
mark_range-skipped e i (c ∷ cs) = let rest = mark_range-skipped e (i + 1) cs in ground (arith, rest)

mark_range-cancelled :
    (e : Option CallError) (i : ℕ) (cs : List Call) → Marks (mark_range cancelled e i cs) 0
unfolding mark_range
mark_range-cancelled e i [] = ground arith
mark_range-cancelled e i (c ∷ cs) =
    let rest = mark_range-cancelled e (i + 1) cs in ground (arith, rest)

-- The counters agree with the results so far, and so does the flag that stops later stages.
pub record Counted (p : Progress) : Type 0 where
  pub executed_calls : p.report.summary.executed_calls ≡ tally is_executed p.report.results
  pub failed_calls : p.report.summary.failed_calls ≡ tally is_failed p.report.results
  pub suspended_calls : p.report.summary.suspended_calls ≡ tally is_suspended p.report.results
  pub skipped_calls : p.report.summary.skipped_calls ≡ tally is_skipped p.report.results
  pub is_blocked : p.is_blocked ≡ any_blocks p.report.results

-- The tallies of the results of two runs of calls.
record Sums (rs ss : List CallResult) : Type 0 where
  executed_calls : tally is_executed (rs ++ ss) ≡ tally is_executed rs + tally is_executed ss
  failed_calls : tally is_failed (rs ++ ss) ≡ tally is_failed rs + tally is_failed ss
  suspended_calls : tally is_suspended (rs ++ ss) ≡ tally is_suspended rs + tally is_suspended ss
  skipped_calls : tally is_skipped (rs ++ ss) ≡ tally is_skipped rs + tally is_skipped ss
  blocking : any_blocks (rs ++ ss) ≡ any_blocks rs || any_blocks ss

append-Sums : (rs ss : List CallResult) → Sums rs ss
append-Sums rs ss = record {
  executed_calls = count_if-append (λ r. is_executed r.outcome) rs ss;
  failed_calls = count_if-append (λ r. is_failed r.outcome) rs ss;
  suspended_calls = count_if-append (λ r. is_suspended r.outcome) rs ss;
  skipped_calls = count_if-append (λ r. is_skipped r.outcome) rs ss;
  blocking = any-append (λ r. blocks r.outcome) rs ss;
}

pub schedule_stage-Counted :
    (x : Context) (st : Stage) (cs : List Call) (p : Progress)
    → Counted p
    → Counted (schedule_stage x st cs p)
unfolding schedule_stage cancel_stage skip_stage execute_stage append_results
schedule_stage-Counted x st cs p h =
    let rs = p.report.results in
    let skips = mark_range skipped (some skipped_error) st.start cs in
    let cancels = mark_range cancelled none st.start cs in
    let ran = (run_stage x st cs).0 in
    ground (
      arith,
      append-Sums rs skips,
      append-Sums rs cancels,
      append-Sums rs ran,
      mark_range-skipped (some skipped_error) st.start cs,
      mark_range-cancelled none st.start cs,
      run_stage-none_skipped x st cs,
      count_outcomes-blocks ran (record p.report.summary { stages = suc p.report.summary.stages }),
      count_outcomes-Adds ran (record p.report.summary { stages = suc p.report.summary.stages }),
    )
