-- ===== src/Stage.antt =====
-- internal/tool/stage.go: the tool calls of one turn, run in stages. A tool is an interface whose
-- implementations are elsewhere: a call carries what executing its tool does. The context is asked
-- at the start of each stage and at each call of a parallel one, and what it answers is given by a
-- pair of functions of the call's index; the theorems hold for all of them. The stages partition the
-- calls in order, so writing a stage's results by index is appending them.
pub mod Plan
pub mod Results
pub mod Counts
pub mod Schedule
pub mod Overlap
pub mod Waits
mod Tests
use coagent.Base.{
  ℕ, suc, ◌+◌, ◌-◌, Bool, true, false, not, ◌||◌, List, [], ◌∷◌, ◌++◌, Option, none, some, length,
  take, drop, if◌then◌else◌,
}

pub data Outcome : Type 0 where
  executed failed suspended skipped cancelled : Outcome

-- What `Tool.Execute` does: it returns a result, marked as an error or not, no result, an error,
-- which may be ErrSuspend, or it panics.
pub data Execution : Type 0 where
  returns : Bool → Execution
  returns_nil panics : Execution
  fails : Bool → Execution

pub record Tool : Type 0 where
  pub parallel_safe : Bool
  pub execution : Execution

-- `unresolved` says that the call carries an error of its own.
pub record Call : Type 0 where
  pub tool : Option Tool
  pub unresolved : Bool

pub data CallError : Type 0 where
  call_error unknown_tool execute_error nil_result panicked skipped_error : CallError

pub record CallResult : Type 0 where
  pub index : ℕ
  pub outcome : Outcome
  pub has_result : Bool
  pub err : Option CallError

pub record Summary : Type 0 where
  pub calls : ℕ
  pub stages : ℕ
  pub executed_calls : ℕ
  pub skipped_calls : ℕ
  pub failed_calls : ℕ
  pub suspended_calls : ℕ

pub record Stage : Type 0 where
  pub start : ℕ
  pub stop : ℕ
  pub parallel : Bool

pub record Report : Type 0 where
  pub results : List CallResult
  pub summary : Summary

-- Whether the context is seen as done at a stage's start, and at a call of a parallel stage.
pub record Context : Type 0 where
  pub done_at_stage : ℕ → Bool
  pub done_at_call : ℕ → Bool

abbrev pub is_safe : Call → Bool
is_safe c = elim c.tool [ none ↦ false | some t ↦ t.parallel_safe ]

-- The loop of `planStages`, at the calls from index `i` on: between stages, and within a parallel
-- stage that began at `s`.
unfoldable mutual
  pub plan_from : ℕ → List Call → List Stage
  plan_from i [] = []
  plan_from i (c ∷ cs) = elim (is_safe c) [
    | false ↦ record { start = i; stop = i + 1; parallel = false } ∷ plan_from (i + 1) cs
    | true ↦ plan_run i (i + 1) cs
  ]

  pub plan_run : ℕ → ℕ → List Call → List Stage
  plan_run s j [] = record { start = s; stop = j; parallel = true } ∷ []
  plan_run s j (c ∷ cs) = elim (is_safe c) [
    | true ↦ plan_run s (j + 1) cs
    | false ↦
        record { start = s; stop = j; parallel = true }
        ∷ record { start = j; stop = j + 1; parallel = false }
        ∷ plan_from (j + 1) cs
  ]

unfoldable pub plan_stages : List Call → List Stage
plan_stages cs = plan_from 0 cs

abbrev failure : ℕ → CallError → CallResult
failure i e = record { index = i; outcome = failed; has_result = false; err = some e }

unfoldable pub execute : ℕ → Execution → CallResult
execute i (returns true) = record { index = i; outcome = failed; has_result = true; err = none }
execute i (returns false) = record { index = i; outcome = executed; has_result = true; err = none }
execute i returns_nil = failure i nil_result
execute i panics = failure i panicked
execute i (fails true) = record {
  index = i;
  outcome = suspended;
  has_result = false;
  err = some execute_error;
}
execute i (fails false) = failure i execute_error

unfoldable pub invoke : ℕ → Call → CallResult
unfolding execute
invoke i c =
    if c.unresolved
    then failure i call_error
    else elim c.tool [ none ↦ failure i unknown_tool | some t ↦ execute i t.execution ]

-- `markRange`, over the calls of a stage; a result that nothing else is written to is the zero one.
pub mark_range : Outcome → Option CallError → ℕ → List Call → List CallResult
mark_range o e i [] = []
mark_range o e i (c ∷ cs) =
    record { index = i; outcome = o; has_result = false; err = e } ∷ mark_range o e (i + 1) cs

-- The loop of `runParallelStage`; the flag is `cancelled`, before and after.
unfoldable pub run_parallel_stage : Context → Bool → ℕ → List Call → List CallResult × Bool
run_parallel_stage x cancel i [] = ([], cancel)
run_parallel_stage x cancel i (c ∷ cs) =
    let cancel' = cancel || x.done_at_call i in
    let r =
      if cancel'
      then record { index = i; outcome = cancelled; has_result = false; err = none }
      else invoke i c in
    let rest = run_parallel_stage x cancel' (i + 1) cs in (r ∷ rest.0, rest.1)

-- What `runParallelStage` or a single `invoke` does to a stage's calls.
unfoldable pub run_stage : Context → Stage → List Call → List CallResult × Bool
run_stage x st [] = ([], false)
run_stage x st (c ∷ cs) =
    if st.parallel
    then run_parallel_stage x false st.start (c ∷ cs)
    else (invoke st.start c ∷ [], false)

abbrev pub blocks : Outcome → Bool
blocks failed = true
blocks suspended = true
blocks _ = false

unfoldable pub count_outcome : Outcome → Summary → Summary
count_outcome executed s = record s { executed_calls = suc s.executed_calls }
count_outcome failed s = record s { failed_calls = suc s.failed_calls }
count_outcome suspended s = record s { suspended_calls = suc s.suspended_calls }
count_outcome _ s = s

unfoldable pub count_outcomes : List CallResult → Summary → Summary × Bool
unfolding count_outcome
count_outcomes [] s = (s, false)
count_outcomes (r ∷ rs) s =
    let rest = count_outcomes rs (count_outcome r.outcome s) in (rest.0, blocks r.outcome || rest.1)

-- `calls[st.start:st.end]`.
abbrev pub slice : Stage → List Call → List Call
slice st cs = take (st.stop - st.start) (drop st.start cs)

-- The state of the loop in `Schedule`.
pub record Progress : Type 0 where
  pub report : Report
  pub is_cancelled : Bool
  pub is_blocked : Bool

unfoldable pub append_results : List CallResult → Report → Report
append_results rs r = record r { results = r.results ++ rs }

abbrev begin_stage : Progress → Progress
begin_stage p = record p {
  report = record p.report {
    summary = record p.report.summary { stages = suc p.report.summary.stages };
  };
}

cancel_stage : Stage → List Call → Progress → Progress
unfolding append_results
cancel_stage st cs p = record p {
  report = append_results (mark_range cancelled none st.start cs) p.report;
  is_cancelled = true;
}

skip_stage : Stage → List Call → Progress → Progress
unfolding append_results
skip_stage st cs p =
    let r = append_results (mark_range skipped (some skipped_error) st.start cs) p.report in
    record p {
      report = record r {
        summary = record r.summary { skipped_calls = r.summary.skipped_calls + length cs };
      };
    }

unfoldable pub execute_stage : Context → Stage → List Call → Progress → Progress
unfolding append_results
execute_stage x st cs p =
    let ran = run_stage x st cs in
    let counted = count_outcomes ran.0 p.report.summary in
    record p {
      report = record (append_results ran.0 p.report) { summary = counted.0 };
      is_cancelled = ran.1;
      is_blocked = p.is_blocked || counted.1;
    }

-- The body of the loop in `Schedule`, on the calls of the stage.
unfoldable pub schedule_stage : Context → Stage → List Call → Progress → Progress
unfolding cancel_stage skip_stage execute_stage
schedule_stage x st cs p =
    if p.is_cancelled
    then cancel_stage st cs (begin_stage p)
    else if p.is_blocked
    then skip_stage st cs (begin_stage p)
    else if x.done_at_stage st.start
    then cancel_stage st cs (begin_stage p)
    else execute_stage x st cs (begin_stage p)

unfoldable pub schedule_stages : Context → List Call → List Stage → Progress → Progress
schedule_stages x cs [] p = p
schedule_stages x cs (st ∷ sts) p = schedule_stages x cs sts (schedule_stage x st (slice st cs) p)

unfoldable pub initial : List Call → Progress
initial cs = record {
  report = record {
    results = [];
    summary = record {
      calls = length cs;
      stages = 0;
      executed_calls = 0;
      skipped_calls = 0;
      failed_calls = 0;
      suspended_calls = 0;
    };
  };
  is_cancelled = false;
  is_blocked = false;
}

unfoldable pub schedule : Context → List Call → Report
schedule x cs = (schedule_stages x cs (plan_stages cs) (initial cs)).report
