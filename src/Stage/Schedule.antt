-- ===== src/Stage/Schedule.antt =====
-- Schedule of internal/tool/stage.go: what the report holds after all stages.
use coagent.Base.{
  ℕ, suc, ◌+◌, ◌-◌, ◌≤◌, ◌≡◌, refl, sym, ap, ◌∙◌, subst, ◌⊎◌, inl, inr, Bool, true, false, List, [],
  ◌∷◌, ◌++◌, arith, length, Option, some, none, ◌||◌, if◌then◌else◌, length-take, length-drop, take,
  drop, drop-drop, All, All-append,
}
use mathlib.Core.List.{append_assoc, append-nil}
use coagent.Stage.{
  Call, Stage, CallError, skipped_error, Context, Outcome, skipped, cancelled, CallResult, Summary,
  Report, Progress, slice, mark_range, run_stage, schedule_stage, schedule_stages, schedule,
  append_results, cancel_stage, skip_stage, execute_stage, plan_stages, initial,
}
use coagent.Stage.Plan.{Plans, Fits, plan_stages-Plans}
use coagent.Stage.Results.{
  numbers_from, numbers_from-append, indices, indices-append, indices-mark_range, indices-run_stage,
}
use coagent.Stage.Counts.{
  Counted, count_outcomes-Adds, schedule_stage-Counted, tally, is_executed, is_failed, is_suspended,
  is_skipped, any_blocks,
}

schedule_stage-indices :
    (x : Context) (st : Stage) (cs : List Call) (p : Progress)
    → (st.parallel ≡ true) ⊎ (length cs ≡ 1)
    → indices (schedule_stage x st cs p).report.results
      ≡ indices p.report.results ++ numbers_from st.start (length cs)
unfolding schedule_stage cancel_stage skip_stage execute_stage append_results
schedule_stage-indices x st cs p h =
    let rs = p.report.results in
    let skips = mark_range skipped (some skipped_error) st.start cs in
    let cancels = mark_range cancelled none st.start cs in
    let ran = (run_stage x st cs).0 in
    ground (
      arith,
      indices-append rs skips,
      indices-append rs cancels,
      indices-append rs ran,
      indices-mark_range skipped (some skipped_error) st.start cs,
      indices-mark_range cancelled none st.start cs,
      indices-run_stage x st cs h,
    )

Fits-length : (b : Bool) (cs : List Call) → Fits b cs → (b ≡ true) ⊎ (length cs ≡ 1)
Fits-length true cs h = inl refl
Fits-length false cs h = inr h.0

schedule_stages-indices :
    (x : Context) (cs : List Call) (i : ℕ) (sts : List Stage) (p : Progress)
    → i ≤ length cs
    → Plans i (drop i cs) sts
    → indices p.report.results ≡ numbers_from 0 i
    → indices (schedule_stages x cs sts p).report.results ≡ numbers_from 0 (length cs)
unfolding schedule_stages
schedule_stages-indices x cs i [] p bound plan numbered =
    let e : i ≡ length cs = omega (arith, length-drop i cs, plan) in
    subst (λ n. indices p.report.results ≡ numbers_from 0 n) e numbered
schedule_stages-indices x cs i (st ∷ sts) p bound plan numbered =
    let start : i ≡ st.start = sym plan.0 in
    let within : st.stop ≤ length cs = omega (arith, bound, plan.1, plan.2, length-drop i cs) in
    let e : i + (st.stop - i) ≡ st.stop = omega (arith, plan.1) in
    let later : drop (st.stop - i) (drop i cs) ≡ drop st.stop cs =
      drop-drop (st.stop - i) i cs ∙ ap (λ n. drop n cs) e in
    let size : length (slice st cs) ≡ st.stop - i = omega (
      arith,
      length-take (st.stop - st.start) (drop st.start cs),
      length-drop st.start cs,
      start,
      within,
    ) in
    let fits : Fits st.parallel (slice st cs) =
      subst (λ n. Fits st.parallel (take (st.stop - n) (drop n cs))) start plan.3 in
    schedule_stages-indices x cs st.stop sts (schedule_stage x st (slice st cs) p) within
      (subst (λ (ds : List Call). Plans st.stop ds sts) later plan.4)
      (schedule_stage-indices x st (slice st cs) p (Fits-length st.parallel (slice st cs) fits)
        ∙ ground (arith, numbered, start, size, e, numbers_from-append 0 i (st.stop - i)))

schedule_stage-stages :
    (x : Context) (st : Stage) (cs : List Call) (p : Progress)
    → ((schedule_stage x st cs p).report.summary.stages ≡ suc p.report.summary.stages)
      × ((schedule_stage x st cs p).report.summary.calls ≡ p.report.summary.calls)
unfolding schedule_stage cancel_stage skip_stage execute_stage append_results
schedule_stage-stages x st cs p =
    let s : Summary = record p.report.summary { stages = suc p.report.summary.stages } in
    ground (arith, count_outcomes-Adds (run_stage x st cs).0 s)

schedule_stages-stages :
    (x : Context) (cs : List Call) (sts : List Stage) (p : Progress)
    → ((schedule_stages x cs sts p).report.summary.stages ≡ p.report.summary.stages + length sts)
      × ((schedule_stages x cs sts p).report.summary.calls ≡ p.report.summary.calls)
unfolding schedule_stages
schedule_stages-stages x cs [] p = ground arith
schedule_stages-stages x cs (st ∷ sts) p =
    let p' = schedule_stage x st (slice st cs) p in
    ground (arith, schedule_stage-stages x st (slice st cs) p, schedule_stages-stages x cs sts p')

schedule_stages-Counted :
    (x : Context) (cs : List Call) (sts : List Stage) (p : Progress)
    → Counted p
    → Counted (schedule_stages x cs sts p)
unfolding schedule_stages
schedule_stages-Counted x cs [] p h = h
schedule_stages-Counted x cs (st ∷ sts) p h =
    schedule_stages-Counted x cs sts _ (schedule_stage-Counted x st (slice st cs) p h)

initial-Counted : (cs : List Call) → Counted (initial cs)
unfolding initial
initial-Counted cs = ground arith

-- A result that its call did not give: it was skipped or cancelled.
abbrev pub is_not_run : Outcome → Bool
is_not_run skipped = true
is_not_run cancelled = true
is_not_run _ = false

mark_range-not_run :
    (o : Outcome) (e : Option CallError) (i : ℕ) (cs : List Call)
    → is_not_run o ≡ true
    → All (λ r. is_not_run r.outcome ≡ true) (mark_range o e i cs)
unfolding mark_range
mark_range-not_run o e i [] h = record {}
mark_range-not_run o e i (c ∷ cs) h = (h, mark_range-not_run o e (i + 1) cs h)

-- What `p'` has beyond `p` is results of calls that did not run, and no stage runs from there.
record Halts (p p' : Progress) : Type 0 where
  added : List CallResult
  appended : p'.report.results ≡ p.report.results ++ added
  not_run : All (λ r. is_not_run r.outcome ≡ true) added
  still : p'.is_blocked || p'.is_cancelled ≡ true

schedule_stage-Halts :
    (x : Context) (st : Stage) (cs : List Call) (p : Progress)
    → p.is_blocked || p.is_cancelled ≡ true
    → Halts p (schedule_stage x st cs p)
unfolding schedule_stage cancel_stage skip_stage append_results
schedule_stage-Halts x st cs p h =
    let skips = mark_range-not_run skipped (some skipped_error) st.start cs refl in
    let cancels = mark_range-not_run cancelled none st.start cs refl in
    record {
      added =
          if p.is_cancelled
          then mark_range cancelled none st.start cs
          else mark_range skipped (some skipped_error) st.start cs;
      appended = ground (arith, h);
      not_run = ground (arith, h, skips, cancels);
      still = ground (arith, h);
    }

Halts-trans : (p q r : Progress) → Halts p q → Halts q r → Halts p r
Halts-trans p q r h k = record {
  added = h.added ++ k.added;
  appended =
      k.appended
      ∙ ap (λ (t : List CallResult). t ++ k.added) h.appended
      ∙ append_assoc p.report.results h.added k.added;
  not_run = All-append (λ x. is_not_run x.outcome ≡ true) h.added k.added h.not_run k.not_run;
  still = k.still;
}

schedule_stages-Halts :
    (x : Context) (cs : List Call) (sts : List Stage) (p : Progress)
    → p.is_blocked || p.is_cancelled ≡ true
    → Halts p (schedule_stages x cs sts p)
unfolding schedule_stages
schedule_stages-Halts x cs [] p h = record {
  added = [];
  appended = sym (append-nil p.report.results);
  not_run = record {};
  still = h;
}
schedule_stages-Halts x cs (st ∷ sts) p h =
    let first = schedule_stage-Halts x st (slice st cs) p h in
    Halts-trans p _ _ first (schedule_stages-Halts x cs sts _ first.still)

schedule_stages-append :
    (x : Context) (cs : List Call) (sts later : List Stage) (p : Progress)
    → schedule_stages x cs (sts ++ later) p
      ≡ schedule_stages x cs later (schedule_stages x cs sts p)
unfolding schedule_stages
schedule_stages-append x cs [] later p = refl
schedule_stages-append x cs (st ∷ sts) later p =
    schedule_stages-append x cs sts later (schedule_stage x st (slice st cs) p)

-- Every call of the turn has exactly one result, at its own index and in the order of the calls,
-- whatever its tool does and whenever the context is cancelled.
pub schedule-indices :
    (x : Context) (cs : List Call) → indices (schedule x cs).results ≡ numbers_from 0 (length cs)
unfolding schedule initial
schedule-indices x cs =
    schedule_stages-indices x cs 0 (plan_stages cs) (initial cs) (omega arith)
      (plan_stages-Plans cs) refl

-- The summary agrees with the results.
pub record Agrees (cs : List Call) (r : Report) : Type 0 where
  pub calls : r.summary.calls ≡ length cs
  pub stages : r.summary.stages ≡ length (plan_stages cs)
  pub executed_calls : r.summary.executed_calls ≡ tally is_executed r.results
  pub failed_calls : r.summary.failed_calls ≡ tally is_failed r.results
  pub suspended_calls : r.summary.suspended_calls ≡ tally is_suspended r.results
  pub skipped_calls : r.summary.skipped_calls ≡ tally is_skipped r.results

-- The summary counts the calls and the planned stages, and each of its counters of executed,
-- failed, suspended and skipped calls is the number of results with that outcome.
pub schedule-Agrees : (x : Context) (cs : List Call) → Agrees cs (schedule x cs)
unfolding schedule initial
schedule-Agrees x cs =
    let counted = schedule_stages-Counted x cs (plan_stages cs) (initial cs) (initial-Counted cs) in
    let staged = schedule_stages-stages x cs (plan_stages cs) (initial cs) in
    ground (arith, counted, staged)

-- Once the results of the stages run so far hold a failed or a suspended one, every call of the
-- stages behind them is skipped or cancelled: its tool is not executed.
pub schedule-Halts :
    (x : Context) (cs : List Call) (sts later : List Stage)
    → plan_stages cs ≡ sts ++ later
    → any_blocks (schedule_stages x cs sts (initial cs)).report.results ≡ true
    → (rs : List CallResult) × ((schedule x cs).results
        ≡ (schedule_stages x cs sts (initial cs)).report.results ++ rs)
      × All (λ r. is_not_run r.outcome ≡ true) rs
unfolding schedule
schedule-Halts x cs sts later planned h =
    let p = schedule_stages x cs sts (initial cs) in
    let counted = schedule_stages-Counted x cs sts (initial cs) (initial-Counted cs) in
    let halted : p.is_blocked || p.is_cancelled ≡ true = ground (arith, counted, h) in
    let rest = schedule_stages-Halts x cs later p halted in
    let e : schedule_stages x cs (plan_stages cs) (initial cs) ≡ schedule_stages x cs later p =
      ap (λ (t : List Stage). schedule_stages x cs t (initial cs)) planned
      ∙ schedule_stages-append x cs sts later (initial cs) in
    (rest.added, ap (λ (q : Progress). q.report.results) e ∙ rest.appended, rest.not_run)
