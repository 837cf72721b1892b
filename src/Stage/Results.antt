-- ===== src/Stage/Results.antt =====
-- Schedule and countOutcomes of internal/tool/stage.go: each call has one result, and the summary
-- counts the results.
use coagent.Base.{
  ℕ, zero, suc, ◌+◌, ◌≡◌, refl, ap, ◌∙◌, ◌⊎◌, Bool, true, false, List, [], ◌∷◌, ◌++◌, arith, length,
  Option, ◌||◌,
}
use coagent.Stage.{
  Call, Stage, CallError, Context, Outcome, CallResult, mark_range, invoke, execute,
  run_parallel_stage, run_stage,
}

-- The `n` numbers from `i` on.
abbrev pub numbers_from : ℕ → ℕ → List ℕ
numbers_from i zero = []
numbers_from i (suc n) = i ∷ numbers_from (i + 1) n

abbrev pub indices : List CallResult → List ℕ
indices [] = []
indices (r ∷ rs) = r.index ∷ indices rs

pub numbers_from-append :
    (i m n : ℕ) → numbers_from i m ++ numbers_from (i + m) n ≡ numbers_from i (m + n)
numbers_from-append i zero n =
    ap (λ t. numbers_from t n) (omega arith) ∙ ap (numbers_from i) (omega arith)
numbers_from-append i (suc m) n =
    let e : i + suc m ≡ i + 1 + m = omega arith in
    let e' : suc m + n ≡ suc (m + n) = omega arith in
    rw (e, e') (ap (λ (t : List ℕ). i ∷ t) (numbers_from-append (i + 1) m n))

pub indices-append : (rs ss : List CallResult) → indices (rs ++ ss) ≡ indices rs ++ indices ss
indices-append [] ss = refl
indices-append (r ∷ rs) ss = ap (λ (t : List ℕ). r.index ∷ t) (indices-append rs ss)

invoke-index : (i : ℕ) (c : Call) → (invoke i c).index ≡ i
unfolding invoke execute
invoke-index i c = ground arith

pub indices-mark_range :
    (o : Outcome) (e : Option CallError) (i : ℕ) (cs : List Call)
    → indices (mark_range o e i cs) ≡ numbers_from i (length cs)
unfolding mark_range
indices-mark_range o e i [] = refl
indices-mark_range o e i (c ∷ cs) = ap (λ (t : List ℕ). i ∷ t) (indices-mark_range o e (i + 1) cs)

indices-run_parallel_stage :
    (x : Context) (b : Bool) (i : ℕ) (cs : List Call)
    → indices (run_parallel_stage x b i cs).0 ≡ numbers_from i (length cs)
unfolding run_parallel_stage
indices-run_parallel_stage x b i [] = refl
indices-run_parallel_stage x b i (c ∷ cs) = ground (
  arith,
  invoke-index i c,
  indices-run_parallel_stage x true (i + 1) cs,
  indices-run_parallel_stage x (b || x.done_at_call i) (i + 1) cs,
)

-- A stage that is not parallel has one call.
pub indices-run_stage :
    (x : Context) (st : Stage) (cs : List Call)
    → (st.parallel ≡ true) ⊎ (length cs ≡ 1)
    → indices (run_stage x st cs).0 ≡ numbers_from st.start (length cs)
unfolding run_stage
indices-run_stage x st [] h = refl
indices-run_stage x st (c ∷ []) h =
    ground (arith, invoke-index st.start c, indices-run_parallel_stage x false st.start (c ∷ []))
indices-run_stage x st (c ∷ d ∷ cs) h =
    ground (arith, indices-run_parallel_stage x false st.start (c ∷ d ∷ cs))
