-- ===== src/Stage/Plan.antt =====
-- planStages of internal/tool/stage.go: the stages partition the calls.
use coagent.Base.{
  ℕ, ◌+◌, ◌-◌, ◌≤◌, ◌<◌, ◌≡◌, refl, Bool, true, false, List, [], ◌∷◌, ◌++◌, arith, length, take,
  drop, All, inl, inr, Bool-cases, length-append, take-append, drop-append, subst, All-append,
}
use mathlib.Core.List.{append_assoc}
use coagent.Stage.{Call, Stage, is_safe, plan_from, plan_run, plan_stages}

-- The calls of a stage: a parallel one holds safe calls only, another one a single call that is not.
abbrev pub Fits : Bool → List Call → Type 0
Fits true cs = All (λ c. is_safe c ≡ true) cs
Fits false cs = (length cs ≡ 1) × All (λ c. is_safe c ≡ false) cs

-- The stages, from index `i` on, cover the given calls in order and without gaps; none is empty.
abbrev pub Plans : ℕ → List Call → List Stage → Type 0
Plans i cs [] = length cs ≡ 0
Plans i cs (st ∷ sts) =
    (st.start ≡ i)
    × (i < st.stop)
    × (st.stop ≤ i + length cs)
    × Fits st.parallel (take (st.stop - i) cs)
    × Plans st.stop (drop (st.stop - i) cs) sts

-- A parallel stage over the calls `run`, and the stages behind it.
Plans-parallel :
    (s : ℕ) (run cs : List Call) (sts : List Stage)
    → 0 < length run
    → All (λ c. is_safe c ≡ true) run
    → Plans (s + length run) cs sts
    → Plans s (run ++ cs) (record { start = s; stop = s + length run; parallel = true } ∷ sts)
Plans-parallel s run cs sts some_call safe later =
    let e : s + length run - s ≡ length run = omega arith in
    (
      refl,
      omega arith,
      omega (arith, length-append run cs),
      rw (e, take-append run cs) safe,
      rw (e, drop-append run cs) later,
    )

-- A single call that is not safe, and the stages behind it.
Plans-single :
    (i : ℕ) (c : Call) (cs : List Call) (sts : List Stage)
    → is_safe c ≡ false
    → Plans (i + 1) cs sts
    → Plans i (c ∷ cs) (record { start = i; stop = i + 1; parallel = false } ∷ sts)
Plans-single i c cs sts unsafe later =
    let e : i + 1 - i ≡ 1 = omega arith in
    (refl, omega arith, omega arith, rw e (refl, (unsafe, record {})), rw e later)

mutual
  unfolding plan_from plan_run

  plan_from-Plans : (i : ℕ) (cs : List Call) → Plans i cs (plan_from i cs)
  plan_from-Plans i [] = refl
  plan_from-Plans i (c ∷ cs) = elim (Bool-cases (is_safe c)) [
    | inl e ↦ rw (e, plan_from) (plan_run-Plans i (c ∷ []) cs (omega arith) (e, record {}))
    | inr e ↦
        rw (e, plan_from)
          (Plans-single i c cs (plan_from (i + 1) cs) e (plan_from-Plans (i + 1) cs))
  ]

  plan_run-Plans :
      (s : ℕ) (run cs : List Call)
      → 0 < length run
      → All (λ c. is_safe c ≡ true) run
      → Plans s (run ++ cs) (plan_run s (s + length run) cs)
  plan_run-Plans s run [] some_call safe = Plans-parallel s run [] [] some_call safe refl
  plan_run-Plans s run (c ∷ cs) some_call safe = elim (Bool-cases (is_safe c)) [
    | inl e ↦
        rw (e, plan_run)
          (subst (λ (t : List Call). Plans s t (plan_run s (s + length run + 1) cs))
            (append_assoc run (c ∷ []) cs)
            (subst (λ n. Plans s ((run ++ c ∷ []) ++ cs) (plan_run s n cs))
              (omega (arith, length-append run (c ∷ [])))
              (plan_run-Plans s (run ++ c ∷ []) cs (omega (arith, length-append run (c ∷ [])))
                (All-append (λ x. is_safe x ≡ true) run (c ∷ []) safe (e, record {})))))
    | inr e ↦
        rw (e, plan_run)
          (Plans-parallel s run (c ∷ cs)
            (record { start = s + length run; stop = s + length run + 1; parallel = false }
              ∷ plan_from (s + length run + 1) cs)
            some_call safe
            (Plans-single (s + length run) c cs (plan_from (s + length run + 1) cs) e
              (plan_from-Plans (s + length run + 1) cs)))
  ]

-- The stages cover the calls in order, without gaps and without overlap, none of them empty; a
-- parallel stage holds only calls whose tool is known and safe to run in parallel, any other stage
-- a single call that is not.
pub plan_stages-Plans : (cs : List Call) → Plans 0 cs (plan_stages cs)
unfolding plan_stages
plan_stages-Plans cs = plan_from-Plans 0 cs
