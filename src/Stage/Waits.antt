-- ===== src/Stage/Waits.antt =====
-- runParallelStage of internal/tool/stage.go: what a parallel stage can wait for.
use coagent.Base.{
  ℕ, suc, ◌+◌, ◌*◌, ◌≤◌, ◌<◌, ◌≡◌, ◌⊎◌, inl, inr, true, false, arith, Bool-cases, if◌then◌else◌,
}
use coagent.Stage.Overlap.{
  Window, overlap, held, fresh, max_parallel_per_stage, Moves, take_slot, cancel_call, take_stray,
  count_in, count_out, give_back, Step, moves, tool_returns, context_ends, Reaches, stay, after,
  IsBounded, fresh-IsBounded,
}

-- The loop is cancelled only when the context is done, and takes stray slots only then.
record IsCaused (w : Window) : Type 0 where
  done : (w.is_cancelled ≡ false) ⊎ (w.is_done ≡ true)
  none_stray : (w.stray ≡ 0) ⊎ (w.is_cancelled ≡ true)

Moves-IsCaused : (v w : Window) → Moves v w → IsCaused v → IsCaused w
Moves-IsCaused v _ (take_slot _ going some free) h = ground (arith, h)
Moves-IsCaused v _ (cancel_call _ done some) h = ground (arith, h, done)
Moves-IsCaused v _ (take_stray _ cancelled some free) h = ground (arith, h, cancelled)
Moves-IsCaused v _ (count_in _ some) h = ground (arith, h)
Moves-IsCaused v _ (count_out _ some) h = ground (arith, h)
Moves-IsCaused v _ (give_back _ some) h = ground (arith, h)

Reaches-IsCaused : (u w : Window) → IsCaused u → Reaches u w → IsCaused w
Reaches-IsCaused u _ h (stay _) = h
Reaches-IsCaused u _ h (after _ v _ before (moves _ w m)) =
    Moves-IsCaused v w m (Reaches-IsCaused u v h before)
Reaches-IsCaused u _ h (after _ v _ before (tool_returns _ some)) =
    let k = Reaches-IsCaused u v h before in ground (arith, k)
Reaches-IsCaused u _ h (after _ v _ before (context_ends _ going)) =
    let k = Reaches-IsCaused u v h before in ground (arith, k)

-- The steps that are left at most.
pub work : Window → ℕ
work w =
    w.pending * 5
    + w.started * 4
    + w.executing * 3
    + w.returned * 2
    + w.leaving
    + (if w.is_done then 0 else 1)

Step-work : (v w : Window) → Step v w → work w < work v
unfolding work
Step-work v _ (moves _ _ (take_slot _ going some free)) = omega (arith, some)
Step-work v _ (moves _ _ (cancel_call _ done some)) = omega (arith, some)
Step-work v _ (moves _ _ (take_stray _ cancelled some free)) = omega (arith, some)
Step-work v _ (moves _ _ (count_in _ some)) = omega (arith, some)
Step-work v _ (moves _ _ (count_out _ some)) = omega (arith, some)
Step-work v _ (moves _ _ (give_back _ some)) = omega (arith, some)
Step-work v _ (tool_returns _ some) = omega (arith, some)
Step-work v _ (context_ends _ going) = ground (arith, going)

abbrev pub steps : (u w : Window) → Reaches u w → ℕ
steps u _ (stay _) = 0
steps u _ (after _ v w before s) = suc (steps u v before)

steps-work : (u w : Window) (r : Reaches u w) → steps u w r + work w ≤ work u
steps-work u _ (stay _) = omega arith
steps-work u _ (after _ v w before s) = omega (arith, steps-work u v before, Step-work v w s)

none_or_some : (n : ℕ) → (n ≡ 0) ⊎ (0 < n)
none_or_some n = omega arith

free_or_full : (w : Window) → (held w < max_parallel_per_stage) ⊎ (max_parallel_per_stage ≤ held w)
free_or_full w = omega arith

-- The loop and all goroutines have ended.
abbrev pub IsOver : Window → Type 0
IsOver w = w.pending + w.started + overlap w + w.leaving ≡ 0

abbrev pub CanMove : Window → Type 0
CanMove w = (w' : Window) × Moves w w'

-- What is left of the stage waits for tools that execute: the loop is at its end, or the context is
-- not done and all four slots are theirs.
pub record IsWaiting (w : Window) : Type 0 where
  pub some_executing : 0 < w.executing
  pub none_else : w.started + w.returned + w.leaving ≡ 0
  pub loop : (w.pending ≡ 0) ⊎ ((w.is_done ≡ false) × (w.executing ≡ max_parallel_per_stage))

abbrev Goes : Window → Type 0
Goes w = IsOver w ⊎ CanMove w ⊎ IsWaiting w

go_on_pending :
    (w : Window)
    → IsBounded w
    → IsCaused w
    → w.started + w.returned + w.leaving ≡ 0
    → 0 < w.pending
    → Goes w
go_on_pending w bounded caused idle some = elim (Bool-cases w.is_done) [
  | inl done ↦ inr (inl (_, cancel_call w done some))
  | inr going ↦
      let not_cancelled : w.is_cancelled ≡ false = ground (arith, caused, going) in
      let no_stray : w.stray ≡ 0 = ground (arith, caused, not_cancelled) in
      elim (free_or_full w) [
        | inl free ↦ inr (inl (_, take_slot w not_cancelled some free))
        | inr full ↦
            let all_four : w.executing ≡ max_parallel_per_stage =
              omega (arith, full, no_stray, idle, bounded.slots) in
            inr (
              inr (record {
                some_executing = omega (arith, all_four);
                none_else = idle;
                loop = inr (going, all_four);
              }))
      ]
]

go_on_last : (w : Window) → w.started + w.returned + w.leaving ≡ 0 → w.pending ≡ 0 → Goes w
go_on_last w idle none_left = elim (none_or_some w.executing) [
  | inl none_executing ↦ inl (omega (arith, idle, none_left, none_executing))
  | inr h ↦ inr (inr (record { some_executing = h; none_else = idle; loop = inl none_left }))
]

go_on : (w : Window) → IsBounded w → IsCaused w → Goes w
go_on w bounded caused = elim (none_or_some w.leaving) [
  | inr h ↦ inr (inl (_, give_back w h))
  | inl a ↦ elim (none_or_some w.returned) [
    | inr h ↦ inr (inl (_, count_out w h))
    | inl b ↦ elim (none_or_some w.started) [
      | inr h ↦ inr (inl (_, count_in w h))
      | inl c ↦ elim (none_or_some w.pending) [
        | inr h ↦ go_on_pending w bounded caused (omega (arith, a, b, c)) h
        | inl d ↦ go_on_last w (omega (arith, a, b, c)) d
      ]
    ]
  ]
]

-- The return of a tool and the end of the context are steps of their own, which may never come. A
-- parallel stage of `n` calls takes at most `5 * n + 1` steps in any order, theirs included. In
-- every state that it reaches, it is over, or the loop or a goroutine can take a step without
-- waiting for a tool, or all that is left waits for tools that execute: the loop is at its end, or
-- the context is not done and such tools hold all four slots.
pub fresh-go_on :
    (n : ℕ) (w : Window) (r : Reaches (fresh n) w)
    → (steps (fresh n) w r ≤ n * 5 + 1) × (IsOver w ⊎ CanMove w ⊎ IsWaiting w)
unfolding work
fresh-go_on n w r =
    let caused = Reaches-IsCaused (fresh n) w (ground arith) r in
    (omega (arith, steps-work (fresh n) w r), go_on w (fresh-IsBounded n w r) caused)
