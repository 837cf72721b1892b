-- ===== src/Stage/Overlap.antt =====
-- runParallelStage and invoke of internal/tool/stage.go, as steps that interleave: the loop that
-- takes a slot of the semaphore for each call, and a goroutine per call that counts itself into the
-- overlap, executes its tool, counts itself out and gives the slot back. A tool that executes, and
-- the context, take steps of their own.
use coagent.Base.{ℕ, suc, ◌+◌, ◌-◌, ◌≤◌, ◌<◌, ◌≡◌, Bool, true, false, arith, max}

abbrev pub max_parallel_per_stage : ℕ
max_parallel_per_stage = 4

-- The calls of the stage by how far they are: the loop is not yet at them; with a slot; counted in
-- the overlap while their tool executes; still counted in when it has returned; and counted out with
-- the slot still held. `stray` are the slots that the `select` took once the loop was cancelled: no
-- goroutine gives them back. `max_overlap` is the largest overlap seen, `is_done` says that the
-- context is done, and `is_cancelled` is the variable of the loop.
pub record Window : Type 0 where
  pub pending : ℕ
  pub started : ℕ
  pub executing : ℕ
  pub returned : ℕ
  pub leaving : ℕ
  pub stray : ℕ
  pub max_overlap : ℕ
  pub is_done : Bool
  pub is_cancelled : Bool

abbrev pub overlap : Window → ℕ
overlap w = w.executing + w.returned

abbrev pub held : Window → ℕ
held w = w.started + overlap w + w.leaving + w.stray

abbrev pub fresh : ℕ → Window
fresh n = record {
  pending = n;
  started = 0;
  executing = 0;
  returned = 0;
  leaving = 0;
  stray = 0;
  max_overlap = 0;
  is_done = false;
  is_cancelled = false;
}

-- One step of the loop or of a goroutine, which waits for no tool: the `select` has a case that is
-- ready, and any of them, also once the loop is cancelled.
pub data Moves : Window → Window → Type 0 where
  take_slot :
      (w : Window)
      → w.is_cancelled ≡ false
      → 0 < w.pending
      → held w < max_parallel_per_stage
      → Moves w (record w { pending = w.pending - 1; started = suc w.started })
  cancel_call :
      (w : Window)
      → w.is_done ≡ true
      → 0 < w.pending
      → Moves w (record w { pending = w.pending - 1; is_cancelled = true })
  take_stray :
      (w : Window)
      → w.is_cancelled ≡ true
      → 0 < w.pending
      → held w < max_parallel_per_stage
      → Moves w (record w { pending = w.pending - 1; stray = suc w.stray })
  count_in :
      (w : Window)
      → 0 < w.started
      → Moves w (record w {
        started = w.started - 1;
        executing = suc w.executing;
        max_overlap = max w.max_overlap (suc (overlap w));
      })
  count_out :
      (w : Window)
      → 0 < w.returned
      → Moves w (record w { returned = w.returned - 1; leaving = suc w.leaving })
  give_back : (w : Window) → 0 < w.leaving → Moves w (record w { leaving = w.leaving - 1 })

-- A step of the stage, of a tool or of the context.
pub data Step : Window → Window → Type 0 where
  moves : (v w : Window) → Moves v w → Step v w
  tool_returns :
      (w : Window)
      → 0 < w.executing
      → Step w (record w { executing = w.executing - 1; returned = suc w.returned })
  context_ends : (w : Window) → w.is_done ≡ false → Step w (record w { is_done = true })

pub data Reaches : Window → Window → Type 0 where
  stay : (w : Window) → Reaches w w
  after : (u v w : Window) → Reaches u v → Step v w → Reaches u w

pub record IsBounded (w : Window) : Type 0 where
  pub slots : held w ≤ max_parallel_per_stage
  pub seen : w.max_overlap ≤ max_parallel_per_stage

Moves-IsBounded : (v w : Window) → Moves v w → IsBounded v → IsBounded w
Moves-IsBounded v _ (take_slot _ going some free) h = ground (arith, h, free)
Moves-IsBounded v _ (cancel_call _ done some) h = ground (arith, h, some)
Moves-IsBounded v _ (take_stray _ cancelled some free) h = ground (arith, h, free)
Moves-IsBounded v _ (count_in _ some) h = ground (arith, h, some)
Moves-IsBounded v _ (count_out _ some) h = ground (arith, h, some)
Moves-IsBounded v _ (give_back _ some) h = ground (arith, h, some)

Step-IsBounded : (v w : Window) → Step v w → IsBounded v → IsBounded w
Step-IsBounded v _ (moves _ w m) h = Moves-IsBounded v w m h
Step-IsBounded v _ (tool_returns _ some) h = ground (arith, h, some)
Step-IsBounded v _ (context_ends _ going) h = ground (arith, h)

Reaches-IsBounded : (u w : Window) → IsBounded u → Reaches u w → IsBounded w
Reaches-IsBounded u _ h (stay _) = h
Reaches-IsBounded u _ h (after _ v w before s) =
    Step-IsBounded v w s (Reaches-IsBounded u v h before)

-- In whatever order the loop and the goroutines of a parallel stage take their steps, at most four
-- calls hold a slot, and the largest overlap that is recorded is at most four.
pub fresh-IsBounded : (n : ℕ) (w : Window) → Reaches (fresh n) w → IsBounded w
fresh-IsBounded n w r = Reaches-IsBounded (fresh n) w (ground arith) r
