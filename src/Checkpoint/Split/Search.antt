-- ===== src/Checkpoint/Split/Search.antt =====
-- selectTailSplit and selectCheckpointSplit of internal/session/checkpoint.go: the cut that is found.
use coagent.Base.{
  ℕ, zero, suc, ◌+◌, ◌≤◌, ◌<◌, ◌≡◌, true, false, List, [], ◌∷◌, none, some, inl, inr, ◌⊎◌, leb,
  length, take, drop, arith, Option-cases, Bool-cases, any,
}
use coagent.Transcript.{WireMessage, repair_transcript}
use coagent.Transcript.Sizes.{estimate_tokens}
use coagent.Checkpoint.{CheckpointPrefix}
use coagent.Checkpoint.Split.{
  TailLimit, SelectTailSplitArgs, is_split, search_down, first_split, select_tail_split, try_levels,
  try_bounds, split_args, select_checkpoint_split, raw_cut_legal, tail_levels,
}

search_down-found :
    (args : SelectTailSplitArgs) (n s t : ℕ)
    → search_down args n ≡ some s
    → (args.base < s)
      × (s ≤ n)
      × (is_split args s ≡ true)
      × ((t ≤ s) ⊎ ((n < t) ⊎ (is_split args t ≡ false)))
unfolding search_down
search_down-found args zero s t h = ground (arith, h)
search_down-found args (suc n) s t h = ground (arith, h, search_down-found args n s t)

search_down-none :
    (args : SelectTailSplitArgs) (n t : ℕ)
    → search_down args n ≡ none
    → (t ≤ args.base) ⊎ ((n < t) ⊎ (is_split args t ≡ false))
unfolding search_down
search_down-none args zero t h = ground arith
search_down-none args (suc n) t h = ground (arith, h, search_down-none args n t)

-- What a cut at `s` satisfies.
pub record IsCut (messages : List WireMessage) (base pin estimate : ℕ) (bounds : List ℕ) (s : ℕ)
    : Type 0 where
  pub behind_base : base < s
  pub before_end : s < length messages
  pub before_pin : (pin ≤ base) ⊎ (s ≤ pin)
  pub is_legal : raw_cut_legal (drop s messages) ≡ true
  pub fits :
      any (leb (estimate + estimate_tokens (repair_transcript (take s messages) []))) bounds ≡ true

first_split-bound :
    (args : SelectTailSplitArgs)
    → (first_split args < length args.messages) ⊎ (first_split args ≡ 0)
unfolding first_split
first_split-bound args = ground arith

-- What a found split satisfies under the arguments of one try, whatever its level.
record Cuts (args : SelectTailSplitArgs) (s : ℕ) : Type 0 where
  behind_base : args.base < s
  before_end : s < length args.messages
  before_cap : (args.tail_cap ≡ 0) ⊎ (s ≤ args.tail_cap)
  is_legal : raw_cut_legal (drop s args.messages) ≡ true
  fits :
      leb
        (args.request_base_estimate + estimate_tokens (repair_transcript (take s args.messages) []))
        args.bound
      ≡ true

is_split-parts :
    (args : SelectTailSplitArgs) (s : ℕ)
    → is_split args s ≡ true
    → (raw_cut_legal (drop s args.messages) ≡ true)
      × (leb
            (args.request_base_estimate
              + estimate_tokens (repair_transcript (take s args.messages) []))
            args.bound
          ≡ true)
unfolding is_split
is_split-parts args s h = ground (arith, h)

first_split-cap :
    (args : SelectTailSplitArgs) → (args.tail_cap ≡ 0) ⊎ (first_split args ≤ args.tail_cap)
unfolding first_split
first_split-cap args = ground arith

select_tail_split-Cuts :
    (args : SelectTailSplitArgs) (s : ℕ) → select_tail_split args ≡ some s → Cuts args s
unfolding select_tail_split
select_tail_split-Cuts args s h =
    let found = search_down-found args (first_split args) s 0 h in
    let parts = is_split-parts args s found.2 in
    record {
      behind_base = found.0;
      before_end = omega (arith, found.0, found.1, first_split-bound args);
      before_cap = omega (arith, found.1, first_split-cap args);
      is_legal = parts.0;
      fits = parts.1;
    }

try_levels-Cuts :
    (args : SelectTailSplitArgs) (levels : List TailLimit) (s : ℕ)
    → try_levels args levels ≡ some s
    → Cuts args s
unfolding try_levels
try_levels-Cuts args [] s h = absurd (ground (arith, h))
try_levels-Cuts args (level ∷ levels) s h =
    let args' : SelectTailSplitArgs = record args { limit = level } in
    elim (Option-cases (select_tail_split args')) [
      | inl e ↦ try_levels-Cuts args levels s (ground (arith, e, h))
      | inr (t, e) ↦
          let same : t ≡ s = ground (arith, e, h) in
          let cuts = select_tail_split-Cuts args' s (ground (arith, e, same)) in
          record {
            behind_base = cuts.behind_base;
            before_end = cuts.before_end;
            before_cap = cuts.before_cap;
            is_legal = cuts.is_legal;
            fits = cuts.fits;
          }
    ]

try_bounds-IsCut :
    (args : SelectTailSplitArgs) (bounds : List ℕ) (pin s : ℕ)
    → (pin ≤ args.base) ⊎ (args.tail_cap ≡ pin)
    → try_bounds args bounds ≡ some s
    → IsCut args.messages args.base pin args.request_base_estimate bounds s
unfolding try_bounds
try_bounds-IsCut args [] pin s capped h = absurd (ground (arith, h))
try_bounds-IsCut args (bound ∷ bounds) pin s capped h =
    let args' : SelectTailSplitArgs = record args { bound = bound } in
    elim (Option-cases (try_levels args' tail_levels)) [
      | inl e ↦
          let rest = try_bounds-IsCut args bounds pin s capped (ground (arith, e, h)) in
          record {
            behind_base = rest.behind_base;
            before_end = rest.before_end;
            before_pin = rest.before_pin;
            is_legal = rest.is_legal;
            fits = ground (arith, rest.fits);
          }
      | inr (t, e) ↦
          let same : t ≡ s = ground (arith, e, h) in
          let cuts = try_levels-Cuts args' tail_levels s (ground (arith, e, same)) in
          record {
            behind_base = cuts.behind_base;
            before_end = cuts.before_end;
            before_pin = ground (arith, capped, cuts.before_cap, cuts.behind_base);
            is_legal = cuts.is_legal;
            fits = ground (arith, cuts.fits);
          }
    ]

-- A cut that is selected lies behind the scaffolding of the last summary, leaves a tail that is not
-- empty and is a legal cut of its own, does not pass the pinned completion rows, and leaves a head
-- whose repaired request fits one of the bounds that are tried.
pub select_checkpoint_split-IsCut :
    (messages : List WireMessage) (cp : CheckpointPrefix) (estimate window pin : ℕ)
    (bounds : List ℕ) (s : ℕ)
    → select_checkpoint_split messages cp estimate window pin bounds ≡ some s
    → IsCut messages cp.raw_start pin estimate bounds s
unfolding select_checkpoint_split split_args
select_checkpoint_split-IsCut messages cp estimate window pin bounds s h =
    elim (Bool-cases (leb (length messages) cp.raw_start)) [
      | inl e ↦ absurd (ground (arith, e, h))
      | inr e ↦
          let args = split_args messages cp.raw_start estimate window pin in
          let found : try_bounds args bounds ≡ some s = ground (arith, e, h) in
          try_bounds-IsCut args bounds pin s (ground arith) found
    ]

-- If a split behind the base, and not past where the search starts, meets the limits of the try, then
-- a split is selected, which meets them too and does not lie before it.
pub select_tail_split-largest :
    (args : SelectTailSplitArgs) (t : ℕ)
    → args.base < t
    → t ≤ first_split args
    → is_split args t ≡ true
    → (s : ℕ) × (select_tail_split args ≡ some s) × (t ≤ s) × (is_split args s ≡ true)
unfolding select_tail_split
select_tail_split-largest args t behind started meets =
    elim (Option-cases (search_down args (first_split args))) [
      | inl e ↦ absurd (ground (arith, meets, search_down-none args (first_split args) t e))
      | inr (s, e) ↦
          let found = search_down-found args (first_split args) s t e in
          (s, e, ground (arith, found, meets, started), found.2)
    ]
