-- ===== src/LoopDetector/Window.antt =====
-- The window of internal/session/loopdetect.go: what `record` keeps of a round.
use coagent.Base.{
  ◌-◌, ◌≤◌, ◌≡◌, refl, sym, ◌∙◌, ap, ◌↔◌, ◌⊎◌, inl, inr, true, false, List, [], ◌∷◌, ◌++◌, arith,
  length, take, any, length-drop, take-append-drop, str_eq_iff, Bool-cases, ltb,
}
use mathlib.Core.List.{append-nil, append_assoc}
use coagent.LoopDetector.{
  ToolRecord, LoopDetector, record_eq, append_new, trim, record_round, window_size,
}

pub record_eq_iff : (r s : ToolRecord) → (record_eq r s ≡ true) ↔ (r ≡ s)
unfolding record_eq
record_eq_iff r s = ground (arith, str_eq_iff r.name s.name)

pub record_eq_refl : (r : ToolRecord) → record_eq r r ≡ true
record_eq_refl r = (record_eq_iff r r).1 refl

-- Membership by the struct's equality.
abbrev pub Has : ToolRecord → List ToolRecord → Type 0
Has r rs = any (record_eq r) rs ≡ true

-- No record equals an earlier one.
abbrev pub IsDistinct : List ToolRecord → List ToolRecord → Type 0
IsDistinct seen [] = Unit {0}
IsDistinct seen (r ∷ rs) = (any (record_eq r) seen ≡ false) × IsDistinct (r ∷ seen) rs

-- What a round adds to the window.
distinct : List ToolRecord → List ToolRecord → List ToolRecord
distinct seen [] = []
distinct seen (r ∷ rs) = elim (any (record_eq r) seen) [
  | true ↦ distinct seen rs
  | false ↦ r ∷ distinct (r ∷ seen) rs
]

append_new-distinct : (seen rs w : List ToolRecord) → append_new seen rs w ≡ w ++ distinct seen rs
unfolding append_new distinct
append_new-distinct seen [] w = sym (append-nil w)
append_new-distinct seen (r ∷ rs) w = elim (Bool-cases (any (record_eq r) seen)) [
  | inl old ↦ rw (old, append_new, distinct) (append_new-distinct seen rs w)
  | inr new ↦
      rw (new, append_new, distinct)
        (append_new-distinct (r ∷ seen) rs (w ++ r ∷ []) ∙ append_assoc w (r ∷ []) _)
]

distinct-IsDistinct : (seen rs : List ToolRecord) → IsDistinct seen (distinct seen rs)
unfolding distinct
distinct-IsDistinct seen [] = tt
distinct-IsDistinct seen (r ∷ rs) = elim (Bool-cases (any (record_eq r) seen)) [
  | inl old ↦ rw (old, distinct) (distinct-IsDistinct seen rs)
  | inr new ↦ rw (new, distinct) (new, distinct-IsDistinct (r ∷ seen) rs)
]

distinct-Has :
    (x : ToolRecord) (seen rs : List ToolRecord) → Has x rs → Has x seen ⊎ Has x (distinct seen rs)
unfolding distinct
distinct-Has x seen [] h = cc
distinct-Has x seen (r ∷ rs) h = ground (
  arith,
  distinct-Has x seen rs,
  distinct-Has x (r ∷ seen) rs,
  record_eq_iff x r,
  ap (λ (y : ToolRecord). any (record_eq y) seen),
)

distinct-Has_back :
    (x : ToolRecord) (seen rs : List ToolRecord) → Has x (distinct seen rs) → Has x rs
unfolding distinct
distinct-Has_back x seen [] h = h
distinct-Has_back x seen (r ∷ rs) h =
    ground (arith, distinct-Has_back x seen rs, distinct-Has_back x (r ∷ seen) rs)

-- What a slice of the newest 20 leaves: a suffix, the whole list if that is short.
record IsTrimmed (w kept : List ToolRecord) : Type 0 where
  dropped : List ToolRecord
  split : w ≡ dropped ++ kept
  bounded : length kept ≤ window_size
  full : (dropped ≡ []) ⊎ (length kept ≡ window_size)

trim-IsTrimmed : (w : List ToolRecord) → IsTrimmed w (trim w)
unfolding trim
trim-IsTrimmed w = elim (Bool-cases (ltb window_size (length w))) [
  | inl long ↦ rw long (record {
    dropped = take (length w - window_size) w;
    split = sym (take-append-drop (length w - window_size) w);
    bounded = ground (arith, length-drop (length w - window_size) w);
    full = inr (ground (arith, length-drop (length w - window_size) w));
  })
  | inr short ↦
      rw short (record { dropped = []; split = refl; bounded = ground arith; full = inl refl })
]

-- What a round leaves of the window and adds to it.
pub record KeepsNewest (d : LoopDetector) (rs : List ToolRecord) (w : List ToolRecord)
    : Type 0 where
  pub news : List ToolRecord
  pub dropped : List ToolRecord
  pub split : d.window ++ news ≡ dropped ++ w
  pub bounded : length w ≤ window_size
  pub full : (dropped ≡ []) ⊎ (length w ≡ window_size)
  pub once : IsDistinct [] news
  pub same_records : (r : ToolRecord) → any (record_eq r) news ≡ any (record_eq r) rs

-- A round appends each of its different records exactly once and nothing else, and the window keeps
-- the newest entries of what was there and what came: 20 at most, and nothing is dropped unless
-- the window is full.
pub record_round-KeepsNewest :
    (d : LoopDetector) (rs : List ToolRecord) → KeepsNewest d rs (record_round d rs).window
unfolding record_round
record_round-KeepsNewest d rs =
    let t = trim-IsTrimmed (append_new [] rs d.window) in
    record {
      news = distinct [] rs;
      dropped = t.dropped;
      split = sym (append_new-distinct [] rs d.window) ∙ t.split;
      bounded = t.bounded;
      full = t.full;
      once = distinct-IsDistinct [] rs;
      same_records = λ r. ground (arith, distinct-Has r [] rs, distinct-Has_back r [] rs);
    }
