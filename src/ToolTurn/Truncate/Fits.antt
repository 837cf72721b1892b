-- ===== src/ToolTurn/Truncate/Fits.antt =====
-- truncateHeadTail of internal/session/step_tools.go: the limit on its result.
use coagent.Base.{
  ℕ, ◌+◌, ◌-◌, ◌≤◌, ◌<◌, ◌≡◌, subst, Bool, List, ◌++◌, ltb, leb, ◌==◌, ◌&&◌, inl, inr, length, take,
  drop, length-take, length-drop, length-append, arith, Bool-cases,
}
use coagent.ToolTurn.Truncate.{Truncation, choose_cuts, truncate_head_tail}

choose_cuts_bound :
    (runes : List ℕ) (available head_size : ℕ)
    → available < length runes
    → head_size ≤ available
    → ((choose_cuts runes available head_size).0
          + (length runes - (choose_cuts runes available head_size).1)
        ≤ available)
      × ((choose_cuts runes available head_size).0 ≤ (choose_cuts runes available head_size).1)
unfolding choose_cuts
choose_cuts_bound runes available head_size long share =
    (ground (arith, long, share), ground (arith, long, share))

-- What a truncation makes of a text, by whether it is short enough, the marker alone is too long, or
-- a head, the marker and a tail behind the head fit.
pub data Truncates (runes marker : List ℕ) (max_runes : ℕ) : List ℕ → Type 0 where
  kept : length runes ≤ max_runes → Truncates runes marker max_runes runes
  cut : max_runes ≤ length marker → Truncates runes marker max_runes (take max_runes runes)
  split :
      (h t : ℕ)
      → h ≤ t
      → h + length marker + (length runes - t) ≤ max_runes
      → Truncates runes marker max_runes ((take h runes ++ marker) ++ drop t runes)

Truncates-length :
    (runes marker out : List ℕ) (n : ℕ) → Truncates runes marker n out → length out ≤ n
Truncates-length runes marker _ n (kept h) = h
Truncates-length runes marker _ n (cut h) = omega (arith, length-take n runes)
Truncates-length runes marker _ n (split h t before fits) = omega (
  arith,
  fits,
  length-append (take h runes ++ marker) (drop t runes),
  length-append (take h runes) marker,
  length-take h runes,
  length-drop t runes,
)

truncate_head_tail-cases :
    (t : Truncation) (runes : List ℕ) (max_runes : ℕ)
    → ((b : Bool) (n : ℕ) → t.share b n ≤ n)
    → Truncates runes
        (t.marker (length runes - max_runes))
        max_runes
        (truncate_head_tail t runes max_runes)
unfolding truncate_head_tail
truncate_head_tail-cases t runes max_runes share =
    let marker = t.marker (length runes - max_runes) in
    let available = max_runes - length marker in
    let important = ltb 200 available && t.has_important_tail runes in
    let head_size = t.share important available in
    let cuts = choose_cuts runes available head_size in
    let P : List ℕ → Type 0 = Truncates runes marker max_runes in
    elim (Bool-cases (leb (length runes) max_runes)) [
      | inl e ↦
          let same : runes ≡ truncate_head_tail t runes max_runes = ground (arith, e) in
          subst P same (kept (ground (arith, e)))
      | inr e ↦ elim (Bool-cases (available == 0)) [
        | inl z ↦
            let same : take max_runes runes ≡ truncate_head_tail t runes max_runes =
              ground (arith, e, z) in
            subst P same (cut (ground (arith, z)))
        | inr z ↦
            let bound =
              choose_cuts_bound runes available head_size (ground (arith, e))
                (share important available) in
            let same : (take cuts.0 runes ++ marker) ++ drop cuts.1 runes
                ≡ truncate_head_tail t runes max_runes =
              ground (arith, e, z) in
            subst P same (split cuts.0 cuts.1 bound.1 (ground (arith, bound.0, z)))
      ]
    ]

-- A truncated text has at most the given number of runes. It is the text itself if that is short
-- enough, its first runes if the marker alone reaches the limit, and else a head of it, the marker
-- and a tail of it that does not overlap the head. The head's share is at most what is available.
pub truncate_head_tail-Truncates :
    (t : Truncation) (runes : List ℕ) (max_runes : ℕ)
    → ((b : Bool) (n : ℕ) → t.share b n ≤ n)
    → Truncates runes
        (t.marker (length runes - max_runes))
        max_runes
        (truncate_head_tail t runes max_runes)
      × (length (truncate_head_tail t runes max_runes) ≤ max_runes)
truncate_head_tail-Truncates t runes max_runes share =
    let marker = t.marker (length runes - max_runes) in
    let out = truncate_head_tail-cases t runes max_runes share in
    (out, Truncates-length runes marker (truncate_head_tail t runes max_runes) max_runes out)
