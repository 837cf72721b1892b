-- ===== src/ApplyPatch/Hunks.antt =====
-- applyHunkAt and replaceLineRange of internal/tool/builtin/apply_patch.go: what a hunk changes.
use coagent.Base.{
  ℕ, zero, ◌+◌, ◌<◌, ◌≡◌, refl, sym, ap, ◌∙◌, subst, Bool, true, List, [], ◌∷◌, ◌++◌, some, length,
  take, drop, Bytes, bytes_eq, bytes_eq_refl, bytes_eq_sound, trim_right, arith, ◌⊎◌, inl, inr,
  Bool-cases, word_sub, drop-drop, take-append-drop, Option-cases, word_add,
}
use mathlib.Core.List.{append_assoc, append-nil}
use coagent.ApplyPatch.{
  PatchHunk, differs, match_line, match_lines, Candidate, candidate_at, find_hunk_anchor, Applied,
  ok, error, PatchError, old_lines, new_lines, clamp_hint, insert_hunk, replace_hunk, apply_hunk_at,
  apply_hunks,
}
use coagent.ApplyPatch.Choice.{find_hunk_anchor-IsCandidate}

-- The lines agree one by one, up to trailing blanks and tabs.
abbrev pub Agree : List Bytes → List Bytes → Type 0
Agree [] [] = zero ≡ 0
Agree (x ∷ xs) (y ∷ ys) = (bytes_eq (trim_right x) (trim_right y) ≡ true) × Agree xs ys
Agree _ _ = zero ≡ 1

match_line-trimmed :
    (got want : Bytes)
    → (match_line got want ≡ differs) ⊎ (bytes_eq (trim_right got) (trim_right want) ≡ true)
unfolding match_line
match_line-trimmed got want = elim (Bool-cases (bytes_eq got want)) [
  | inl e ↦ inr (
      subst (λ (w : Bytes). bytes_eq (trim_right got) (trim_right w) ≡ true)
        (bytes_eq_sound got want e) (bytes_eq_refl (trim_right got)))
  | inr e ↦ ground (arith, e)
]

match_lines-step :
    (got want : Bytes) (lines old : List Bytes) (e w : ℕ) (r : ℕ × ℕ)
    → match_lines (got ∷ lines) (want ∷ old) e w ≡ some r
    → (bytes_eq (trim_right got) (trim_right want) ≡ true)
      × ((match_lines lines old (e + 1) w ≡ some r) ⊎ (match_lines lines old e (w + 1) ≡ some r))
unfolding match_lines
match_lines-step got want lines old e w r h = ground (arith, h, match_line-trimmed got want)

match_lines-Agree :
    (lines old : List Bytes) (e w : ℕ) (r : ℕ × ℕ)
    → match_lines lines old e w ≡ some r
    → Agree (take (length old) lines) old
unfolding match_lines
match_lines-Agree lines [] e w r h = refl
match_lines-Agree [] (want ∷ old) e w r h = ground (arith, h)
match_lines-Agree (got ∷ lines) (want ∷ old) e w r h =
    let s = match_lines-step got want lines old e w r h in
    elim s.1 [
      | inl m ↦ (s.0, match_lines-Agree lines old (e + 1) w r m)
      | inr m ↦ (s.0, match_lines-Agree lines old e (w + 1) r m)
    ]

candidate_at-Agree :
    (old : List Bytes) (hint i : ℕ) (rest : List Bytes) (c : Candidate)
    → candidate_at old hint i rest ≡ some c
    → Agree (take (length old) rest) old
unfolding candidate_at
candidate_at-Agree old hint i rest c h = elim (Option-cases (match_lines rest old 0 0)) [
  | inl e ↦ ground (arith, e, h)
  | inr (r, e) ↦ match_lines-Agree rest old 0 0 r e
]

pub Applied-cases {ℓ} :
    {A : Type ℓ} (a : Applied A) → ((e : PatchError) × (a ≡ error e)) ⊎ ((x : A) × (a ≡ ok x))
Applied-cases (ok x) = inr (x, refl)
Applied-cases (error e) = inl (e, refl)

-- `lines` with a block taken out and another put in: what stands before and behind it is kept.
pub record Replaces (lines old new out : List Bytes) : Type 0 where
  pub before_block : List Bytes
  pub block : List Bytes
  pub behind_block : List Bytes
  pub source : lines ≡ before_block ++ block ++ behind_block
  pub result : out ≡ before_block ++ new ++ behind_block
  pub agrees : Agree block old

split_lines :
    (i n : ℕ) (lines : List Bytes)
    → lines ≡ take i lines ++ take n (drop i lines) ++ drop (i + n) lines
split_lines i n lines =
    sym (take-append-drop i lines)
    ∙ ap (λ (t : List Bytes). take i lines ++ t)
        (sym (take-append-drop n (drop i lines))
          ∙ ap (λ (t : List Bytes). take n (drop i lines) ++ t) (drop-drop n i lines))
    ∙ sym (append_assoc (take i lines) (take n (drop i lines)) (drop (i + n) lines))

replace_hunk-Replaces :
    (lines : List Bytes) (hunk : PatchHunk) (hint delta : ℕ) (out : List Bytes)
    → 0 < length (old_lines hunk.lines)
    → replace_hunk lines hunk hint ≡ ok (out, delta)
    → Replaces lines (old_lines hunk.lines) (new_lines hunk.lines) out
unfolding replace_hunk
replace_hunk-Replaces lines hunk hint delta out nonempty h =
    let old = old_lines hunk.lines in
    elim (Applied-cases (find_hunk_anchor lines old hint)) [
      | inl (x, e) ↦ absurd (ground (arith, h, e))
      | inr (i, e) ↦
          let r = find_hunk_anchor-IsCandidate lines old hint i nonempty e in
          let n = length old in
          let place : r.0.index ≡ i = r.1 in
          let agrees : Agree (take n (drop r.0.index lines)) old =
            candidate_at-Agree old hint r.0.index (drop r.0.index lines) r.0 r.2.found in
          record {
            before_block = take i lines;
            block = take n (drop i lines);
            behind_block = drop (i + n) lines;
            source = split_lines i n lines;
            result = ground (arith, h, e);
            agrees = subst (λ j. Agree (take n (drop j lines)) old) place agrees;
          }
    ]

Agree-nil : (old : List Bytes) → length old ≡ 0 → Agree [] old
Agree-nil [] h = refl
Agree-nil (x ∷ old) h = absurd (omega (arith, h))

insert_hunk-Replaces :
    (lines : List Bytes) (hunk : PatchHunk) (hint delta : ℕ) (missing : Bool) (out : List Bytes)
    → length (old_lines hunk.lines) ≡ 0
    → insert_hunk lines hunk hint missing ≡ ok (out, delta)
    → Replaces lines (old_lines hunk.lines) (new_lines hunk.lines) out
unfolding insert_hunk
insert_hunk-Replaces lines hunk hint delta missing out none_old h =
    let at_hint = clamp_hint (length lines) hint in
    record {
      before_block = take at_hint lines;
      block = [];
      behind_block = drop at_hint lines;
      source =
          sym (take-append-drop at_hint lines)
          ∙ ap (λ (t : List Bytes). t ++ drop at_hint lines)
              (sym (append-nil (take at_hint lines)));
      result = ground (arith, h);
      agrees = Agree-nil (old_lines hunk.lines) none_old;
    }

zero_or_some : (n : ℕ) → (n ≡ 0) ⊎ (0 < n)
zero_or_some n = omega arith

-- A hunk that applies replaces one block of lines, which agrees with the hunk's old lines up to
-- trailing blanks, by the hunk's new lines; the lines before and behind the block are kept, and the
-- numbers of old and of new lines are those of the hunk's header.
pub apply_hunk_at-Replaces :
    (lines : List Bytes) (hunk : PatchHunk) (hint delta : ℕ) (missing : Bool) (out : List Bytes)
    → apply_hunk_at lines hunk hint missing ≡ ok (out, delta)
    → Replaces lines (old_lines hunk.lines) (new_lines hunk.lines) out
      × (length (old_lines hunk.lines) ≡ hunk.old_count)
      × (length (new_lines hunk.lines) ≡ hunk.new_count)
unfolding apply_hunk_at
apply_hunk_at-Replaces lines hunk hint delta missing out h =
    let counts : (length (old_lines hunk.lines) ≡ hunk.old_count)
        × (length (new_lines hunk.lines) ≡ hunk.new_count) =
      ground (arith, h) in
    elim (zero_or_some (length (old_lines hunk.lines))) [
      | inl e ↦ (
        insert_hunk-Replaces lines hunk hint delta missing out e (ground (arith, h, e)),
        counts.0,
        counts.1,
      )
      | inr e ↦ (
        replace_hunk-Replaces lines hunk hint delta out e (ground (arith, h, e)),
        counts.0,
        counts.1,
      )
    ]

-- One block is replaced for each hunk, in order, each in what the hunks before it left.
abbrev pub Rewrites : List PatchHunk → List Bytes → List Bytes → Type 0
Rewrites [] lines out = out ≡ lines
Rewrites (h ∷ hs) lines out =
    (middle : List Bytes) × Replaces lines (old_lines h.lines) (new_lines h.lines) middle
    × Rewrites hs middle out

pub apply_hunks-Rewrites :
    (hs : List PatchHunk) (lines : List Bytes) (delta : ℕ) (missing : Bool) (out : List Bytes)
    → apply_hunks hs lines delta missing ≡ ok out
    → Rewrites hs lines out
unfolding apply_hunks
apply_hunks-Rewrites [] lines delta missing out h = ground (arith, h)
apply_hunks-Rewrites (hunk ∷ hs) lines delta missing out h =
    let hint = word_add (word_sub hunk.old_start 1) delta in
    elim (Applied-cases (apply_hunk_at lines hunk hint missing)) [
      | inl (x, e) ↦ absurd (ground (arith, h, e))
      | inr ((updated, d), e) ↦ (
        updated,
        (apply_hunk_at-Replaces lines hunk hint d missing updated e).0,
        apply_hunks-Rewrites hs updated (word_add delta d) missing out (ground (arith, h, e)),
      )
    ]
