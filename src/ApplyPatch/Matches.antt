-- ===== src/ApplyPatch/Matches.antt =====
-- findHunkAnchor of internal/tool/builtin/apply_patch.go: what it is that old lines match at a place of a
-- file, apart from its loops, and that the loops find such places and count their equal lines.
use coagent.Base.{
  ℕ, zero, suc, ◌+◌, ◌≤◌, ◌≡◌, refl, sym, ap, ◌∙◌, true, false, List, [], ◌∷◌, Option, some, length,
  drop, get_elem?, Bytes, bytes_eq, bytes_eq_refl, bytes_eq_sound, trim_right, arith, Bool-cases,
  inl, inr, if◌then◌else◌, word_sub, word_abs, length-drop, ◌⊎◌, Option-cases,
}
use coagent.ApplyPatch.{
  same, same_trimmed, differs, match_line, match_lines, Candidate, candidate_at,
}

-- There is room for the old lines at index `i`, and each agrees with the line that stands there, but
-- for blanks at their ends.
pub record MatchesAt (lines old : List Bytes) (i : ℕ) : Type 0 where
  pub room : i + length old ≤ length lines
  pub agree :
      (j : ℕ) (got want : Bytes)
      → get_elem? lines (i + j) ≡ some got
      → get_elem? old j ≡ some want
      → trim_right got ≡ trim_right want

-- The old lines that stand at the front of the lines as they are.
abbrev pub equal_lines : List Bytes → List Bytes → ℕ
equal_lines lines [] = 0
equal_lines [] (want ∷ old) = 0
equal_lines (got ∷ lines) (want ∷ old) =
    let rest = equal_lines lines old in if bytes_eq got want then suc rest else rest

abbrev pub equal_at : List Bytes → List Bytes → ℕ → ℕ
equal_at lines old i = equal_lines (drop i lines) old

record MatchesHere (lines old : List Bytes) : Type 0 where
  room : length old ≤ length lines
  agree :
      (j : ℕ) (got want : Bytes)
      → get_elem? lines j ≡ some got
      → get_elem? old j ≡ some want
      → trim_right got ≡ trim_right want

get_elem?-drop :
    (i j : ℕ) (lines : List Bytes) → get_elem? (drop i lines) j ≡ get_elem? lines (i + j)
get_elem?-drop zero j lines =
    let same_place : j ≡ zero + j = omega arith in ap (get_elem? lines) same_place
get_elem?-drop (suc i) j [] = ground arith
get_elem?-drop (suc i) j (x ∷ lines) =
    let same_place : suc (i + j) ≡ suc i + j = omega arith in
    get_elem?-drop i j lines ∙ ap (get_elem? (x ∷ lines)) same_place

MatchesHere-tail :
    (got want : Bytes) (lines old : List Bytes)
    → MatchesHere (got ∷ lines) (want ∷ old)
    → (trim_right got ≡ trim_right want) × MatchesHere lines old
MatchesHere-tail got want lines old h = (
  h.agree 0 got want refl refl,
  record { room = omega (arith, h.room); agree = λ j g w at here. h.agree (suc j) g w at here },
)

agree_cons :
    (got want : Bytes) (lines old : List Bytes) (j : ℕ) (g w : Bytes)
    → trim_right got ≡ trim_right want
    → MatchesHere lines old
    → get_elem? (got ∷ lines) j ≡ some g
    → get_elem? (want ∷ old) j ≡ some w
    → trim_right g ≡ trim_right w
agree_cons got want lines old zero g w first h at here = ground (arith, first, at, here)
agree_cons got want lines old (suc j) g w first h at here = h.agree j g w at here

MatchesHere-cons :
    (got want : Bytes) (lines old : List Bytes)
    → trim_right got ≡ trim_right want
    → MatchesHere lines old
    → MatchesHere (got ∷ lines) (want ∷ old)
MatchesHere-cons got want lines old first h = record {
  room = omega (arith, h.room);
  agree = λ j g w at here. agree_cons got want lines old j g w first h at here;
}

-- The three answers of `match_line`.
match_line-cases :
    (got want : Bytes)
    → ((match_line got want ≡ same)
        × (bytes_eq got want ≡ true)
        × (trim_right got ≡ trim_right want))
      ⊎ ((match_line got want ≡ same_trimmed)
          × (bytes_eq got want ≡ false)
          × (trim_right got ≡ trim_right want))
      ⊎ ((match_line got want ≡ differs) × (trim_right got ≡ trim_right want → ⊥))
unfolding match_line
match_line-cases got want = elim (Bool-cases (bytes_eq got want)) [
  | inl equal ↦ inl (ground (arith, equal), equal, ap trim_right (bytes_eq_sound got want equal))
  | inr other ↦ elim (Bool-cases (bytes_eq (trim_right got) (trim_right want))) [
    | inl equal ↦ inr (
        inl (
          ground (arith, other, equal),
          other,
          bytes_eq_sound (trim_right got) (trim_right want) equal,
        ))
    | inr apart ↦ inr (
        inr (
          ground (arith, other, apart),
          λ agrees. ground (
            arith,
            apart,
            ap (λ (x : Bytes). bytes_eq (trim_right got) x) agrees,
            bytes_eq_refl (trim_right got),
          ),
        ))
  ]
]

-- The counters of the inner loop, when it succeeds.
record Counts (lines old : List Bytes) (exact whitespace : ℕ) (found : Option (ℕ × ℕ))
    : Type 0 where
  end_exact : ℕ
  end_whitespace : ℕ
  counted : found ≡ some (end_exact, end_whitespace)
  exactly : end_exact ≡ exact + equal_lines lines old
  in_all : end_exact + end_whitespace ≡ exact + whitespace + length old

match_lines-MatchesHere :
    (lines old : List Bytes) (exact whitespace : ℕ)
    → MatchesHere lines old
    → Counts lines old exact whitespace (match_lines lines old exact whitespace)
unfolding match_lines
match_lines-MatchesHere lines [] exact whitespace h = record {
  end_exact = exact;
  end_whitespace = whitespace;
  counted = ground arith;
  exactly = omega arith;
  in_all = omega arith;
}
match_lines-MatchesHere [] (want ∷ old) exact whitespace h = absurd (omega (arith, h.room))
match_lines-MatchesHere (got ∷ lines) (want ∷ old) exact whitespace h =
    let tail = MatchesHere-tail got want lines old h in
    elim (match_line-cases got want) [
      | inl equal ↦
          let r = match_lines-MatchesHere lines old (exact + 1) whitespace tail.1 in
          record {
            end_exact = r.end_exact;
            end_whitespace = r.end_whitespace;
            counted = ground (arith, equal.0, r.counted);
            exactly = ground (arith, equal.1, r.exactly);
            in_all = omega (arith, r.in_all);
          }
      | inr (inl trimmed) ↦
          let r = match_lines-MatchesHere lines old exact (whitespace + 1) tail.1 in
          record {
            end_exact = r.end_exact;
            end_whitespace = r.end_whitespace;
            counted = ground (arith, trimmed.0, r.counted);
            exactly = ground (arith, trimmed.1, r.exactly);
            in_all = omega (arith, r.in_all);
          }
      | inr (inr apart) ↦ absurd (apart.1 tail.0)
    ]

match_lines-found :
    (lines old : List Bytes) (exact whitespace : ℕ) (found : ℕ × ℕ)
    → match_lines lines old exact whitespace ≡ some found
    → MatchesHere lines old
unfolding match_lines
match_lines-found lines [] exact whitespace found h = record {
  room = omega arith;
  agree = λ j g w at here. absurd (ground (arith, here));
}
match_lines-found [] (want ∷ old) exact whitespace found h = absurd (ground (arith, h))
match_lines-found (got ∷ lines) (want ∷ old) exact whitespace found h =
    elim (match_line-cases got want) [
      | inl equal ↦
          MatchesHere-cons got want lines old equal.2
            (match_lines-found lines old (exact + 1) whitespace found (ground (arith, h, equal.0)))
      | inr (inl trimmed) ↦
          MatchesHere-cons got want lines old trimmed.2 (
            match_lines-found lines old exact (whitespace + 1) found (ground (arith, h, trimmed.0)))
      | inr (inr apart) ↦ absurd (ground (arith, h, apart.0))
    ]

MatchesAt-MatchesHere :
    (lines old : List Bytes) (i : ℕ) → MatchesAt lines old i → MatchesHere (drop i lines) old
MatchesAt-MatchesHere lines old i h = record {
  room = omega (arith, h.room, length-drop i lines);
  agree = λ j g w at here. h.agree j g w (sym (get_elem?-drop i j lines) ∙ at) here;
}

MatchesHere-MatchesAt :
    (lines old : List Bytes) (i : ℕ)
    → i + length old ≤ length lines
    → MatchesHere (drop i lines) old
    → MatchesAt lines old i
MatchesHere-MatchesAt lines old i room h = record {
  room = room;
  agree = λ j g w at here. h.agree j g w (get_elem?-drop i j lines ∙ at) here;
}

-- The fields of the candidate at a place where the old lines match.
pub record Fields (lines old : List Bytes) (hint i : ℕ) (c : Candidate) : Type 0 where
  pub index : c.index ≡ i
  pub exact : c.exact ≡ equal_at lines old i
  pub in_all : c.exact + c.whitespace ≡ length old
  pub distance : c.distance ≡ word_abs (word_sub i hint)

pub candidate_at-Fields :
    (lines old : List Bytes) (hint i : ℕ)
    → MatchesAt lines old i
    → (c : Candidate) × (candidate_at old hint i (drop i lines) ≡ some c)
      × Fields lines old hint i c
unfolding candidate_at
candidate_at-Fields lines old hint i h =
    let here = MatchesAt-MatchesHere lines old i h in
    let r = match_lines-MatchesHere (drop i lines) old 0 0 here in
    let c : Candidate = record {
      index = i;
      exact = r.end_exact;
      whitespace = r.end_whitespace;
      distance = word_abs (word_sub i hint);
    } in
    (
      c,
      ground (arith, here.room, r.counted),
      record {
        index = refl;
        exact = r.exactly ∙ omega arith;
        in_all = omega (arith, r.in_all);
        distance = refl;
      },
    )

pub candidate_at-MatchesAt :
    (lines old : List Bytes) (hint i : ℕ) (c : Candidate)
    → i + length old ≤ length lines
    → candidate_at old hint i (drop i lines) ≡ some c
    → MatchesAt lines old i
unfolding candidate_at
candidate_at-MatchesAt lines old hint i c room h =
    elim (Option-cases (match_lines (drop i lines) old 0 0)) [
      | inl e ↦ absurd (ground (arith, h, e))
      | inr (found, e) ↦
          MatchesHere-MatchesAt lines old i room (match_lines-found (drop i lines) old 0 0 found e)
    ]
