-- ===== src/Sandbox/Effective.antt =====
-- EffectiveEntries of internal/sandboxpolicy/decide.go decides as the whole policy does.
use coagent.Base.{
  ℕ, ◌+◌, ◌<◌, ◌≡◌, refl, sym, ap, ◌∙◌, Bool, true, false, not, ◌&&◌, List, [], ◌∷◌, ◌++◌, Option,
  none, some, inl, inr, length, drop, if◌then◌else◌, Bytes, bytes_eq, bytes_eq_refl, bytes_eq_sound,
  arith, Bool-cases, Option-cases, any, All,
}
use coagent.Sandbox.{
  Entry, separator, has_prefix, is_abs, path_within, decide_from, decide, allows_read, allows_write,
  effective_from, effective_entries, is_winner,
}

-- Whether a separator follows the root in the path.
abbrev beneath : Bytes → Bytes → Bool
beneath root path = has_prefix path root && has_prefix (drop (length root) path) (separator ∷ [])

beneath-has_prefix :
    (a b c : Bytes) → beneath a b ≡ true → has_prefix c b ≡ true → beneath a c ≡ true
unfolding has_prefix
beneath-has_prefix [] [] c h k = absurd (ground (arith, h))
beneath-has_prefix [] (y ∷ b) [] h k = absurd (ground (arith, k))
beneath-has_prefix [] (y ∷ b) (z ∷ c) h k = ground (arith, h, k)
beneath-has_prefix (x ∷ a) [] c h k = absurd (ground (arith, h))
beneath-has_prefix (x ∷ a) (y ∷ b) [] h k = absurd (ground (arith, k))
beneath-has_prefix (x ∷ a) (y ∷ b) (z ∷ c) h k = ground (arith, h, k, beneath-has_prefix a b c)

beneath-root : (a : Bytes) → beneath a (separator ∷ []) ≡ true → a ≡ []
unfolding has_prefix
beneath-root [] h = refl
beneath-root (x ∷ []) h = absurd (ground (arith, h))
beneath-root (x ∷ y ∷ a) h = absurd (ground (arith, h))

path_within_refl : (a : Bytes) → path_within a a ≡ true
unfolding path_within
path_within_refl a = ground (arith, bytes_eq_refl a)

-- What lies within a path that lies within a third lies within the third.
path_within_trans :
    (a b c : Bytes)
    → is_abs c ≡ true
    → path_within a b ≡ true
    → path_within b c ≡ true
    → path_within a c ≡ true
unfolding path_within has_prefix
path_within_trans a b c abs h k = elim (Bool-cases (bytes_eq b c)) [
  | inl e ↦ ap (path_within a) (sym (bytes_eq_sound b c e)) ∙ h
  | inr e ↦ elim (Bool-cases (bytes_eq a b)) [
    | inl e' ↦ ap (λ x. path_within x c) (bytes_eq_sound a b e') ∙ k
    | inr e' ↦ elim (Bool-cases (bytes_eq a (separator ∷ []))) [
      | inl r ↦ ground (arith, r)
      | inr r ↦
          let under : beneath a b ≡ true = ground (arith, h, e', r) in
          elim (Bool-cases (bytes_eq b (separator ∷ []))) [
            | inl s ↦
                let is_root = bytes_eq_sound b (separator ∷ []) s in
                let empty = beneath-root a (ap (beneath a) (sym is_root) ∙ under) in
                let inside : beneath [] c ≡ true = ground (arith, abs) in
                let own : beneath a c ≡ true = ap (λ x. beneath x c) empty ∙ inside in
                ground (arith, own)
            | inr s ↦
                let prefix : has_prefix c b ≡ true = ground (arith, k, e, s) in
                let own = beneath-has_prefix a b c under prefix in ground (arith, own)
          ]
    ]
  ]
]

abbrev pub entry_of : Option (ℕ × Entry) → Option Entry
entry_of none = none
entry_of (some (i, e)) = some e

-- The last entry that the path lies within.
unfoldable pub last_of : Bytes → List Entry → Option Entry
last_of path [] = none
last_of path (e ∷ es) = elim (last_of path es) [
  | some w ↦ some w
  | none ↦ if path_within e.path path then some e else none
]

abbrev or_else {ℓ} : {A : Type ℓ} → Option A → Option A → Option A
or_else none o = o
or_else (some a) o = some a

decide_from-last_of :
    (i : ℕ) (es : List Entry) (path : Bytes) (w : Option (ℕ × Entry))
    → entry_of (decide_from i es path w) ≡ or_else (last_of path es) (entry_of w)
unfolding decide_from last_of
decide_from-last_of i [] path w = refl
decide_from-last_of i (e ∷ es) path w =
    let w' = if path_within e.path path then some (i, e) else w in
    ground (arith, decide_from-last_of (i + 1) es path w')

pub decide-last_of :
    (clean : Bytes → Bytes) (es : List Entry) (path : Bytes)
    → is_abs path ≡ true
    → entry_of (decide clean es path) ≡ last_of (clean path) es
unfolding decide
decide-last_of clean es path abs = elim (Option-cases (last_of (clean path) es)) [
  | inl e ↦ ground (arith, abs, e, decide_from-last_of 0 es (clean path) none)
  | inr (w, e) ↦ ground (arith, abs, e, decide_from-last_of 0 es (clean path) none)
]

-- Whether the path lies within one of the entries.
abbrev pub is_covered : Bytes → List Entry → Bool
is_covered path es = any (λ (e : Entry). path_within e.path path) es

-- An entry that wins later has a later index.
decide_from_later :
    (i j k : ℕ) (es : List Entry) (path : Bytes) (e : Entry)
    → i < j
    → i < k
    → is_winner i (decide_from k es path (some (j, e))) ≡ false
unfolding decide_from
decide_from_later i j k [] path e h g = ground (arith, h)
decide_from_later i j k (f ∷ es) path e h g = ground (
  arith,
  h,
  g,
  decide_from_later i k (k + 1) es path f g (omega (arith, g)),
  decide_from_later i j (k + 1) es path e h (omega (arith, g)),
)

decide_from-is_covered :
    (i k : ℕ) (es : List Entry) (path : Bytes) (e : Entry)
    → i < k
    → is_winner i (decide_from k es path (some (i, e))) ≡ not (is_covered path es)
unfolding decide_from
decide_from-is_covered i k [] path e h = ground arith
decide_from-is_covered i k (f ∷ es) path e h = ground (
  arith,
  h,
  decide_from_later i k (k + 1) es path f h (omega (arith, h)),
  decide_from-is_covered i (k + 1) es path e (omega (arith, h)),
)

decide_from-append :
    (i : ℕ) (ds es : List Entry) (path : Bytes) (w : Option (ℕ × Entry))
    → (v : Option (ℕ × Entry)) × (decide_from i (ds ++ es) path w
        ≡ decide_from (i + length ds) es path v)
unfolding decide_from
decide_from-append i [] es path w = (w, ap (λ k. decide_from k es path w) (omega arith))
decide_from-append i (d ∷ ds) es path w =
    let rest =
      decide_from-append (i + 1) ds es path (if path_within d.path path then some (i, d) else w) in
    (rest.0, rest.1 ∙ ap (λ k. decide_from k es path rest.0) (omega arith))

-- The entries that no later entry covers.
survivors : List Entry → List Entry
survivors [] = []
survivors (e ∷ es) = let rest = survivors es in if is_covered e.path es then rest else e ∷ rest

-- Each path is absolute and as the library cleans it.
abbrev pub AreProper : (Bytes → Bytes) → List Entry → Type 0
AreProper clean es = All (λ e. (clean e.path ≡ e.path) × (is_abs e.path ≡ true)) es

append_snoc {ℓ} :
    {A : Type ℓ} (xs : List A) (y : A) (ys : List A) → (xs ++ y ∷ []) ++ ys ≡ xs ++ y ∷ ys
append_snoc [] y ys = refl
append_snoc (x ∷ xs) y ys = ap (λ zs. x ∷ zs) (append_snoc xs y ys)

length_snoc {ℓ} : {A : Type ℓ} (xs : List A) (y : A) → length (xs ++ y ∷ []) ≡ length xs + 1
length_snoc [] y = refl
length_snoc (x ∷ xs) y = ground (arith, length_snoc xs y)

is_winner-decide :
    (clean : Bytes → Bytes) (ds es : List Entry) (e : Entry)
    → clean e.path ≡ e.path
    → is_abs e.path ≡ true
    → is_winner (length ds) (decide clean (ds ++ e ∷ es) e.path) ≡ not (is_covered e.path es)
unfolding decide decide_from
is_winner-decide clean ds es e cleaned abs =
    let parts = decide_from-append 0 ds (e ∷ es) e.path none in
    let own = path_within_refl e.path in
    ground (
      arith,
      cleaned,
      abs,
      own,
      parts.1,
      decide_from-is_covered (length ds) (length ds + 1) es e.path e (omega arith),
    )

effective_from-survivors :
    (clean : Bytes → Bytes) (ds es : List Entry)
    → AreProper clean es
    → effective_from clean (ds ++ es) (length ds) es ≡ survivors es
unfolding effective_from survivors
effective_from-survivors clean ds [] proper = refl
effective_from-survivors clean ds (e ∷ es) proper =
    let rest : effective_from clean (ds ++ e ∷ es) (length ds + 1) es ≡ survivors es =
      ap (λ n. effective_from clean (ds ++ e ∷ es) n es) (sym (length_snoc ds e))
      ∙ ap (λ all. effective_from clean all (length (ds ++ e ∷ [])) es) (sym (append_snoc ds e es))
      ∙ effective_from-survivors clean (ds ++ e ∷ []) es proper.1 in
    ground (arith, rest, is_winner-decide clean ds es e proper.0.0 proper.0.1)

is_covered_within :
    (q path : Bytes) (es : List Entry)
    → is_abs path ≡ true
    → path_within q path ≡ true
    → is_covered q es ≡ true
    → is_covered path es ≡ true
is_covered_within q path [] abs within h = h
is_covered_within q path (e ∷ es) abs within h =
    ground (
      arith,
      h,
      path_within_trans e.path q path abs,
      within,
      is_covered_within q path es abs within,
    )

last_of-is_covered :
    (path : Bytes) (es : List Entry) → last_of path es ≡ none → is_covered path es ≡ false
unfolding last_of
last_of-is_covered path [] h = refl
last_of-is_covered path (e ∷ es) h = ground (arith, h, last_of-is_covered path es)

last_of-survivors :
    (path : Bytes) (es : List Entry)
    → is_abs path ≡ true
    → last_of path (survivors es) ≡ last_of path es
unfolding last_of survivors
last_of-survivors path [] abs = refl
last_of-survivors path (e ∷ es) abs =
    let rest = last_of-survivors path es abs in
    let covered = is_covered_within e.path path es abs in
    elim (Option-cases (last_of path es)) [
      | inl n ↦ ground (arith, n, rest, covered, last_of-is_covered path es n)
      | inr (w, s) ↦ ground (arith, s, rest)
    ]

pub effective_entries-last_of :
    (clean : Bytes → Bytes) (es : List Entry) (path : Bytes)
    → AreProper clean es
    → is_abs path ≡ true
    → last_of path (effective_entries clean es) ≡ last_of path es
unfolding effective_entries
effective_entries-last_of clean es path proper abs =
    ap (last_of path) (effective_from-survivors clean [] es proper) ∙ last_of-survivors path es abs

-- Reading and writing depend on the entry that decides alone.
entry_of-allows :
    (clean : Bytes → Bytes) (ds es : List Entry) (path : Bytes)
    → entry_of (decide clean ds path) ≡ entry_of (decide clean es path)
    → (allows_read clean ds path ≡ allows_read clean es path)
      × (allows_write clean ds path ≡ allows_write clean es path)
unfolding allows_read allows_write
entry_of-allows clean ds es path same = (ground (arith, same), ground (arith, same))

-- The effective entries decide every path as the whole policy does, by the same entry: leaving out
-- the rules that a later ancestor rule supersedes gives and takes no authority. The entries' paths are
-- absolute and cleaned, and cleaning an absolute path leaves it absolute.
pub decide-effective_entries :
    (clean : Bytes → Bytes) (es : List Entry) (path : Bytes)
    → AreProper clean es
    → ((q : Bytes) → is_abs q ≡ true → is_abs (clean q) ≡ true)
    → (entry_of (decide clean (effective_entries clean es) path) ≡ entry_of (decide clean es path))
      × ((allows_read clean (effective_entries clean es) path ≡ allows_read clean es path)
          × (allows_write clean (effective_entries clean es) path ≡ allows_write clean es path))
unfolding decide
decide-effective_entries clean es path proper keeps =
    let effective = effective_entries clean es in
    let same : entry_of (decide clean effective path) ≡ entry_of (decide clean es path) =
      elim (Bool-cases (is_abs path)) [
        | inl abs ↦
            decide-last_of clean effective path abs
            ∙ effective_entries-last_of clean es (clean path) proper (keeps path abs)
            ∙ sym (decide-last_of clean es path abs)
        | inr rel ↦ ground (arith, rel)
      ] in
    (same, entry_of-allows clean effective es path same)
