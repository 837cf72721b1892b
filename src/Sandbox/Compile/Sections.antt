-- ===== src/Sandbox/Compile/Sections.antt =====
-- internal/sandboxpolicy/validate.go: the rules that the configuration has for a project. The projects
-- are a map, which the source goes over in no fixed order: here they are a list in any order.
use coagent.Base.{
  ◌≡◌, refl, sym, ap, ◌∙◌, Bool, true, false, not, ◌&&◌, ◌||◌, List, [], ◌∷◌, ◌++◌, Option, none,
  some, if◌then◌else◌, Bytes, bytes_eq, bytes_eq_refl, bytes_eq_sound, any, all, arith, Bool-cases,
  Option-cases, inl, inr, ◌⊎◌,
}
use mathlib.Core.List.{Permᴰ}
use coagent.Sandbox.Compile.{Host, Rule, is_blank, normalize_root_anchor, validate_rule}

abbrev pub Projects : Type 0
Projects = List (Bytes × List Rule)

-- The flag `enabled` is read by the callers.
pub record Section : Type 0 where
  pub rules : List Rule
  pub projects : Projects

module _ (host : Host) where
  -- `CanonicalProjectKey`.
  canonical_project_key : Bytes → Option Bytes
  canonical_project_key key = normalize_root_anchor host key

  -- One project of the loop of `ValidateSection`: its root is new, and its rules are valid.
  abbrev is_valid_project : Option Bytes → List Bytes → List Rule → Bool
  is_valid_project none seen rules = false
  is_valid_project (some root) seen rules =
      not (any (bytes_eq root) seen) && all validate_rule rules

  abbrev see : Option Bytes → List Bytes → List Bytes
  see none seen = seen
  see (some root) seen = root ∷ seen

  validate_projects : List Bytes → Projects → Bool
  unfolding canonical_project_key
  validate_projects seen [] = true
  validate_projects seen ((key, rules) ∷ projects) =
      is_valid_project (canonical_project_key key) seen rules
      && validate_projects (see (canonical_project_key key) seen) projects

  -- `ValidateSection`; the order of the keys decides only which error it gives.
  unfoldable pub validate_section : Section → Bool
  unfolding validate_projects
  validate_section s = all validate_rule s.rules && validate_projects [] s.projects

  -- The loop of `lookupProjectRules`; a key that has no root is an error.
  abbrev rules_at : Option Bytes → Bytes → List Rule → Option (List Rule) → Option (List Rule)
  rules_at none root rules rest = none
  rules_at (some resolved) root rules rest = if bytes_eq resolved root then some rules else rest

  lookup_from : Bytes → Projects → Option (List Rule)
  unfolding canonical_project_key
  lookup_from root [] = some []
  lookup_from root ((key, rules) ∷ projects) =
      rules_at (canonical_project_key key) root rules (lookup_from root projects)

  lookup_project_rules : Section → Bytes → Option (List Rule)
  unfolding lookup_from
  lookup_project_rules s canonical_root = elim (canonical_project_key canonical_root) [
    | none ↦ none
    | some root ↦ lookup_from root s.projects
  ]

  abbrev append_rules : Option (List Rule) → Option (List Rule) → Option (List Rule)
  append_rules none own = none
  append_rules (some rules) none = none
  append_rules (some rules) (some own) = some (rules ++ own)

  unfoldable pub select_project_rules : Section → Bytes → Bytes → Option (List Rule)
  unfolding lookup_project_rules
  select_project_rules s canonical_root source_repo_root =
      if not (validate_section s)
      then none
      else append_rules
          (if is_blank source_repo_root then some [] else lookup_project_rules s source_repo_root)
          (lookup_project_rules s canonical_root)

  -- Two lists of roots that have the same members.
  Alike : List Bytes → List Bytes → Type 0
  Alike s t = (x : Bytes) → any (bytes_eq x) s ≡ any (bytes_eq x) t

  see-Alike : (o : Option Bytes) (s t : List Bytes) → Alike s t → Alike (see o s) (see o t)
  unfolding Alike
  see-Alike none s t alike x = alike x
  see-Alike (some root) s t alike x = ap (λ (b : Bool). bytes_eq x root || b) (alike x)

  validity-Alike :
      (o : Option Bytes) (s t : List Bytes) (rules : List Rule)
      → Alike s t
      → is_valid_project o s rules ≡ is_valid_project o t rules
  unfolding Alike
  validity-Alike none s t rules alike = refl
  validity-Alike (some root) s t rules alike =
      ap (λ (b : Bool). not b && all validate_rule rules) (alike root)

  validate_projects-Alike :
      (s t : List Bytes) (l : Projects) → Alike s t → validate_projects s l ≡ validate_projects t l
  unfolding validate_projects
  validate_projects-Alike s t [] alike = refl
  validate_projects-Alike s t ((key, rules) ∷ l) alike =
      let o = canonical_project_key key in
      ground (
        arith,
        validity-Alike o s t rules alike,
        validate_projects-Alike (see o s) (see o t) l (see-Alike o s t alike),
      )

  bytes_eq_sym : (x y : Bytes) → bytes_eq x y ≡ bytes_eq y x
  bytes_eq_sym [] [] = refl
  bytes_eq_sym [] (b ∷ y) = refl
  bytes_eq_sym (a ∷ x) [] = refl
  bytes_eq_sym (a ∷ x) (b ∷ y) = ground (arith, bytes_eq_sym x y)

  swapped-Alike : (p q : Bytes) (s : List Bytes) → Alike (q ∷ p ∷ s) (p ∷ q ∷ s)
  unfolding Alike
  swapped-Alike p q s x = ground arith

  -- Two projects may stand in either order.
  validate_swapped :
      (s : List Bytes) (a b : Option Bytes) (ra rb : List Rule) (l : Projects)
      → is_valid_project a s ra
          && (is_valid_project b (see a s) rb && validate_projects (see b (see a s)) l)
        ≡ is_valid_project b s rb
          && (is_valid_project a (see b s) ra && validate_projects (see a (see b s)) l)
  validate_swapped s none none ra rb l = refl
  validate_swapped s none (some q) ra rb l = ground arith
  validate_swapped s (some p) none ra rb l = ground arith
  validate_swapped s (some p) (some q) ra rb l =
      let rest = validate_projects-Alike (q ∷ p ∷ s) (p ∷ q ∷ s) l (swapped-Alike p q s) in
      ground (arith, rest, bytes_eq_sym p q)

  validate_projects-perm :
      (s : List Bytes) {l m : Projects} → Permᴰ l m → validate_projects s l ≡ validate_projects s m
  unfolding validate_projects
  validate_projects-perm s Permᴰ.nil = refl
  validate_projects-perm s (Permᴰ.cons {b = b} {l₁ = l} same p) =
      ap (λ (x : Bytes × List Rule). validate_projects s (x ∷ l)) same
      ∙ ap (λ (v : Bool). is_valid_project (canonical_project_key b.0) s b.1 && v)
          (validate_projects-perm (see (canonical_project_key b.0) s) p)
  validate_projects-perm s (Permᴰ.swap {a = a} {b = b} {a' = c} {b' = e} {l = l} same same') =
      validate_swapped s (canonical_project_key a.0) (canonical_project_key b.0) a.1 b.1 l
      ∙ ap (λ (x : Bytes × List Rule). validate_projects s (b ∷ x ∷ l)) same
      ∙ ap (λ (x : Bytes × List Rule). validate_projects s (x ∷ e ∷ l)) same'
  validate_projects-perm s (Permᴰ.trans p q) =
      validate_projects-perm s p ∙ validate_projects-perm s q

  -- The roots of two valid projects differ, so that a look-up may meet either first.
  rules_swapped :
      (s : List Bytes) (root : Bytes) (a b : Option Bytes) (ra rb : List Rule)
      (rest : Option (List Rule))
      → is_valid_project a s ra ≡ true
      → is_valid_project b (see a s) rb ≡ true
      → rules_at a root ra (rules_at b root rb rest) ≡ rules_at b root rb (rules_at a root ra rest)
  rules_swapped s root none b ra rb rest h k = absurd (ground (arith, h))
  rules_swapped s root (some p) none ra rb rest h k = absurd (ground (arith, k))
  rules_swapped s root (some p) (some q) ra rb rest h k = elim (Bool-cases (bytes_eq p root)) [
    | inr other ↦ ground (arith, other)
    | inl this ↦ elim (Bool-cases (bytes_eq q root)) [
      | inr other ↦ ground (arith, other)
      | inl that ↦
          let same : q ≡ p = bytes_eq_sound q root that ∙ sym (bytes_eq_sound p root this) in
          let equal : bytes_eq q p ≡ true =
            ap (λ (x : Bytes). bytes_eq q x) (sym same) ∙ bytes_eq_refl q in
          absurd (ground (arith, k, equal))
    ]
  ]

  lookup_from-perm :
      (s : List Bytes) (root : Bytes) {l m : Projects}
      → Permᴰ l m
      → validate_projects s l ≡ true
      → lookup_from root l ≡ lookup_from root m
  unfolding lookup_from validate_projects
  lookup_from-perm s root Permᴰ.nil h = refl
  lookup_from-perm s root (Permᴰ.cons {a = a} {b = b} {l₁ = l} {l₂ = k} same p) h =
      let o = canonical_project_key a.0 in
      let tail : validate_projects (see o s) l ≡ true = ground (arith, h) in
      ap (λ (rest : Option (List Rule)). rules_at o root a.1 rest)
        (lookup_from-perm (see o s) root p tail)
      ∙ ap (λ (x : Bytes × List Rule). lookup_from root (x ∷ k)) same
  lookup_from-perm s root (Permᴰ.swap {a = a} {b = b} {a' = c} {b' = e} {l = l} same same') h =
      let o = canonical_project_key a.0 in
      let n = canonical_project_key b.0 in
      rules_swapped s root o n a.1 b.1 (lookup_from root l) (ground (arith, h)) (ground (arith, h))
      ∙ ap (λ (x : Bytes × List Rule). lookup_from root (b ∷ x ∷ l)) same
      ∙ ap (λ (x : Bytes × List Rule). lookup_from root (x ∷ e ∷ l)) same'
  lookup_from-perm s root (Permᴰ.trans p q) h =
      lookup_from-perm s root p h ∙ lookup_from-perm s root q (sym (validate_projects-perm s p) ∙ h)

  lookup_project_rules-perm :
      (rules : List Rule) (root : Bytes) {l m : Projects}
      → Permᴰ l m
      → validate_projects [] l ≡ true
      → lookup_project_rules (record { rules = rules; projects = l }) root
        ≡ lookup_project_rules (record { rules = rules; projects = m }) root
  unfolding lookup_project_rules
  lookup_project_rules-perm rules root p h = elim (Option-cases (canonical_project_key root)) [
    | inl unknown ↦ ground (arith, unknown)
    | inr known ↦ let same = lookup_from-perm [] known.0 p h in ground (arith, known.1, same)
  ]

  is_same_root : Option Bytes → Option Bytes → Bool
  is_same_root (some p) (some q) = bytes_eq p q
  is_same_root _ _ = false

  -- A project of the list has this root.
  is_rooted_at : Option Bytes → Projects → Bool
  unfolding is_same_root canonical_project_key
  is_rooted_at o [] = false
  is_rooted_at o ((key, rules) ∷ l) = is_same_root o (canonical_project_key key) || is_rooted_at o l

  -- Two keys name one root.
  pub has_shared_root : Projects → Bool
  unfolding is_rooted_at canonical_project_key
  has_shared_root [] = false
  has_shared_root ((key, rules) ∷ l) =
      is_rooted_at (canonical_project_key key) l || has_shared_root l

  abbrev is_seen : List Bytes → Option Bytes → Bool
  is_seen seen none = false
  is_seen seen (some root) = any (bytes_eq root) seen

  -- A project of the list has one of these roots.
  is_rooted_in : List Bytes → Projects → Bool
  unfolding canonical_project_key
  is_rooted_in seen [] = false
  is_rooted_in seen ((key, rules) ∷ l) =
      is_seen seen (canonical_project_key key) || is_rooted_in seen l

  is_seen_cons :
      (root : Bytes) (seen : List Bytes) (o : Option Bytes)
      → is_seen (root ∷ seen) o ≡ is_same_root (some root) o || is_seen seen o
  unfolding is_same_root
  is_seen_cons root seen none = refl
  is_seen_cons root seen (some p) = ground (arith, bytes_eq_sym p root)

  is_rooted_in_cons :
      (root : Bytes) (seen : List Bytes) (l : Projects)
      → is_rooted_in (root ∷ seen) l ≡ false
      → (is_rooted_at (some root) l ≡ false) × (is_rooted_in seen l ≡ false)
  unfolding is_rooted_in is_rooted_at
  is_rooted_in_cons root seen [] h = (refl, refl)
  is_rooted_in_cons root seen ((key, rules) ∷ l) h =
      let here = is_seen_cons root seen (canonical_project_key key) in
      let rest = is_rooted_in_cons root seen l (ground (arith, h)) in
      (ground (arith, h, here, rest), ground (arith, h, here, rest))

  -- In a list that is valid behind some roots, no project has one of them.
  validate_projects_unseen :
      (seen : List Bytes) (l : Projects)
      → validate_projects seen l ≡ true
      → is_rooted_in seen l ≡ false
  unfolding validate_projects is_rooted_in
  validate_projects_unseen seen [] h = refl
  validate_projects_unseen seen ((key, rules) ∷ l) h =
      elim (Option-cases (canonical_project_key key)) [
        | inl unknown ↦ absurd (ground (arith, h, unknown))
        | inr (root, known) ↦
            let tail = validate_projects_unseen (root ∷ seen) l (ground (arith, h, known)) in
            let rest = is_rooted_in_cons root seen l tail in ground (arith, h, known, rest)
      ]

  validate_projects_unshared :
      (seen : List Bytes) (l : Projects)
      → validate_projects seen l ≡ true
      → has_shared_root l ≡ false
  unfolding validate_projects has_shared_root
  validate_projects_unshared seen [] h = refl
  validate_projects_unshared seen ((key, rules) ∷ l) h =
      elim (Option-cases (canonical_project_key key)) [
        | inl unknown ↦ absurd (ground (arith, h, unknown))
        | inr (root, known) ↦
            let valid : validate_projects (root ∷ seen) l ≡ true = ground (arith, h, known) in
            let rest =
              is_rooted_in_cons root seen l (validate_projects_unseen (root ∷ seen) l valid) in
            let others = validate_projects_unshared (root ∷ seen) l valid in
            ground (arith, known, rest, others)
      ]

  -- SelectProjectRules gives the same rules, or the same refusal, whatever the order in which it goes
  -- over the map of projects; and it refuses a section in which two keys name one root.
  pub select_project_rules-perm :
      (rules : List Rule) (canonical_root source_repo_root : Bytes) {l m : Projects}
      → Permᴰ l m
      → (select_project_rules
            (record { rules = rules; projects = l })
            canonical_root
            source_repo_root
          ≡ select_project_rules
              (record { rules = rules; projects = m })
              canonical_root
              source_repo_root)
        × ((select_project_rules
                (record { rules = rules; projects = l })
                canonical_root
                source_repo_root
              ≡ none)
            ⊎ (has_shared_root l ≡ false))
  unfolding select_project_rules validate_section
  select_project_rules-perm rules canonical_root source_repo_root {l} {m} p =
      let valid = validate_projects-perm [] p in
      elim (Bool-cases (validate_projects [] l)) [
        | inr refused ↦ (ground (arith, refused, valid), inl (ground (arith, refused)))
        | inl fine ↦
            let own = lookup_project_rules-perm rules canonical_root p fine in
            let source = lookup_project_rules-perm rules source_repo_root p fine in
            (ground (arith, fine, valid, own, source), inr (validate_projects_unshared [] l fine))
      ]
