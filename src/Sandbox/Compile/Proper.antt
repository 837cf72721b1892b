-- ===== src/Sandbox/Compile/Proper.antt =====
-- internal/sandboxpolicy/paths.go and compile.go: every path of a compiled policy is absolute and
-- cleaned, under what the path library and the operating system document.
use coagent.Base.{
  ℕ, zero, suc, ◌+◌, ◌<◌, ◌≡◌, refl, sym, subst, true, false, List, [], ◌∷◌, ◌++◌, some, inl, inr,
  ◌⊎◌, length, if◌then◌else◌, Bytes, bytes_eq, arith, Bool-cases, Option-cases, All-append,
}
use coagent.Sandbox.{Entry, Mode, Action, separator, is_abs, read_only, read_write}
use coagent.Sandbox.Effective.{AreProper}
use coagent.Sandbox.Compile.{
  Host, Resolution, Rule, RuleMode, resolved, absent, broken, join_all, canonical_from,
  canonical_anchor, expand_path, has_dot_dot, normalize_anchor, normalize_root_anchor,
  rule_action_path, validate_rule, entry_at, mode_for, resolve_anchor, resolve_rule,
  resolve_rule_group, resolve_existing_dir, process_output_entry, resolve_worktree_git_dir,
  project_default_entries, is_blank, grant, given,
}

-- What `filepath.Clean`, `Join`, `Dir` and `EvalSymlinks` document.
pub record HostLaws (host : Host) : Type 0 where
  pub clean_clean : (p : Bytes) → host.clean (host.clean p) ≡ host.clean p
  pub clean_abs : (p : Bytes) → is_abs p ≡ true → is_abs (host.clean p) ≡ true
  pub clean_root : host.clean (separator ∷ []) ≡ separator ∷ []
  pub join_abs : (p q : Bytes) → is_abs p ≡ true → is_abs (host.join p q) ≡ true
  pub dir_abs : (p : Bytes) → is_abs p ≡ true → is_abs (host.dir_of p) ≡ true
  pub dir_shorter :
      (p : Bytes)
      → is_abs p ≡ true
      → bytes_eq p (separator ∷ []) ≡ false
      → length (host.dir_of p) < length p
  pub eval_abs :
      (p r : Bytes) → host.eval_symlinks p ≡ resolved r → is_abs p ≡ true → is_abs r ≡ true

abbrev pub IsProper : Host → Bytes → Type 0
IsProper host p = (host.clean p ≡ p) × (is_abs p ≡ true)

Resolution-cases :
    (r : Resolution) → ((p : Bytes) × (r ≡ resolved p)) ⊎ ((r ≡ absent) ⊎ (r ≡ broken))
Resolution-cases (resolved p) = inl (p, refl)
Resolution-cases absent = inr (inl refl)
Resolution-cases broken = inr (inr refl)

module _ (host : Host) (laws : HostLaws host) where
  clean-IsProper : (p : Bytes) → is_abs p ≡ true → IsProper host (host.clean p)
  clean-IsProper p abs = (laws.clean_clean p, laws.clean_abs p abs)

  join_all_abs :
      (p : Bytes) (parts : List Bytes) → is_abs p ≡ true → is_abs (join_all host p parts) ≡ true
  unfolding join_all
  join_all_abs p [] abs = abs
  join_all_abs p (part ∷ parts) abs =
      join_all_abs (host.join p part) parts (laws.join_abs p part abs)

  canonical_from-IsProper :
      (fuel : ℕ) (p r : Bytes) (parts : List Bytes)
      → is_abs p ≡ true
      → canonical_from host fuel p parts ≡ some r
      → IsProper host r
  unfolding canonical_from
  canonical_from-IsProper zero p r parts abs h = absurd (ground (arith, h))
  canonical_from-IsProper (suc fuel) p r parts abs h =
      elim (Resolution-cases (host.eval_symlinks p)) [
        | inl (q, e) ↦
            let is_r : host.clean (join_all host q parts) ≡ r = ground (arith, h, e) in
            subst (IsProper host) is_r (
              clean-IsProper (join_all host q parts)
                (join_all_abs q parts (laws.eval_abs p q e abs)))
        | inr (inl e) ↦ elim (Bool-cases (bytes_eq p (separator ∷ []))) [
          | inl s ↦ absurd (ground (arith, h, e, s))
          | inr s ↦
              canonical_from-IsProper fuel (host.dir_of p) r (host.base_of p ∷ parts)
                (laws.dir_abs p abs) (ground (arith, h, e, s))
        ]
        | inr (inr e) ↦ absurd (ground (arith, h, e))
      ]

  -- More rounds than the path has bytes give what any larger number of rounds gives.
  canonical_from_enough :
      (n m : ℕ) (p : Bytes) (parts : List Bytes)
      → is_abs p ≡ true
      → length p < n
      → length p < m
      → canonical_from host n p parts ≡ canonical_from host m p parts
  unfolding canonical_from
  canonical_from_enough zero m p parts abs h g = absurd (omega (arith, h))
  canonical_from_enough (suc n) zero p parts abs h g = absurd (omega (arith, g))
  canonical_from_enough (suc n) (suc m) p parts abs h g =
      elim (Bool-cases (bytes_eq p (separator ∷ []))) [
        | inl e ↦ ground (arith, e)
        | inr e ↦
            let shorter = laws.dir_shorter p abs e in
            let rest =
              canonical_from_enough n m (host.dir_of p) (host.base_of p ∷ parts)
                (laws.dir_abs p abs) (omega (arith, h, shorter)) (omega (arith, g, shorter)) in
            ground (arith, e, rest)
      ]

  -- So the rounds of `canonical_anchor` are enough.
  pub canonical_anchor_enough :
      (n : ℕ) (p : Bytes)
      → is_abs p ≡ true
      → length p < n
      → canonical_anchor host p ≡ canonical_from host n p []
  unfolding canonical_anchor
  canonical_anchor_enough n p abs h =
      canonical_from_enough (length p + 1) n p [] abs (omega arith) h

  normalize_anchor-IsProper : (p r : Bytes) → normalize_anchor host p ≡ some r → IsProper host r
  unfolding normalize_anchor canonical_anchor
  normalize_anchor-IsProper p r h = elim (Bool-cases (has_dot_dot [] p)) [
    | inl d ↦ absurd (ground (arith, h, d))
    | inr d ↦ elim (Option-cases (expand_path host p)) [
      | inl e ↦ absurd (ground (arith, h, d, e))
      | inr (q, e) ↦ elim (Bool-cases (is_abs q)) [
        | inr a ↦ absurd (ground (arith, h, d, e, a))
        | inl a ↦
            canonical_from-IsProper (length (host.clean q) + 1) (host.clean q) r []
              (laws.clean_abs q a) (ground (arith, h, d, e, a))
      ]
    ]
  ]

  normalize_root_anchor-IsProper :
      (p r : Bytes) → normalize_root_anchor host p ≡ some r → IsProper host r
  unfolding normalize_root_anchor
  normalize_root_anchor-IsProper p r h = elim (Option-cases (normalize_anchor host p)) [
    | inl e ↦ absurd (ground (arith, h, e))
    | inr (q, e) ↦
        let same : q ≡ r = ground (arith, h, e) in
        subst (IsProper host) same (normalize_anchor-IsProper p q e)
  ]

  entry_at-path :
      (action : Action) (mode : Mode) (anchor : Bytes) (e : Entry)
      → entry_at host action mode anchor ≡ some e
      → e.path ≡ anchor
  unfolding entry_at
  entry_at-path action mode anchor e h = ground (arith, h)

  resolve_anchor-IsProper :
      (mode : RuleMode) (action : Action) (p : Bytes) (e : Entry)
      → resolve_anchor host mode action p ≡ some e
      → IsProper host e.path
  unfolding resolve_anchor
  resolve_anchor-IsProper mode action p e h = elim (Option-cases (normalize_anchor host p)) [
    | inl n ↦ absurd (ground (arith, h, n))
    | inr (q, n) ↦
        let at_q = entry_at-path action (mode_for action mode) q e (ground (arith, h, n)) in
        subst (IsProper host) (sym at_q) (normalize_anchor-IsProper p q n)
  ]

  resolve_rule-IsProper :
      (rule : Rule) (e : Entry) → resolve_rule host rule ≡ some e → IsProper host e.path
  unfolding resolve_rule
  resolve_rule-IsProper rule e h = elim (Bool-cases (validate_rule rule)) [
    | inr v ↦ absurd (ground (arith, h, v))
    | inl v ↦ elim (Option-cases (rule_action_path rule)) [
      | inl n ↦ absurd (ground (arith, h, v, n))
      | inr (ap', n) ↦ resolve_anchor-IsProper rule.mode ap'.0 ap'.1 e (ground (arith, h, v, n))
    ]
  ]

  pub resolve_rule_group-AreProper :
      (rules : List Rule) (es : List Entry)
      → resolve_rule_group host rules ≡ some es
      → AreProper host.clean es
  unfolding resolve_rule_group
  resolve_rule_group-AreProper [] es h =
      let none_left : [] ≡ es = ground (arith, h) in subst (AreProper host.clean) none_left tt
  resolve_rule_group-AreProper (r ∷ rules) es h = elim (Option-cases (resolve_rule host r)) [
    | inl n ↦ absurd (ground (arith, h, n))
    | inr (e, n) ↦ elim (Option-cases (resolve_rule_group host rules)) [
      | inl m ↦ absurd (ground (arith, h, n, m))
      | inr (ds, m) ↦
          let same : e ∷ ds ≡ es = ground (arith, h, n, m) in
          subst (AreProper host.clean) same
            (resolve_rule-IsProper r e n, resolve_rule_group-AreProper rules ds m)
    ]
  ]

  pub resolve_existing_dir-IsProper :
      (p r : Bytes) → resolve_existing_dir host p ≡ some r → IsProper host r
  unfolding resolve_existing_dir
  resolve_existing_dir-IsProper p r h = elim (Option-cases (normalize_root_anchor host p)) [
    | inl n ↦ absurd (ground (arith, h, n))
    | inr (q, n) ↦ elim (Resolution-cases (host.eval_symlinks q)) [
      | inl (s, e) ↦
          let same : host.clean s ≡ r = ground (arith, h, n, e) in
          subst (IsProper host) same
            (clean-IsProper s (laws.eval_abs q s e (normalize_root_anchor-IsProper p q n).1))
      | inr (inl e) ↦ absurd (ground (arith, h, n, e))
      | inr (inr e) ↦ absurd (ground (arith, h, n, e))
    ]
  ]

  resolve_worktree_git_dir-IsProper :
      (p : Bytes) (e : Entry) → resolve_worktree_git_dir host p ≡ some e → IsProper host e.path
  unfolding resolve_worktree_git_dir
  resolve_worktree_git_dir-IsProper p e h = elim (Option-cases (normalize_root_anchor host p)) [
    | inl n ↦ absurd (ground (arith, h, n))
    | inr (q, n) ↦
        let at_q : q ≡ e.path = ground (arith, h, n) in
        subst (IsProper host) at_q (normalize_root_anchor-IsProper p q n)
  ]

  pub project_default_entries-AreProper :
      (root work git : Bytes) (es : List Entry)
      → IsProper host root
      → IsProper host work
      → project_default_entries host root work git ≡ some es
      → AreProper host.clean es
  unfolding project_default_entries
  project_default_entries-AreProper root work git es at_root at_work h =
      let first =
        if bytes_eq work root
        then grant read_write root ∷ []
        else grant read_write root ∷ grant read_write work ∷ [] in
      let proper : AreProper host.clean first = elim (Bool-cases (bytes_eq work root)) [
        | inl s ↦
            let short : grant read_write root ∷ [] ≡ first = ground (arith, s) in
            subst (AreProper host.clean) short (at_root, tt)
        | inr s ↦
            let long : grant read_write root ∷ grant read_write work ∷ [] ≡ first =
              ground (arith, s) in
            subst (AreProper host.clean) long (at_root, (at_work, tt))
      ] in
      elim (Bool-cases (is_blank git)) [
        | inl b ↦
            let same : first ≡ es = ground (arith, h, b) in subst (AreProper host.clean) same proper
        | inr b ↦ elim (Option-cases (resolve_worktree_git_dir host git)) [
          | inl n ↦ absurd (ground (arith, h, b, n))
          | inr (e, n) ↦
              let same : first ++ e ∷ [] ≡ es = ground (arith, h, b, n) in
              subst (AreProper host.clean) same (
                All-append (λ (d : Entry). IsProper host d.path) first (e ∷ []) proper
                  (resolve_worktree_git_dir-IsProper git e n, tt))
        ]
      ]

  pub process_output_entry-IsProper :
      (p : Bytes) (e : Entry) → process_output_entry host p ≡ some e → IsProper host e.path
  unfolding process_output_entry
  process_output_entry-IsProper p e h = elim (Option-cases (normalize_root_anchor host p)) [
    | inl n ↦ absurd (ground (arith, h, n))
    | inr (q, n) ↦
        let rule : Rule = record { allow_path = q; deny_path = []; mode = given read_only } in
        elim (Option-cases (resolve_rule host rule)) [
          | inl m ↦ absurd (ground (arith, h, n, m))
          | inr (d, m) ↦
              let same : d ≡ e = ground (arith, h, n, m) in
              subst (λ (x : Entry). IsProper host x.path) same (resolve_rule-IsProper rule d m)
        ]
  ]
