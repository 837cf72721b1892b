-- ===== src/Budget/Steps/Effects/Mutates.antt =====
-- internal/sessionstore/budget_state_store.go: what the commands that arm and clear a budget have changed.
use coagent.Base.{
  ℕ, ◌≡◌, refl, sym, subst, true, false, Option, none, some, ◌==◌, arith, Bool-cases, Option-cases,
  inl, inr,
}
use coagent.Budget.{
  cleared, draining, Record, conflict, not_found, Attempt, ok, fails, ◌>>=◌, or_fails,
}
use coagent.Budget.Store.{
  Db, direct_key, Activation, ActivationState, pending, consumed, expired, insert_output_tx,
  commit_loop, write_budget,
}
use coagent.Budget.Park.{phase_eq}
use coagent.Budget.Mutate.{
  Mutation, with_grant, validate_budget_mutation, budget_root_facts, next_budget_generation_tx,
  is_same_grant, replay_consumed, replay_budget_mutation, settle, armed_record, arm_new, arm,
  absent_record, clear_row, clear,
}
use coagent.Budget.Steps.{Operation}
use coagent.Budget.Steps.Effects.{
  Keeps, Change, arms_absent, arms, releases_absent, Effect, bind_ok, IsKeyed, written-Writes,
  insert_output_tx-direct, settle-Keeps,
}
use coagent.Budget.Steps.Effects.Parks.{released_over, not_draining}

replay_consumed-Keeps :
    (d e : Db) (m : Mutation) (a : Activation) → replay_consumed d m a ≡ ok (some e) → Keeps d e
replay_consumed-Keeps d e m a h = elim (Bool-cases (is_same_grant a m)) [
  | inr other ↦ absurd (ground (arith, h, other))
  | inl this ↦
      let begun : (or_fails (d.budgets m.root_session_id) not_found >>= λ r.
      insert_output_tx d m.grant_session_id (direct_key m.tool_call_id) commit_loop >>= λ out.
      ok (some out.0))
          ≡ ok (some e) =
        ground (arith, h, this) in
      let found = bind_ok (or_fails (d.budgets m.root_session_id) not_found) _ (some e) begun in
      let out =
        bind_ok (insert_output_tx d m.grant_session_id (direct_key m.tool_call_id) commit_loop) _
          (some e) found.2 in
      let same : out.0.0 ≡ e = ground (arith, out.2) in
      subst (λ (x : Db). Keeps d x) same
        (insert_output_tx-direct d m.grant_session_id m.tool_call_id commit_loop out.0 out.1)
]

abbrev replay_row : Db → Mutation → Activation → ActivationState → Attempt (Option Db)
replay_row d m a pending = ok none
replay_row d m a consumed = replay_consumed d m a
replay_row d m a expired = fails conflict

replay_row-Keeps :
    (d e : Db) (m : Mutation) (a : Activation) (st : ActivationState)
    → replay_row d m a st ≡ ok (some e)
    → Keeps d e
replay_row-Keeps d e m a pending h = absurd (ground (arith, h))
replay_row-Keeps d e m a consumed h = replay_consumed-Keeps d e m a h
replay_row-Keeps d e m a expired h = absurd (ground (arith, h))

replay_budget_mutation-Keeps :
    (d e : Db) (m : Mutation) → replay_budget_mutation d m ≡ ok (some e) → Keeps d e
unfolding replay_budget_mutation
replay_budget_mutation-Keeps d e m h = elim (Option-cases (d.activations m.input_id)) [
  | inl none_there ↦ absurd (ground (arith, h, none_there))
  | inr there ↦ elim (Bool-cases (there.0.session_id == m.grant_session_id)) [
    | inr other ↦ absurd (ground (arith, h, there.1, other))
    | inl this ↦
        let begun : replay_row d m there.0 there.0.activation_state ≡ ok (some e) =
          ground (arith, h, there.1, this) in
        replay_row-Keeps d e m there.0 there.0.activation_state begun
  ]
]

arm_new-Effect :
    (op : Operation) (d e : Db) (now baseline : ℕ) (m : Mutation)
    → IsKeyed d
    → arm_new d now baseline m ≡ ok e
    → Effect op d e
unfolding next_budget_generation_tx Effect
arm_new-Effect op d e now baseline m keyed h =
    let next = bind_ok (next_budget_generation_tx d m.root_session_id) _ e h in
    let s : Record = armed_record now next.0 baseline m in
    let wrote = bind_ok (write_budget d s) _ e next.2 in
    let keeps = settle-Keeps wrote.0 e m wrote.2 in
    elim (Option-cases (d.budgets m.root_session_id)) [
      | inl none_there ↦ inr (
        s,
        written-Writes op d wrote.0 e s wrote.1
            (subst (λ (o : Option Record). Change op o s) (sym none_there)
              (arms_absent s refl (ground (arith, next.1, none_there))))
            keeps,
      )
      | inr there ↦ inr (
        s,
        written-Writes op d wrote.0 e s wrote.1
            (subst (λ (o : Option Record). Change op o s) (sym there.1)
              (arms there.0 s refl (ground (arith, next.1, there.1))
                (λ was drain. ground (arith, next.1, there.1, was, drain))))
            keeps,
      )
    ]

after_replay_arm : Db → ℕ → ℕ → Mutation → Option Db → Attempt Db
after_replay_arm d now baseline m (some done) = ok done
after_replay_arm d now baseline m none = arm_new d now baseline m

after_replay_arm-Effect :
    (op : Operation) (d e : Db) (now baseline : ℕ) (m : Mutation) (replayed : Option Db)
    → IsKeyed d
    → replay_budget_mutation d m ≡ ok replayed
    → after_replay_arm d now baseline m replayed ≡ ok e
    → Effect op d e
unfolding Effect after_replay_arm
after_replay_arm-Effect op d e now baseline m (some done) keyed replays h =
    let same : done ≡ e = ground (arith, h) in
    inl (subst (λ (x : Db). Keeps d x) same (replay_budget_mutation-Keeps d done m replays))
after_replay_arm-Effect op d e now baseline m none keyed replays h =
    arm_new-Effect op d e now baseline m keyed h

pub arm-Effect :
    (op : Operation) (d e : Db) (now : ℕ) (m : Mutation)
    → IsKeyed d
    → arm d now m ≡ ok e
    → Effect op d e
unfolding arm after_replay_arm
arm-Effect op d e now m keyed h =
    let valid = bind_ok (validate_budget_mutation (with_grant m) true) _ e h in
    let facts = bind_ok (budget_root_facts d m.root_session_id) _ e valid.2 in
    let replayed = bind_ok (replay_budget_mutation d (with_grant m)) _ e facts.2 in
    after_replay_arm-Effect op d e now facts.0 (with_grant m) replayed.0 keyed replayed.1 replayed.2

clear_row-Effect :
    (op : Operation) (d e f : Db) (now root baseline : ℕ)
    → IsKeyed d
    → clear_row d now root baseline ≡ ok e
    → Keeps e f
    → Effect op d f
unfolding Effect
clear_row-Effect op d e f now root baseline keyed h keeps = elim (Option-cases (d.budgets root)) [
  | inl none_there ↦
      let s : Record = absent_record now root baseline in
      inr (
        s,
        written-Writes op d e f s (ground (arith, h, none_there))
            (subst (λ (o : Option Record). Change op o s) (sym none_there)
              (releases_absent s refl refl))
            keeps,
      )
  | inr there ↦ elim (Bool-cases (phase_eq there.0.park_phase draining)) [
    | inl drain ↦ absurd (ground (arith, h, there.1, drain))
    | inr free ↦
        released_over op d e f root now cleared there.0 keyed there.1
          (not_draining there.0.park_phase free) (ground (arith, h, there.1, free)) keeps
  ]
]

after_replay_clear : Db → ℕ → ℕ → Mutation → Option Db → Attempt Db
after_replay_clear d now baseline m (some done) = ok done
after_replay_clear d now baseline m none =
    clear_row d now m.root_session_id baseline >>= λ written. settle written m

after_replay_clear-Effect :
    (op : Operation) (d e : Db) (now baseline : ℕ) (m : Mutation) (replayed : Option Db)
    → IsKeyed d
    → replay_budget_mutation d m ≡ ok replayed
    → after_replay_clear d now baseline m replayed ≡ ok e
    → Effect op d e
unfolding Effect after_replay_clear
after_replay_clear-Effect op d e now baseline m (some done) keyed replays h =
    let same : done ≡ e = ground (arith, h) in
    inl (subst (λ (x : Db). Keeps d x) same (replay_budget_mutation-Keeps d done m replays))
after_replay_clear-Effect op d e now baseline m none keyed replays h =
    let wrote = bind_ok (clear_row d now m.root_session_id baseline) _ e h in
    clear_row-Effect op d wrote.0 e now m.root_session_id baseline keyed wrote.1
      (settle-Keeps wrote.0 e m wrote.2)

pub clear-Effect :
    (op : Operation) (d e : Db) (now : ℕ) (m : Mutation)
    → IsKeyed d
    → clear d now m ≡ ok e
    → Effect op d e
unfolding clear after_replay_clear
clear-Effect op d e now m keyed h =
    let valid = bind_ok (validate_budget_mutation (with_grant m) false) _ e h in
    let facts = bind_ok (budget_root_facts d m.root_session_id) _ e valid.2 in
    let replayed = bind_ok (replay_budget_mutation d (with_grant m)) _ e facts.2 in
    after_replay_clear-Effect op d e now facts.0 (with_grant m) replayed.0 keyed replayed.1
      replayed.2
