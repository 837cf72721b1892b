-- ===== src/Retry/Ends.antt =====
-- internal/llm/retry.go: how the loop of Chat ends, and that it calls the provider at most six times.
use coagent.Base.{
  ℕ, zero, suc, ◌+◌, ◌<◌, ◌≤◌, ◌≡◌, refl, ap, ◌∙◌, Bool, true, false, not, ◌&&◌, ◌⊎◌, Option, none,
  some, ltb, if◌then◌else◌, arith, Bool-cases, inl, inr,
}
use coagent.Retry.{
  ChatError, Outcome, response, failed, Upstream, Reply, answer, cancelled, fails, should_retry,
  wrap, retryable, after_call, chat_from, chat, max_retry_attempts,
}

abbrev pub is_idle {ℓ} : {A : Type ℓ} → Outcome A → Bool
is_idle (response a) = false
is_idle (failed e) = e.is_stream_idle

abbrev pub one_if : Bool → ℕ
one_if true = 1
one_if false = 0

module _ {ℓ} {A : Type ℓ} (u : Upstream A) where
  -- The calls before the n-th that ended in an idle stream.
  abbrev pub idle_calls : ℕ → ℕ
  idle_calls zero = 0
  idle_calls (suc n) = one_if (is_idle (u.call n)) + idle_calls n

  -- A call that failed with an error after which the loop may go on.
  abbrev pub MayRetry : ℕ → Type ℓ
  MayRetry i =
      (e : ChatError) × (u.call i ≡ failed e)
      × ((e.is_stream_idle ≡ true) ⊎ (should_retry (u.to_lower (wrap e).text) ≡ true))

  -- The n-th call is made after n that were all retried, of which one at most ended in an idle stream.
  pub record Retried (n : ℕ) : Type ℓ where
    pub within : n < max_retry_attempts
    pub each : (i : ℕ) → i < n → MayRetry i
    pub one_idle : idle_calls n ≤ 1

  -- The reply is that of a call that the loop has reached.
  pub data Explained : Reply A → Type ℓ where
    answered : (n : ℕ) (a : A) → Retried n → u.call n ≡ response a → Explained (answer a)
    interrupted :
        (n : ℕ) → (u.caller_done n ≡ true) ⊎ (u.caller_done_waiting n ≡ true) → Explained cancelled
    gave_up :
        (n : ℕ) (e : ChatError)
        → Retried n
        → u.call n ≡ failed e
        → Explained (fails (some (wrap e)))

  -- The state of the loop before the n-th attempt.
  record Before (n : ℕ) (last : Option ChatError) (used : Bool) : Type ℓ where
    each : (i : ℕ) → i < n → MayRetry i
    counted : idle_calls n ≡ one_if used
    explained : 0 < n → Explained (fails last)

  idle_count : (used : Bool) → one_if used ≤ 1
  idle_count true = omega arith
  idle_count false = omega arith

  Retried-now :
      (n : ℕ) (last : Option ChatError) (used : Bool)
      → n < max_retry_attempts
      → Before n last used
      → Retried n
  Retried-now n last used within before = record {
    within = within;
    each = before.each;
    one_idle = omega (arith, before.counted, idle_count used);
  }

  if_Explained :
      (b : Bool) (x y : Reply A)
      → (b ≡ true → Explained x)
      → (b ≡ false → Explained y)
      → Explained (if b then x else y)
  if_Explained true x y yes_case no_case = yes_case refl
  if_Explained false x y yes_case no_case = no_case refl

  -- The loop goes on after an error that may be retried, in a state that counts it.
  goes_on :
      (n : ℕ) (last : Option ChatError) (used : Bool) (e : ChatError)
      → n < max_retry_attempts
      → Before n last used
      → u.call n ≡ failed e
      → (retryable u.to_lower (wrap e) used).0 ≡ true
      → Before (suc n) (some (wrap e)) (retryable u.to_lower (wrap e) used).1
  goes_on n last used e within before at may = record {
    each = λ i lt. elim (Bool-cases (ltb i n)) [
      | inl earlier ↦ before.each i (ground (arith, earlier))
      | inr latest ↦
          let same : i ≡ n = ground (arith, latest, lt) in
          (
            e,
            ap u.call same ∙ at,
            elim (Bool-cases e.is_stream_idle) [
              | inl idle ↦ inl idle
              | inr other ↦ inr (ground (arith, may, other))
            ],
          )
    ];
    counted = elim (Bool-cases e.is_stream_idle) [
      | inl idle ↦ ground (arith, may, idle, before.counted, at)
      | inr other ↦ ground (arith, other, before.counted, at)
    ];
    explained = λ _. gave_up n e (Retried-now n last used within before) at;
  }

  after_call-Explained :
      (n : ℕ) (last : Option ChatError) (used : Bool) (o : Outcome A)
      (next : ChatError → Bool → Reply A)
      → n < max_retry_attempts
      → Before n last used
      → u.call n ≡ o
      → ((e : ChatError) (now : Bool) → Before (suc n) (some e) now → Explained (next e now))
      → Explained (after_call u n used o next)
  unfolding after_call
  after_call-Explained n last used (response a) next within before at k =
      answered n a (Retried-now n last used within before) at
  after_call-Explained n last used (failed e) next within before at k =
      let given_up = gave_up n e (Retried-now n last used within before) at in
      if_Explained (u.caller_done n) _ _ (λ done. interrupted n (inl done))
        (λ _.
          if_Explained (u.budget_spent n) _ _ (λ _. given_up)
            (λ _.
              if_Explained (retryable u.to_lower (wrap e) used).0 _ _
                (λ may.
                  k (wrap e) (retryable u.to_lower (wrap e) used).1
                    (goes_on n last used e within before at may))
                (λ _. given_up)))

  chat_from-Explained :
      (left n : ℕ) (last : Option ChatError) (used : Bool)
      → left + n ≡ max_retry_attempts
      → Before n last used
      → Explained (chat_from u left n last used)
  unfolding chat_from
  chat_from-Explained zero n last used total before = before.explained (omega (arith, total))
  chat_from-Explained (suc left) n last used total before =
      let within : n < max_retry_attempts = omega (arith, total) in
      if_Explained (ltb 0 n && u.wait_ends n) _ _
        (λ ended.
          if_Explained (u.caller_done_waiting n) _ _ (λ done. interrupted n (inr done))
            (λ _. before.explained (ground (arith, ended))))
        (λ _. after_call-Explained n last used (u.call n) _ within before refl (λ e now after.
          chat_from-Explained left (suc n) (some e) now (omega (arith, total)) after))

  -- Chat gives the response of a call, or the error of a call, or the error of the caller's context once
  -- that has ended. The call is one of the first six, each call before it failed with an error that may
  -- be retried, and at most one of those ended in an idle stream. It never gives neither a response nor an error.
  pub chat-Explained : Explained (chat u)
  unfolding chat
  chat-Explained = chat_from-Explained max_retry_attempts 0 none false refl (record {
    each = λ i lt. absurd (omega (arith, lt));
    counted = refl;
    explained = λ lt. absurd (omega (arith, lt));
  })

  -- The call fails with an error that may be retried and is not an idle stream.
  abbrev pub Fails : ℕ → Type ℓ
  Fails i =
      (e : ChatError) × (u.call i ≡ failed e)
      × (e.is_stream_idle ≡ false)
      × (should_retry (u.to_lower (wrap e).text) ≡ true)

  -- Neither context ends.
  pub record IsCalm : Type ℓ where
    pub waits : (i : ℕ) → u.wait_ends i ≡ false
    pub goes_on : (i : ℕ) → u.caller_done i ≡ false
    pub in_budget : (i : ℕ) → u.budget_spent i ≡ false

  if_false : (b c : Bool) (x y : Reply A) → c ≡ false → (if b && c then x else y) ≡ y
  if_false true c x y h = ap (λ (d : Bool). if d then x else y) h
  if_false false c x y h = refl

  called :
      (left n : ℕ) (last : Option ChatError) (used : Bool)
      → IsCalm
      → chat_from u (suc left) n last used
        ≡ after_call u n used (u.call n) (λ e now. chat_from u left (suc n) (some e) now)
  unfolding chat_from
  called left n last used calm = if_false (ltb 0 n) (u.wait_ends n) _ _ (calm.waits n)

  retried :
      (n : ℕ) (used : Bool) (next : ChatError → Bool → Reply A) (h : Fails n)
      → IsCalm
      → after_call u n used (u.call n) next ≡ next (wrap h.0) used
  unfolding after_call
  retried n used next h calm =
      ap (λ (o : Outcome A). after_call u n used o next) h.1
      ∙ if_false true (u.caller_done n) _ _ (calm.goes_on n)
      ∙ if_false true (u.budget_spent n) _ _ (calm.in_budget n)
      ∙ ap
          (λ (idle : Bool).
            let verdict : Bool × Bool =
              if idle
              then (not used, true)
              else (should_retry (u.to_lower (wrap h.0).text), used) in
            if verdict.0 then next (wrap h.0) verdict.1 else fails (some (wrap h.0)))
          h.2
      ∙ ap (λ (may : Bool). if may then next (wrap h.0) used else fails (some (wrap h.0))) h.3

  first_from :
      (left n t : ℕ) (last : Option ChatError) (used : Bool) (a : A)
      → n ≤ t
      → t < left + n
      → IsCalm
      → ((i : ℕ) → i < t → Fails i)
      → u.call t ≡ response a
      → chat_from u left n last used ≡ answer a
  unfolding after_call
  first_from zero n t last used a le lt calm before at = absurd (omega (arith, le, lt))
  first_from (suc left) n t last used a le lt calm before at = elim (Bool-cases (ltb n t)) [
    | inl earlier ↦
        let h = before n (ground (arith, earlier)) in
        called left n last used calm
        ∙ retried n used (λ e now. chat_from u left (suc n) (some e) now) h calm
        ∙ first_from left (suc n) t (some (wrap h.0)) used a (ground (arith, earlier))
            (omega (arith, lt)) calm before at
    | inr here ↦
        let same : n ≡ t = ground (arith, here, le) in
        called left n last used calm
        ∙ ap
            (λ (o : Outcome A).
              after_call u n used o (λ e now. chat_from u left (suc n) (some e) now))
            (ap u.call same ∙ at)
  ]

  -- The first response among the six calls is the reply, if the calls before it fail with errors that may
  -- be retried and are no idle streams, and neither context ends.
  pub chat-first_response :
      (t : ℕ) (a : A)
      → t < max_retry_attempts
      → IsCalm
      → ((i : ℕ) → i < t → Fails i)
      → u.call t ≡ response a
      → chat u ≡ answer a
  unfolding chat
  chat-first_response t a lt calm before at =
      first_from max_retry_attempts 0 t none false a (omega arith) (omega (arith, lt)) calm before
        at
