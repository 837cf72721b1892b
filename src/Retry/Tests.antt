-- ===== src/Retry/Tests.antt =====
-- internal/llm/retry.go on a provider that fails and then answers, and on one whose stream idles.
use coagent.Base.{ℕ, ◌<◌, ◌≡◌, refl, Bool, true, false, some, if◌then◌else◌, ltb, arith, ap}
use coagent.Retry.{
  ChatError, Outcome, response, failed, Upstream, answer, fails, should_retry, after_call,
  chat_from, chat, wrap,
}
use coagent.Retry.Ends.{Explained, Fails, chat-Explained, chat-first_response}

abbrev overloaded : ChatError
overloaded = record { is_stream_idle = false; text = "503 overloaded" }

abbrev idle : ChatError
idle = record { is_stream_idle = true; text = "stream idle: deadline exceeded" }

abbrev answers_third : ℕ → Outcome ℕ
answers_third n = if ltb n 2 then failed overloaded else response 7

abbrev upstream : (ℕ → Outcome ℕ) → Upstream ℕ
upstream call = record {
  to_lower = λ s. s;
  wait_ends = λ n. false;
  caller_done_waiting = λ n. false;
  call = call;
  caller_done = λ n. false;
  budget_spent = λ n. false;
}

third-Fails : (i : ℕ) → i < 2 → Fails (upstream answers_third) i
unfolding should_retry
third-Fails i lt =
    let early : ltb i 2 ≡ true = ground (arith, lt) in
    (overloaded, ap (λ (b : Bool). if b then failed overloaded else response 7) early, refl, refl)

chat-first_response_example : chat (upstream answers_third) ≡ answer 7
chat-first_response_example =
    chat-first_response (upstream answers_third) 2 7 (omega arith)
      (record { waits = λ i. refl; goes_on = λ i. refl; in_budget = λ i. refl }) third-Fails refl

chat-Explained_example :
    Explained (upstream (λ n. failed idle)) (chat (upstream (λ n. failed idle)))
chat-Explained_example = chat-Explained (upstream (λ n. failed idle))

-- A stream that idles twice is not tried a third time, as six calls would end in the same reply.
idle_twice :
    chat (upstream (λ n. if ltb n 2 then failed idle else response 7)) ≡ fails (some (wrap idle))
unfolding chat chat_from after_call
idle_twice = refl

-- A limit on the key passes although its text names a status that does not.
key_limit : should_retry "403 forbidden: key limit exceeded" ≡ true
unfolding should_retry
key_limit = refl

unauthorized : should_retry "401 unauthorized" ≡ false
unfolding should_retry
unauthorized = refl
