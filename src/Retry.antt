-- ===== src/Retry.antt =====
-- internal/llm/retry.go: the loop in which a model is called again after an error that may pass. The
-- provider, the two contexts and the clock are an upstream that answers attempt by attempt; the length
-- of a wait between attempts is not modelled.
pub mod Ends
mod Tests
use coagent.Base.{
  ℕ, zero, suc, Bool, true, false, not, List, [], ◌∷◌, Option, none, some, String, any, leb, ltb,
  ◌&&◌, if◌then◌else◌,
}
use Prim.Native.String.{len, find, ◌++◌ as ◌+++◌}

abbrev pub max_retry_attempts : ℕ
max_retry_attempts = 6

-- Whether `errors.Is` finds `errStreamIdle` in the chain, and the text.
pub record ChatError : Type 0 where
  pub is_stream_idle : Bool
  pub text : String

pub data Outcome {ℓ} (A : Type ℓ) : Type ℓ where
  response : A → Outcome A
  failed : ChatError → Outcome A

-- What happens at each attempt: whether the loop's context ends during the wait before it, the outcome
-- of the call, and the contexts that have ended after it; and the lower case of a text.
pub record Upstream {ℓ} (A : Type ℓ) : Type ℓ where
  pub to_lower : String → String
  pub wait_ends : ℕ → Bool
  pub caller_done_waiting : ℕ → Bool
  pub call : ℕ → Outcome A
  pub caller_done : ℕ → Bool
  pub budget_spent : ℕ → Bool

-- The two results of Chat; the error of the caller's context stands apart.
pub data Reply {ℓ} (A : Type ℓ) : Type ℓ where
  answer : A → Reply A
  cancelled : Reply A
  fails : Option ChatError → Reply A

-- `strings.Contains`: `find` gives a position behind the text where there is none.
abbrev pub contains : String → String → Bool
contains s t = leb (find s t) (len s)

abbrev pub contains_any : List String → String → Bool
contains_any words s = any (contains s) words

pub should_retry : String → Bool
should_retry text =
    if contains_any ("credits" ∷ "insufficient" ∷ "payment required" ∷ "402" ∷ []) text
    then false
    else if contains_any ("key limit" ∷ "quota" ∷ "limit exceeded" ∷ []) text
    then true
    else if contains_any ("401" ∷ "403" ∷ "unauthorized" ∷ "forbidden" ∷ "invalid api key" ∷ [])
        text
    then false
    else if contains_any ("400" ∷ "bad request" ∷ "invalid request" ∷ []) text
    then false
    else if contains_any ("429" ∷ "rate limit" ∷ "too many requests" ∷ []) text
    then true
    else if contains_any
        ("500" ∷ "502" ∷ "503" ∷ "504" ∷ "internal server error" ∷ "bad gateway"
          ∷ "service unavailable" ∷ "gateway timeout" ∷ [])
        text
    then true
    else if contains_any
        ("timeout" ∷ "connection refused" ∷ "no such host" ∷ "temporary" ∷ "unavailable" ∷ []) text
    then true
    else true

-- The error of `callOnce`.
abbrev pub wrap : ChatError → ChatError
wrap e = record e { text = "chat completion: " +++ e.text }

-- `retryable`: an idle stream is retried once, which `used` records.
abbrev pub retryable : (String → String) → ChatError → Bool → Bool × Bool
retryable to_lower e used =
    if e.is_stream_idle then (not used, true) else (should_retry (to_lower e.text), used)

module _ {ℓ} {A : Type ℓ} (u : Upstream A) where
  -- What follows a call, with what the loop does next.
  after_call : ℕ → Bool → Outcome A → (ChatError → Bool → Reply A) → Reply A
  unfolding should_retry
  after_call n used (response a) next = answer a
  after_call n used (failed e) next =
      let verdict = retryable u.to_lower (wrap e) used in
      if u.caller_done n
      then cancelled
      else if u.budget_spent n
      then fails (some (wrap e))
      else if verdict.0
      then next (wrap e) verdict.1
      else fails (some (wrap e))

  -- The loop, with the attempts that are left, the next attempt and the last error.
  chat_from : ℕ → ℕ → Option ChatError → Bool → Reply A
  unfolding after_call
  chat_from zero n last used = fails last
  chat_from (suc left) n last used =
      let called = after_call n used (u.call n) (λ e now. chat_from left (suc n) (some e) now) in
      if ltb 0 n && u.wait_ends n
      then if u.caller_done_waiting n then cancelled else fails last
      else called

  unfoldable pub chat : Reply A
  unfolding chat_from
  chat = chat_from max_retry_attempts 0 none false
