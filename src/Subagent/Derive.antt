-- ===== src/Subagent/Derive.antt =====
-- internal/subagent/outcome.go: how a child's activation ended, from its transcript.
use Prim.Native.Char.{code}
use coagent.Base.{
  ℕ, Bool, true, false, not, ◌&&◌, ◌||◌, List, [], ◌∷◌, reverse, Option, none, some, String, leb,
  ◌==◌, if◌then◌else◌, str_eq,
}
use coagent.Subagent.{
  Outcome, ResultText, output_length_error, unknown_finish_error, rejection_unreadable,
  empty_stop_notice, messages_unreadable, no_final_answer, crashed, answer,
}

pub data Role : Type 0 where
  assistant user other : Role

-- The fields of a transcript message that the outcome depends on.
pub record Message : Type 0 where
  pub role : Role
  pub content : String
  pub has_calls : Bool  -- len(ToolCalls) > 0
  pub finish_type : String

-- What the store answers when it is asked for the child's current terminal rejection.
pub data Rejection : Type 0 where
  output_length unknown_finish other_reason not_found unreadable : Rejection

-- unicode.IsSpace.
unfoldable pub is_space : ℕ → Bool
is_space c =
    (leb 9 c && leb c 13)
    || (c == 32
        || (c == 0x85
            || (c == 0xa0
                || (c == 0x1680
                    || ((leb 0x2000 c && leb c 0x200a)
                        || (c == 0x2028
                            || (c == 0x2029 || (c == 0x202f || (c == 0x205f || c == 0x3000)))))))))

-- `strings.TrimSpace(content) == ""`.
unfoldable pub is_blank : String → Bool
is_blank String.[] = true
is_blank (String.◌∷◌ c s) = is_space (code c) && is_blank s

abbrev pub is_assistant : Role → Bool
is_assistant assistant = true
is_assistant _ = false

unfoldable pub is_final_assistant_message : Message → Bool
is_final_assistant_message m =
    is_assistant m.role
    && (not m.has_calls
        && (not (is_blank m.content) && (str_eq m.finish_type "" || str_eq m.finish_type "stop")))

-- The three backward loops, over the transcript newest message first.
unfoldable pub has_calls_newest_first : List Message → Bool
has_calls_newest_first [] = false
has_calls_newest_first (m ∷ ms) =
    let rest = has_calls_newest_first ms in
    elim m.role [ assistant ↦ m.has_calls | user ↦ false | other ↦ rest ]

unfoldable pub text_newest_first : List Message → String
text_newest_first [] = ""
text_newest_first (m ∷ ms) =
    let rest = text_newest_first ms in if is_final_assistant_message m then m.content else rest

unfoldable pub is_final_newest_first : List Message → Bool
is_final_newest_first [] = false
is_final_newest_first (m ∷ ms) =
    let rest = is_final_newest_first ms in
    elim m.role [ assistant ↦ is_final_assistant_message m | user ↦ false | other ↦ rest ]

unfoldable pub last_assistant_has_calls : List Message → Bool
last_assistant_has_calls ms = has_calls_newest_first (reverse ms)

unfoldable pub last_assistant_text : List Message → String
last_assistant_text ms = text_newest_first (reverse ms)

unfoldable pub last_message_is_final_answer : List Message → Bool
last_message_is_final_answer ms = is_final_newest_first (reverse ms)

-- What the other tables hold about a child: its active messages if they can be read, its current
-- terminal rejection, and the text at its confirmed answer, if there is such a pointer and it reads.
pub record Transcript : Type 0 where
  pub messages : Option (List Message)
  pub rejection : Rejection
  pub confirmed_answer : Option String

abbrev pub empty_stop_terminal_streak : ℕ
empty_stop_terminal_streak = 6

unfoldable pub current_integrity_outcome : Rejection → Option (ResultText × Outcome)
current_integrity_outcome output_length = some (output_length_error, Outcome.error)
current_integrity_outcome unknown_finish = some (unknown_finish_error, Outcome.error)
current_integrity_outcome other_reason = none
current_integrity_outcome not_found = none
current_integrity_outcome unreadable = some (rejection_unreadable, Outcome.error)

-- The confirmed answer, if it is not blank, and else the last text.
unfoldable pub final_text : Option String → List Message → String
final_text none ms = last_assistant_text ms
final_text (some a) ms = if is_blank a then last_assistant_text ms else a

-- The `switch` of `deriveOutcome`.
unfoldable pub outcome_of_messages :
    List Message → Option String → ℕ → Bool → Bool → ResultText × Outcome
outcome_of_messages ms confirmed iterations errored persisted_error =
    if persisted_error && last_assistant_has_calls ms
    then (no_final_answer iterations, Outcome.incomplete)
    else if persisted_error || errored
    then (crashed iterations, Outcome.error)
    else if last_message_is_final_answer ms
    then (answer (final_text confirmed ms), Outcome.completed)
    else (no_final_answer iterations, Outcome.incomplete)

unfoldable pub outcome_of_transcript : Transcript → ℕ → Bool → Bool → ResultText × Outcome
outcome_of_transcript t iterations errored persisted_error = elim t.messages [
  | none ↦ (messages_unreadable iterations, Outcome.error)
  | some ms ↦ outcome_of_messages ms t.confirmed_answer iterations errored persisted_error
]

unfoldable pub integrity_or :
    Option (ResultText × Outcome) → ResultText × Outcome → ResultText × Outcome
integrity_or none r = r
integrity_or (some i) r = i

unfoldable pub derive_outcome : Transcript → ℕ → Bool → Bool → ℕ → ResultText × Outcome
unfolding outcome_of_transcript integrity_or
derive_outcome t iterations errored persisted_error streak =
    let r = outcome_of_transcript t iterations errored persisted_error in
    if leb empty_stop_terminal_streak streak
    then (empty_stop_notice streak, Outcome.completed)
    else if persisted_error
    then integrity_or (current_integrity_outcome t.rejection) r
    else r
