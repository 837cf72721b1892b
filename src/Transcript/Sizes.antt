-- ===== src/Transcript/Sizes.antt =====
-- The estimates of internal/session/transcript.go: tokens and attachments of a transcript. Sizes and
-- dimensions are not negative, and far from the bounds of an `int`.
use Prim.Native.String.{len}
use coagent.Base.{
  ℕ, ◌+◌, ◌-◌, ◌*◌, ◌/◌, min, ◌&&◌, List, [], ◌∷◌, Option, none, some, String, ltb, leb, length,
  drop, if◌then◌else◌,
}
use coagent.Transcript.{WireMessage, ImageRef}

abbrev pub image_token_ceiling : ℕ
image_token_ceiling = 8192

abbrev pub image_patch_quantum_px : ℕ
image_patch_quantum_px = 28

unfoldable pub estimate_text : String → ℕ
estimate_text text = len text / 4

-- Sizes are not negative.
unfoldable pub image_token_estimate : ImageRef → ℕ
image_token_estimate r =
    if ltb 0 r.width && ltb 0 r.height
    then ((r.width + image_patch_quantum_px - 1) / image_patch_quantum_px)
      * ((r.height + image_patch_quantum_px - 1) / image_patch_quantum_px)
    else min (r.size / 4) image_token_ceiling

abbrev pub sum_of {ℓ} : {A : Type ℓ} → (A → ℕ) → List A → ℕ
sum_of f [] = 0
sum_of f (x ∷ xs) = f x + sum_of f xs

unfoldable pub message_estimate : WireMessage → ℕ
unfolding estimate_text image_token_estimate
message_estimate m =
    estimate_text m.content
    + estimate_text m.reasoning_content
    + sum_of (λ c. estimate_text c.arguments) m.tool_calls
    + sum_of image_token_estimate m.images

unfoldable pub estimate_tokens : List WireMessage → ℕ
estimate_tokens messages = sum_of message_estimate messages

-- The last measurement: a number of tokens, and how many messages it covered.
pub record ContextBaseline : Type 0 where
  pub prompt_tokens : ℕ
  pub message_count : ℕ

pub project_context_size : List WireMessage → Option ContextBaseline → ℕ → ℕ
project_context_size messages none overhead = estimate_tokens messages + overhead
project_context_size messages (some b) overhead =
    if leb b.message_count (length messages)
    then b.prompt_tokens + estimate_tokens (drop b.message_count messages)
    else estimate_tokens messages + overhead

unfoldable pub image_base64_bytes : ℕ → ℕ
image_base64_bytes size = ((size + 2) / 3) * 4

-- The bytes on the wire and the number of all attachments.
unfoldable pub image_pressure : List WireMessage → ℕ × ℕ
image_pressure messages = (
  sum_of (λ m. sum_of (λ r. image_base64_bytes r.size) m.images) messages,
  sum_of (λ m. length m.images) messages,
)
