-- ===== src/Transcript/Browser/Calls.antt =====
-- projectBrowserFrames of internal/session/transcript.go does not change which calls are pending.
use mathlib.Core.List.{reverse_aux}
use coagent.Base.{
  ℕ, ◌+◌, ◌≡◌, refl, sym, ap, ◌∙◌, List, [], ◌∷◌, ◌++◌, Option, none, String, arith, map, reverse,
}
use coagent.Transcript.{WireMessage}
use coagent.Transcript.Pending.{
  unresolved_newest_first, unresolved_tool_calls, pending_of, pending_among, pending_in_loop_calls,
}
use coagent.Transcript.Browser.{
  frame_at, frames_from, project_browser_frames, latest_success_call, call_owner,
}

-- The message without what a frame of the browser shows.
abbrev unframed : WireMessage → WireMessage
unframed m = record m { content = ""; images = [] }

map-frames_from :
    (i : ℕ) (latest : Option ℕ) (ms : List WireMessage)
    → map unframed (frames_from i latest ms) ≡ map unframed ms
unfolding frames_from frame_at
map-frames_from i latest [] = refl
map-frames_from i latest (m ∷ ms) = ground (arith, map-frames_from (i + 1) latest ms)

map-reverse_aux {ℓ κ} :
    {A : Type ℓ} {B : Type κ} (f : A → B) (xs ys : List A)
    → map f (reverse_aux xs ys) ≡ reverse_aux (map f xs) (map f ys)
map-reverse_aux f [] ys = refl
map-reverse_aux f (x ∷ xs) ys = map-reverse_aux f xs (x ∷ ys)

unresolved_newest_first-map :
    (seen : List String) (ms : List WireMessage)
    → unresolved_newest_first seen (map unframed ms) ≡ unresolved_newest_first seen ms
unfolding unresolved_newest_first
unresolved_newest_first-map seen [] = refl
unresolved_newest_first-map seen (m ∷ ms) = ground (
  arith,
  unresolved_newest_first-map (m.tool_call_id ∷ seen) ms,
  unresolved_newest_first-map seen ms,
)

pending_among-map :
    (names staged : List (String × String)) (ms : List WireMessage)
    → pending_among names staged (map unframed ms) ≡ pending_among names staged ms
unfolding pending_among
pending_among-map names staged [] = refl
pending_among-map names staged (m ∷ ms) =
    ap (λ cs. pending_of names staged m.tool_calls ++ cs) (pending_among-map names staged ms)

unresolved_tool_calls-map :
    (ms : List WireMessage) → unresolved_tool_calls (map unframed ms) ≡ unresolved_tool_calls ms
unfolding unresolved_tool_calls
unresolved_tool_calls-map ms =
    ap (unresolved_newest_first []) (sym (map-reverse_aux unframed ms []))
    ∙ unresolved_newest_first-map [] (reverse ms)

pending_in_loop_calls-map :
    (staged : List (String × String)) (ms : List WireMessage)
    → pending_in_loop_calls staged (map unframed ms) ≡ pending_in_loop_calls staged ms
unfolding pending_in_loop_calls
pending_in_loop_calls-map staged ms =
    ap (λ names. pending_among names staged (map unframed ms)) (unresolved_tool_calls-map ms)
    ∙ pending_among-map (unresolved_tool_calls ms) staged ms

pub unresolved_tool_calls-project_browser_frames :
    (ms : List WireMessage)
    → unresolved_tool_calls (project_browser_frames ms) ≡ unresolved_tool_calls ms
unfolding project_browser_frames
unresolved_tool_calls-project_browser_frames ms =
    let latest = latest_success_call (call_owner 0 ms []) ms none in
    sym (unresolved_tool_calls-map (frames_from 0 latest ms))
    ∙ ap unresolved_tool_calls (map-frames_from 0 latest ms)
    ∙ unresolved_tool_calls-map ms

-- Replacing older frames of the browser leaves the calls that the loop has to run as they are.
pub pending_in_loop_calls-project_browser_frames :
    (staged : List (String × String)) (ms : List WireMessage)
    → pending_in_loop_calls staged (project_browser_frames ms) ≡ pending_in_loop_calls staged ms
unfolding project_browser_frames
pending_in_loop_calls-project_browser_frames staged ms =
    let latest = latest_success_call (call_owner 0 ms []) ms none in
    sym (pending_in_loop_calls-map staged (frames_from 0 latest ms))
    ∙ ap (pending_in_loop_calls staged) (map-frames_from 0 latest ms)
    ∙ pending_in_loop_calls-map staged ms
