-- ===== src/Base/Keys.antt =====
-- Sets of texts and maps from texts, as lists: the source's `map[string]bool` and `map[string]T`.
use Prim.Native.String.{String}
use mathlib.Core.Bool.{Bool}
use mathlib.Core.List.{List, [], ◌∷◌}
use mathlib.Core.Option.{Option, none, some}
use coagent.Base.Tests.{str_eq, if◌then◌else◌}
use coagent.Base.Lists.{any}

-- Whether the set holds the text.
abbrev pub holds_key : List String → String → Bool
holds_key ids id = any (str_eq id) ids

-- The value that the map has for the text, the first in the list.
abbrev pub find_key {ℓ} : {A : Type ℓ} → List (String × A) → String → Option A
find_key [] id = none
find_key ((k, a) ∷ m) id = if str_eq k id then some a else find_key m id
