-- ===== src/Base/Words.antt =====
-- The machine's `int`: a 64-bit word in two's complement, given as the number below 2 ^ 64.
use Prim.Native.Nat.{ℕ, ◌+◌, ◌-◌, ◌%◌}
use mathlib.Core.Bool.{Bool}
use coagent.Base.Tests.{leb, if◌then◌else◌}

abbrev pub word_size : ℕ
word_size = 18446744073709551616

abbrev pub half_size : ℕ
half_size = 9223372036854775808

abbrev pub word_add : ℕ → ℕ → ℕ
word_add a b = (a + b) % word_size

abbrev pub word_sub : ℕ → ℕ → ℕ
word_sub a b = (a + (word_size - b)) % word_size

abbrev pub is_negative : ℕ → Bool
is_negative a = leb half_size a

-- Words in the order of the integers they stand for.
abbrev pub word_rank : ℕ → ℕ
word_rank a = (a + half_size) % word_size

abbrev pub word_abs : ℕ → ℕ
word_abs a = if is_negative a then word_sub 0 a else a
