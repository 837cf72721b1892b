-- ===== src/Base/Texts.antt =====
-- Texts as lists of bytes, which is what the source's strings are.
use Prim.Native.Nat.{ℕ}
use mathlib.Core.Path.{◌≡◌, refl}
use mathlib.Core.Bool.{Bool, true, false, ◌&&◌, ◌||◌}
use mathlib.Core.List.{List, [], ◌∷◌}
use native.Mathlib.Omega.{arith}
use coagent.Base.Tests.{◌==◌, if◌then◌else◌}

abbrev pub Bytes : Type 0
Bytes = List ℕ

abbrev pub bytes_eq : Bytes → Bytes → Bool
bytes_eq [] [] = true
bytes_eq (x ∷ xs) (y ∷ ys) = (x == y) && bytes_eq xs ys
bytes_eq _ _ = false

abbrev pub is_space_or_tab : ℕ → Bool
is_space_or_tab b = (b == 32) || (b == 9)

-- `strings.TrimRight(text, " \t")`.
abbrev pub trim_right : Bytes → Bytes
trim_right [] = []
trim_right (b ∷ bs) =
    let rest = trim_right bs in
    elim rest [ [] ↦ if is_space_or_tab b then [] else b ∷ [] | r ∷ rs ↦ b ∷ r ∷ rs ]

pub bytes_eq_refl : (x : Bytes) → bytes_eq x x ≡ true
bytes_eq_refl [] = refl
bytes_eq_refl (b ∷ x) = ground (arith, bytes_eq_refl x)

pub bytes_eq_sound : (x y : Bytes) → bytes_eq x y ≡ true → x ≡ y
bytes_eq_sound [] [] h = refl
bytes_eq_sound [] (b ∷ y) h = ground (arith, h)
bytes_eq_sound (a ∷ x) [] h = ground (arith, h)
bytes_eq_sound (a ∷ x) (b ∷ y) h =
    let tail : bytes_eq x y ≡ true = ground (arith, h) in ground (arith, h, bytes_eq_sound x y tail)
