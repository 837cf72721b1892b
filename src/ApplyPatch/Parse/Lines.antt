-- ===== src/ApplyPatch/Parse/Lines.antt =====
-- The lines of a text: parsePatch of internal/tool/builtin/apply_patch.go reads with bufio.Scanner the
-- lines that a printer ends with a byte each.
use coagent.Base.{
  ℕ, ◌≡◌, refl, sym, ap, ◌∙◌, Bool, true, false, not, ◌&&◌, List, [], ◌∷◌, ◌++◌, ◌==◌, any, all,
  last_or, Bytes, arith,
}
use mathlib.Core.List.{append-nil, append_assoc}
use coagent.ApplyPatch.Parse.{drop_cr, drop_crs, split_lines, is_too_long}

abbrev pub is_no_end : ℕ → Bool
is_no_end b = not (b == 10)

-- The scanner reads such a line as it stands.
abbrev pub is_scannable : Bytes → Bool
is_scannable line = all is_no_end line && not (last_or 0 line == 13) && not (is_too_long line)

-- Every line with the byte that ends it.
pub unlines : List Bytes → Bytes
unlines [] = []
unlines (l ∷ ls) = l ++ 10 ∷ unlines ls

split_lines-append :
    (line l rest : Bytes)
    → all is_no_end l ≡ true
    → split_lines line (l ++ 10 ∷ rest) ≡ (line ++ l) ∷ split_lines [] rest
unfolding split_lines
split_lines-append line [] rest h =
    ap (λ (x : Bytes). x ∷ split_lines [] rest) (sym (append-nil line))
split_lines-append line (b ∷ l) rest h =
    let tail : all is_no_end l ≡ true = ground (arith, h) in
    ground (arith, h, split_lines-append (line ++ b ∷ []) l rest tail, append_assoc line (b ∷ []) l)

split_lines-unlines :
    (ls : List Bytes) → all is_scannable ls ≡ true → split_lines [] (unlines ls) ≡ ls
unfolding split_lines unlines
split_lines-unlines [] h = refl
split_lines-unlines (l ∷ ls) h =
    let here : all is_no_end l ≡ true = ground (arith, h) in
    let tail : all is_scannable ls ≡ true = ground (arith, h) in
    split_lines-append [] l (unlines ls) here
    ∙ ap (λ (r : List Bytes). l ∷ r) (split_lines-unlines ls tail)

drop_cr-kept : (l : Bytes) (d : ℕ) → not (last_or d l == 13) ≡ true → drop_cr l ≡ l
unfolding drop_cr
drop_cr-kept [] d h = refl
drop_cr-kept (b ∷ []) d h = ground (arith, h)
drop_cr-kept (b ∷ c ∷ l) d h = ap (λ (r : Bytes). b ∷ r) (drop_cr-kept (c ∷ l) b h)

drop_crs-kept : (ls : List Bytes) → all is_scannable ls ≡ true → drop_crs ls ≡ ls
drop_crs-kept [] h = refl
drop_crs-kept (l ∷ ls) h =
    let here : not (last_or 0 l == 13) ≡ true = ground (arith, h) in
    let tail : all is_scannable ls ≡ true = ground (arith, h) in
    ground (arith, drop_cr-kept l 0 here, drop_crs-kept ls tail)

short_enough : (ls : List Bytes) → all is_scannable ls ≡ true → any is_too_long ls ≡ false
short_enough [] h = refl
short_enough (l ∷ ls) h =
    let tail : all is_scannable ls ≡ true = ground (arith, h) in
    ground (arith, h, short_enough ls tail)

-- What the scanner makes of the lines: as many, unchanged, and none too long.
pub record Scans (ls : List Bytes) : Type 0 where
  pub split : split_lines [] (unlines ls) ≡ ls
  pub kept : drop_crs ls ≡ ls
  pub short : any is_too_long ls ≡ false

pub unlines-Scans : (ls : List Bytes) → all is_scannable ls ≡ true → Scans ls
unlines-Scans ls h = record {
  split = split_lines-unlines ls h;
  kept = drop_crs-kept ls h;
  short = short_enough ls h;
}
