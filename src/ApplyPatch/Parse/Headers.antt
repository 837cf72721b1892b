-- ===== src/ApplyPatch/Parse/Headers.antt =====
-- A printed hunk header is a line of its own to the scanner of parsePatch, in
-- internal/tool/builtin/apply_patch.go: it has no line end, and is short.
use coagent.Base.{
  ℕ, zero, suc, ◌+◌, ◌*◌, ◌/◌, ◌%◌, ◌≤◌, ◌<◌, ◌≡◌, refl, true, [], ◌∷◌, ◌++◌, ltb, all, last_or,
  length, length-append, all-append, last_or-append, Bytes, arith, Bool-cases, inl, inr,
}
use coagent.ApplyPatch.{PatchHunk}
use coagent.ApplyPatch.Parse.{is_digit, max_int}
use coagent.ApplyPatch.Parse.Lines.{is_no_end, is_scannable}
use coagent.ApplyPatch.Parse.Numbers.{
  digits_on, digits_on-all, print_number, print_range, print_hunk_header, FitsInt,
}

tens : ℕ → ℕ
tens zero = 1
tens (suc k) = 10 * tens k

length-digits_on : (fuel n k : ℕ) → n < tens (suc k) → length (digits_on fuel n) ≤ suc k
unfolding digits_on tens
length-digits_on zero n k lt = omega arith
length-digits_on (suc fuel) n zero lt =
    let small : ltb n 10 ≡ true = ground (arith, lt) in ground (arith, small)
length-digits_on (suc fuel) n (suc k) lt = elim (Bool-cases (ltb n 10)) [
  | inl small ↦ ground (arith, small)
  | inr large ↦
      let front : length (digits_on fuel (n / 10)) ≤ suc k =
        length-digits_on fuel (n / 10) k (omega (arith, lt)) in
      ground (arith, large, front, length-append (digits_on fuel (n / 10)) ((48 + n % 10) ∷ []))
]

length-print_number : (n : ℕ) → n ≤ max_int → length (print_number n) ≤ 19
unfolding print_number tens
length-print_number n le = length-digits_on (suc n) n 18 (omega (arith, le))

digits_no_end : (xs : Bytes) → all is_digit xs ≡ true → all is_no_end xs ≡ true
digits_no_end [] h = refl
digits_no_end (x ∷ xs) h =
    let tail : all is_digit xs ≡ true = ground (arith, h) in
    ground (arith, h, digits_no_end xs tail)

print_number-no_end : (n : ℕ) → all is_no_end (print_number n) ≡ true
unfolding print_number
print_number-no_end n = digits_no_end (digits_on (suc n) n) (digits_on-all (suc n) n)

print_range-no_end :
    (a b : ℕ) (rest : Bytes)
    → all is_no_end rest ≡ true
    → all is_no_end (print_range a b rest) ≡ true
unfolding print_range
print_range-no_end a b rest h = ground (
  arith,
  h,
  print_number-no_end a,
  print_number-no_end b,
  all-append is_no_end (print_number a) (44 ∷ print_number b ++ rest),
  all-append is_no_end (print_number b) rest,
)

length-print_range :
    (a b : ℕ) (rest : Bytes)
    → a ≤ max_int
    → b ≤ max_int
    → length (print_range a b rest) ≤ 39 + length rest
unfolding print_range
length-print_range a b rest le le' = omega (
  arith,
  length-print_number a le,
  length-print_number b le',
  length-append (print_number a) (44 ∷ print_number b ++ rest),
  length-append (print_number b) rest,
)

last_or-print_range :
    (d a b : ℕ) (x : ℕ) (rest : Bytes) → last_or d (print_range a b (x ∷ rest)) ≡ last_or x rest
unfolding print_range
last_or-print_range d a b x rest = ground (
  arith,
  last_or-append d (print_number a) 44 (print_number b ++ x ∷ rest),
  last_or-append 44 (print_number b) x rest,
)

pub print_hunk_header-scannable :
    (h : PatchHunk) → FitsInt h → is_scannable (print_hunk_header h) ≡ true
unfolding print_hunk_header
print_hunk_header-scannable h fits =
    let end : Bytes = 32 ∷ 64 ∷ 64 ∷ [] in
    let new : Bytes = print_range h.new_start h.new_count end in
    let no_end : all is_no_end (print_hunk_header h) ≡ true =
      print_range-no_end h.old_start h.old_count (32 ∷ 43 ∷ new)
        (print_range-no_end h.new_start h.new_count end refl) in
    ground (
      arith,
      no_end,
      length-print_range h.old_start h.old_count (32 ∷ 43 ∷ new) fits.old_start_fits
          fits.old_count_fits,
      length-print_range h.new_start h.new_count end fits.new_start_fits fits.new_count_fits,
      last_or-print_range 45 h.old_start h.old_count 32 (43 ∷ new),
      last_or-print_range 43 h.new_start h.new_count 32 (64 ∷ 64 ∷ []),
    )
