-- ===== src/ApplyPatch/Parse/Numbers.antt =====
-- The numbers of a hunk header: parseHunkHeader of internal/tool/builtin/apply_patch.go reads what a
-- printer of decimals writes.
use coagent.Base.{
  ℕ, zero, suc, ◌+◌, ◌-◌, ◌*◌, ◌/◌, ◌%◌, ◌≤◌, ◌≡◌, refl, ap, ◌∙◌, Bool, true, false, [], ◌∷◌, ◌++◌,
  Option, some, ltb, all, if◌then◌else◌, Bytes, ◌>>=◌, arith, Bool-cases, bind_at, inl, inr,
}
use coagent.ApplyPatch.{PatchHunk}
use coagent.ApplyPatch.Parse.{
  max_int, is_digit, span_digits, value_from, atoi, number_at, read_number, read_count, cut_prefix,
  read_range, hunk_at, parse_hunk_header,
}

-- The decimal digits of a number, on fuel above it.
unfoldable pub digits_on : ℕ → ℕ → Bytes
digits_on zero n = []
digits_on (suc fuel) n =
    let front = digits_on fuel (n / 10) in
    if ltb n 10 then (48 + n) ∷ [] else front ++ (48 + n % 10) ∷ []

unfoldable pub print_number : ℕ → Bytes
print_number n = digits_on (suc n) n

value_from-append :
    (acc : ℕ) (xs ys : Bytes) → value_from acc (xs ++ ys) ≡ value_from (value_from acc xs) ys
unfolding value_from
value_from-append acc [] ys = refl
value_from-append acc (x ∷ xs) ys = value_from-append (acc * 10 + (x - 48)) xs ys

value_from-digits_on : (fuel n : ℕ) → suc n ≤ fuel → value_from 0 (digits_on fuel n) ≡ n
unfolding value_from digits_on
value_from-digits_on zero n le = absurd (omega (arith, le))
value_from-digits_on (suc fuel) n le = elim (Bool-cases (ltb n 10)) [
  | inl small ↦ ground (arith, small)
  | inr large ↦
      let front : value_from 0 (digits_on fuel (n / 10)) ≡ n / 10 =
        value_from-digits_on fuel (n / 10) (ground (arith, le, large)) in
      ground
        (arith, large, front, value_from-append 0 (digits_on fuel (n / 10)) ((48 + n % 10) ∷ []))
]

all-append_last :
    (xs : Bytes) (b : ℕ)
    → all is_digit xs ≡ true
    → is_digit b ≡ true
    → all is_digit (xs ++ b ∷ []) ≡ true
all-append_last [] b h k = ground (arith, h, k)
all-append_last (x ∷ xs) b h k =
    let tail : all is_digit xs ≡ true = ground (arith, h) in
    ground (arith, h, all-append_last xs b tail k)

pub digits_on-all : (fuel n : ℕ) → all is_digit (digits_on fuel n) ≡ true
unfolding digits_on
digits_on-all zero n = refl
digits_on-all (suc fuel) n = elim (Bool-cases (ltb n 10)) [
  | inl small ↦ ground (arith, small)
  | inr large ↦
      let last : is_digit (48 + n % 10) ≡ true = ground arith in
      ground (
        arith,
        large,
        all-append_last (digits_on fuel (n / 10)) (48 + n % 10) (digits_on-all fuel (n / 10)) last,
      )
]

pub starts_digit : Bytes → Bool
starts_digit [] = false
starts_digit (b ∷ bs) = is_digit b

span_digits-append :
    (xs rest : Bytes)
    → all is_digit xs ≡ true
    → starts_digit rest ≡ false
    → span_digits (xs ++ rest) ≡ (xs, rest)
unfolding span_digits starts_digit
span_digits-append [] [] h k = refl
span_digits-append [] (b ∷ rest) h k = ground (arith, k)
span_digits-append (x ∷ xs) rest h k =
    let tail : all is_digit xs ≡ true = ground (arith, h) in
    ground (arith, h, span_digits-append xs rest tail k)

digits_on-first : (fuel n : ℕ) → suc n ≤ fuel → (b : ℕ) × (bs : Bytes) × (digits_on fuel n ≡ b ∷ bs)
unfolding digits_on
digits_on-first zero n le = absurd (omega (arith, le))
digits_on-first (suc fuel) n le = elim (Bool-cases (ltb n 10)) [
  | inl small ↦ (48 + n, [], ground (arith, small))
  | inr large ↦
      let found : (b : ℕ) × (bs : Bytes) × (digits_on fuel (n / 10) ≡ b ∷ bs) =
        digits_on-first fuel (n / 10) (ground (arith, le, large)) in
      (found.0, found.1 ++ (48 + n % 10) ∷ [], ground (arith, large, found.2))
]

number_at-some :
    (xs rest : Bytes) (b : ℕ) (bs : Bytes) → xs ≡ b ∷ bs → number_at xs rest ≡ some (atoi xs, rest)
number_at-some [] rest b bs same = absurd (ground (arith, same))
number_at-some (x ∷ xs) rest b bs same = refl

atoi-print_number : (n : ℕ) → n ≤ max_int → atoi (print_number n) ≡ n
unfolding atoi print_number
atoi-print_number n le = omega (arith, le, value_from-digits_on (suc n) n (omega arith))

read_number-print_number :
    (n : ℕ) (rest : Bytes)
    → n ≤ max_int
    → starts_digit rest ≡ false
    → read_number (print_number n ++ rest) ≡ some (n, rest)
unfolding read_number print_number
read_number-print_number n rest le stops =
    let first : (b : ℕ) × (bs : Bytes) × (digits_on (suc n) n ≡ b ∷ bs) =
      digits_on-first (suc n) n (omega arith) in
    let spans : span_digits (print_number n ++ rest) ≡ (print_number n, rest) =
      span_digits-append (print_number n) rest (digits_on-all (suc n) n) stops in
    ap (λ (found : Bytes × Bytes). number_at found.0 found.1) spans
    ∙ number_at-some (print_number n) rest first.0 first.1 first.2
    ∙ ap (λ (m : ℕ). some (m, rest)) (atoi-print_number n le)

read_count-print_number :
    (n : ℕ) (rest : Bytes)
    → n ≤ max_int
    → starts_digit rest ≡ false
    → read_count (44 ∷ print_number n ++ rest) ≡ some (n, rest)
unfolding read_count
read_count-print_number n rest le stops = read_number-print_number n rest le stops

-- One side of a hunk: "1,2".
unfoldable pub print_range : ℕ → ℕ → Bytes → Bytes
print_range start count rest = print_number start ++ (44 ∷ print_number count ++ rest)

range_of : ℕ → ℕ × Bytes → Option (ℕ × ℕ × Bytes)
range_of start count = some (start, count.0, count.1)

range_from : ℕ × Bytes → Option (ℕ × ℕ × Bytes)
unfolding range_of
range_from start = read_count start.1 >>= range_of start.0

read_range-print_range :
    (start count : ℕ) (rest : Bytes)
    → start ≤ max_int
    → count ≤ max_int
    → starts_digit rest ≡ false
    → read_range (print_range start count rest) ≡ some (start, count, rest)
unfolding read_range read_number read_count span_digits atoi print_range starts_digit range_from
    range_of
read_range-print_range start count rest le le' stops =
    bind_at range_from (read_number-print_number start (44 ∷ print_number count ++ rest) le refl)
    ∙ bind_at (range_of start) (read_count-print_number count rest le' stops)

-- The header of a hunk: "@@ -1,2 +3,4 @@".
unfoldable pub print_hunk_header : PatchHunk → Bytes
print_hunk_header h =
    let new = print_range h.new_start h.new_count (32 ∷ 64 ∷ 64 ∷ []) in
    64 ∷ 64 ∷ 32 ∷ 45 ∷ print_range h.old_start h.old_count (32 ∷ 43 ∷ new)

pub record FitsInt (h : PatchHunk) : Type 0 where
  pub old_start_fits : h.old_start ≤ max_int
  pub old_count_fits : h.old_count ≤ max_int
  pub new_start_fits : h.new_start ≤ max_int
  pub new_count_fits : h.new_count ≤ max_int

header_new : ℕ × ℕ × Bytes → ℕ × ℕ × Bytes → Option PatchHunk
header_new old new =
    cut_prefix (32 ∷ 64 ∷ 64 ∷ []) new.2 >>= λ (rest : Bytes). some (hunk_at old new)

header_old : ℕ × ℕ × Bytes → Option PatchHunk
unfolding header_new
header_old old = cut_prefix (32 ∷ 43 ∷ []) old.2 >>= λ (text : Bytes).
    read_range text >>= λ (new : ℕ × ℕ × Bytes). header_new old new

pub parse_hunk_header-print_hunk_header :
    (h : PatchHunk)
    → FitsInt h
    → parse_hunk_header (print_hunk_header h) ≡ some (record h { lines = [] })
unfolding parse_hunk_header read_range read_number read_count span_digits atoi print_hunk_header
    starts_digit header_old header_new
parse_hunk_header-print_hunk_header h fits =
    let tail = print_range h.new_start h.new_count (32 ∷ 64 ∷ 64 ∷ []) in
    bind_at header_old (
      read_range-print_range h.old_start h.old_count (32 ∷ 43 ∷ tail) fits.old_start_fits
        fits.old_count_fits refl)
    ∙ bind_at (header_new (h.old_start, h.old_count, 32 ∷ 43 ∷ tail)) (
        read_range-print_range h.new_start h.new_count (32 ∷ 64 ∷ 64 ∷ []) fits.new_start_fits
          fits.new_count_fits refl)
