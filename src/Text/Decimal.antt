-- ===== src/Text/Decimal.antt =====
-- Decimal numerals, as `%u` and `%d` print them, and how `strtoull` and `strtol` read them back.
use data_commoms.Base.{
  ℕ, zero, suc, ◌+◌, ◌*◌, ◌/◌, ◌%◌, ◌≤◌, ◌<◌, ◌≡◌, refl, ap, ◌∙◌, true, false, [], ◌∷◌, ◌++◌, arith,
  ltb, if◌then◌else◌, Bool-cases, inl, inr, ◌-◌, ◌^◌, ◌==◌, pos, negsuc, ℤ,
}
use data_commoms.Text.{
  Bytes, is_space, is_digit, skip_space, sign, digits, starts_with_digit, strtoull, ullong_max,
  strtol, long_max, goes_on,
}
use data_commoms.Text.Find.{lacks}

-- The numeral of `n`, in front of `rest`. A number has at most as many digits as its value and one.
dec_onto : ℕ → ℕ → Bytes → Bytes
dec_onto zero n rest = rest
dec_onto (suc fuel) n rest =
    let more = dec_onto fuel (n / 10) ((b'0' + n % 10) ∷ rest) in
    if ltb n 10 then (b'0' + n) ∷ rest else more

unfoldable pub dec : ℕ → Bytes
unfolding dec_onto
dec n = dec_onto (suc n) n []

-- `%i` and `%d`
abbrev pub int_text : ℤ → Bytes
int_text (pos n) = dec n
int_text (negsuc n) = b'-' ∷ dec (suc n)

digits-stop :
    (acc : ℕ) (rest : Bytes) → starts_with_digit rest ≡ false → digits acc rest ≡ (acc, rest)
unfolding digits starts_with_digit
digits-stop acc [] h = refl
digits-stop acc (c ∷ rest) h = rw h

digits-cons :
    (acc d : ℕ) (rest : Bytes)
    → d < 10
    → digits acc ((b'0' + d) ∷ rest) ≡ digits (acc * 10 + d) rest
unfolding digits
digits-cons acc d rest h =
    let test : is_digit (b'0' + d) ≡ true = (unfold is_digit in ground arith) in
    rw test (ap (λ t. digits t rest) (omega arith))

-- `digits` reads a numeral.
digits-dec_onto :
    (fuel n : ℕ) (rest : Bytes) → n < fuel → digits 0 (dec_onto fuel n rest) ≡ digits n rest
unfolding dec_onto
digits-dec_onto zero n rest h = absurd (omega arith)
digits-dec_onto (suc fuel) n rest h = elim (Bool-cases (ltb n 10)) [
  | inl e ↦ rw e (digits-cons 0 n rest (ground arith) ∙ ap (λ t. digits t rest) (omega arith))
  | inr e ↦ rw e (
      digits-dec_onto fuel (n / 10) ((b'0' + n % 10) ∷ rest) (ground arith)
      ∙ digits-cons (n / 10) (n % 10) rest (omega arith)
      ∙ ap (λ t. digits t rest) (omega arith))
]

dec_onto-starts :
    (fuel n : ℕ) (rest : Bytes) → n < fuel → starts_with_digit (dec_onto fuel n rest) ≡ true
unfolding dec_onto
dec_onto-starts zero n rest h = absurd (omega arith)
dec_onto-starts (suc fuel) n rest h = elim (Bool-cases (ltb n 10)) [
  | inl e ↦ rw e (unfold starts_with_digit is_digit in ground arith)
  | inr e ↦ rw e (dec_onto-starts fuel (n / 10) ((b'0' + n % 10) ∷ rest) (ground arith))
]

dec_onto-append :
    (fuel n : ℕ) (s rest : Bytes) → dec_onto fuel n s ++ rest ≡ dec_onto fuel n (s ++ rest)
unfolding dec_onto
dec_onto-append zero n s rest = refl
dec_onto-append (suc fuel) n s rest = elim (Bool-cases (ltb n 10)) [
  | inl e ↦ rw e
  | inr e ↦ rw e (dec_onto-append fuel (n / 10) ((b'0' + n % 10) ∷ s) rest)
]

dec-append : (n : ℕ) (rest : Bytes) → dec n ++ rest ≡ dec_onto (suc n) n rest
unfolding dec
dec-append n rest = dec_onto-append (suc n) n [] rest

-- A text that starts with a digit has neither space nor sign in front.
digit_first : (s : Bytes) → starts_with_digit s ≡ true → (skip_space s ≡ s) × (sign s ≡ (false, s))
unfolding starts_with_digit skip_space sign is_digit is_space
digit_first [] h = cc
digit_first (c ∷ s) h = ground arith

-- What the reading functions see of a numeral.
pub dec_parts :
    (n : ℕ) (rest : Bytes)
    → starts_with_digit rest ≡ false
    → (sign (skip_space (dec n ++ rest)) ≡ (false, dec n ++ rest))
      × (digits 0 (dec n ++ rest) ≡ (n, rest))
      × (starts_with_digit (dec n ++ rest) ≡ true)
dec_parts n rest h =
    let starts = rw (← dec-append n rest) at (dec_onto-starts (suc n) n rest (omega arith)) in
    let (skipped, signed) = digit_first (dec n ++ rest) starts in
    (
      ap sign skipped ∙ signed,
      ap (digits 0) (dec-append n rest)
          ∙ digits-dec_onto (suc n) n rest (omega arith)
          ∙ digits-stop n rest h,
      starts,
    )

-- `strtoull` reads the numeral of a number of 64 bits back, and stops behind it.
pub strtoull-dec :
    (n : ℕ) (rest : Bytes)
    → starts_with_digit rest ≡ false
    → n ≤ ullong_max
    → strtoull (dec n ++ rest) ≡ record { value = n; rest = rest; erange = false }
unfolding strtoull
strtoull-dec n rest h fits = let (a, b, c) = dec_parts n rest h in rw (a, b, c) (ground arith)

-- On a greater number it saturates.
pub strtoull-dec_over :
    (n : ℕ) (rest : Bytes)
    → starts_with_digit rest ≡ false
    → ullong_max < n
    → strtoull (dec n ++ rest) ≡ record { value = ullong_max; rest = rest; erange = true }
unfolding strtoull
strtoull-dec_over n rest h fits = let (a, b, c) = dec_parts n rest h in rw (a, b, c) (ground arith)

pub strtoull-minus_dec :
    (n : ℕ) (rest : Bytes)
    → starts_with_digit rest ≡ false
    → n ≤ ullong_max
    → strtoull (b'-' ∷ (dec n ++ rest))
      ≡ record { value = (2 ^ 64 - n) % 2 ^ 64; rest = rest; erange = false }
unfolding strtoull skip_space sign is_space
strtoull-minus_dec n rest h fits = let (a, b, c) = dec_parts n rest h in rw (b, c) (ground arith)

pub strtol-dec :
    (n : ℕ) (rest : Bytes)
    → starts_with_digit rest ≡ false
    → n ≤ long_max
    → strtol (dec n ++ rest) ≡ record { value = pos n; rest = rest; erange = false }
unfolding strtol
strtol-dec n rest h fits = let (a, b, c) = dec_parts n rest h in rw (a, b, c) (ground arith)

pub strtol-minus_dec :
    (n : ℕ) (rest : Bytes)
    → starts_with_digit rest ≡ false
    → suc n ≤ 2 ^ 63
    → strtol (b'-' ∷ (dec (suc n) ++ rest))
      ≡ record { value = negsuc n; rest = rest; erange = false }
unfolding strtol skip_space sign is_space
strtol-minus_dec n rest h fits =
    let (a, b, c) = dec_parts (suc n) rest h in rw (b, c) (ground arith)

-- A numeral has digits only.
lacks-dec_onto :
    (c fuel n : ℕ) (rest : Bytes)
    → is_digit c ≡ false
    → lacks c rest ≡ true
    → lacks c (dec_onto fuel n rest) ≡ true
unfolding dec_onto is_digit
lacks-dec_onto c zero n rest h k = k
lacks-dec_onto c (suc fuel) n rest h k =
    let other : ((b'0' + n % 10) == c) ≡ false = ground arith in
    let more = lacks-dec_onto c fuel (n / 10) ((b'0' + n % 10) ∷ rest) h (rw (other) k) in
    elim (Bool-cases (ltb n 10)) [
      | inl e ↦ (let last : ((b'0' + n) == c) ≡ false = ground arith in rw (e, last) k)
      | inr e ↦ rw e more
    ]

pub lacks-dec : (c n : ℕ) → is_digit c ≡ false → lacks c (dec n) ≡ true
unfolding dec
lacks-dec c n h = lacks-dec_onto c (suc n) n [] h refl

starts_with_digit-goes_on : (s : Bytes) → starts_with_digit s ≡ true → goes_on s ≡ true
unfolding starts_with_digit
starts_with_digit-goes_on [] h = cc
starts_with_digit-goes_on (c ∷ s) h = refl

pub dec-goes_on : (n : ℕ) (rest : Bytes) → goes_on (dec n ++ rest) ≡ true
dec-goes_on n rest =
    starts_with_digit-goes_on (dec n ++ rest)
      (rw (dec-append n rest) (dec_onto-starts (suc n) n rest (omega arith)))
