-- ===== src/Flags/Numbers.antt =====
-- The numeric flags read back what is printed in decimal, and refuse what does not fit.
use mathlib.Core.List.{append-nil}
use native.Mathlib.Nat.{pow-le-pow_right, one-le-pow, mod-eq_of_lt, mul-le-mul, mul-le-mul_left}
use data_commoms.Base.{
  ℕ, zero, suc, ◌-◌, ◌*◌, ◌%◌, ◌^◌, ◌≤◌, ◌<◌, ◌≡◌, refl, sym, ap, ◌∙◌, Bool, true, false, some, [],
  ◌∷◌, ◌++◌, arith, ltb, if◌then◌else◌, Bool-cases, inl, inr, pos,
}
use data_commoms.Text.{
  Bytes, text, starts_with_digit, is_digit, skip_space, sign, digits, strtoull, strtol, ullong_max,
  long_max, neg_ℕ, toupper,
}
use data_commoms.Text.Decimal.{dec, dec_parts, strtoull-dec, strtoull-dec_over}
use data_commoms.Flags.{integer_overflow}
use data_commoms.Flags.Values.{
  sets, stops, parse_uint, parse_int, size_suffix, size_max, parse_size,
}

reads_back :
    (n : ℕ) → n ≤ ullong_max → strtoull (dec n) ≡ record { value = n; rest = []; erange = false }
unfolding starts_with_digit
reads_back n h = ap strtoull (sym (append-nil (dec n))) ∙ strtoull-dec n [] refl h

saturates :
    (n : ℕ)
    → ullong_max < n
    → strtoull (dec n) ≡ record { value = ullong_max; rest = []; erange = true }
unfolding starts_with_digit
saturates n h = ap strtoull (sym (append-nil (dec n))) ∙ strtoull-dec_over n [] refl h

pow_bounds : (w : ℕ) → w ≤ 64 → (1 ≤ 2 ^ w) × (2 ^ w ≤ 2 ^ 64)
pow_bounds w h =
    (one-le-pow w 2 (omega arith), pow-le-pow_right {n = 2} (omega arith) {i = w} {j = 64} h)

-- An unsigned flag of `w` bits, given a number in decimal, takes it if it has `w` bits, and reports
-- an overflow otherwise, however long the number is.
pub parse_uint-dec :
    (w n : ℕ)
    → w ≤ 64
    → parse_uint w (dec n) ≡ (if ltb n (2 ^ w) then sets n else stops integer_overflow)
unfolding parse_uint
parse_uint-dec w n h = elim (Bool-cases (ltb ullong_max n)) [
  | inl e ↦ rw (saturates n (ground arith)) (ground (arith, pow_bounds w h))
  | inr e ↦
      rw (reads_back n (ground arith))
        (ground (arith, pow_bounds w h, mod-eq_of_lt {n = n} {m = 2 ^ w}))
]

numeral_parts :
    (n : ℕ)
    → (sign (skip_space (dec n)) ≡ (false, dec n))
      × (digits 0 (dec n) ≡ (n, []))
      × (starts_with_digit (dec n) ≡ true)
unfolding starts_with_digit
numeral_parts n = rw append-nil at (dec_parts n [] refl)

-- A minus is accepted on an unsigned flag: the value wraps at 2^64 before the check of the width.
pub parse_uint_minus :
    (w n : ℕ)
    → w ≤ 64
    → n ≤ ullong_max
    → parse_uint w (b'-' ∷ dec n)
      ≡ (let m = (2 ^ 64 - n) % 2 ^ 64 in if ltb m (2 ^ w) then sets m else stops integer_overflow)
unfolding parse_uint strtoull
parse_uint_minus w n h fits =
    let (a, b, c) = numeral_parts n in
    rw (b, c) (ground (arith, pow_bounds w h, mod-eq_of_lt {n = (2 ^ 64 - n) % 2 ^ 64} {m = 2 ^ w}))

abbrev pub signed_dec : Bool → ℕ → Bytes
signed_dec true n = b'-' ∷ dec n
signed_dec false n = dec n

-- An `int` flag, given a number in decimal with or without a minus, takes it if it has 32 bits, and
-- reports an overflow otherwise.
pub parse_int-dec :
    (neg : Bool) (n : ℕ)
    → parse_int (signed_dec neg n) ≡ (
        if neg
        then (if ltb (2 ^ 31) n then stops integer_overflow else sets (neg_ℕ n))
        else (if ltb n (2 ^ 31) then sets (pos n) else stops integer_overflow))
unfolding parse_int strtol
parse_int-dec true zero = let (a, b, c) = numeral_parts 0 in rw (b, c)
parse_int-dec true (suc n) =
    let (a, b, c) = numeral_parts (suc n) in
    elim (Bool-cases (ltb (2 ^ 63) (suc n))) [
      | inl e ↦ rw (b, c, e) (ground arith)
      | inr e ↦ rw (b, c, e) (ground arith)
    ]
parse_int-dec false n =
    let (a, b, c) = numeral_parts n in
    elim (Bool-cases (ltb long_max n)) [
      | inl e ↦ rw (a, b, c, e) (ground arith)
      | inr e ↦ rw (a, b, c, e) (ground arith)
    ]

-- The units of a size: the text, and the power of two.
pub data SizeUnit : Bytes → ℕ → Type 0 where
  no_unit : SizeUnit [] 0
  kilo : SizeUnit (text "K") 10
  kilo_small : SizeUnit (text "k") 10
  mega : SizeUnit (text "M") 20
  mega_small : SizeUnit (text "m") 20
  giga : SizeUnit (text "G") 30
  giga_small : SizeUnit (text "g") 30
  tera : SizeUnit (text "T") 40
  tera_small : SizeUnit (text "t") 40
  peta : SizeUnit (text "P") 50
  peta_small : SizeUnit (text "p") 50

abbrev UnitIs : Bytes → ℕ → Type 0
UnitIs s e = (size_suffix s ≡ some (2 ^ e)) × (e ≤ 50) × (starts_with_digit s ≡ false)

unit_lem : (s : Bytes) (e : ℕ) → SizeUnit s e → UnitIs s e
unfolding size_suffix toupper starts_with_digit is_digit
unit_lem _ _ no_unit = (refl, omega arith, refl)
unit_lem _ _ kilo = (refl, omega arith, refl)
unit_lem _ _ kilo_small = (refl, omega arith, refl)
unit_lem _ _ mega = (refl, omega arith, refl)
unit_lem _ _ mega_small = (refl, omega arith, refl)
unit_lem _ _ giga = (refl, omega arith, refl)
unit_lem _ _ giga_small = (refl, omega arith, refl)
unit_lem _ _ tera = (refl, omega arith, refl)
unit_lem _ _ tera_small = (refl, omega arith, refl)
unit_lem _ _ peta = (refl, omega arith, refl)
unit_lem _ _ peta_small = (refl, omega arith, refl)

-- A size flag, given a number in decimal with nothing or one of the letters K, M, G, T and P
-- (either case) behind it, takes the number times 1, 2^10, 2^20, 2^30, 2^40 or 2^50 if that has 64
-- bits, and reports an overflow otherwise.
pub parse_size-dec :
    (n : ℕ) {suffix : Bytes} {e : ℕ}
    → SizeUnit suffix e
    → parse_size (dec n ++ suffix)
      ≡ (if ltb size_max (n * 2 ^ e) then stops integer_overflow else sets (n * 2 ^ e))
unfolding parse_size
parse_size-dec n {suffix} {e = exp} unit =
    let (h, small, stop) = unit_lem suffix exp unit in
    let mult = 2 ^ exp in
    let low : 1 ≤ mult = one-le-pow exp 2 (omega arith) in
    let high : mult ≤ 2 ^ 50 = pow-le-pow_right {n = 2} (omega arith) {i = exp} {j = 50} small in
    elim (Bool-cases (ltb ullong_max n)) [
      | inl e ↦
          let big : n * 1 ≤ n * mult = mul-le-mul_left {m = 1} {n = mult} n low in
          rw (strtoull-dec_over n suffix stop (ground arith)) (ground (arith, big))
      | inr e ↦
          let wide : n * mult ≤ ullong_max * 2 ^ 50 =
            mul-le-mul {n₂ = ullong_max} (ground arith) high in
          rw (strtoull-dec n suffix stop (ground arith), h) (ground (arith, wide))
    ]
