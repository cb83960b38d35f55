-- ===== src/Params/Words.antt =====
-- How a line reads back: the value that stands between the `=` and the comment.
use mathlib.Core.List.{append_assoc, append-nil}
use data_commoms.Base.{
  ℕ, suc, ◌-◌, ◌%◌, ◌^◌, ◌<◌, ◌≡◌, refl, Bool, true, false, ◌&&◌, [], ◌∷◌, ◌++◌, arith, ◌==◌, ltb,
  Bool-cases, inl, inr, some, length, ℤ, pos, negsuc, ◌≤ℤ◌, int_max, int_min,
}
use data_commoms.Text.{Bytes, strchr, streq, strtoull, goes_on, starts_with_digit, is_digit}
use data_commoms.Text.Find.{lacks, strchr-append}
use data_commoms.Text.Decimal.{
  int_text, dec, dec-goes_on, lacks-dec, strtoull-dec, strtoull-minus_dec, strtol-dec,
  strtol-minus_dec,
}
use data_commoms.Params.{FloatText, Param}
use data_commoms.Params.Items.{bool_word}
use data_commoms.Params.Line.{
  blanks, value_end, up_to_space, store_as, after_store, param_turn, atoi,
}
use data_commoms.Params.Keys.{is_name, find_value-front}
use data_commoms.Params.Save.{uint_text, bool_text}

-- A value as one word.
abbrev pub is_word : Bytes → Bool
is_word v = goes_on v && lacks b' ' v && lacks b'=' v && lacks b'\n' v

pub blanks-word :
    (v t : Bytes) → goes_on v ≡ true → lacks b' ' v ≡ true → blanks (v ++ t) ≡ ([], v ++ t)
unfolding blanks
blanks-word [] t g h = cc
blanks-word (c ∷ v) t g h = let other : (c == b' ') ≡ false = ground arith in rw other refl

module _ (fl : FloatText) (junk : Bytes) where
  pub turn-word :
      (q : Param fl) (v rest : Bytes)
      → is_name q.name ≡ true
      → length (q.name ++ b'=' ∷ (v ++ b' ' ∷ rest)) < 256
      → is_word v ≡ true
      → ((w : Bytes) → value_end q.type w ≡ up_to_space w (strchr w b' '))
      → param_turn fl junk q (q.name ++ b'=' ∷ (v ++ b' ' ∷ rest))
        ≡ after_store fl junk (q.name ++ b'=' ∷ v) (store_as fl junk q.type q v)
  unfolding param_turn
  turn-word q v rest n le w e = rw (
    find_value-front q.name (v ++ b' ' ∷ rest) n le,
    blanks-word v (b' ' ∷ rest) (ground arith) (ground arith),
    e (v ++ b' ' ∷ rest),
    strchr-append b' ' v rest (ground arith),
    append-nil (q.name ++ b'=' ∷ []),
    append_assoc,
  )

-- The numerals are words, and read back as the number they were.
pub int_text-word : (z : ℤ) → is_word (int_text z) ≡ true
unfolding is_digit
int_text-word (pos n) =
    let g = rw (append-nil (dec n)) at (dec-goes_on n []) in
    rw (g, lacks-dec b' ' n refl, lacks-dec b'=' n refl, lacks-dec b'\n' n refl)
int_text-word (negsuc n) =
    rw (lacks-dec b' ' (suc n) refl, lacks-dec b'=' (suc n) refl, lacks-dec b'\n' (suc n) refl)

pub atoi-int_text : (z : ℤ) → int_min ≤ℤ z → z ≤ℤ int_max → atoi (int_text z) ≡ z
unfolding atoi starts_with_digit
atoi-int_text (pos n) lo hi =
    let r = rw (append-nil (dec n)) at (strtol-dec n [] refl (omega arith)) in rw r (ground arith)
atoi-int_text (negsuc n) lo hi =
    let r = rw (append-nil (dec (suc n))) at (strtol-minus_dec n [] refl (omega arith)) in
    rw r (ground arith)

-- A number over 2^31 is printed as a negative one, and still read as it was.
pub strtoull-uint_text :
    (n : ℕ)
    → n < 2 ^ 32
    → (goes_on (strtoull (uint_text n)).rest ≡ false)
      × ((strtoull (uint_text n)).value % 2 ^ 32 ≡ n)
unfolding starts_with_digit
strtoull-uint_text n h = elim (Bool-cases (ltb (n % 2 ^ 32) (2 ^ 31))) [
  | inl e ↦
      let low : n % 2 ^ 32 ≡ n = omega arith in
      let r = rw (append-nil (dec n)) at (strtoull-dec n [] refl (omega arith)) in
      rw (e, low, r) (refl, omega arith)
  | inr e ↦
      let k : ℕ = 2 ^ 32 - n % 2 ^ 32 in
      let num : suc (2 ^ 32 - n % 2 ^ 32 - 1) ≡ k = omega arith in
      let r = rw (append-nil (dec k)) at (strtoull-minus_dec k [] refl (omega arith)) in
      rw (e, num, r) (refl, omega arith)
]

pub bool_word-bool_text : (b : Bool) → bool_word (bool_text b) ≡ some b
unfolding bool_word streq
bool_word-bool_text true = refl
bool_word-bool_text false = refl

pub bool_text-word : (b : Bool) → is_word (bool_text b) ≡ true
bool_text-word true = refl
bool_text-word false = refl
