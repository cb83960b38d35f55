-- ===== src/Params/Keys.antt =====
-- Which parameter a line is for: the one whose name stands at its front, and no other whose name is
-- not the end of that name.
use mathlib.Core.List.{append_assoc}
use data_commoms.Base.{
  ℕ, suc, ◌≤◌, ◌<◌, ◌≡◌, refl, Bool, true, false, not, ◌&&◌, ◌||◌, Option, none, some, [], ◌∷◌,
  ◌++◌, arith, ◌==◌, leb, if◌then◌else◌, Bool-cases, inl, inr, length,
}
use data_commoms.Text.{Bytes, streq, strchr}
use data_commoms.Text.Search.{starts_with, strstr}
use data_commoms.Text.Find.{lacks, strchr-append, strchr-lacks, streq_refl, strstr-front}
use data_commoms.Params.Line.{cut_name, absent, overrun, value_at, at_equals, find_value}

-- A name as the format of the file allows it.
abbrev pub is_name : Bytes → Bool
is_name s = lacks b'=' s && lacks b' ' s && lacks b'\n' s && lacks b'#' s

-- `q` is the end of `p`.
unfoldable pub ends_with : Bytes → Bytes → Bool
ends_with [] q = streq [] q
ends_with (c ∷ p) q = streq (c ∷ p) q || ends_with p q

cut_name-lacks : (s : Bytes) → lacks b' ' s ≡ true → cut_name s ≡ s
unfolding cut_name
cut_name-lacks [] h = refl
cut_name-lacks (c ∷ s) h = rw (strchr-lacks b' ' s (ground arith))

-- The text from a hit on up to the first `=` is not the name.
abbrev differs : Bytes → Bytes × Option Bytes → Bool
differs q (key, none) = true
differs q (key, some v) = not (streq (cut_name key) q)

abbrev Misses : Bytes → ℕ → Option (Bytes × Bytes) → Type 0
Misses q n none = Unit
Misses q n (some (before, from)) = (differs q (strchr from b'=') ≡ true) × (length from ≤ n)

Misses-cons :
    (q : Bytes) (c n : ℕ) (o : Option (Bytes × Bytes))
    → Misses q n o
    → Misses q (suc n) (elim o [ none ↦ none | some (before, from) ↦ some (c ∷ before, from) ])
Misses-cons q c n none m = tt
Misses-cons q c n (some (before, from)) (d, le) = (d, omega arith)

-- Behind the `=` no key is found.
strstr-Misses_value : (q r : Bytes) → lacks b'=' r ≡ true → Misses q (length r) (strstr r q)
unfolding strstr
strstr-Misses_value q [] h = elim (Bool-cases (starts_with q [])) [
  | inl s ↦ rw s (rw (strchr-lacks b'=' [] refl) refl, omega arith)
  | inr s ↦ rw s tt
]
strstr-Misses_value q (c ∷ r) h = elim (Bool-cases (starts_with q (c ∷ r))) [
  | inl s ↦ rw s (rw (strchr-lacks b'=' (c ∷ r) h) refl, omega arith)
  | inr s ↦ rw s (Misses-cons q c (length r) (strstr r q) (strstr-Misses_value q r (ground arith)))
]

strstr-Misses :
    (q p r : Bytes)
    → lacks b'=' p ≡ true
    → lacks b' ' p ≡ true
    → lacks b'=' r ≡ true
    → ends_with p q ≡ false
    → Misses q (length (p ++ b'=' ∷ r)) (strstr (p ++ b'=' ∷ r) q)
unfolding strstr ends_with cut_name
strstr-Misses q [] r e s h k = elim (Bool-cases (starts_with q (b'=' ∷ r))) [
  | inl st ↦ rw st (rw (strchr-append b'=' [] r refl) (ground arith), omega arith)
  | inr st ↦ rw st (Misses-cons q b'=' (length r) (strstr r q) (strstr-Misses_value q r h))
]
strstr-Misses q (c ∷ p) r e s h k = elim (Bool-cases (starts_with q (c ∷ (p ++ b'=' ∷ r)))) [
  | inl st ↦
      rw st
        (rw (strchr-append b'=' (c ∷ p) r e, cut_name-lacks (c ∷ p) s) (ground arith), omega arith)
  | inr st ↦ rw st (
      Misses-cons q c (length (p ++ b'=' ∷ r)) (strstr (p ++ b'=' ∷ r) q)
        (strstr-Misses q p r (ground arith) (ground arith) h (ground arith)))
]

at_equals-absent :
    (q before : Bytes) (x : Bytes × Option Bytes)
    → differs q x ≡ true
    → at_equals q before x ≡ absent
at_equals-absent q before (key, none) h = refl
at_equals-absent q before (key, some v) h = ground arith

-- Another parameter is not on the line.
pub find_value-absent :
    (q p r : Bytes)
    → is_name p ≡ true
    → lacks b'=' r ≡ true
    → length (p ++ b'=' ∷ r) < 256
    → ends_with p q ≡ false
    → find_value q (p ++ b'=' ∷ r) ≡ absent
unfolding find_value
find_value-absent q p r n h le k =
    go (strstr (p ++ b'=' ∷ r) q) (strstr-Misses q p r (ground arith) (ground arith) h k)
  where
    go :
        (o : Option (Bytes × Bytes))
        → Misses q (length (p ++ b'=' ∷ r)) o
        → elim o [
          | none ↦ absent
          | some (before, from) ↦
              if leb 256 (length from) then overrun else at_equals q before (strchr from b'=')
        ]
          ≡ absent
    go none m = refl
    go (some (before, from)) (d, small) =
        let fits : leb 256 (length from) ≡ false = ground arith in
        rw fits (at_equals-absent q before (strchr from b'=') d)

-- The parameter itself is.
pub find_value-front :
    (p r : Bytes)
    → is_name p ≡ true
    → length (p ++ b'=' ∷ r) < 256
    → find_value p (p ++ b'=' ∷ r) ≡ value_at (p ++ b'=' ∷ []) r
unfolding find_value
find_value-front p r n le =
    let fits : leb 256 (length (p ++ b'=' ∷ r)) ≡ false = ground arith in
    rw (
      strstr-front p (b'=' ∷ r),
      fits,
      strchr-append b'=' p r (ground arith),
      cut_name-lacks p (ground arith),
      streq_refl p,
      find_value,
    )

starts_with-lacks :
    (c : ℕ) (q s : Bytes) (d : ℕ) → (c == d) ≡ false → starts_with (c ∷ q) (d ∷ s) ≡ false
unfolding starts_with
starts_with-lacks c q s d h = rw h refl

strstr-behind :
    (pre s : Bytes) (c : ℕ) (q : Bytes)
    → lacks c pre ≡ true
    → strstr (pre ++ ((c ∷ q) ++ s)) (c ∷ q) ≡ some (pre, (c ∷ q) ++ s)
unfolding strstr
strstr-behind [] s c q h = strstr-front (c ∷ q) s
strstr-behind (d ∷ pre) s c q h =
    let other : (c == d) ≡ false = ground arith in
    rw
      (
        starts_with-lacks c q (pre ++ ((c ∷ q) ++ s)) d other,
        strstr-behind pre s c q (ground arith),
      )
      refl

-- A line for a longer name sets the parameter whose name is the end of it, if the first byte of
-- that name does not stand in front, the name is one that the format allows, and the line has less
-- than 256 bytes from that name on.
pub find_value-end_of_name :
    (pre : Bytes) (c : ℕ) (q r : Bytes)
    → is_name (c ∷ q) ≡ true
    → lacks c pre ≡ true
    → length ((c ∷ q) ++ b'=' ∷ r) < 256
    → find_value (c ∷ q) ((pre ++ c ∷ q) ++ b'=' ∷ r) ≡ value_at (pre ++ ((c ∷ q) ++ b'=' ∷ [])) r
unfolding find_value
find_value-end_of_name pre c q r n h le =
    let fits : leb 256 (length ((c ∷ q) ++ b'=' ∷ r)) ≡ false = ground arith in
    rw
      (
        append_assoc pre (c ∷ q) (b'=' ∷ r),
        find_value,
        strstr-behind pre (b'=' ∷ r) c q h,
        fits,
        strchr-append b'=' (c ∷ q) r (ground arith),
        cut_name-lacks (c ∷ q) (ground arith),
        streq_refl (c ∷ q),
      )
      refl
