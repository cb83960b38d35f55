-- ===== src/Text/Find.antt =====
-- What the searches of the C library find in a text with known pieces.
use mathlib.Core.List.{append_assoc}
use data_commoms.Base.{
  ℕ, ◌-◌, ◌<◌, ◌≡◌, refl, Bool, true, false, not, ◌&&◌, ◌||◌, none, some, [], ◌∷◌, ◌++◌, arith,
  ◌==◌, leb, length,
}
use data_commoms.Text.{Bytes, streq, strchr}
use data_commoms.Text.Search.{starts_with, strstr, read_lines}

-- The byte `c` does not stand in the text.
abbrev pub lacks : ℕ → Bytes → Bool
lacks c [] = true
lacks c (x ∷ s) = not (x == c) && lacks c s

pub lacks-append :
    (c : ℕ) (a b : Bytes) → lacks c a ≡ true → lacks c b ≡ true → lacks c (a ++ b) ≡ true
lacks-append c [] b h k = k
lacks-append c (x ∷ a) b h k = ground (arith, lacks-append c a b)

-- `strchr` stops at the byte that was put there, and gives null where there is none.
pub strchr-append :
    (c : ℕ) (a rest : Bytes) → lacks c a ≡ true → strchr (a ++ c ∷ rest) c ≡ (a, some rest)
unfolding strchr
strchr-append c [] rest h = ground arith
strchr-append c (x ∷ a) rest h =
    let other : (x == c) ≡ false = ground arith in
    let ih = strchr-append c a rest (ground arith) in rw (other, ih)

pub strchr-lacks : (c : ℕ) (s : Bytes) → lacks c s ≡ true → strchr s c ≡ (s, none)
unfolding strchr
strchr-lacks c [] h = refl
strchr-lacks c (x ∷ s) h =
    let other : (x == c) ≡ false = ground arith in
    let ih = strchr-lacks c s (ground arith) in rw (other, ih)

pub streq_refl : (s : Bytes) → streq s s ≡ true
unfolding streq
streq_refl [] = refl
streq_refl (x ∷ s) = ground (arith, streq_refl s)

pub streq_eq : (a b : Bytes) → streq a b ≡ true → a ≡ b
unfolding streq
streq_eq (x ∷ a) (y ∷ b) h = ground (arith, streq_eq a b)
streq_eq [] [] h = refl
streq_eq [] (y ∷ b) h = cc
streq_eq (x ∷ a) [] h = cc

starts_with-append : (a rest : Bytes) → starts_with a (a ++ rest) ≡ true
unfolding starts_with
starts_with-append [] rest = refl
starts_with-append (x ∷ a) rest = ground (arith, starts_with-append a rest)

-- A text is found at the front.
pub strstr-front : (a rest : Bytes) → strstr (a ++ rest) a ≡ some ([], a ++ rest)
unfolding strstr
strstr-front [] [] = refl
strstr-front [] (c ∷ rest) = refl
strstr-front (x ∷ a) rest = rw (starts_with-append (x ∷ a) rest)

-- A line that fits into the buffer is read as one.
pub read_lines-line :
    (max room : ℕ) (line s rest : Bytes)
    → lacks b'\n' s ≡ true
    → length s < room
    → read_lines max room line (s ++ b'\n' ∷ rest)
      ≡ (line ++ (s ++ b'\n' ∷ [])) ∷ read_lines max max [] rest
unfolding read_lines
read_lines-line max room line [] rest h le = ground arith
read_lines-line max room line (c ∷ s) rest h le =
    let other : (c == b'\n' || leb room 1) ≡ false = ground arith in
    let ih = read_lines-line max (room - 1) (line ++ c ∷ []) s rest (ground arith) (omega arith) in
    rw (other, ih, append_assoc)
