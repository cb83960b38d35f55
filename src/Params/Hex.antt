-- ===== src/Params/Hex.antt =====
-- Binary data: pairs of hexadecimal digits, as `%02X` prints them and `strtoul` reads them back.
use mathlib.Core.List.{append_assoc, append-nil}
use data_commoms.Base.{
  ℕ, ◌+◌, ◌*◌, ◌/◌, ◌%◌, ◌≤◌, ◌<◌, ◌≡◌, refl, ap, ◌∙◌, Bool, true, false, ◌&&◌, ◌||◌, some, [], ◌∷◌,
  ◌++◌, arith, length, length-append, ltb, leb, ◌==◌,
}
use data_commoms.Text.{Bytes, text, is_digit, is_space, skip_space, sign}
use data_commoms.Text.Search.{is_some, hex_digit, hex_digits, hex_prefix, strtoul_16}
use data_commoms.Text.Find.{lacks, lacks-append, strchr-append, strchr-lacks, strstr-front}
use data_commoms.Params.{FloatText, binary, bin, Param, max_bin}
use data_commoms.Params.Line.{value_end, store_as, param_turn, read_bytes, over, blanks}
use data_commoms.Params.Keys.{find_value-front}
use data_commoms.Params.Save.{hex_char, hex_text_of}
use data_commoms.Params.Reads.{Reads, Fits}

-- The memory goes on with a hexadecimal digit.
abbrev pub starts_hex : Bytes → Bool
starts_hex [] = false
starts_hex (c ∷ s) = is_some (hex_digit c)

hex_digit-hex_char : (d : ℕ) → d < 16 → hex_digit (hex_char d) ≡ some d
unfolding hex_digit is_digit
hex_digit-hex_char d h = ground arith

hex_prefix-none :
    (a b : ℕ) (s : Bytes) → (b == b'x' || b == b'X') ≡ false → hex_prefix (a ∷ b ∷ s) ≡ a ∷ b ∷ s
unfolding hex_prefix
hex_prefix-none a b [] h = refl
hex_prefix-none a b (c ∷ s) h = ground arith

hex_digits-stop : (n : ℕ) (s : Bytes) → starts_hex s ≡ false → hex_digits n s ≡ n
unfolding hex_digits
hex_digits-stop n [] h = refl
hex_digits-stop n (c ∷ s) h = ground arith

hex_digits-cons :
    (n d : ℕ) (s : Bytes) → d < 16 → hex_digits n (hex_char d ∷ s) ≡ hex_digits (n * 16 + d) s
unfolding hex_digits
hex_digits-cons n d s h = rw (hex_digit-hex_char d h, hex_digits) refl

hex_char-plain :
    (d : ℕ) (s : Bytes)
    → d < 16
    → (skip_space (hex_char d ∷ s) ≡ hex_char d ∷ s)
      × (sign (hex_char d ∷ s) ≡ (false, hex_char d ∷ s))
      × ((hex_char d == b'x' || hex_char d == b'X') ≡ false)
unfolding skip_space sign is_space
hex_char-plain d s h = (ground arith, ground arith, ground arith)

strtoul_16-pair :
    (b : ℕ) (junk : Bytes)
    → b < 256
    → starts_hex junk ≡ false
    → strtoul_16 (hex_char (b / 16) ∷ hex_char (b % 16) ∷ junk) ≡ b
unfolding strtoul_16
strtoul_16-pair b junk h j =
    let hi : b / 16 < 16 = omega arith in
    let lo : b % 16 < 16 = omega arith in
    let (skips, plus, _) = hex_char-plain (b / 16) (hex_char (b % 16) ∷ junk) hi in
    let (_, _, no_x) = hex_char-plain (b % 16) junk lo in
    let value : hex_digits 0 (hex_char (b / 16) ∷ hex_char (b % 16) ∷ junk) ≡ b =
      hex_digits-cons 0 (b / 16) (hex_char (b % 16) ∷ junk) hi
      ∙ ap (λ n. hex_digits n (hex_char (b % 16) ∷ junk)) (omega arith)
      ∙ hex_digits-cons (b / 16) (b % 16) junk lo
      ∙ hex_digits-stop (b / 16 * 16 + b % 16) junk j
      ∙ omega arith in
    rw (skips, plus, hex_prefix-none (hex_char (b / 16)) (hex_char (b % 16)) junk no_x, value)
      (ground arith)

-- Each byte is one.
abbrev pub are_bytes : Bytes → Bool
are_bytes [] = true
are_bytes (b ∷ bs) = ltb b 256 && are_bytes bs

read_bytes-hex_text_of :
    (junk bs : Bytes)
    → starts_hex junk ≡ false
    → are_bytes bs ≡ true
    → read_bytes junk (length bs) (hex_text_of bs) ≡ some bs
unfolding read_bytes hex_text_of
read_bytes-hex_text_of junk [] j h = refl
read_bytes-hex_text_of junk (b ∷ bs) j h =
    rw (read_bytes-hex_text_of junk bs j (ground arith), strtoul_16-pair b junk (ground arith) j)
      (ap (λ x. some (x ∷ bs)) (ground arith))

length-hex_text_of : (bs : Bytes) → length (hex_text_of bs) / 2 ≡ length bs
unfolding hex_text_of
length-hex_text_of bs = let twice = go bs in omega arith
  where
    go : (s : Bytes) → length (hex_text_of s) ≡ length s * 2
    go [] = refl
    go (b ∷ s) = let ih = go s in omega arith

-- A byte that is no digit of `%02X` is not in the text.
pub lacks-hex_text_of :
    (c : ℕ) (bs : Bytes)
    → (is_digit c || (leb b'A' c && leb c b'F')) ≡ false
    → are_bytes bs ≡ true
    → lacks c (hex_text_of bs) ≡ true
unfolding hex_text_of is_digit
lacks-hex_text_of c [] h k = refl
lacks-hex_text_of c (b ∷ bs) h k = let ih = lacks-hex_text_of c bs h (ground arith) in ground arith

over-all : (bs old : Bytes) → length bs ≡ length old → over bs old ≡ bs
over-all [] [] h = refl
over-all [] (o ∷ old) h = absurd (omega arith)
over-all (b ∷ bs) [] h = refl
over-all (b ∷ bs) (o ∷ old) h = ap (λ t. b ∷ t) (over-all bs old (omega arith))

module _ (fl : FloatText) (junk : Bytes) where
  -- The line of a parameter with binary data reads back.
  pub Reads-bin :
      (q : Param fl) (bs old : Bytes)
      → q.type ≡ binary
      → q.val ≡ bin old
      → length bs ≡ q.room
      → length old ≡ q.room
      → starts_hex junk ≡ false
      → are_bytes bs ≡ true
      → Fits fl junk q (b'0' ∷ b'x' ∷ (hex_text_of bs ++ b'\n' ∷ []))
      → Reads fl junk q (bin bs) (b'0' ∷ b'x' ∷ (hex_text_of bs ++ b'\n' ∷ []))
  unfolding param_turn value_end store_as blanks is_digit
  Reads-bin q bs old t was len len' j h (n, le) =
      let w : Bytes = b'0' ∷ b'x' ∷ hex_text_of bs in
      let no_space : lacks b' ' (w ++ b'\n' ∷ []) ≡ true =
        lacks-append b' ' w (b'\n' ∷ []) (lacks-hex_text_of b' ' bs refl h) refl in
      let half = length-hex_text_of bs in
      let small : length bs ≤ max_bin =
        (let a = length-append q.name (b'=' ∷ (w ++ b'\n' ∷ [])) in
          let b = length-append (hex_text_of bs) (b'\n' ∷ []) in omega arith) in
      let fits : ltb max_bin (length bs) ≡ false = ground arith in
      (
        w,
        lacks-hex_text_of b'=' bs refl h,
        (let b = length-append (hex_text_of bs) (b'\n' ∷ []) in omega arith),
        rw
            (
              find_value-front q.name (w ++ b'\n' ∷ []) n le,
              t,
              strchr-lacks b' ' (w ++ b'\n' ∷ []) no_space,
              strchr-append b'\n' w [] (lacks-hex_text_of b'\n' bs refl h),
              strstr-front (text "0x") (hex_text_of bs),
              half,
              fits,
              was,
              ← len,
              read_bytes-hex_text_of junk bs j h,
              over-all bs old (omega arith),
              append-nil (q.name ++ b'=' ∷ []),
              append_assoc,
            )
            refl,
      )
