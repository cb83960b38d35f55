-- ===== src/Text/Split.antt =====
-- How `strtok_r` splits a text whose words are known.
use mathlib.Core.List.{append-nil}
use data_commoms.Base.{ℕ, ◌≡◌, refl, Bool, true, false, not, ◌&&◌, List, [], ◌∷◌, ◌++◌, arith}
use data_commoms.Text.{Bytes, goes_on}
use data_commoms.Text.Search.{cut_tokens, token, is_in}

-- No delimiter stands in the text.
abbrev pub clean : Bytes → Bytes → Bool
clean delims [] = true
clean delims (c ∷ w) = not (is_in delims c) && clean delims w

pub cut_tokens-word :
    (delims w s t : Bytes) (rest : List Bytes)
    → clean delims w ≡ true
    → cut_tokens delims s ≡ (t, rest)
    → cut_tokens delims (w ++ s) ≡ (w ++ t, rest)
unfolding cut_tokens
cut_tokens-word delims [] s t rest h e = e
cut_tokens-word delims (c ∷ w) s t rest h e =
    let ih = cut_tokens-word delims w s t rest (ground arith) e in
    let other : is_in delims c ≡ false = ground arith in rw (ih, other) refl

pub token-word : (w : Bytes) (rest : List Bytes) → goes_on w ≡ true → token w rest ≡ w ∷ rest
token-word [] rest h = cc
token-word (c ∷ w) rest h = refl

-- A word, a delimiter and what is behind it.
pub cut_tokens-delim :
    (delims w s t : Bytes) (rest : List Bytes) (d : ℕ)
    → is_in delims d ≡ true
    → clean delims w ≡ true
    → goes_on t ≡ true
    → cut_tokens delims s ≡ (t, rest)
    → cut_tokens delims (w ++ d ∷ s) ≡ (w, t ∷ rest)
unfolding cut_tokens
cut_tokens-delim delims w s t rest d i h g e =
    let behind : cut_tokens delims (d ∷ s) ≡ ([], t ∷ rest) = rw (e, i, token-word t rest g) refl in
    rw (append-nil w) at (cut_tokens-word delims w (d ∷ s) [] (t ∷ rest) h behind)

pub cut_tokens-last : (delims w : Bytes) → clean delims w ≡ true → cut_tokens delims w ≡ (w, [])
unfolding cut_tokens
cut_tokens-last delims w h = rw (append-nil w) at (cut_tokens-word delims w [] [] [] h refl)
