-- ===== src/Params/Tokens.antt =====
-- The items of a list: the words between the commas, and how ParseListParam reads them back.
use mathlib.Core.List.{append_assoc, append-nil}
use data_commoms.Base.{
  ℕ, suc, ◌+◌, ◌≤◌, ◌≡◌, refl, ap, ◌∙◌, Bool, true, false, ◌&&◌, ◌||◌, none, List, [], ◌∷◌, ◌++◌,
  arith, length, length-append, set, get_or, leb, ◌==◌,
}
use data_commoms.Text.{Bytes, text, goes_on}
use data_commoms.Text.Search.{cut_tokens, strtok, is_in}
use data_commoms.Text.Find.{lacks, lacks-append}
use data_commoms.Text.Split.{clean, cut_tokens-delim, cut_tokens-last, token-word}
use data_commoms.Params.{FloatText, ParamType, Simple, as_str, ParamList}
use data_commoms.Params.Items.{read_item, store_items, item, listed, list_max}

-- A word between commas.
abbrev pub is_token : Bytes → Bool
is_token w =
    goes_on w && lacks b',' w && lacks b' ' w && lacks b']' w && lacks b'=' w && lacks b'\n' w

abbrev pub are_tokens : List Bytes → Bool
are_tokens [] = true
are_tokens (w ∷ ws) = is_token w && are_tokens ws

-- With a comma between two.
abbrev pub joined : Bytes → List Bytes → Bytes
joined w [] = w
joined w (v ∷ ws) = w ++ b',' ∷ joined v ws

pub lacks-joined :
    (c : ℕ) (w : Bytes) (ws : List Bytes)
    → (c == b']' || c == b'=' || c == b'\n') ≡ true
    → is_token w ≡ true
    → are_tokens ws ≡ true
    → lacks c (joined w ws) ≡ true
lacks-joined c w [] e h k = ground arith
lacks-joined c w (v ∷ ws) e h k =
    let rest = lacks-joined c v ws e (ground arith) (ground arith) in
    let this : lacks c w ≡ true = ground arith in
    lacks-append c w (b',' ∷ joined v ws) this (ground arith)

clean-token : (w : Bytes) → lacks b',' w ≡ true → lacks b' ' w ≡ true → clean (text ", ") w ≡ true
unfolding is_in
clean-token [] h k = refl
clean-token (c ∷ w) h k = let ih = clean-token w (ground arith) (ground arith) in ground arith

cut_tokens-joined :
    (w : Bytes) (ws : List Bytes)
    → is_token w ≡ true
    → are_tokens ws ≡ true
    → cut_tokens (text ", ") (joined w ws) ≡ (w, ws)
unfolding is_in
cut_tokens-joined w [] h k =
    cut_tokens-last (text ", ") w (clean-token w (ground arith) (ground arith))
cut_tokens-joined w (v ∷ ws) h k =
    cut_tokens-delim (text ", ") w (joined v ws) v ws b',' refl
      (clean-token w (ground arith) (ground arith)) (ground arith)
      (cut_tokens-joined v ws (ground arith) (ground arith))

-- `strtok_r` gives the words back.
pub strtok-joined :
    (w : Bytes) (ws : List Bytes)
    → is_token w ≡ true
    → are_tokens ws ≡ true
    → strtok (text ", ") (joined w ws) ≡ w ∷ ws
unfolding strtok
strtok-joined w ws h k = rw (cut_tokens-joined w ws h k, token-word w ws (ground arith)) refl

module _ (fl : FloatText) where
  -- The words are read as these items, whatever stands at their places.
  abbrev pub Read : ParamType → List Bytes → List (Simple fl) → Type 0
  Read ty [] [] = Unit
  Read ty (w ∷ ws) (x ∷ xs) = ((slot : Simple fl) → read_item fl ty slot w ≡ item x) × Read ty ws xs
  Read ty [] (x ∷ xs) = ⊥
  Read ty (w ∷ ws) [] = ⊥

  -- The items over those of the array.
  abbrev pub laid : List (Simple fl) → List (Simple fl) → List (Simple fl)
  laid [] old = old
  laid (x ∷ xs) [] = []
  laid (x ∷ xs) (o ∷ old) = x ∷ laid xs old

  set-here :
      (pre old : List (Simple fl)) (x : Simple fl)
      → set (pre ++ old) (length pre) x ≡ pre ++ laid (x ∷ []) old
  set-here [] [] x = refl
  set-here [] (o ∷ old) x = refl
  set-here (p ∷ pre) old x = ap (λ t. p ∷ t) (set-here pre old x)

  -- The loop takes these words and goes on with the others.
  store_items-Read :
      (ty : ParamType) (l : ParamList fl) (pre old : List (Simple fl)) (ws : List Bytes)
      (xs : List (Simple fl)) (more : List Bytes)
      → Read ty ws xs
      → length pre + length xs ≤ list_max
      → length xs ≤ length old
      → store_items fl ty
          (length pre)
          (record l { items = pre ++ old; count = length pre })
          (ws ++ more)
        ≡ store_items fl ty
            (length pre + length xs)
            (record l { items = pre ++ laid xs old; count = length pre + length xs })
            more
  unfolding store_items
  store_items-Read ty l pre old [] [] more r fits room =
      ap (λ n. store_items fl ty n (record l { items = pre ++ old; count = n }) more) (omega arith)
  store_items-Read ty l pre old [] (x ∷ xs) more r fits room = elim r [ ]
  store_items-Read ty l pre old (w ∷ ws) [] more r fits room = elim r [ ]
  store_items-Read ty l pre [] (w ∷ ws) (x ∷ xs) more r fits room = absurd (omega arith)
  store_items-Read ty l pre (o ∷ old) (w ∷ ws) (x ∷ xs) more (r, rs) fits room =
      let free : leb list_max (length pre) ≡ false = ground arith in
      let one : length (pre ++ x ∷ []) ≡ suc (length pre) =
        length-append pre (x ∷ []) ∙ omega arith in
      let ih =
        rw (one, append_assoc pre (x ∷ []) old, append_assoc pre (x ∷ []) (laid xs old)) at
          (store_items-Read ty l (pre ++ x ∷ []) old ws xs more rs (omega arith) (omega arith)) in
      rw
        (
          store_items,
          free,
          r (get_or (pre ++ o ∷ old) (length pre) (as_str none)),
          set-here pre (o ∷ old) x,
        )
        (ih
          ∙ ap
              (λ n.
                store_items fl ty n (record l { items = pre ++ x ∷ laid xs old; count = n }) more)
              (omega arith))

  -- ParseListParam's loop from the start, on words that are read and others behind them.
  pub store_items-start :
      (ty : ParamType) (l : ParamList fl) (w : Bytes) (ws : List Bytes) (xs : List (Simple fl))
      (more : List Bytes)
      → Read ty (w ∷ ws) xs
      → length xs ≤ list_max
      → length xs ≤ length l.items
      → store_items fl ty 0 l (w ∷ (ws ++ more))
        ≡ store_items fl ty
            (length xs)
            (record l { items = laid xs l.items; count = length xs })
            more
  unfolding store_items
  store_items-start ty l w ws [] more r fits room = elim r [ ]
  store_items-start ty l w ws (x ∷ xs) more (r, rs) fits room =
      rw (store_items, r (get_or l.items 0 (as_str none))) (go l.items room)
    where
      go :
          (old : List (Simple fl))
          → length (x ∷ xs) ≤ length old
          → store_items fl ty 1 (record l { items = set old 0 x; count = 1 }) (ws ++ more)
            ≡ store_items fl ty
                (length (x ∷ xs))
                (record l { items = laid (x ∷ xs) old; count = length (x ∷ xs) })
                more
      go [] le = absurd (omega arith)
      go (o ∷ old) le =
          store_items-Read ty l (x ∷ []) old ws xs more rs (omega arith) (omega arith)
          ∙ ap (λ n. store_items fl ty n (record l { items = x ∷ laid xs old; count = n }) more)
              (omega arith)

  pub store_items-all :
      (ty : ParamType) (l : ParamList fl) (w : Bytes) (ws : List Bytes) (xs : List (Simple fl))
      → Read ty (w ∷ ws) xs
      → length xs ≤ list_max
      → length xs ≤ length l.items
      → store_items fl ty 0 l (w ∷ ws)
        ≡ listed true (record l { items = laid xs l.items; count = length xs })
  unfolding store_items
  store_items-all ty l w ws xs r fits room =
      rw (append-nil ws) at (store_items-start ty l w ws xs [] r fits room)
