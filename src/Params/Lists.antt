-- ===== src/Params/Lists.antt =====
-- How the line of a list reads back.
use mathlib.Core.List.{append_assoc, append-nil}
use data_commoms.Base.{
  ℕ, suc, ◌%◌, ◌^◌, ◌≤◌, ◌<◌, ◌≡◌, refl, ap, Bool, true, false, List, [], ◌∷◌, ◌++◌, arith, length,
  length-append, map, ltb, ℤ, pos, negsuc, ◌≤ℤ◌, int_max, int_min,
}
use data_commoms.Text.{Bytes, goes_on, starts_with_digit, is_digit}
use data_commoms.Text.Find.{lacks-append, strchr-append}
use data_commoms.Text.Decimal.{
  int_text, dec, dec-goes_on, lacks-dec, strtoull-dec, strtol-dec, strtol-minus_dec,
}
use data_commoms.Params.{
  FloatText, ParamType, bool, uint, int, float, Simple, as_bool, as_uint, as_int, as_float,
  ParamList, Param, Value,
}
use data_commoms.Params.Items.{read_item, item, list_max, uint_max, parse_list_param}
use data_commoms.Params.Line.{param_turn, value_end, blanks, store_as, drop_last}
use data_commoms.Params.Keys.{find_value-front}
use data_commoms.Params.Save.{item_text, items_text, printed, bool_text}
use data_commoms.Params.Words.{bool_word-bool_text}
use data_commoms.Params.Reads.{Reads, Fits}
use data_commoms.Params.Tokens.{
  is_token, are_tokens, joined, lacks-joined, strtok-joined, Read, laid, store_items-all,
}

numeral-token : (n : ℕ) → is_token (dec n) ≡ true
unfolding is_digit
numeral-token n =
    let g = rw (append-nil (dec n)) at (dec-goes_on n []) in
    rw
      (
        g,
        lacks-dec b',' n refl,
        lacks-dec b' ' n refl,
        lacks-dec b']' n refl,
        lacks-dec b'=' n refl,
        lacks-dec b'\n' n refl,
      )
      refl

int_text-token : (z : ℤ) → is_token (int_text z) ≡ true
int_text-token (pos n) = numeral-token n
int_text-token (negsuc n) = let t = numeral-token (suc n) in ground arith

bool_text-token : (b : Bool) → is_token (bool_text b) ≡ true
bool_text-token true = refl
bool_text-token false = refl

drop_last-snoc : (s : Bytes) (c : ℕ) → drop_last (s ++ c ∷ []) ≡ s
drop_last-snoc [] c = refl
drop_last-snoc (a ∷ []) c = refl
drop_last-snoc (a ∷ b ∷ s) c = ap (λ t. a ∷ t) (drop_last-snoc (b ∷ s) c)

module _ (fl : FloatText) where
  -- The items that the text can hold: numbers of 32 bits, the unsigned ones below 2^31, and values
  -- of `float` that are printed as one word.
  pub data HoldsItem : ParamType → Simple fl → Type 0 where
    holds_bool : (b : Bool) → HoldsItem bool (as_bool b)
    holds_uint : (n : ℕ) → n < 2 ^ 31 → HoldsItem uint (as_uint n)
    holds_int : (z : ℤ) → int_min ≤ℤ z → z ≤ℤ int_max → HoldsItem int (as_int z)
    holds_float :
        (x : fl.Float)
        → is_token (fl.print x) ≡ true
        → goes_on (fl.strtof (fl.print x)).rest ≡ false
        → HoldsItem float (as_float x)

  abbrev pub HoldsItems : ParamType → List (Simple fl) → Type 0
  HoldsItems ty [] = Unit
  HoldsItems ty (x ∷ xs) = HoldsItem ty x × HoldsItems ty xs

  -- A value of `float` is what `strtof` makes of what is printed.
  abbrev pub settled : Simple fl → Simple fl
  settled (as_float x) = as_float (fl.strtof (fl.print x)).value
  settled s = s

  abbrev ItemReads : ParamType → Simple fl → Type 0
  ItemReads ty x =
      (w : Bytes) × (item_text fl ty x ≡ printed w)
      × (is_token w ≡ true)
      × ((slot : Simple fl) → read_item fl ty slot w ≡ item (settled x))

  item-Reads : (ty : ParamType) (x : Simple fl) → HoldsItem ty x → ItemReads ty x
  unfolding item_text read_item starts_with_digit
  item-Reads ty x (holds_bool b) =
      (bool_text b, refl, bool_text-token b, λ slot. rw (bool_word-bool_text b) refl)
  item-Reads ty x (holds_uint n h) =
      let low : n % 2 ^ 32 ≡ n = omega arith in
      let plus : ltb n (2 ^ 31) ≡ true = ground arith in
      let fits : ltb uint_max n ≡ false = ground arith in
      let r = rw (append-nil (dec n)) at (strtoull-dec n [] refl (omega arith)) in
      (dec n, rw (low, plus) refl, numeral-token n, λ slot. rw (r, fits) refl)
  item-Reads ty x (holds_int (pos n) lo hi) =
      let r = rw (append-nil (dec n)) at (strtol-dec n [] refl (omega arith)) in
      (dec n, refl, numeral-token n, λ slot. rw r (ground arith))
  item-Reads ty x (holds_int (negsuc n) lo hi) =
      let r = rw (append-nil (dec (suc n))) at (strtol-minus_dec n [] refl (omega arith)) in
      (int_text (negsuc n), refl, int_text-token (negsuc n), λ slot. rw r (ground arith))
  item-Reads ty x (holds_float y t stops) = (fl.print y, refl, t, λ slot. rw stops refl)

  abbrev pub ItemsRead : ParamType → List (Simple fl) → Type 0
  ItemsRead ty xs =
      (w : Bytes) × (ws : List Bytes) × (items_text fl ty xs ≡ printed (joined w ws ++ b']' ∷ []))
      × (is_token w ≡ true)
      × (are_tokens ws ≡ true)
      × Read fl ty (w ∷ ws) (map settled xs)

  pub items-Reads :
      (ty : ParamType) (x : Simple fl) (xs : List (Simple fl))
      → HoldsItems ty (x ∷ xs)
      → ItemsRead ty (x ∷ xs)
  unfolding items_text
  items-Reads ty x [] (h, _) =
      let (w, e, t, r) = item-Reads ty x h in (w, [], rw e refl, t, refl, (r, tt))
  items-Reads ty x (y ∷ xs) (h, hs) =
      let (w, e, t, r) = item-Reads ty x h in
      let (v, ws, es, u, us, rs) = items-Reads ty y xs hs in
      (
        w,
        v ∷ ws,
        rw (e, es, append_assoc w (b',' ∷ joined v ws) (b']' ∷ [])) refl,
        t,
        ground arith,
        (r, rs),
      )

  module _ (junk : Bytes) where
    pub Reads-list :
        (q : Param fl) (ty : ParamType) (lq : ParamList fl) (x : Simple fl) (xs : List (Simple fl))
        (w : Bytes) (ws : List Bytes)
        → q.type ≡ ParamType.list
        → q.list_type ≡ ty
        → q.val ≡ Value.list lq
        → length (x ∷ xs) ≤ list_max
        → length (x ∷ xs) ≤ length lq.items
        → is_token w ≡ true
        → are_tokens ws ≡ true
        → Read fl ty (w ∷ ws) (x ∷ xs)
        → Fits fl junk q (b'[' ∷ (joined w ws ++ b']' ∷ b'\n' ∷ []))
        → Reads fl junk q
            (Value.list (record lq { items = laid fl (x ∷ xs) lq.items; count = length (x ∷ xs) }))
            (b'[' ∷ (joined w ws ++ b']' ∷ b'\n' ∷ []))
    unfolding param_turn value_end store_as blanks parse_list_param
    Reads-list q ty lq x xs w ws t lt was small room u us r (n, le) =
        let s : Bytes = b'[' ∷ joined w ws in
        (
          s ++ b']' ∷ [],
          lacks-append b'=' s (b']' ∷ []) (lacks-joined b'=' w ws refl u us) refl,
          (let a = length-append (joined w ws) (b']' ∷ []) in
              let b = length-append (joined w ws) (b']' ∷ b'\n' ∷ []) in omega arith),
          rw
              (
                find_value-front q.name (s ++ b']' ∷ b'\n' ∷ []) n le,
                t,
                strchr-append b']' s (b'\n' ∷ []) (lacks-joined b']' w ws refl u us),
                was,
                lt,
                drop_last-snoc s b']',
                strtok-joined w ws u us,
                store_items-all fl ty lq w ws (x ∷ xs) r small room,
                append-nil (q.name ++ b'=' ∷ []),
                append_assoc,
              )
              refl,
        )
