-- ===== src/Params/ParseList.antt =====
-- ParseListParam on a text with words between commas.
use data_commoms.Base.{◌≤◌, ◌≡◌, ◌∙◌, refl, true, false, List, ◌∷◌, ◌++◌, arith, length}
use data_commoms.Text.{Bytes}
use data_commoms.Params.{FloatText, ParamType, Simple, ParamList}
use data_commoms.Params.Items.{listed, list_max, store_items, parse_list_param}
use data_commoms.Params.Tokens.{
  is_token, are_tokens, joined, strtok-joined, Read, laid, store_items-all, store_items-start,
}

module _ (fl : FloatText) where
  -- On at most 32 words between commas, each of which is read as an item, ParseListParam succeeds,
  -- and the list holds these items, in front of what its array held; provided that the array has
  -- that many places.
  pub parse_list_all :
      (ty : ParamType) (l : ParamList fl) (w : Bytes) (ws : List Bytes) (xs : List (Simple fl))
      → is_token w ≡ true
      → are_tokens ws ≡ true
      → Read fl ty (w ∷ ws) xs
      → length xs ≤ list_max
      → length xs ≤ length l.items
      → parse_list_param fl ty l (b'[' ∷ joined w ws)
        ≡ listed true (record l { items = laid fl xs l.items; count = length xs })
  unfolding parse_list_param
  parse_list_all ty l w ws xs t ts r fits room =
      rw (strtok-joined w ws t ts) (store_items-all fl ty l w ws xs r fits room)

  -- On more than 32 words between commas, the first 32 of which are read as items, ParseListParam
  -- fails, and the list holds these 32 items; provided that the array has that many places.
  pub parse_list_over :
      (ty : ParamType) (l : ParamList fl) (w : Bytes) (ws : List Bytes) (v : Bytes)
      (more : List Bytes) (xs : List (Simple fl))
      → is_token w ≡ true
      → are_tokens (ws ++ v ∷ more) ≡ true
      → Read fl ty (w ∷ ws) xs
      → length xs ≡ list_max
      → list_max ≤ length l.items
      → parse_list_param fl ty l (b'[' ∷ joined w (ws ++ v ∷ more))
        ≡ listed false (record l { items = laid fl xs l.items; count = list_max })
  unfolding parse_list_param store_items
  parse_list_over ty l w ws v more xs t ts r full room =
      rw (strtok-joined w (ws ++ v ∷ more) t ts)
        (store_items-start fl ty l w ws xs (v ∷ more) r (omega arith) (omega arith) ∙ rw full refl)
