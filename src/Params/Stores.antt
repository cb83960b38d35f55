-- ===== src/Params/Stores.antt =====
-- What storing a value does to a parameter, on each type.
use mathlib.Core.Path.{subst}
use data_commoms.Base.{
  ℕ, ◌/◌, ◌%◌, ◌^◌, ◌≤◌, ◌≡◌, refl, ◌∙◌, Bool, true, false, Option, some, none, ◌++◌, arith, length,
  ltb, Bool-cases, inl, inr,
}
use data_commoms.Text.{Bytes, strtoull, goes_on}
use data_commoms.Params.{
  FloatText, ParamType, bool, uint, int, float, str, binary, as_bool, as_uint, as_int, as_float,
  as_str, ParamList, Param, Value, simple, bin, max_bin, param_list_init_cap,
}
use data_commoms.Params.Items.{bool_word, Listed, listed, parse_list_param}
use data_commoms.Params.Line.{
  Found, absent, overrun, value_at, find_value, blanks, Ends, no_end, wild, ends, value_end, Stored,
  stored, refused, store_as, atoi, hex_text, read_bytes, over, drop_last, Turn, passes, sets,
  breaks, fails, crashes, after_store, after_end, after_find, param_turn, store_bool, store_list,
  store_list_of, store_bytes,
}
use data_commoms.Params.Bounds.{
  Sound, sound_bool, sound_uint, sound_int, sound_float, sound_str, sound_list, sound_bin, InArray,
  parse_list_param-InArray, atoi-int_range, AtMost, read_bytes-AtMost, length-over,
}
use data_commoms.Params.Keeps.{Kept, Kept-val}

module _ (fl : FloatText) where
  abbrev StoredKept : Param fl → Stored fl → Type 0
  StoredKept p (stored q) = Kept fl p q
  StoredKept p (refused e) = Unit
  StoredKept p Stored.fault = Unit

  changes-Kept :
      (p : Param fl) (v : Value fl)
      → (Sound fl p.type p.room p.val → Sound fl p.type p.room v)
      → StoredKept p (stored (record p { val = v; has_changed = true }))
  changes-Kept p v s = Kept-val fl p v true (λ _. refl) s

  Sound-list :
      (n : ℕ) (l l' : ParamList fl)
      → length l'.items ≡ length l.items
      → (l.count ≤ param_list_init_cap → l'.count ≤ param_list_init_cap)
      → Sound fl ParamType.list n (Value.list l)
      → Sound fl ParamType.list n (Value.list l')
  Sound-list _ _ l' len cnt (sound_list n l a b) = sound_list n l' (len ∙ a) (cnt b)

  Sound-bin :
      (n : ℕ) (old bs : Bytes)
      → length bs ≤ n
      → Sound fl binary n (bin old)
      → Sound fl binary n (bin (over bs old))
  Sound-bin _ _ bs h (sound_bin old) =
      subst (λ n. Sound fl binary n (bin (over bs old))) (length-over bs old h)
        (sound_bin (over bs old))

  module _ (junk : Bytes) where
    store_bool-Kept :
        (p : Param fl) (o : Option Bool) → p.type ≡ bool → StoredKept p (store_bool fl junk p o)
    store_bool-Kept p none t = tt
    store_bool-Kept p (some b) t =
        changes-Kept p (simple (as_bool b)) (λ _. rw t (sound_bool p.room b))

    store_list-Kept :
        (p : Param fl) (l : ParamList fl) (r : Listed fl)
        → p.type ≡ ParamType.list
        → p.val ≡ Value.list l
        → InArray fl l r
        → StoredKept p (store_list fl junk p r)
    store_list-Kept p l (listed true l') t was (len, cnt) =
        changes-Kept p (Value.list l')
          (λ s. rw t (Sound-list p.room l l' len cnt (rw (t, was) at s)))
    store_list-Kept p l (listed false l') t was (len, cnt) =
        Kept-val fl p (Value.list l') p.has_changed (λ h. h)
          (λ s. rw t (Sound-list p.room l l' len cnt (rw (t, was) at s)))
    store_list-Kept p l Listed.fault t was i = tt

    store_list_of-Kept :
        (p : Param fl) (val : Value fl) (v : Bytes)
        → p.type ≡ ParamType.list
        → p.val ≡ val
        → StoredKept p (store_list_of fl junk p val v)
    store_list_of-Kept p (simple x) v t was = tt
    store_list_of-Kept p (bin bs) v t was = tt
    store_list_of-Kept p (Value.list l) v t was =
        store_list-Kept p l (parse_list_param fl p.list_type l (drop_last v)) t was
          (parse_list_param-InArray fl p.list_type l (drop_last v))

    store_bytes-Kept :
        (p : Param fl) (val : Value fl) (o : Option Bytes)
        → p.type ≡ binary
        → p.val ≡ val
        → AtMost p.room o
        → StoredKept p (store_bytes fl junk p val o)
    store_bytes-Kept p (simple x) o t was h = tt
    store_bytes-Kept p (Value.list l) o t was h = tt
    store_bytes-Kept p (bin old) none t was h = tt
    store_bytes-Kept p (bin old) (some bs) t was h =
        changes-Kept p (bin (over bs old))
          (λ s. rw t (Sound-bin p.room old bs h (rw (t, was) at s)))

    store_as-Kept :
        (ty : ParamType) (p : Param fl) (v : Bytes)
        → p.type ≡ ty
        → StoredKept p (store_as fl junk ty p v)
    unfolding store_as
    store_as-Kept bool p v t = store_bool-Kept p (bool_word v) t
    store_as-Kept uint p v t = elim (Bool-cases (goes_on (strtoull v).rest)) [
      | inl e ↦ rw e tt
      | inr e ↦ elim (Bool-cases (ltb p.room 8)) [
        | inl f ↦ rw (e, f) tt
        | inr f ↦
            rw (e, f)
              (changes-Kept p (simple (as_uint ((strtoull v).value % 2 ^ 32)))
                (λ _. rw t (sound_uint p.room ((strtoull v).value % 2 ^ 32) (omega arith))))
      ]
    ]
    store_as-Kept int p v t =
        let (lo, hi) = atoi-int_range v in
        changes-Kept p (simple (as_int (atoi v))) (λ _. rw t (sound_int p.room (atoi v) lo hi))
    store_as-Kept float p v t = elim (Bool-cases (goes_on (fl.strtof v).rest)) [
      | inl e ↦ rw e tt
      | inr e ↦ rw e (
          changes-Kept p (simple (as_float (fl.strtof v).value))
            (λ _. rw t (sound_float p.room (fl.strtof v).value)))
    ]
    store_as-Kept str p v t = elim (Bool-cases (ltb (length v) p.room)) [
      | inl e ↦ rw e (changes-Kept p (simple (as_str (some v))) (λ _. rw t (sound_str p.room v)))
      | inr e ↦ rw e tt
    ]
    store_as-Kept ParamType.list p v t = store_list_of-Kept p p.val v t refl
    store_as-Kept binary p v t = elim (Bool-cases (ltb max_bin (length (hex_text v) / 2))) [
      | inl e ↦ rw e tt
      | inr e ↦ rw e (
          store_bytes-Kept p p.val (read_bytes junk p.room (hex_text v)) t refl
            (read_bytes-AtMost junk p.room (hex_text v)))
    ]

    abbrev pub TurnKept : Param fl → Turn fl junk → Type 0
    TurnKept p (sets q line) = Kept fl p q
    TurnKept p passes = Unit
    TurnKept p breaks = Unit
    TurnKept p (fails e) = Unit
    TurnKept p crashes = Unit

    after_store-Kept :
        (p : Param fl) (line : Bytes) (r : Stored fl)
        → StoredKept p r
        → TurnKept p (after_store fl junk line r)
    after_store-Kept p line (stored q) k = k
    after_store-Kept p line (refused e) k = tt
    after_store-Kept p line Stored.fault k = tt

    after_end-Kept :
        (p : Param fl) (before : Bytes) (e : Ends) → TurnKept p (after_end fl junk p before e)
    after_end-Kept p before no_end = tt
    after_end-Kept p before wild = tt
    after_end-Kept p before (ends skipped v) =
        after_store-Kept p (before ++ (skipped ++ v)) (store_as fl junk p.type p v)
          (store_as-Kept p.type p v refl)

    after_find-Kept : (p : Param fl) (f : Found) → TurnKept p (after_find fl junk p f)
    after_find-Kept p absent = tt
    after_find-Kept p overrun = tt
    after_find-Kept p (value_at before v) =
        let (sp, w) = blanks v in after_end-Kept p (before ++ sp) (value_end p.type w)

    pub param_turn-Kept : (p : Param fl) (line : Bytes) → TurnKept p (param_turn fl junk p line)
    unfolding param_turn
    param_turn-Kept p line = after_find-Kept p (find_value p.name line)
