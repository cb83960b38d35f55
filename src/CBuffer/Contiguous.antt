-- ===== src/CBuffer/Contiguous.antt =====
-- The counts of CbIsFull, CbContiguousDataCount and CbContiguousEmptyCount.
use native.Mathlib.Nat.{mod-lt, mod-eq_of_lt, mod-add-mod, add-mod_right}
use data_commoms.Base.{
  ◌+◌, ◌-◌, ◌%◌, ◌^◌, ◌≤◌, ◌<◌, min, ◌≡◌, ◌↔◌, sym, ap, ◌∙◌, true, arith, size_add, size_sub,
  size_mod, ==_iff, add-wrap-mod,
}
use data_commoms.CBuffer.{
  Cb, place, is_full, data_count, empty_count, contiguous_data_count, contiguous_empty_count,
}
use data_commoms.CBuffer.Inv.{
  IsValid, place_lem, size_pos, size_lt, size_dvd, count, read-add-count, count_unique,
  data_count_lem, empty_count_lem,
}

module _ {c : Cb} (v : IsValid c) where
  -- The count as the distance from one place to the other.
  count_up : c.read % c.size ≤ c.write % c.size → count c ≡ c.write % c.size - c.read % c.size
  count_up h = count_unique (c.write % c.size - c.read % c.size) v (omega (arith, write_in)) (
      sym (mod-add-mod c.read c.size (c.write % c.size - c.read % c.size))
      ∙ ap (λ t. t % c.size)
          (let f : c.read % c.size + (c.write % c.size - c.read % c.size) ≡ c.write % c.size =
              omega arith in
            f)
      ∙ mod-eq_of_lt write_in)
    where
      write_in : c.write % c.size < c.size
      write_in = mod-lt c.write (size_pos v)

  count_round :
      c.write % c.size < c.read % c.size → count c ≡ c.size - c.read % c.size + c.write % c.size
  count_round h =
      count_unique (c.size - c.read % c.size + c.write % c.size) v (omega (arith, read_in)) (
        sym (mod-add-mod c.read c.size (c.size - c.read % c.size + c.write % c.size))
        ∙ ap (λ t. t % c.size)
            (let f : c.read % c.size + (c.size - c.read % c.size + c.write % c.size)
                  ≡ c.write % c.size + c.size =
                omega (arith, read_in) in
              f)
        ∙ add-mod_right (c.write % c.size) c.size
        ∙ mod-eq_of_lt (mod-lt c.write (size_pos v)))
    where
      read_in : c.read % c.size < c.size
      read_in = mod-lt c.read (size_pos v)

-- CbContiguousEmptyCount is the number of bytes that can be written with neither overrun nor wrap:
-- what is free, or what is left up to the end of the storage if that is less.
pub contiguous_empty_count_lem :
    {c : Cb}
    → IsValid c
    → contiguous_empty_count c ≡ min (empty_count c) (c.size - c.write % c.size)
unfolding contiguous_empty_count
contiguous_empty_count_lem {c} v = ground (
  arith,
  place_lem c.write v,
  place_lem c.read v,
  empty_count_lem v,
  count_up v,
  count_round v,
  size_lt v,
  mod-lt c.write (size_pos v),
  mod-lt c.read (size_pos v),
)

-- CbContiguousDataCount is the number of bytes that can be read with no wrap, as long as the size
-- fits the `int` that it goes through.
pub contiguous_data_count_lem :
    {c : Cb}
    → IsValid c
    → c.size ≤ 2 ^ 31
    → contiguous_data_count c ≡ min (data_count c) (c.size - c.read % c.size)
unfolding contiguous_data_count
contiguous_data_count_lem {c} v h = ground (
  arith,
  place_lem c.write v,
  place_lem c.read v,
  data_count_lem v,
  place_lem (size_sub c.write c.read) v,
  count_up v,
  count_round v,
  mod-lt c.write (size_pos v),
  mod-lt c.read (size_pos v),
)

-- CbIsFull is true exactly if one byte is stored (in a buffer of more than one byte), and so not
-- if the buffer is full, unless its size is two.
pub is_full_iff : {c : Cb} → IsValid c → 1 < c.size → (is_full c ≡ true) ↔ (count c ≡ 1)
unfolding is_full
is_full_iff {c} v h = (
  (λ e. count_unique 1 v h (sym next ∙ (==_iff _ _).0 e ∙ place_lem c.write v)),
  (λ e. (==_iff _ _).1 (
      next
      ∙ ap (λ t. (c.read + t) % c.size) (sym e)
      ∙ read-add-count v
      ∙ sym (place_lem c.write v))),
)
  where
    next : place c (size_add c.read 1) ≡ (c.read + 1) % c.size
    next = place_lem (size_add c.read 1) v ∙ add-wrap-mod c.read 1 size_mod c.size (size_dvd v)
