-- ===== src/CBuffer/Moves.antt =====
-- What a write of any length makes of the counters and the contents.
use mathlib.Core.Path.{ap₂}
use native.Mathlib.Nat.{add-mod_right}
use data_commoms.Base.{
  ℕ, ◌+◌, ◌-◌, ◌%◌, ◌≤◌, ◌<◌, ◌≡◌, ◌⊎◌, inl, inr, refl, sym, ap, ◌∙◌, List, ◌++◌, arith, length,
  drop, take_last, length-append, drop-append, take_last_all, mod-add_cong,
}
use data_commoms.CBuffer.{Cb, write_inc, write_loop}
use data_commoms.CBuffer.Inv.{IsValid, size_pos, count, count-lt-size, read-add-count, count_unique}
use data_commoms.CBuffer.Contents.{
  window, window_at, window_cong, drop-window, length-window, window-write_loop, contents,
}

-- What writing `xs` makes of the counters: the reader stays if there is room, and is moved to
-- one place past the writer if there is none.
pub record Moves (c c' : Cb) (n : ℕ) : Type 0 where
  pub size_same : c'.size ≡ c.size
  pub write_to : c'.write % c.size ≡ (c.write + n) % c.size
  pub read_to :
      ((count c + n < c.size) × (c'.read % c.size ≡ c.read % c.size))
      ⊎ ((c.size ≤ count c + n) × (c'.read % c.size ≡ (c.write + n + 1) % c.size))

module _ {c c' : Cb} (v : IsValid c) (v' : IsValid c') (xs : List ℕ) (m : Moves c c' (length xs))
    (stored : c'.buf ≡ write_loop c.mask c.buf c.write xs) where
  contents_room :
      count c + length xs < c.size
      → c'.read % c.size ≡ c.read % c.size
      → contents c' ≡ contents c ++ xs
  contents_room h e =
      ap₂ (λ b s. window b s c'.read (count c')) stored m.size_same
      ∙ ap (window (write_loop c.mask c.buf c.write xs) c.size c'.read) counted
      ∙ window_cong _ c.size (count c + length xs) c'.read c.read e
      ∙ window-write_loop c v xs c.buf c.read (count c) c.write v.storage (omega arith)
          (sym (read-add-count v))
    where
      counted : count c' ≡ count c + length xs
      counted = count_unique (count c + length xs) v' (omega (arith, m.size_same)) (
          ap (λ t. (c'.read + (count c + length xs)) % t) m.size_same
          ∙ mod-add_cong c'.read c.read (count c + length xs) c.size e
          ∙ ap (λ t. t % c.size)
              (let f : c.read + (count c + length xs) ≡ c.read + count c + length xs =
                  omega arith in
                f)
          ∙ mod-add_cong (c.read + count c) c.write (length xs) c.size (read-add-count v)
          ∙ sym m.write_to
          ∙ ap (λ t. c'.write % t) (sym m.size_same))

  contents_full :
      c.size ≤ count c + length xs
      → length xs < c.size
      → c'.read % c.size ≡ (c.write + length xs + 1) % c.size
      → contents c' ≡ drop (count c + length xs - (c.size - 1)) (contents c) ++ xs
  contents_full h fits e =
      ap₂ (λ b s. window b s c'.read (count c')) stored m.size_same
      ∙ ap (window written c.size c'.read) counted
      ∙ window_cong written c.size (c.size - 1) c'.read start start_place
      ∙ window_at written c.size start start (c.size - 1) (kept + length xs) refl (omega arith)
      ∙ window-write_loop c v xs c.buf start kept c.write v.storage (omega arith) (
          sym (read-add-count v)
          ∙ same_place (c.read + count c) (start + kept) (omega (arith, count-lt-size v)))
      ∙ ap (λ t. t ++ xs)
          (sym (drop-window c.buf c.size dropped kept (count c) c.read (omega arith)))
    where
      written : List ℕ
      written = write_loop c.mask c.buf c.write xs

      dropped : ℕ
      dropped = count c + length xs - (c.size - 1)

      kept : ℕ
      kept = c.size - 1 - length xs

      start : ℕ
      start = c.read + dropped

      same_place : (a b : ℕ) → a ≡ b → a % c.size ≡ b % c.size
      same_place a b p = ap (λ t. t % c.size) p

      -- One place past the last byte written is the place of the oldest byte kept.
      start_place : c'.read % c.size ≡ start % c.size
      start_place =
          e
          ∙ same_place (c.write + length xs + 1) (c.write + (length xs + 1)) (omega arith)
          ∙ sym (mod-add_cong (c.read + count c) c.write (length xs + 1) c.size (read-add-count v))
          ∙ same_place (c.read + count c + (length xs + 1)) (start + c.size)
              (omega (arith, size_pos v))
          ∙ add-mod_right start c.size

      counted : count c' ≡ c.size - 1
      counted = count_unique (c.size - 1) v' (omega (arith, m.size_same, size_pos v)) (
          ap (λ t. (c'.read + (c.size - 1)) % t) m.size_same
          ∙ mod-add_cong c'.read (c.write + length xs + 1) (c.size - 1) c.size e
          ∙ same_place (c.write + length xs + 1 + (c.size - 1)) (c.write + length xs + c.size)
              (omega (arith, size_pos v))
          ∙ add-mod_right (c.write + length xs) c.size
          ∙ sym m.write_to
          ∙ ap (λ t. c'.write % t) (sym m.size_same))

  length-contents : length (contents c) ≡ count c
  length-contents = length-window c.buf c.size c.read (count c)

  -- The newest `size - 1` bytes are kept, in order.
  pub contents-Moves : length xs < c.size → contents c' ≡ take_last (c.size - 1) (contents c ++ xs)
  contents-Moves fits = elim m.read_to [
    | inl (h, e) ↦
        contents_room h e
        ∙ sym (
            take_last_all (c.size - 1) (contents c ++ xs)
              (omega (arith, length-append (contents c) xs, length-contents)))
    | inr (h, e) ↦
        contents_full h fits e
        ∙ sym (
            drop-append (count c + length xs - (c.size - 1)) (contents c) xs
              (omega (arith, length-contents)))
        ∙ ap (λ t. drop t (contents c ++ xs))
            (omega (arith, length-append (contents c) xs, length-contents))
  ]

pub with_buf-IsValid :
    {c : Cb} (buf : List ℕ)
    → IsValid c
    → length buf ≡ length c.buf
    → IsValid (record c { buf = buf })
with_buf-IsValid {c} buf v e = record {
  exp = v.exp;
  exp_le = v.exp_le;
  size_eq = v.size_eq;
  mask_eq = v.mask_eq;
  storage = omega (arith, v.storage);
  write_lt = v.write_lt;
  read_lt = v.read_lt;
  dma_lt = v.dma_lt;
}

pub write_inc-IsValid : {c : Cb} (n : ℕ) → IsValid c → IsValid (write_inc c n)
unfolding write_inc
write_inc-IsValid {c} n v = ground arith
