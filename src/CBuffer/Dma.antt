-- ===== src/CBuffer/Dma.antt =====
-- CbDmaWrInc, and the simulated DMA of src/main.c that calls it (`dma_th`).
use native.Mathlib.Decide.{dec_lt}
use native.Mathlib.Nat.{mod-eq_of_lt, mod_self, mod-add-mod, add-mod_right}
use data_commoms.Base.{
  ℕ, ◌+◌, ◌-◌, ◌%◌, ◌^◌, ◌≤◌, ◌<◌, ◌≡◌, refl, sym, ap, ◌∙◌, List, [], ◌∷◌, arith, bit_and, ltb,
  if◌then◌else◌, length, set, take, drop, take-append-drop, length-take, length-drop, take-length,
  size_mod, size_add, size_sub, u32_sub, pos, sub-wrap-mod, mod_unique, lt→ltb, le→ltb,
}
use data_commoms.CBuffer.{Cb, place, write_inc, write_loop, dma_wr_inc}
use data_commoms.CBuffer.Contents.{write_loop_cong, write_loop-append}
use data_commoms.CBuffer.Inv.{IsValid, place_lem, size_pos, size_lt, size_dvd}

-- The `for` loops of `dma_th` that store bytes from `in_buffer[start]` on.
unfoldable pub store_from : List ℕ → ℕ → List ℕ → List ℕ
store_from buf start [] = buf
store_from buf start (x ∷ xs) = store_from (set buf start x) (start + 1) xs

-- One block that arrives in `dma_th`, before CbDmaWrInc is called: the storage and NDTR. `size` is
-- BUFFER_SZ; the list is the random bytes, `chunk` in number.
unfoldable pub dma_block : ℕ → List ℕ → ℕ → List ℕ → List ℕ × ℕ
unfolding store_from
dma_block size buf ndtr bytes =
    let chunk = length bytes in
    let w_phys = bit_and (u32_sub size ndtr) (size - 1) in
    let till_end = size - w_phys in
    let n1 = if ltb chunk till_end then chunk else till_end in
    let buf = store_from buf w_phys (take n1 bytes) in
    let buf = if ltb n1 chunk then store_from buf 0 (drop n1 bytes) else buf in
    (buf, if ltb ndtr chunk then size - (chunk - ndtr) % size else ndtr - chunk)

-- The round of `dma_th`: the block arrives and is published.
unfoldable pub dma_round : Cb → ℕ → List ℕ → Cb × ℕ
dma_round c ndtr bytes =
    let (buf, ndtr) = dma_block c.size c.buf ndtr bytes in
    (dma_wr_inc (record c { buf = buf }) (pos ndtr), ndtr)

-- CbDmaWrInc with a count of the hardware register that is in range: how much it publishes.
pub dma_wr_inc_lem :
    {c : Cb} (ndtr : ℕ)
    → IsValid c
    → c.size < 2 ^ 31
    → ndtr ≤ c.size
    → dma_wr_inc c (pos ndtr)
      ≡ write_inc
          (record c { dma_cnt = (c.size - ndtr) % c.size })
          (((c.size - ndtr) % c.size + c.size - c.dma_cnt) % c.size)
unfolding dma_wr_inc
dma_wr_inc_lem {c} ndtr v small h = ground (arith, produced, delta, size_lt v)
  where
    produced : place c (size_sub c.size ndtr) ≡ (c.size - ndtr) % c.size
    produced =
        place_lem (size_sub c.size ndtr) v
        ∙ ap (λ t. t % c.size)
            (let f : size_sub c.size ndtr ≡ c.size - ndtr = omega (arith, size_lt v) in f)

    delta :
        place c (size_sub ((c.size - ndtr) % c.size) c.dma_cnt)
        ≡ ((c.size - ndtr) % c.size + c.size - c.dma_cnt) % c.size
    delta =
        place_lem (size_sub ((c.size - ndtr) % c.size) c.dma_cnt) v
        ∙ sub-wrap-mod ((c.size - ndtr) % c.size) c.dma_cnt size_mod c.size (size_dvd v)
            (omega (arith, v.dma_lt)) (omega (arith, size_lt v))

-- The DMA hardware and the buffer agree on the place of the next byte.
pub record IsLinked (c : Cb) (ndtr : ℕ) : Type 0 where
  pub valid : IsValid c
  pub small : c.size < 2 ^ 31
  pub ndtr_le : ndtr ≤ c.size
  pub dma_at : c.dma_cnt ≡ (c.size - ndtr) % c.size
  pub write_at : c.write % c.size ≡ c.dma_cnt

store_from_lem :
    {c : Cb} (v : IsValid c) (xs buf : List ℕ) (start : ℕ)
    → start + length xs ≤ c.size
    → store_from buf start xs ≡ write_loop c.mask buf start xs
unfolding store_from write_loop
store_from_lem v [] buf start h = refl
store_from_lem {c} v (x ∷ xs) buf start h =
    ap (λ t. store_from (set buf t x) (start + 1) xs)
      (sym (place_lem start v ∙ mod-eq_of_lt {n = start} {m = c.size} (omega arith)))
    ∙ store_from_lem v xs (set buf (place c start) x) (start + 1) (omega arith)
    ∙ ap (λ t. write_loop c.mask (set buf (place c start) x) t xs)
        (let f : start + 1 ≡ size_add start 1 = omega (arith, size_lt v) in f)

module _ {c : Cb} {ndtr : ℕ} (l : IsLinked c ndtr) (bytes : List ℕ)
    (fits : length bytes < c.size) where
  v : IsValid c
  v = l.valid

  w_phys_lem : bit_and (u32_sub c.size ndtr) (c.size - 1) ≡ c.dma_cnt
  w_phys_lem =
      ap (bit_and (u32_sub c.size ndtr)) (sym v.mask_eq)
      ∙ place_lem (u32_sub c.size ndtr) v
      ∙ ap (λ t. t % c.size)
          (let f : u32_sub c.size ndtr ≡ c.size - ndtr = omega (arith, l.small, l.ndtr_le) in f)
      ∙ sym l.dma_at

  to_write : write_loop c.mask c.buf c.dma_cnt bytes ≡ write_loop c.mask c.buf c.write bytes
  to_write =
      write_loop_cong v bytes c.buf c.dma_cnt c.write (mod-eq_of_lt v.dma_lt ∙ sym l.write_at)

  one_piece :
      c.dma_cnt + length bytes ≤ c.size
      → store_from c.buf c.dma_cnt bytes ≡ write_loop c.mask c.buf c.write bytes
  one_piece h = store_from_lem v bytes c.buf c.dma_cnt h ∙ to_write

  two_pieces :
      (n : ℕ)
      → c.dma_cnt + n ≡ c.size
      → n ≤ length bytes
      → store_from (store_from c.buf c.dma_cnt (take n bytes)) 0 (drop n bytes)
        ≡ write_loop c.mask c.buf c.write bytes
  two_pieces n e h =
      store_from_lem v (drop n bytes) (store_from c.buf c.dma_cnt (take n bytes)) 0
        (omega (arith, length-drop n bytes))
      ∙ ap (λ t. write_loop c.mask t 0 (drop n bytes))
          (store_from_lem v (take n bytes) c.buf c.dma_cnt (omega (arith, length-take n bytes h)))
      ∙ sym (
          write_loop-append v (take n bytes) (drop n bytes) c.buf c.dma_cnt 0 (
            mod-eq_of_lt (size_pos v)
            ∙ sym (mod_self c.size)
            ∙ ap (λ t. t % c.size)
                (let f : c.size ≡ c.dma_cnt + length (take n bytes) =
                    omega (arith, length-take n bytes h) in
                  f)))
      ∙ ap (write_loop c.mask c.buf c.dma_cnt) (take-append-drop n bytes)
      ∙ to_write

  -- The block is stored where CbWrite would store it.
  pub dma_block-buf : (dma_block c.size c.buf ndtr bytes).0 ≡ write_loop c.mask c.buf c.write bytes
  unfolding dma_block
  dma_block-buf = rw w_phys_lem (
      ground (
        arith,
        one_piece,
        two_pieces (c.size - c.dma_cnt),
        take-length (length bytes) bytes,
        take-length (c.size - c.dma_cnt) bytes,
        v.dma_lt,
      ))

  -- NDTR goes on by the length of the block, round the ring.
  pub dma_block-ndtr :
      let n = (dma_block c.size c.buf ndtr bytes).1 in
      (n ≤ c.size) × ((c.size - n) % c.size ≡ (c.dma_cnt + length bytes) % c.size)
  unfolding dma_block
  dma_block-ndtr = elim (dec_lt ndtr (length bytes)) [
    | yes p ↦
        let round : (length bytes - ndtr) % c.size ≡ length bytes - ndtr =
          mod-eq_of_lt {n = length bytes - ndtr} {m = c.size} (omega arith) in
        rw (lt→ltb ndtr (length bytes) p, round)
          (
            omega arith,
            ap (λ t. t % c.size)
                  (let f : c.size - (c.size - (length bytes - ndtr)) ≡ length bytes - ndtr =
                      omega arith in
                    f)
                ∙ sym (add-mod_right (length bytes - ndtr) c.size)
                ∙ ap (λ t. t % c.size)
                    (let f : length bytes - ndtr + c.size ≡ c.size - ndtr + length bytes =
                        omega (arith, l.ndtr_le) in
                      f)
                ∙ onward,
          )
    | no p ↦ rw (le→ltb ndtr (length bytes) (omega arith)) (
      omega (arith, l.ndtr_le),
      ap (λ t. t % c.size)
            (let f : c.size - (ndtr - length bytes) ≡ c.size - ndtr + length bytes =
                omega (arith, l.ndtr_le) in
              f)
          ∙ onward,
    )
  ]
    where
      onward : (c.size - ndtr + length bytes) % c.size ≡ (c.dma_cnt + length bytes) % c.size
      onward =
          sym (mod-add-mod (c.size - ndtr) c.size (length bytes))
          ∙ ap (λ t. (t + length bytes) % c.size) (sym l.dma_at)

-- The distance that CbDmaWrInc computes is the length of the block.
pub delta_lem : (d k s : ℕ) → d < s → k < s → ((d + k) % s + s - d) % s ≡ k
delta_lem d k s hd hk = elim (dec_lt (d + k) s) [
  | yes p ↦
      ap (λ t. (t + s - d) % s) (mod-eq_of_lt p) ∙ mod_unique (d + k + s - d) 1 s k (omega arith) hk
  | no p ↦
      ap (λ t. (t + s - d) % s) (mod_unique (d + k) 1 s (d + k - s) (omega arith) (omega arith))
      ∙ ap (λ t. t % s) (let f : d + k - s + s - d ≡ k = omega arith in f)
      ∙ mod-eq_of_lt hk
]
