-- ===== src/CBuffer/Publish.antt =====
-- A round of `dma_th`: what the DMA stores, CbDmaWrInc publishes.
use mathlib.Core.Path.{subst}
use native.Mathlib.Nat.{mod-lt, mod-eq_of_lt}
use data_commoms.Base.{
  ℕ, ◌+◌, ◌-◌, ◌%◌, ◌≤◌, ◌<◌, ◌≡◌, sym, ap, ◌∙◌, List, ◌++◌, arith, length, take_last, pos,
  mod-add_cong,
}
use data_commoms.CBuffer.{Cb, write_inc, write_loop, dma_wr_inc}
use data_commoms.CBuffer.Contents.{contents, length-write_loop}
use data_commoms.CBuffer.Moves.{write_inc-IsValid, contents-Moves, with_buf-IsValid}
use data_commoms.CBuffer.Write.{overruns, write_inc_lem}
use data_commoms.CBuffer.Inv.{IsValid, size_pos}
use data_commoms.CBuffer.Dma.{
  dma_block, dma_round, dma_wr_inc_lem, IsLinked, dma_block-buf, dma_block-ndtr, delta_lem,
}

-- What a round of `dma_th` makes of the buffer.
pub record Published (c : Cb) (bytes : List ℕ) (c' : Cb) (ndtr' : ℕ) : Type 0 where
  pub linked : IsLinked c' ndtr'
  pub held : contents c' ≡ take_last (c.size - 1) (contents c ++ bytes)
  pub overrun : c'.full_cnt ≡ overruns c (length bytes)
  pub same_size : c'.size ≡ c.size

dma_cnt-write_inc : (c : Cb) (n : ℕ) → (write_inc c n).dma_cnt ≡ c.dma_cnt
unfolding write_inc
dma_cnt-write_inc c n = ground arith

module _ {c : Cb} {ndtr : ℕ} (l : IsLinked c ndtr) (bytes : List ℕ) (fits : length bytes < c.size)
    (ndtr' : ℕ) (le : ndtr' ≤ c.size)
    (on : (c.size - ndtr') % c.size ≡ (c.dma_cnt + length bytes) % c.size) where
  stored : Cb
  stored = record c {
    buf = write_loop c.mask c.buf c.write bytes;
    dma_cnt = (c.size - ndtr') % c.size;
  }

  stored-IsValid : IsValid stored
  unfolding stored
  stored-IsValid = record {
    exp = l.valid.exp;
    exp_le = l.valid.exp_le;
    size_eq = l.valid.size_eq;
    mask_eq = l.valid.mask_eq;
    storage = omega (arith, l.valid.storage, length-write_loop c.mask bytes c.buf c.write);
    write_lt = l.valid.write_lt;
    read_lt = l.valid.read_lt;
    dma_lt = mod-lt (c.size - ndtr') (size_pos l.valid);
  }

  stored-Published : Published c bytes (write_inc stored (length bytes)) ndtr'
  unfolding stored
  stored-Published =
      let (m, b, o) = write_inc_lem (length bytes) stored-IsValid in
      let u = write_inc-IsValid (length bytes) stored-IsValid in
      record {
        linked = record {
          valid = u;
          small = omega (arith, m.size_same, l.small);
          ndtr_le = omega (arith, m.size_same);
          dma_at =
              dma_cnt-write_inc stored (length bytes) ∙ ap (λ t. (t - ndtr') % t) (sym m.size_same);
          write_at =
              ap (λ t. (write_inc stored (length bytes)).write % t) m.size_same
              ∙ m.write_to
              ∙ mod-add_cong c.write c.dma_cnt (length bytes) c.size
                  (l.write_at ∙ sym (mod-eq_of_lt l.valid.dma_lt))
              ∙ sym on
              ∙ sym (dma_cnt-write_inc stored (length bytes));
        };
        held =
            contents-Moves l.valid u bytes
              (record { size_same = m.size_same; write_to = m.write_to; read_to = m.read_to }) b
              fits;
        overrun = o;
        same_size = m.size_same;
      }

  publishes :
      dma_wr_inc (record c { buf = write_loop c.mask c.buf c.write bytes }) (pos ndtr')
      ≡ write_inc stored (length bytes)
  unfolding stored
  publishes =
      dma_wr_inc_lem ndtr'
        (with_buf-IsValid (write_loop c.mask c.buf c.write bytes) l.valid
          (length-write_loop c.mask bytes c.buf c.write))
        l.small le
      ∙ ap (write_inc stored) (
          ap (λ t. (t + c.size - c.dma_cnt) % c.size) on
          ∙ delta_lem c.dma_cnt (length bytes) c.size l.valid.dma_lt fits)

-- A block of fewer bytes than the size that the DMA stores and CbDmaWrInc publishes is appended to
-- the contents, the newest `size - 1` bytes are kept, and DMA and buffer stay in step.
pub dma_round_lem :
    {c : Cb} {ndtr : ℕ} (bytes : List ℕ)
    → IsLinked c ndtr
    → length bytes < c.size
    → let (c', ndtr') = dma_round c ndtr bytes in Published c bytes c' ndtr'
unfolding dma_round
dma_round_lem {c} {ndtr} bytes l fits =
    let (le, on) = dma_block-ndtr l bytes fits in
    subst (λ t. Published c bytes t (dma_block c.size c.buf ndtr bytes).1)
      (sym (
        ap (λ t. dma_wr_inc (record c { buf = t }) (pos (dma_block c.size c.buf ndtr bytes).1))
          (dma_block-buf l bytes fits)
        ∙ publishes l bytes fits (dma_block c.size c.buf ndtr bytes).1 le on))
      (stored-Published l bytes fits (dma_block c.size c.buf ndtr bytes).1 le on)
