-- ===== src/CBuffer/Sync.antt =====
-- CbDmaSynStart drops the bytes before a start byte.
use data_commoms.Base.{
  ℕ, zero, suc, ◌-◌, ◌<◌, ◌≡◌, inl, inr, refl, sym, ap, ◌∙◌, [], ◌∷◌, some, arith, ◌==◌, Bool-cases,
  length, get_or,
}
use data_commoms.CBuffer.{Cb, place, is_empty, read_inc, dma_syn_start_loop, dma_syn_start}
use data_commoms.CBuffer.Queue.{from_byte}
use data_commoms.CBuffer.Inv.{IsValid, place_lem, count, count-lt-size, is_empty_lem}
use data_commoms.CBuffer.Contents.{drop-window, window-append, contents}
use data_commoms.CBuffer.Take.{
  read_inc-IsValid, read_inc-Drops, contents-read_inc, length-contents, contents_empty, count_pos,
}

-- The oldest byte, and the rest.
contents-cons :
    {c : Cb}
    → IsValid c
    → 0 < count c
    → contents c ≡ get_or c.buf (place c c.read) 0 ∷ contents (read_inc c 1)
contents-cons {c} v pos =
    window-append c.buf c.size 1 (count c - 1) (count c) c.read (omega arith) ∙ (λ i.
      get_or c.buf (sym (place_lem c.read v) i) 0
      ∷ (sym (drop-window c.buf c.size 1 (count c - 1) (count c) c.read (omega arith))
            ∙ sym (contents-read_inc 1 v pos))
          i)

length-contents-read_inc : {c : Cb} → IsValid c → 0 < count c → count c ≡ suc (count (read_inc c 1))
length-contents-read_inc {c} v pos =
    omega
      (arith, length-contents c, length-contents (read_inc c 1), ap length (contents-cons v pos))

-- CbDmaSynStart on enough fuel drops the bytes before the first `start_B`.
dma_syn_start_loop_lem :
    (fuel : ℕ) {c : Cb} (start_B : ℕ)
    → IsValid c
    → count c < fuel
    → (c' : Cb) × (dma_syn_start_loop fuel c start_B ≡ some c')
      × IsValid c'
      × (contents c' ≡ from_byte start_B (contents c))
      × (c'.size ≡ c.size)
unfolding dma_syn_start_loop
dma_syn_start_loop_lem zero start_B v h = absurd (omega arith)
dma_syn_start_loop_lem (suc fuel) {c} start_B v h = elim (Bool-cases (is_empty c)) [
  | inl e ↦
      let held : contents c ≡ [] = contents_empty c ((is_empty_lem v).0 e) in
      (c, rw e, v, held ∙ ap (from_byte start_B) (sym held), refl)
  | inr e ↦
      let pos = count_pos v e in
      let first = get_or c.buf (place c c.read) 0 in
      elim (Bool-cases (first == start_B)) [
        | inl q ↦ (
          c,
          rw (e, q),
          v,
          contents-cons v pos ∙ sym (ap (from_byte start_B) (contents-cons v pos) ∙ rw q),
          refl,
        )
        | inr q ↦
            let (c', done, v', held, size) =
              dma_syn_start_loop_lem fuel start_B (read_inc-IsValid 1 v)
                (omega (arith, length-contents-read_inc v pos)) in
            (
              c',
              rw (e, q) done,
              v',
              held ∙ sym (ap (from_byte start_B) (contents-cons v pos) ∙ rw q),
              size ∙ (read_inc-Drops 1 v pos).size_same,
            )
      ]
]

-- CbDmaSynStart ends, and drops exactly the bytes before the first `start_B`, or all if there is
-- none.
pub dma_syn_start_lem :
    {c : Cb} (start_B : ℕ)
    → IsValid c
    → (c' : Cb) × (dma_syn_start c start_B ≡ some c')
      × IsValid c'
      × (contents c' ≡ from_byte start_B (contents c))
      × (c'.size ≡ c.size)
unfolding dma_syn_start
dma_syn_start_lem {c} start_B v = dma_syn_start_loop_lem c.size start_B v (count-lt-size v)
