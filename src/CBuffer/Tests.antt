-- ===== src/CBuffer/Tests.antt =====
-- Circular buffers on concrete inputs.
use data_commoms.Base.{
  ℕ, ◌-◌, ◌^◌, min, ◌≡◌, ◌≢◌, ◌↔◌, ◌⊎◌, inr, refl, true, false, none, some, List, [], ◌∷◌, arith,
}
use data_commoms.CBuffer.{
  Cb, check_size, init, is_empty, is_full, data_count, empty_count, contiguous_data_count,
  contiguous_empty_count, write, write_one, write_inc, write_loop, read, read_inc, read_loop,
  read_until, read_until_loop, dma_syn_start, dma_syn_start_loop, dma_wr_inc,
}
use data_commoms.CBuffer.Client.{
  put, get, get_until, sync, Op, count as count_reply, bytes, quiet, run, queue_run,
}
use data_commoms.CBuffer.Inv.{IsValid, count}
use data_commoms.CBuffer.Contents.{contents}
use data_commoms.CBuffer.Write.{Wrote, write_lem, write_refused}
use data_commoms.CBuffer.Take.{Took}
use data_commoms.CBuffer.Read.{read_lem, read_until_lem}
use data_commoms.CBuffer.Sync.{dma_syn_start_lem}
use data_commoms.CBuffer.Refine.{run_refines}
use data_commoms.CBuffer.Init.{init_lem, check_size_iff}
use data_commoms.CBuffer.Contiguous.{
  contiguous_empty_count_lem, contiguous_data_count_lem, is_full_iff,
}
use data_commoms.CBuffer.Dma.{store_from, dma_block, dma_round, IsLinked}
use data_commoms.CBuffer.Publish.{Published, dma_round_lem}

-- Four places; 10 and 11 are stored. The counters have gone round once.
abbrev ring : Cb
ring = record {
  buf = 10 ∷ 11 ∷ 12 ∷ 13 ∷ [];
  size = 4;
  write = 6;
  read = 4;
  mask = 3;
  name = [];
  read_last = 4;
  dma_cnt = 2;
  full_cnt = 0;
}

-- The same with the counters about to wrap at 2^64.
abbrev late_ring : Cb
late_ring = record ring { write = 2 ^ 64 - 2; read = 2 ^ 64 - 4; dma_cnt = 2 }

ring-IsValid : IsValid ring
ring-IsValid = record {
  exp = 2;
  exp_le = omega arith;
  size_eq = refl;
  mask_eq = refl;
  storage = omega arith;
  write_lt = omega arith;
  read_lt = omega arith;
  dma_lt = omega arith;
}

abbrev script : List Op
script =
    put (1 ∷ [])
    ∷ put (2 ∷ 3 ∷ [])
    ∷ get_until 9 2
    ∷ put (4 ∷ 5 ∷ [])
    ∷ sync 5
    ∷ get 2
    ∷ get 1
    ∷ get 0
    ∷ []

run-ring :
    run ring script
    ≡ count_reply 1
      ∷ count_reply 2
      ∷ bytes (1 ∷ 2 ∷ [])
      ∷ count_reply 2
      ∷ quiet
      ∷ bytes (5 ∷ [])
      ∷ bytes []
      ∷ []
unfolding run write write_one write_inc write_loop empty_count read read_inc read_loop read_until
    read_until_loop is_empty data_count dma_syn_start dma_syn_start_loop
run-ring = refl

run-late_ring : run late_ring script ≡ run ring script
unfolding run write write_one write_inc write_loop empty_count read read_inc read_loop read_until
    read_until_loop is_empty data_count dma_syn_start dma_syn_start_loop
run-late_ring = refl

write_too_long : write ring (1 ∷ 2 ∷ 3 ∷ 4 ∷ []) ≡ some (0, ring)
write_too_long = write_refused ring (1 ∷ 2 ∷ 3 ∷ 4 ∷ []) (omega arith) (omega arith)

-- Three stored bytes fill the ring, and CbIsFull is false; it is true of one byte.
is_full_inverted :
    (is_full (record ring { write = 7 }) ≡ false) × (is_full (record ring { write = 5 }) ≡ true)
unfolding is_full
is_full_inverted = (refl, refl)

run_refines_example : run ring script ≡ queue_run 3 (10 ∷ 11 ∷ []) script
run_refines_example = run_refines script ring-IsValid

write_lem_example :
    (c' : Cb) × (write ring (1 ∷ 2 ∷ []) ≡ some (2, c')) × Wrote ring (1 ∷ 2 ∷ []) c'
write_lem_example = write_lem (1 ∷ 2 ∷ []) ring-IsValid (λ p. cc) (inr (omega arith))

read_lem_run : (c' : Cb) × (read ring 5 ≡ some (10 ∷ 11 ∷ [], c')) × Took ring (10 ∷ 11 ∷ []) c'
read_lem_run = read_lem 5 ring-IsValid (omega arith)

read_until_lem_run :
    (c' : Cb) × (read_until ring 5 10 ≡ some (10 ∷ [], c')) × Took ring (10 ∷ []) c'
read_until_lem_run = read_until_lem 5 10 ring-IsValid (omega arith)

dma_syn_start_lem_example :
    (c' : Cb) × (dma_syn_start ring 11 ≡ some c')
    × IsValid c'
    × (contents c' ≡ 11 ∷ [])
    × (c'.size ≡ 4)
dma_syn_start_lem_example = dma_syn_start_lem 11 ring-IsValid

init_lem_example :
    ((c : Cb) × (k : ℕ) × ◌≡◌ {A = ℕ} 2 (2 ^ k)
      × (init (7 ∷ 7 ∷ []) 2 none ≡ some c)
      × IsValid c
      × (contents c ≡ [])
      × (c.size ≡ 2))
    ⊎ (((k : ℕ) → 2 ≢ 2 ^ k) × (init (7 ∷ 7 ∷ []) 2 none ≡ none))
init_lem_example = init_lem (7 ∷ 7 ∷ []) 2 none (omega arith) (omega arith)

check_size_iff_run : (check_size 12 ≡ true) ↔ ((k : ℕ) × ◌≡◌ {A = ℕ} 12 (2 ^ k))
check_size_iff_run = check_size_iff 12

contiguous_empty_count_lem_run : contiguous_empty_count ring ≡ min (empty_count ring) 2
contiguous_empty_count_lem_run = contiguous_empty_count_lem ring-IsValid

contiguous_data_count_lem_run : contiguous_data_count ring ≡ min (data_count ring) 4
contiguous_data_count_lem_run = contiguous_data_count_lem ring-IsValid (omega arith)

is_full_iff_run : (is_full ring ≡ true) ↔ (count ring ≡ 1)
is_full_iff_run = is_full_iff ring-IsValid (omega arith)

ring-IsLinked : IsLinked ring 2
ring-IsLinked = record {
  valid = ring-IsValid;
  small = omega arith;
  ndtr_le = omega arith;
  dma_at = refl;
  write_at = refl;
}

dma_round_wraps :
    (contents (dma_round ring 2 (1 ∷ 2 ∷ 3 ∷ [])).0 ≡ 1 ∷ 2 ∷ 3 ∷ [])
    × ((dma_round ring 2 (1 ∷ 2 ∷ 3 ∷ [])).1 ≡ 3)
unfolding dma_round dma_block store_from dma_wr_inc write_inc empty_count
dma_round_wraps = (refl, refl)

dma_round_lem_example :
    let (c', ndtr') = dma_round ring 2 (1 ∷ 2 ∷ 3 ∷ []) in Published ring (1 ∷ 2 ∷ 3 ∷ []) c' ndtr'
dma_round_lem_example = dma_round_lem (1 ∷ 2 ∷ 3 ∷ []) ring-IsLinked (omega arith)
