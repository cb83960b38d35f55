-- ===== src/CBuffer.antt =====
-- include/c_buffer.h: the circular byte buffer. A function that updates `*cb` returns the new
-- buffer; a failed CB_ASSERT is `none`. Pointers are taken to be valid, as the assertions demand.
pub mod Inv
pub mod Contents
pub mod Queue
pub mod Moves
pub mod Write
pub mod Take
pub mod Read
pub mod Sync
pub mod Client
pub mod Refine
pub mod Init
pub mod Dma
pub mod Publish
pub mod Contiguous
mod Tests
use data_commoms.Base.{
  ℕ, zero, suc, ◌-◌, ◌%◌, ◌^◌, Bool, false, not, ◌&&◌, Option, none, some, List, [], ◌∷◌, bit_and,
  size_add, size_sub, ltb, ◌==◌, if◌then◌else◌, length, get_or, set, ℤ, pos, ltb_ℤ, to_size,
  to_int32,
}

-- `cb_t`. The counters `write` and `read` run freely and wrap with `size_t`; the place in
-- `buf` (the field `data`) is a counter under `mask`.
pub record Cb : Type 0 where
  pub buf : List ℕ
  pub size : ℕ
  pub write : ℕ
  pub read : ℕ
  pub mask : ℕ
  pub name : List ℕ
  pub read_last : ℕ
  pub dma_cnt : ℕ
  pub full_cnt : ℕ

-- `x & cb->mask`
abbrev pub place : Cb → ℕ → ℕ
place c x = bit_and x c.mask

-- CbCheckSize
pub check_size : ℕ → Bool
check_size size = if size == 0 then false else bit_and size (size - 1) == 0

-- The compound literal of CbInit. `name` is `none` for a null pointer.
abbrev pub fresh : List ℕ → ℕ → Option (List ℕ) → Cb
fresh storage size name = record {
  buf = storage;
  size = size;
  write = 0;
  read = 0;
  mask = size - 1;
  name = elim name [ none ↦ [] | some s ↦ s ];
  read_last = 0;
  dma_cnt = 0;
  full_cnt = 0;
}

-- CbInit. The assertion tests `size != 0` before it calls CbCheckSize.
pub init : List ℕ → ℕ → Option (List ℕ) → Option Cb
unfolding check_size
init storage size name =
    if not (size == 0) && check_size size then some (fresh storage size name) else none

-- CbIsEmpty
pub is_empty : Cb → Bool
is_empty c = place c c.write == place c c.read

-- CbIsFull, as written: it adds one to `read`.
pub is_full : Cb → Bool
is_full c = place c (size_add c.read 1) == place c c.write

-- CbDataCount
pub data_count : Cb → ℕ
data_count c = place c (size_sub c.write c.read)

-- `(int)x < 0` for a `size_t` x: bit 31 of the truncated value.
abbrev int_is_neg : ℕ → Bool
int_is_neg x = not (ltb (x % 2 ^ 32) (2 ^ 31))

-- CbContiguousDataCount
pub contiguous_data_count : Cb → ℕ
unfolding data_count
contiguous_data_count c =
    let aux = size_sub (place c c.write) (place c c.read) in
    if int_is_neg aux then size_sub c.size (place c c.read) else data_count c

-- CbEmptyCount
pub empty_count : Cb → ℕ
empty_count c = size_sub c.mask (place c (size_sub c.write c.read))

-- CbContiguousEmptyCount
pub contiguous_empty_count : Cb → ℕ
contiguous_empty_count c =
    let w = place c c.write in
    let r = place c c.read in
    let end = size_sub c.size w in
    if ltb w r then size_sub (size_sub r w) 1 else if r == 0 then size_sub end 1 else end

-- CbWriteInc
pub write_inc : Cb → ℕ → Cb
write_inc c num =
    let gap = empty_count c in
    let write = size_add c.write num in
    let read = size_add write 1 in
    if ltb gap num
    then record c { write = write; read = read; read_last = read; full_cnt = size_add c.full_cnt 1 }
    else record c { write = write }

-- CbReadInc
pub read_inc : Cb → ℕ → Cb
read_inc c num =
    let avail = place c (size_sub c.write c.read) in
    let n = if ltb avail num then avail else num in
    let read = size_add c.read n in record c { read = read; read_last = read }

-- The branch `n == 1` of CbWrite.
pub write_one : Cb → ℕ → Cb
write_one c item =
    let buf = set c.buf (place c c.write) item in
    let write = size_add c.write 1 in
    let read = size_add c.read 1 in
    if place c write == place c c.read
    then record c {
      buf = buf;
      write = write;
      read = read;
      read_last = read;
      full_cnt = size_add c.full_cnt 1;
    }
    else record c { buf = buf; write = write }

-- The `while` of CbWrite from `v_write` on, over what is left of `item`.
pub write_loop : ℕ → List ℕ → ℕ → List ℕ → List ℕ
write_loop mask buf v_write [] = buf
write_loop mask buf v_write (x ∷ xs) =
    write_loop mask (set buf (bit_and v_write mask) x) (size_add v_write 1) xs

-- CbWrite. The list is `item[0..n)`; the number is the result.
pub write : Cb → List ℕ → Option (ℕ × Cb)
write c [] = none
write c (x ∷ []) = some (1, write_one c x)
write c (x ∷ y ∷ rest) =
    let item = x ∷ y ∷ rest in
    let n = length item in
    if ltb n c.size
    then some (n, write_inc (record c { buf = write_loop c.mask c.buf c.write item }) n)
    else some (0, c)

-- The `while` of CbRead: `n` bytes from `v_read` on.
pub read_loop : Cb → ℕ → ℕ → List ℕ
read_loop c v_read zero = []
read_loop c v_read (suc n) = get_or c.buf (place c v_read) 0 ∷ read_loop c (size_add v_read 1) n

-- CbRead: the bytes copied to `out`, whose number is the result, and the buffer.
pub read : Cb → ℕ → Option (List ℕ × Cb)
read c zero = none
read c (suc n) =
    if is_empty c
    then some ([], c)
    else if n == 0
    then (let r = size_add c.read 1 in
        some (get_or c.buf (place c c.read) 0 ∷ [], record c { read = r; read_last = r }))
    else (let available_bytes = data_count c in
        let m = if ltb available_bytes (suc n) then available_bytes else suc n in
        some (read_loop c c.read m, read_inc c m))

-- The `for` of CbReadUntil: at most `n` bytes from `v` on, up to and with the first `byte`.
pub read_until_loop : Cb → ℕ → ℕ → ℕ → List ℕ
read_until_loop c v zero byte = []
read_until_loop c v (suc n) byte =
    let b = get_or c.buf (place c v) 0 in
    let rest = read_until_loop c (size_add v 1) n byte in if b == byte then b ∷ [] else b ∷ rest

-- CbReadUntil: the bytes copied to `out`, whose number is the result, and the buffer.
pub read_until : Cb → ℕ → ℕ → Option (List ℕ × Cb)
read_until c zero byte = none
read_until c (suc n) byte =
    if is_empty c
    then some ([], c)
    else (let avail = place c (size_sub c.write c.read) in
        let max = if ltb avail (suc n) then avail else suc n in
        let out = read_until_loop c c.read max byte in some (out, read_inc c (length out)))

-- CbDmaSynStart: the `while`, on fuel. `none` if the fuel runs out.
pub dma_syn_start_loop : ℕ → Cb → ℕ → Option Cb
dma_syn_start_loop zero c start_B = none
dma_syn_start_loop (suc fuel) c start_B =
    let rest = dma_syn_start_loop fuel (read_inc c 1) start_B in
    if not (is_empty c) && not (get_or c.buf (place c c.read) 0 == start_B) then rest else some c

-- Every round drops a byte, so `size` rounds are enough.
pub dma_syn_start : Cb → ℕ → Option Cb
dma_syn_start c start_B = dma_syn_start_loop c.size c start_B

-- CbDmaWrInc
pub dma_wr_inc : Cb → ℤ → Cb
dma_wr_inc c ndtr =
    let ndtr = if ltb_ℤ ndtr (pos 0) then pos 0 else ndtr in
    let ndtr = if ltb c.size (to_size ndtr) then to_int32 c.size else ndtr in
    let produced = place c (size_sub c.size (to_size ndtr)) in
    let delta = place c (size_sub produced c.dma_cnt) in
    write_inc (record c { dma_cnt = produced }) delta
