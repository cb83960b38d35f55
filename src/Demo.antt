-- ===== src/Demo.antt =====
-- src/main.c: the buffer and the timers, and the turns of the three threads that share them. A turn
-- is taken whole; the code has no lock that would see to that.
pub mod Runs
pub mod Start
pub mod Order
pub mod Turns
mod Tests
use data_commoms.Base.{
  ℕ, zero, suc, ◌%◌, ◌^◌, Bool, false, Option, none, some, List, [], ◌∷◌, leb, if◌then◌else◌, map,
  size_sub, u32_sub,
}
use data_commoms.CBuffer.{Cb, place, read}
use data_commoms.CBuffer
use data_commoms.CBuffer.Dma.{dma_round}
use data_commoms.Timer.{MyTimer, start, cycle}
use data_commoms.Timer
use data_commoms.Text.{text}

-- BUFFER_SZ
abbrev pub buffer_sz : ℕ
buffer_sz = 4096

-- The length of the timer GENERAL_READ, and sizeof tmp.
abbrev pub general_read_len : ℕ
general_read_len = 5000

abbrev pub tmp_size : ℕ
tmp_size = 512

-- `cb` with `in_buffer` as its storage, and `tim`; `ndtr` and `last` of `dma_th`, `last` of
-- `timer_th`, and `last` of `main`.
pub record System : Type 0 where
  pub cb : Cb
  pub tim : List MyTimer
  pub ndtr : ℕ
  pub dma_last : ℕ
  pub timer_last : ℕ
  pub read_last : ℕ

-- A static array of bytes, and a static timer.
unfoldable pub static_bytes : ℕ → List ℕ
static_bytes zero = []
static_bytes (suc n) = 0 ∷ static_bytes n

abbrev pub zero_timer : MyTimer
zero_timer = record { on = false; end = false; count = 0; len = 0 }

-- `tim` when the threads start.
abbrev pub start_timers : List MyTimer
start_timers = start (Timer.init zero_timer) general_read_len ∷ Timer.init zero_timer ∷ []

-- `main` up to its loop, and each thread up to its own; `dma_now` and `read_now` are what now_ms
-- gives to `dma_th` and to `main`. `none`: the assertion of CbInit fails.
pub start_system : ℕ → ℕ → Option System
start_system dma_now read_now =
    elim (CBuffer.init (static_bytes buffer_sz) buffer_sz (some (text "test_cb"))) [
      | none ↦ none
      | some c ↦ some (record {
        cb = c;
        tim = start_timers;
        ndtr = buffer_sz;
        dma_last = dma_now % 2 ^ 32;
        timer_last = 0;
        read_last = read_now;
      })
    ]

-- The body of the `for` of `dma_th`, taken whole: the bytes that arrive, if it is time for a block,
-- and the system. `now` is what now_ms gives.
pub dma_turn : System → ℕ → List ℕ → List ℕ × System
dma_turn s now bytes =
    let now = now % 2 ^ 32 in
    if leb 10 (u32_sub now s.dma_last)
    then (let (c, n) = dma_round s.cb s.ndtr bytes in
        (bytes, record s { cb = c; ndtr = n; dma_last = now }))
    else ([], s)

-- The body of the `while` of `timer_th`.
pub timer_turn : System → ℕ → System
timer_turn s now =
    let now = now % 2 ^ 32 in
    if leb 1 (u32_sub now s.timer_last)
    then record s { tim = map cycle s.tim; timer_last = now }
    else s

-- What the `printf` of `main` prints, with the bytes that were read.
pub record Status : Type 0 where
  pub got : List ℕ
  pub used : ℕ
  pub free : ℕ
  pub full_cnt : ℕ

abbrev pub status_of : List ℕ → Cb → Status
status_of out c = record {
  got = out;
  used = place c (size_sub c.write c.read);
  free = size_sub c.mask (place c (size_sub c.write c.read));
  full_cnt = c.full_cnt;
}

-- The body of the `for` of `main`, taken whole: what it prints, if it is time to read, and the
-- system. `none`: the assertion of CbRead fails.
pub read_turn : System → ℕ → Option (Option Status × System)
read_turn s now =
    if leb 50 (size_sub now s.read_last)
    then elim (read s.cb tmp_size) [
      | none ↦ none
      | some (out, c) ↦ some (some (status_of out c), record s { cb = c; read_last = now })
    ]
    else some (none, s)
