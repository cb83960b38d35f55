-- ===== src/Demo/Runs.antt =====
-- The runs of src/main.c: any order of the turns of its three threads, and what has gone in and
-- out.
use data_commoms.Base.{
  u32_sub, ℕ, ◌+◌, ◌%◌, ◌^◌, ◌<◌, ◌≡◌, Option, none, some, List, [], ◌++◌, length, leb,
  if◌then◌else◌,
}
use data_commoms.CBuffer.{Cb, empty_count}
use data_commoms.Demo.{System, start_system, dma_turn, timer_turn, Status, read_turn}

-- What happened so far: the bytes that arrived and those that were read, oldest first; how many
-- blocks did not fit; and how often the timers were cycled.
pub record Trace : Type 0 where
  pub arrived : List ℕ
  pub taken : List ℕ
  pub losses : ℕ
  pub ticks : ℕ

abbrev pub no_trace : Trace
no_trace = record { arrived = []; taken = []; losses = 0; ticks = 0 }

-- A block of more bytes than are free.
abbrev pub lost : Cb → List ℕ → ℕ
lost c bytes = if leb (length bytes) (empty_count c) then 0 else 1

abbrev pub arrives : Trace → Cb → List ℕ → Trace
arrives t c bytes = record t { arrived = t.arrived ++ bytes; losses = t.losses + lost c bytes }

abbrev pub got_bytes : Option Status → List ℕ
got_bytes none = []
got_bytes (some p) = p.got

abbrev pub takes : Trace → Option Status → Trace
takes t p = record t { taken = t.taken ++ got_bytes p }

abbrev pub tick : Trace → System → ℕ → Trace
tick t s now = record t {
  ticks = t.ticks + (if leb 1 (u32_sub (now % 2 ^ 32) s.timer_last) then 1 else 0);
}

-- `rand() % 50` bytes arrive at most.
pub data Reached : Trace → System → Type 0 where
  starts :
      {s : System} (dma_now read_now : ℕ)
      → start_system dma_now read_now ≡ some s
      → Reached no_trace s
  dma_turns :
      {t : Trace} {s : System}
      → Reached t s
      → (now : ℕ) (bytes : List ℕ) → length bytes < 50
      → Reached (arrives t s.cb (dma_turn s now bytes).0) (dma_turn s now bytes).1
  timer_turns :
      {t : Trace} {s : System} → Reached t s → (now : ℕ) → Reached (tick t s now) (timer_turn s now)
  read_turns :
      {t : Trace} {s s' : System} {p : Option Status}
      → Reached t s
      → (now : ℕ) → read_turn s now ≡ some (p, s')
      → Reached (takes t p) s'
