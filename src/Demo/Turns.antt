-- ===== src/Demo/Turns.antt =====
-- What `main` of src/main.c prints, and when its timer ends, over all runs.
use mathlib.Core.Option.{some_inj}
use data_commoms.Base.{
  ℕ, suc, ◌+◌, ◌-◌, ◌%◌, ◌^◌, min, ◌≡◌, refl, sym, ap, ◌∙◌, Option, none, some, List, [], ◌∷◌,
  arith, length, size_sub, u32_sub, leb, ltb, map, Bool-cases, inl, inr,
}
use data_commoms.CBuffer.{Cb, read}
use data_commoms.CBuffer.Inv.{count}
use data_commoms.CBuffer.Contents.{contents}
use data_commoms.Timer.{MyTimer, init, start, cycle, cycles}
use data_commoms.Timer.Expiry.{ends_after, cycles-snoc, cycles-init, cycles-zero}
use data_commoms.Demo.{
  System, buffer_sz, tmp_size, general_read_len, zero_timer, dma_turn, timer_turn, Status,
  status_of, read_turn,
}
use data_commoms.Demo.Runs.{Trace, tick, Reached, starts, dma_turns, timer_turns, read_turns}
use data_commoms.Demo.Start.{start_system-started}

-- What the numbers of a line mean, printed after a read from `c` that leaves `c'`.
pub record IsTrue (c c' : Cb) (p : Status) : Type 0 where
  pub got_all : length p.got ≡ min tmp_size (count c)
  pub used_left : p.used ≡ length (contents c')
  pub used_free : p.used + p.free ≡ buffer_sz - 1
  pub adds_up : length p.got + p.used ≡ count c

-- How a turn of `main` ends, in a run: it prints nothing and leaves the system, or prints a line
-- that is true.
abbrev pub Ends : System → Option Status → System → Type 0
Ends s none s' = s' ≡ s
Ends s (some p) s' = IsTrue s.cb s'.cb p

-- The two timers after `n` cycles.
abbrev pub timers_after : ℕ → List MyTimer
timers_after n =
    cycles n (start (init zero_timer) general_read_len) ∷ cycles n (init zero_timer) ∷ []

timers_tick :
    (t : Trace) (s : System) (now : ℕ)
    → s.tim ≡ timers_after t.ticks
    → (timer_turn s now).tim ≡ timers_after (tick t s now).ticks
unfolding timer_turn
timers_tick t s now h = elim (Bool-cases (leb 1 (u32_sub (now % 2 ^ 32) s.timer_last))) [
  | inl e ↦
      let next : t.ticks + 1 ≡ suc t.ticks = omega arith in
      rw
        (
          e,
          next,
          cycles-snoc t.ticks (start (init zero_timer) general_read_len),
          cycles-snoc t.ticks (init zero_timer),
        )
        (ap (map cycle) h)
  | inr e ↦ let same : t.ticks + 0 ≡ t.ticks = omega arith in rw (e, same) h
]

tim-dma_turn : (s : System) (now : ℕ) (bytes : List ℕ) → (dma_turn s now bytes).1.tim ≡ s.tim
unfolding dma_turn
tim-dma_turn s now bytes = elim (Bool-cases (leb 10 (u32_sub (now % 2 ^ 32) s.dma_last))) [
  | inl e ↦ rw e refl
  | inr e ↦ rw e refl
]

tim-read_turn :
    (s s' : System) (now : ℕ) (p : Option Status) → read_turn s now ≡ some (p, s') → s'.tim ≡ s.tim
unfolding read_turn
tim-read_turn s s' now p h = elim (Bool-cases (leb 50 (size_sub now s.read_last))) [
  | inl e ↦ go (read s.cb tmp_size) (rw (read_turn, e) at h)
  | inr e ↦
      let opened = rw (read_turn, e) at h in
      ap (λ (q : Option Status × System). q.1.tim) (sym (some_inj.0 opened))
]
  where
    go :
        (o : Option (List ℕ × Cb))
        → elim o [
          | none ↦ none
          | some (out, c) ↦ some (some (status_of out c), record s { cb = c; read_last = now })
        ]
          ≡ (let q : Option (Option Status × System) = some (p, s') in q)
        → s'.tim ≡ s.tim
    go none q = cc
    go (some (out, c)) q = ap (λ (w : Option Status × System). w.1.tim) (sym (some_inj.0 q))

runs_timers_after : {t : Trace} {s : System} → Reached t s → s.tim ≡ timers_after t.ticks
runs_timers_after (starts {s = s} dma_now read_now e) =
    let same = some_inj.0 (sym (start_system-started dma_now read_now) ∙ e) in
    sym (ap (λ u. u.tim) same) ∙ (λ i.
      sym (cycles-zero (start (init zero_timer) general_read_len)) i
      ∷ sym (cycles-zero (init zero_timer)) i
      ∷ [])
runs_timers_after (dma_turns {t = t} {s = s} r now bytes fits) =
    tim-dma_turn s now bytes ∙ runs_timers_after r
runs_timers_after (timer_turns {t = t} {s = s} r now) = timers_tick t s now (runs_timers_after r)
runs_timers_after (read_turns {t = t} {s = s} {s' = s'} {p = p} r now e) =
    tim-read_turn s s' now p e ∙ runs_timers_after r

-- In every run of whole turns, the timer GENERAL_READ has ended exactly if the timers were cycled
-- more than 5001 times, and the other timer, which nothing starts, is as MyTimerInit left it.
pub runs_timers :
    {t : Trace} {s : System}
    → Reached t s
    → (g : MyTimer) × (s.tim ≡ g ∷ init zero_timer ∷ []) × (g.end ≡ ltb 5001 t.ticks)
runs_timers {t} {s} r =
    let (ended, _, _) = ends_after t.ticks general_read_len zero_timer (omega arith) in
    (
      cycles t.ticks (start (init zero_timer) general_read_len),
      runs_timers_after r
          ∙ ap (λ u. cycles t.ticks (start (init zero_timer) general_read_len) ∷ u ∷ [])
              (cycles-init t.ticks zero_timer),
      ended,
    )
