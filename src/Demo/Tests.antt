-- ===== src/Demo/Tests.antt =====
-- A run of src/main.c: a block of three bytes arrives, and the timers are cycled.
use data_commoms.Base.{ℕ, ◌≡◌, refl, List, [], ◌∷◌, arith, ltb}
use data_commoms.Timer.{MyTimer, init}
use data_commoms.Demo.{System, dma_turn, timer_turn, zero_timer}
use data_commoms.Demo.Runs.{Trace, no_trace, arrives, tick, Reached, starts, dma_turns, timer_turns}
use data_commoms.Demo.Start.{InStep, started, start_system-started}
use data_commoms.Demo.Order.{runs_in_order}
use data_commoms.Demo.Turns.{runs_timers}

abbrev three : List ℕ
three = 1 ∷ 2 ∷ 3 ∷ []

abbrev loaded : System
loaded = (dma_turn (started 0 0) 10 three).1

abbrev loaded_trace : Trace
loaded_trace = arrives no_trace (started 0 0).cb (dma_turn (started 0 0) 10 three).0

loaded-Reached : Reached loaded_trace loaded
loaded-Reached = dma_turns (starts 0 0 (start_system-started 0 0)) 10 three (omega arith)

-- Ten milliseconds are enough for a block, nine are not.
blocks : ((dma_turn (started 0 0) 10 three).0 ≡ three) × ((dma_turn (started 0 0) 9 three).0 ≡ [])
unfolding dma_turn
blocks = (refl, refl)

runs_in_order_example : InStep loaded_trace loaded
runs_in_order_example = runs_in_order loaded-Reached

runs_timers_example :
    (g : MyTimer) × ((timer_turn loaded 1).tim ≡ g ∷ init zero_timer ∷ [])
    × (g.end ≡ ltb 5001 (tick loaded_trace loaded 1).ticks)
runs_timers_example = runs_timers (timer_turns loaded-Reached 1)
