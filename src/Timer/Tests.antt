-- ===== src/Timer/Tests.antt =====
-- Timers on concrete inputs.
use data_commoms.Base.{◌-◌, ◌^◌, ◌≡◌, refl, true, false, arith}
use data_commoms.Timer.{MyTimer, init, start, stop, cycle, reset, cycles}
use data_commoms.Timer.Expiry.{cycles_closed, ends_after, never_ends}

abbrev idle : MyTimer
idle = record { on = false; end = false; count = 9; len = 7 }

abbrev endless : MyTimer
endless = record { on = true; end = false; count = 5; len = 2 ^ 32 - 1 }

five_cycles :
    ((cycles 4 (start (init idle) 3)).end ≡ false) × ((cycles 5 (start (init idle) 3)).end ≡ true)
unfolding cycles cycle start init
five_cycles = (refl, refl)

-- MyTimerStart goes on from the count that is there.
start_keeps_count : (cycles 1 (start (record idle { count = 9 }) 3)).end ≡ true
unfolding cycles cycle start
start_keeps_count = refl

cycles_closed_run :
    cycles 6 (record idle { on = true; count = 8 })
    ≡ record idle { on = true; count = 8; end = true }
cycles_closed_run =
    cycles_closed 6 (record idle { on = true; count = 8 }) refl (omega arith) (omega arith)

ends_after_example :
    ((cycles 5 (start (init idle) 3)).end ≡ true)
    × ((cycles 5 (start (stop idle) 3)).end ≡ true)
    × ((cycles 5 (reset (start idle 3))).end ≡ true)
ends_after_example = ends_after 5 3 idle (omega arith)

never_ends_run : (cycles 20 endless).end ≡ false
never_ends_run = never_ends 20 endless refl (omega arith)
