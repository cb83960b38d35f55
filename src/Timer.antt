-- ===== src/Timer.antt =====
-- include/timers.h: software timers. Each function takes the timer and returns it as it leaves it.
pub mod Expiry
mod Tests
use data_commoms.Base.{ℕ, zero, suc, ◌+◌, ◌%◌, ◌^◌, Bool, true, false, ltb, if◌then◌else◌}

-- `mytimer_t`
pub record MyTimer : Type 0 where
  pub on : Bool
  pub end : Bool
  pub count : ℕ
  pub len : ℕ

-- MyTimerInit
pub init : MyTimer → MyTimer
init tim = record tim { count = 0; end = false; on = false }

-- MyTimerStart
pub start : MyTimer → ℕ → MyTimer
start tim timeout = record tim { on = true; len = timeout }

-- MyTimerStop
pub stop : MyTimer → MyTimer
stop tim = record tim { count = 0; end = false; on = false }

-- MyTimerCycle
pub cycle : MyTimer → MyTimer
cycle tim =
    if tim.on
    then (if ltb tim.len tim.count
        then record tim { end = true }
        else record tim { count = (tim.count + 1) % 2 ^ 32 })
    else tim

-- MyTimerReset
pub reset : MyTimer → MyTimer
reset tim = record tim { count = 0; end = false; on = true }

-- `n` calls of MyTimerCycle in a row, as `timer_th` of src/main.c makes them.
pub cycles : ℕ → MyTimer → MyTimer
cycles zero tim = tim
cycles (suc n) tim = cycles n (cycle tim)
