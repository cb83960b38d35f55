-- ===== src/Timer/Expiry.antt =====
-- When a timer ends.
use data_commoms.Base.{
  ℕ, zero, suc, ◌+◌, ◌-◌, ◌^◌, ◌≤◌, ◌<◌, min, ◌≡◌, refl, true, false, ◌||◌, ltb, arith,
}
use data_commoms.Timer.{MyTimer, init, start, stop, cycle, reset, cycles}

-- A running timer whose counter has not wrapped counts up to one past its length and stays there;
-- it ends on the cycle after that.
pub cycles_closed :
    (n : ℕ) (tim : MyTimer)
    → tim.on ≡ true
    → tim.len + 1 < 2 ^ 32
    → tim.count ≤ tim.len + 1
    → cycles n tim ≡ record tim {
      count = min (tim.count + n) (tim.len + 1);
      end = tim.end || ltb (tim.len + 1) (tim.count + n);
    }
unfolding cycles cycle
cycles_closed zero tim run fits le = ground arith
cycles_closed (suc n) tim run fits le = ground (arith, cycles_closed n (cycle tim))

-- A timer started afresh, or reset, has ended exactly after more than `len + 1` cycles; this holds
-- for every length but the largest of `uint32_t`.
pub ends_after :
    (n len : ℕ) (tim : MyTimer)
    → len + 1 < 2 ^ 32
    → ((cycles n (start (init tim) len)).end ≡ ltb (len + 1) n)
      × ((cycles n (start (stop tim) len)).end ≡ ltb (len + 1) n)
      × ((cycles n (reset (start tim len))).end ≡ ltb (len + 1) n)
unfolding init start stop reset
ends_after n len tim fits = ground (
  arith,
  cycles_closed n (start (init tim) len) refl fits (omega arith),
  cycles_closed n (start (stop tim) len) refl fits (omega arith),
  cycles_closed n (reset (start tim len)) refl fits (omega arith),
)

-- At the largest length the counter wraps before it passes the length: the timer never ends.
pub never_ends :
    (n : ℕ) (tim : MyTimer)
    → tim.len ≡ 2 ^ 32 - 1
    → tim.count < 2 ^ 32
    → (cycles n tim).end ≡ tim.end
unfolding cycles cycle
never_ends zero tim e h = refl
never_ends (suc n) tim e h = ground (arith, never_ends n (cycle tim))

-- A timer that is not running keeps its state.
pub cycles_stopped : (n : ℕ) (tim : MyTimer) → tim.on ≡ false → cycles n tim ≡ tim
unfolding cycles cycle
cycles_stopped zero tim e = refl
cycles_stopped (suc n) tim e = ground (arith, cycles_stopped n tim e)

-- One more cycle comes last as well as first.
pub cycles-snoc : (n : ℕ) (tim : MyTimer) → cycles (suc n) tim ≡ cycle (cycles n tim)
unfolding cycles
cycles-snoc zero tim = refl
cycles-snoc (suc n) tim = cycles-snoc n (cycle tim)

-- A timer that was not started does nothing.
pub cycles-init : (n : ℕ) (tim : MyTimer) → cycles n (init tim) ≡ init tim
unfolding init
cycles-init n tim = cycles_stopped n (init tim) refl

pub cycles-zero : (tim : MyTimer) → cycles 0 tim ≡ tim
unfolding cycles
cycles-zero tim = refl
