-- ===== src/Demo/Start.antt =====
-- The system of src/main.c at the start: buffer and DMA in step, with nothing read.
use mathlib.Core.Path.{subst}
use mathlib.Core.List.{Sublist}
use mathlib.Core.List.Sublist
use mathlib.Core.Option.{some_inj}
use data_commoms.Base.{
  ℕ, zero, suc, ◌%◌, ◌^◌, ◌≡◌, refl, sym, ap, ◌∙◌, some, List, [], ◌∷◌, ◌++◌, arith, length, drop,
  size_mod,
}
use data_commoms.Text.{text}
use data_commoms.CBuffer.{fresh}
use data_commoms.CBuffer.Init.{fresh-IsValid, init-fresh, contents-fresh}
use data_commoms.CBuffer.Contents.{contents}
use data_commoms.CBuffer.Dma.{IsLinked}
use data_commoms.Demo.{System, buffer_sz, static_bytes, start_timers, start_system}
use data_commoms.Demo.Runs.{Trace, no_trace}

pub drop-Sublist : (n : ℕ) (xs : List ℕ) → Sublist (drop n xs) xs
drop-Sublist zero xs = Sublist.refl xs
drop-Sublist (suc n) [] = Sublist.refl []
drop-Sublist (suc n) (x ∷ xs) = Sublist.cons x (drop-Sublist n xs)

-- The buffer is in step with the DMA; what was read and what is held has arrived in this order, and
-- all of it is there as long as no block was too long; full_cnt counts those that were.
pub record InStep (t : Trace) (s : System) : Type 0 where
  pub linked : IsLinked s.cb s.ndtr
  pub size : s.cb.size ≡ buffer_sz
  pub in_order : Sublist (t.taken ++ contents s.cb) t.arrived
  pub all_kept : t.losses ≡ 0 → t.taken ++ contents s.cb ≡ t.arrived
  pub counted : s.cb.full_cnt ≡ t.losses % size_mod

length-static_bytes : (n : ℕ) → length (static_bytes n) ≡ n
unfolding static_bytes
length-static_bytes zero = refl
length-static_bytes (suc n) = ap suc (length-static_bytes n)

-- The system when the threads start.
abbrev pub started : ℕ → ℕ → System
started dma_now read_now = record {
  cb = fresh (static_bytes buffer_sz) buffer_sz (some (text "test_cb"));
  tim = start_timers;
  ndtr = buffer_sz;
  dma_last = dma_now % 2 ^ 32;
  timer_last = 0;
  read_last = read_now;
}

pub start_system-started :
    (dma_now read_now : ℕ) → start_system dma_now read_now ≡ some (started dma_now read_now)
unfolding start_system
start_system-started dma_now read_now =
    rw (start_system, init-fresh (static_bytes buffer_sz) buffer_sz 12 (some (text "test_cb")) refl)
      refl

started-InStep : (dma_now read_now : ℕ) → InStep no_trace (started dma_now read_now)
started-InStep dma_now read_now =
    let name = some (text "test_cb") in
    let valid =
      fresh-IsValid (static_bytes buffer_sz) buffer_sz 12 name (omega arith)
        (omega (arith, length-static_bytes buffer_sz)) refl in
    let empty = contents-fresh (static_bytes buffer_sz) buffer_sz 12 name valid in
    record {
      linked = record {
        valid = valid;
        small = omega arith;
        ndtr_le = omega arith;
        dma_at = refl;
        write_at = refl;
      };
      size = refl;
      in_order = rw empty (Sublist.refl []);
      all_kept = λ h. empty;
      counted = refl;
    }

pub start-InStep :
    (dma_now read_now : ℕ) (s : System) → start_system dma_now read_now ≡ some s → InStep no_trace s
start-InStep dma_now read_now s h =
    subst (InStep no_trace) (some_inj.0 (sym (start_system-started dma_now read_now) ∙ h))
      (started-InStep dma_now read_now)
