-- ===== src/Demo/Order.antt =====
-- What the reader of src/main.c gets, over all runs.
use mathlib.Core.Path.{subst}
use mathlib.Core.List.{Sublist, append_assoc, append-nil}
use mathlib.Core.List.Sublist
use mathlib.Core.Option.{some_inj}
use data_commoms.Base.{
  ℕ, ◌+◌, ◌-◌, ◌%◌, ◌^◌, ◌<◌, ◌≡◌, sym, ap, ◌∙◌, Option, none, some, List, [], ◌++◌, arith, length,
  length-append, take, take_last_all, take-append-drop, drop-length-take, size_sub, u32_sub, leb,
  Bool-cases, inl, inr,
}
use data_commoms.CBuffer.{Cb, read}
use data_commoms.CBuffer.Inv.{empty_count_lem, count-lt-size}
use data_commoms.CBuffer.Contents.{contents}
use data_commoms.CBuffer.Take.{length-contents, Took}
use data_commoms.CBuffer.Read.{read_lem, read-Untouched}
use data_commoms.CBuffer.Dma.{dma_round}
use data_commoms.CBuffer.Publish.{dma_round_lem}
use data_commoms.Demo.{System, tmp_size, dma_turn, timer_turn, Status, status_of, read_turn}
use data_commoms.Demo.Runs.{
  Trace, lost, arrives, takes, tick, Reached, starts, dma_turns, timer_turns, read_turns,
}
use data_commoms.Demo.Start.{drop-Sublist, InStep, start-InStep}

nothing-InStep : (t : Trace) (s : System) → InStep t s → InStep (arrives t s.cb []) s
nothing-InStep t s v =
    let none_lost : t.losses + lost s.cb [] ≡ t.losses = ground arith in
    record {
      linked = v.linked;
      size = v.size;
      in_order = rw (append-nil t.arrived) v.in_order;
      all_kept = λ h. v.all_kept (omega arith) ∙ sym (append-nil t.arrived);
      counted = rw none_lost v.counted;
    }

block-InStep :
    (t : Trace) (s : System) (now : ℕ) (bytes : List ℕ)
    → InStep t s
    → length bytes < 50
    → InStep (arrives t s.cb bytes) (record s {
      cb = (dma_round s.cb s.ndtr bytes).0;
      ndtr = (dma_round s.cb s.ndtr bytes).1;
      dma_last = now;
    })
block-InStep t s now bytes v fits =
    let p = dma_round_lem bytes v.linked (omega (arith, v.size)) in
    let free = empty_count_lem v.linked.valid in
    let held = length-contents s.cb in
    let all = length-append (contents s.cb) bytes in
    let grown = append_assoc t.taken (contents s.cb) bytes in
    record {
      linked = p.linked;
      size = p.same_size ∙ v.size;
      in_order =
          subst (λ w. Sublist (t.taken ++ w) (t.arrived ++ bytes)) (sym p.held)
            (Sublist.trans
              (Sublist.append (Sublist.refl t.taken) (
                drop-Sublist (length (contents s.cb ++ bytes) - (s.cb.size - 1))
                  (contents s.cb ++ bytes)))
              (subst (λ w. Sublist w (t.arrived ++ bytes)) grown
                (Sublist.append v.in_order (Sublist.refl bytes))));
      all_kept = λ h.
          ap (λ w. t.taken ++ w)
            (p.held ∙ take_last_all (s.cb.size - 1) (contents s.cb ++ bytes) (ground arith))
          ∙ sym grown
          ∙ ap (λ w. w ++ bytes) (v.all_kept (omega arith));
      counted = p.overrun ∙ ground (arith, v.counted, count-lt-size v.linked.valid);
    }

dma-InStep :
    (t : Trace) (s : System) (now : ℕ) (bytes : List ℕ)
    → InStep t s
    → length bytes < 50
    → InStep (arrives t s.cb (dma_turn s now bytes).0) (dma_turn s now bytes).1
unfolding dma_turn
dma-InStep t s now bytes v fits = elim (Bool-cases (leb 10 (u32_sub (now % 2 ^ 32) s.dma_last))) [
  | inl e ↦ rw e (block-InStep t s (now % 2 ^ 32) bytes v fits)
  | inr e ↦ rw e (nothing-InStep t s v)
]

taken-InStep :
    (t : Trace) (s : System) (now : ℕ) (c' : Cb)
    → InStep t s
    → read s.cb tmp_size ≡ some (take tmp_size (contents s.cb), c')
    → Took s.cb (take tmp_size (contents s.cb)) c'
    → InStep
        (takes t (some (status_of (take tmp_size (contents s.cb)) c')))
        (record s { cb = c'; read_last = now })
taken-InStep t s now c' v e took =
    let u = read-Untouched 511 c' (take tmp_size (contents s.cb)) v.linked.valid e in
    let size = took.same_size in
    let left = took.bytes ∙ drop-length-take tmp_size (contents s.cb) in
    let same : (t.taken ++ take tmp_size (contents s.cb)) ++ contents c'
        ≡ t.taken ++ contents s.cb =
      append_assoc t.taken (take tmp_size (contents s.cb)) (contents c')
      ∙ ap (λ w. t.taken ++ (take tmp_size (contents s.cb) ++ w)) left
      ∙ ap (λ w. t.taken ++ w) (take-append-drop tmp_size (contents s.cb)) in
    record {
      linked = record {
        valid = took.valid;
        small = omega (arith, v.linked.small);
        ndtr_le = omega (arith, v.linked.ndtr_le);
        dma_at = u.dma_same ∙ v.linked.dma_at ∙ ap (λ n. (n - s.ndtr) % n) (sym size);
        write_at = (λ i. u.write_same i % size i) ∙ v.linked.write_at ∙ sym u.dma_same;
      };
      size = size ∙ v.size;
      in_order = rw same v.in_order;
      all_kept = λ h. same ∙ v.all_kept h;
      counted = u.full_same ∙ v.counted;
    }

idle-InStep : (t : Trace) (s : System) → InStep t s → InStep (takes t none) s
idle-InStep t s v = record {
  linked = v.linked;
  size = v.size;
  in_order = rw (append-nil t.taken) v.in_order;
  all_kept = λ h. ap (λ w. w ++ contents s.cb) (append-nil t.taken) ∙ v.all_kept h;
  counted = v.counted;
}

read-InStep :
    (t : Trace) (s s' : System) (now : ℕ) (p : Option Status)
    → InStep t s
    → read_turn s now ≡ some (p, s')
    → InStep (takes t p) s'
unfolding read_turn
read-InStep t s s' now p v h = elim (Bool-cases (leb 50 (size_sub now s.read_last))) [
  | inl e ↦
      let (c', reads, took) = read_lem tmp_size v.linked.valid (omega arith) in
      let opened = rw (read_turn, e, reads) at h in
      subst (λ (q : Option Status × System). InStep (takes t q.0) q.1) (some_inj.0 opened)
        (taken-InStep t s now c' v reads took)
  | inr e ↦
      let opened = rw (read_turn, e) at h in
      subst (λ (q : Option Status × System). InStep (takes t q.0) q.1) (some_inj.0 opened)
        (idle-InStep t s v)
]

timer-InStep :
    (t : Trace) (s : System) (now : ℕ) → InStep t s → InStep (tick t s now) (timer_turn s now)
unfolding timer_turn
timer-InStep t s now v = elim (Bool-cases (leb 1 (u32_sub (now % 2 ^ 32) s.timer_last))) [
  | inl e ↦ rw e (record {
    linked = v.linked;
    size = v.size;
    in_order = v.in_order;
    all_kept = v.all_kept;
    counted = v.counted;
  })
  | inr e ↦ rw e (record {
    linked = v.linked;
    size = v.size;
    in_order = v.in_order;
    all_kept = v.all_kept;
    counted = v.counted;
  })
]

-- In every run of whole turns of the three threads, one behind the other in any order and none
-- within another (the code has no lock that would see to that), buffer and DMA stay in step; the
-- bytes that `main` has read, followed by those in the buffer, are among those that arrived, in the
-- same order; they are all that arrived if each block fitted into what was free; and full_cnt is
-- the number of blocks that did not, modulo 2^64.
pub runs_in_order : {t : Trace} {s : System} → Reached t s → InStep t s
runs_in_order (starts {s = s} dma_now read_now e) = start-InStep dma_now read_now s e
runs_in_order (dma_turns {t = t} {s = s} r now bytes fits) =
    dma-InStep t s now bytes (runs_in_order r) fits
runs_in_order (timer_turns {t = t} {s = s} r now) = timer-InStep t s now (runs_in_order r)
runs_in_order (read_turns {t = t} {s = s} {s' = s'} {p = p} r now e) =
    read-InStep t s s' now p (runs_in_order r) e
