-- ===== src/CBuffer/Write.antt =====
-- CbWrite: what it stores, what it drops, and what it counts.
use native.Mathlib.Nat.{add-mod_right}
use native.Mathlib.Decide.{dec_lt}
use data_commoms.Base.{
  ℕ, ◌+◌, ◌-◌, ◌%◌, ◌≤◌, ◌<◌, ◌≡◌, ◌≢◌, ◌⊎◌, refl, sym, ap, ◌∙◌, List, [], ◌∷◌, ◌++◌, some, arith,
  ltb, if◌then◌else◌, lt→ltb, length, take_last, size_mod, size_add, length-set, drop-length,
  mod-add_cong, mod-add_ne, add-wrap-mod,
}
use data_commoms.CBuffer.{Cb, place, write_inc, write_one, write_loop, write}
use data_commoms.CBuffer.Inv.{
  IsValid, place_lem, size_pos, size_dvd, count, count-lt-size, read-add-count, empty_count_lem,
}
use data_commoms.CBuffer.Contents.{window, length-write_loop, contents}
use data_commoms.CBuffer.Moves.{Moves, contents-Moves, with_buf-IsValid, write_inc-IsValid}

write_one-IsValid : {c : Cb} (x : ℕ) → IsValid c → IsValid (write_one c x)
unfolding write_one
write_one-IsValid {c} x v = ground (arith, length-set c.buf (place c c.write) x)

-- How CbWrite and CbWriteInc count an overrun.
abbrev pub overruns : Cb → ℕ → ℕ
overruns c n = if ltb (count c + n) c.size then c.full_cnt else size_add c.full_cnt 1

-- CbWriteInc moves the counters, and counts an overrun.
pub write_inc_lem :
    {c : Cb} (n : ℕ)
    → IsValid c
    → Moves c (write_inc c n) n
      × ((write_inc c n).buf ≡ c.buf)
      × ((write_inc c n).full_cnt ≡ overruns c n)
unfolding write_inc
write_inc_lem {c} n v = ground (
  arith,
  empty_count_lem v,
  count-lt-size v,
  size_pos v,
  add-wrap-mod c.write n size_mod c.size (size_dvd v),
  add-wrap-mod (size_add c.write n) 1 size_mod c.size (size_dvd v),
  mod-add_cong (size_add c.write n) (c.write + n) 1 c.size
      (add-wrap-mod c.write n size_mod c.size (size_dvd v)),
)

module _ {c : Cb} (v : IsValid c) where
  step_mod : (x : ℕ) → size_add x 1 % c.size ≡ (x + 1) % c.size
  step_mod x = add-wrap-mod x 1 size_mod c.size (size_dvd v)

  -- One step of the writer meets the reader exactly if the buffer is full.
  meets_full : (c.write + 1) % c.size ≡ c.read % c.size → count c + 1 ≡ c.size
  meets_full e = elim (dec_lt (count c + 1) c.size) [
    | yes p ↦ absurd (
        mod-add_ne c.read (count c + 1) c.size (omega arith) p (
          ap (λ t. t % c.size)
            (let f : c.read + (count c + 1) ≡ c.read + count c + 1 = omega arith in f)
          ∙ mod-add_cong (c.read + count c) c.write 1 c.size (read-add-count v)
          ∙ e))
    | no p ↦ omega (arith, count-lt-size v)
  ]

  full_meets : count c + 1 ≡ c.size → (c.write + 1) % c.size ≡ c.read % c.size
  full_meets e =
      sym (mod-add_cong (c.read + count c) c.write 1 c.size (read-add-count v))
      ∙ ap (λ t. t % c.size) (let f : c.read + count c + 1 ≡ c.read + c.size = omega arith in f)
      ∙ add-mod_right c.read c.size

  write_one_lem :
      (x : ℕ)
      → Moves c (write_one c x) 1
        × ((write_one c x).buf ≡ write_loop c.mask c.buf c.write (x ∷ []))
        × ((write_one c x).full_cnt ≡ overruns c 1)
  unfolding write_one write_loop
  write_one_lem x = ground (
    arith,
    count-lt-size v,
    place_lem (size_add c.write 1) v,
    place_lem c.read v,
    step_mod c.write,
    step_mod c.read,
    mod-add_cong (c.write + 1) c.read 1 c.size,
    meets_full,
    full_meets,
  )

-- The result of CbWrite on a list that it takes.
pub record Wrote (c : Cb) (items : List ℕ) (c' : Cb) : Type 0 where
  pub valid : IsValid c'
  pub bytes : contents c' ≡ take_last (c.size - 1) (contents c ++ items)
  pub overrun : c'.full_cnt ≡ overruns c (length items)
  pub same_size : c'.size ≡ c.size

write_one-Wrote : {c : Cb} (x : ℕ) → IsValid c → Wrote c (x ∷ []) (write_one c x)
write_one-Wrote {c} x v =
    let (m, b, o) = write_one_lem v x in
    record {
      valid = write_one-IsValid x v;
      bytes = elim (dec_lt 1 c.size) [
        | yes p ↦ contents-Moves v (write_one-IsValid x v) (x ∷ []) m b p
        | no p ↦
            ap (window (write_one c x).buf (write_one c x).size (write_one c x).read) (
              let f : count (write_one c x) ≡ 0 =
                omega (arith, count-lt-size (write_one-IsValid x v), m.size_same) in
              f)
            ∙ sym (
                drop-length (length (contents c ++ x ∷ []) - (c.size - 1)) (contents c ++ x ∷ [])
                  (omega arith))
      ];
      overrun = o;
      same_size = m.size_same;
    }

write_many-Wrote :
    {c : Cb} (items : List ℕ)
    → IsValid c
    → length items < c.size
    → Wrote c items
        (write_inc (record c { buf = write_loop c.mask c.buf c.write items }) (length items))
write_many-Wrote {c} items v fits =
    let buf = write_loop c.mask c.buf c.write items in
    let u = with_buf-IsValid buf v (length-write_loop c.mask items c.buf c.write) in
    let (m, b, o) = write_inc_lem (length items) u in
    let u' = write_inc-IsValid (length items) u in
    record {
      valid = u';
      bytes =
          contents-Moves v u' items
            (record { size_same = m.size_same; write_to = m.write_to; read_to = m.read_to }) b fits;
      overrun = o;
      same_size = m.size_same;
    }

-- CbWrite of one byte, or of fewer bytes than the size, takes them all. The buffer then holds the
-- newest `size - 1` bytes of what it held and what was written, and `full_cnt` has counted an
-- overrun exactly if bytes were lost.
pub write_lem :
    {c : Cb} (items : List ℕ)
    → IsValid c
    → items ≢ []
    → (length items ≡ 1) ⊎ (length items < c.size)
    → (c' : Cb) × (write c items ≡ some (length items, c')) × Wrote c items c'
unfolding write
write_lem [] v ne h = absurd (ne refl)
write_lem {c} (x ∷ []) v ne h = (write_one c x, refl, write_one-Wrote x v)
write_lem {c} (x ∷ y ∷ rest) v ne h =
    let items = x ∷ y ∷ rest in
    let fits : length items < c.size = omega arith in
    (
      write_inc (record c { buf = write_loop c.mask c.buf c.write items }) (length items),
      rw (lt→ltb (length items) c.size fits),
      write_many-Wrote items v fits,
    )

-- More bytes than that are refused, and nothing changes.
pub write_refused :
    (c : Cb) (items : List ℕ)
    → 1 < length items
    → c.size ≤ length items
    → write c items ≡ some (0, c)
unfolding write
write_refused c [] h k = absurd (omega arith)
write_refused c (x ∷ []) h k = absurd (omega arith)
write_refused c (x ∷ y ∷ rest) h k = ground arith
