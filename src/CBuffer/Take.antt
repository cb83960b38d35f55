-- ===== src/CBuffer/Take.antt =====
-- What taking bytes from the front makes of a buffer (CbReadInc).
use data_commoms.Base.{
  ℕ, ◌+◌, ◌-◌, ◌%◌, ◌≤◌, ◌<◌, ◌≡◌, inl, inr, refl, sym, ap, ◌∙◌, List, [], false, arith, ltb,
  if◌then◌else◌, Bool-cases, length, take, drop, size_mod, size_add, size_sub, take-length,
  mod-add_cong, add-wrap-mod,
}
use data_commoms.CBuffer.{Cb, is_empty, read_inc}
use data_commoms.CBuffer.Inv.{
  IsValid, place_lem, size_dvd, count, count-lt-size, read-add-count, count_unique, is_empty_lem,
}
use data_commoms.CBuffer.Contents.{
  window, window_cong, drop-window, take-window, length-window, contents,
}

pub read_inc-IsValid : {c : Cb} (n : ℕ) → IsValid c → IsValid (read_inc c n)
unfolding read_inc
read_inc-IsValid {c} n v = ground arith

-- What a read of `n` bytes makes of the counters.
pub record Drops (c c' : Cb) (n : ℕ) : Type 0 where
  pub buf_same : c'.buf ≡ c.buf
  pub size_same : c'.size ≡ c.size
  pub write_same : c'.write ≡ c.write
  pub read_to : c'.read % c.size ≡ (c.read + n) % c.size

-- The bytes behind the `n` that are read stay, in order.
contents-Drops :
    {c c' : Cb} {n : ℕ}
    → IsValid c
    → IsValid c'
    → Drops c c' n
    → n ≤ count c
    → contents c' ≡ drop n (contents c)
contents-Drops {c} {c'} {n} v v' d h =
    (λ i. window (d.buf_same i) (d.size_same i) c'.read (count c'))
    ∙ ap (window c.buf c.size c'.read) counted
    ∙ window_cong c.buf c.size (count c - n) c'.read (c.read + n) d.read_to
    ∙ sym (drop-window c.buf c.size n (count c - n) (count c) c.read (omega arith))
  where
    counted : count c' ≡ count c - n
    counted = count_unique (count c - n) v' (omega (arith, d.size_same, count-lt-size v)) (
        ap (λ t. (c'.read + (count c - n)) % t) d.size_same
        ∙ mod-add_cong c'.read (c.read + n) (count c - n) c.size d.read_to
        ∙ ap (λ t. t % c.size)
            (let f : c.read + n + (count c - n) ≡ c.read + count c = omega arith in f)
        ∙ read-add-count v
        ∙ (λ i. sym d.write_same i % sym d.size_same i))

pub read_inc-Drops : {c : Cb} (n : ℕ) → IsValid c → n ≤ count c → Drops c (read_inc c n) n
unfolding read_inc
read_inc-Drops {c} n v h = ground (
  arith,
  place_lem (size_sub c.write c.read) v,
  add-wrap-mod c.read n size_mod c.size (size_dvd v),
)

-- CbReadInc drops at most what there is.
pub contents-read_inc :
    {c : Cb} (n : ℕ) → IsValid c → n ≤ count c → contents (read_inc c n) ≡ drop n (contents c)
contents-read_inc n v h = contents-Drops v (read_inc-IsValid n v) (read_inc-Drops n v h) h

-- `out` was taken from the front of `c`, and `c'` is what is left.
pub record Took (c : Cb) (out : List ℕ) (c' : Cb) : Type 0 where
  pub valid : IsValid c'
  pub bytes : contents c' ≡ drop (length out) (contents c)
  pub same_size : c'.size ≡ c.size

pub length-contents : (c : Cb) → length (contents c) ≡ count c
length-contents c = length-window c.buf c.size c.read (count c)

pub Took-read_inc :
    {c : Cb} (out : List ℕ)
    → IsValid c
    → length out ≤ count c
    → Took c out (read_inc c (length out))
Took-read_inc out v h = record {
  valid = read_inc-IsValid (length out) v;
  bytes = contents-read_inc (length out) v h;
  same_size = (read_inc-Drops (length out) v h).size_same;
}

pub contents_empty : (c : Cb) → count c ≡ 0 → contents c ≡ []
contents_empty c e = ap (window c.buf c.size c.read) e

-- The first `n` bytes, computed as the code does: no more than there are.
pub take-contents :
    (c : Cb) (n : ℕ)
    → take n (contents c) ≡ window c.buf c.size c.read (if ltb (count c) n then count c else n)
take-contents c n = elim (Bool-cases (ltb (count c) n)) [
  | inl e ↦ take-length n (contents c) (ground (arith, length-contents c)) ∙ rw e
  | inr e ↦ take-window c.buf c.size n (count c) c.read (ground arith) ∙ rw e
]

pub length-take-contents :
    (c : Cb) (n : ℕ) → length (take n (contents c)) ≡ (if ltb (count c) n then count c else n)
length-take-contents c n =
    ap length (take-contents c n)
    ∙ length-window c.buf c.size c.read (if ltb (count c) n then count c else n)

pub Took-take :
    {c : Cb} (n : ℕ)
    → IsValid c
    → Took c (take n (contents c)) (read_inc c (length (take n (contents c))))
Took-take {c} n v = Took-read_inc (take n (contents c)) v (ground (arith, length-take-contents c n))

-- Nothing is taken from an empty buffer.
pub Took-empty : (c : Cb) (n : ℕ) → IsValid c → count c ≡ 0 → Took c (take n (contents c)) c
Took-empty c n v e = record {
  valid = v;
  bytes =
      ap (λ t. drop t (contents c))
        (let f : 0 ≡ length (take n (contents c)) = ground (arith, length-take-contents c n) in f);
  same_size = refl;
}

pub take-empty : (c : Cb) (n : ℕ) → count c ≡ 0 → [] ≡ take n (contents c)
take-empty c n e =
    sym (contents_empty c e) ∙ sym (take-length n (contents c) (omega (arith, length-contents c)))

pub count_pos : {c : Cb} → IsValid c → is_empty c ≡ false → 0 < count c
count_pos {c} v e = ground (arith, is_empty_lem v)

pub read_inc-one :
    {c : Cb}
    → IsValid c
    → 0 < count c
    → record c { read = size_add c.read 1; read_last = size_add c.read 1 } ≡ read_inc c 1
unfolding read_inc
read_inc-one {c} v h = ground (arith, place_lem (size_sub c.write c.read) v)
