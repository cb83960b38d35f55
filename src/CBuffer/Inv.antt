-- ===== src/CBuffer/Inv.antt =====
-- The representation invariant of `cb_t`, and the counts of its functions as numbers.
use native.Mathlib.Nat.{one-le-pow, mod-lt, pow-le-pow_right}
use mathlib.Core.Path.{subst}
use data_commoms.Base.{
  ℕ, ◌+◌, ◌-◌, ◌%◌, ◌^◌, ◌≤◌, ◌<◌, ◌∣◌, ◌≡◌, sym, ap, ◌∙◌, bit_and, arith, length, size_mod,
  size_sub, bit_and_low, pow-dvd-pow, mod-add_inj, add-distance-mod, ==_iff, true, ◌↔◌,
}
use data_commoms.CBuffer.{Cb, place, is_empty, data_count, empty_count}

pub record IsValid (c : Cb) : Type 0 where
  pub exp : ℕ
  pub exp_le : exp ≤ 63
  pub size_eq : c.size ≡ 2 ^ exp
  pub mask_eq : c.mask ≡ c.size - 1
  pub storage : c.size ≤ length c.buf
  pub write_lt : c.write < size_mod
  pub read_lt : c.read < size_mod
  pub dma_lt : c.dma_cnt < c.size

pub size_pos : {c : Cb} → IsValid c → 0 < c.size
size_pos v = omega (arith, v.size_eq, one-le-pow v.exp 2)

pub size_dvd : {c : Cb} → IsValid c → c.size ∣ size_mod
size_dvd v = rw (v.size_eq) (
    subst (λ t. 2 ^ v.exp ∣ 2 ^ t) {y = 64} (omega (arith, v.exp_le))
      (pow-dvd-pow v.exp (64 - v.exp)))

pub size_lt : {c : Cb} → IsValid c → c.size < size_mod
size_lt v =
    omega (arith, v.size_eq, pow-le-pow_right {n = 2} (omega arith) {i = v.exp} {j = 63} v.exp_le)

-- A place is a remainder by the size.
pub place_lem : {c : Cb} (x : ℕ) → IsValid c → place c x ≡ x % c.size
place_lem {c} x v =
    ap (bit_and x) (omega (arith, v.size_eq))
    ∙ bit_and_low v.exp x
    ∙ ap (λ t. x % t) (sym v.size_eq)

-- The number of bytes stored.
abbrev pub count : Cb → ℕ
count c = (c.write + size_mod - c.read) % size_mod % c.size

pub count-lt-size : {c : Cb} → IsValid c → count c < c.size
count-lt-size v = mod-lt _ (size_pos v)

pub read-add-count : {c : Cb} → IsValid c → (c.read + count c) % c.size ≡ c.write % c.size
read-add-count {c} v =
    add-distance-mod c.write c.read size_mod c.size (size_dvd v) v.write_lt v.read_lt

pub count_unique :
    {c : Cb} (k : ℕ)
    → IsValid c
    → k < c.size
    → (c.read + k) % c.size ≡ c.write % c.size
    → count c ≡ k
count_unique {c} k v h e =
    mod-add_inj c.read (count c) k c.size (count-lt-size v) h (read-add-count v ∙ sym e)

pub data_count_lem : {c : Cb} → IsValid c → data_count c ≡ count c
unfolding data_count
data_count_lem {c} v = place_lem (size_sub c.write c.read) v

pub empty_count_lem : {c : Cb} → IsValid c → empty_count c ≡ c.size - 1 - count c
unfolding empty_count
empty_count_lem {c} v =
    omega (arith, place_lem (size_sub c.write c.read) v, count-lt-size v, size_lt v, v.mask_eq)

pub is_empty_lem : {c : Cb} → IsValid c → (is_empty c ≡ true) ↔ (count c ≡ 0)
unfolding is_empty
is_empty_lem {c} v = (
  λ e. count_unique 0 v (size_pos v) (
      ap (λ t. t % c.size) (let f : c.read + 0 ≡ c.read = omega arith in f)
      ∙ sym (same ((==_iff _ _).0 e))),
  λ e. (==_iff _ _).1 (
      place_lem c.write v
      ∙ sym (read-add-count v)
      ∙ ap (λ t. t % c.size) (let f : c.read + count c ≡ c.read = omega (arith, e) in f)
      ∙ sym (place_lem c.read v)),
)
  where
    same : place c c.write ≡ place c c.read → c.write % c.size ≡ c.read % c.size
    same e = sym (place_lem c.write v) ∙ e ∙ place_lem c.read v
