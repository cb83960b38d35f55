-- ===== src/CBuffer/Init.antt =====
-- CbCheckSize and CbInit accept exactly the powers of two.
use data_commoms.Base.{
  ℕ, ◌-◌, ◌^◌, ◌≤◌, ◌<◌, ◌≡◌, ◌≢◌, ◌↔◌, ◌⊎◌, inl, inr, refl, ap, ◌∙◌, List, [], Option, none, some,
  true, bit_and, arith, length, size_mod, Bool-cases, pow_of_bit_and-pred, bit_and-pred_of_pow,
}
use native.Mathlib.Nat.{one-le-pow, pow-le-pow_right}
use native.Mathlib.Decide.{dec_lt}
use data_commoms.CBuffer.{Cb, fresh, check_size, init}
use data_commoms.CBuffer.Inv.{IsValid, count_unique, size_pos}
use data_commoms.CBuffer.Contents.{window, contents}

check_size_of_pow : (size k : ℕ) → size ≡ 2 ^ k → check_size size ≡ true
unfolding check_size
check_size_of_pow size k e =
    ground (arith, one-le-pow k 2, (λ i. bit_and (e i) (e i - 1)) ∙ bit_and-pred_of_pow k)

-- CbCheckSize decides whether the size is a power of two.
pub check_size_iff : (size : ℕ) → (check_size size ≡ true) ↔ ((k : ℕ) × (size ≡ 2 ^ k))
check_size_iff size = (
  (λ h.
      pow_of_bit_and-pred size (unfold check_size in ground arith)
        (unfold check_size in ground arith)),
  (λ p. check_size_of_pow size p.0 p.1),
)

exp_bound : (k : ℕ) → 2 ^ k < size_mod → k ≤ 63
exp_bound k h = elim (dec_lt k 64) [
  | yes p ↦ omega arith
  | no p ↦
      absurd (omega (arith, pow-le-pow_right {n = 2} (omega arith) {i = 64} {j = k} (omega arith)))
]

pub fresh-IsValid :
    (storage : List ℕ) (size k : ℕ) (name : Option (List ℕ))
    → size < size_mod
    → size ≤ length storage
    → size ≡ 2 ^ k
    → IsValid (fresh storage size name)
fresh-IsValid storage size k name h fits e = record {
  exp = k;
  exp_le = exp_bound k (omega arith);
  size_eq = e;
  mask_eq = refl;
  storage = fits;
  write_lt = omega arith;
  read_lt = omega arith;
  dma_lt = omega (arith, one-le-pow k 2);
}

pub init-fresh :
    (storage : List ℕ) (size k : ℕ) (name : Option (List ℕ))
    → size ≡ 2 ^ k
    → init storage size name ≡ some (fresh storage size name)
unfolding init
init-fresh storage size k name e = ground (arith, check_size_of_pow size k e, one-le-pow k 2)

pub contents-fresh :
    (storage : List ℕ) (size k : ℕ) (name : Option (List ℕ))
    → IsValid (fresh storage size name)
    → contents (fresh storage size name) ≡ []
contents-fresh storage size k name v =
    ap (window storage size 0) (count_unique {c = fresh storage size name} 0 v (size_pos v) refl)

-- CbInit on a power of two that `size_t` and the storage hold gives a valid, empty buffer; on any
-- other size its assertion fails.
pub init_lem :
    (storage : List ℕ) (size : ℕ) (name : Option (List ℕ))
    → size < size_mod
    → size ≤ length storage
    → ((c : Cb) × (k : ℕ) × (size ≡ 2 ^ k)
        × (init storage size name ≡ some c)
        × IsValid c
        × (contents c ≡ [])
        × (c.size ≡ size))
      ⊎ (((k : ℕ) → size ≢ 2 ^ k) × (init storage size name ≡ none))
init_lem storage size name h fits = elim (Bool-cases (check_size size)) [
  | inl e ↦
      let (k, p) = (check_size_iff size).0 e in
      let v = fresh-IsValid storage size k name h fits p in
      inl (
        fresh storage size name,
        k,
        p,
        init-fresh storage size k name p,
        v,
        contents-fresh storage size k name v,
        refl,
      )
  | inr e ↦ inr ((λ k p. cc (check_size_of_pow size k p)), (unfold init in ground arith))
]
