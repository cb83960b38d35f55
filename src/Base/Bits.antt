-- ===== src/Base/Bits.antt =====
-- `&` with a mask of low bits is a remainder, and `n & (n - 1)` is zero exactly at powers of two.
use Prim.Native.Nat.{
  ℕ, zero, suc, ◌+◌, ◌-◌, ◌*◌, ◌/◌, ◌%◌, ◌^◌, ◌≤◌, ◌<◌, ◌∣◌, min, bit_and, digits, bit_and-bitwise,
}
use mathlib.Core.Path.{◌≡◌, refl, ap, ◌∙◌}
use mathlib.Core.WellFounded
use mathlib.Core.Logic.{◌≢◌}
use native.Mathlib.Nat.{
  two-pow-succ, one-le-pow, div-add-mod', mod-lt, mod_self, add-zero, dvd_refl, pow-succ',
  dvd-mul_left_of_dvd,
}
use native.Mathlib.Decide.{ℕ_discrete}
use data_commoms.Base.Mod.{mod_unique}
use data_commoms.Base.Order.{lt_wf}
use native.Mathlib.Omega.{arith}

-- With enough digits to go, the recursion on digits no longer depends on their number.
digits-enough :
    (n m a b : ℕ) → a ≤ n → a ≤ m → digits (λ _. 0) min n a b ≡ digits (λ _. 0) min m a b
digits-enough zero zero zero b p q = refl
digits-enough zero (suc m) zero b p q = refl
digits-enough (suc n) zero zero b p q = refl
digits-enough (suc n) (suc m) zero b p q = refl
digits-enough zero m (suc a) b p q = absurd (omega arith)
digits-enough (suc n) zero (suc a) b p q = absurd (omega arith)
digits-enough (suc n) (suc m) (suc a) b p q =
    ap (λ t. t * 2 + min (suc a % 2) (b % 2))
      (digits-enough n m (suc a / 2) (b / 2) (omega arith) (omega arith))

-- The lowest digit of `a & b` stands alone.
bit_and_digit : (a b : ℕ) → bit_and a b ≡ bit_and (a / 2) (b / 2) * 2 + min (a % 2) (b % 2)
bit_and_digit zero b = omega (arith, bit_and-bitwise 0 b, bit_and-bitwise (0 / 2) (b / 2))
bit_and_digit (suc a) b = omega (
  arith,
  bit_and-bitwise (suc a) b,
  bit_and-bitwise (suc a / 2) (b / 2),
  digits-enough a (suc a / 2) (suc a / 2) (b / 2) (omega arith) (omega arith),
)

bit_and-zero : (a : ℕ) → bit_and a 0 ≡ 0
bit_and-zero a = WellFounded.induction lt_wf {C = λ n. bit_and n 0 ≡ 0} a step
  where
    step : (n : ℕ) → ((m : ℕ) → m < n → bit_and m 0 ≡ 0) → bit_and n 0 ≡ 0
    step zero ih = bit_and-bitwise 0 0
    step (suc n) ih = omega (arith, bit_and_digit (suc n) 0, ih (suc n / 2) (omega arith))

bit_and_self : (a : ℕ) → bit_and a a ≡ a
bit_and_self a = WellFounded.induction lt_wf {C = λ n. bit_and n n ≡ n} a step
  where
    step : (n : ℕ) → ((m : ℕ) → m < n → bit_and m m ≡ m) → bit_and n n ≡ n
    step zero ih = bit_and-bitwise 0 0
    step (suc n) ih = omega (arith, bit_and_digit (suc n) (suc n), ih (suc n / 2) (omega arith))

-- A mask of `k` ones keeps the remainder by `2 ^ k`.
pub bit_and_low : (k a : ℕ) → bit_and a (2 ^ k - 1) ≡ a % 2 ^ k
bit_and_low zero a = omega (arith, bit_and-zero a)
bit_and_low (suc k) a = omega (
  arith,
  bit_and_digit a (2 ^ suc k - 1),
  ap (λ t. bit_and (a / 2) t) half,
  bit_and_low k (a / 2),
  halves,
  two-pow-succ k,
  one-le-pow k 2,
)
  where
    half : (2 ^ suc k - 1) / 2 ≡ 2 ^ k - 1
    half = omega (arith, two-pow-succ k, one-le-pow k 2)

    halves : a % 2 ^ suc k ≡ 2 * (a / 2 % 2 ^ k) + a % 2
    halves =
        mod_unique a (a / 2 / 2 ^ k) (2 ^ suc k) (2 * (a / 2 % 2 ^ k) + a % 2)
          (omega (
            arith,
            two-pow-succ k,
            ap (λ t. 2 * t) (div-add-mod' (a / 2) (2 ^ k)),
            ap (λ t. a / 2 / 2 ^ k * t) (two-pow-succ k),
          ))
          (omega (arith, two-pow-succ k, mod-lt (a / 2) {m = 2 ^ k} (one-le-pow k 2 (omega arith))))

-- `n & (n - 1)` clears the lowest one bit, so it is zero only at a power of two.
pub pow_of_bit_and-pred : (n : ℕ) → n ≢ 0 → bit_and n (n - 1) ≡ 0 → (k : ℕ) × (n ≡ 2 ^ k)
pow_of_bit_and-pred a =
    WellFounded.induction lt_wf {C = λ n. n ≢ 0 → bit_and n (n - 1) ≡ 0 → (k : ℕ) × (n ≡ 2 ^ k)} a
      step
  where
    odd : (n : ℕ) → n % 2 ≡ 1 → bit_and n (n - 1) ≡ 0 → n ≡ 1
    odd n o e = omega (
      arith,
      bit_and_digit n (n - 1),
      ap (bit_and (n / 2)) (let f : (n - 1) / 2 ≡ n / 2 = omega arith in f),
      bit_and_self (n / 2),
    )

    even : (n : ℕ) → n ≢ 0 → n % 2 ≡ 0 → bit_and n (n - 1) ≡ 0 → bit_and (n / 2) (n / 2 - 1) ≡ 0
    even n z o e = omega (
      arith,
      bit_and_digit n (n - 1),
      ap (bit_and (n / 2)) (let f : (n - 1) / 2 ≡ n / 2 - 1 = omega arith in f),
    )

    step :
        (n : ℕ)
        → ((m : ℕ) → m < n → m ≢ 0 → bit_and m (m - 1) ≡ 0 → (k : ℕ) × (m ≡ 2 ^ k))
        → n ≢ 0
        → bit_and n (n - 1) ≡ 0
        → (k : ℕ) × (n ≡ 2 ^ k)
    step n ih z e = elim (ℕ_discrete (n % 2) 1) [
      | yes o ↦ (0, odd n o e)
      | no o ↦
          let (k, h) = ih (n / 2) (omega arith) (omega arith) (even n z (omega arith) e) in
          (suc k, omega (arith, two-pow-succ k))
    ]

pub bit_and-pred_of_pow : (k : ℕ) → bit_and (2 ^ k) (2 ^ k - 1) ≡ 0
bit_and-pred_of_pow k = bit_and_low k (2 ^ k) ∙ mod_self (2 ^ k)

pub pow-dvd-pow : (k d : ℕ) → 2 ^ k ∣ 2 ^ (k + d)
pow-dvd-pow k zero = rw add-zero (dvd_refl (2 ^ k))
pow-dvd-pow k (suc d) =
    rw (let f : k + suc d ≡ suc (k + d) = omega arith in f, pow-succ')
      (dvd-mul_left_of_dvd (2 ^ k) (pow-dvd-pow k d) 2)
