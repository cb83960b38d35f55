-- ===== src/Base/Mod.antt =====
-- Remainders, and positions round a ring of `s` places.
use Prim.Native.Nat.{ℕ, ◌+◌, ◌-◌, ◌*◌, ◌%◌, ◌≤◌, ◌<◌, ◌∣◌}
use mathlib.Core.Path.{◌≡◌, sym, ap, ◌∙◌}
use mathlib.Core.Logic.{◌≢◌}
use native.Mathlib.Nat.{
  mod-eq_of_lt, mod-add-mod, add-mod-mod, mul-add-mod_self_right, add-mod_right, mod-lt,
  mod-eq-zero_of_dvd, mod-mod_of_dvd,
}
use native.Mathlib.Decide.{dec_lt}
use native.Mathlib.Omega.{arith}

pub mod_unique : (a q s r : ℕ) → a ≡ q * s + r → r < s → a % s ≡ r
mod_unique a q s r e h = ap (λ t. t % s) e ∙ mul-add-mod_self_right q s r ∙ mod-eq_of_lt h

pub mod-add_cong : (a b k s : ℕ) → a % s ≡ b % s → (a + k) % s ≡ (b + k) % s
mod-add_cong a b k s e = sym (mod-add-mod a s k) ∙ ap (λ t. (t + k) % s) e ∙ mod-add-mod b s k

-- Fewer than `s` steps round the ring do not come back to the start.
pub mod-add_ne : (a k s : ℕ) → 0 < k → k < s → (a + k) % s ≢ a % s
mod-add_ne a k s pos h e = elim (dec_lt (a % s + k) s) [
  | yes p ↦ omega (arith, mod-add-mod a s k, mod-eq_of_lt p)
  | no p ↦ omega (
    arith,
    mod-add-mod a s k,
    mod_unique (a % s + k) 1 s (a % s + k - s) (omega arith)
        (omega (arith, mod-lt a {m = s} (omega arith))),
    mod-lt a {m = s} (omega arith),
  )
]

-- Two distances below `s` from one place to another are the same.
pub mod-add_inj : (a j k s : ℕ) → j < s → k < s → (a + j) % s ≡ (a + k) % s → j ≡ k
mod-add_inj a j k s hj hk e = elim (dec_lt j k) [
  | yes p ↦ absurd (
      mod-add_ne (a + j) (k - j) s (omega arith) (omega arith)
        (ap (λ t. t % s) (let f : a + j + (k - j) ≡ a + k = omega arith in f) ∙ sym e))
  | no p ↦ elim (dec_lt k j) [
    | yes q ↦ absurd (
        mod-add_ne (a + k) (j - k) s (omega arith) (omega arith)
          (ap (λ t. t % s) (let f : a + k + (j - k) ≡ a + j = omega arith in f) ∙ e))
    | no q ↦ omega arith
  ]
]

-- A counter that wraps at a multiple of `s` keeps its place in the ring.
pub add-wrap-mod : (a b m s : ℕ) → s ∣ m → (a + b) % m % s ≡ (a + b) % s
add-wrap-mod a b m s d = mod-mod_of_dvd s (a + b) d

-- The distance from `r` to `w`, computed in wrapping arithmetic, leads from `r` to `w`.
pub add-distance-mod : (w r m s : ℕ) → s ∣ m → w < m → r < m → (r + (w + m - r) % m % s) % s ≡ w % s
add-distance-mod w r m s d hw hr =
    ap (λ t. (r + t) % s) (mod-mod_of_dvd s (w + m - r) d)
    ∙ add-mod-mod r (w + m - r) s
    ∙ ap (λ t. t % s) (let f : r + (w + m - r) ≡ w + m = omega arith in f)
    ∙ sym (add-mod-mod w m s)
    ∙ ap (λ t. (w + t) % s) (mod-eq-zero_of_dvd s d)
    ∙ ap (λ t. t % s) (let f : w + 0 ≡ w = omega arith in f)

-- A wrapping difference, taken round the ring, is the difference round the ring.
pub sub-wrap-mod : (a b m s : ℕ) → s ∣ m → b ≤ s → s ≤ m → (a + m - b) % m % s ≡ (a + s - b) % s
sub-wrap-mod a b m s d h k =
    mod-mod_of_dvd s (a + m - b) d
    ∙ sym (add-mod_right (a + m - b) s)
    ∙ ap (λ t. t % s) (let f : a + m - b + s ≡ a + s - b + m = omega arith in f)
    ∙ sym (add-mod-mod (a + s - b) m s)
    ∙ ap (λ t. (a + s - b + t) % s) (mod-eq-zero_of_dvd s d)
    ∙ ap (λ t. t % s) (let f : a + s - b + 0 ≡ a + s - b = omega arith in f)
