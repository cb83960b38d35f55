-- ===== src/Comms/Slots.antt =====
-- The arrays of the table of clients: what appending a slot and vacating one make of the slots in
-- use.
use data_commoms.Base.{
  ℕ, zero, suc, ◌+◌, ◌-◌, ◌≤◌, ◌<◌, ◌≡◌, refl, ap, ◌∙◌, List, [], ◌∷◌, ◌++◌, arith, length, get_or,
  set, take, drop, length-set, length-take, drop-append,
}
use data_commoms.Comms.{shift_down, vacate}

-- The list without its element at an index.
unfoldable pub remove : {A : Type 0} → ℕ → List A → List A
remove i [] = []
remove zero (x ∷ xs) = xs
remove (suc i) (x ∷ xs) = x ∷ remove i xs

module _ {A : Type 0} where
  -- The slots of the clients among the first `count` slots of an array.
  abbrev pub in_use : ℕ → List A → List A
  in_use count xs = drop 1 (take count xs)

  take-set_end :
      (n : ℕ) (xs : List A) (v : A)
      → n < length xs
      → take (suc n) (set xs n v) ≡ take n xs ++ v ∷ []
  take-set_end n [] v h = absurd (omega arith)
  take-set_end zero (x ∷ xs) v h = refl
  take-set_end (suc n) (x ∷ xs) v h = ap (λ t. x ∷ t) (take-set_end n xs v (omega arith))

  -- A slot put at the end is put behind those in use.
  pub in_use-set_end :
      (count : ℕ) (xs : List A) (v : A)
      → 1 ≤ count
      → count < length xs
      → in_use (suc count) (set xs count v) ≡ in_use count xs ++ v ∷ []
  in_use-set_end count xs v pos h =
      ap (drop 1) (take-set_end count xs v h)
      ∙ drop-append 1 (take count xs) (v ∷ []) (omega (arith, length-take count xs))

module _ {A : Type 0} (d : A) where
  shift_down-cons :
      (x : A) (xs : List A) (i n : ℕ) → shift_down d (x ∷ xs) (suc i) n ≡ x ∷ shift_down d xs i n
  unfolding shift_down
  shift_down-cons x xs i zero = refl
  shift_down-cons x xs i (suc n) = shift_down-cons x (set xs i (get_or xs (suc i) d)) (suc i) n

  take-shift_down_front :
      (y : A) (xs : List A) (n : ℕ)
      → n ≤ length xs
      → take n (set (shift_down d (y ∷ xs) 0 n) n d) ≡ take n xs
  unfolding shift_down
  take-shift_down_front y xs zero h = refl
  take-shift_down_front y [] (suc n) h = absurd (omega arith)
  take-shift_down_front y (x ∷ xs) (suc n) h =
      rw (shift_down-cons x (x ∷ xs) 0 n)
        (ap (λ t. x ∷ t) (take-shift_down_front x xs n (omega arith)))

  -- Zeroing slot `k`, moving the `n` slots behind it down to end at slot `m`, and zeroing that one
  -- removes it.
  take-shift_down :
      (k n m : ℕ) (xs : List A)
      → m ≡ k + n
      → m < length xs
      → take m (set (shift_down d (set xs k d) k n) m d) ≡ remove k (take (suc m) xs)
  unfolding remove
  take-shift_down k n m [] e h = absurd (omega arith)
  take-shift_down zero n m (x ∷ xs) e h =
      let same : m ≡ n = omega arith in rw same (take-shift_down_front d xs n (omega arith))
  take-shift_down (suc k) n zero (x ∷ xs) e h = absurd (omega arith)
  take-shift_down (suc k) n (suc m) (x ∷ xs) e h =
      rw (shift_down-cons x (set xs k d) k n)
        (ap (λ t. x ∷ t) (take-shift_down k n m xs (omega arith) (omega arith)))

  length-shift_down : (xs : List A) (i n : ℕ) → length (shift_down d xs i n) ≡ length xs
  unfolding shift_down
  length-shift_down xs i zero = refl
  length-shift_down xs i (suc n) =
      length-shift_down (set xs i (get_or xs (suc i) d)) (suc i) n
      ∙ length-set xs i (get_or xs (suc i) d)

  pub length-vacate : (xs : List A) (i n : ℕ) → length (vacate d xs i n) ≡ length xs
  unfolding vacate
  length-vacate xs i n =
      length-set (shift_down d (set xs i d) i (n - 1 - i)) (n - 1) d
      ∙ length-shift_down (set xs i d) i (n - 1 - i)
      ∙ length-set xs i d

  drop-remove : (i : ℕ) (xs : List A) → drop 1 (remove (suc i) xs) ≡ remove i (drop 1 xs)
  unfolding remove
  drop-remove i [] = refl
  drop-remove i (x ∷ xs) = refl

  -- A vacated slot is removed from those in use, and the order of the others is kept.
  pub in_use-vacate :
      (i count : ℕ) (xs : List A)
      → suc i < count
      → count ≤ length xs
      → in_use (count - 1) (vacate d xs (suc i) count) ≡ remove i (in_use count xs)
  unfolding vacate
  in_use-vacate i zero xs h le = absurd (omega arith)
  in_use-vacate i (suc m) xs h le =
      let last : suc m - 1 ≡ m = omega arith in
      rw last (
        ap (drop 1) (take-shift_down (suc i) (m - suc i) m xs (omega arith) (omega arith))
        ∙ drop-remove i (take (suc m) xs))

module _ {A : Type 0} where
  pub drop-set : (k n : ℕ) (xs : List A) (v : A) → k < n → drop n (set xs k v) ≡ drop n xs
  drop-set k n [] v h = refl
  drop-set k zero (x ∷ xs) v h = absurd (omega arith)
  drop-set zero (suc n) (x ∷ xs) v h = refl
  drop-set (suc k) (suc n) (x ∷ xs) v h = drop-set k n xs v (omega arith)

  drop-set_at :
      (n : ℕ) (xs : List A) (v : A) → n < length xs → drop n (set xs n v) ≡ v ∷ drop (suc n) xs
  drop-set_at n [] v h = absurd (omega arith)
  drop-set_at zero (x ∷ xs) v h = refl
  drop-set_at (suc n) (x ∷ xs) v h = drop-set_at n xs v (omega arith)

module _ {A : Type 0} (d : A) where
  drop-shift_down :
      (k n m : ℕ) (xs : List A) → k + n ≤ m → drop (suc m) (shift_down d xs k n) ≡ drop (suc m) xs
  unfolding shift_down
  drop-shift_down k zero m xs h = refl
  drop-shift_down k (suc n) m xs h =
      drop-shift_down (suc k) n m (set xs k (get_or xs (suc k) d)) (omega arith)
      ∙ drop-set k (suc m) xs (get_or xs (suc k) d) (omega arith)

  -- Behind the slots in use a vacated one appears, and the rest stays.
  pub drop-vacate :
      (i count : ℕ) (xs : List A)
      → i < count
      → count ≤ length xs
      → drop (count - 1) (vacate d xs i count) ≡ d ∷ drop count xs
  unfolding vacate
  drop-vacate i zero xs h le = absurd (omega arith)
  drop-vacate i (suc m) xs h le =
      let last : suc m - 1 ≡ m = omega arith in
      let moved = shift_down d (set xs i d) i (m - i) in
      rw last (
        drop-set_at m moved d
          (omega (arith, length-shift_down d (set xs i d) i (m - i), length-set xs i d))
        ∙ ap (λ t. d ∷ t)
            (drop-shift_down i (m - i) m (set xs i d) (omega arith)
              ∙ drop-set i (suc m) xs d (omega arith)))
