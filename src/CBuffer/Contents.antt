-- ===== src/CBuffer/Contents.antt =====
-- The bytes that a buffer holds, oldest first.
use native.Mathlib.Nat.{mod-lt}
use mathlib.Core.Path.{ap₂}
use mathlib.Core.List.{append-nil, append_assoc}
use data_commoms.Base.{
  ℕ, zero, suc, ◌+◌, ◌-◌, ◌%◌, ◌≤◌, ◌<◌, ◌≡◌, ◌≢◌, refl, sym, ap, ◌∙◌, List, [], ◌∷◌, ◌++◌, bit_and,
  arith, length, get_or, set, take, drop, size_mod, size_add, length-set, get_or-set_self,
  get_or-set_ne, mod-add_cong, mod-add_ne, add-wrap-mod,
}
use data_commoms.CBuffer.{Cb, place, write_loop, read_loop}
use data_commoms.CBuffer.Inv.{IsValid, place_lem, size_dvd, count}

module _ (buf : List ℕ) (size : ℕ) where
  -- The `n` bytes from position `r` on, going round at `size`.
  abbrev pub window : ℕ → ℕ → List ℕ
  window r zero = []
  window r (suc n) = get_or buf (r % size) 0 ∷ window (r + 1) n

  pub length-window : (r n : ℕ) → length (window r n) ≡ n
  length-window r zero = refl
  length-window r (suc n) = ap suc (length-window (r + 1) n)

  pub window_cong : (n r r' : ℕ) → r % size ≡ r' % size → window r n ≡ window r' n
  window_cong zero r r' e = refl
  window_cong (suc n) r r' e =
      λ i. get_or buf (e i) 0 ∷ window_cong n (r + 1) (r' + 1) (mod-add_cong r r' 1 size e) i

  pub window_at : (r r' n n' : ℕ) → r ≡ r' → n ≡ n' → window r n ≡ window r' n'
  window_at r r' n n' p q = λ i. window (p i) (q i)

  pub drop-window : (d n m r : ℕ) → m ≡ d + n → drop d (window r m) ≡ window (r + d) n
  drop-window zero n m r e = window_at r (r + 0) m n (omega arith) (omega arith)
  drop-window (suc d) n zero r e = absurd (omega arith)
  drop-window (suc d) n (suc m) r e =
      drop-window d n m (r + 1) (omega arith)
      ∙ window_at (r + 1 + d) (r + suc d) n n (omega arith) refl

  pub take-window : (n m r : ℕ) → n ≤ m → take n (window r m) ≡ window r n
  take-window zero m r h = refl
  take-window (suc n) zero r h = absurd (omega arith)
  take-window (suc n) (suc m) r h =
      ap (λ t. get_or buf (r % size) 0 ∷ t) (take-window n m (r + 1) (omega arith))

  pub window-append : (n k m r : ℕ) → m ≡ n + k → window r m ≡ window r n ++ window (r + n) k
  window-append zero k m r e = window_at r (r + 0) m k (omega arith) (omega arith)
  window-append (suc n) k zero r e = absurd (omega arith)
  window-append (suc n) k (suc m) r e =
      ap (λ t. get_or buf (r % size) 0 ∷ t)
        (window-append n k m (r + 1) (omega arith)
          ∙ ap (λ t. window (r + 1) n ++ t)
              (window_at (r + 1 + n) (r + suc n) k k (omega arith) refl))

abbrev pub contents : Cb → List ℕ
contents c = window c.buf c.size c.read (count c)

-- Writing at a place outside a window leaves the window alone.
window-set_ne :
    (buf : List ℕ) (size x i n r : ℕ)
    → ((j : ℕ) → j < n → (r + j) % size ≢ i)
    → window (set buf i x) size r n ≡ window buf size r n
window-set_ne buf size x i zero r h = refl
window-set_ne buf size x i (suc n) r h =
    ap₂ ◌∷◌
      (get_or-set_ne buf i (r % size) x 0 (λ e.
        h 0 (omega arith) (ap (λ t. t % size) (let f : r + 0 ≡ r = omega arith in f) ∙ sym e)))
      (window-set_ne buf size x i n (r + 1) λ j p e.
        h (suc j) (omega arith)
          (ap (λ t. t % size) (let f : r + suc j ≡ r + 1 + j = omega arith in f) ∙ e))

-- Writing just past a window extends it.
window-set :
    (buf : List ℕ) (size x r n w : ℕ)
    → size ≤ length buf
    → n < size
    → w % size ≡ (r + n) % size
    → window (set buf (w % size) x) size r (n + 1) ≡ window buf size r n ++ x ∷ []
window-set buf size x r n w hs hn e =
    window-append (set buf (w % size) x) size n 1 (n + 1) r refl
    ∙ ap₂ ◌++◌ (window-set_ne buf size x (w % size) n r apart) (ap (λ t. t ∷ []) last)
  where
    apart : (j : ℕ) → j < n → (r + j) % size ≢ w % size
    apart j p q =
        mod-add_ne (r + j) (n - j) size (omega arith) (omega arith)
          (ap (λ t. t % size) (let f : r + j + (n - j) ≡ r + n = omega arith in f) ∙ sym e ∙ sym q)

    last : get_or (set buf (w % size) x) ((r + n) % size) 0 ≡ x
    last =
        ap (λ t. get_or (set buf (w % size) x) t 0) (sym e)
        ∙ get_or-set_self buf (w % size) x 0 (omega (arith, mod-lt w {m = size} (omega arith)))

-- The loop of CbWrite appends its bytes to the window that ends where it begins to write.
pub window-write_loop :
    (c : Cb) (v : IsValid c) (xs buf : List ℕ) (r n w : ℕ)
    → c.size ≤ length buf
    → n + length xs ≤ c.size
    → w % c.size ≡ (r + n) % c.size
    → window (write_loop c.mask buf w xs) c.size r (n + length xs) ≡ window buf c.size r n ++ xs
unfolding write_loop
window-write_loop c v [] buf r n w hs hn e =
    window_at buf c.size r r (n + 0) n refl (omega arith) ∙ sym (append-nil _)
window-write_loop c v (x ∷ xs) buf r n w hs hn e =
    window_at (write_loop c.mask buf w (x ∷ xs)) c.size r r (n + suc (length xs))
      (n + 1 + length xs) refl (omega arith)
    ∙ window-write_loop c v xs (set buf (place c w) x) r (n + 1) (size_add w 1)
        (omega (arith, length-set buf (place c w) x)) (omega arith) next
    ∙ ap (λ t. t ++ xs)
        (ap (λ t. window (set buf t x) c.size r (n + 1)) (place_lem w v)
          ∙ window-set buf c.size x r n w hs (omega arith) e)
    ∙ append_assoc (window buf c.size r n) (x ∷ []) xs
  where
    next : size_add w 1 % c.size ≡ (r + (n + 1)) % c.size
    next =
        add-wrap-mod w 1 size_mod c.size (size_dvd v)
        ∙ mod-add_cong w (r + n) 1 c.size e
        ∙ ap (λ t. t % c.size) (let f : r + n + 1 ≡ r + (n + 1) = omega arith in f)

pub length-write_loop :
    (mask : ℕ) (xs buf : List ℕ) (w : ℕ) → length (write_loop mask buf w xs) ≡ length buf
unfolding write_loop
length-write_loop mask [] buf w = refl
length-write_loop mask (x ∷ xs) buf w =
    length-write_loop mask xs (set buf (bit_and w mask) x) (size_add w 1)
    ∙ length-set buf (bit_and w mask) x

-- The loop of CbRead copies the window that begins where it begins to read.
pub read_loop-window :
    (c : Cb) (v : IsValid c) (n w r : ℕ)
    → w % c.size ≡ r % c.size
    → read_loop c w n ≡ window c.buf c.size r n
unfolding read_loop
read_loop-window c v zero w r e = refl
read_loop-window c v (suc n) w r e = ap₂ ◌∷◌ (ap (λ t. get_or c.buf t 0) (place_lem w v ∙ e)) (
    read_loop-window c v n (size_add w 1) (r + 1)
      (add-wrap-mod w 1 size_mod c.size (size_dvd v) ∙ mod-add_cong w r 1 c.size e))

-- Where the loop begins to write matters only up to whole rounds.
pub write_loop_cong :
    {c : Cb} (v : IsValid c) (xs buf : List ℕ) (w w' : ℕ)
    → w % c.size ≡ w' % c.size
    → write_loop c.mask buf w xs ≡ write_loop c.mask buf w' xs
unfolding write_loop
write_loop_cong v [] buf w w' e = refl
write_loop_cong {c} v (x ∷ xs) buf w w' e =
    write_loop_cong v xs (set buf (place c w) x) (size_add w 1) (size_add w' 1) (
      add-wrap-mod w 1 size_mod c.size (size_dvd v)
      ∙ mod-add_cong w w' 1 c.size e
      ∙ sym (add-wrap-mod w' 1 size_mod c.size (size_dvd v)))
    ∙ ap (λ t. write_loop c.mask (set buf t x) (size_add w' 1) xs)
        (place_lem w v ∙ e ∙ sym (place_lem w' v))

pub write_loop-append :
    {c : Cb} (v : IsValid c) (xs ys buf : List ℕ) (w w' : ℕ)
    → w' % c.size ≡ (w + length xs) % c.size
    → write_loop c.mask buf w (xs ++ ys) ≡ write_loop c.mask (write_loop c.mask buf w xs) w' ys
unfolding write_loop
write_loop-append {c} v [] ys buf w w' e =
    write_loop_cong v ys buf w w'
      (sym (e ∙ ap (λ t. t % c.size) (let f : w + 0 ≡ w = omega arith in f)))
write_loop-append {c} v (x ∷ xs) ys buf w w' e =
    write_loop-append v xs ys (set buf (place c w) x) (size_add w 1) w' (
      e
      ∙ ap (λ t. t % c.size) (let f : w + suc (length xs) ≡ w + 1 + length xs = omega arith in f)
      ∙ mod-add_cong (w + 1) (size_add w 1) (length xs) c.size
          (sym (add-wrap-mod w 1 size_mod c.size (size_dvd v))))
