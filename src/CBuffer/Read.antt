-- ===== src/CBuffer/Read.antt =====
-- CbRead and CbReadUntil take bytes from the front, oldest first.
use mathlib.Core.Path.{subst}
use data_commoms.Base.{
  ℕ, zero, suc, ◌+◌, ◌%◌, ◌≤◌, ◌≡◌, ◌≢◌, inl, inr, refl, sym, ap, ◌∙◌, List, [], ◌∷◌, Option, some,
  false, arith, ltb, if◌then◌else◌, ◌==◌, Bool-cases, length, get_or, take, size_mod, size_add,
  size_sub, mod-add_cong, add-wrap-mod,
}
use data_commoms.CBuffer.{Cb, is_empty, read_inc, read, read_until_loop, read_until}
use data_commoms.CBuffer.Queue.{up_to}
use data_commoms.CBuffer.Inv.{IsValid, place_lem, size_dvd, count, data_count_lem, is_empty_lem}
use data_commoms.CBuffer.Contents.{window, take-window, read_loop-window, contents}
use data_commoms.CBuffer.Take.{
  Took, Took-read_inc, take-contents, length-take-contents, Took-take, Took-empty, take-empty,
  count_pos, read_inc-one,
}

suc-ne-zero : (n : ℕ) → (suc n == 0) ≡ false
suc-ne-zero n = ground arith

-- The two branches of CbRead on a buffer that holds something do the same.
read_some :
    {c : Cb} (n : ℕ)
    → IsValid c
    → is_empty c ≡ false
    → read c (suc n)
      ≡ some (take (suc n) (contents c), read_inc c (length (take (suc n) (contents c))))
unfolding read
read_some {c} zero v e =
    let pos = count_pos v e in
    rw e λ i. some (
      (ap (λ t. get_or c.buf t 0 ∷ []) (place_lem c.read v)
            ∙ sym (take-window c.buf c.size 1 (count c) c.read pos))
          i,
      (read_inc-one v pos
            ∙ ap (read_inc c) (
                let f : 1 ≡ length (take 1 (contents c)) =
                  ground (arith, length-take-contents c 1) in
                f))
          i,
    )
read_some {c} (suc n) v e =
    rw (e, suc-ne-zero n, data_count_lem v)
      λ i. some (
        (read_loop-window c v (if ltb (count c) (suc (suc n)) then count c else suc (suc n)) c.read
                c.read refl
              ∙ sym (take-contents c (suc (suc n))))
            i,
        read_inc c (sym (length-take-contents c (suc (suc n))) i),
      )

-- CbRead copies the first `n` bytes, or all if there are fewer, and drops what it copied.
pub read_lem :
    {c : Cb} (n : ℕ)
    → IsValid c
    → n ≢ 0
    → (c' : Cb) × (read c n ≡ some (take n (contents c), c')) × Took c (take n (contents c)) c'
read_lem zero v h = absurd (h refl)
read_lem {c} (suc n) v h = elim (Bool-cases (is_empty c)) [
  | inl e ↦
      let none_held : count c ≡ 0 = (is_empty_lem v).0 e in
      (
        c,
        (unfold read in rw e (ap (λ t. some (t, c)) (take-empty c (suc n) none_held))),
        Took-empty c (suc n) v none_held,
      )
  | inr e ↦ (read_inc c (length (take (suc n) (contents c))), read_some n v e, Took-take (suc n) v)
]

-- The loop of CbReadUntil stops behind the first `byte`.
read_until_loop-up_to :
    (c : Cb) (v : IsValid c) (n byte w r : ℕ)
    → w % c.size ≡ r % c.size
    → read_until_loop c w n byte ≡ up_to byte (window c.buf c.size r n)
unfolding read_until_loop
read_until_loop-up_to c v zero byte w r e = refl
read_until_loop-up_to c v (suc n) byte w r e =
    rw (place_lem w v, e)
      (ap
        (λ t.
          if get_or c.buf (r % c.size) 0 == byte
          then get_or c.buf (r % c.size) 0 ∷ []
          else get_or c.buf (r % c.size) 0 ∷ t)
        (read_until_loop-up_to c v n byte (size_add w 1) (r + 1)
          (add-wrap-mod w 1 size_mod c.size (size_dvd v) ∙ mod-add_cong w r 1 c.size e)))

length-up_to : (byte : ℕ) (xs : List ℕ) → length (up_to byte xs) ≤ length xs
length-up_to byte [] = omega arith
length-up_to byte (x ∷ xs) = ground (arith, length-up_to byte xs)

-- CbReadUntil copies the bytes up to and with the first `byte` among the first `max`, and drops
-- what it copied.
pub read_until_lem :
    {c : Cb} (max byte : ℕ)
    → IsValid c
    → max ≢ 0
    → (c' : Cb) × (read_until c max byte ≡ some (up_to byte (take max (contents c)), c'))
      × Took c (up_to byte (take max (contents c))) c'
read_until_lem zero byte v h = absurd (h refl)
read_until_lem {c} (suc n) byte v h = elim (Bool-cases (is_empty c)) [
  | inl e ↦
      let none_held : count c ≡ 0 = (is_empty_lem v).0 e in
      (
        c,
        (unfold read_until in
            rw e (ap (λ t. some (up_to byte t, c)) (take-empty c (suc n) none_held))),
        subst (λ t. Took c (up_to byte t) c) (take-empty c (suc n) none_held)
            (record { valid = v; bytes = refl; same_size = refl }),
      )
  | inr e ↦
      let out = up_to byte (take (suc n) (contents c)) in
      (
        read_inc c (length out),
        (unfold read_until in
            rw (e, place_lem (size_sub c.write c.read) v)
              (ap (λ t. some (t, read_inc c (length t)))
                (read_until_loop-up_to c v (if ltb (count c) (suc n) then count c else suc n) byte
                    c.read c.read refl
                  ∙ ap (up_to byte) (sym (take-contents c (suc n)))))),
        Took-read_inc out v (
            ground (
              arith,
              length-up_to byte (take (suc n) (contents c)),
              length-take-contents c (suc n),
            )),
      )
]

-- What CbRead leaves alone.
pub record Untouched (c c' : Cb) : Type 0 where
  pub write_same : c'.write ≡ c.write
  pub dma_same : c'.dma_cnt ≡ c.dma_cnt
  pub full_same : c'.full_cnt ≡ c.full_cnt

read_inc-Untouched : (c : Cb) (n : ℕ) → Untouched c (read_inc c n)
unfolding read_inc
read_inc-Untouched c n = record { write_same = refl; dma_same = refl; full_same = refl }

pub read-Untouched :
    {c : Cb} (n : ℕ) (c' : Cb) (out : List ℕ)
    → IsValid c
    → read c (suc n) ≡ some (out, c')
    → Untouched c c'
read-Untouched {c} n c' out v h = elim (Bool-cases (is_empty c)) [
  | inl e ↦
      let same : ◌≡◌ {A = Option (List ℕ × Cb)} (some ([], c)) (some (out, c')) =
        (unfold read in rw (read, e) at h) in
      let here : c ≡ c' = cc in
      subst (λ d. Untouched c d) here
        (record { write_same = refl; dma_same = refl; full_same = refl })
  | inr e ↦
      let opened = sym (read_some n v e) ∙ h in
      let here : read_inc c (length (take (suc n) (contents c))) ≡ c' = cc in
      subst (λ d. Untouched c d) here (read_inc-Untouched c (length (take (suc n) (contents c))))
]
