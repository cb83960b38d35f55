-- ===== src/CBuffer/Refine.antt =====
-- A valid buffer behaves as the bounded queue of its contents.
use data_commoms.Base.{
  ℕ, zero, suc, ◌-◌, ◌≡◌, inl, inr, refl, ◌∙◌, List, [], ◌∷◌, Option, none, some, arith, ltb,
  Bool-cases, length, drop-length-take,
}
use data_commoms.CBuffer.{Cb, write, read, read_until}
use data_commoms.CBuffer.Queue
use data_commoms.CBuffer.Queue.{Queue, up_to}
use data_commoms.CBuffer.Inv.{IsValid, size_pos}
use data_commoms.CBuffer.Contents.{contents}
use data_commoms.CBuffer.Write.{write_lem, write_refused}
use data_commoms.CBuffer.Read.{read_lem, read_until_lem}
use data_commoms.CBuffer.Sync.{dma_syn_start_lem}
use data_commoms.CBuffer.Client.{
  Op, put, get, get_until, sync, Reply, call, queue_call, run, queue_run,
}

-- The calls fail together, or give one reply and leave a valid buffer that holds the queue.
abbrev pub Agree : ℕ → Option (Reply × Cb) → Option (Reply × Queue) → Type 0
Agree size none none = Unit
Agree size (some (r, c')) (some (s, q')) =
    (r ≡ s) × IsValid c' × (contents c' ≡ q') × (c'.size ≡ size)
Agree size _ _ = ⊥

put-Agree :
    {c : Cb} (items : List ℕ)
    → IsValid c
    → Agree c.size (call c (put items)) (queue_call (c.size - 1) (contents c) (put items))
unfolding Queue.write
put-Agree [] v = unfold write in tt
put-Agree {c} (x ∷ []) v =
    let (c', e, w) = write_lem (x ∷ []) v (λ p. cc) (inl refl) in
    rw e (refl, w.valid, w.bytes, w.same_size)
put-Agree {c} (x ∷ y ∷ rest) v = elim (Bool-cases (ltb (c.size - 1) (length (x ∷ y ∷ rest)))) [
  | inl e ↦
      rw (e, write_refused c (x ∷ y ∷ rest) (omega arith) (ground (arith, size_pos v)))
        (refl, v, refl, refl)
  | inr e ↦
      let (c', d, w) = write_lem (x ∷ y ∷ rest) v (λ p. cc) (inr (ground (arith, size_pos v))) in
      rw (e, d) (refl, w.valid, w.bytes, w.same_size)
]

get-Agree :
    {c : Cb} (n : ℕ)
    → IsValid c
    → Agree c.size (call c (get n)) (queue_call (c.size - 1) (contents c) (get n))
unfolding Queue.read
get-Agree zero v = unfold read in tt
get-Agree {c} (suc n) v =
    let (c', e, t) = read_lem (suc n) v (omega arith) in
    rw e (refl, t.valid, t.bytes ∙ drop-length-take (suc n) (contents c), t.same_size)

get_until-Agree :
    {c : Cb} (max byte : ℕ)
    → IsValid c
    → Agree c.size
        (call c (get_until max byte))
        (queue_call (c.size - 1) (contents c) (get_until max byte))
unfolding Queue.read_until
get_until-Agree zero byte v = unfold read_until in tt
get_until-Agree (suc n) byte v =
    let (c', e, t) = read_until_lem (suc n) byte v (omega arith) in
    rw e (refl, t.valid, t.bytes, t.same_size)

-- One call.
pub call-Agree :
    {c : Cb} (op : Op)
    → IsValid c
    → Agree c.size (call c op) (queue_call (c.size - 1) (contents c) op)
call-Agree (put items) v = put-Agree items v
call-Agree (get n) v = get-Agree n v
call-Agree (get_until max byte) v = get_until-Agree max byte v
call-Agree (sync start_B) v =
    let (c', e, u, held, size) = dma_syn_start_lem start_B v in rw e (refl, u, held, size)

-- No sequence of calls tells a valid buffer of `size` bytes from the queue of its contents that
-- keeps the newest `size - 1`.
pub run_refines :
    (ops : List Op) {c : Cb} → IsValid c → run c ops ≡ queue_run (c.size - 1) (contents c) ops
unfolding run queue_run
run_refines [] v = refl
run_refines (op ∷ ops) {c} v =
    go (λ d u. run_refines ops {c = d} u) (call c op) (queue_call (c.size - 1) (contents c) op)
      (call-Agree op v)
  where
    go :
        ((d : Cb) → IsValid d → run d ops ≡ queue_run (d.size - 1) (contents d) ops)
        → (a : Option (Reply × Cb)) (b : Option (Reply × Queue)) → Agree c.size a b
        → elim a [ none ↦ [] | some (r, c') ↦ r ∷ run c' ops ]
          ≡ elim b [ none ↦ [] | some (r, q') ↦ r ∷ queue_run (c.size - 1) q' ops ]
    go ih none none h = refl
    go ih none (some b) h = elim h [ ]
    go ih (some a) none h = elim h [ ]
    go ih (some (r, c')) (some (s, q')) (e, u, held, size) =
        λ i. e i ∷ (ih c' u ∙ (λ j. queue_run (size j - 1) (held j) ops)) i
