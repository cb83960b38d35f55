-- ===== src/CBuffer/Client.antt =====
-- A client's calls on a circular buffer, and the same calls on the queue that it stands for.
use data_commoms.Base.{ℕ, Option, none, some, List, [], ◌∷◌}
use data_commoms.CBuffer.{Cb, write, read, read_until, dma_syn_start}
use data_commoms.CBuffer.Queue
use data_commoms.CBuffer.Queue.{Queue, from_byte}

pub data Op : Type 0 where
  put : List ℕ → Op
  get : ℕ → Op
  get_until : ℕ → ℕ → Op
  sync : ℕ → Op

-- The number that CbWrite returns, the bytes that a read copies, or nothing.
pub data Reply : Type 0 where
  count : ℕ → Reply
  bytes : List ℕ → Reply
  quiet : Reply

abbrev pub counted {ℓ} : {S : Type ℓ} → Option (ℕ × S) → Option (Reply × S)
counted none = none
counted (some (n, s)) = some (count n, s)

abbrev pub copied {ℓ} : {S : Type ℓ} → Option (List ℕ × S) → Option (Reply × S)
copied none = none
copied (some (out, s)) = some (bytes out, s)

abbrev pub silent {ℓ} : {S : Type ℓ} → Option S → Option (Reply × S)
silent none = none
silent (some s) = some (quiet, s)

-- One call. `none`: an assertion fails.
abbrev pub call : Cb → Op → Option (Reply × Cb)
call c (put items) = counted (write c items)
call c (get n) = copied (read c n)
call c (get_until max byte) = copied (read_until c max byte)
call c (sync start_B) = silent (dma_syn_start c start_B)

abbrev pub queue_call : ℕ → Queue → Op → Option (Reply × Queue)
queue_call cap q (put items) = counted (Queue.write cap q items)
queue_call cap q (get n) = copied (Queue.read q n)
queue_call cap q (get_until max byte) = copied (Queue.read_until q max byte)
queue_call cap q (sync start_B) = some (quiet, from_byte start_B q)

-- The replies up to the first call that fails, which ends the program.
unfoldable pub run : Cb → List Op → List Reply
run c [] = []
run c (op ∷ ops) = elim (call c op) [ none ↦ [] | some (r, c') ↦ r ∷ run c' ops ]

unfoldable pub queue_run : ℕ → Queue → List Op → List Reply
queue_run cap q [] = []
queue_run cap q (op ∷ ops) = elim (queue_call cap q op) [
  | none ↦ []
  | some (r, q') ↦ r ∷ queue_run cap q' ops
]
