-- ===== src/CBuffer/Queue.antt =====
-- What a client may rely on: a queue of bytes, oldest first, that keeps the newest `cap`.
use data_commoms.Base.{
  ℕ, zero, suc, Option, none, some, List, [], ◌∷◌, ◌++◌, ◌==◌, ltb, if◌then◌else◌, length, take,
  drop, take_last,
}

abbrev pub Queue : Type 0
Queue = List ℕ

-- A request of no byte fails. One of more bytes than fit is refused, unless it is a single byte.
unfoldable pub write : ℕ → Queue → List ℕ → Option (ℕ × Queue)
write cap q [] = none
write cap q (x ∷ []) = some (1, take_last cap (q ++ x ∷ []))
write cap q (x ∷ y ∷ rest) =
    let items = x ∷ y ∷ rest in
    let n = length items in if ltb cap n then some (0, q) else some (n, take_last cap (q ++ items))

unfoldable pub read : Queue → ℕ → Option (List ℕ × Queue)
read q zero = none
read q (suc n) = some (take (suc n) q, drop (suc n) q)

-- The bytes up to and with the first `byte`, or all.
abbrev pub up_to : ℕ → List ℕ → List ℕ
up_to byte [] = []
up_to byte (x ∷ xs) = if x == byte then x ∷ [] else x ∷ up_to byte xs

unfoldable pub read_until : Queue → ℕ → ℕ → Option (List ℕ × Queue)
read_until q zero byte = none
read_until q (suc n) byte = let out = up_to byte (take (suc n) q) in some (out, drop (length out) q)

-- The bytes from the first `byte` on.
abbrev pub from_byte : ℕ → List ℕ → Queue
from_byte byte [] = []
from_byte byte (x ∷ xs) = if x == byte then x ∷ xs else from_byte byte xs
