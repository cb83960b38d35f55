-- ===== src/Comms/Round.antt =====
-- A round of the listener over all clients of a server.
use data_commoms.Base.{
  ℕ, zero, suc, ◌+◌, ◌-◌, ◌<◌, ◌≡◌, refl, sym, ap, ◌∙◌, Bool, true, false, List, [], ◌++◌, arith,
  get_or, pos,
}
use data_commoms.Comms.{Commh, no_addr, is_open}
use data_commoms.Comms.Threads.{
  Received, received, closed, would_block, interrupted, failed, Event, deliver, server_recv,
  server_turn, server_turns, server_round,
}
use data_commoms.Comms.Table.{view, IsServer}
use data_commoms.Comms.Agree.{open_get, get_or-in_use, clients_count}

-- The connection goes on.
abbrev pub goes_on_with : Received → Bool
goes_on_with (received msg) = true
goes_on_with would_block = true
goes_on_with interrupted = true
goes_on_with closed = false
goes_on_with failed = false

-- The message of a client, with its address and its index.
abbrev pub message : Commh → ℕ → Received → List Event
message c i (received msg) = deliver c msg (get_or c.client_address i no_addr) i
message c i closed = []
message c i would_block = []
message c i interrupted = []
message c i failed = []

-- The messages of `n` clients from `i` on.
abbrev pub messages : (ℕ → Received) → Commh → ℕ → ℕ → List Event
messages recv c zero i = []
messages recv c (suc n) i = message c i (recv i) ++ messages recv c n (suc i)

pub server_recv-open :
    (c : Commh) (i : ℕ) (r : Received)
    → goes_on_with r ≡ true
    → server_recv r i c ≡ (c, message c i r)
unfolding server_recv
server_recv-open c i (received msg) h = refl
server_recv-open c i closed h = cc
server_recv-open c i would_block h = refl
server_recv-open c i interrupted h = refl
server_recv-open c i failed h = cc

server_turn-open :
    (c : Commh) (i : ℕ) (r : Received)
    → IsServer c
    → suc i < c.client_count
    → goes_on_with r ≡ true
    → server_turn (suc i) r c ≡ (c, message c (suc i) r)
unfolding server_turn
server_turn-open c i r v inside h =
    let same =
      get_or-in_use (pos 0) i c.client_count c.clients_socks inside
        (omega (arith, v.count_fits, v.socks_cap)) in
    let on =
      sym (ap is_open same)
      ∙ open_get i (view c).socks (omega (arith, clients_count v)) v.clients_open in
    rw on (server_recv-open c (suc i) r h)

server_turns-open :
    (c : Commh) (recv : ℕ → Received) (n i : ℕ)
    → IsServer c
    → i + n < c.client_count
    → ((k : ℕ) → goes_on_with (recv k) ≡ true)
    → server_turns recv n (suc i) c ≡ (c, messages recv c n (suc i))
unfolding server_turns
server_turns-open c recv zero i v le h = refl
server_turns-open c recv (suc n) i v le h =
    rw
      (
        server_turn-open c i (recv (suc i)) v (omega arith) (h (suc i)),
        server_turns-open c recv n (suc i) v (omega arith) h,
      )
      refl

-- In a round in which no connection closes or breaks, the listener of a server with a valid table
-- hands each message to the callback once, in the order of the clients, with the address and the
-- index of its client, and leaves the table as it is.
pub round_delivers :
    (c : Commh) (recv : ℕ → Received)
    → IsServer c
    → 0 < c.client_count
    → ((k : ℕ) → goes_on_with (recv k) ≡ true)
    → server_round recv c ≡ (c, messages recv c (c.client_count - 1) 1)
unfolding server_round
round_delivers c recv v some_slot h =
    server_turns-open c recv (c.client_count - 1) 0 v (omega arith) h
