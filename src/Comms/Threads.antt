-- ===== src/Comms/Threads.antt =====
-- comms_accepter and comms__listener of include/eth_comms.h, one round of each `while`. Waiting
-- (`usleep`) and the log are left out; a round sees no other thread, since each of its parts on the
-- table is behind the mutex and Comms/Table.antt puts these parts in any order.
use data_commoms.Base.{
  ℕ, zero, suc, ◌-◌, Bool, true, false, not, ◌&&◌, List, [], ◌∷◌, ◌++◌, leb, if◌then◌else◌, get_or,
  set, ℤ, pos, map,
}
use data_commoms.Comms.{
  Commh, Addr, no_addr, Action, shuts, closes, set_error, max_clients, is_open, comms_max_clients,
  disconnect_client,
}

-- What `accept` returns: a socket and the address of the peer, or an error, of which it matters
-- whether `errno` is EBADF or EINVAL.
pub data Accepted : Type 0 where
  connection : ℤ → Addr → Accepted
  no_connection : Bool → Accepted

-- A round of the accepter: whether the `while` goes on, the context, and the calls on sockets.
unfoldable pub accept_round : Accepted → Commh → Bool × Commh × List Action
accept_round (no_connection bad) c = (not (not c.running && bad), c, [])
accept_round (connection cs cli) c =
    if leb comms_max_clients c.client_count
    then (false, set_error c max_clients, if is_open cs then shuts cs ∷ closes cs ∷ [] else [])
    else (
      true,
      record c {
        clients_socks = set c.clients_socks c.client_count cs;
        client_address = set c.client_address c.client_count cli;
        client_count = suc c.client_count;
      },
      [],
    )

-- What `recv` returns: some bytes, 0, or -1 with EAGAIN or EWOULDBLOCK, with EINTR, or with another
-- `errno`.
pub data Received : Type 0 where
  received : List ℕ → Received
  closed would_block interrupted failed : Received

-- What a round does: a call of the callback with the message, the address and the index of the
-- client, or a call on a socket.
pub data Event : Type 0 where
  delivers : List ℕ → Addr → ℕ → Event
  acts : Action → Event

-- Behind a closed or broken connection.
abbrev pub drop_client : Commh → ℕ → Commh × List Event
drop_client c i = let (ok, c', a) = disconnect_client c i in (c', map acts a)

-- The callback, if there is one.
abbrev pub deliver : Commh → List ℕ → Addr → ℕ → List Event
deliver c msg addr i = if c.recvcb then delivers msg addr i ∷ [] else []

-- A socket that was open, and what `recv` returned on it.
unfoldable pub server_recv : Received → ℕ → Commh → Commh × List Event
server_recv (received msg) i c = (c, deliver c msg (get_or c.client_address i no_addr) i)
server_recv closed i c = drop_client c i
server_recv would_block i c = (c, [])
server_recv interrupted i c = (c, [])
server_recv failed i c = drop_client c i

-- One turn of the `for` over the clients of a server.
unfoldable pub server_turn : ℕ → Received → Commh → Commh × List Event
unfolding server_recv
server_turn i r c =
    if is_open (get_or c.clients_socks i (pos 0)) then server_recv r i c else (c, [])

-- The `for`: `n` turns from `i` on; `recv i` is what `recv` returns in turn `i`.
unfoldable pub server_turns : (ℕ → Received) → ℕ → ℕ → Commh → Commh × List Event
server_turns recv zero i c = (c, [])
server_turns recv (suc n) i c =
    let (c', evs) = server_turn i (recv i) c in
    let (c'', more) = server_turns recv n (suc i) c' in (c'', evs ++ more)

-- A round of the `while` of the listener on a server, over as many clients as there were at first.
unfoldable pub server_round : (ℕ → Received) → Commh → Commh × List Event
server_round recv c = server_turns recv (c.client_count - 1) 1 c

-- A round on a TCP client.
unfoldable pub client_round : Received → Commh → Commh × List Event
client_round r c = if is_open (get_or c.clients_socks 0 (pos 0)) then server_recv r 0 c else (c, [])

-- A round on UDP: `recvfrom` also gives the address of the sender.
unfoldable pub udp_round : Received → Addr → Commh → List Event
udp_round (received msg) src c =
    if is_open (get_or c.clients_socks 0 (pos 0)) then deliver c msg src 0 else []
udp_round _ src c = []
