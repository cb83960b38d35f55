-- ===== src/Comms/Table.antt =====
-- The clients of a TCP server as a list, and what the accepter, the listener and CommsDisconnect do
-- to it. The parts of these that touch the table stand behind the mutex, so that any run of the
-- threads is a sequence of them.
use data_commoms.Base.{
  ℕ, zero, suc, ◌-◌, ◌≤◌, ◌≡◌, Bool, true, false, not, ◌&&◌, List, [], ◌∷◌, ◌++◌, length, get_or,
  drop, ltb, if◌then◌else◌, ℤ, pos, map,
}
use data_commoms.Comms.{
  Commh, Addr, no_addr, shuts, closes, is_open, comms_max_clients, disconnect_client,
}
use data_commoms.Comms.Slots.{remove, in_use}
use data_commoms.Comms.Threads.{
  connection, accept_round, Received, received, closed, would_block, interrupted, failed, Event,
  delivers, acts, server_turn,
}

-- The clients, in the order in which they came; client `cid` of the program is element `cid - 1`.
pub record Clients : Type 0 where
  pub socks : List ℤ
  pub addrs : List Addr
  pub has_callback : Bool

abbrev pub view : Commh → Clients
view c = record {
  socks = in_use c.client_count c.clients_socks;
  addrs = in_use c.client_count c.client_address;
  has_callback = c.recvcb;
}

abbrev pub all_open : List ℤ → Bool
all_open [] = true
all_open (s ∷ ss) = is_open s && all_open ss

abbrev pub none_open : List ℤ → Bool
none_open [] = true
none_open (s ∷ ss) = not (is_open s) && none_open ss

-- A server with its two arrays, one slot in use for itself and one for each client,
-- and nothing in the slots behind these.
pub record IsServer (c : Commh) : Type 0 where
  pub is_tcp : c.tcp ≡ true
  pub is_server : c.server ≡ true
  pub socks_cap : length c.clients_socks ≡ comms_max_clients
  pub addrs_cap : length c.client_address ≡ comms_max_clients
  pub counts_itself : 1 ≤ c.client_count
  pub count_fits : c.client_count ≤ comms_max_clients
  pub clients_open : all_open (in_use c.client_count c.clients_socks) ≡ true
  pub rest_closed : none_open (drop c.client_count c.clients_socks) ≡ true

-- A critical section on the table: of the accepter with a new connection, of CommsDisconnect, and
-- of one turn of the listener, at the client after as many. A turn whose CommsDisconnect waits for
-- the mutex is a turn with nothing received, and `disconnects` later.
pub data Section : Type 0 where
  accepts : ℤ → Addr → Section
  disconnects : ℕ → Section
  turn : ℕ → Received → Section

unfoldable pub run_section : Section → Commh → Bool × Commh × List Event
run_section (accepts cs cli) c =
    let (ok, c', a) = accept_round (connection cs cli) c in (ok, c', map acts a)
run_section (disconnects cid) c = let (ok, c', a) = disconnect_client c cid in (ok, c', map acts a)
run_section (turn i r) c = let (c', evs) = server_turn (suc i) r c in (true, c', evs)

-- The specification. A table holds 255 clients; a further connection is closed at once.
unfoldable pub admit : ℤ → Addr → Clients → Bool × Clients × List Event
admit cs cli t =
    if ltb (length t.socks) (comms_max_clients - 1)
    then (true, record t { socks = t.socks ++ cs ∷ []; addrs = t.addrs ++ cli ∷ [] }, [])
    else (false, t, acts (shuts cs) ∷ acts (closes cs) ∷ [])

-- A client leaves: its connection is closed, and the clients behind it move up.
unfoldable pub leave : ℕ → Clients → Bool × Clients × List Event
unfolding remove
leave zero t = (false, t, [])
leave (suc i) t =
    let sock = get_or t.socks i (pos 0) in
    if ltb i (length t.socks)
    then (
      true,
      record t { socks = remove i t.socks; addrs = remove i t.addrs },
      acts (shuts sock) ∷ acts (closes sock) ∷ [],
    )
    else (false, t, [])

-- A client whose connection is there says something, or its connection is found closed or broken.
unfoldable pub serve : ℕ → Received → Clients → Bool × Clients × List Event
unfolding leave
serve i (received msg) t = (
  true,
  t,
  if t.has_callback && ltb i (length t.socks)
      then delivers msg (get_or t.addrs i no_addr) (suc i) ∷ []
      else [],
)
serve i closed t = let (b, t', evs) = leave (suc i) t in (true, t', evs)
serve i failed t = let (b, t', evs) = leave (suc i) t in (true, t', evs)
serve i would_block t = (true, t, [])
serve i interrupted t = (true, t, [])

-- The specification of a section.
unfoldable pub spec_section : Section → Clients → Bool × Clients × List Event
spec_section (accepts cs cli) t = admit cs cli t
spec_section (disconnects cid) t = leave cid t
spec_section (turn i r) t = serve i r t

-- `accept` gives a socket that the code takes for one.
abbrev pub gives_socket : Section → Bool
gives_socket (accepts cs cli) = is_open cs
gives_socket (disconnects cid) = true
gives_socket (turn i r) = true

abbrev pub give_sockets : List Section → Bool
give_sockets [] = true
give_sockets (s ∷ ss) = gives_socket s && give_sockets ss

-- Sections one after the other, and what each returns and does.
unfoldable pub run_sections : List Section → Commh → List (Bool × List Event) × Commh
unfolding run_section
run_sections [] c = ([], c)
run_sections (s ∷ ss) c =
    let (ok, c', evs) = run_section s c in
    let (replies, c'') = run_sections ss c' in ((ok, evs) ∷ replies, c'')

unfoldable pub spec_sections : List Section → Clients → List (Bool × List Event) × Clients
unfolding spec_section
spec_sections [] t = ([], t)
spec_sections (s ∷ ss) t =
    let (ok, t', evs) = spec_section s t in
    let (replies, t'') = spec_sections ss t' in ((ok, evs) ∷ replies, t'')
