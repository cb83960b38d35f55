-- ===== src/Comms.antt =====
-- include/eth_comms.h: the context of a connection and its table of clients. Slot 0 holds the
-- listening socket of a server, or the only socket of a TCP client or of UDP; the clients of a
-- server stand in the slots from 1 on. What the calls of the operating system return is an
-- argument, and the calls that matter to a peer are listed in the order in which they are made.
pub mod Slots
pub mod Send
pub mod Init
pub mod Lifecycle
pub mod Deliver
pub mod Threads
pub mod Table
pub mod Agree
pub mod Serve
pub mod Round
pub mod Session
pub mod Refine
pub mod Log
pub mod Says
pub mod Demo
pub mod DemoSends
mod Samples
mod Tests
mod SayTests
use data_commoms.Base.{
  ℕ, zero, suc, ◌+◌, ◌-◌, ◌%◌, ◌^◌, Bool, true, false, not, ◌&&◌, ◌||◌, List, [], ◌∷◌, ◌++◌, ◌==◌,
  ltb, leb, if◌then◌else◌, get_or, set, ℤ, pos, negsuc,
}

-- comms_error_t
pub data CommsError : Type 0 where
  no_error socket bind listen accept connect no_remote_provided failed_to_send : CommsError
  failed_to_create_listener failed_to_create_accepter callback_not_provided max_clients : CommsError
  close_comms disconnect context_not_provided : CommsError

-- `sin_addr.s_addr` and `sin_port` of a `sockaddr_in`; the port in the order of the host.
pub record Addr : Type 0 where
  pub ip : ℕ
  pub port : ℕ

abbrev pub no_addr : Addr
no_addr = record { ip = 0; port = 0 }

-- commh_t. Of the callback only whether there is one.
pub record Commh : Type 0 where
  pub tcp : Bool
  pub server : Bool
  pub clients_socks : List ℤ
  pub client_address : List Addr
  pub client_count : ℕ
  pub local_address : Addr
  pub recvcb : Bool
  pub running : Bool
  pub err_type : CommsError

-- COMMS_MAX_CLIENTS and COMMS_SEND_TO_ALL_CLIENTS
abbrev pub comms_max_clients : ℕ
comms_max_clients = 256

abbrev pub send_to_all_clients : ℕ
send_to_all_clients = 65535

-- A call that a peer notices.
pub data Action : Type 0 where
  shuts closes : ℤ → Action
  sends : ℤ → List ℕ → Action
  sends_to : ℤ → Addr → List ℕ → Action

-- _set_error, without the place in the source.
abbrev pub set_error : Commh → CommsError → Commh
set_error c e = record c { err_type = e }

-- `sock > 0`
abbrev pub is_open : ℤ → Bool
is_open (pos n) = ltb 0 n
is_open (negsuc n) = false

-- The `for` of CommsDisconnect on one array: `n` rounds from `i` on.
unfoldable pub shift_down : {A : Type 0} → A → List A → ℕ → ℕ → List A
shift_down d xs i zero = xs
shift_down d xs i (suc n) = shift_down d (set xs i (get_or xs (suc i) d)) (suc i) n

-- What CommsDisconnect makes of one array: the slot is zeroed, those behind it move down, and the
-- last one is zeroed.
unfoldable pub vacate : {A : Type 0} → A → List A → ℕ → ℕ → List A
unfolding shift_down
vacate d xs cid count = set (shift_down d (set xs cid d) cid (count - 1 - cid)) (count - 1) d

-- CommsDisconnect
unfoldable pub disconnect_client : Commh → ℕ → Bool × Commh × List Action
unfolding vacate
disconnect_client c cid =
    let sock = get_or c.clients_socks cid (pos 0) in
    if not c.tcp || not c.server
    then (false, set_error c disconnect, [])
    else if ltb cid 1 || leb (c.client_count % 2 ^ 16) cid
    then (false, set_error c disconnect, [])
    else if not (is_open sock)
    then (false, set_error c disconnect, [])
    else (
      true,
      record c {
        clients_socks = vacate (pos 0) c.clients_socks cid c.client_count;
        client_address = vacate no_addr c.client_address cid c.client_count;
        client_count = c.client_count - 1;
      },
      shuts sock ∷ closes sock ∷ [],
    )

-- The `for` of CommsClose: `n` rounds from `i` on.
unfoldable pub close_all : ℕ → ℕ → Commh → Commh × List Action
close_all zero i c = (c, [])
close_all (suc n) i c =
    let sock = get_or c.clients_socks i (pos 0) in
    let here = is_open sock in
    let (c', acts) = close_all n (suc i) (
      if here
      then record c {
        clients_socks = set c.clients_socks i (negsuc 0);
        client_address = set c.client_address i no_addr;
      }
      else c) in
    (c', if here then shuts sock ∷ closes sock ∷ acts else acts)

-- CommsClose. The arguments are whether `pthread_join` succeeds on the listener and on the
-- accepter; for a thread that was never created, which C leaves undefined, they are what it happens
-- to return.
unfoldable pub close_all_comms : Bool → Bool → Commh → Bool × Commh × List Action
unfolding close_all
close_all_comms listener_joined accepter_joined c =
    let (c, acts) = close_all c.client_count 0 c in
    let c = record c { running = false } in
    if not listener_joined
    then (false, set_error c close_comms, acts)
    else if c.server && not accepter_joined
    then (false, set_error c close_comms, acts)
    else (true, c, acts)

-- CommsConnect. The argument is whether `connect` succeeds; the index is in bounds if there is
-- room.
unfoldable pub connect_to : Bool → Commh → ℕ → ℕ → Bool × Commh
connect_to connected c ip port =
    if c.server
    then (false, set_error c connect)
    else if c.tcp && not connected
    then (false, set_error c connect)
    else (let i = if c.tcp then c.client_count else 0 in
        let count = if c.tcp then suc c.client_count else c.client_count in
        (
          true,
          record c {
            client_address = set c.client_address i (record { ip = ip; port = port });
            client_count = if count == 0 then 1 else count;
          },
        ))
