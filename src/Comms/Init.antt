-- ===== src/Comms/Init.antt =====
-- comms_udp_init__opt, comms_tcpserver_init__opt and comms_tcpclient_init__opt of
-- include/eth_comms.h.
use data_commoms.Base.{
  ℕ, Bool, true, false, not, ◌&&◌, Option, none, some, List, [], ◌==◌, if◌then◌else◌, set, ℤ,
  negsuc,
}
use data_commoms.Comms.{
  Commh, Addr, Action, set_error, socket, bind, listen, failed_to_create_listener,
  failed_to_create_accepter, close_all_comms,
}
use data_commoms.Comms.Send.{is_negative}

-- comms_opt_t; `local_ip` is what `inet_addr` makes of the string, or `none` for a null pointer.
pub record CommsOpt : Type 0 where
  pub ipv6 : Bool
  pub local_ip : Option ℕ
  pub local_port : ℕ
  pub recvcb : Bool

-- What the system calls return: the new socket, and whether each of the others succeeds.
pub record Calls : Type 0 where
  pub socket : ℤ
  pub bind_ok : Bool
  pub listen_ok : Bool
  pub listener_ok : Bool
  pub accepter_ok : Bool
  pub listener_joined : Bool
  pub accepter_joined : Bool

-- The result, the context and the calls on sockets; or the `abort` of TODO.
pub data Init : Type 0 where
  gives : Bool → Commh → List Action → Init
  aborts : Init

-- COMMS_DEF_LISTEN_PORT, and COMMS_DEF_LISTEN_IP as `inet_addr` reads it.
abbrev pub def_listen_port : ℕ
def_listen_port = 5000

abbrev pub def_listen_ip : ℕ
def_listen_ip = 0

abbrev pub local_addr : CommsOpt → Addr
local_addr o = record {
  ip = elim o.local_ip [ none ↦ def_listen_ip | some ip ↦ ip ];
  port = if o.local_port == 0 then def_listen_port else o.local_port;
}

-- `clients_socks[0] = sock`
abbrev pub with_sock : Commh → ℤ → Commh
with_sock c sock = record c { clients_socks = set c.clients_socks 0 sock }

-- CommsClose on the way out of a failed start.
abbrev pub gives_up : Calls → Commh → Init
gives_up k c =
    let (ok, c', acts) = close_all_comms k.listener_joined k.accepter_joined c in
    gives false c' acts

-- comms_udp_init__opt. With `ipv6` it goes on with the local address that is there.
unfoldable pub udp_init : CommsOpt → Calls → Commh → Init
udp_init o k c =
    let c = record c { local_address = if o.ipv6 then c.local_address else local_addr o } in
    let up = record (with_sock c k.socket) {
      recvcb = o.recvcb;
      client_count = 0;
      running = o.recvcb;
      tcp = false;
      server = false;
    } in
    if is_negative k.socket
    then gives false (set_error c socket) []
    else if not k.bind_ok
    then gives false (set_error (with_sock c (negsuc 0)) bind) []
    else if o.recvcb && not k.listener_ok
    then gives false (record (set_error up failed_to_create_listener) { running = false }) []
    else gives true up []

-- comms_tcpserver_init__opt
unfoldable pub tcpserver_init : CommsOpt → Calls → Commh → Init
tcpserver_init o k c =
    let c = record c { local_address = local_addr o } in
    let up = record (with_sock c k.socket) {
      recvcb = o.recvcb;
      client_count = 1;
      running = o.recvcb;
      tcp = true;
      server = true;
    } in
    if o.ipv6
    then aborts
    else if is_negative k.socket
    then gives false (set_error c socket) []
    else if not k.bind_ok
    then gives_up k (set_error (with_sock c (negsuc 0)) bind)
    else if not k.listen_ok
    then gives_up k (set_error (with_sock c k.socket) listen)
    else if o.recvcb && not k.listener_ok
    then gives false (record (set_error up failed_to_create_listener) { running = false }) []
    else if o.recvcb && not k.accepter_ok
    then gives false (record (set_error up failed_to_create_accepter) { running = false }) []
    else gives true up []

-- comms_tcpclient_init__opt
unfoldable pub tcpclient_init : CommsOpt → Calls → Commh → Init
tcpclient_init o k c =
    let c = record c { local_address = local_addr o } in
    let up = record (with_sock c k.socket) {
      recvcb = o.recvcb;
      client_count = 0;
      running = o.recvcb;
      tcp = true;
      server = false;
    } in
    if o.ipv6
    then aborts
    else if is_negative k.socket
    then gives false (set_error c socket) []
    else if not k.bind_ok
    then gives_up k (set_error (with_sock c (negsuc 0)) bind)
    else if o.recvcb && not k.listener_ok
    then gives false (record (set_error up failed_to_create_listener) { running = false }) []
    else gives true up []
