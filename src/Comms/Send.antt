-- ===== src/Comms/Send.antt =====
-- comms_send__opt of include/eth_comms.h.
use data_commoms.Base.{
  ℕ, zero, suc, ◌-◌, Bool, true, false, not, ◌&&◌, ◌||◌, Option, none, some, List, [], ◌∷◌, ◌==◌,
  ltb, if◌then◌else◌, get_or, set, ℤ, pos, negsuc,
}
use data_commoms.Comms.{
  Commh, Addr, no_addr, Action, sends, sends_to, set_error, failed_to_send, no_remote_provided,
  comms_max_clients, send_to_all_clients,
}

-- comms_send_opt_t; a null pointer is `none`, and the address is what `inet_addr` makes of `ip`.
pub record SendOpt : Type 0 where
  pub ip : Option ℕ
  pub port : ℕ
  pub cid : ℕ

-- `sock < 0`
abbrev pub is_negative : ℤ → Bool
is_negative (pos n) = false
is_negative (negsuc n) = true

-- The `for` over all clients: `n` turns from `i` on. `sent i` is whether `send` on the socket in
-- slot `i` returns a positive number.
unfoldable pub send_all : (ℕ → Bool) → List ℕ → ℕ → ℕ → Commh → Bool × Commh × List Action
send_all sent msg zero i c = (true, c, [])
send_all sent msg (suc n) i c =
    let sock = get_or c.clients_socks i (pos 0) in
    let (ok, c', acts) = send_all sent msg n (suc i) c in
    if sent i
    then (ok, c', sends sock msg ∷ acts)
    else (false, set_error c failed_to_send, sends sock msg ∷ [])

-- The `send` at the end of the TCP branch, on the socket in slot `i`.
unfoldable pub send_one : (ℕ → Bool) → List ℕ → ℕ → Commh → Bool × Commh × List Action
send_one sent msg i c =
    let sock = get_or c.clients_socks i (pos 0) in
    if is_negative sock
    then (false, set_error c no_remote_provided, [])
    else if sent i
    then (true, c, sends sock msg ∷ [])
    else (false, set_error c failed_to_send, sends sock msg ∷ [])

-- The TCP branch. `none`: the array of sockets is read out of bounds.
unfoldable pub send_tcp : (ℕ → Bool) → List ℕ → ℕ → Commh → Option (Bool × Commh × List Action)
unfolding send_all send_one
send_tcp sent msg cid c =
    if c.server
    then (if ltb cid 1
        then some (false, set_error c failed_to_send, [])
        else if cid == send_to_all_clients
        then some (send_all sent msg (c.client_count - 1) 1 c)
        else if ltb cid comms_max_clients
        then some (send_one sent msg cid c)
        else none)
    else if cid == send_to_all_clients
    then some (false, set_error c failed_to_send, [])
    else some (send_one sent msg 0 c)

-- A given address, or the one that is there.
abbrev or_ip : Option ℕ → ℕ → ℕ
or_ip none d = d
or_ip (some ip) d = ip

abbrev pub given : {A : Type 0} → Option A → Bool
given none = false
given (some x) = true

-- The changes of the remote address in the UDP branch.
unfoldable pub udp_remote : SendOpt → ℕ → Addr → Addr
udp_remote o count a =
    if not (o.port == 0) && ltb 0 count
    then record a { port = o.port }
    else if given o.ip && ltb 0 count
    then record a { ip = or_ip o.ip a.ip }
    else if count == 0
    then record { ip = or_ip o.ip a.ip; port = o.port }
    else a

-- The UDP branch; `sent`: `sendto` returns a positive number.
unfoldable pub send_udp : Bool → List ℕ → SendOpt → Commh → Bool × Commh × List Action
unfolding udp_remote
send_udp sent msg o c =
    let remote = udp_remote o c.client_count (get_or c.client_address 0 no_addr) in
    let c' = record c { client_address = set c.client_address 0 remote } in
    let acts = sends_to (get_or c.clients_socks 0 (pos 0)) remote msg ∷ [] in
    if (o.port == 0 || not (given o.ip)) && c.client_count == 0
    then (false, set_error c no_remote_provided, [])
    else if sent
    then (true, c', acts)
    else (false, set_error c' failed_to_send, acts)

-- comms_send__opt
unfoldable pub send : (ℕ → Bool) → List ℕ → SendOpt → Commh → Option (Bool × Commh × List Action)
unfolding send_tcp send_udp
send sent msg o c = if c.tcp then send_tcp sent msg o.cid c else some (send_udp (sent 0) msg o c)
