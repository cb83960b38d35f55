-- ===== src/Comms/DemoSends.antt =====
-- Whom the message of src/comms_main.c reaches.
use data_commoms.Base.{
  ℕ, suc, ◌<◌, ◌≡◌, refl, Bool, true, false, ◌&&◌, none, some, List, [], ◌∷◌, arith, ltb, ◌==◌,
  get_or, set, get_or-set_self, length, Bool-cases, inl, inr, pos, if◌then◌else◌,
}
use data_commoms.Text.{Bytes, text}
use data_commoms.Comms.{
  Commh, Addr, no_addr, Action, sends_to, send_to_all_clients, set_error, connect, connect_to,
}
use data_commoms.Comms.Table.{IsServer, view}
use data_commoms.Comms.Send.{SendOpt, send, send_udp, udp_remote}
use data_commoms.Comms.Deliver.{spread, send_to_all}
use data_commoms.Comms.Init.{CommsOpt, Calls, gives, udp_init}
use data_commoms.Comms.Log.{
  exits, debug, error, comms_log, error_message, error_name, print_error, comms_exit,
}
use data_commoms.Comms.Demo.{
  udp, tcpserver, start_kind, connect_kind, local_host, server_port, demo_msg, options, send_opt,
  send_turn, dies, after_key, demo_turn,
}

-- In a turn of the program as a server with a valid table and a client, the message goes out to
-- each client once, in order, up to and with the first that does not take it. If all took it, the
-- program goes on as the key says, with the table as it is; if not, CommsExit prints the place and
-- the name COMMS_ERROR_FAILED_TO_SEND as CommsLog writes an error, and exits.
pub server_turn_sends :
    (ip_text : ℕ → Bytes) (place : Bytes) (sent : ℕ → Bool) (key : ℕ) (c : Commh)
    → IsServer c
    → 1 < c.client_count
    → let (ok, acts) = spread sent demo_msg 1 (view c).socks in
      demo_turn ip_text place tcpserver sent key c ≡ (
        if ok
        then after_key ip_text key c acts
        else dies
            (exits (comms_log debug error true (error_message place (text "FAILED_TO_SEND"))))
            acts)
unfolding demo_turn send_turn comms_exit print_error error_name
server_turn_sends ip_text place sent key c v some_client =
    let to_all : SendOpt = record { ip = none; port = 0; cid = send_to_all_clients } in
    let sent_all = send_to_all c sent demo_msg to_all v refl in
    let any : ltb 1 c.client_count ≡ true = ground arith in
    elim (Bool-cases (spread sent demo_msg 1 (view c).socks).0) [
      | inl e ↦ rw (demo_turn, send_turn, any, sent_all, e) refl
      | inr e ↦ rw (demo_turn, send_turn, any, sent_all, e, comms_exit, print_error) refl
    ]

-- A start of UDP that succeeds.
record UdpUp (c c' : Commh) : Type 0 where
  no_tcp : c'.tcp ≡ false
  no_server : c'.server ≡ false
  no_client : c'.client_count ≡ 0
  same_addrs : c'.client_address ≡ c.client_address

udp_init-UdpUp :
    (o : CommsOpt) (k : Calls) (c c' : Commh) (acts : List Action)
    → udp_init o k c ≡ gives true c' acts
    → UdpUp c c'
unfolding udp_init
udp_init-UdpUp o k c c' acts h = ground arith

abbrev remote : Addr
remote = record { ip = local_host; port = server_port }

abbrev on_remote : Commh → Commh
on_remote c = record c { client_address = set c.client_address 0 remote; client_count = 1 }

connected :
    (n : ℕ) (c : Commh)
    → c.tcp ≡ false
    → c.server ≡ false
    → c.client_count ≡ 0
    → connect_kind udp n c ≡ on_remote c
unfolding connect_kind connect_to
connected n c no_tcp no_server no_client =
    let result : Bool → Bool → ℕ → Bool × Commh = λ server tcp count.
      (if server
        then (false, set_error c connect)
        else if tcp && false
        then (false, set_error c connect)
        else (let slot = if tcp then count else 0 in
            let more = if tcp then suc count else count in
            (
              true,
              record c {
                client_address = set c.client_address slot remote;
                client_count = if more == 0 then 1 else more;
              },
            ))) in
    λ i. (result (no_server i) (no_tcp i) (no_client i)).1

set_twice : {A : Type 0} (xs : List A) (a : A) → set (set xs 0 a) 0 a ≡ set xs 0 a
set_twice [] a = refl
set_twice (x ∷ xs) a = refl

send_to_remote :
    (sent : ℕ → Bool) (c : Commh)
    → c.tcp ≡ false
    → sent 0 ≡ true
    → 0 < length c.client_address
    → send sent demo_msg (send_opt 0) (on_remote c)
      ≡ some (true, on_remote c, sends_to (get_or c.clients_socks 0 (pos 0)) remote demo_msg ∷ [])
unfolding send send_udp udp_remote
send_to_remote sent c no_tcp taken room =
    let same = get_or-set_self c.client_address 0 remote no_addr room in
    let kept = set_twice c.client_address remote in simp (no_tcp, same, taken, kept) refl

-- The program as UDP, after a start on which all calls succeed, connects to port 5002 of 127.0.0.1,
-- and each turn sends the message there; if `sendto` takes it, the program goes on as the key says,
-- with the context as it is.
pub udp_turn_sends :
    (ip_text : ℕ → Bytes) (place : Bytes) (sent : ℕ → Bool) (key n : ℕ) (k : Calls) (c c' : Commh)
    (acts : List Action)
    → 0 < length c.client_address
    → start_kind udp k c ≡ gives true c' acts
    → sent 0 ≡ true
    → let on = connect_kind udp n c' in
      demo_turn ip_text place udp sent key on
      ≡ after_key ip_text key on (
          sends_to
            (get_or c'.clients_socks 0 (pos 0))
            (record { ip = local_host; port = server_port })
            demo_msg
          ∷ [])
unfolding demo_turn send_turn start_kind
udp_turn_sends ip_text place sent key n k c c' acts room started taken =
    let up = udp_init-UdpUp (options 5001) k c c' acts started in
    let here = connected n c' up.no_tcp up.no_server up.no_client in
    let room' : 0 < length c'.client_address = rw (up.same_addrs) room in
    let goes = send_to_remote sent c' up.no_tcp taken room' in
    rw (here, demo_turn, send_turn, goes) refl
