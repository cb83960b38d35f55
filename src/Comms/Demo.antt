-- ===== src/Comms/Demo.antt =====
-- src/comms_main.c: a program that sends one message for each key that is pressed.
use data_commoms.Base.{
  ℕ, zero, suc, Bool, true, false, Option, none, some, List, [], ◌∷◌, ltb, ◌==◌, if◌then◌else◌,
}
use data_commoms.Text.{Bytes, text, streq}
use data_commoms.Comms.{Commh, Action, send_to_all_clients, connect_to}
use data_commoms.Comms.Send.{SendOpt, send}
use data_commoms.Comms.Init.{CommsOpt, Calls, Init, udp_init, tcpserver_init, tcpclient_init}
use data_commoms.Comms.Log.{debug, Said, comms_exit, print_clients}

-- `type`
pub data Kind : Type 0 where
  udp tcpclient tcpserver : Kind

-- The tests on `argc` and `argv[1]`; `none`: the usage is printed, and the result is -1.
unfoldable pub kind_of : List Bytes → Option Kind
kind_of (program ∷ word ∷ []) =
    if streq word (text "udp")
    then some udp
    else if streq word (text "tcpclient")
    then some tcpclient
    else if streq word (text "tcpserver")
    then some tcpserver
    else none
kind_of argv = none

abbrev pub options : ℕ → CommsOpt
options port = record { ipv6 = false; local_ip = none; local_port = port; recvcb = true }

-- The start that `main` calls; its result is not looked at.
unfoldable pub start_kind : Kind → Calls → Commh → Init
start_kind udp k c = udp_init (options 5001) k c
start_kind tcpclient k c = tcpclient_init (options 5001) k c
start_kind tcpserver k c = tcpserver_init (options 5002) k c

-- The port of the server, and `127.0.0.1` as `inet_addr` reads it.
abbrev pub server_port : ℕ
server_port = 5002

abbrev pub local_host : ℕ
local_host = 16777343

-- The `while` around CommsConnect; the argument is the number of attempts that fail.
unfoldable pub connect_until : ℕ → Commh → Commh
connect_until zero c = (connect_to true c local_host server_port).1
connect_until (suc n) c = connect_until n (connect_to false c local_host server_port).1

-- What `main` does to the context before its loop.
unfoldable pub connect_kind : Kind → ℕ → Commh → Commh
unfolding connect_until
connect_kind udp n c = (connect_to true c local_host server_port).1
connect_kind tcpclient n c = connect_until n c
connect_kind tcpserver n c = c

abbrev pub demo_msg : Bytes
demo_msg = text "HOLA DESDE EL ORDENADOR"

abbrev pub send_opt : ℕ → SendOpt
send_opt cid = record { ip = none; port = 0; cid = cid }

-- The CommsSend of a turn, if there is one.
unfoldable pub send_turn : Kind → (ℕ → Bool) → Commh → Option (Bool × Commh × List Action)
send_turn tcpserver sent c =
    if ltb 1 c.client_count
    then send sent demo_msg (send_opt send_to_all_clients) c
    else some (true, c, [])
send_turn kind sent c = send sent demo_msg (send_opt 0) c

-- How a turn of the `while` ends: the next turn, with what is printed; `break`; CommsExit; or a
-- read out of bounds. Each with the calls that the peers notice.
pub data TurnEnd : Type 0 where
  goes_on : Bytes → Commh → List Action → TurnEnd
  breaks : Commh → List Action → TurnEnd
  dies : Said → List Action → TurnEnd
  wild : TurnEnd

-- What getc gives: 101 ends the program, and 99 prints the clients.
abbrev pub after_key : (ℕ → Bytes) → ℕ → Commh → List Action → TurnEnd
after_key ip_text key c acts =
    if key == 101
    then breaks c acts
    else if key == 99
    then goes_on (print_clients debug ip_text c) c acts
    else goes_on [] c acts

-- A turn of the `while`.
unfoldable pub demo_turn : (ℕ → Bytes) → Bytes → Kind → (ℕ → Bool) → ℕ → Commh → TurnEnd
unfolding send_turn
demo_turn ip_text place kind sent key c = elim (send_turn kind sent c) [
  | none ↦ wild
  | some (ok, c', acts) ↦
      if ok then after_key ip_text key c' acts else dies (comms_exit debug place c') acts
]
