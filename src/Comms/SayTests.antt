-- ===== src/Comms/SayTests.antt =====
-- What is said and sent on concrete inputs.
use data_commoms.Base.{
  ℕ, ◌<◌, ◌≡◌, refl, arith, true, false, none, some, [], ◌∷◌, ◌++◌, length, pos, if◌then◌else◌,
}
use data_commoms.Text.{Bytes, text, streq}
use data_commoms.Text.Decimal.{dec}
use data_commoms.Comms.{
  Commh, sends, sends_to, set_error, disconnect, failed_to_send, disconnect_client,
}
use data_commoms.Comms.Samples.{filled, fresh, all_well, peer, pair, pair-IsServer}
use data_commoms.Comms.Send.{SendOpt, send}
use data_commoms.Comms.Init.{udp_init}
use data_commoms.Comms.Table.{view}
use data_commoms.Comms.Deliver.{spread}
use data_commoms.Comms.Log.{
  debug, warn, error, fatal, ident, ident_size, comms_log, aborts, exits, print_error, comms_exit,
  print_clients, error_message, lines_before, rule,
}
use data_commoms.Comms.Says.{
  log_fits, disconnect_error_aborts, send_error_exits, numbered, print_clients_lists,
}
use data_commoms.Comms.Demo.{
  udp, tcpserver, kind_of, start_kind, connect_kind, local_host, server_port, demo_msg, demo_turn,
  after_key, dies,
}
use data_commoms.Comms.DemoSends.{server_turn_sends, udp_turn_sends}

-- Addresses that are not looked at.
abbrev ip_text : ℕ → Bytes
ip_text ip = text "10.0.0." ++ dec ip

-- Errors pass the filter that stands at warnings, and not the one at fatal errors.
log_filter :
    (comms_log warn error true (text "x") ≡ 27 ∷ (text "[31m[ERROR]" ++ 27 ∷ text "[0m:x"))
    × (comms_log fatal error true (text "x") ≡ [])
    × (comms_log warn error false (text "x") ≡ [])
unfolding comms_log ident
log_filter = (refl, refl, refl)

log_fits_run : length (comms_log debug warn true (text "No clients connected")) < ident_size
log_fits_run = log_fits debug warn true (text "No clients connected")

-- There is no client 5.
disconnect_error_aborts_example :
    (print_error warn true (text "f:1") (set_error pair disconnect) ≡ aborts)
    × (comms_exit warn (text "f:1") (set_error pair disconnect) ≡ aborts)
unfolding disconnect_client
disconnect_error_aborts_example =
    disconnect_error_aborts pair (set_error pair disconnect) 5 [] warn true (text "f:1") refl

abbrev to_first : SendOpt
to_first = record { ip = none; port = 0; cid = 1 }

send_error_exits_run :
    (s : Bytes) × (comms_exit warn (text "f:1") (set_error pair failed_to_send) ≡ exits s)
unfolding send
send_error_exits_run =
    send_error_exits pair (set_error pair failed_to_send) (λ i. false) (4 ∷ []) to_first
      (sends (pos 7) (4 ∷ []) ∷ []) warn (text "f:1") refl

print_clients_lists_run :
    print_clients warn ip_text pair
    ≡ lines_before warn ip_text pair ++ (numbered ip_text 1 (peer 1 ∷ []) ++ rule)
print_clients_lists_run = print_clients_lists warn ip_text pair pair-IsServer

kinds :
    (kind_of (text "comms" ∷ text "udp" ∷ []) ≡ some udp)
    × (kind_of (text "comms" ∷ text "tcp" ∷ []) ≡ none)
    × (kind_of (text "comms" ∷ []) ≡ none)
unfolding kind_of streq
kinds = (refl, refl, refl)

server_turn_sends_example :
    let (ok, acts) = spread (λ i. true) demo_msg 1 (view pair).socks in
    demo_turn ip_text (text "f:1") tcpserver (λ i. true) 10 pair ≡ (
      if ok
      then after_key ip_text 10 pair acts
      else dies
          (exits (comms_log debug error true (error_message (text "f:1") (text "FAILED_TO_SEND"))))
          acts)
server_turn_sends_example =
    server_turn_sends ip_text (text "f:1") (λ i. true) 10 pair pair-IsServer (omega arith)

abbrev udp_up : Commh
udp_up = record fresh {
  clients_socks = pos 3 ∷ filled 255 (pos 0);
  local_address = record { ip = 0; port = 5001 };
  recvcb = true;
  running = true;
}

udp_turn_sends_example :
    demo_turn ip_text [] udp (λ i. true) 101 (connect_kind udp 0 udp_up)
    ≡ after_key ip_text 101
        (connect_kind udp 0 udp_up)
        (sends_to (pos 3) (record { ip = local_host; port = server_port }) demo_msg ∷ [])
unfolding start_kind udp_init
udp_turn_sends_example =
    udp_turn_sends ip_text [] (λ i. true) 101 0 all_well fresh udp_up [] (omega arith) refl refl
