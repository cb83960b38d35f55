-- ===== src/Comms/Tests.antt =====
-- A server on concrete inputs.
use data_commoms.Base.{ℕ, ◌≡◌, refl, arith, true, none, some, List, [], ◌∷◌, pos}
use data_commoms.Comms.{
  Commh, shuts, closes, sends, sends_to, send_to_all_clients, shift_down, vacate, disconnect_client,
  no_addr, set_error, disconnect,
}
use data_commoms.Comms.Send.{SendOpt, send, send_udp, udp_remote}
use data_commoms.Comms.Samples.{
  filled, fresh, fresh-IsFresh, options, all_well, listening, listening-IsServer, peer, pair,
  pair-IsServer,
}
use data_commoms.Comms.Init.{gives, tcpserver_init}
use data_commoms.Comms.Threads.{
  received, closed, delivers, acts, accept_round, server_round, server_turns, server_turn,
  server_recv,
}
use data_commoms.Comms.Table.{
  IsServer, view, Section, accepts, turn, run_section, run_sections, spec_sections,
}
use data_commoms.Comms.Round.{round_delivers}
use data_commoms.Comms.Session.{client_rounds, client_rounds_lem}
use data_commoms.Comms.Refine.{sections_refine}
use data_commoms.Comms.Deliver.{send_to_client, send_to_all, send_absent}
use data_commoms.Comms.Lifecycle.{Starts, tcpserver_init-Starts}

started_up : tcpserver_init options all_well fresh ≡ gives true listening []
unfolding tcpserver_init
started_up = refl

abbrev two_come : List Section
two_come = accepts (pos 7) (peer 1) ∷ accepts (pos 8) (peer 2) ∷ []

-- The server with two clients.
abbrev crowd : Commh
crowd = (run_sections two_come listening).1

two_are_there : (view crowd).socks ≡ pos 7 ∷ pos 8 ∷ []
unfolding run_sections run_section accept_round
two_are_there = refl

-- The first leaves, and the second is client 1 from then on.
abbrev a_day : List Section
a_day =
    accepts (pos 7) (peer 1)
    ∷ accepts (pos 8) (peer 2)
    ∷ turn 0 closed
    ∷ turn 0 (received (5 ∷ []))
    ∷ []

a_day_run :
    (run_sections a_day listening).0
    ≡ (true, [])
      ∷ (true, [])
      ∷ (true, acts (shuts (pos 7)) ∷ acts (closes (pos 7)) ∷ [])
      ∷ (true, delivers (5 ∷ []) (peer 2) 1 ∷ [])
      ∷ []
unfolding run_sections run_section accept_round server_turn server_recv disconnect_client vacate
    shift_down
a_day_run = refl

-- In one round of the listener the client behind one that leaves is passed over.
passed_over :
    (server_round (λ i. closed) crowd).1 ≡ acts (shuts (pos 7)) ∷ acts (closes (pos 7)) ∷ []
unfolding server_round server_turns server_turn server_recv disconnect_client vacate shift_down
    run_sections run_section accept_round
passed_over = refl

udp_changes_port :
    (send_udp true
      (1 ∷ [])
      (record { ip = some 9; port = 70; cid = 0 })
      (record fresh { client_count = 1 })).2
    ≡ sends_to (pos 0) (record { ip = 0; port = 70 }) (1 ∷ []) ∷ []
unfolding send_udp udp_remote
udp_changes_port = refl

sections_refine_example :
    ((run_sections a_day listening).0 ≡ (spec_sections a_day (view listening)).0)
    × (view (run_sections a_day listening).1 ≡ (spec_sections a_day (view listening)).1)
    × IsServer (run_sections a_day listening).1
sections_refine_example = sections_refine a_day listening listening-IsServer refl

abbrev to_cid : ℕ → SendOpt
to_cid n = record { ip = none; port = 0; cid = n }

send_to_client_example :
    send (λ i. true) (4 ∷ []) (to_cid 1) pair ≡ some (true, pair, sends (pos 7) (4 ∷ []) ∷ [])
send_to_client_example =
    send_to_client pair (λ i. true) (4 ∷ []) (to_cid 1) 0 pair-IsServer refl (omega arith)

send_to_all_example :
    send (λ i. true) (4 ∷ []) (to_cid send_to_all_clients) pair
    ≡ some (true, pair, sends (pos 7) (4 ∷ []) ∷ [])
send_to_all_example =
    send_to_all pair (λ i. true) (4 ∷ []) (to_cid send_to_all_clients) pair-IsServer refl

send_absent_run :
    send (λ i. true) (4 ∷ []) (to_cid 9) pair ≡ some (true, pair, sends (pos 0) (4 ∷ []) ∷ [])
send_absent_run =
    send_absent pair (λ i. true) (4 ∷ []) (to_cid 9) 8 pair-IsServer refl (omega arith)
      (omega arith) refl

tcpserver_init-Starts_example : Starts options all_well true (tcpserver_init options all_well fresh)
tcpserver_init-Starts_example = tcpserver_init-Starts options all_well fresh fresh-IsFresh

round_delivers_example :
    server_round (λ k. received (5 ∷ [])) pair ≡ (pair, delivers (5 ∷ []) (peer 1) 1 ∷ [])
round_delivers_example =
    round_delivers pair (λ k. received (5 ∷ [])) pair-IsServer (omega arith) (λ k. refl)

-- A TCP client whose connection is closed in the second round.
abbrev client : Commh
client = record fresh {
  tcp = true;
  clients_socks = pos 3 ∷ filled 255 (pos 0);
  client_address = peer 9 ∷ filled 255 no_addr;
  recvcb = true;
}

client_rounds_lem_example :
    client_rounds (received (5 ∷ []) ∷ closed ∷ []) client
    ≡ (set_error client disconnect, delivers (5 ∷ []) (peer 9) 0 ∷ [])
client_rounds_lem_example =
    client_rounds_lem client (received (5 ∷ []) ∷ closed ∷ [])
      (record { is_tcp = refl; no_server = refl; is_up = refl })
