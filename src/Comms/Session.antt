-- ===== src/Comms/Session.antt =====
-- The listener on a TCP client, round after round of its `while`.
use data_commoms.Base.{◌≡◌, refl, Bool, true, false, ◌&&◌, List, [], ◌∷◌, ◌++◌, get_or, pos}
use data_commoms.Comms.{Commh, disconnect, set_error, is_open, disconnect_client}
use data_commoms.Comms.Threads.{
  Received, received, closed, would_block, interrupted, failed, Event, server_recv, client_round,
}
use data_commoms.Comms.Round.{goes_on_with, message}

-- A TCP client: its only socket, which is open, is in slot 0.
pub record IsClient (c : Commh) : Type 0 where
  pub is_tcp : c.tcp ≡ true
  pub no_server : c.server ≡ false
  pub is_up : is_open (get_or c.clients_socks 0 (pos 0)) ≡ true

-- The `while` on a TCP client, with what `recv` returns in each round.
unfoldable pub client_rounds : List Received → Commh → Commh × List Event
unfolding client_round
client_rounds [] c = (c, [])
client_rounds (r ∷ rs) c =
    let (c', evs) = client_round r c in let (c'', more) = client_rounds rs c' in (c'', evs ++ more)

-- The connection stayed up in each round.
abbrev pub stayed_up : List Received → Bool
stayed_up [] = true
stayed_up (r ∷ rs) = goes_on_with r && stayed_up rs

-- The messages, with the address of the server.
abbrev pub heard : Commh → List Received → List Event
heard c [] = []
heard c (r ∷ rs) = message c 0 r ++ heard c rs

-- The context when the connection stayed up, or did not.
abbrev pub after : Bool → Commh → Commh
after true c = c
after false c = set_error c disconnect

message-after : (b : Bool) (c : Commh) (r : Received) → message (after b c) 0 r ≡ message c 0 r
message-after true c r = refl
message-after false c (received msg) = refl
message-after false c closed = refl
message-after false c would_block = refl
message-after false c interrupted = refl
message-after false c failed = refl

heard-after : (b : Bool) (c : Commh) (rs : List Received) → heard (after b c) rs ≡ heard c rs
heard-after b c [] = refl
heard-after b c (r ∷ rs) = rw (message-after b c r, heard-after b c rs) refl

after-IsClient : (b : Bool) (c : Commh) → IsClient c → IsClient (after b c)
after-IsClient true c v = v
after-IsClient false c v = record { is_tcp = v.is_tcp; no_server = v.no_server; is_up = v.is_up }

after-after : (a b : Bool) (c : Commh) → after a (after b c) ≡ after (b && a) c
after-after a true c = refl
after-after true false c = refl
after-after false false c = refl

-- CommsDisconnect is for servers.
disconnect_client-fails :
    (c : Commh) → IsClient c → disconnect_client c 0 ≡ (false, set_error c disconnect, [])
unfolding disconnect_client
disconnect_client-fails c v = rw (v.is_tcp, v.no_server) refl

client_round_lem :
    (c : Commh) (r : Received)
    → IsClient c
    → client_round r c ≡ (after (goes_on_with r) c, message c 0 r)
unfolding client_round server_recv
client_round_lem c (received msg) v = rw v.is_up refl
client_round_lem c closed v = rw (v.is_up, disconnect_client-fails c v) refl
client_round_lem c would_block v = rw v.is_up refl
client_round_lem c interrupted v = rw v.is_up refl
client_round_lem c failed v = rw (v.is_up, disconnect_client-fails c v) refl

-- Over any rounds, the listener of a TCP client hands each message to the callback once, in order,
-- with the address of the server. A connection that is closed or breaks stays in use, with no call
-- on its socket: only the error of CommsDisconnect is left, and the rounds behind it go on.
pub client_rounds_lem :
    (c : Commh) (rs : List Received)
    → IsClient c
    → client_rounds rs c ≡ (after (stayed_up rs) c, heard c rs)
unfolding client_rounds
client_rounds_lem c [] v = refl
client_rounds_lem c (r ∷ rs) v =
    let b = goes_on_with r in
    rw
      (
        client_round_lem c r v,
        client_rounds_lem (after b c) rs (after-IsClient b c v),
        after-after (stayed_up rs) b c,
        heard-after b c rs,
      )
      refl
