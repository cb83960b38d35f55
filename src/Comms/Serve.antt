-- ===== src/Comms/Serve.antt =====
-- What a turn of the listener does to the table, against the list of clients.
use data_commoms.Base.{
  ℕ, suc, ◌<◌, ◌≡◌, refl, sym, ap, ◌∙◌, true, false, [], arith, length, ltb, pos, inl, inr,
  Bool-cases,
}
use data_commoms.Comms.{Commh, no_addr, is_open}
use data_commoms.Comms.Threads.{
  Received, received, closed, would_block, interrupted, failed, server_recv, server_turn,
  drop_client,
}
use data_commoms.Comms.Table.{view, IsServer, turn, run_section, leave, serve}
use data_commoms.Comms.Agree.{
  open_get, closed_get, get_or-in_use, Agrees, clients_count, disconnect-Agrees,
}

drop_client-Agrees :
    (c : Commh) (i : ℕ)
    → IsServer c
    → Agrees
        (true, (drop_client c (suc i)).0, (drop_client c (suc i)).1)
        (let (b, t, evs) = leave (suc i) (view c) in (true, t, evs))
unfolding run_section
drop_client-Agrees c i v =
    let (ok, evs, same, w) = disconnect-Agrees c (suc i) v in (refl, evs, same, w)

-- A turn at a client that is there.
recv-Agrees :
    (c : Commh) (i : ℕ) (r : Received)
    → IsServer c
    → suc i < c.client_count
    → Agrees (true, (server_recv r (suc i) c).0, (server_recv r (suc i) c).1) (serve i r (view c))
unfolding server_recv serve
recv-Agrees c i (received msg) v h =
    let there : ltb i (length (view c).socks) ≡ true = ground (arith, clients_count v) in
    let same =
      get_or-in_use no_addr i c.client_count c.client_address h
        (omega (arith, v.count_fits, v.addrs_cap)) in
    (refl, rw (there, same) (ground arith), refl, v)
recv-Agrees c i closed v h = drop_client-Agrees c i v
recv-Agrees c i would_block v h = (refl, refl, refl, v)
recv-Agrees c i interrupted v h = (refl, refl, refl, v)
recv-Agrees c i failed v h = drop_client-Agrees c i v

-- A turn at a client that has left in the meantime.
gone-Agrees :
    (c : Commh) (i : ℕ) (r : Received)
    → IsServer c
    → ltb i (length (view c).socks) ≡ false
    → Agrees (true, c, []) (serve i r (view c))
unfolding serve leave
gone-Agrees c i (received msg) v h = rw h (refl, ground arith, refl, v)
gone-Agrees c i closed v h = rw h (refl, refl, refl, v)
gone-Agrees c i would_block v h = (refl, refl, refl, v)
gone-Agrees c i interrupted v h = (refl, refl, refl, v)
gone-Agrees c i failed v h = rw h (refl, refl, refl, v)

pub turn-Agrees :
    (c : Commh) (i : ℕ) (r : Received)
    → IsServer c
    → Agrees (run_section (turn i r) c) (serve i r (view c))
unfolding run_section server_turn
turn-Agrees c i r v = elim (Bool-cases (ltb (suc i) c.client_count)) [
  | inl e ↦
      let inside : suc i < c.client_count = ground arith in
      let same =
        get_or-in_use (pos 0) i c.client_count c.clients_socks inside
          (omega (arith, v.count_fits, v.socks_cap)) in
      let on =
        sym (ap is_open same)
        ∙ open_get i (view c).socks (omega (arith, clients_count v)) v.clients_open in
      rw on (recv-Agrees c i r v inside)
  | inr e ↦
      let off = closed_get c.client_count (suc i) c.clients_socks (ground arith) v.rest_closed in
      rw off (gone-Agrees c i r v (ground (arith, clients_count v)))
]
