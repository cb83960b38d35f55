-- ===== src/Comms/Refine.antt =====
-- Any run of the threads of a server on its table of clients.
use data_commoms.Base.{◌≡◌, refl, true, List, [], ◌∷◌, arith}
use data_commoms.Comms.{Commh}
use data_commoms.Comms.Table.{
  view, IsServer, Section, accepts, disconnects, turn, run_section, spec_section, gives_socket,
  give_sockets, run_sections, spec_sections,
}
use data_commoms.Comms.Agree.{Agrees, accept-Agrees, disconnect-Agrees}
use data_commoms.Comms.Serve.{turn-Agrees}

section-Agrees :
    (c : Commh) (s : Section)
    → IsServer c
    → gives_socket s ≡ true
    → Agrees (run_section s c) (spec_section s (view c))
unfolding spec_section
section-Agrees c (accepts cs cli) v o = accept-Agrees c cs cli v o
section-Agrees c (disconnects cid) v o = disconnect-Agrees c cid v
section-Agrees c (turn i r) v o = turn-Agrees c i r v

-- Whatever the threads of a TCP server and CommsDisconnect do to the table, one critical section
-- after the other in any order, what each returns, delivers and closes is what the list of the
-- clients says, and the table goes on standing for that list; provided that `accept` gives positive
-- sockets, and that the unused slots hold none at the start.
pub sections_refine :
    (ss : List Section) (c : Commh)
    → IsServer c
    → give_sockets ss ≡ true
    → ((run_sections ss c).0 ≡ (spec_sections ss (view c)).0)
      × (view (run_sections ss c).1 ≡ (spec_sections ss (view c)).1)
      × IsServer (run_sections ss c).1
unfolding run_sections spec_sections
sections_refine [] c v o = (refl, refl, v)
sections_refine (s ∷ ss) c v o =
    let (ok, evs, same, v') = section-Agrees c s v (ground arith) in
    let (replies, seen, v'') = sections_refine ss (run_section s c).1 v' (ground arith) in
    (rw (ok, evs, ← same, replies) refl, rw (← same) seen, v'')
