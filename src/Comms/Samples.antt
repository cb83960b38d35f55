-- ===== src/Comms/Samples.antt =====
-- The servers on which the tests run.
use data_commoms.Base.{ℕ, zero, suc, refl, arith, true, false, none, List, [], ◌∷◌, pos}
use data_commoms.Comms.{Commh, Addr, no_addr, no_error}
use data_commoms.Comms.Init.{CommsOpt, Calls}
use data_commoms.Comms.Table.{IsServer}
use data_commoms.Comms.Lifecycle.{IsFresh}

abbrev pub filled : {A : Type 0} → ℕ → A → List A
filled zero x = []
filled (suc n) x = x ∷ filled n x

abbrev pub fresh : Commh
fresh = record {
  tcp = false;
  server = false;
  clients_socks = filled 256 (pos 0);
  client_address = filled 256 no_addr;
  client_count = 0;
  local_address = no_addr;
  recvcb = false;
  running = false;
  err_type = no_error;
}

pub fresh-IsFresh : IsFresh fresh
fresh-IsFresh = record { socks_cap = refl; addrs_cap = refl; rest_closed = refl }

abbrev pub options : CommsOpt
options = record { ipv6 = false; local_ip = none; local_port = 0; recvcb = true }

abbrev pub all_well : Calls
all_well = record {
  socket = pos 3;
  bind_ok = true;
  listen_ok = true;
  listener_ok = true;
  accepter_ok = true;
  listener_joined = true;
  accepter_joined = true;
}

-- A server that listens on socket 3.
abbrev pub listening : Commh
listening = record fresh {
  tcp = true;
  server = true;
  clients_socks = pos 3 ∷ filled 255 (pos 0);
  client_count = 1;
  local_address = record { ip = 0; port = 5000 };
  recvcb = true;
  running = true;
}

pub listening-IsServer : IsServer listening
listening-IsServer = record {
  is_tcp = refl;
  is_server = refl;
  socks_cap = refl;
  addrs_cap = refl;
  counts_itself = omega arith;
  count_fits = omega arith;
  clients_open = refl;
  rest_closed = refl;
}

abbrev pub peer : ℕ → Addr
peer n = record { ip = n; port = 80 }

-- The server with one client.
abbrev pub pair : Commh
pair = record listening {
  clients_socks = pos 3 ∷ pos 7 ∷ filled 254 (pos 0);
  client_address = no_addr ∷ peer 1 ∷ filled 254 no_addr;
  client_count = 2;
}

pub pair-IsServer : IsServer pair
pair-IsServer = record {
  is_tcp = refl;
  is_server = refl;
  socks_cap = refl;
  addrs_cap = refl;
  counts_itself = omega arith;
  count_fits = omega arith;
  clients_open = refl;
  rest_closed = refl;
}
