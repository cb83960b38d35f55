-- ===== src/Comms/Lifecycle.antt =====
-- How a server starts and how a connection is closed.
use data_commoms.Base.{
  ◌≡◌, refl, ap, ◌∙◌, Bool, true, false, not, ◌&&◌, ◌||◌, List, [], ◌∷◌, if◌then◌else◌, arith,
  get_or, set, drop, length, ℤ, pos, Bool-cases, inl, inr, length-set, get_or-set_self, sym,
}
use data_commoms.Comms.{Commh, Action, shuts, closes, is_open, comms_max_clients}
use data_commoms.Comms.Slots.{in_use, drop-set}
use data_commoms.Comms.Table.{IsServer, all_open, none_open}
use data_commoms.Comms.Init.{
  CommsOpt, Calls, Init, gives, aborts, tcpserver_init, with_sock, local_addr,
}
use data_commoms.Comms.Send.{is_negative}

-- A context before it is started: two arrays of the size that the program has, and no socket in
-- the slots for clients.
pub record IsFresh (c : Commh) : Type 0 where
  pub socks_cap : length c.clients_socks ≡ comms_max_clients
  pub addrs_cap : length c.client_address ≡ comms_max_clients
  pub rest_closed : none_open (drop 1 c.clients_socks) ≡ true

-- The server is up: it listens on the new socket at its address, with no client, and it goes on if
-- it has a callback.
pub record IsUp (o : CommsOpt) (k : Calls) (c : Commh) : Type 0 where
  pub listens : get_or c.clients_socks 0 (pos 0) ≡ k.socket
  pub at_address : c.local_address ≡ local_addr o
  pub no_client : c.client_count ≡ 1
  pub goes_on : c.running ≡ o.recvcb
  pub calls_back : c.recvcb ≡ o.recvcb
  pub valid : IsServer c

-- If the calls that the start needs succeed, the server is up, with no call to shut or close a
-- socket; if not, the result is false, or TODO aborts.
pub Starts : CommsOpt → Calls → Bool → Init → Type 0
Starts o k true (gives b c acts) = (b ≡ true) × (acts ≡ []) × IsUp o k c
Starts o k false (gives b c acts) = b ≡ false
Starts o k b aborts = b ≡ false

started : CommsOpt → Bool → Calls → Commh → Commh
started o r k c = record (with_sock (record c { local_address = local_addr o }) k.socket) {
  recvcb = r;
  client_count = 1;
  running = r;
  tcp = true;
  server = true;
}

started-view : (c : Commh) (s : ℤ) → in_use 1 (set c.clients_socks 0 s) ≡ []
started-view c s = go c.clients_socks
  where
    go : (xs : List ℤ) → in_use 1 (set xs 0 s) ≡ []
    go [] = refl
    go (x ∷ xs) = refl

started-IsServer :
    (o : CommsOpt) (r : Bool) (k : Calls) (c : Commh) → IsFresh c → IsServer (started o r k c)
unfolding started
started-IsServer o r k c f = record {
  is_tcp = refl;
  is_server = refl;
  socks_cap = length-set c.clients_socks 0 k.socket ∙ f.socks_cap;
  addrs_cap = f.addrs_cap;
  counts_itself = omega arith;
  count_fits = omega arith;
  clients_open = ap all_open (started-view c k.socket);
  rest_closed = ap none_open (drop-set 0 1 c.clients_socks k.socket (omega arith)) ∙ f.rest_closed;
}

started-IsUp :
    (o : CommsOpt) (r : Bool) (k : Calls) (c : Commh)
    → IsFresh c
    → o.recvcb ≡ r
    → IsUp o k (started o r k c)
unfolding started
started-IsUp o r k c f e = record {
  listens = get_or-set_self c.clients_socks 0 k.socket (pos 0) (omega (arith, f.socks_cap));
  at_address = refl;
  no_client = refl;
  goes_on = sym e;
  calls_back = sym e;
  valid = started-IsServer o r k c f;
}

-- On a context whose slots for clients hold no socket, comms_tcpserver_init__opt brings the server
-- up exactly if it is not for IPv6 and the calls succeed: `socket`, `bind`, `listen`, and with a
-- callback the creation of both threads.
pub tcpserver_init-Starts :
    (o : CommsOpt) (k : Calls) (c : Commh)
    → IsFresh c
    → Starts o k
        (not o.ipv6
          && not (is_negative k.socket)
          && k.bind_ok
          && k.listen_ok
          && (not o.recvcb || (k.listener_ok && k.accepter_ok)))
        (tcpserver_init o k c)
unfolding tcpserver_init Starts started
tcpserver_init-Starts o k c f = elim (Bool-cases o.ipv6) [
  | inl a ↦ simp a refl
  | inr a ↦ elim (Bool-cases (is_negative k.socket)) [
    | inl n ↦ simp (a, n) refl
    | inr n ↦ elim (Bool-cases k.bind_ok) [
      | inr b ↦ simp (a, n, b) refl
      | inl b ↦ elim (Bool-cases k.listen_ok) [
        | inr l ↦ simp (a, n, b, l) refl
        | inl l ↦ elim (Bool-cases o.recvcb) [
          | inr r ↦ simp (a, n, b, l, r) (refl, refl, started-IsUp o false k c f r)
          | inl r ↦ elim (Bool-cases k.listener_ok) [
            | inr t ↦ simp (a, n, b, l, r, t) refl
            | inl t ↦ elim (Bool-cases k.accepter_ok) [
              | inr u ↦ simp (a, n, b, l, r, t, u) refl
              | inl u ↦ simp (a, n, b, l, r, t, u) (refl, refl, started-IsUp o true k c f r)
            ]
          ]
        ]
      ]
    ]
  ]
]

-- The calls on a list of sockets: each open one is shut and closed.
abbrev pub closing : List ℤ → List Action
closing [] = []
closing (s ∷ ss) = if is_open s then shuts s ∷ closes s ∷ closing ss else closing ss
