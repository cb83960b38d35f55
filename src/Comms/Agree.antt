-- ===== src/Comms/Agree.antt =====
-- What the accepter and CommsDisconnect do to the table, against the list of clients.
use data_commoms.Base.{
  ℕ, zero, suc, ◌-◌, ◌%◌, ◌^◌, ◌≤◌, ◌<◌, ◌≡◌, refl, sym, ap, ◌∙◌, Bool, true, false, not, ◌||◌,
  List, [], ◌∷◌, ◌++◌, arith, length, get_or, take, drop, ltb, leb, ℤ, pos, inl, inr, Bool-cases,
  length-set, length-take, length-drop,
}
use data_commoms.Comms.{
  Commh, Addr, no_addr, CommsError, set_error, max_clients, is_open, comms_max_clients, disconnect,
  disconnect_client,
}
use data_commoms.Comms.Slots.{
  remove, in_use, in_use-vacate, in_use-set_end, length-vacate, drop-set, drop-vacate,
}
use data_commoms.Comms.Threads.{accept_round, Event}
use data_commoms.Comms.Table.{
  Clients, view, all_open, none_open, IsServer, accepts, disconnects, run_section, admit, leave,
}

pub open_get :
    (i : ℕ) (xs : List ℤ)
    → i < length xs
    → all_open xs ≡ true
    → is_open (get_or xs i (pos 0)) ≡ true
open_get i [] h o = absurd (omega arith)
open_get zero (x ∷ xs) h o = ground arith
open_get (suc i) (x ∷ xs) h o = open_get i xs (omega arith) (ground arith)

all_open-append :
    (xs : List ℤ) (v : ℤ) → all_open xs ≡ true → is_open v ≡ true → all_open (xs ++ v ∷ []) ≡ true
all_open-append [] v o h = ground arith
all_open-append (x ∷ xs) v o h = let rest = all_open-append xs v (ground arith) h in ground arith

all_open-remove : (i : ℕ) (xs : List ℤ) → all_open xs ≡ true → all_open (remove i xs) ≡ true
unfolding remove
all_open-remove i [] o = refl
all_open-remove zero (x ∷ xs) o = ground arith
all_open-remove (suc i) (x ∷ xs) o = let rest = all_open-remove i xs (ground arith) in ground arith

none_open-suc :
    (n : ℕ) (xs : List ℤ) → none_open (drop n xs) ≡ true → none_open (drop (suc n) xs) ≡ true
none_open-suc n [] o = refl
none_open-suc zero (x ∷ xs) o = ground arith
none_open-suc (suc n) (x ∷ xs) o = none_open-suc n xs o

pub closed_get :
    (n j : ℕ) (xs : List ℤ)
    → n ≤ j
    → none_open (drop n xs) ≡ true
    → is_open (get_or xs j (pos 0)) ≡ false
closed_get n j [] h o = ground arith
closed_get (suc n) zero (x ∷ xs) h o = absurd (omega arith)
closed_get (suc n) (suc j) (x ∷ xs) h o = closed_get n j xs (omega arith) o
closed_get zero zero (x ∷ xs) h o = ground arith
closed_get zero (suc j) (x ∷ xs) h o = closed_get zero j xs (omega arith) (ground arith)

pub get_or-in_use :
    {A : Type 0} (d : A) (i count : ℕ) (xs : List A)
    → suc i < count
    → count ≤ length xs
    → get_or (in_use count xs) i d ≡ get_or xs (suc i) d
get_or-in_use d i zero xs h le = absurd (omega arith)
get_or-in_use d i (suc m) [] h le = absurd (omega arith)
get_or-in_use {A} d i (suc m) (x ∷ xs) h le = go i m xs (omega arith)
  where
    go : (i m : ℕ) (xs : List A) → i < m → get_or (take m xs) i d ≡ get_or xs i d
    go i zero xs h = absurd (omega arith)
    go i (suc m) [] h = refl
    go zero (suc m) (x ∷ xs) h = refl
    go (suc i) (suc m) (x ∷ xs) h = go i m xs (omega arith)

length-in_use :
    {A : Type 0} (count : ℕ) (xs : List A)
    → count ≤ length xs
    → length (in_use count xs) ≡ count - 1
length-in_use count xs h = length-drop 1 (take count xs) ∙ ap (λ t. t - 1) (length-take count xs h)

-- What a section does to the context, against what the specification does to the clients.
abbrev pub Agrees : Bool × Commh × List Event → Bool × Clients × List Event → Type 0
Agrees (b, c, evs) (b', t, evs') = (b ≡ b') × (evs ≡ evs') × (view c ≡ t) × IsServer c

error-IsServer : {c : Commh} (e : CommsError) → IsServer c → IsServer (set_error c e)
error-IsServer e v = record {
  is_tcp = v.is_tcp;
  is_server = v.is_server;
  socks_cap = v.socks_cap;
  addrs_cap = v.addrs_cap;
  counts_itself = v.counts_itself;
  count_fits = v.count_fits;
  clients_open = v.clients_open;
  rest_closed = v.rest_closed;
}

pub clients_count : {c : Commh} → IsServer c → length (view c).socks ≡ c.client_count - 1
clients_count {c} v =
    length-in_use c.client_count c.clients_socks (omega (arith, v.socks_cap, v.count_fits))

guard : {c : Commh} → IsServer c → (not c.tcp || not c.server) ≡ false
guard v = ground (arith, v.is_tcp, v.is_server)

pub accept-Agrees :
    (c : Commh) (cs : ℤ) (cli : Addr)
    → IsServer c
    → is_open cs ≡ true
    → Agrees (run_section (accepts cs cli) c) (admit cs cli (view c))
unfolding run_section accept_round admit
accept-Agrees c cs cli v o = elim (Bool-cases (leb comms_max_clients c.client_count)) [
  | inl e ↦
      let full : ltb (length (view c).socks) 255 ≡ false = ground (arith, clients_count v) in
      rw (e, full, o) (refl, refl, refl, error-IsServer max_clients v)
  | inr e ↦
      let room : ltb (length (view c).socks) 255 ≡ true =
        ground (arith, clients_count v, v.counts_itself) in
      let fits : c.client_count < comms_max_clients = ground arith in
      let socks =
        in_use-set_end c.client_count c.clients_socks cs v.counts_itself
          (omega (arith, v.socks_cap)) in
      let addrs =
        in_use-set_end c.client_count c.client_address cli v.counts_itself
          (omega (arith, v.addrs_cap)) in
      rw (e, room)
        (
          refl,
          refl,
          (rw (socks, addrs) refl),
          record {
            is_tcp = v.is_tcp;
            is_server = v.is_server;
            socks_cap = length-set c.clients_socks c.client_count cs ∙ v.socks_cap;
            addrs_cap = length-set c.client_address c.client_count cli ∙ v.addrs_cap;
            counts_itself = omega arith;
            count_fits = fits;
            clients_open = ap all_open socks ∙ all_open-append (view c).socks cs v.clients_open o;
            rest_closed =
                ap none_open
                  (drop-set c.client_count (suc c.client_count) c.clients_socks cs (omega arith))
                ∙ none_open-suc c.client_count c.clients_socks v.rest_closed;
          },
        )
]

pub disconnect-Agrees :
    (c : Commh) (cid : ℕ)
    → IsServer c
    → Agrees (run_section (disconnects cid) c) (leave cid (view c))
unfolding run_section disconnect_client leave
disconnect-Agrees c zero v = rw (guard v) (refl, refl, refl, error-IsServer disconnect v)
disconnect-Agrees c (suc i) v =
    elim (Bool-cases (ltb (suc i) 1 || leb (c.client_count % 2 ^ 16) (suc i))) [
      | inl e ↦
          let out : ltb i (length (view c).socks) ≡ false =
            ground (arith, clients_count v, v.count_fits) in
          rw (guard v, e, out) (refl, refl, refl, error-IsServer disconnect v)
      | inr e ↦
          let inside : suc i < c.client_count = ground (arith, v.count_fits) in
          let there : ltb i (length (view c).socks) ≡ true = ground (arith, clients_count v) in
          let socks_le : c.client_count ≤ length c.clients_socks =
            omega (arith, v.count_fits, v.socks_cap) in
          let addrs_le : c.client_count ≤ length c.client_address =
            omega (arith, v.count_fits, v.addrs_cap) in
          let same = get_or-in_use (pos 0) i c.client_count c.clients_socks inside socks_le in
          let open_now =
            sym (ap is_open same) ∙ open_get i (view c).socks (ground arith) v.clients_open in
          let socks = in_use-vacate (pos 0) i c.client_count c.clients_socks inside socks_le in
          let addrs = in_use-vacate no_addr i c.client_count c.client_address inside addrs_le in
          rw (guard v, e, there, open_now)
            (
              refl,
              (rw same refl),
              (rw (socks, addrs) refl),
              record {
                is_tcp = v.is_tcp;
                is_server = v.is_server;
                socks_cap =
                    length-vacate (pos 0) c.clients_socks (suc i) c.client_count ∙ v.socks_cap;
                addrs_cap =
                    length-vacate no_addr c.client_address (suc i) c.client_count ∙ v.addrs_cap;
                counts_itself = omega arith;
                count_fits = omega (arith, v.count_fits);
                clients_open = ap all_open socks ∙ all_open-remove i (view c).socks v.clients_open;
                rest_closed =
                    ap none_open
                      (drop-vacate (pos 0) (suc i) c.client_count c.clients_socks inside socks_le)
                    ∙ v.rest_closed;
              },
            )
    ]
