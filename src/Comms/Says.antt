-- ===== src/Comms/Says.antt =====
-- What the program says after a call has failed, and what it prints of the clients.
use data_commoms.Base.{
  ℕ, zero, suc, ◌+◌, ◌-◌, ◌≤◌, ◌<◌, ◌≡◌, refl, ap, ◌∙◌, Bool, true, false, not, ◌&&◌, ◌||◌, Option,
  none, some, List, [], ◌∷◌, ◌++◌, arith, length, length-append, take, drop, ltb, ◌==◌, get_or, ◌⊎◌,
  inl, inr, pos, if◌then◌else◌,
}
use data_commoms.Text.{Bytes}
use data_commoms.Text.Search.{is_some}
use data_commoms.Comms.{
  disconnect, Addr, no_addr, Commh, Action, disconnect_client, send_to_all_clients,
  comms_max_clients,
}
use data_commoms.Comms.Send.{
  SendOpt, is_negative, send_all, send_one, send_tcp, send_udp, send, given,
}
use data_commoms.Comms.Table.{IsServer, view}
use data_commoms.Comms.Deliver.{drop-cons, take-drop_one}
use data_commoms.Comms.Log.{
  CommsVerb, debug, info, warn, error, fatal, none_verb, ident, msg_size, ident_size, comms_log,
  exits, aborts, error_name, print_error, comms_exit, client_line, client_lines, print_clients,
  lines_before, rule, error_message,
}

length-take_le : {A : Type 0} (n : ℕ) (xs : List A) → length (take n xs) ≤ n
length-take_le zero xs = omega arith
length-take_le (suc n) [] = omega arith
length-take_le (suc n) (x ∷ xs) = let ih = length-take_le n xs in omega arith

length-ident : (v : CommsVerb) → length (ident v) ≤ 24
unfolding ident
length-ident debug = omega arith
length-ident info = omega arith
length-ident warn = omega arith
length-ident error = omega arith
length-ident fatal = omega arith
length-ident none_verb = omega arith

-- What CommsLog puts together fits into its buffer with the NUL behind it, whatever the message,
-- the verbosity and the stream.
pub log_fits :
    (verbosity verb : CommsVerb) (has_stream : Bool) (fmt : Bytes)
    → length (comms_log verbosity verb has_stream fmt) < ident_size
unfolding comms_log
log_fits verbosity verb has_stream fmt =
    let short = length-take_le (msg_size - 1) fmt in
    let start = length-ident verb in
    let all = length-append (ident verb) (take (msg_size - 1) fmt) in ground arith

-- The error of a CommsDisconnect that fails is none that CommsPrintError knows.
disconnect_client-error :
    (c : Commh) (cid : ℕ)
    → ((disconnect_client c cid).0 ≡ true) ⊎ ((disconnect_client c cid).1.err_type ≡ disconnect)
unfolding disconnect_client
disconnect_client-error c cid = ground arith

-- After a CommsDisconnect that fails, CommsPrintError and CommsExit abort the program, whatever the
-- verbosity and the stream: their `switch` has no case for its error.
pub disconnect_error_aborts :
    (c c' : Commh) (cid : ℕ) (acts : List Action) (verbosity : CommsVerb) (has_stream : Bool)
    (place : Bytes)
    → disconnect_client c cid ≡ (false, c', acts)
    → (print_error verbosity has_stream place c' ≡ aborts)
      × (comms_exit verbosity place c' ≡ aborts)
unfolding print_error comms_exit error_name
disconnect_error_aborts c c' cid acts verbosity has_stream place fails =
    let e : c'.err_type ≡ disconnect =
      let d = rw fails at (disconnect_client-error c cid) in
      elim d [ inl done ↦ cc | inr left ↦ left ] in
    (rw (print_error, e) refl, rw (comms_exit, print_error, e) refl)

-- A call that fails leaves an error that CommsPrintError knows.
abbrev Known : Bool × Commh × List Action → Type 0
Known (ok, c, acts) = (ok || is_some (error_name c.err_type)) ≡ true

abbrev AllKnown : Option (Bool × Commh × List Action) → Type 0
AllKnown none = Unit
AllKnown (some r) = Known r

if-both : {A : Type 0} (P : A → Type 0) (b : Bool) {x y : A} → P x → P y → P (if b then x else y)
if-both P true p q = p
if-both P false p q = q

send_all-Known :
    (sent : ℕ → Bool) (msg : List ℕ) (n i : ℕ) (c : Commh) → Known (send_all sent msg n i c)
unfolding send_all error_name
send_all-Known sent msg zero i c = refl
send_all-Known sent msg (suc n) i c =
    if-both Known (sent i) (send_all-Known sent msg n (suc i) c) refl

send_one-Known :
    (sent : ℕ → Bool) (msg : List ℕ) (i : ℕ) (c : Commh) → Known (send_one sent msg i c)
unfolding send_one error_name
send_one-Known sent msg i c =
    if-both Known (is_negative (get_or c.clients_socks i (pos 0))) refl
      (if-both Known (sent i) refl refl)

send_tcp-Known :
    (sent : ℕ → Bool) (msg : List ℕ) (cid : ℕ) (c : Commh) → AllKnown (send_tcp sent msg cid c)
unfolding send_tcp error_name
send_tcp-Known sent msg cid c =
    if-both AllKnown c.server
      (if-both AllKnown (ltb cid 1) refl (
        if-both AllKnown (cid == send_to_all_clients)
          (send_all-Known sent msg (c.client_count - 1) 1 c)
          (if-both AllKnown (ltb cid comms_max_clients) (send_one-Known sent msg cid c) tt)))
      (if-both AllKnown (cid == send_to_all_clients) refl (send_one-Known sent msg 0 c))

send_udp-Known :
    (sent : Bool) (msg : List ℕ) (o : SendOpt) (c : Commh) → Known (send_udp sent msg o c)
unfolding send_udp error_name
send_udp-Known sent msg o c =
    if-both Known ((o.port == 0 || not (given o.ip)) && c.client_count == 0) refl
      (if-both Known sent refl refl)

send-Known :
    (sent : ℕ → Bool) (msg : List ℕ) (o : SendOpt) (c : Commh) → AllKnown (send sent msg o c)
unfolding send
send-Known sent msg o c =
    if-both AllKnown c.tcp (send_tcp-Known sent msg o.cid c) (send_udp-Known (sent 0) msg o c)

-- After a CommsSend that fails, CommsExit prints and ends the program, and does not abort.
pub send_error_exits :
    (c c' : Commh) (sent : ℕ → Bool) (msg : List ℕ) (o : SendOpt) (acts : List Action)
    (verbosity : CommsVerb) (place : Bytes)
    → send sent msg o c ≡ some (false, c', acts)
    → (s : Bytes) × (comms_exit verbosity place c' ≡ exits s)
unfolding comms_exit print_error
send_error_exits c c' sent msg o acts verbosity place fails =
    go (error_name c'.err_type) (rw fails at (send-Known sent msg o c)) refl
  where
    go :
        (name : Option Bytes)
        → is_some name ≡ true
        → error_name c'.err_type ≡ name
        → (s : Bytes) × (comms_exit verbosity place c' ≡ exits s)
    go none h e = cc
    go (some n) h e = (
      comms_log verbosity error true (error_message place n),
      rw (comms_exit, print_error, e) refl,
    )

-- The lines of a list of clients, numbered from `i` on.
abbrev pub numbered : (ℕ → Bytes) → ℕ → List Addr → Bytes
numbered ip_text i [] = []
numbered ip_text i (a ∷ rest) = client_line ip_text i a ++ numbered ip_text (suc i) rest

client_lines-numbered :
    (ip_text : ℕ → Bytes) (n i : ℕ) (addrs : List Addr)
    → i + n ≤ length addrs
    → client_lines ip_text n i addrs ≡ numbered ip_text i (take n (drop i addrs))
unfolding client_lines
client_lines-numbered ip_text zero i addrs h = refl
client_lines-numbered ip_text (suc n) i addrs h = rw (drop-cons no_addr i addrs (omega arith)) (
    ap (λ s. client_line ip_text i (get_or addrs i no_addr) ++ s)
      (client_lines-numbered ip_text n (suc i) addrs (omega arith)))

-- CommsPrintClients on a server with a valid table prints each client once, in order, numbered from
-- 1 as CommsSend and CommsDisconnect number them, between what it prints for any table.
pub print_clients_lists :
    (verbosity : CommsVerb) (ip_text : ℕ → Bytes) (c : Commh)
    → IsServer c
    → print_clients verbosity ip_text c
      ≡ lines_before verbosity ip_text c ++ (numbered ip_text 1 (view c).addrs ++ rule)
unfolding print_clients
print_clients_lists verbosity ip_text c v =
    let same =
      client_lines-numbered ip_text (c.client_count - 1) 1 c.client_address
        (omega (arith, v.count_fits, v.addrs_cap, v.counts_itself))
      ∙ ap (numbered ip_text 1) (take-drop_one c.client_count c.client_address) in
    ap (λ s. lines_before verbosity ip_text c ++ (s ++ rule)) same
