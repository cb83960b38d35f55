-- ===== src/Comms/Deliver.antt =====
-- Which clients a message of a TCP server goes to.
use data_commoms.Base.{
  ℕ, zero, suc, ◌+◌, ◌-◌, ◌≤◌, ◌<◌, ◌≡◌, refl, ap, ◌∙◌, sym, Bool, true, false, some, List, [], ◌∷◌,
  ◌==◌, ltb, if◌then◌else◌, arith, get_or, drop, take, length, ℤ, pos, negsuc, Bool-cases, inl, inr,
}
use data_commoms.Comms.{
  Commh, Action, sends, set_error, failed_to_send, is_open, send_to_all_clients, comms_max_clients,
}
use data_commoms.Comms.Slots.{in_use}
use data_commoms.Comms.Table.{IsServer, view}
use data_commoms.Comms.Agree.{get_or-in_use, open_get, clients_count}
use data_commoms.Comms.Send.{SendOpt, is_negative, send_all, send_one, send_tcp, send}

open-not_negative : (s : ℤ) → is_open s ≡ true → is_negative s ≡ false
open-not_negative (pos n) o = refl
open-not_negative (negsuc n) o = ground arith

-- A message to a client that is there goes out on the socket of this client and no other, and the
-- result is whether `send` took it.
pub send_to_client :
    (c : Commh) (sent : ℕ → Bool) (msg : List ℕ) (o : SendOpt) (i : ℕ)
    → IsServer c
    → o.cid ≡ suc i
    → suc i < c.client_count
    → send sent msg o c
      ≡ some (
        sent (suc i),
        if sent (suc i) then c else set_error c failed_to_send,
        sends (get_or (view c).socks i (pos 0)) msg ∷ [],
      )
unfolding send send_tcp send_one
send_to_client c sent msg o i v e h =
    let small : suc i < 256 = omega (arith, v.count_fits) in
    let one : ltb (suc i) 1 ≡ false = ground arith in
    let single : (suc i == send_to_all_clients) ≡ false = ground arith in
    let bound : ltb (suc i) comms_max_clients ≡ true = ground arith in
    let same =
      get_or-in_use (pos 0) i c.client_count c.clients_socks h
        (omega (arith, v.count_fits, v.socks_cap)) in
    let on = open_get i (view c).socks (omega (arith, clients_count v)) v.clients_open in
    let real =
      open-not_negative (get_or c.clients_socks (suc i) (pos 0)) (sym (ap is_open same) ∙ on) in
    simp (v.is_tcp, v.is_server, e, one, single, bound, same, real)
      (elim (Bool-cases (sent (suc i))) [ inl s ↦ simp s refl | inr s ↦ simp s refl ])

-- A message to a list of sockets, from slot `i` on: it goes out to each, in order, up to and with
-- the first that does not take it.
abbrev pub spread : (ℕ → Bool) → List ℕ → ℕ → List ℤ → Bool × List Action
spread sent msg i [] = (true, [])
spread sent msg i (s ∷ ss) =
    let (ok, acts) = spread sent msg (suc i) ss in
    if sent i then (ok, sends s msg ∷ acts) else (false, sends s msg ∷ [])

pub drop-cons :
    {A : Type 0} (d : A) (i : ℕ) (xs : List A)
    → i < length xs
    → drop i xs ≡ get_or xs i d ∷ drop (suc i) xs
drop-cons d i [] h = absurd (omega arith)
drop-cons d zero (x ∷ xs) h = refl
drop-cons d (suc i) (x ∷ xs) h = drop-cons d i xs (omega arith)

send_all-spread :
    (c : Commh) (sent : ℕ → Bool) (msg : List ℕ) (n i : ℕ)
    → i + n ≤ length c.clients_socks
    → send_all sent msg n i c ≡ (
        let (ok, acts) = spread sent msg i (take n (drop i c.clients_socks)) in
        (ok, if ok then c else set_error c failed_to_send, acts))
unfolding send_all
send_all-spread c sent msg zero i h = refl
send_all-spread c sent msg (suc n) i h =
    let ih = send_all-spread c sent msg n (suc i) (omega arith) in
    let next = drop-cons (pos 0) i c.clients_socks (omega arith) in
    elim (Bool-cases (sent i)) [ inl s ↦ simp (next, s, ih) refl | inr s ↦ simp (next, s) refl ]

take-nil : {A : Type 0} (n : ℕ) → take {A = A} n [] ≡ []
take-nil zero = refl
take-nil (suc n) = refl

pub take-drop_one : {A : Type 0} (n : ℕ) (xs : List A) → take (n - 1) (drop 1 xs) ≡ in_use n xs
take-drop_one zero xs = refl
take-drop_one (suc n) [] = take-nil (suc n - 1)
take-drop_one (suc n) (x ∷ xs) = ap (λ t. take t xs) (omega arith)

-- A message to all clients goes out to each of them once, in order, up to and with the first that
-- does not take it, and the result is whether all took it.
pub send_to_all :
    (c : Commh) (sent : ℕ → Bool) (msg : List ℕ) (o : SendOpt)
    → IsServer c
    → o.cid ≡ send_to_all_clients
    → send sent msg o c ≡ (
        let (ok, acts) = spread sent msg 1 (view c).socks in
        some (ok, if ok then c else set_error c failed_to_send, acts))
unfolding send send_tcp
send_to_all c sent msg o v e =
    let all =
      send_all-spread c sent msg (c.client_count - 1) 1
        (omega (arith, v.count_fits, v.socks_cap, v.counts_itself)) in
    simp (v.is_tcp, v.is_server, e, all, take-drop_one c.client_count c.clients_socks) refl

-- A message to an index where there is no client, with a slot that CommsDisconnect has left at 0,
-- is written to descriptor 0: the test `sock < 0` lets it pass.
pub send_absent :
    (c : Commh) (sent : ℕ → Bool) (msg : List ℕ) (o : SendOpt) (i : ℕ)
    → IsServer c
    → o.cid ≡ suc i
    → c.client_count ≤ suc i
    → suc i < comms_max_clients
    → get_or c.clients_socks (suc i) (pos 0) ≡ pos 0
    → send sent msg o c
      ≡ some (
        sent (suc i),
        if sent (suc i) then c else set_error c failed_to_send,
        sends (pos 0) msg ∷ [],
      )
unfolding send send_tcp send_one
send_absent c sent msg o i v e gone h stale =
    let one : ltb (suc i) 1 ≡ false = ground arith in
    let single : (suc i == send_to_all_clients) ≡ false = ground arith in
    let bound : ltb (suc i) comms_max_clients ≡ true = ground arith in
    simp (v.is_tcp, v.is_server, e, one, single, bound, stale)
      (elim (Bool-cases (sent (suc i))) [ inl s ↦ simp s refl | inr s ↦ simp s refl ])
