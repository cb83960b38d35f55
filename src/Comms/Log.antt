-- ===== src/Comms/Log.antt =====
-- The messages of include/eth_comms.h: CommsLog and its settings, CommsPrintError, CommsExit and
-- CommsPrintClients. A stream is what has been written to it.
use data_commoms.Base.{
  ℕ, zero, suc, ◌-◌, Bool, true, false, ◌||◌, not, Option, none, some, List, [], ◌∷◌, ◌++◌, take,
  ltb, ◌==◌, get_or, if◌then◌else◌,
}
use data_commoms.Text.{Bytes, text}
use data_commoms.Text.Decimal.{dec}
use data_commoms.Comms.{
  CommsError, no_error, socket, bind, listen, accept, connect, no_remote_provided, failed_to_send,
  failed_to_create_listener, failed_to_create_accepter, callback_not_provided, max_clients,
  close_comms, disconnect, context_not_provided, Addr, no_addr, Commh,
}

-- comms_verb_e, and its numbers.
pub data CommsVerb : Type 0 where
  debug info warn error fatal none_verb : CommsVerb

abbrev pub verb_number : CommsVerb → ℕ
verb_number debug = 0
verb_number info = 1
verb_number warn = 2
verb_number error = 3
verb_number fatal = 4
verb_number none_verb = 5

-- `\x1b[` with a code behind it.
abbrev escape : Bytes → Bytes
escape code = 27 ∷ b'[' ∷ code

abbrev coloured : Bytes → Bytes → Bytes
coloured colour name = escape colour ++ (name ++ (escape (text "0m") ++ b':' ∷ []))

-- The `switch` of CommsLog.
unfoldable pub ident : CommsVerb → Bytes
ident debug = escape (text "2m") ++ coloured (text "90m") (text "[DEBUG]")
ident info = coloured (text "32m") (text "[INFO]")
ident warn = coloured (text "33m") (text "[WARN]")
ident error = coloured (text "31m") (text "[ERROR]")
ident fatal = coloured (text "35m") (text "[FATAL]")
ident none_verb = coloured (text "34m") (text "[NONE]")

-- sizeof msg, and sizeof ident.
abbrev pub msg_size : ℕ
msg_size = 128

abbrev pub ident_size : ℕ
ident_size = 256

-- The static `verbosity`, and whether the stream of the context is not a null pointer.
pub record LogSettings : Type 0 where
  pub verbosity : CommsVerb
  pub has_stream : Bool

-- CommsLogSetVerbosity
abbrev pub log_set_verbosity : CommsVerb → LogSettings → LogSettings
log_set_verbosity v s = record s { verbosity = v }

-- CommsLogSetStream; the argument is whether it gets a stream.
abbrev pub log_set_stream : Bool → LogSettings → LogSettings
log_set_stream given s = record s { has_stream = given }

-- CommsLogSetOff
abbrev pub log_set_off : LogSettings → LogSettings
log_set_off s = record s { has_stream = false }

-- CommsLog on a message that is formatted: what it writes. `verbosity` is the static variable, and
-- `has_stream` whether the stream is not a null pointer.
unfoldable pub comms_log : CommsVerb → CommsVerb → Bool → Bytes → Bytes
unfolding ident
comms_log verbosity verb has_stream fmt =
    if ltb (verb_number verb) (verb_number verbosity) || not has_stream
    then []
    else ident verb ++ take (msg_size - 1) fmt

-- What CommsPrintError and CommsExit do: a text; `abort` in UNREACHABLE; or a text and `exit(-1)`.
pub data Said : Type 0 where
  writes exits : Bytes → Said
  aborts : Said

-- `place` is the text that _set_error keeps: the function and the line.
abbrev pub error_message : Bytes → Bytes → Bytes
error_message place name = b'(' ∷ (place ++ (text ")-> COMMS_ERROR_" ++ (name ++ b'\n' ∷ [])))

-- The `switch` of CommsPrintError: the end of the name of the error; `none` in the default case.
unfoldable pub error_name : CommsError → Option Bytes
error_name no_error = some (text "NOERROR")
error_name socket = some (text "SOCKET")
error_name bind = some (text "BIND")
error_name listen = some (text "LISTEN")
error_name accept = some (text "ACCEPT")
error_name connect = some (text "CONNECT")
error_name no_remote_provided = some (text "NO_REMOTE_PROVIDED")
error_name failed_to_send = some (text "FAILED_TO_SEND")
error_name failed_to_create_listener = some (text "FAILED_TO_CREATE_LISTENER")
error_name callback_not_provided = some (text "CALLBACK_NOT_PROVIDED")
error_name close_comms = some (text "CLOSE_COMMS")
error_name max_clients = some (text "MAX_CLIENTS")
error_name failed_to_create_accepter = none
error_name disconnect = none
error_name context_not_provided = none

-- CommsPrintError
unfoldable pub print_error : CommsVerb → Bool → Bytes → Commh → Said
unfolding error_name comms_log
print_error verbosity has_stream place c = elim (error_name c.err_type) [
  | none ↦ aborts
  | some name ↦ writes (comms_log verbosity error has_stream (error_message place name))
]

-- CommsExit writes to stderr.
unfoldable pub comms_exit : CommsVerb → Bytes → Commh → Said
unfolding print_error
comms_exit verbosity place c = elim (print_error verbosity true place c) [
  | writes s ↦ exits s
  | exits s ↦ exits s
  | aborts ↦ aborts
]

abbrev pub rule : Bytes
rule = text "---------------------------------" ++ b'\n' ∷ []

-- What inet_ntop makes of an address, and the port.
abbrev pub addr_text : (ℕ → Bytes) → Addr → Bytes
addr_text ip_text a = ip_text a.ip ++ b':' ∷ (dec a.port ++ b'\n' ∷ [])

abbrev pub client_line : (ℕ → Bytes) → ℕ → Addr → Bytes
client_line ip_text i a = text "> Client (" ++ (dec i ++ (text ") : " ++ addr_text ip_text a))

-- The `for` over the clients, `n` turns from `i` on.
unfoldable pub client_lines : (ℕ → Bytes) → ℕ → ℕ → List Addr → Bytes
client_lines ip_text zero i addrs = []
client_lines ip_text (suc n) i addrs =
    client_line ip_text i (get_or addrs i no_addr) ++ client_lines ip_text n (suc i) addrs

abbrev pub table_head : Commh → Bytes
table_head c =
    text "--------Connected clients ("
    ++ ((if c.tcp then text "TCP" else text "UDP")
        ++ b' ' ∷ ((if c.server then text "server" else []) ++ (text ")--------" ++ b'\n' ∷ [])))

-- What stands before the lines of the clients.
abbrev pub lines_before : CommsVerb → (ℕ → Bytes) → Commh → Bytes
lines_before verbosity ip_text c =
    rule
    ++ ((text "> LOCAL: " ++ addr_text ip_text (get_or c.client_address 0 no_addr))
        ++ (table_head c
            ++ (if c.client_count == 1
                then comms_log verbosity warn true (text "No clients connected" ++ b'\n' ∷ [])
                else [])))

-- CommsPrintClients on a stream that is open.
unfoldable pub print_clients : CommsVerb → (ℕ → Bytes) → Commh → Bytes
unfolding client_lines
print_clients verbosity ip_text c =
    lines_before verbosity ip_text c
    ++ (client_lines ip_text (c.client_count - 1) 1 c.client_address ++ rule)
