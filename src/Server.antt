-- ===== src/Server.antt =====
-- upush_server.c: the registry of clients and the handling of one datagram after another.
--
-- An update through the pointer that `find_client_by_nick` returned goes to the first client of
-- that nick. `network` holds the packets sent.
pub mod Start
pub mod Started
pub mod Requests
pub mod Ascii
pub mod Clients
pub mod Changes
pub mod Registry
pub mod Register
pub mod Lookup
pub mod Buffers
pub mod Safety
pub mod Directory
pub mod Refines
pub mod Main
use upush_chat.Base.{
  ℕ, ◌+◌, Bool, true, false, not, Option, none, some, List, [], ◌∷◌, ◌++◌, Bytes, codes, ◌==◌, ltb,
  leb, if◌then◌else◌, length, get_elem?,
}
use upush_chat.Int.{ℤ, pos, negsuc, ◌-ℤ◌, ltb_ℤ}
use upush_chat.TimeFunctions.{Timeval}
use upush_chat.Strings.{same_string, c_string, decimal}
use upush_chat.Common.{bufsize, parse_message, is_word_number, is_word_valid_nick}
use upush_chat.Network.{SockaddrIn, Net, get_ip_and_port, Packet, Env, send_packet}
use upush_chat.Outcome.{Outcome, ok, quit, fault, ◌>>=◌, ◌>>◌, or_quit, or_fault, entry, sprintf}
use upush_chat.ServerClient.{
  ServerClient, create_client, update_client_ip_address, update_client_port,
  update_client_last_heartbeat, get_seconds_since_last_heartbeat, server_client_has_same_nick,
  find_client_by_nick, dettach_client_from_list, add_server_client_to_list,
}
use upush_chat.Sequence.{find_first, erase_first, update_first}

pub record Server : Type 0 where
  pub client_list : List ServerClient
  pub network : List Packet

-- `strcmp(tmp->ip_address, ip_address) == 0`, and the update that this guards.
unfoldable pub refresh_ip : Env → ServerClient → Bytes → Outcome ServerClient
unfolding update_client_ip_address
refresh_ip env tmp ip_address = do
  old ← or_fault tmp.ip_address
  if same_string old ip_address
      then or_quit (update_client_ip_address env tmp ip_address)
      else ok tmp

-- The branch of `register_client` for a nick that is registered.
unfoldable pub refresh_client : Env → ServerClient → Bytes → ℕ → Outcome ServerClient
unfolding refresh_ip update_client_port update_client_last_heartbeat
refresh_client env tmp ip_address client_port = do
  tmp ← refresh_ip env tmp ip_address
  or_quit (
      update_client_last_heartbeat env
        (if not (tmp.port == client_port) then update_client_port tmp client_port else tmp))

-- The list after the registration.
unfoldable pub record_client :
    Env → Bytes → Bytes → ℕ → List ServerClient → Outcome (List ServerClient)
record_client env nick ip_address client_port clients = elim (find_client_by_nick nick clients) [
  | some tmp ↦ do
    tmp' ← refresh_client env tmp ip_address client_port
    ok (update_first (server_client_has_same_nick nick) (λ _. tmp') clients)
  | none ↦ do
    tmp ← or_quit (create_client env nick ip_address client_port)
    or_quit (add_server_client_to_list env tmp clients)
]

unfoldable pub reply : Env → SockaddrIn → Bytes → Server → Outcome Server
reply env src response server = do
  packets ← or_quit (send_packet env (record { dest = src; payload = response }))
  ok (record server { network = server.network ++ packets })

unfoldable pub register_client : Net → Env → List Bytes → SockaddrIn → Server → Outcome Server
register_client net env parsed src server = do
  nick ← entry parsed 3
  number ← entry parsed 1
  (ip_address, client_port) ← or_quit (get_ip_and_port net src)
  clients ← record_client env nick ip_address client_port server.client_list
  response ← sprintf (codes "ACK " ++ number ++ codes " OK")
  reply env src response (record server { client_list = clients })

abbrev pub not_found : Bytes → Bytes
not_found number = codes "ACK " ++ number ++ codes " NOT FOUND"

abbrev pub found : Bytes → Bytes → Bytes → ℕ → Bytes
found number nick ip port =
    codes "ACK "
    ++ number
    ++ codes " NICK "
    ++ nick
    ++ codes " IP "
    ++ ip
    ++ codes " PORT "
    ++ decimal port

-- The response of `lookup_client`, and the list after it.
unfoldable pub answer_lookup :
    Env → Bytes → Bytes → List ServerClient → Outcome (Bytes × List ServerClient)
answer_lookup env number target_nick clients = elim (find_client_by_nick target_nick clients) [
  | none ↦ do response ← sprintf (not_found number); ok (response, clients)
  | some tmp ↦
      if ltb_ℤ (pos 30) (get_seconds_since_last_heartbeat env tmp)
      then (do
        response ← sprintf (not_found number)
        ok (response, dettach_client_from_list tmp clients))
      else (do
        ip ← or_fault tmp.ip_address
        response ← sprintf (found number tmp.nick ip tmp.port)
        ok (response, clients))
]

unfoldable pub lookup_client : Env → List Bytes → SockaddrIn → Server → Outcome Server
lookup_client env parsed src server = do
  number ← entry parsed 1
  target_nick ← entry parsed 3
  (response, clients) ← answer_lookup env number target_nick server.client_list
  reply env src response (record server { client_list = clients })

-- `parsed[i] != NULL && strcmp(parsed[i], word) != 0`
abbrev pub differs : Option Bytes → Bytes → Bool
differs none word = false
differs (some w) word = not (same_string w word)

-- `is_word_valid_nick(parsed[3])`: behind the test of `no_args` the entry is a word.
abbrev pub valid_nick_entry : Option Bytes → Bool
valid_nick_entry none = false
valid_nick_entry (some w) = is_word_valid_nick w

-- The tests that `is_reg_message` and `is_lookup_message` make, for the command `cmd`. The number
-- of arguments is the length of the list. The result `none` is undefined behaviour.
unfoldable pub is_command : Bytes → List Bytes → Option Bool
is_command cmd parsed =
    if not (length parsed == 4)
    then some false
    else if differs (get_elem? parsed 0) (codes "PKT")
    then some false
    else elim (is_word_number (get_elem? parsed 1)) [
      | none ↦ none
      | some number ↦
          if not number
          then some false
          else if differs (get_elem? parsed 2) cmd
          then some false
          else if not (valid_nick_entry (get_elem? parsed 3))
          then some false
          else some true
    ]

unfoldable pub is_reg_message : List Bytes → Option Bool
is_reg_message = is_command (codes "REG")

unfoldable pub is_lookup_message : List Bytes → Option Bool
is_lookup_message = is_command (codes "LOOKUP")

-- The body of the main loop on the words of a message.
unfoldable pub dispatch : Net → Env → SockaddrIn → List Bytes → Server → Outcome Server
dispatch net env src parsed server = do
  reg ← or_fault (is_reg_message parsed)
  if reg then register_client net env parsed src server else do
    look ← or_fault (is_lookup_message parsed)
    if look then lookup_client env parsed src server else ok server

-- `*inc_buf == '\n'`. Of an empty datagram nothing is received, and either way it is skipped.
abbrev pub starts_with_newline : Bytes → Bool
starts_with_newline [] = true
starts_with_newline (c ∷ _) = c == b'\n'

pub data Event : Type 0 where
  select_fails : Event
  recvfrom_fails : Event
  datagram : SockaddrIn → Bytes → Event

-- One round of the main loop. A datagram that fills the buffer leaves no room for the null byte
-- behind it.
unfoldable pub round : Net → Env → Event → Server → Outcome Server
round net env select_fails server = quit
round net env recvfrom_fails server = quit
round net env (datagram src bytes) server =
    if starts_with_newline bytes
    then ok server
    else if leb bufsize (length bytes)
    then fault
    else dispatch net env src (parse_message (c_string bytes) 4) server

-- The main loop over the events of a run.
unfoldable pub serve : Net → List (Env × Event) → Server → Outcome Server
serve net [] server = ok server
serve net ((env, event) ∷ es) server = do s ← round net env event server; serve net es s
