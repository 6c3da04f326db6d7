-- ===== src/Server/Directory.antt =====
-- What the server promises, with the registry as a directory: for each nick the client of that
-- nick, in no order.
use upush_chat.Base.{
  ℕ, Option, none, some, List, [], ◌∷◌, ◌++◌, Bytes, codes, leb, if◌then◌else◌, length,
}
use upush_chat.Int.{pos, ltb_ℤ}
use upush_chat.Strings.{same_string, c_string}
use upush_chat.Common.{bufsize, parse_message}
use upush_chat.Network.{SockaddrIn, Net, get_ip_and_port, Packet, Env, send_packet}
use upush_chat.Outcome.{Outcome, ok, quit, fault, ◌>>=◌, or_quit, or_fault, entry, sprintf}
use upush_chat.ServerClient.{ServerClient, create_client, get_seconds_since_last_heartbeat}
use upush_chat.Server.{
  refresh_client, not_found, found, is_reg_message, is_lookup_message, starts_with_newline, Event,
  select_fails, recvfrom_fails, datagram,
}

abbrev pub Clients : Type 0
Clients = Bytes → Option ServerClient

pub record Directory : Type 0 where
  pub clients : Clients
  pub network : List Packet

-- The directory in which the nick has this client, or none.
abbrev pub put : Bytes → Option ServerClient → Clients → Clients
put nick c clients j = if same_string nick j then c else clients j

-- Who registers is new, or is refreshed under the old nick.
unfoldable pub enter : Env → (nick ip : Bytes) → ℕ → Clients → Outcome Clients
enter env nick ip port clients = elim (clients nick) [
  | some c ↦ do c' ← refresh_client env c ip port; ok (put nick (some c') clients)
  | none ↦ do
    c ← or_quit (create_client env nick ip port)
    if env.node_block then ok (put nick (some c) clients) else quit
]

-- Who has been silent for more than 30 seconds is taken out when it is asked for.
unfoldable pub answer : Env → (number nick : Bytes) → Clients → Outcome (Bytes × Clients)
answer env number nick clients = elim (clients nick) [
  | none ↦ do response ← sprintf (not_found number); ok (response, clients)
  | some c ↦
      if ltb_ℤ (pos 30) (get_seconds_since_last_heartbeat env c)
      then (do response ← sprintf (not_found number); ok (response, put nick none clients))
      else (do
        ip ← or_fault c.ip_address
        response ← sprintf (found number c.nick ip c.port)
        ok (response, clients))
]

unfoldable pub respond : Env → SockaddrIn → Bytes → Directory → Outcome Directory
respond env src response d = do
  packets ← or_quit (send_packet env (record { dest = src; payload = response }))
  ok (record d { network = d.network ++ packets })

-- What a command does to the directory, and whom it answers.
unfoldable pub obey : Net → Env → SockaddrIn → List Bytes → Directory → Outcome Directory
unfolding enter answer respond
obey net env src words d = do
  reg ← or_fault (is_reg_message words)
  if reg
      then (do
        nick ← entry words 3
        number ← entry words 1
        (ip, port) ← or_quit (get_ip_and_port net src)
        clients ← enter env nick ip port d.clients
        response ← sprintf (codes "ACK " ++ number ++ codes " OK")
        respond env src response (record d { clients = clients }))
      else (do
        look_up ← or_fault (is_lookup_message words)
        if look_up
            then (do
              number ← entry words 1
              nick ← entry words 3
              (response, clients) ← answer env number nick d.clients
              respond env src response (record d { clients = clients }))
            else ok d)

unfoldable pub step : Net → Env → Event → Directory → Outcome Directory
unfolding obey
step net env select_fails d = quit
step net env recvfrom_fails d = quit
step net env (datagram src bytes) d =
    if starts_with_newline bytes
    then ok d
    else if leb bufsize (length bytes)
    then fault
    else obey net env src (parse_message (c_string bytes) 4) d

unfoldable pub steps : Net → List (Env × Event) → Directory → Outcome Directory
unfolding step
steps net [] d = ok d
steps net ((env, event) ∷ es) d = do d' ← step net env event d; steps net es d'
