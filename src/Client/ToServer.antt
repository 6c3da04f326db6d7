-- ===== src/Client/ToServer.antt =====
-- client_to_server_com.c: the heartbeat, and the look-up that waits for its answer.
use upush_chat.Base.{
  ℕ, zero, suc, not, Option, none, some, List, [], ◌∷◌, ◌++◌, Bytes, codes, ltb, leb, if◌then◌else◌,
  length,
}
use upush_chat.Strings.{c_string, contains_string, decimal, atoi}
use upush_chat.Common.{bufsize, parse_message}
use upush_chat.Network.{SockaddrIn, is_same_address, set_values_in_IPv4_addr}
use upush_chat.Outcome.{entry, sprintf, or_fault}
use upush_chat.Client.{
  Wait, select_fails, recvfrom_fails, datagram, Client, Act, pure, ◌>>=◌, ◌>>◌, quit_client,
  undefined, lift, get_net, get_waits, get, modify, send_to, next_message_number_server,
}

unfoldable pub send_reg_msg_to_server : Act (Unit {0})
unfolding send_to next_message_number_server
send_reg_msg_to_server = do
  s ← get
  buf ← lift (
      sprintf
        (codes "PKT " ++ decimal (next_message_number_server s) ++ codes " REG " ++ s.client_nick))
  sent ← send_to s.server_addr buf
  if sent then pure tt else quit_client

-- `strncpy(tmp_nick_buf, contact_nick, 21)`: a nick of 21 bytes or more is left without its
-- terminating null byte, which is `none`.
abbrev pub copied_nick : Bytes → Option Bytes
copied_nick nick = if ltb (length nick) 21 then some nick else none

-- The results 1, with what was written to the buffers, 0 and -1.
pub data LookupResult : Type 0 where
  found_user : Option Bytes → SockaddrIn → LookupResult
  no_user : LookupResult
  no_answer : LookupResult

-- The loop: the first datagram of the server that does not contain "OK". The list of the waits
-- ends when the timer of `select` runs out, which Linux counts down over the calls.
unfoldable pub listen : List Wait → SockaddrIn → Act (Option Bytes)
unfolding is_same_address c_string contains_string
listen [] server = pure none
listen (select_fails ∷ ws) server = quit_client
listen (recvfrom_fails ∷ ws) server = pure none
listen (datagram src bytes ∷ ws) server =
    if leb bufsize (length bytes)
    then undefined
    else if is_same_address (some src) (some server)
    then (if contains_string (c_string bytes) (codes "OK")
        then listen ws server
        else pure (some (c_string bytes)))
    else listen ws server

-- `strstr(inc_buf, "0")` and `strstr(inc_buf, "1")`
abbrev pub note_number : Bytes → Client → Client
note_number inc_buf s =
    if contains_string inc_buf (codes "1")
    then record s { last_ack_received = 1 }
    else if contains_string inc_buf (codes "0")
    then record s { last_ack_received = 0 }
    else s

-- What `send_blocking_lookup_message` makes of the answer.
unfoldable pub read_answer : Bytes → Act LookupResult
unfolding contains_string parse_message atoi set_values_in_IPv4_addr
read_answer inc_buf = do
  modify (note_number inc_buf)
  if contains_string inc_buf (codes "NOT FOUND") then pure no_user else do
    let parsed = parse_message inc_buf 8
    contact_nick ← lift (entry parsed 3)
    contact_ip ← lift (entry parsed 5)
    text ← lift (entry parsed 7)
    contact_port ← lift (or_fault (atoi text))
    net ← get_net
    elim (set_values_in_IPv4_addr net (some contact_ip) contact_port) [
      | none ↦ pure no_answer
      | some addr ↦ pure (found_user (copied_nick contact_nick) addr)
    ]

unfoldable pub send_blocking_lookup_message : Bytes → Act LookupResult
unfolding send_to listen read_answer
send_blocking_lookup_message message = do
  s ← get
  sent ← send_to s.server_addr message
  if not sent then pure no_answer else do
    ws ← get_waits
    answer ← listen ws s.server_addr
    elim answer [ none ↦ pure no_answer | some inc_buf ↦ read_answer inc_buf ]

-- The loop of `lookup_user_on_server`, with the attempts that are left. `none` is the result 0.
unfoldable pub lookup_attempts : ℕ → Bytes → Act (Option (Option Bytes × SockaddrIn))
unfolding send_blocking_lookup_message
lookup_attempts zero out_buf = quit_client
lookup_attempts (suc k) out_buf = do
  ret ← send_blocking_lookup_message out_buf
  elim ret [
    | no_user ↦ pure none
    | found_user nick addr ↦ pure (some (nick, addr))
    | no_answer ↦ lookup_attempts k out_buf
  ]

unfoldable pub lookup_user_on_server : Bytes → Act (Option (Option Bytes × SockaddrIn))
unfolding next_message_number_server lookup_attempts
lookup_user_on_server target_nick = do
  s ← get
  out_buf ← lift (
      sprintf
        (codes "PKT " ++ decimal (next_message_number_server s) ++ codes " LOOKUP " ++ target_nick))
  lookup_attempts 3 out_buf
