-- ===== src/Client/Receive.antt =====
-- upush_client.c: datagrams, and the turns of the main loop.
use upush_chat.Base.{
  Bool, true, false, not, Option, none, some, List, [], ◌∷◌, ◌++◌, Bytes, codes, leb, if◌then◌else◌,
  length,
}
use upush_chat.Int.{ℤ, pos, ◌+ℤ◌, ltb_ℤ, eq_ℤ}
use upush_chat.Strings.{c_string, same_string, atoi, decimal_ℤ}
use upush_chat.Common.{bufsize, parse_message}
use upush_chat.Network.{SockaddrIn, is_same_address}
use upush_chat.Outcome.{entry, sprintf, or_fault}
use upush_chat.Sequence.{update_first}
use upush_chat.BlockedNicks.{is_nick_blocked}
use upush_chat.Contacts.{
  Contact, match_nick, compare_address, find_contact_by_nick, find_contact_by_addr,
}
use upush_chat.Client.{
  Client, Act, pure, ◌>>=◌, ◌>>◌, quit_client, undefined, lift, get, modify, gettimeofday, malloc,
  send_to,
}
use upush_chat.Client.Input.{get_string, get_string_at_end}
use upush_chat.Client.ToServer.{send_reg_msg_to_server, lookup_user_on_server}
use upush_chat.Client.ToClient.{register_ack_message, resend_pending_messages}
use upush_chat.Client.Loop.{set_contacts, contact_from_lookup, handle_input}

-- The acknowledgement that the server sent.
abbrev pub note_ack : Bytes → Client → Client
note_ack number s =
    if same_string number (codes "0")
    then record s { last_ack_received = 0 }
    else if same_string number (codes "1")
    then record s { last_ack_received = 1 }
    else s

unfoldable pub receive_from_server : List Bytes → Act (Unit {0})
unfolding same_string
receive_from_server parsed = do
  first ← lift (entry parsed 0)
  if same_string first (codes "ACK")
      then (do number ← lift (entry parsed 1); modify (note_ack number))
      else pure tt

unfoldable pub receive_ack : List Bytes → SockaddrIn → Act (Unit {0})
unfolding find_contact_by_addr register_ack_message atoi
receive_ack parsed src_addr = do
  s ← get
  elim (find_contact_by_addr src_addr s.contact_list) [
    | none ↦ pure tt
    | some acking_contact ↦ do
      number ← lift (entry parsed 1)
      pkt_number ← lift (or_fault (atoi number))
      c ← register_ack_message pkt_number acking_contact
      set_contacts (update_first (compare_address src_addr) (λ _. c))
  ]

-- A number that was not the last one is stored, and the message is shown unless the sender is
-- blocked.
unfoldable pub take_message : ℤ → List Bytes → Contact → Act Contact
unfolding is_nick_blocked
take_message pkt_number parsed sender =
    if eq_ℤ pkt_number sender.last_pkt_received then pure sender else do
      s ← get
      if is_nick_blocked sender.nick s.blocked_list then pure tt else (do
        text ← lift (entry parsed 7)
        modify (λ t. record t { shown = t.shown ++ (sender.nick, text) ∷ [] }))
      pure (record sender { last_pkt_received = pkt_number })

unfoldable pub send_ack : ℤ → Contact → Act (Unit {0})
unfolding send_to decimal_ℤ
send_ack pkt_number sender = do
  response ← lift (sprintf (codes "ACK " ++ decimal_ℤ pkt_number ++ codes " OK"))
  sent ← send_to sender.addr response
  if sent then pure tt else quit_client

-- The sender as it is, or a new contact from a look-up, and how the list takes up what becomes of
-- it. A new contact for which there is no list node is not kept.
unfoldable pub find_sender :
    Bytes → Act (Option (Contact × (Contact → List Contact → List Contact)))
unfolding find_contact_by_nick lookup_user_on_server contact_from_lookup malloc
find_sender sender_nick = do
  s ← get
  elim (find_contact_by_nick sender_nick s.contact_list) [
    | some sender ↦ pure (some (sender, λ c. update_first (match_nick sender_nick) (λ _. c)))
    | none ↦ do
      user ← lookup_user_on_server sender_nick
      elim user [
        | none ↦ pure none
        | some (tmp_nick_buf, addr) ↦ do
          sender ← contact_from_lookup tmp_nick_buf addr
          block ← malloc
          pure (some (sender, λ c cs. if block then c ∷ cs else cs))
      ]
  ]

unfoldable pub receive_message : List Bytes → Act (Unit {0})
unfolding find_sender take_message send_ack atoi
receive_message parsed = do
  sender_nick ← lift (entry parsed 3)
  found ← find_sender sender_nick
  elim found [
    | none ↦ pure tt
    | some (sender, put) ↦ do
      number ← lift (entry parsed 1)
      pkt_number ← lift (or_fault (atoi number))
      c ← take_message pkt_number parsed sender
      set_contacts (put c)
      send_ack pkt_number c
  ]

unfoldable pub receive_from_client : List Bytes → SockaddrIn → Act (Unit {0})
unfolding same_string receive_ack receive_message
receive_from_client [] src_addr = pure tt
receive_from_client (first ∷ rest) src_addr =
    if same_string first (codes "ACK") then receive_ack (first ∷ rest) src_addr else do
      recipient ← lift (entry (first ∷ rest) 5)
      s ← get
      if not (same_string recipient s.client_nick) then pure tt else receive_message (first ∷ rest)

unfoldable pub handle_datagram : SockaddrIn → Bytes → Act (Unit {0})
unfolding is_same_address c_string parse_message receive_from_server receive_from_client
handle_datagram src_addr bytes = if leb bufsize (length bytes) then undefined else do
  s ← get
  if is_same_address (some src_addr) (some s.server_addr)
      then receive_from_server (parse_message (c_string bytes) 3)
      else receive_from_client (parse_message (c_string bytes) 8) src_addr

-- What `select` reports and what is then read; at the end of the input, what the buffer still
-- holds. A turn that sends a heartbeat reads nothing; what
-- was reported is reported again.
pub data Report : Type 0 where
  select_fails : Report
  nothing : Report
  typed : Bytes → Report
  input_ended : Bytes → Report
  recvfrom_fails : Report
  received : SockaddrIn → Bytes → Report

unfoldable pub handle : Report → Act (Unit {0})
unfolding get_string get_string_at_end handle_input handle_datagram
handle select_fails = quit_client
handle nothing = pure tt
handle (typed line) = handle_input (c_string (get_string line bufsize))
handle (input_ended old) = do
  buf ← lift (or_fault (get_string_at_end (c_string old)))
  handle_input buf
handle recvfrom_fails = quit_client
handle (received src bytes) = handle_datagram src bytes

abbrev pub select_failed : Report → Bool
select_failed select_fails = true
select_failed _ = false

-- One turn of the main loop.
unfoldable pub turn : Report → Act (Unit {0})
unfolding gettimeofday send_reg_msg_to_server resend_pending_messages handle
turn report = if select_failed report then quit_client else do
  now ← gettimeofday
  s ← get
  if ltb_ℤ (s.last_heartbeat_time.tv_sec +ℤ pos 10) now.tv_sec
      then (do
        last ← gettimeofday
        modify (λ t. record t { last_heartbeat_time = last })
        send_reg_msg_to_server)
      else (do resend_pending_messages; handle report)

unfoldable pub run : List Report → Act (Unit {0})
unfolding turn
run [] = pure tt
run (report ∷ reports) = do turn report; run reports
