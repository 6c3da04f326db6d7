-- ===== src/Client/Loop.antt =====
-- upush_client.c: the main loop.
use upush_chat.Base.{
  not, ◌&&◌, Option, none, some, List, [], ◌∷◌, Bytes, codes, ◌==◌, if◌then◌else◌, length,
}
use upush_chat.Int.{pos, negsuc, eq_ℤ}
use upush_chat.Strings.{same_string}
use upush_chat.Common.{parse_message}
use upush_chat.Network.{SockaddrIn}
use upush_chat.Outcome.{or_fault}
use upush_chat.Sequence.{update_first}
use upush_chat.BlockedNicks.{Blocks, is_nick_blocked, add_blocked_nick, remove_blocked_nick}
use upush_chat.Contacts.{
  Message, Contact, add_message_to_contact_message_list, match_nick, find_contact_by_nick,
}
use upush_chat.Client.{Act, pure, ◌>>=◌, quit_client, lift, get, modify, malloc, allocated}
use upush_chat.Client.Input.{string_starts_with, parse_client_input}
use upush_chat.Client.ToServer.{lookup_user_on_server}
use upush_chat.Client.ToClient.{send_next_message_to_contact}

abbrev pub set_contacts : (List Contact → List Contact) → Act (Unit {0})
set_contacts f = modify (λ s. record s { contact_list = f s.contact_list })

unfoldable pub create_message : Bytes → Act (Option Message)
unfolding allocated
create_message payload =
    allocated (allocated (pure (some (record { payload = payload; attempts = 0 }))))

-- The blocks for a message list: its struct, and the list with its two sentinels.
unfoldable pub create_message_list : Act (Option (List Message))
unfolding allocated
create_message_list = allocated (allocated (allocated (allocated (pure (some [])))))

unfoldable pub create_contact : Bytes → SockaddrIn → Act (Option Contact)
unfolding allocated create_message_list
create_contact nick addr = allocated (
    allocated (
      allocated (do
        list ← create_message_list
        elim list [
          | none ↦ pure none
          | some msg_list ↦ allocated (
              pure (
                some (record {
                  nick = nick;
                  addr = addr;
                  message_list = msg_list;
                  last_pkt_sent = 1;
                  last_ack_received = pos 1;
                  last_pkt_received = negsuc 0;
                  time_of_last_send = none;
                })))
        ])))

-- A new contact from the buffers of a look-up.
unfoldable pub contact_from_lookup : Option Bytes → SockaddrIn → Act Contact
unfolding create_contact
contact_from_lookup tmp_nick_buf addr = do
  nick ← lift (or_fault tmp_nick_buf)
  contact ← create_contact nick addr
  elim contact [ none ↦ quit_client | some c ↦ pure c ]

-- A message to a contact: it joins the queue, and is sent when it is the only one there.
unfoldable pub post : Bytes → Contact → Act Contact
unfolding create_message malloc add_message_to_contact_message_list send_next_message_to_contact
post payload recipient = do
  new ← create_message payload
  elim new [
    | none ↦ quit_client
    | some message ↦ do
      block ← malloc
      let contact = add_message_to_contact_message_list block message recipient
      if block && length recipient.message_list == 0
          then send_next_message_to_contact contact
          else pure contact
  ]

-- The branch for "@".
unfoldable pub write_to : Bytes → Bytes → Act (Unit {0})
unfolding is_nick_blocked find_contact_by_nick lookup_user_on_server contact_from_lookup post malloc
write_to recipient_nick recipient_message = do
  s ← get
  if is_nick_blocked recipient_nick s.blocked_list
      then pure tt
      else elim (find_contact_by_nick recipient_nick s.contact_list) [
        | some recipient ↦ do
          c ← post recipient_message recipient
          set_contacts (update_first (match_nick recipient_nick) (λ _. c))
        | none ↦ do
          user ← lookup_user_on_server recipient_nick
          elim user [
            | none ↦ pure tt
            | some (tmp_nick_buf, addr) ↦ do
              recipient ← contact_from_lookup tmp_nick_buf addr
              block ← malloc
              if not block
                  then quit_client
                  else do c ← post recipient_message recipient; set_contacts (λ cs. c ∷ cs)
          ]
      ]

unfoldable pub unblock_command : Bytes → Act (Unit {0})
unfolding parse_message remove_blocked_nick
unblock_command buf = elim (parse_message buf 3) [
  | _ ∷ nick ∷ [] ↦
      modify (λ s. record s { blocked_list = (remove_blocked_nick nick s.blocked_list).1 })
  | _ ↦ pure tt
]

-- The three allocations of `add_blocked_nick`, and the end of the client when one fails.
unfoldable pub block_nick : Bytes → Act (Unit {0})
unfolding malloc add_blocked_nick
block_nick nick = do
  nick_block ← malloc
  nick_copy ← malloc
  node_block ← malloc
  s ← get
  let blocks : Blocks = record {
    nick_block = nick_block;
    nick_copy = nick_copy;
    node_block = node_block;
  }
  let (ret, list) = add_blocked_nick blocks nick s.blocked_list
  if eq_ℤ ret (negsuc 0) then quit_client else modify (λ t. record t { blocked_list = list })

unfoldable pub block_command : Bytes → Act (Unit {0})
unfolding parse_message block_nick
block_command buf = elim (parse_message buf 3) [ _ ∷ nick ∷ [] ↦ block_nick nick | _ ↦ pure tt ]

-- The line `buf` that the user typed.
unfoldable pub handle_input : Bytes → Act (Unit {0})
unfolding same_string string_starts_with unblock_command block_command parse_client_input write_to
handle_input buf =
    if same_string buf (codes "QUIT")
    then quit_client
    else if string_starts_with buf (codes "UNBLOCK")
    then unblock_command buf
    else if string_starts_with buf (codes "BLOCK")
    then block_command buf
    else if string_starts_with buf (codes "@")
    then elim buf [
      | [] ↦ pure tt
      | _ ∷ rest ↦ elim (parse_client_input rest) [
        | none ↦ pure tt
        | some (nick, message) ↦ write_to nick message
      ]
    ]
    else pure tt
