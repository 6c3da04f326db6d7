-- ===== src/Client/ToClient.antt =====
-- client_to_client_com.c: sending the messages of a contact's queue, one at a time.
--
-- Each function takes the contact and returns it changed; the contact list is written by the
-- callers. The message that is sent is always the oldest of the queue.
use upush_chat.Base.{
  not, Option, none, some, List, [], ◌∷◌, ◌++◌, Bytes, codes, ◌==◌, if◌then◌else◌,
}
use upush_chat.Int.{ℤ, ◌+ℤ◌, ltb_ℤ}
use upush_chat.TimeFunctions.{Timeval}
use upush_chat.Strings.{decimal}
use upush_chat.Outcome.{sprintf, or_fault}
use upush_chat.Sequence.{update_last}
use upush_chat.Contacts.{
  Message, Contact, add_message_send_attempt, peek_message, pop_message, toggle_last_pkt_sent,
}
use upush_chat.Client.{
  Client, Act, pure, ◌>>=◌, quit_client, undefined, lift, get, modify, gettimeofday, malloc,
  send_to,
}
use upush_chat.Client.ToServer.{lookup_user_on_server}

abbrev pub packet_text : Client → Contact → Message → Bytes
packet_text s contact message =
    codes "PKT "
    ++ decimal contact.last_pkt_sent
    ++ codes " FROM "
    ++ s.client_nick
    ++ codes " TO "
    ++ contact.nick
    ++ codes " MSG "
    ++ message.payload

-- The contact after its oldest message was sent at `now`.
abbrev pub after_sending : Contact → Timeval → Contact
after_sending contact now = record contact {
  message_list = update_last add_message_send_attempt contact.message_list;
  time_of_last_send = some now;
}

unfoldable pub send_message_to_contact : Contact → Message → Act Contact
unfolding gettimeofday send_to add_message_send_attempt
send_message_to_contact contact message = do
  s ← get
  buf ← lift (sprintf (packet_text s contact message))
  now ← gettimeofday
  sent ← send_to contact.addr buf
  if sent then pure (after_sending contact now) else quit_client

unfoldable pub send_next_message_to_contact : Contact → Act Contact
unfolding peek_message toggle_last_pkt_sent send_message_to_contact
send_next_message_to_contact contact = elim (peek_message contact.message_list) [
  | none ↦ pure contact
  | some message ↦ send_message_to_contact (toggle_last_pkt_sent contact) message
]

abbrev pub drop_oldest : Contact → Contact
drop_oldest contact = record contact { message_list = pop_message contact.message_list }

-- `ll_pop_node` on an empty queue is undefined (LinkedList/Ends.antt).
unfoldable pub register_ack_message : ℤ → Contact → Act Contact
unfolding peek_message pop_message send_next_message_to_contact
register_ack_message pkt_number contact = elim (peek_message contact.message_list) [
  | none ↦ undefined
  | some msg ↦
      send_next_message_to_contact (drop_oldest (record contact { last_ack_received = pkt_number }))
]

-- `none` when the contact was taken off the list and freed.
unfoldable pub resend_message_to_contact : Contact → Act (Option Contact)
unfolding peek_message pop_message lookup_user_on_server send_message_to_contact
resend_message_to_contact contact = do
  message ← lift (or_fault (peek_message contact.message_list))
  if message.attempts == 4
      then pure none
      else if message.attempts == 2
      then (do
        user ← lookup_user_on_server contact.nick
        elim user [
          | some (_, addr) ↦ do
            c ← send_message_to_contact (record contact { addr = addr }) message
            pure (some c)
          | none ↦ pure (some (drop_oldest contact))
        ])
      else (do c ← send_message_to_contact contact message; pure (some c))

-- The body of the loop of `resend_pending_messages`.
unfoldable pub resend_if_due : Contact → Act (Option Contact)
unfolding gettimeofday resend_message_to_contact
resend_if_due contact = elim contact.message_list [
  | [] ↦ pure (some contact)
  | _ ∷ _ ↦ do
    now ← gettimeofday
    last ← lift (or_fault contact.time_of_last_send)
    s ← get
    if ltb_ℤ (last.tv_sec +ℤ s.timeout_sec) now.tv_sec
        then resend_message_to_contact contact
        else pure (some contact)
]

abbrev pub keep_contact : Option Contact → List Contact → List Contact
keep_contact none cs = cs
keep_contact (some c) cs = c ∷ cs

-- The iterator has read the link to the next contact before a contact is taken off the list
-- (Contacts/Sweep.antt).
unfoldable pub resend_loop : List Contact → Act (List Contact)
unfolding resend_if_due
resend_loop [] = pure []
resend_loop (c ∷ cs) = do
  kept ← resend_if_due c
  rest ← resend_loop cs
  pure (keep_contact kept rest)

unfoldable pub resend_pending_messages : Act (Unit {0})
unfolding malloc resend_loop
resend_pending_messages = do
  s ← get
  elim s.contact_list [
    | [] ↦ pure tt
    | c ∷ cs ↦ do
      block ← malloc
      if not block then quit_client else do
        block ← malloc
        if not block then quit_client else do
          contacts ← resend_loop (c ∷ cs)
          modify (λ t. record t { contact_list = contacts })
  ]
