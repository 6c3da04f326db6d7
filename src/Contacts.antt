-- ===== src/Contacts.antt =====
-- message.c, message_list.c, contact.c and contact_list.c: contacts and their queues of messages.
--
-- A list is the sequence that the linked list stands for, newest first (LinkedList/View.antt), so
-- that the oldest message of a queue is its last. A contact that is changed through its pointer is
-- the first one of its nick or address, or the one that an iterator has reached.
pub mod Fifo
pub mod Iterator
pub mod Sweep
use upush_chat.Base.{
  ℕ, ◌+◌, Bool, true, false, Option, none, some, length, List, ◌∷◌, Bytes, ◌==◌, if◌then◌else◌,
}
use upush_chat.Int.{ℤ, pos, eq_ℤ}
use upush_chat.TimeFunctions.{Timeval}
use upush_chat.Strings.{same_string}
use upush_chat.Network.{SockaddrIn, is_same_address}
use upush_chat.Sequence.{find_first, erase_first, get_last?, drop_last}

pub record Message : Type 0 where
  pub payload : Bytes
  pub attempts : ℕ

-- `time_of_last_send` is `none` as long as nothing was written to it.
pub record Contact : Type 0 where
  pub nick : Bytes
  pub addr : SockaddrIn
  pub message_list : List Message
  pub last_pkt_sent : ℕ
  pub last_ack_received : ℤ
  pub last_pkt_received : ℤ
  pub time_of_last_send : Option Timeval

unfoldable pub add_message_send_attempt : Message → Message
add_message_send_attempt message = record message { attempts = message.attempts + 1 }

unfoldable pub peek_message : List Message → Option Message
peek_message msg_list = get_last? msg_list

-- The queue after the oldest message was taken off.
unfoldable pub pop_message : List Message → List Message
pop_message msg_list = drop_last msg_list

-- When there is no memory for the list node, the contact stays as it is.
unfoldable pub add_message_to_contact_message_list :
    (node_block : Bool) → Message → Contact → Contact
add_message_to_contact_message_list node_block message contact =
    if node_block then record contact { message_list = message ∷ contact.message_list } else contact

unfoldable pub toggle_last_pkt_sent : Contact → Contact
toggle_last_pkt_sent contact = record contact {
  last_pkt_sent = if contact.last_pkt_sent == 0 then 1 else 0;
}

abbrev pub match_nick : Bytes → Contact → Bool
match_nick other contact = same_string contact.nick other

unfoldable pub find_contact_by_nick : Bytes → List Contact → Option Contact
find_contact_by_nick nick = find_first (match_nick nick)

abbrev pub compare_address : SockaddrIn → Contact → Bool
compare_address other contact = is_same_address (some contact.addr) (some other)

unfoldable pub find_contact_by_addr : SockaddrIn → List Contact → Option Contact
find_contact_by_addr addr = find_first (compare_address addr)

unfoldable pub get_message_attempts : Message → ℕ
get_message_attempts message = message.attempts

unfoldable pub message_list_size : List Message → ℕ
message_list_size msg_list = length msg_list

-- `none` is the end of the process.
unfoldable pub next_message_number_contact : Contact → Option ℕ
next_message_number_contact contact =
    if eq_ℤ contact.last_ack_received (pos 0)
    then some 1
    else if eq_ℤ contact.last_ack_received (pos 1)
    then some 0
    else none

-- `none` is the result -1.
unfoldable pub add_contact_to_contact_list :
    (node_block : Bool) → Contact → List Contact → Option (List Contact)
add_contact_to_contact_list node_block new_contact contacts =
    if node_block then some (new_contact ∷ contacts) else none

unfoldable pub contact_list_size : List Contact → ℕ
contact_list_size contacts = length contacts

-- The contact next to the tail, and the list without it; an empty list is undefined, `none`.
unfoldable pub pop_contact : List Contact → Option (Contact × List Contact)
pop_contact contacts = elim (get_last? contacts) [
  | none ↦ none
  | some contact ↦ some (contact, drop_last contacts)
]
