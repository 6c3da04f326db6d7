-- ===== src/Client/Runs.antt =====
-- Handling a line of input or a datagram keeps every contact in order.
use upush_chat.Base.{Option, none, some, List, [], ◌∷◌, arith, Bytes, codes, All}
use upush_chat.Int.{ℤ, negsuc, eq_ℤ}
use upush_chat.Strings.{same_string, atoi}
use upush_chat.Common.{parse_message}
use upush_chat.Network.{SockaddrIn}
use upush_chat.Outcome.{or_fault, entry}
use upush_chat.BlockedNicks.{Blocks, is_nick_blocked, add_blocked_nick}
use upush_chat.Contacts.{
  Contact, match_nick, compare_address, find_contact_by_nick, find_contact_by_addr,
}
use upush_chat.Client.{Act, pure, ◌>>=◌, ◌>>◌, lift}
use upush_chat.Client.Input.{string_starts_with, parse_client_input}
use upush_chat.Client.Loop.{set_contacts, unblock_command, block_nick, block_command, handle_input}
use upush_chat.Client.Receive.{
  note_ack, receive_from_server, receive_ack, take_message, send_ack, find_sender, receive_message,
}
use upush_chat.Client.Queue.{IsContact, All-find_first, All-update_first}
use upush_chat.Client.Keeps.{
  Keeps, Any, >>=-Keeps, if-Keeps, option-Keeps, pure-Keeps, quit-Keeps, lift_call-Keeps, get-Keeps,
  modify-Keeps, malloc-Keeps, send_to-Keeps,
}
use upush_chat.Client.Sending.{lookup-Keeps, register_ack-Keeps}
use upush_chat.Client.Turns.{
  list-Keeps, contact_from_lookup-Keeps, set_contacts-Keeps, write_to-Keeps,
}
use upush_chat.Client.Typed.{parse_client_input-bounds}

two_words-Keeps :
    {A : Type 0} {Q : A → Type 0} (words : List Bytes) {f : Bytes → Act A} {x : Act A}
    → ((nick : Bytes) → Keeps (f nick) Q)
    → Keeps x Q
    → Keeps (elim words [ _ ∷ nick ∷ [] ↦ f nick | _ ↦ x ]) Q
two_words-Keeps [] h k = k
two_words-Keeps (a ∷ []) h k = k
two_words-Keeps (a ∷ b ∷ []) h k = h b
two_words-Keeps (a ∷ b ∷ c ∷ l) h k = k

unblock-Keeps : (buf : Bytes) → Keeps (unblock_command buf) Any
unfolding unblock_command
unblock-Keeps buf =
    two_words-Keeps (parse_message buf 3) (λ nick. modify-Keeps _ (λ s i. i)) (pure-Keeps _ tt)

block_nick-Keeps : (nick : Bytes) → Keeps (block_nick nick) Any
unfolding block_nick
block_nick-Keeps nick = >>=-Keeps malloc-Keeps λ nick_block _. >>=-Keeps malloc-Keeps λ nick_copy _.
    >>=-Keeps malloc-Keeps λ node_block _. >>=-Keeps get-Keeps λ s _.
      let blocks : Blocks = record {
        nick_block = nick_block;
        nick_copy = nick_copy;
        node_block = node_block;
      } in
      if-Keeps (eq_ℤ (add_blocked_nick blocks nick s.blocked_list).0 (negsuc 0)) (λ _. quit-Keeps)
        (λ _. modify-Keeps _ (λ t i. i))

block-Keeps : (buf : Bytes) → Keeps (block_command buf) Any
unfolding block_command
block-Keeps buf = two_words-Keeps (parse_message buf 3) block_nick-Keeps (pure-Keeps _ tt)

pub handle_input-Keeps : (buf : Bytes) → Keeps (handle_input buf) Any
unfolding handle_input
handle_input-Keeps buf =
    if-Keeps (same_string buf (codes "QUIT")) (λ _. quit-Keeps)
      λ _.
        if-Keeps (string_starts_with buf (codes "UNBLOCK")) (λ _. unblock-Keeps buf)
          λ _.
            if-Keeps (string_starts_with buf (codes "BLOCK")) (λ _. block-Keeps buf)
              λ _.
                if-Keeps (string_starts_with buf (codes "@"))
                  (λ _.
                    list-Keeps buf (λ _. pure-Keeps _ tt)
                      λ c rest _.
                        option-Keeps (parse_client_input rest) (λ _. pure-Keeps _ tt)
                          λ found e.
                            write_to-Keeps found.0 found.1
                              (parse_client_input-bounds rest found.0 found.1 e).1)
                  (λ _. pure-Keeps _ tt)

pub from_server-Keeps : (parsed : List Bytes) → Keeps (receive_from_server parsed) Any
unfolding receive_from_server
from_server-Keeps parsed = >>=-Keeps (lift_call-Keeps _) λ first _.
    if-Keeps (same_string first (codes "ACK"))
      (λ _.
        >>=-Keeps (lift_call-Keeps _)
          λ number _. modify-Keeps (note_ack number) (λ s i. ground arith))
      (λ _. pure-Keeps _ tt)

pub ack-Keeps : (parsed : List Bytes) (src : SockaddrIn) → Keeps (receive_ack parsed src) Any
unfolding receive_ack find_contact_by_addr
ack-Keeps parsed src = >>=-Keeps get-Keeps λ s i.
    option-Keeps (find_contact_by_addr src s.contact_list) (λ _. pure-Keeps _ tt)
      λ acking e. >>=-Keeps (lift_call-Keeps _) λ number _.
        >>=-Keeps (lift_call-Keeps _) λ pkt_number _.
          >>=-Keeps
            (register_ack-Keeps pkt_number acking
              (All-find_first IsContact (compare_address src) s.contact_list acking i e))
            λ c h.
              set_contacts-Keeps _
                (λ cs r. All-update_first IsContact (compare_address src) cs c h r)

take-Keeps :
    (n : ℤ) (parsed : List Bytes) (c : Contact)
    → IsContact c
    → Keeps (take_message n parsed c) IsContact
unfolding take_message
take-Keeps n parsed c h =
    if-Keeps (eq_ℤ n c.last_pkt_received) (λ _. pure-Keeps c h)
      λ _. >>=-Keeps get-Keeps λ s _.
        >>=-Keeps
          (if-Keeps (is_nick_blocked c.nick s.blocked_list) (λ _. pure-Keeps {Q = Any} _ tt)
            λ _. >>=-Keeps (lift_call-Keeps _) λ text _. modify-Keeps _ (λ t i. i))
          λ _ _. pure-Keeps _ (record { number = h.number; queue = h.queue; sent = h.sent })

send_ack-Keeps : (n : ℤ) (c : Contact) → Keeps (send_ack n c) Any
unfolding send_ack
send_ack-Keeps n c = >>=-Keeps (lift_call-Keeps _) λ response _.
    >>=-Keeps (send_to-Keeps _ _) λ sent _. if-Keeps sent (λ _. pure-Keeps _ tt) (λ _. quit-Keeps)

-- The sender is in order, and so is the list that takes up what becomes of it.
abbrev GoodSender : Option (Contact × (Contact → List Contact → List Contact)) → Type 0
GoodSender none = Unit
GoodSender (some (c, put)) =
    IsContact c
    × ((d : Contact) (cs : List Contact)
        → IsContact d
        → All IsContact cs
        → All IsContact (put d cs))

find_sender-Keeps : (nick : Bytes) → Keeps (find_sender nick) GoodSender
unfolding find_sender find_contact_by_nick
find_sender-Keeps nick = >>=-Keeps get-Keeps λ s i.
    option-Keeps (find_contact_by_nick nick s.contact_list)
      (λ _. >>=-Keeps (lookup-Keeps nick) λ user _.
        option-Keeps user (λ _. pure-Keeps none tt)
          λ found _. >>=-Keeps (contact_from_lookup-Keeps found.0 found.1) λ sender h.
            >>=-Keeps malloc-Keeps λ block _. pure-Keeps _ (h, λ d cs k r. ground arith))
      (λ sender e. pure-Keeps _ (
        All-find_first IsContact (match_nick nick) s.contact_list sender i e,
        λ d cs k r. All-update_first IsContact (match_nick nick) cs d k r,
      ))

pub message-Keeps : (parsed : List Bytes) → Keeps (receive_message parsed) Any
unfolding receive_message
message-Keeps parsed =
    >>=-Keeps (lift_call-Keeps _)
      λ nick _. >>=-Keeps (find_sender-Keeps nick) λ found good. sender-Keeps found good
  where
    sender-Keeps :
        (found : Option (Contact × (Contact → List Contact → List Contact)))
        → GoodSender found
        → Keeps
            (elim found [
              | none ↦ pure tt
              | some (sender, put) ↦ do
                number ← lift (entry parsed 1)
                pkt_number ← lift (or_fault (atoi number))
                c ← take_message pkt_number parsed sender
                set_contacts (put c)
                send_ack pkt_number c
            ])
            Any
    sender-Keeps none good = pure-Keeps _ tt
    sender-Keeps (some (sender, put)) good = >>=-Keeps (lift_call-Keeps _) λ number _.
        >>=-Keeps (lift_call-Keeps _) λ pkt_number _.
          >>=-Keeps (take-Keeps pkt_number parsed sender good.0) λ c h.
            >>=-Keeps (set_contacts-Keeps (put c) (λ cs r. good.1 c cs h r))
              λ _ _. send_ack-Keeps pkt_number c
