-- ===== src/Tests/OfLosses.antt =====
-- An acknowledgement is lost, the message is sent again, and another one is typed.
use upush_chat.Int.{◌+ℤ◌}
use upush_chat.Client.Early.{turn-early}
use upush_chat.Base.{
  ℕ, inr, suc, ◌≡◌, refl, true, false, none, some, [], ◌∷◌, ◌++◌, codes, List, Bytes,
}
use upush_chat.Strings.{decimal, same_string, atoi, c_string}
use upush_chat.Common.{parse_message}
use upush_chat.Network.{is_same_address, send_packet}
use upush_chat.Outcome.{sprintf}
use upush_chat.Sequence.{get_last?}
use upush_chat.BlockedNicks.{is_nick_blocked}
use upush_chat.Contacts.{
  Message, Contact, find_contact_by_addr, find_contact_by_nick, peek_message, pop_message,
  add_message_send_attempt, toggle_last_pkt_sent, add_message_to_contact_message_list,
}
use upush_chat.Client.{Client, ◌>>=◌, gettimeofday, send_to, malloc, allocated}
use upush_chat.Client.ToClient.{
  after_sending, send_message_to_contact, send_next_message_to_contact, register_ack_message,
  resend_message_to_contact,
}
use upush_chat.Client.Loop.{create_message, post, write_to}
use upush_chat.Client.Receive.{
  handle_datagram, receive_from_client, receive_ack, receive_message, find_sender, take_message,
  send_ack, turn, handle, received,
}
use upush_chat.Client.Delivery.{received_by, next_sent}
use upush_chat.Client.Link.{heard, deliver, exchange}
use upush_chat.Client.Posted.{queued}
use upush_chat.Client.Rounds.{Rounds}
use upush_chat.Tests.OfServer.{at, from}
use upush_chat.Tests.OfClient.{world}
use upush_chat.Tests.OfExchange.{kari_waits, sender, ida_known, receiver}

-- Kari has shown the first message.
abbrev shown_once : Client
shown_once = received_by false (codes "Ida") 0 ida_known (codes "hei") receiver

abbrev resent_to : Contact
resent_to = after_sending kari_waits (at 101)

abbrev after_resend : Client
after_resend = record sender {
  contact_list = resent_to ∷ [];
  network =
      sender.network
      ++ record { dest = from 1 5001; payload = codes "PKT 0 FROM Ida TO Kari MSG hei" } ∷ [];
  calls = suc (suc sender.calls);
}

abbrev after_typing : Client
after_typing = record after_resend {
  contact_list = queued (codes "farvel") resent_to ∷ [];
  calls = suc (suc (suc after_resend.calls));
}

abbrev shown_still : Client
shown_still = received_by true (codes "Ida") 0 (heard 0 ida_known) (codes "hei") shown_once

abbrev acknowledged : Client
acknowledged = record after_typing {
  contact_list = next_sent 0 (queued (codes "farvel") resent_to) (at 101) ∷ [];
  network =
      after_typing.network
      ++ record { dest = from 1 5001; payload = codes "PKT 1 FROM Ida TO Kari MSG takk" } ∷ [];
  calls = suc (suc after_typing.calls);
}

abbrev oldest : Contact → Message
oldest c = elim (get_last? c.message_list) [
  | none ↦ record { payload = []; attempts = 0 }
  | some m ↦ m
]

opened : List Bytes
unfolding deliver exchange handle_datagram receive_from_client receive_message find_sender
    take_message send_ack receive_ack register_ack_message send_next_message_to_contact
    send_message_to_contact resend_message_to_contact write_to post create_message allocated malloc
    gettimeofday send_to send_packet sprintf peek_message pop_message add_message_send_attempt
    toggle_last_pkt_sent add_message_to_contact_message_list find_contact_by_addr
    find_contact_by_nick is_same_address is_nick_blocked same_string decimal atoi c_string
    parse_message ◌>>=◌
opened = []

-- A second after the message was sent, it is not due yet.
turn-early_example :
    (n : ℕ) × (turn (received (from 1 5001) (codes "ACK 0 OK")) world sender
      ≡ handle (received (from 1 5001) (codes "ACK 0 OK")) world (record sender { calls = n }))
unfolding ◌+ℤ◌
turn-early_example =
    turn-early world (received (from 1 5001) (codes "ACK 0 OK")) sender
      (record { time = λ i. at 101; clock = λ i _ _. refl }) (refl, refl) refl refl
      (inr (at 100, refl, λ i _ _. refl), tt)
