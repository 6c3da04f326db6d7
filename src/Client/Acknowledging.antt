-- ===== src/Client/Acknowledging.antt =====
-- What an acknowledgement from another client does.
use upush_chat.Base.{
  ◌≡◌, ◌+◌, refl, List, [], ◌∷◌, Bytes, arith, inl, inr, Bool-cases, Option-cases, length, leb, map,
  ap,
}
use upush_chat.Int.{ℤ}
use upush_chat.Common.{bufsize}
use upush_chat.Network.{send_packet}
use upush_chat.Outcome.{ok, sprintf}
use upush_chat.Sequence.{get_last?, drop_last, update_last}
use upush_chat.Contacts.{
  Contact, Message, peek_message, pop_message, toggle_last_pkt_sent, add_message_send_attempt,
}
use upush_chat.Client.{World, Client, ◌>>=◌, gettimeofday, send_to}
use upush_chat.Client.ToClient.{
  packet_text, send_message_to_contact, send_next_message_to_contact, register_ack_message,
}

abbrev acked : Contact → ℤ → Contact
acked c n = record c { last_ack_received = n }

send-acked :
    (n k : ℤ) (c d : Contact) (m : Message) (w : World) (s t : Client)
    → send_message_to_contact (acked c n) m w s ≡ ok (d, t)
    → send_message_to_contact (acked c k) m w s ≡ ok (acked d k, t)
unfolding send_message_to_contact ◌>>=◌ sprintf gettimeofday send_to send_packet
send-acked n k c d m w s t e = elim (Bool-cases (leb bufsize (length (packet_text s c m)))) [
  | inl long ↦ ground arith
  | inr fits ↦ elim (Option-cases (w.env s.calls).now) [
    | inl stopped ↦ ground arith
    | inr (now, clock) ↦ elim (Bool-cases (w.env (s.calls + 1)).lost) [
      | inl lost ↦ ground arith
      | inr kept ↦ elim (Bool-cases (w.env (s.calls + 1)).sendto_works) [
        | inl works ↦ ground arith
        | inr fails ↦ ground arith
      ]
    ]
  ]
]

send_next-acked :
    (n k : ℤ) (c d : Contact) (w : World) (s t : Client)
    → send_next_message_to_contact (acked c n) w s ≡ ok (d, t)
    → send_next_message_to_contact (acked c k) w s ≡ ok (acked d k, t)
unfolding send_next_message_to_contact peek_message toggle_last_pkt_sent
send_next-acked n k c d w s t e = elim (Option-cases (get_last? c.message_list)) [
  | inl nil ↦ ground arith
  | inr (m, there) ↦
      let sent = send-acked n k (toggle_last_pkt_sent c) d m w s t (ground arith) in
      rw (there, send_next_message_to_contact) sent
]

abbrev pub payloads : List Message → List Bytes
payloads q = map (λ m. m.payload) q

pub payloads-update_last :
    (q : List Message) → payloads (update_last add_message_send_attempt q) ≡ payloads q
unfolding add_message_send_attempt
payloads-update_last [] = refl
payloads-update_last (x ∷ []) = refl
payloads-update_last (x ∷ y ∷ q) = ap (λ r. x.payload ∷ r) (payloads-update_last (y ∷ q))

send-payloads :
    (c d : Contact) (m : Message) (w : World) (s t : Client)
    → send_message_to_contact c m w s ≡ ok (d, t)
    → payloads d.message_list ≡ payloads c.message_list
unfolding send_message_to_contact ◌>>=◌ sprintf gettimeofday send_to send_packet
send-payloads c d m w s t e = elim (Bool-cases (leb bufsize (length (packet_text s c m)))) [
  | inl long ↦ ground arith
  | inr fits ↦ elim (Option-cases (w.env s.calls).now) [
    | inl stopped ↦ ground arith
    | inr (now, clock) ↦ elim (Bool-cases (w.env (s.calls + 1)).lost) [
      | inl lost ↦ ground (arith, payloads-update_last c.message_list)
      | inr kept ↦ elim (Bool-cases (w.env (s.calls + 1)).sendto_works) [
        | inl works ↦ ground (arith, payloads-update_last c.message_list)
        | inr fails ↦ ground arith
      ]
    ]
  ]
]

send_next-payloads :
    (c d : Contact) (w : World) (s t : Client)
    → send_next_message_to_contact c w s ≡ ok (d, t)
    → payloads d.message_list ≡ payloads c.message_list
unfolding send_next_message_to_contact peek_message toggle_last_pkt_sent
send_next-payloads c d w s t e = elim (Option-cases (get_last? c.message_list)) [
  | inl nil ↦ ground arith
  | inr (m, there) ↦ send-payloads (toggle_last_pkt_sent c) d m w s t (ground arith)
]

-- An acknowledgement that is registered leaves the texts of the queue without the oldest one,
-- and its number does not matter: under any other number all is the same but for that number.
pub register_ack_any_number :
    (n k : ℤ) (c d : Contact) (w : World) (s t : Client)
    → register_ack_message n c w s ≡ ok (d, t)
    → (payloads d.message_list ≡ payloads (pop_message c.message_list))
      × (register_ack_message k c w s ≡ ok (record d { last_ack_received = k }, t))
unfolding register_ack_message peek_message pop_message
register_ack_any_number n k c d w s t e = elim (Option-cases (get_last? c.message_list)) [
  | inl nil ↦ ground arith
  | inr (m, there) ↦
      let rest : Contact = record c { message_list = drop_last c.message_list } in
      let sent : send_next_message_to_contact (acked rest n) w s ≡ ok (d, t) = ground arith in
      (
        send_next-payloads (acked rest n) d w s t sent,
        rw (there, register_ack_message) (send_next-acked n k rest d w s t sent),
      )
]
