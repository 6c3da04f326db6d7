-- ===== src/Client/Posted.antt =====
-- A message typed for a contact that still has messages waiting.
use upush_chat.Base.{
  ℕ, suc, ◌<◌, ◌≡◌, refl, true, false, some, List, [], ◌∷◌, arith, Bytes, Bool-cases, inl, inr,
  length, ◌==◌,
}
use upush_chat.Network.{SockaddrIn, is_same_address}
use upush_chat.Strings.Laws.{same_string_self}
use upush_chat.Outcome.{ok}
use upush_chat.Sequence.{get_last?, update_first}
use upush_chat.BlockedNicks.{is_nick_blocked}
use upush_chat.Contacts.{
  Message, Contact, match_nick, compare_address, find_contact_by_addr, find_contact_by_nick,
  add_message_to_contact_message_list, peek_message, add_message_send_attempt, toggle_last_pkt_sent,
}
use upush_chat.Client.{World, Client, ◌>>=◌, malloc, allocated, gettimeofday}
use upush_chat.TimeFunctions.{Timeval}
use upush_chat.Common.{bufsize}
use upush_chat.Client.ToClient.{send_message_to_contact, send_next_message_to_contact}
use upush_chat.Client.Packets.{message, packet_text-spaced}
use upush_chat.Client.Delivery.{Steady, sent, send_to-sent}
use upush_chat.Client.Link.{number_after}
use upush_chat.Server.Register.{sprintf-ok}
use upush_chat.Client.Loop.{create_message, post, write_to}

-- The contact with the text behind the others.
abbrev pub queued : Bytes → Contact → Contact
queued text c = record c { message_list = record { payload = text; attempts = 0 } ∷ c.message_list }

waiting : (q : List Message) (m : Message) → get_last? q ≡ some m → (length q == 0) ≡ false
waiting [] m e = cc
waiting (x ∷ q) m e = ground arith

post-queued :
    (text : Bytes) (c : Contact) (m : Message) (w : World) (s : Client)
    → ((i : ℕ) → (w.env i).node_block ≡ true)
    → get_last? c.message_list ≡ some m
    → post text c w s ≡ ok (queued text c, record s { calls = suc (suc (suc s.calls)) })
unfolding post create_message allocated malloc add_message_to_contact_message_list ◌>>=◌
post-queued text c m w s memory there =
    rw
      (
        memory s.calls,
        memory (suc s.calls),
        memory (suc (suc s.calls)),
        waiting c.message_list m there,
      )
      refl

-- A text for a contact with a queue joins the queue, and nothing is sent.
pub write_to-queued :
    (text : Bytes) (c : Contact) (m : Message) (w : World) (s : Client)
    → ((i : ℕ) → (w.env i).node_block ≡ true)
    → get_last? c.message_list ≡ some m
    → is_nick_blocked c.nick s.blocked_list ≡ false
    → find_contact_by_nick c.nick s.contact_list ≡ some c
    → write_to c.nick text w s
      ≡ ok (
        tt,
        record s {
          contact_list = update_first (match_nick c.nick) (λ _. queued text c) s.contact_list;
          calls = suc (suc (suc s.calls));
        },
      )
unfolding write_to ◌>>=◌
write_to-queued text c m w s memory there free known =
    rw (free, known, write_to, post-queued text c m w s memory there) refl

-- The contact, and the client, when the text is the only one and has been sent.
abbrev pub sent_first : Bytes → Contact → Timeval → Contact
sent_first text c now = record c {
  message_list = record { payload = text; attempts = 1 } ∷ [];
  last_pkt_sent = number_after c.last_pkt_sent;
  time_of_last_send = some now;
}

abbrev pub first_sent : Bytes → Contact → Timeval → Client → Client
first_sent text c now s =
    sent c.addr (message (number_after c.last_pkt_sent) s.client_nick c.nick text) (record s {
      contact_list = update_first (match_nick c.nick) (λ _. sent_first text c now) s.contact_list;
      calls = suc (suc (suc (suc s.calls)));
    })

pub post-sent :
    (text : Bytes) (c : Contact) (w : World) (s : Client) (h : Steady w)
    → ((i : ℕ) → (w.env i).node_block ≡ true)
    → c.message_list ≡ []
    → length (message (number_after c.last_pkt_sent) s.client_nick c.nick text) < bufsize
    → post text c w s
      ≡ ok (
        sent_first text c (h.time (suc (suc (suc s.calls)))),
        sent c.addr
            (message (number_after c.last_pkt_sent) s.client_nick c.nick text)
            (record s { calls = suc (suc (suc (suc s.calls))) }),
      )
unfolding post create_message allocated malloc add_message_to_contact_message_list
    send_next_message_to_contact send_message_to_contact peek_message toggle_last_pkt_sent
    add_message_send_attempt gettimeofday ◌>>=◌
post-sent text c w s h memory empty fits =
    let m : Message = record { payload = text; attempts = 0 } in
    let four = suc (suc (suc s.calls)) in
    let spaced = packet_text-spaced s (toggle_last_pkt_sent (queued text c)) m in
    rw
      (
        memory s.calls,
        memory (suc s.calls),
        memory (suc (suc s.calls)),
        empty,
        spaced,
        sprintf-ok (message (number_after c.last_pkt_sent) s.client_nick c.nick text) fits,
        h.clock four,
        send_to-sent c.addr (message (number_after c.last_pkt_sent) s.client_nick c.nick text) w
            (record s { calls = suc four }) h,
      )
      (rw empty refl)

-- A text for a contact with no queue is sent, under the number that the last one did not have.
pub write_to-sent :
    (text : Bytes) (c : Contact) (w : World) (s : Client) (h : Steady w)
    → ((i : ℕ) → (w.env i).node_block ≡ true)
    → c.message_list ≡ []
    → length (message (number_after c.last_pkt_sent) s.client_nick c.nick text) < bufsize
    → is_nick_blocked c.nick s.blocked_list ≡ false
    → find_contact_by_nick c.nick s.contact_list ≡ some c
    → write_to c.nick text w s ≡ ok (tt, first_sent text c (h.time (suc (suc (suc s.calls)))) s)
unfolding write_to ◌>>=◌
write_to-sent text c w s h memory empty fits free known =
    rw (free, known, write_to, post-sent text c w s h memory empty fits) refl

-- The contact that is first under its nick and first under its address, after the change under its
-- nick.
pub find_by_addr-queued :
    (b : SockaddrIn) (c e : Contact) (cs : List Contact)
    → find_contact_by_nick c.nick cs ≡ some c
    → find_contact_by_addr b cs ≡ some c
    → is_same_address (some e.addr) (some b) ≡ true
    → find_contact_by_addr b (update_first (match_nick c.nick) (λ _. e) cs) ≡ some e
unfolding find_contact_by_addr find_contact_by_nick
find_by_addr-queued b c e [] h k same = cc
find_by_addr-queued b c e (x ∷ cs) h k same = elim (Bool-cases (match_nick c.nick x)) [
  | inl hit ↦ rw (hit, same) refl
  | inr miss ↦ elim (Bool-cases (compare_address b x)) [
    | inl here ↦
        let first : some x ≡ some c = rw here at k in
        let other : x ≡ c = cc in absurd (cc (miss, same_string_self c.nick))
    | inr past ↦ rw (miss, past) (find_by_addr-queued b c e cs (rw miss at h) (rw past at k) same)
  ]
]
