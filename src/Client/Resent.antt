-- ===== src/Client/Resent.antt =====
-- The oldest message of a contact, sent again.
use upush_chat.Base.{
  suc, ◌≡◌, ◌≢◌, refl, sym, ap, ◌∙◌, Option, none, some, List, arith, Bytes, leb, length, ◌==◌,
  Bool-cases, inl, inr,
}
use upush_chat.Common.{bufsize}
use upush_chat.Network.{SockaddrIn}
use upush_chat.Outcome.{ok, sprintf}
use upush_chat.Sequence.{get_last?, drop_last}
use upush_chat.Sequence.Ends.{get_last?-append, length-drop_last}
use upush_chat.Contacts.{Message, Contact, peek_message, pop_message}
use upush_chat.Client.{World, Client, Act, pure, ◌>>=◌, gettimeofday}
use upush_chat.Client.ToServer.{lookup_user_on_server}
use upush_chat.Client.ToClient.{
  packet_text, after_sending, send_message_to_contact, drop_oldest, resend_message_to_contact,
}
use upush_chat.Client.Acknowledging.{payloads}
use upush_chat.Client.Delivery.{Steady, sent, send_to-sent}
use upush_chat.Client.Delivered.{length-payloads}
use upush_chat.Client.Leaves.{Same, returned, bind-eq-ok, lookup_user_on_server-Leaves}

-- The contact `d` and the client `t` after `m` was sent to it again from `s`.
pub record Resent (s t : Client) (c d : Contact) (m : Message) : Type 0 where
  pub same : Same s t
  pub nick : d.nick ≡ c.nick
  pub number : d.last_pkt_sent ≡ c.last_pkt_sent
  pub again : get_last? t.network ≡ some (record { dest = d.addr; payload = packet_text s c m })

send_message-sent :
    (c d : Contact) (m : Message) (w : World) (s t : Client) (h : Steady w)
    → send_message_to_contact c m w s ≡ ok (d, t)
    → (d ≡ after_sending c (h.time s.calls))
      × (t ≡ sent c.addr (packet_text s c m) (record s { calls = suc s.calls }))
unfolding send_message_to_contact gettimeofday sprintf ◌>>=◌
send_message-sent c d m w s t h e = elim (Bool-cases (leb bufsize (length (packet_text s c m)))) [
  | inl long ↦ absurd (ground arith)
  | inr fits ↦
      let run : ok (
        after_sending c (h.time s.calls),
        sent c.addr (packet_text s c m) (record s { calls = suc s.calls }),
      )
          ≡ ok (d, t) =
        rw
          (
            fits,
            h.clock s.calls,
            send_to-sent c.addr (packet_text s c m) w (record s { calls = suc s.calls }) h,
          )
          at e in
      returned run
]

-- Sent from a client that has the contacts, the nick and the server of `s`.
sent-Resent :
    (c c' d : Contact) (m : Message) (w : World) (s u t : Client)
    → Steady w
    → Same s u
    → c'.nick ≡ c.nick
    → c'.last_pkt_sent ≡ c.last_pkt_sent
    → send_message_to_contact c' m w u ≡ ok (d, t)
    → Resent s t c d m
sent-Resent c c' d m w s u t h same nick number e =
    let (made, ended) = send_message-sent c' d m w u t h e in
    record {
      same = record {
        contacts = ap (λ x. x.contact_list) ended ∙ same.contacts;
        nick = ap (λ x. x.client_nick) ended ∙ same.nick;
        server = ap (λ x. x.server_addr) ended ∙ same.server;
        blocked = ap (λ x. x.blocked_list) ended ∙ same.blocked;
        shown = ap (λ x. x.shown) ended ∙ same.shown;
      };
      nick = ap (λ x. x.nick) made ∙ nick;
      number = ap (λ x. x.last_pkt_sent) made ∙ number;
      again = rw (made, ended, ← same.nick, ← nick, ← number) (get_last?-append u.network _);
    }

not_dropped :
    (q : List Message) (m : Message) → get_last? q ≡ some m → payloads (drop_last q) ≢ payloads q
not_dropped q m there e =
    let shorter = length-drop_last q m there in
    let len = ap (λ p. length p) e in
    absurd (omega (arith, shorter, len, length-payloads q, length-payloads (drop_last q)))

kept-Resent :
    (c c' d : Contact) (m : Message) (w : World) (s u t : Client)
    → Steady w
    → Same s u
    → c'.nick ≡ c.nick
    → c'.last_pkt_sent ≡ c.last_pkt_sent
    → (do x ← send_message_to_contact c' m; pure (some x)) w u ≡ ok (some d, t)
    → Resent s t c d m
kept-Resent c c' d m w s u t h same nick number e =
    let (x, v, e1, e2) =
      bind-eq-ok (send_message_to_contact c' m) (λ x. pure (some x)) w u t (some d) e in
    let (kept, ended) = returned e2 in
    let made : x ≡ d = cc in
    sent-Resent c c' d m w s u t h same nick number (e1 ∙ ap (λ p. ok p) (cc (made, ended)))

-- What a resend does with the result of its look-up.
abbrev after_lookup : Contact → Message → Option (Option Bytes × SockaddrIn) → Act (Option Contact)
after_lookup c m user = elim user [
  | some (_, addr) ↦ do x ← send_message_to_contact (record c { addr = addr }) m; pure (some x)
  | none ↦ pure (some (drop_oldest c))
]

looked_up-Resent :
    (c d : Contact) (m : Message) (user : Option (Option Bytes × SockaddrIn)) (w : World)
    (s u t : Client)
    → Steady w
    → Same s u
    → get_last? c.message_list ≡ some m
    → after_lookup c m user w u ≡ ok (some d, t)
    → payloads d.message_list ≡ payloads c.message_list
    → Resent s t c d m
unfolding pop_message
looked_up-Resent c d m none w s u t h same there e whole =
    let (kept, ended) = returned e in
    let dropped : d ≡ drop_oldest c = cc in
    absurd
      (not_dropped c.message_list m there (ap (λ x. payloads x.message_list) (sym dropped) ∙ whole))
looked_up-Resent c d m (some (nick, addr)) w s u t h same there e whole =
    kept-Resent c (record c { addr = addr }) d m w s u t h same refl refl e

-- A resend that returns with all the texts still in the queue has sent the oldest one again, under
-- its number, to the address that the contact then has.
pub resend-Resent :
    (c d : Contact) (m : Message) (w : World) (s t : Client)
    → Steady w
    → get_last? c.message_list ≡ some m
    → resend_message_to_contact c w s ≡ ok (some d, t)
    → payloads d.message_list ≡ payloads c.message_list
    → Resent s t c d m
unfolding resend_message_to_contact peek_message pop_message ◌>>=◌
resend-Resent c d m w s t h there e whole = elim (Bool-cases (m.attempts == 4)) [
  | inl four ↦ absurd (let run = rw (there, four) at e in cc)
  | inr fewer ↦ elim (Bool-cases (m.attempts == 2)) [
    | inl two ↦
        let (user, u, asked, rest) =
          bind-eq-ok (lookup_user_on_server c.nick) (after_lookup c m) w s t (some d)
            (rw (there, fewer, two) at e) in
        looked_up-Resent c d m user w s u t h
          ((lookup_user_on_server-Leaves c.nick).holds w s u user asked) there rest whole
    | inr other ↦
        let run = rw (there, fewer, other) at e in
        kept-Resent c c d m w s s t h
          (record { contacts = refl; nick = refl; server = refl; blocked = refl; shown = refl })
          refl refl run
  ]
]
