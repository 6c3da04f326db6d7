-- ===== src/Client/Rounds.antt =====
-- What may happen to two clients while the messages of one wait for their acknowledgements:
-- messages and acknowledgements get lost, messages are sent again, and new ones are typed. Of the
-- acknowledgements of one message at most one arrives, before anything else does; other datagrams
-- are left out.
use upush_chat.Base.{
  ℕ, ◌≤◌, arith, ◌≡◌, refl, sym, ap, ◌∙◌, Bool, true, false, some, List, [], ◌∷◌, Bytes,
}
use upush_chat.Int.{pos, eq_ℤ, eq_ℤ_iff}
use upush_chat.TimeFunctions.{Timeval}
use upush_chat.Network.{SockaddrIn, is_same_address}
use upush_chat.Outcome.{ok}
use upush_chat.Sequence.{get_last?, update_first}
use upush_chat.Sequence.Ends.{get_last?-map, get_last?-cons, get_last?-append}
use upush_chat.BlockedNicks.{is_nick_blocked}
use upush_chat.Contacts.{
  Message, Contact, match_nick, compare_address, find_contact_by_addr, find_contact_by_nick,
}
use upush_chat.Client.{World, Client}
use upush_chat.Client.ToClient.{resend_message_to_contact}
use upush_chat.Client.Loop.{write_to}
use upush_chat.Client.Acknowledging.{payloads}
use upush_chat.Client.Receipt.{eq_ℤ_refl}
use upush_chat.Client.Packets.{IsText, message, packet_text-spaced}
use upush_chat.Client.Delivery.{received_by}
use upush_chat.Client.Link.{
  number_after, Underway, deliver, exchange, heard, find_by_addr-put, find_by_nick-update,
  addressed_contact,
}
use upush_chat.Client.Resent.{Resent}
use upush_chat.Client.Posted.{queued, sent_first, first_sent, find_by_addr-queued}

-- The client `t` with a contact at `b` whose oldest message is `m`.
pub record Pending (b : SockaddrIn) (t : Client) (c : Contact) (m : Message) : Type 0 where
  pub known : find_contact_by_addr b t.contact_list ≡ some c
  pub oldest : get_last? c.message_list ≡ some m

-- The clients at `a` and `b` come from `s` and `r` to the last two indices, while the texts of the
-- list, newest first, are typed. A message that is lost changes nothing.
pub data Rounds (w v : World) (a b : SockaddrIn) (s r : Client)
    : List Bytes → Client → Client → Type 0 where
  start : Rounds w v a b s r [] s r
  ack_lost :
      {typed : List Bytes} {t u : Client} (u' : Client) (c : Contact) (m : Message)
      → Rounds w v a b s r typed t u
      → Pending b t c m
      → deliver v a b t u ≡ ok u'
      → Rounds w v a b s r typed t u'
  both_arrive :
      {typed : List Bytes} {t u : Client} (t' u' : Client) (c : Contact) (m : Message)
      → Rounds w v a b s r typed t u
      → Pending b t c m
      → exchange w v a b t u ≡ ok (t', u')
      → Rounds w v a b s r typed t' u'
  sent_again :
      {typed : List Bytes} {t u : Client} (t' : Client) (c c' : Contact) (m : Message)
      → Rounds w v a b s r typed t u
      → Pending b t c m
      → resend_message_to_contact c w t ≡ ok (some c', t')
      → payloads c'.message_list ≡ payloads c.message_list
      → is_same_address (some c'.addr) (some b) ≡ true
      → Rounds w v a b s r typed
          (record t' { contact_list = update_first (compare_address b) (λ _. c') t'.contact_list })
          u
  text_typed :
      {typed : List Bytes} {t u : Client} (t' : Client) (c : Contact) (text : Bytes)
      → Rounds w v a b s r typed t u
      → find_contact_by_addr b t.contact_list ≡ some c
      → find_contact_by_nick c.nick t.contact_list ≡ some c
      → IsText text
      → ((i : ℕ) → (w.env i).node_block ≡ true)
      → is_nick_blocked c.nick t.blocked_list ≡ false
      → write_to c.nick text w t ≡ ok (tt, t')
      → Rounds w v a b s r (text ∷ typed) t' u

module _ (a b : SockaddrIn) (old : Bool) (s r : Client) (c d : Contact)
    (l : Underway old a b s r c d) where
  -- After the message has come, its number is no longer new.
  pub received-Underway :
      (x : Bytes)
      → get_last? (payloads c.message_list) ≡ some x
      → Underway true a b s
          (received_by old s.client_nick c.last_pkt_sent d x r)
          c
          (heard c.last_pkt_sent d)
  received-Underway x oldest = record {
    receiver_known = l.receiver_known;
    sender_known = find_by_nick-update s.client_nick d _ r.contact_list l.sender_known refl;
    same_nick = l.same_nick;
    same_addr = l.same_addr;
    sender_nick = l.sender_nick;
    receiver_nick = l.receiver_nick;
    sender_not_server = l.sender_not_server;
    receiver_not_server = l.receiver_not_server;
    not_blocked = l.not_blocked;
    small = l.small;
    texts = l.texts;
    on_its_way = λ y e. ((l.on_its_way y e).0, eq_ℤ_refl (pos c.last_pkt_sent));
    idle = λ _. eq_ℤ_refl (pos c.last_pkt_sent);
  }

  pub send_again-Underway :
      (c' : Contact) (m : Message) (t : Client)
      → get_last? c.message_list ≡ some m
      → Resent s t c c' m
      → payloads c'.message_list ≡ payloads c.message_list
      → is_same_address (some c'.addr) (some b) ≡ true
      → Underway old a b
          (record t { contact_list = update_first (compare_address b) (λ _. c') t.contact_list })
          r
          c'
          d
  send_again-Underway c' m t there h whole same = record {
    receiver_known =
        find_by_addr-put b c c' t.contact_list (rw h.same.contacts l.receiver_known) same;
    sender_known = rw h.same.nick l.sender_known;
    same_nick = h.nick ∙ l.same_nick;
    same_addr = l.same_addr;
    sender_nick = rw h.same.nick l.sender_nick;
    receiver_nick = l.receiver_nick;
    sender_not_server = l.sender_not_server;
    receiver_not_server = rw h.same.server l.receiver_not_server;
    not_blocked = l.not_blocked;
    small = rw h.number l.small;
    texts = rw whole l.texts;
    on_its_way = λ y e.
        let text : m.payload ≡ y =
          let first = get_last?-map (λ m. m.payload) c.message_list m there in
          let same_first = ap get_last? whole in cc in
        (
          h.again
              ∙ ap (λ p. some (record { dest = c'.addr; payload = p }))
                  (packet_text-spaced s c m ∙ rw (h.same.nick, h.nick, h.number, text) refl),
          rw h.number ((l.on_its_way y (rw (← whole) e)).1),
        );
    idle = λ e. rw h.number (l.idle (rw (← whole) e));
  }

  -- A text is typed for the contact, which becomes `e`.
  typed-Underway :
      (now : Bool) (e : Contact) (text : Bytes) (t : Client)
      → find_contact_by_nick c.nick s.contact_list ≡ some c
      → IsText text
      → e.nick ≡ c.nick
      → e.addr ≡ c.addr
      → e.last_pkt_sent ≤ 1
      → payloads e.message_list ≡ text ∷ payloads c.message_list
      → t.client_nick ≡ s.client_nick
      → t.server_addr ≡ s.server_addr
      → t.contact_list ≡ update_first (match_nick c.nick) (λ _. e) s.contact_list
      → ((x : Bytes)
          → get_last? (payloads e.message_list) ≡ some x
          → (get_last? t.network
              ≡ some (record {
                dest = e.addr;
                payload = message e.last_pkt_sent t.client_nick e.nick x;
              }))
            × (eq_ℤ (pos e.last_pkt_sent) d.last_pkt_received ≡ now))
      → Underway now a b t r e d
  typed-Underway now e text t known valid nick addr small queue name server contacts next = record {
    receiver_known = rw contacts (
        find_by_addr-queued b c e s.contact_list known l.receiver_known
          (rw addr (addressed_contact b c s.contact_list l.receiver_known)));
    sender_known = rw name l.sender_known;
    same_nick = nick ∙ l.same_nick;
    same_addr = l.same_addr;
    sender_nick = rw name l.sender_nick;
    receiver_nick = l.receiver_nick;
    sender_not_server = l.sender_not_server;
    receiver_not_server = rw server l.receiver_not_server;
    not_blocked = l.not_blocked;
    small = small;
    texts = rw queue (valid, l.texts);
    on_its_way = next;
    idle = λ empty. absurd (cc);
  }

  pub queued-Underway :
      (text : Bytes) (m : Message) (i : ℕ) (t : Client)
      → get_last? c.message_list ≡ some m
      → IsText text
      → find_contact_by_nick c.nick s.contact_list ≡ some c
      → t ≡ record s {
        contact_list = update_first (match_nick c.nick) (λ _. queued text c) s.contact_list;
        calls = i;
      }
      → Underway old a b t r (queued text c) d
  queued-Underway text m i t there valid known after =
      let name : t.client_nick ≡ s.client_nick = ap (λ x. x.client_nick) after in
      let network : t.network ≡ s.network = ap (λ x. x.network) after in
      let oldest = get_last?-map (λ m. m.payload) c.message_list m there in
      let first = get_last?-cons text (payloads c.message_list) m.payload oldest in
      typed-Underway old (queued text c) text t known valid refl refl l.small refl name
        (ap (λ x. x.server_addr) after) (ap (λ x. x.contact_list) after)
        (λ y e. rw (network, name) (l.on_its_way y (oldest ∙ sym first ∙ e)))

  pub first-Underway :
      (text : Bytes) (now : Timeval) (t : Client)
      → c.message_list ≡ []
      → IsText text
      → find_contact_by_nick c.nick s.contact_list ≡ some c
      → t ≡ first_sent text c now s
      → Underway false a b t r (sent_first text c now) d
  first-Underway text now t empty valid known after =
      let name : t.client_nick ≡ s.client_nick = ap (λ x. x.client_nick) after in
      let network = ap (λ x. x.network) after in
      let had : pos c.last_pkt_sent ≡ d.last_pkt_received =
        (eq_ℤ_iff (pos c.last_pkt_sent) d.last_pkt_received).0 (l.idle (ap payloads empty)) in
      let small = l.small in
      let fresh : eq_ℤ (pos (number_after c.last_pkt_sent)) d.last_pkt_received ≡ false =
        rw (← had) (ground arith) in
      typed-Underway false (sent_first text c now) text t known valid refl refl (ground arith)
        (rw empty refl) name (ap (λ x. x.server_addr) after) (ap (λ x. x.contact_list) after)
        (λ y e.
          let same : text ≡ y = cc in
          (rw (network, name, ← same) (get_last?-append s.network _), fresh))
