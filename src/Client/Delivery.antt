-- ===== src/Client/Delivery.antt =====
-- A message on its way to a client that knows the sender, and the acknowledgement on its way back.
use upush_chat.Base.{
  ℕ, suc, ◌≤◌, ◌<◌, ◌≡◌, refl, ap, ◌∙◌, Bool, ◌||◌, if◌then◌else◌, true, false, none, some, List,
  [], ◌∷◌, ◌++◌, arith, Bytes, codes, leb, length,
}
use upush_chat.Int.{pos, eq_ℤ}
use upush_chat.TimeFunctions.{Timeval}
use upush_chat.Strings.{c_string, same_string, decimal, atoi}
use upush_chat.Strings.Laws.{same_string_self}
use upush_chat.Strings.Numbers.{atoi-decimal}
use upush_chat.Common.{bufsize, parse_message}
use upush_chat.Network.{SockaddrIn, is_same_address, send_packet}
use upush_chat.Outcome.{ok}
use upush_chat.Sequence.{get_last?, drop_last, update_first, find_first}
use upush_chat.BlockedNicks.{is_nick_blocked}
use upush_chat.Contacts.{
  Message, Contact, match_nick, compare_address, find_contact_by_nick, find_contact_by_addr,
  peek_message, pop_message, toggle_last_pkt_sent,
}
use upush_chat.Server.Requests.{IsNick}
use upush_chat.Server.Register.{sprintf-ok}
use upush_chat.Client.{World, Client, ◌>>=◌, gettimeofday, send_to}
use upush_chat.Client.ToClient.{
  packet_text, after_sending, send_message_to_contact, send_next_message_to_contact,
  register_ack_message,
}
use upush_chat.Client.Receive.{
  handle_datagram, receive_from_client, receive_ack, receive_message, find_sender, send_ack,
}
use upush_chat.Client.Receipt.{take_message-shown}
use upush_chat.Client.Packets.{
  IsText, packet_words, message, message-no_null, length-message, message-words, ack_fits, ack_text,
  ack_words,
}

-- Every call outside the program succeeds, and no packet is lost.
pub record Steady (w : World) : Type 0 where
  pub not_lost : (i : ℕ) → (w.env i).lost ≡ false
  pub sends : (i : ℕ) → (w.env i).sendto_works ≡ true
  pub time : ℕ → Timeval
  pub clock : (i : ℕ) → (w.env i).now ≡ some (time i)

-- The client after it has sent a packet.
abbrev pub sent : SockaddrIn → Bytes → Client → Client
sent dest payload s = record s {
  network = s.network ++ record { dest = dest; payload = payload } ∷ [];
  calls = suc s.calls;
}

pub send_to-sent :
    (dest : SockaddrIn) (payload : Bytes) (w : World) (s : Client)
    → Steady w
    → send_to dest payload w s ≡ ok (true, sent dest payload s)
unfolding send_to send_packet ◌>>=◌
send_to-sent dest payload w s h = rw (h.not_lost s.calls, h.sends s.calls) refl

pub send_ack-sent :
    (n : ℕ) (d : Contact) (w : World) (s : Client)
    → n ≤ 1
    → Steady w
    → send_ack (pos n) d w s ≡ ok (tt, sent d.addr (ack_text n) s)
unfolding send_ack ◌>>=◌
send_ack-sent n d w s small h =
    rw (sprintf-ok (ack_text n) (ack_fits n small), send_to-sent d.addr (ack_text n) w s h) refl

-- What the message does to the recipient, which has shown an old one before.
abbrev pub received_by : Bool → Bytes → ℕ → Contact → Bytes → Client → Client
received_by old from n d text r = sent d.addr (ack_text n) (record r {
  contact_list =
      update_first (match_nick from) (λ _. record d { last_pkt_received = pos n }) r.contact_list;
  shown = if old then r.shown else r.shown ++ (d.nick, text) ∷ [];
})

pub dispatched :
    (a : SockaddrIn) (bytes : Bytes) (words : List Bytes) (v : World) (r : Client)
    → length bytes < bufsize
    → is_same_address (some a) (some r.server_addr) ≡ false
    → parse_message (c_string bytes) 8 ≡ words
    → handle_datagram a bytes v r ≡ receive_from_client words a v r
unfolding handle_datagram ◌>>=◌
dispatched a bytes words v r fits foreign parsed =
    let room : leb bufsize (length bytes) ≡ false = ground arith in rw (room, foreign, parsed) refl

pub addressed :
    (number from text : Bytes) (a : SockaddrIn) (v : World) (r : Client)
    → receive_from_client (packet_words number from r.client_nick ++ text ∷ []) a v r
      ≡ receive_message (packet_words number from r.client_nick ++ text ∷ []) v r
unfolding receive_from_client ◌>>=◌
addressed number from text a v r = rw (same_string_self r.client_nick) refl

known_sender :
    (from : Bytes) (d : Contact) (v : World) (r : Client)
    → find_contact_by_nick from r.contact_list ≡ some d
    → find_sender from v r ≡ ok (some (d, λ c. update_first (match_nick from) (λ _. c)), r)
unfolding find_sender find_contact_by_nick ◌>>=◌
known_sender from d v r known =
    let k : find_first (match_nick from) r.contact_list ≡ some d = known in ground arith

or_false : (old : Bool) → (old || false) ≡ old
or_false true = refl
or_false false = refl

message-taken :
    (old : Bool) (n : ℕ) (number from text : Bytes) (d : Contact) (v : World) (r : Client)
    → n ≤ 1
    → Steady v
    → atoi number ≡ some (pos n)
    → find_contact_by_nick from r.contact_list ≡ some d
    → is_nick_blocked d.nick r.blocked_list ≡ false
    → eq_ℤ (pos n) d.last_pkt_received ≡ old
    → receive_message (packet_words number from r.client_nick ++ text ∷ []) v r
      ≡ ok (tt, received_by old from n d text r)
unfolding receive_message ◌>>=◌
message-taken old n number from text d v r small h read known free fresh =
    let words = packet_words number from r.client_nick ++ text ∷ [] in
    let taken = take_message-shown (pos n) text words d v r refl in
    let acked =
      send_ack-sent n (record d { last_pkt_received = pos n }) v
        (record r {
          contact_list =
              update_first (match_nick from) (λ _. record d { last_pkt_received = pos n })
                r.contact_list;
          shown = if old then r.shown else r.shown ++ (d.nick, text) ∷ [];
        })
        small h in
    rw (known_sender from d v r known, read, taken, fresh, free, or_false old) acked

-- A message from a sender that is known and not blocked is acknowledged under its number, and is
-- shown unless its number is the old one.
pub message-received :
    (old : Bool) (n : ℕ) (from text : Bytes) (a : SockaddrIn) (d : Contact) (v : World) (r : Client)
    → n ≤ 1
    → IsNick from
    → IsNick r.client_nick
    → IsText text
    → Steady v
    → is_same_address (some a) (some r.server_addr) ≡ false
    → find_contact_by_nick from r.contact_list ≡ some d
    → is_nick_blocked d.nick r.blocked_list ≡ false
    → eq_ℤ (pos n) d.last_pkt_received ≡ old
    → handle_datagram a (message n from r.client_nick text) v r
      ≡ ok (tt, received_by old from n d text r)
message-received old n from text a d v r small f t x h foreign known free fresh =
    let parsed = message-words n from r.client_nick text small f t x in
    dispatched a (message n from r.client_nick text) _ v r
      (length-message n from r.client_nick text small f t x) foreign
      (ap (λ b. parse_message b 8) (message-no_null n from r.client_nick text small f t x) ∙ parsed)
    ∙ addressed (decimal n) from text a v r
    ∙ message-taken old n (decimal n) from text d v r small h (atoi-decimal n (omega arith)) known
        free fresh

ack_from_known :
    (n : ℕ) (b : SockaddrIn) (number : Bytes) (c d : Contact) (w : World) (s t : Client)
    → find_contact_by_addr b s.contact_list ≡ some c
    → atoi number ≡ some (pos n)
    → register_ack_message (pos n) c w s ≡ ok (d, t)
    → receive_ack (codes "ACK" ∷ number ∷ codes "OK" ∷ []) b w s
      ≡ ok
          (tt, record t { contact_list = update_first (compare_address b) (λ _. d) t.contact_list })
unfolding receive_ack find_contact_by_addr ◌>>=◌
ack_from_known n b number c d w s t known read registered =
    let k : find_first (compare_address b) s.contact_list ≡ some c = known in ground arith

ack_registered :
    (n : ℕ) (b : SockaddrIn) (number : Bytes) (c d : Contact) (w : World) (s t : Client)
    → find_contact_by_addr b s.contact_list ≡ some c
    → atoi number ≡ some (pos n)
    → register_ack_message (pos n) c w s ≡ ok (d, t)
    → receive_from_client (codes "ACK" ∷ number ∷ codes "OK" ∷ []) b w s
      ≡ ok
          (tt, record t { contact_list = update_first (compare_address b) (λ _. d) t.contact_list })
unfolding receive_from_client same_string
ack_registered n b number c d w s t known read registered =
    ack_from_known n b number c d w s t known read registered

pub ack-dispatched :
    (n : ℕ) (b : SockaddrIn) (c d : Contact) (w : World) (s t : Client)
    → n ≤ 1
    → is_same_address (some b) (some s.server_addr) ≡ false
    → find_contact_by_addr b s.contact_list ≡ some c
    → register_ack_message (pos n) c w s ≡ ok (d, t)
    → handle_datagram b (ack_text n) w s
      ≡ ok
          (tt, record t { contact_list = update_first (compare_address b) (λ _. d) t.contact_list })
ack-dispatched n b c d w s t small foreign known registered =
    dispatched b (ack_text n) _ w s (ack_fits n small) foreign (ack_words n small)
    ∙ ack_registered n b (decimal n) c d w s t known (atoi-decimal n (omega arith)) registered

-- The contact when the oldest message has been acknowledged under the number `n`.
abbrev pub settled : ℕ → Contact → Contact
settled n c = record c { last_ack_received = pos n; message_list = drop_last c.message_list }

pub last-settled :
    (n : ℕ) (c : Contact) (m : Message) (w : World) (s : Client)
    → get_last? c.message_list ≡ some m
    → get_last? (drop_last c.message_list) ≡ none
    → register_ack_message (pos n) c w s ≡ ok (settled n c, s)
unfolding register_ack_message send_next_message_to_contact peek_message pop_message
last-settled n c m w s oldest nothing =
    rw (oldest, register_ack_message, nothing, send_next_message_to_contact) refl

-- The contact and the client when the next message has been sent.
abbrev pub next_sent : ℕ → Contact → Timeval → Contact
next_sent n c now = after_sending (toggle_last_pkt_sent (settled n c)) now

pub next-sent :
    (n : ℕ) (c : Contact) (m next : Message) (w : World) (s : Client) (h : Steady w)
    → get_last? c.message_list ≡ some m
    → get_last? (drop_last c.message_list) ≡ some next
    → length (packet_text s (toggle_last_pkt_sent c) next) < bufsize
    → register_ack_message (pos n) c w s
      ≡ ok (
        next_sent n c (h.time s.calls),
        sent c.addr
            (packet_text s (toggle_last_pkt_sent c) next)
            (record s { calls = suc s.calls }),
      )
unfolding register_ack_message send_next_message_to_contact send_message_to_contact gettimeofday
    peek_message pop_message toggle_last_pkt_sent ◌>>=◌
next-sent n c m next w s h oldest second fits =
    rw
      (
        oldest,
        register_ack_message,
        second,
        send_next_message_to_contact,
        sprintf-ok (packet_text s (toggle_last_pkt_sent c) next) fits,
        h.clock s.calls,
        send_to-sent c.addr (packet_text s (toggle_last_pkt_sent c) next) w
            (record s { calls = suc s.calls }) h,
      )
      refl
