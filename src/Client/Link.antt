-- ===== src/Client/Link.antt =====
-- The packets of two clients that hear each other.
use upush_chat.Base.{
  ℕ, zero, suc, [], ◌≤◌, ◌≡◌, refl, sym, ap, ◌∙◌, subst, Bool, true, false, Option, none, some,
  List, Bytes, All, if◌then◌else◌, ◌==◌,
}
use upush_chat.Int.{pos, eq_ℤ, eq_ℤ_iff}
use upush_chat.TimeFunctions.{Timeval}
use upush_chat.Strings.{same_string}
use upush_chat.Network.{SockaddrIn, Packet, is_same_address}
use upush_chat.Outcome.{Outcome, ok, ◌>>=◌}
use upush_chat.Sequence.{get_last?, drop_last, update_first}
use upush_chat.Sequence.Ends.{
  get_last?-append, All-drop_last, All-get_last?, find_first-true, find_first-update_first,
}
use upush_chat.BlockedNicks.{is_nick_blocked}
use upush_chat.Contacts.{
  Message, Contact, match_nick, compare_address, find_contact_by_nick, find_contact_by_addr,
}
use upush_chat.Server.Requests.{IsNick}
use upush_chat.Client.{World, Client}
use upush_chat.Client.ToClient.{register_ack_message}
use upush_chat.Client.Receive.{handle_datagram}
use upush_chat.Client.Acknowledging.{payloads}
use upush_chat.Client.Packets.{IsText, message, ack_text}
use upush_chat.Client.Delivery.{Steady, received_by, message-received, ack-dispatched}

-- The packet that `sender` sent last, from the address `src`, is read by `receiver` when it is
-- sent to the address `dest` of `receiver`.
unfoldable pub deliver :
    World → (src dest : SockaddrIn) → (sender receiver : Client) → Outcome Client
unfolding is_same_address handle_datagram
deliver v src dest sender receiver = elim (get_last? sender.network) [
  | none ↦ ok receiver
  | some packet ↦
      if is_same_address (some packet.dest) (some dest)
      then handle_datagram src packet.payload v receiver >>= (λ end. ok end.1)
      else ok receiver
]

-- The sender at `a` and the receiver at `b` have contacts for each other, under the addresses and
-- nicks that they have. When a message of the queue is left, the oldest one is the packet that
-- was sent last, under a number that is `old` to the receiver, or new to it. When none is left,
-- the number is that of the message that the receiver had last.
pub record Underway (old : Bool) (a b : SockaddrIn) (s r : Client) (c d : Contact) : Type 0 where
  pub receiver_known : find_contact_by_addr b s.contact_list ≡ some c
  pub sender_known : find_contact_by_nick s.client_nick r.contact_list ≡ some d
  pub same_nick : c.nick ≡ r.client_nick
  pub same_addr : is_same_address (some d.addr) (some a) ≡ true
  pub sender_nick : IsNick s.client_nick
  pub receiver_nick : IsNick r.client_nick
  pub sender_not_server : is_same_address (some a) (some r.server_addr) ≡ false
  pub receiver_not_server : is_same_address (some b) (some s.server_addr) ≡ false
  pub not_blocked : is_nick_blocked d.nick r.blocked_list ≡ false
  pub small : c.last_pkt_sent ≤ 1
  pub texts : All IsText (payloads c.message_list)
  pub on_its_way :
      (x : Bytes)
      → get_last? (payloads c.message_list) ≡ some x
      → (get_last? s.network
          ≡ some
              (record { dest = c.addr; payload = message c.last_pkt_sent s.client_nick c.nick x }))
        × (eq_ℤ (pos c.last_pkt_sent) d.last_pkt_received ≡ old)
  pub idle : payloads c.message_list ≡ [] → eq_ℤ (pos c.last_pkt_sent) d.last_pkt_received ≡ true

-- The receiver has not had the oldest message yet.
abbrev pub Linked : (a b : SockaddrIn) (s r : Client) (c d : Contact) → Type 0
Linked = Underway false

module _ (w v : World) (a b : SockaddrIn) where
  -- The packet that the sender sent last reaches the receiver, and what the receiver sent last
  -- then reaches the sender.
  unfoldable pub exchange : (s r : Client) → Outcome (Client × Client)
  unfolding deliver
  exchange s r = deliver v a b s r >>= (λ r. deliver w b a r s >>= (λ s. ok (s, r)))

  unfoldable pub exchanges : ℕ → (s r : Client) → Outcome (Client × Client)
  unfolding exchange
  exchanges zero s r = ok (s, r)
  exchanges (suc k) s r = exchange s r >>= (λ end. exchanges k end.0 end.1)

-- The receiver's contact for the sender has the number of the message that came last.
abbrev pub heard : ℕ → Contact → Contact
heard n d = record d { last_pkt_received = pos n }

pub delivered :
    (v : World) (src dest : SockaddrIn) (sender receiver end : Client) (p : Packet)
    → get_last? sender.network ≡ some p
    → is_same_address (some p.dest) (some dest) ≡ true
    → handle_datagram src p.payload v receiver ≡ ok (tt, end)
    → deliver v src dest sender receiver ≡ ok end
unfolding deliver
delivered v src dest sender receiver end p there same handled =
    rw (there, deliver, same, handled) refl

pub addressed_contact :
    (b : SockaddrIn) (c : Contact) (cs : List Contact)
    → find_contact_by_addr b cs ≡ some c
    → is_same_address (some c.addr) (some b) ≡ true
unfolding find_contact_by_addr
addressed_contact b c cs e = find_first-true (compare_address b) cs c e

pub find_by_addr-put :
    (b : SockaddrIn) (c e : Contact) (cs : List Contact)
    → find_contact_by_addr b cs ≡ some c
    → is_same_address (some e.addr) (some b) ≡ true
    → find_contact_by_addr b (update_first (compare_address b) (λ _. e) cs) ≡ some e
unfolding find_contact_by_addr
find_by_addr-put b c e cs h same = find_first-update_first (compare_address b) cs c e h same

pub find_by_nick-update :
    (nick : Bytes) (c e : Contact) (cs : List Contact)
    → find_contact_by_nick nick cs ≡ some c
    → e.nick ≡ c.nick
    → find_contact_by_nick nick (update_first (match_nick nick) (λ _. e) cs) ≡ some e
unfolding find_contact_by_nick
find_by_nick-update nick c e cs h same =
    find_first-update_first (match_nick nick) cs c e h
      (ap (λ n. same_string n nick) same ∙ find_first-true (match_nick nick) cs c h)

abbrev pub number_after : ℕ → ℕ
number_after n = if n == 0 then 1 else 0

module _ (w v : World) (hw : Steady w) (hv : Steady v) (old : Bool) (a b : SockaddrIn)
    (s r : Client) (c d : Contact) (x : Bytes) (l : Underway old a b s r c d)
    (oldest : get_last? (payloads c.message_list) ≡ some x) where
  abbrev pub r_end : Client
  r_end = received_by old s.client_nick c.last_pkt_sent d x r

  pub message-delivered : deliver v a b s r ≡ ok r_end
  message-delivered =
      let text = All-get_last? IsText (payloads c.message_list) x oldest l.texts in
      let taken =
        message-received old c.last_pkt_sent s.client_nick x a d v r l.small l.sender_nick
          l.receiver_nick text hv l.sender_not_server l.sender_known l.not_blocked
          (l.on_its_way x oldest).1 in
      delivered v a b s r r_end _ (l.on_its_way x oldest).0
        (addressed_contact b c s.contact_list l.receiver_known)
        (subst
          (λ to.
            handle_datagram a (message c.last_pkt_sent s.client_nick to x) v r ≡ ok (tt, r_end))
          (sym l.same_nick) taken)

  pub ack-delivered :
      (c_end : Contact) (t : Client)
      → register_ack_message (pos c.last_pkt_sent) c w s ≡ ok (c_end, t)
      → deliver w b a r_end s
        ≡ ok (record t {
          contact_list = update_first (compare_address b) (λ _. c_end) t.contact_list;
        })
  ack-delivered c_end t registered =
      delivered w b a r_end s _ (record { dest = d.addr; payload = ack_text c.last_pkt_sent })
        (get_last?-append r.network _) l.same_addr
        (ack-dispatched c.last_pkt_sent b c c_end w s t l.small l.receiver_not_server
          l.receiver_known registered)

  -- What the contact and the client keep when the oldest message has been acknowledged.
  pub still-Linked :
      (q : List Message) (n : ℕ) (last : Option Timeval) (packets : List Packet) (i : ℕ)
      → n ≤ 1
      → payloads q ≡ drop_last (payloads c.message_list)
      → ((y : Bytes)
          → get_last? (payloads q) ≡ some y
          → (get_last? packets
              ≡ some (record { dest = c.addr; payload = message n s.client_nick c.nick y }))
            × (eq_ℤ (pos n) (pos c.last_pkt_sent) ≡ false))
      → (payloads q ≡ [] → n ≡ c.last_pkt_sent)
      → (let c_end : Contact = record c {
        message_list = q;
        last_pkt_sent = n;
        last_ack_received = pos c.last_pkt_sent;
        time_of_last_send = last;
      } in
          Linked a b
            (record s {
              contact_list = update_first (compare_address b) (λ _. c_end) s.contact_list;
              network = packets;
              calls = i;
            })
            r_end
            c_end
            (record d { last_pkt_received = pos c.last_pkt_sent }))
  still-Linked q n last packets i small rest next nothing = record {
    receiver_known =
        find_by_addr-put b c _ s.contact_list l.receiver_known
          (addressed_contact b c s.contact_list l.receiver_known);
    sender_known = find_by_nick-update s.client_nick d _ r.contact_list l.sender_known refl;
    same_nick = l.same_nick;
    same_addr = l.same_addr;
    sender_nick = l.sender_nick;
    receiver_nick = l.receiver_nick;
    sender_not_server = l.sender_not_server;
    receiver_not_server = l.receiver_not_server;
    not_blocked = l.not_blocked;
    small = small;
    texts = subst (All IsText) (sym rest) (All-drop_last IsText (payloads c.message_list) l.texts);
    on_its_way = next;
    idle = λ e. (eq_ℤ_iff (pos n) (pos c.last_pkt_sent)).1 (ap pos (nothing e));
  }
