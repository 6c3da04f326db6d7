-- ===== src/Client/Acquainted.antt =====
-- The first message between two clients that do not know each other, and its acknowledgement.
use upush_chat.Base.{◌≡◌, refl, sym, ap, false, none, some, [], ◌∷◌, ◌++◌, arith, Bytes}
use upush_chat.Strings.Laws.{same_string_self}
use upush_chat.Network.{SockaddrIn, is_same_address}
use upush_chat.Network.Laws.{is_same_address_self}
use upush_chat.Outcome.{ok}
use upush_chat.Sequence.{update_first}
use upush_chat.Sequence.Ends.{get_last?-append}
use upush_chat.BlockedNicks.{is_nick_blocked}
use upush_chat.Contacts.{Contact, compare_address, find_contact_by_nick, find_contact_by_addr}
use upush_chat.Server.Requests.{IsNick}
use upush_chat.Client.{World, Client}
use upush_chat.Client.ToServer.{lookup_user_on_server}
use upush_chat.Client.Loop.{write_to}
use upush_chat.Client.Packets.{IsText, message, length-message, ack_text}
use upush_chat.Client.Leaves.{Same, lookup_user_on_server-Leaves}
use upush_chat.Client.Delivery.{Steady, sent, settled, last-settled, ack-dispatched}
use upush_chat.Client.Link.{Linked, deliver, delivered, exchange, heard, find_by_addr-put}
use upush_chat.Client.FirstMessage.{Roomy, new_contact, after_calls, first_to, write_to-new}
use upush_chat.Client.FirstContact.{received_new, first-received}

-- The sender `s` at `a` and the receiver `r` at `b` have no contact for each other, and do not
-- block each other. Asked for the other's nick, the server tells each where the other is; they are
-- `u` and `q` after the look-ups.
pub record Strangers (w v : World) (a b : SockaddrIn) (s r u q : Client) : Type 0 where
  pub sender_nick : IsNick s.client_nick
  pub receiver_nick : IsNick r.client_nick
  pub receiver_unknown : find_contact_by_nick r.client_nick s.contact_list ≡ none
  pub sender_unknown : find_contact_by_nick s.client_nick r.contact_list ≡ none
  pub receiver_free : is_nick_blocked r.client_nick s.blocked_list ≡ false
  pub sender_free : is_nick_blocked s.client_nick r.blocked_list ≡ false
  pub sender_not_server : is_same_address (some a) (some r.server_addr) ≡ false
  pub receiver_not_server : is_same_address (some b) (some s.server_addr) ≡ false
  pub receiver_found :
      lookup_user_on_server r.client_nick w s ≡ ok (some (some r.client_nick, b), u)
  pub sender_found : lookup_user_on_server s.client_nick v r ≡ ok (some (some s.client_nick, a), q)

module _ (w v : World) (hw : Steady w) (hv : Steady v) (room_w : Roomy w) (room_v : Roomy v)
    (a b : SockaddrIn) (s r u q : Client) (h : Strangers w v a b s r u q) (text : Bytes)
    (x : IsText text) where
  sender-Same : Same s u
  sender-Same = (lookup_user_on_server-Leaves r.client_nick).holds w s u _ h.receiver_found

  receiver-Same : Same r q
  receiver-Same = (lookup_user_on_server-Leaves s.client_nick).holds v r q _ h.sender_found

  abbrev c_sent : Contact
  c_sent = first_to r.client_nick b text (hw.time (after_calls u 12).calls)

  abbrev s_sent : Client
  s_sent =
      sent b (message 0 u.client_nick r.client_nick text)
        (record u { contact_list = c_sent ∷ u.contact_list; calls = (after_calls u 13).calls })

  abbrev r_end : Client
  r_end = received_new s.client_nick 0 a text q

  abbrev s_end : Client
  s_end = record s_sent {
    contact_list = update_first (compare_address b) (λ _. settled 0 c_sent) s_sent.contact_list;
  }

  first-sent : write_to r.client_nick text w s ≡ ok (tt, s_sent)
  first-sent =
      write_to-new r.client_nick text b w s u hw room_w h.receiver_free h.receiver_unknown
        h.receiver_found
        (length-message 0 u.client_nick r.client_nick text (omega arith)
          (rw sender-Same.nick h.sender_nick) h.receiver_nick x)

  c_sent-known : find_contact_by_addr b s_sent.contact_list ≡ some c_sent
  unfolding find_contact_by_addr
  c_sent-known = rw (is_same_address_self b) refl

  first-arrives : deliver v a b s_sent r ≡ ok r_end
  first-arrives =
      let arrives =
        first-received 0 s.client_nick text a v r q (omega arith) h.sender_nick h.receiver_nick x hv
          room_v h.sender_not_server h.sender_unknown h.sender_found
          (rw receiver-Same.blocked h.sender_free) in
      delivered v a b s_sent r r_end
        (record { dest = b; payload = message 0 u.client_nick r.client_nick text })
        (get_last?-append u.network _) (is_same_address_self b) (rw sender-Same.nick arrives)

  ack-arrives : deliver w b a r_end s_sent ≡ ok s_end
  ack-arrives =
      delivered w b a r_end s_sent s_end (record { dest = a; payload = ack_text 0 })
        (get_last?-append q.network _) (is_same_address_self a)
        (ack-dispatched 0 b c_sent (settled 0 c_sent) w s_sent s_sent (omega arith)
          (rw sender-Same.server h.receiver_not_server) c_sent-known
          (last-settled 0 c_sent (record { payload = text; attempts = 1 }) w s_sent refl refl))

  now-Linked : Linked a b s_end r_end (settled 0 c_sent) (heard 0 (new_contact s.client_nick a))
  unfolding find_contact_by_nick
  now-Linked = record {
    receiver_known =
        find_by_addr-put b c_sent (settled 0 c_sent) s_sent.contact_list c_sent-known
          (is_same_address_self b);
    sender_known = rw (sender-Same.nick, same_string_self s.client_nick) refl;
    same_nick = sym receiver-Same.nick;
    same_addr = is_same_address_self a;
    sender_nick = rw sender-Same.nick h.sender_nick;
    receiver_nick = rw receiver-Same.nick h.receiver_nick;
    sender_not_server = rw receiver-Same.server h.sender_not_server;
    receiver_not_server = rw sender-Same.server h.receiver_not_server;
    not_blocked = rw receiver-Same.blocked h.sender_free;
    small = omega arith;
    texts = tt;
    on_its_way = λ y e. absurd (cc);
    idle = λ e. refl;
  }

  exchange-first : exchange w v a b s_sent r ≡ ok (s_end, r_end)
  unfolding exchange
  exchange-first = rw (first-arrives, ack-arrives) refl

  -- Two clients with valid nicks have no contact for each other, neither blocks the other, neither
  -- address is that of the other's server, and the look-up of each returns the address of the other;
  -- every call outside the programs succeeds and no packet of theirs is lost. When a text that a
  -- client accepts is typed for the other's nick, the message that this sends is shown by the other
  -- under the sender's nick, and its acknowledgement empties the queue; the two then have contacts
  -- for each other as the theorems on their rounds want them, and no message is waiting.
  pub first_contact :
      (s_sent s_end r_end : Client) × (c d : Contact) × (write_to r.client_nick text w s
        ≡ ok (tt, s_sent))
      × (exchange w v a b s_sent r ≡ ok (s_end, r_end))
      × (r_end.shown ≡ r.shown ++ (s.client_nick, text) ∷ [])
      × Linked a b s_end r_end c d
      × (c.message_list ≡ [])
      × (d.nick ≡ s.client_nick)
  first_contact = (
    s_sent,
    s_end,
    r_end,
    settled 0 c_sent,
    heard 0 (new_contact s.client_nick a),
    first-sent,
    exchange-first,
    ap (λ l. l ++ (s.client_nick, text) ∷ []) receiver-Same.shown,
    now-Linked,
    refl,
    refl,
  )
