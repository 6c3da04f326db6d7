-- ===== src/Client/FirstContact.antt =====
-- Two clients that do not know each other: the first message, and its acknowledgement.
use upush_chat.Base.{
  if◌then◌else◌, ℕ, ◌≤◌, ◌≡◌, refl, ap, ◌∙◌, false, Option, none, some, List, [], ◌∷◌, ◌++◌, arith,
  Bytes,
}
use upush_chat.Int.{pos, negsuc, eq_ℤ}
use upush_chat.Strings.{decimal, atoi}
use upush_chat.Strings.Numbers.{atoi-decimal}
use upush_chat.Common.{parse_message}
use upush_chat.Network.{SockaddrIn, is_same_address}
use upush_chat.Outcome.{ok}
use upush_chat.Sequence.{find_first}
use upush_chat.BlockedNicks.{is_nick_blocked}
use upush_chat.Contacts.{Contact, match_nick, find_contact_by_nick}
use upush_chat.Server.Requests.{IsNick}
use upush_chat.Client.{World, Client, Act, pure, ◌>>=◌, malloc}
use upush_chat.Client.ToServer.{lookup_user_on_server}
use upush_chat.Client.Loop.{contact_from_lookup}
use upush_chat.Client.Receive.{handle_datagram, find_sender, receive_message}
use upush_chat.Client.Receipt.{take_message-shown}
use upush_chat.Client.Packets.{
  IsText, message, message-no_null, length-message, message-words, packet_words, ack_text,
}
use upush_chat.Client.Delivery.{Steady, sent, send_ack-sent, dispatched, addressed}
use upush_chat.Client.Link.{heard}
use upush_chat.Client.FirstMessage.{Roomy, new_contact, after_calls, contact_from_lookup-new}

-- A sender that is no contact is looked up.
abbrev looked_up_sender : Bytes → Act (Option (Contact × (Contact → List Contact → List Contact)))
looked_up_sender from = do
  user ← lookup_user_on_server from
  elim user [
    | none ↦ pure none
    | some (tmp_nick_buf, addr) ↦ do
      sender ← contact_from_lookup tmp_nick_buf addr
      block ← malloc
      pure (some (sender, λ c cs. if block then c ∷ cs else cs))
  ]

looked_up_sender-new :
    (from : Bytes) (a : SockaddrIn) (v : World) (r q : Client)
    → Roomy v
    → lookup_user_on_server from v r ≡ ok (some (some from, a), q)
    → looked_up_sender from v r ≡ ok (some (new_contact from a, λ c cs. c ∷ cs), after_calls q 9)
unfolding malloc ◌>>=◌
looked_up_sender-new from a v r q room found =
    rw (found, contact_from_lookup-new from a v q room, room (after_calls q 8).calls) refl

find_sender-new :
    (from : Bytes) (a : SockaddrIn) (v : World) (r q : Client)
    → Roomy v
    → find_contact_by_nick from r.contact_list ≡ none
    → lookup_user_on_server from v r ≡ ok (some (some from, a), q)
    → find_sender from v r ≡ ok (some (new_contact from a, λ c cs. c ∷ cs), after_calls q 9)
unfolding find_sender find_contact_by_nick ◌>>=◌
find_sender-new from a v r q room unknown found =
    let nobody : find_first (match_nick from) r.contact_list ≡ none = unknown in
    let asked = looked_up_sender-new from a v r q room found in ground arith

-- What the first message of a sender does to a client that has become `q` in the look-up of it.
abbrev pub received_new : Bytes → ℕ → SockaddrIn → Bytes → Client → Client
received_new from n a text q = sent a (ack_text n) (record q {
  contact_list = heard n (new_contact from a) ∷ q.contact_list;
  shown = q.shown ++ (from, text) ∷ [];
  calls = (after_calls q 9).calls;
})

message_taken-new :
    (n : ℕ) (number from text : Bytes) (a : SockaddrIn) (v : World) (r q : Client)
    → n ≤ 1
    → Steady v
    → Roomy v
    → atoi number ≡ some (pos n)
    → find_contact_by_nick from r.contact_list ≡ none
    → lookup_user_on_server from v r ≡ ok (some (some from, a), q)
    → is_nick_blocked from q.blocked_list ≡ false
    → receive_message (packet_words number from r.client_nick ++ text ∷ []) v r
      ≡ ok (tt, received_new from n a text q)
unfolding receive_message ◌>>=◌
message_taken-new n number from text a v r q small h room read unknown found free =
    let words = packet_words number from r.client_nick ++ text ∷ [] in
    let taken =
      take_message-shown (pos n) text words (new_contact from a) v (after_calls q 9) refl in
    let fresh : eq_ℤ (pos n) (negsuc 0) ≡ false = ground arith in
    let acked =
      send_ack-sent n (heard n (new_contact from a)) v
        (record q {
          contact_list = heard n (new_contact from a) ∷ q.contact_list;
          shown = q.shown ++ (from, text) ∷ [];
          calls = (after_calls q 9).calls;
        })
        small h in
    rw (find_sender-new from a v r q room unknown found, read, taken, fresh, free) acked

-- A message from a nick that is no contact, and that the server knows, is shown and acknowledged,
-- and its sender becomes a contact.
pub first-received :
    (n : ℕ) (from text : Bytes) (a : SockaddrIn) (v : World) (r q : Client)
    → n ≤ 1
    → IsNick from
    → IsNick r.client_nick
    → IsText text
    → Steady v
    → Roomy v
    → is_same_address (some a) (some r.server_addr) ≡ false
    → find_contact_by_nick from r.contact_list ≡ none
    → lookup_user_on_server from v r ≡ ok (some (some from, a), q)
    → is_nick_blocked from q.blocked_list ≡ false
    → handle_datagram a (message n from r.client_nick text) v r
      ≡ ok (tt, received_new from n a text q)
first-received n from text a v r q small f t x h room foreign unknown found free =
    let parsed = message-words n from r.client_nick text small f t x in
    dispatched a (message n from r.client_nick text) _ v r
      (length-message n from r.client_nick text small f t x) foreign
      (ap (λ b. parse_message b 8) (message-no_null n from r.client_nick text small f t x) ∙ parsed)
    ∙ addressed (decimal n) from text a v r
    ∙ message_taken-new n (decimal n) from text a v r q small h room (atoi-decimal n (omega arith))
        unknown found free
