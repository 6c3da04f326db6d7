-- ===== src/Client/Sending.antt =====
-- Sending, resending and looking up keep a contact in order.
use upush_chat.Base.{
  ap, ℕ, zero, suc, ◌≤◌, ◌<◌, ◌≡◌, refl, false, not, Option, none, some, List, [], ◌∷◌, arith,
  Bytes, codes, leb, All, inl, inr, length, ◌==◌,
}
use upush_chat.Int.{ℤ}
use upush_chat.Strings.{c_string, contains_string}
use upush_chat.Common.{bufsize}
use upush_chat.Network.{set_values_in_IPv4_addr, SockaddrIn, is_same_address}
use upush_chat.Outcome.{Outcome, or_fault}
use upush_chat.Sequence.{get_last?, drop_last}
use upush_chat.Contacts.{Message, Contact, peek_message, pop_message, toggle_last_pkt_sent}
use upush_chat.Client.{Client, Act, pure, ◌>>=◌, Wait}
use upush_chat.Client.Queue.{
  IsContact, IsQueue, IsNew, update_last-IsQueue, drop_last-IsNew, All_new-IsQueue,
  All-new-get_last?, IsQueue-get_last?, get_last?-none, toggle-number,
}
use upush_chat.Client.Keeps.{
  InOrder, Keeps, Any, >>=-Keeps, if-Keeps, lift-Keeps, option-Keeps, pure-Keeps, quit-Keeps,
  undefined-Keeps, lift_call-Keeps, get-Keeps, get_net-Keeps, get_waits-Keeps, modify-Keeps,
  gettimeofday-Keeps, send_to-Keeps,
}
use upush_chat.Client.ToServer.{
  send_reg_msg_to_server, LookupResult, found_user, no_user, no_answer, listen, note_number,
  read_answer, send_blocking_lookup_message, lookup_attempts, lookup_user_on_server,
}
use upush_chat.Client.ToClient.{
  send_message_to_contact, send_next_message_to_contact, drop_oldest, register_ack_message,
  resend_message_to_contact,
}

pub send_reg-Keeps : Keeps send_reg_msg_to_server Any
unfolding send_reg_msg_to_server
send_reg-Keeps = >>=-Keeps get-Keeps λ s _. >>=-Keeps (lift_call-Keeps _) λ buf _.
    >>=-Keeps (send_to-Keeps _ _) λ sent _. if-Keeps _ (λ _. pure-Keeps _ tt) (λ _. quit-Keeps)

listen-Keeps : (ws : List Wait) (server : SockaddrIn) → Keeps (listen ws server) Any
unfolding listen
listen-Keeps [] server = pure-Keeps _ tt
listen-Keeps (Wait.select_fails ∷ ws) server = quit-Keeps
listen-Keeps (Wait.recvfrom_fails ∷ ws) server = pure-Keeps _ tt
listen-Keeps (Wait.datagram src bytes ∷ ws) server =
    let answer : Keeps (pure (some (c_string bytes))) Any = pure-Keeps _ tt in
    let from_server =
      if-Keeps (contains_string (c_string bytes) (codes "OK")) (λ _. listen-Keeps ws server)
        (λ _. answer) in
    let heard =
      if-Keeps (is_same_address (some src) (some server)) (λ _. from_server)
        (λ _. listen-Keeps ws server) in
    if-Keeps (leb bufsize (length bytes)) (λ _. undefined-Keeps) (λ _. heard)

note_number-InOrder : (inc_buf : Bytes) (s : Client) → InOrder s → InOrder (note_number inc_buf s)
note_number-InOrder inc_buf s i = ground arith

read_answer-Keeps : (inc_buf : Bytes) → Keeps (read_answer inc_buf) Any
unfolding read_answer
read_answer-Keeps inc_buf = >>=-Keeps (modify-Keeps _ (note_number-InOrder inc_buf)) λ _ _.
    if-Keeps (contains_string inc_buf (codes "NOT FOUND")) (λ _. pure-Keeps _ tt)
      λ _. >>=-Keeps (lift_call-Keeps _) λ nick _. >>=-Keeps (lift_call-Keeps _) λ ip _.
        >>=-Keeps (lift_call-Keeps _) λ text _. >>=-Keeps (lift_call-Keeps _) λ port _.
          >>=-Keeps get_net-Keeps λ net _.
            option-Keeps (set_values_in_IPv4_addr net (some ip) port) (λ _. pure-Keeps _ tt)
              (λ addr _. pure-Keeps _ tt)

blocking_lookup-Keeps : (message : Bytes) → Keeps (send_blocking_lookup_message message) Any
unfolding send_blocking_lookup_message
blocking_lookup-Keeps message = >>=-Keeps get-Keeps λ s _. >>=-Keeps (send_to-Keeps _ _) λ sent _.
    if-Keeps (not sent) (λ _. pure-Keeps _ tt)
      λ _. >>=-Keeps get_waits-Keeps λ ws _. >>=-Keeps (listen-Keeps ws s.server_addr) λ answer _.
        option-Keeps answer (λ _. pure-Keeps _ tt) (λ inc_buf _. read_answer-Keeps inc_buf)

result-Keeps :
    {A : Type 0} {Q : A → Type 0} (r : LookupResult) {x y : Act A}
    {f : Option Bytes → SockaddrIn → Act A}
    → Keeps x Q
    → ((nick : Option Bytes) (addr : SockaddrIn) → Keeps (f nick addr) Q)
    → Keeps y Q
    → Keeps (elim r [ no_user ↦ x | found_user nick addr ↦ f nick addr | no_answer ↦ y ]) Q
result-Keeps no_user h k l = h
result-Keeps (found_user nick addr) h k l = k nick addr
result-Keeps no_answer h k l = l

lookup_attempts-Keeps : (k : ℕ) (out_buf : Bytes) → Keeps (lookup_attempts k out_buf) Any
unfolding lookup_attempts
lookup_attempts-Keeps zero out_buf = quit-Keeps
lookup_attempts-Keeps (suc k) out_buf = >>=-Keeps (blocking_lookup-Keeps out_buf) λ ret _.
    result-Keeps ret (pure-Keeps _ tt) (λ nick addr. pure-Keeps _ tt)
      (lookup_attempts-Keeps k out_buf)

pub lookup-Keeps : (target_nick : Bytes) → Keeps (lookup_user_on_server target_nick) Any
unfolding lookup_user_on_server
lookup-Keeps target_nick =
    >>=-Keeps get-Keeps
      λ s _. >>=-Keeps (lift_call-Keeps _) λ out_buf _. lookup_attempts-Keeps 3 out_buf

-- After its oldest message was sent, a contact is in order.
pub send-Keeps :
    (c : Contact) (m : Message)
    → c.last_pkt_sent ≤ 1
    → IsQueue c.message_list
    → get_last? c.message_list ≡ some m
    → m.attempts < 4
    → Keeps (send_message_to_contact c m) IsContact
unfolding send_message_to_contact
send-Keeps c m n q e lt = >>=-Keeps get-Keeps λ s _. >>=-Keeps (lift_call-Keeps _) λ buf _.
    >>=-Keeps gettimeofday-Keeps λ now _. >>=-Keeps (send_to-Keeps _ _) λ sent _.
      if-Keeps sent
        (λ _. pure-Keeps _ (record {
          number = n;
          queue = update_last-IsQueue c.message_list m q e lt;
          sent = inr refl;
        }))
        (λ _. quit-Keeps)

-- When none of its messages was sent yet, the next is sent under the other number.
pub send_next-Keeps :
    (c : Contact)
    → c.last_pkt_sent ≤ 1
    → All IsNew c.message_list
    → Keeps (send_next_message_to_contact c) IsContact
unfolding send_next_message_to_contact
send_next-Keeps c n new =
    option-Keeps (peek_message c.message_list)
      (λ e. pure-Keeps c (record {
        number = n;
        queue = All_new-IsQueue c.message_list new;
        sent = inl (get_last?-none c.message_list e);
      }))
      (λ m e.
        send-Keeps (toggle_last_pkt_sent c) m (toggle-number c) (All_new-IsQueue c.message_list new)
          e (rw (All-new-get_last? c.message_list m new e) (omega arith)))

pub register_ack-Keeps :
    (n : ℤ) (c : Contact) → IsContact c → Keeps (register_ack_message n c) IsContact
unfolding register_ack_message
register_ack-Keeps n c h =
    option-Keeps (peek_message c.message_list) (λ _. undefined-Keeps)
      λ m _.
        send_next-Keeps (drop_oldest (record c { last_ack_received = n })) h.number
          (drop_last-IsNew c.message_list h.queue)

-- What is left of a contact that may have been given up.
abbrev pub Kept : Option Contact → Type 0
Kept none = Unit
Kept (some c) = IsContact c

pub or_fault-ok : {A : Type 0} (o : Option A) (a : A) → or_fault o ≡ Outcome.ok a → o ≡ some a
or_fault-ok none a e = cc
or_fault-ok (some b) a e = ground arith

send_some-Keeps :
    (c : Contact) (m : Message)
    → IsContact c
    → get_last? c.message_list ≡ some m
    → (m.attempts == 4) ≡ false
    → Keeps (do d ← send_message_to_contact c m; pure (some d)) Kept
send_some-Keeps c m h e ne =
    let few : m.attempts < 4 = ground (arith, IsQueue-get_last? c.message_list m h.queue e) in
    >>=-Keeps (send-Keeps c m h.number h.queue e few) λ d k. pure-Keeps (some d) k

pub drop_oldest-IsContact : (c : Contact) → IsContact c → IsContact (drop_oldest c)
unfolding pop_message
drop_oldest-IsContact c h = record {
  number = h.number;
  queue = All_new-IsQueue _ (drop_last-IsNew c.message_list h.queue);
  sent = elim h.sent [ inl e ↦ inl (ap drop_last e) | inr e ↦ inr e ];
}

pub resend-Keeps : (c : Contact) → IsContact c → Keeps (resend_message_to_contact c) Kept
unfolding resend_message_to_contact
resend-Keeps c h =
    >>=-Keeps
      (lift-Keeps {Q = λ m. get_last? c.message_list ≡ some m}
        (or_fault (peek_message c.message_list)) (λ m e. or_fault-ok _ m e))
      λ m e.
        if-Keeps (m.attempts == 4) (λ _. pure-Keeps none tt)
          λ ne.
            if-Keeps (m.attempts == 2)
              (λ _. >>=-Keeps (lookup-Keeps c.nick) λ user _.
                option-Keeps user
                  (λ _. pure-Keeps (some (drop_oldest c)) (drop_oldest-IsContact c h))
                  (λ found _.
                    send_some-Keeps (record c { addr = found.1 }) m
                      (record { number = h.number; queue = h.queue; sent = h.sent }) e ne))
              (λ _. send_some-Keeps c m h e ne)
