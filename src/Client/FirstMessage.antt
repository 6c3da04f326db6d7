-- ===== src/Client/FirstMessage.antt =====
-- A message to a nick that is no contact yet, and what it does to a client that does not know the
-- sender: both ask the server.
use upush_chat.Base.{
  ℕ, zero, suc, ◌<◌, ◌≡◌, refl, ◌∙◌, true, false, Option, none, some, [], ◌∷◌, Bytes, length,
}
use upush_chat.Int.{pos, negsuc}
use upush_chat.TimeFunctions.{Timeval}
use upush_chat.Common.{bufsize}
use upush_chat.Network.{SockaddrIn}
use upush_chat.Outcome.{ok}
use upush_chat.BlockedNicks.{is_nick_blocked}
use upush_chat.Contacts.{Contact, find_contact_by_nick}
use upush_chat.Client.{World, Client, Act, ◌>>=◌, malloc, allocated}
use upush_chat.Client.ToServer.{lookup_user_on_server}
use upush_chat.Client.Loop.{create_message_list, create_contact, contact_from_lookup, write_to}
use upush_chat.Client.Packets.{message}
use upush_chat.Client.Delivery.{Steady, sent}
use upush_chat.Client.Posted.{sent_first, post-sent}

-- There is memory for all that is allocated.
abbrev pub Roomy : World → Type 0
Roomy w = (i : ℕ) → (w.env i).node_block ≡ true

-- A contact as it is made from a look-up.
abbrev pub new_contact : Bytes → SockaddrIn → Contact
new_contact nick addr = record {
  nick = nick;
  addr = addr;
  message_list = [];
  last_pkt_sent = 1;
  last_ack_received = pos 1;
  last_pkt_received = negsuc 0;
  time_of_last_send = none;
}

allocated-room :
    {A : Type 0} (next : Act (Option A)) (w : World) (s : Client)
    → Roomy w
    → allocated next w s ≡ next w (record s { calls = suc s.calls })
unfolding allocated malloc ◌>>=◌
allocated-room next w s room = rw (room s.calls) refl

abbrev pub after_calls : Client → ℕ → Client
after_calls s zero = s
after_calls s (suc k) = after_calls (record s { calls = suc s.calls }) k

create_message_list-new :
    (w : World) (s : Client) → Roomy w → create_message_list w s ≡ ok (some [], after_calls s 4)
unfolding create_message_list
create_message_list-new w s room =
    allocated-room _ w s room
    ∙ allocated-room _ w (after_calls s 1) room
    ∙ allocated-room _ w (after_calls s 2) room
    ∙ allocated-room _ w (after_calls s 3) room

create_contact-new :
    (nick : Bytes) (addr : SockaddrIn) (w : World) (s : Client)
    → Roomy w
    → create_contact nick addr w s ≡ ok (some (new_contact nick addr), after_calls s 8)
unfolding create_contact ◌>>=◌
create_contact-new nick addr w s room =
    allocated-room _ w s room
    ∙ allocated-room _ w (after_calls s 1) room
    ∙ allocated-room _ w (after_calls s 2) room
    ∙ rw (create_message_list-new w (after_calls s 3) room)
        (allocated-room _ w (after_calls s 7) room)

pub contact_from_lookup-new :
    (nick : Bytes) (addr : SockaddrIn) (w : World) (s : Client)
    → Roomy w
    → contact_from_lookup (some nick) addr w s ≡ ok (new_contact nick addr, after_calls s 8)
unfolding contact_from_lookup ◌>>=◌
contact_from_lookup-new nick addr w s room = rw (create_contact-new nick addr w s room) refl

-- The contact and the client after the first message to the nick.
abbrev pub first_to : Bytes → SockaddrIn → Bytes → Timeval → Contact
first_to nick addr text now = sent_first text (new_contact nick addr) now

pub write_to-new :
    (nick text : Bytes) (addr : SockaddrIn) (w : World) (s u : Client) (h : Steady w)
    → Roomy w
    → is_nick_blocked nick s.blocked_list ≡ false
    → find_contact_by_nick nick s.contact_list ≡ none
    → lookup_user_on_server nick w s ≡ ok (some (some nick, addr), u)
    → length (message 0 u.client_nick nick text) < bufsize
    → write_to nick text w s
      ≡ ok (
        tt,
        sent addr (message 0 u.client_nick nick text) (record u {
          contact_list = first_to nick addr text (h.time (after_calls u 12).calls) ∷ u.contact_list;
          calls = (after_calls u 13).calls;
        }),
      )
unfolding write_to malloc ◌>>=◌
write_to-new nick text addr w s u h room free unknown found fits =
    let made = contact_from_lookup-new nick addr w u room in
    let posted = post-sent text (new_contact nick addr) w (after_calls u 9) h room refl fits in
    rw (free, unknown, write_to, found, made, room (after_calls u 8).calls, posted) refl
