-- ===== src/Tests/OfContact.antt =====
-- Ida writes to Kari for the first time, and each looks the other up.
use upush_chat.Base.{suc, ◌≡◌, refl, [], ◌∷◌, ◌++◌, arith, Bytes, codes}
use upush_chat.Strings.{decimal, same_string, atoi, c_string, contains_string}
use upush_chat.Common.{parse_message}
use upush_chat.Network.{is_same_address, send_packet, set_values_in_IPv4_addr}
use upush_chat.Outcome.{ok, sprintf}
use upush_chat.BlockedNicks.{is_nick_blocked}
use upush_chat.Contacts.{Contact, find_contact_by_nick}
use upush_chat.Client.{World, Client, datagram, ◌>>=◌, send_to, next_message_number_server}
use upush_chat.Client.ToServer.{
  listen, read_answer, send_blocking_lookup_message, lookup_attempts, lookup_user_on_server,
}
use upush_chat.Client.Loop.{write_to}
use upush_chat.Client.Link.{Linked, exchange}
use upush_chat.Client.Acquainted.{Strangers, first_contact}
use upush_chat.Client.Delivery.{Steady}
use upush_chat.Tests.OfServer.{net, at, from}
use upush_chat.Tests.OfClient.{client, world}
use upush_chat.Tests.OfExchange.{Ida-IsNick, Kari-IsNick}

abbrev ida : Client
ida = record client { contact_list = [] }

abbrev kari : Client
kari = record client { client_nick = codes "Kari"; contact_list = [] }

-- The answers of the server.
abbrev ida_hears : World
ida_hears = record world {
  waits = λ i. datagram client.server_addr (codes "ACK 0 NICK Kari IP 10.0.0.2 PORT 5001") ∷ [];
}

abbrev kari_hears : World
kari_hears = record world {
  waits = λ i. datagram client.server_addr (codes "ACK 0 NICK Ida IP 10.0.0.1 PORT 5000") ∷ [];
}

ida_hears-Steady : Steady ida_hears
ida_hears-Steady = record {
  not_lost = λ i. refl;
  sends = λ i. refl;
  time = λ i. at 101;
  clock = λ i. refl;
}

kari_hears-Steady : Steady kari_hears
kari_hears-Steady = record {
  not_lost = λ i. refl;
  sends = λ i. refl;
  time = λ i. at 101;
  clock = λ i. refl;
}

abbrev asked : Bytes → Client → Client
asked request s = record s {
  last_ack_received = 1;
  network = s.network ++ record { dest = s.server_addr; payload = request } ∷ [];
  calls = suc s.calls;
}

strangers :
    Strangers ida_hears kari_hears
      (from 1 5000)
      (from 2 5001)
      ida
      kari
      (asked (codes "PKT 0 LOOKUP Kari") ida)
      (asked (codes "PKT 0 LOOKUP Ida") kari)
unfolding find_contact_by_nick is_nick_blocked is_same_address same_string lookup_user_on_server
    lookup_attempts send_blocking_lookup_message listen read_answer send_to send_packet sprintf
    contains_string c_string parse_message atoi decimal set_values_in_IPv4_addr
    next_message_number_server net ◌>>=◌
strangers = record {
  sender_nick = Ida-IsNick;
  receiver_nick = Kari-IsNick;
  receiver_unknown = refl;
  sender_unknown = refl;
  receiver_free = refl;
  sender_free = refl;
  sender_not_server = refl;
  receiver_not_server = refl;
  receiver_found = refl;
  sender_found = refl;
}

first_contact_example :
    (s_sent s_end r_end : Client) × (c d : Contact) × (write_to
        (codes "Kari")
        (codes "hei")
        ida_hears
        ida
      ≡ ok (tt, s_sent))
    × (exchange ida_hears kari_hears (from 1 5000) (from 2 5001) s_sent kari ≡ ok (s_end, r_end))
    × (r_end.shown ≡ (codes "Ida", codes "hei") ∷ [])
    × Linked (from 1 5000) (from 2 5001) s_end r_end c d
    × (c.message_list ≡ [])
    × (d.nick ≡ codes "Ida")
first_contact_example =
    first_contact ida_hears kari_hears ida_hears-Steady kari_hears-Steady (λ i. refl) (λ i. refl)
      (from 1 5000) (from 2 5001) ida kari (asked (codes "PKT 0 LOOKUP Kari") ida)
      (asked (codes "PKT 0 LOOKUP Ida") kari) strangers (codes "hei")
      (λ e. cc, omega arith, omega arith)
