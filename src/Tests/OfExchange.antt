-- ===== src/Tests/OfExchange.antt =====
-- Two clients that write to each other, and a client that looks up another.
use upush_chat.Base.{Bytes, suc, ◌≡◌, refl, ap, false, some, [], ◌∷◌, ◌++◌, arith, codes, inl}
use upush_chat.Int.{◌-ℤ◌}
use upush_chat.Strings.{same_string, decimal, contains_string}
use upush_chat.Network.{is_same_address, get_ip_and_port}
use upush_chat.Outcome.{ok}
use upush_chat.BlockedNicks.{is_nick_blocked}
use upush_chat.Contacts.{Contact, find_contact_by_addr, find_contact_by_nick}
use upush_chat.Server.{Server, Event, round, found}
use upush_chat.Server.Requests.{IsNick, IsNumber}
use upush_chat.Client.{World, Client, datagram, next_message_number_server}
use upush_chat.Client.Delivery.{Steady}
use upush_chat.Client.Packets.{message}
use upush_chat.Client.Link.{Linked}
use upush_chat.Client.ToServer.{lookup_user_on_server}
use upush_chat.Client.LookUp.{registered-lookup, next_number}
use upush_chat.Client.Heartbeat.{heartbeat-acknowledged}
use upush_chat.Client.ToServer.{send_reg_msg_to_server}
use upush_chat.Client.Receive.{handle_datagram}
use upush_chat.Server.Clients.{find}
use upush_chat.Sequence.{get_last?}
use upush_chat.Tests.OfServer.{ida, server, net, at, env_at, from, env_at-Works}
use upush_chat.Tests.OfClient.{kari, client, world}

-- Ida writes two messages to Kari, and the first is underway.
abbrev pub kari_waits : Contact
kari_waits = record kari {
  message_list =
      record { payload = codes "takk"; attempts = 0 }
      ∷ record { payload = codes "hei"; attempts = 1 }
      ∷ [];
}

abbrev pub sender : Client
sender = record client {
  contact_list = kari_waits ∷ [];
  network = record { dest = from 1 5001; payload = codes "PKT 0 FROM Ida TO Kari MSG hei" } ∷ [];
}

abbrev pub ida_known : Contact
ida_known = record kari { nick = codes "Ida"; addr = from 1 5000; message_list = [] }

abbrev pub receiver : Client
receiver = record client { client_nick = codes "Kari"; contact_list = ida_known ∷ [] }

pub world-Steady : Steady world
world-Steady = record {
  not_lost = λ i. refl;
  sends = λ i. refl;
  time = λ i. at 101;
  clock = λ i. refl;
}

pub Ida-IsNick : IsNick (codes "Ida")
Ida-IsNick = record {
  ne_nil = λ e. cc;
  short = omega arith;
  chars = omega arith;
  no_null = omega arith;
}

pub Kari-IsNick : IsNick (codes "Kari")
Kari-IsNick = record {
  ne_nil = λ e. cc;
  short = omega arith;
  chars = omega arith;
  no_null = omega arith;
}

pub both-Linked : Linked (from 1 5000) (from 1 5001) sender receiver kari_waits ida_known
unfolding find_contact_by_addr find_contact_by_nick is_same_address is_nick_blocked same_string
    decimal
both-Linked = record {
  receiver_known = refl;
  sender_known = refl;
  same_nick = refl;
  same_addr = refl;
  sender_nick = Ida-IsNick;
  receiver_nick = Kari-IsNick;
  sender_not_server = refl;
  receiver_not_server = refl;
  not_blocked = refl;
  small = omega arith;
  texts = ((λ e. cc, omega arith, omega arith), ((λ e. cc, omega arith, omega arith), tt));
  on_its_way = λ x e.
      let same : codes "hei" ≡ x = cc in
      (
        ap
            (λ y.
              some
                (record { dest = from 1 5001; payload = message 0 (codes "Ida") (codes "Kari") y }))
            same,
        refl,
      );
  idle = λ e. absurd (cc);
}

-- Adam registers, and Ida looks him up.
abbrev empty : Server
empty = record { client_list = []; network = [] }

abbrev hears : World
hears = record world {
  waits = λ i.
      datagram (from 1 5001) (codes "PKT 0 FROM Kari TO Ida MSG hei")
      ∷ datagram (from 2 2000) (codes "ACK 0 NICK Adam IP 10.0.0.2 PORT 5001")
      ∷ [];
}

one : IsNumber (codes "1")
one = record { ne_nil = λ e. cc; digits = omega arith }

Adam-IsNick : IsNick (codes "Adam")
Adam-IsNick = record {
  ne_nil = λ e. cc;
  short = omega arith;
  chars = omega arith;
  no_null = omega arith;
}

heard :
    hears.waits (suc client.calls)
    ≡ (datagram (from 1 5001) (codes "PKT 0 FROM Kari TO Ida MSG hei") ∷ [])
      ++ datagram client.server_addr
          (found (next_number client) (codes "Adam") (codes "10.0.0.2") 5001)
        ∷ []
unfolding decimal next_message_number_server
heard = refl

Adam-address : get_ip_and_port net (from 2 5001) ≡ some (codes "10.0.0.2", 5001)
unfolding get_ip_and_port net
Adam-address = refl

no_ok : contains_string (codes "Adam") (codes "OK") ≡ false
unfolding contains_string
no_ok = refl

foreign : is_same_address (some (from 1 5001)) (some client.server_addr) ≡ false
unfolding is_same_address
foreign = refl

registered-lookup_example :
    (server1 : Server) × (server2 : Server) × (t : Client) × (round net
        (env_at 120)
        (Event.datagram (from 2 5001) (codes "PKT 1 REG Adam"))
        empty
      ≡ ok server1)
    × (round net (env_at 140) (Event.datagram (from 1 5000) (codes "PKT 0 LOOKUP Adam")) server1
        ≡ ok server2)
    × (server2.network
        ≡ record { dest = from 2 5001; payload = codes "ACK 1 OK" }
          ∷ record { dest = from 1 5000; payload = codes "ACK 0 NICK Adam IP 10.0.0.2 PORT 5001" }
          ∷ [])
    × (lookup_user_on_server (codes "Adam") hears client
        ≡ ok (some (some (codes "Adam"), from 2 5001), t))
    × (t.network ≡ record { dest = client.server_addr; payload = codes "PKT 0 LOOKUP Adam" } ∷ [])
unfolding decimal ◌-ℤ◌ net next_message_number_server
registered-lookup_example =
    registered-lookup (env_at 120) (env_at 140) (at 120) (at 140) (from 2 5001) (from 1 5000)
      (codes "1") (codes "Adam") (codes "10.0.0.2") 5001 empty hears client
      (datagram (from 1 5001) (codes "PKT 0 FROM Kari TO Ida MSG hei") ∷ []) [] one Adam-IsNick
      no_ok (omega arith) (env_at-Works 120) (env_at-Works 140) (omega arith) refl (omega arith)
      Adam-address refl refl refl heard ((omega arith, inl foreign), tt)

known_address : get_ip_and_port net (from 1 5000) ≡ some (codes "10.0.0.1", 5000)
unfolding get_ip_and_port net
known_address = refl

known_Ida : find (codes "Ida") server.client_list ≡ some ida
unfolding same_string
known_Ida = refl

heartbeat-acknowledged_example :
    (t end : Client) × (server_end : Server) × (text answer : Bytes) × (send_reg_msg_to_server world
        client
      ≡ ok (tt, t))
    × (get_last? t.network ≡ some (record { dest = client.server_addr; payload = text }))
    × (round net (env_at 120) (Event.datagram (from 1 5000) text) server ≡ ok server_end)
    × (get_last? server_end.network ≡ some (record { dest = from 1 5000; payload = answer }))
    × (handle_datagram client.server_addr answer world t ≡ ok (tt, end))
    × (next_message_number_server end ≡ 1)
    × (find (codes "Ida") server_end.client_list
        ≡ some (record ida { port = 5000; last_heartbeat = at 120 }))
unfolding next_message_number_server
heartbeat-acknowledged_example =
    heartbeat-acknowledged world (env_at 120) (at 120) (from 1 5000) client server ida
      (codes "10.0.0.1") (codes "10.0.0.1") 5000 world-Steady (env_at-Works 120) Ida-IsNick
      known_address known_Ida refl
