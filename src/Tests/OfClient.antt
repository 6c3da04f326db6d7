-- ===== src/Tests/OfClient.antt =====
-- A client that knows one contact, and what it hears and its user types.
use upush_chat.Base.{
  ◌<◌, ◌≡◌, refl, true, some, List, [], ◌∷◌, arith, Bytes, codes, length, All, inr,
}
use upush_chat.Int.{pos, negsuc, ◌+ℤ◌, ◌-ℤ◌}
use upush_chat.Strings.{same_string}
use upush_chat.Common.Nick.{IsNickChar}
use upush_chat.Outcome.{Outcome, sprintf}
use upush_chat.BlockedNicks.{BlockedNick, Blocks, is_nick_blocked}
use upush_chat.BlockedNicks.Laws.{
  Distinct, Command, block, unblock, perform_all, meaning_all, perform_all_refines,
}
use upush_chat.Contacts.{Contact, pop_message}
use upush_chat.Client.{World, Client, ◌>>=◌}
use upush_chat.Client.Input.{parse_client_input}
use upush_chat.Client.Typed.{parse_client_input-bounds}
use upush_chat.Client.Queue.{IsContact}
use upush_chat.Client.Receive.{Report, received, typed, take_message, run}
use upush_chat.Client.Invariant.{run-IsContact}
use upush_chat.Client.ToClient.{register_ack_message}
use upush_chat.Client.Acknowledging.{payloads, register_ack_any_number}
use upush_chat.Tests.OfServer.{net, at, env_at, from}

abbrev works : Blocks
works = record { nick_block = true; nick_copy = true; node_block = true }

abbrev per : BlockedNick
per = record { nick = codes "Per" }

abbrev commands : List Command
commands = block works (codes "Kari") ∷ unblock (codes "Per") ∷ []

perform_all_refines_example :
    Distinct (perform_all commands (per ∷ []))
    × ((j : Bytes)
        → is_nick_blocked j (perform_all commands (per ∷ []))
          ≡ meaning_all commands (λ i. is_nick_blocked i (per ∷ [])) j)
unfolding is_nick_blocked
perform_all_refines_example =
    perform_all_refines commands (per ∷ []) (λ i. is_nick_blocked i (per ∷ [])) (refl, tt)
      (λ j. refl)

accepted : parse_client_input (codes "Kari hei igjen") ≡ some (codes "Kari", codes "hei igjen")
unfolding parse_client_input
accepted = refl

parse_client_input-bounds_example :
    ((length (codes "Kari") < 20) × All IsNickChar (codes "Kari"))
    × (length (codes "hei igjen") < 1400)
    × All (λ c. c < 128) (codes "hei igjen")
parse_client_input-bounds_example =
    parse_client_input-bounds (codes "Kari hei igjen") (codes "Kari") (codes "hei igjen") accepted

-- Kari has been sent one message, which she has not acknowledged.
abbrev pub kari : Contact
kari = record {
  nick = codes "Kari";
  addr = from 1 5001;
  message_list = record { payload = codes "hei"; attempts = 1 } ∷ [];
  last_pkt_sent = 0;
  last_ack_received = pos 1;
  last_pkt_received = negsuc 0;
  time_of_last_send = some (at 100);
}

abbrev pub client : Client
client = record {
  client_nick = codes "Ida";
  timeout_sec = pos 5;
  server_addr = from 2 2000;
  last_ack_received = 1;
  contact_list = kari ∷ [];
  blocked_list = per ∷ [];
  last_heartbeat_time = at 95;
  network = [];
  shown = [];
  calls = 0;
}

abbrev pub world : World
world = record { net = net; env = λ _. env_at 101; waits = λ _. [] }

abbrev words : List Bytes
words =
    codes "PKT"
    ∷ codes "0"
    ∷ codes "FROM"
    ∷ codes "Kari"
    ∷ codes "TO"
    ∷ codes "Ida"
    ∷ codes "MSG"
    ∷ codes "hei du"
    ∷ []

abbrev told : Client
told = record client { shown = (codes "Kari", codes "hei du") ∷ [] }

abbrev heard : Contact
heard = record kari { last_pkt_received = pos 0 }

taken : take_message (pos 0) words kari world client ≡ Outcome.ok (heard, told)
unfolding take_message ◌>>=◌ is_nick_blocked same_string
taken = refl

-- Kari writes and acknowledges, and Ida answers.
abbrev reports : List Report
reports =
    received (from 1 5001) (codes "PKT 0 FROM Kari TO Ida MSG hei du")
    ∷ received (from 1 5001) (codes "ACK 0 OK")
    ∷ typed (codes "@Kari takk")
    ∷ []

abbrev ended : Client
ended = record told {
  contact_list =
      record heard {
        message_list = record { payload = codes "takk"; attempts = 1 } ∷ [];
        last_pkt_sent = 1;
        last_ack_received = pos 0;
        time_of_last_send = some (at 101);
      }
      ∷ [];
  network =
      record { dest = from 1 5001; payload = codes "ACK 0 OK" }
      ∷ record { dest = from 1 5001; payload = codes "PKT 1 FROM Ida TO Kari MSG takk" }
      ∷ [];
  calls = 17;
}

run-reports : run reports world client ≡ Outcome.ok (tt, ended)
unfolding run ◌>>=◌ is_nick_blocked ◌+ℤ◌ ◌-ℤ◌ sprintf
run-reports = refl

pub client-InOrder : All IsContact client.contact_list
client-InOrder = (record { number = omega arith; queue = omega arith; sent = inr refl }, tt)

run-IsContact_example : All IsContact ended.contact_list
run-IsContact_example = run-IsContact world reports client ended client-InOrder run-reports

abbrev settled : Contact
settled = record kari { message_list = []; last_ack_received = pos 0 }

settles : register_ack_message (pos 0) kari world client ≡ Outcome.ok (settled, client)
unfolding register_ack_message
settles = refl

register_ack_any_number_example :
    (payloads settled.message_list ≡ payloads (pop_message kari.message_list))
    × (register_ack_message (pos 7) kari world client
        ≡ Outcome.ok (record settled { last_ack_received = pos 7 }, client))
register_ack_any_number_example =
    register_ack_any_number (pos 0) (pos 7) kari settled world client client settles
