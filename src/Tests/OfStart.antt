-- ===== src/Tests/OfStart.antt =====
-- The parameters of the two programs, and messages that are sent again.
use upush_chat.Outcome.{fault}
use upush_chat.Server.Main.{main, main-ne-fault}
use upush_chat.Base.{
  ◌≢◌, arith, ℕ, ◌*◌, ◌≤◌, ◌≡◌, ◌↔◌, refl, true, false, none, some, List, [], ◌∷◌, ◌++◌, Bytes,
  codes, length,
}
use upush_chat.Int.{pos, negsuc}
use upush_chat.Strings.{atoi}
use upush_chat.Strings.{decimal, same_string}
use upush_chat.Outcome.{sprintf}
use upush_chat.Outcome as Outcome
use upush_chat.Startup.{System, goes_on, faults}
use upush_chat.Server.Start as Server
use upush_chat.Server.Start.{Ready}
use upush_chat.Server.Started.{Starts, start_server_iff, start_server_branches}
use upush_chat.Contacts.{Message, Contact}
use upush_chat.Contacts.Fifo.{QueueStep, arrive, leave, perform, seen, perform-fifo}
use upush_chat.Client.{World, Client, datagram, ◌>>=◌}
use upush_chat.Client.Start as Start
use upush_chat.Client.Connected.{Connects, start_client_iff}
use upush_chat.Client.ToServer.{lookup_user_on_server}
use upush_chat.Client.Asking.{copies, request_of, lookup_user_on_server-requests}
use upush_chat.Client.ToClient.{resend_message_to_contact}
use upush_chat.Client.Resends.{stopped, resent, Resends-length}
use upush_chat.Tests.OfServer.{events, net, at, from}
use upush_chat.Tests.OfClient.{kari, client, world, client-InOrder}

abbrev system : System
system = record { socket = pos 3; bind = pos 0; blocks = λ i. true; first_select = pos 1 }

abbrev server_argv : List Bytes
server_argv = codes "upush_server" ∷ codes "2000" ∷ codes "5" ∷ []

abbrev ready : Ready
ready = record {
  loss = pos 5;
  server_addr = record { sin_family = 2; sin_port = 2000; s_addr = 0 };
  server = record { client_list = []; network = [] };
}

port_read : atoi (codes "2000") ≡ some (pos 2000)
unfolding atoi
port_read = refl

loss_read : atoi (codes "5") ≡ some (pos 5)
unfolding atoi
loss_read = refl

start_server_iff_example :
    (Server.start net system server_argv ≡ goes_on ready) ↔ Starts net system server_argv ready
start_server_iff_example = start_server_iff net system server_argv ready

main-ne-fault_example : main net system 1024 server_argv events ≢ fault
main-ne-fault_example =
    main-ne-fault net system (codes "upush_server") (codes "2000") (codes "5") 2000 5 1024 events
      port_read loss_read (omega arith) (omega arith) (omega arith) (omega arith) refl
      ((refl, (omega arith, omega arith)), ((refl, (omega arith, omega arith)), tt))

-- The port is taken.
abbrev taken : System
taken = record system { bind = negsuc 0 }

start_server_branches_example : Server.start net taken server_argv ≡ faults
start_server_branches_example =
    start_server_branches net taken (codes "upush_server") (codes "2000") (codes "5") (pos 2000)
      (pos 5) port_read loss_read

abbrev client_argv : List Bytes
client_argv =
    codes "upush_client"
    ∷ codes "Ida"
    ∷ codes "10.0.0.2"
    ∷ codes "2000"
    ∷ codes "5"
    ∷ codes "5"
    ∷ []

abbrev ida : Client
ida = record client {
  contact_list = [];
  blocked_list = [];
  last_heartbeat_time = at 101;
  network = record { dest = from 2 2000; payload = codes "PKT 0 REG Ida" } ∷ [];
  calls = 2;
}

start_client_iff_example :
    (Start.start world system client_argv ≡ goes_on (pos 5, ida))
    ↔ Connects world system client_argv (pos 5) ida
start_client_iff_example = start_client_iff world system client_argv (pos 5) ida

-- The client runs.
started : Start.start world system client_argv ≡ goes_on (pos 5, ida)
unfolding Start.start net same_string ◌>>=◌ sprintf decimal
started = refl

-- Two messages, of which the first leaves the queue.
abbrev hei : Message
hei = record { payload = codes "hei"; attempts = 0 }

abbrev takk : Message
takk = record { payload = codes "takk"; attempts = 0 }

abbrev steps : List QueueStep
steps = arrive true takk ∷ leave ∷ arrive false takk ∷ []

perform-fifo_example :
    seen (perform steps kari)
    ≡ some (record { payload = codes "hei"; attempts = 1 } ∷ [], takk ∷ [])
perform-fifo_example = perform-fifo steps kari

-- Kari is sent the message again, once.
abbrev kari_again : Contact
kari_again = record kari {
  message_list = record { payload = codes "hei"; attempts = 2 } ∷ [];
  time_of_last_send = some (at 101);
}

abbrev client_again : Client
client_again = record client {
  network = record { dest = from 1 5001; payload = codes "PKT 0 FROM Ida TO Kari MSG hei" } ∷ [];
  calls = 2;
}

again : resend_message_to_contact kari world client ≡ Outcome.ok (some kari_again, client_again)
unfolding resend_message_to_contact ◌>>=◌ sprintf decimal
again = refl

Resends-length_example : 1 ≤ 5 * length kari.message_list
Resends-length_example =
    Resends-length world 1 kari kari_again client-InOrder.0
      (resent client client_again client-InOrder again stopped)

-- The server answers that nobody is called Ola.
abbrev hears : World
hears = record world { waits = λ i. datagram (from 2 2000) (codes "ACK 0 NOT FOUND") ∷ [] }

abbrev asked : Client
asked = record client {
  last_ack_received = 0;
  network = record { dest = from 2 2000; payload = codes "PKT 0 LOOKUP Ola" } ∷ [];
  calls = 1;
}

not_there : lookup_user_on_server (codes "Ola") hears client ≡ Outcome.ok (none, asked)
unfolding lookup_user_on_server ◌>>=◌ sprintf decimal
not_there = refl

lookup_user_on_server-requests_example :
    (k : ℕ) × (k ≤ 3)
    × (asked.network
        ≡ [] ++ copies k (record { dest = from 2 2000; payload = request_of (codes "Ola") client }))
lookup_user_on_server-requests_example =
    lookup_user_on_server-requests (codes "Ola") none hears client asked not_there
