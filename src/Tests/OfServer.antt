-- ===== src/Tests/OfServer.antt =====
-- A server that knows one client, and the datagrams that it gets.
use upush_chat.Base.{
  ℕ, zero, suc, ◌+◌, ◌%◌, ◌≤◌, ◌≡◌, ◌≢◌, ◌↔◌, refl, Bool, true, false, Option, none, some, List, [],
  ◌∷◌, arith, Bytes, codes, ◌==◌, if◌then◌else◌, length, length-append, All,
}
use upush_chat.Int.{pos, ◌-ℤ◌}
use upush_chat.TimeFunctions.{Timeval}
use upush_chat.Strings.{same_string, decimal, c_string}
use upush_chat.Strings.Laws.{same_string_iff}
use upush_chat.Common.{parse_message, is_word_number, is_word_valid_nick}
use upush_chat.Network.{IsAddressChar, SockaddrIn, Net, Env, get_ip_and_port, send_packet}
use upush_chat.Outcome.{ok, fault, sprintf}
use upush_chat.ServerClient.{
  ServerClient, find_client_by_nick, create_client, add_server_client_to_list,
  dettach_client_from_list, get_seconds_since_last_heartbeat,
}
use upush_chat.Server.{
  Server, Event, datagram, round, serve, found, is_command, dispatch, is_reg_message,
  is_lookup_message, register_client, lookup_client, record_client, reply, answer_lookup,
  refresh_client,
}
use upush_chat.Server.Clients.{find, replace}
use upush_chat.Server.Requests.{IsNumber, IsNick, IsDigit, Accepts, words, request, is_command_iff}
use upush_chat.Server.Registry.{IsRegistry, serve-IsRegistry}
use upush_chat.Server.Register.{Works, send, round_registers_known}
use upush_chat.Server.Lookup.{round_lookup_found, round_lookup_overruns, register_then_lookup}
use upush_chat.Server.Safety.{serve-ne-fault}

-- Two addresses and their texts.
abbrev pub ntop : ℕ → Option Bytes
ntop a =
    if a == 1 then some (codes "10.0.0.1") else if a == 2 then some (codes "10.0.0.2") else none

abbrev pub pton : Bytes → Option ℕ
pton text =
    if same_string text (codes "10.0.0.1")
    then some 1
    else if same_string text (codes "10.0.0.2")
    then some 2
    else none

pub length-ntop : (a : ℕ) (text : Bytes) → ntop a ≡ some text → length text ≤ 15
length-ntop a text e = ground arith

pub pton-ntop : (a : ℕ) (text : Bytes) → ntop a ≡ some text → pton text ≡ some a
unfolding same_string
pton-ntop a text e =
    ground (arith, same_string_iff text (codes "10.0.0.1"), same_string_iff text (codes "10.0.0.2"))

pub ntop-chars : (a : ℕ) (text : Bytes) → ntop a ≡ some text → (text ≢ []) × All IsAddressChar text
ntop-chars a text e = ground arith

unfoldable pub net : Net
net = record {
  af_inet = 2;
  htons = λ p. p % 65536;
  ntohs = λ p. p % 65536;
  inet_ntop = ntop;
  inet_pton = pton;
  ntohs_lt = λ p. omega arith;
  htons-ntohs = λ p h. omega arith;
  length-inet_ntop = length-ntop;
  inet_ntop-chars = ntop-chars;
  inet_pton-inet_ntop = pton-ntop;
}

abbrev pub at : ℕ → Timeval
at sec = record { tv_sec = pos sec; tv_usec = pos 0 }

abbrev pub env_at : ℕ → Env
env_at sec = record {
  now = some (at sec);
  client_block = true;
  nick_copy = true;
  ip_copy = true;
  node_block = true;
  lost = false;
  sendto_works = true;
}

pub env_at-Works : (sec : ℕ) → Works (env_at sec) (at sec)
env_at-Works sec = record {
  clock = refl;
  client_block = refl;
  nick_copy = refl;
  ip_copy = refl;
  node_block = refl;
  not_lost = refl;
  sendto_works = refl;
}

abbrev pub from : ℕ → ℕ → SockaddrIn
from a port = record { sin_family = 2; sin_port = port; s_addr = a }

abbrev pub ida : ServerClient
ida = record {
  nick = codes "Ida";
  ip_address = some (codes "10.0.0.1");
  port = 5000;
  last_heartbeat = at 100;
}

abbrev pub server : Server
server = record { client_list = ida ∷ []; network = [] }

one : IsNumber (codes "1")
one = record { ne_nil = λ e. cc; digits = omega arith }

Ida : IsNick (codes "Ida")
Ida = record { ne_nil = λ e. cc; short = omega arith; chars = omega arith; no_null = omega arith }

pub server-IsRegistry : IsRegistry server.client_list
server-IsRegistry = record { distinct = (refl, tt); entries = omega arith }

is_command_iff_example :
    (is_command (codes "REG") (words (codes "REG") (codes "1") (codes "Ida")) ≡ some true)
    ↔ Accepts (codes "REG") (words (codes "REG") (codes "1") (codes "Ida"))
is_command_iff_example =
    is_command_iff (codes "REG") (words (codes "REG") (codes "1") (codes "Ida"))

abbrev pub events : List (Env × Event)
events =
    (env_at 110, datagram (from 2 6000) (codes "PKT 1 REG Peter"))
    ∷ (env_at 200, datagram (from 2 6000) (codes "PKT 0 LOOKUP Ida"))
    ∷ []

abbrev pub peter : ServerClient
peter = record {
  nick = codes "Peter";
  ip_address = some (codes "10.0.0.2");
  port = 6000;
  last_heartbeat = at 110;
}

abbrev served : Server
served = record {
  client_list = peter ∷ [];
  network =
      record { dest = from 2 6000; payload = codes "ACK 1 OK" }
      ∷ record { dest = from 2 6000; payload = codes "ACK 0 NOT FOUND" }
      ∷ [];
}

-- Ida has been silent for too long when Peter asks for her.
opened : Bool
unfolding net serve round c_string parse_message dispatch is_reg_message is_lookup_message
    is_command same_string is_word_number is_word_valid_nick register_client lookup_client
    get_ip_and_port record_client find_client_by_nick create_client add_server_client_to_list
    sprintf reply answer_lookup dettach_client_from_list get_seconds_since_last_heartbeat
    refresh_client send_packet
opened = true

serve-events : serve net events server ≡ ok served
unfolding opened
serve-events = refl

serve-IsRegistry_example : IsRegistry served.client_list
serve-IsRegistry_example = serve-IsRegistry net events server served server-IsRegistry serve-events

abbrev heartbeat : Event
heartbeat = datagram (from 2 5001) (codes "PKT 1 REG Ida")

abbrev beaten : Server
beaten = record {
  client_list = record ida { port = 5001; last_heartbeat = at 120 } ∷ [];
  network = record { dest = from 2 5001; payload = codes "ACK 1 OK" } ∷ [];
}

round-heartbeat : round net (env_at 120) heartbeat server ≡ ok beaten
unfolding opened
round-heartbeat = refl

address : get_ip_and_port net (from 2 5001) ≡ some (codes "10.0.0.2", 5001)
unfolding get_ip_and_port net
address = refl

known_Ida : find (codes "Ida") server.client_list ≡ some ida
unfolding same_string
known_Ida = refl

not_known : find (codes "Adam") server.client_list ≡ none
unfolding same_string
not_known = refl

Adam : IsNick (codes "Adam")
Adam = record { ne_nil = λ e. cc; short = omega arith; chars = omega arith; no_null = omega arith }

round_registers_known_example :
    round net (env_at 120) heartbeat server
    ≡ ok (
        send (from 2 5001) (codes "ACK 1 OK") (record server {
          client_list =
              replace
                (codes "Ida")
                (record ida { port = 5001; last_heartbeat = at 120 })
                server.client_list;
        }))
round_registers_known_example =
    round_registers_known net (env_at 120) (at 120) (from 2 5001) (codes "1") (codes "Ida")
      (codes "10.0.0.2") 5001 server one Ida (omega arith) ida (codes "10.0.0.1") (env_at-Works 120)
      address known_Ida refl

abbrev question : Event
question = datagram (from 2 6000) (codes "PKT 1 LOOKUP Ida")

round_lookup_found_example :
    round net (env_at 130) question server
    ≡ ok (send (from 2 6000) (codes "ACK 1 NICK Ida IP 10.0.0.1 PORT 5000") server)
unfolding ◌-ℤ◌ decimal
round_lookup_found_example =
    round_lookup_found net (env_at 130) (at 130) (from 2 6000) (codes "1") (codes "Ida") server one
      Ida (omega arith) (env_at-Works 130) ida (codes "10.0.0.1") (omega arith) known_Ida
      (omega arith) refl

zeros : ℕ → Bytes
zeros zero = []
zeros (suc n) = b'0' ∷ zeros n

length-zeros : (n : ℕ) → length (zeros n) ≡ n
unfolding zeros
length-zeros zero = refl
length-zeros (suc n) = omega (arith, length-zeros n)

zeros-digits : (n : ℕ) → All IsDigit (zeros n)
unfolding zeros
zeros-digits zero = tt
zeros-digits (suc n) = (omega arith, zeros-digits n)

zeros-IsNumber : (n : ℕ) → IsNumber (zeros (suc n))
unfolding zeros
zeros-IsNumber n = record { ne_nil = λ e. cc; digits = zeros-digits (suc n) }

length-request :
    (number : Bytes) → length (request (codes "LOOKUP") number (codes "Ida")) ≡ length number + 15
length-request number = simp length-append (omega arith)

decimal_5000 : decimal 5000 ≡ codes "5000"
unfolding decimal
decimal_5000 = refl

length-found_Ida :
    (number : Bytes)
    → length (found number (codes "Ida") (codes "10.0.0.1") 5000) ≡ length number + 35
length-found_Ida number = rw decimal_5000 (simp length-append (omega arith))

round_lookup_overruns_example :
    round net
      (env_at 120)
      (datagram (from 2 6000) (request (codes "LOOKUP") (zeros (suc 4069)) (codes "Ida")))
      server
    ≡ fault
unfolding ◌-ℤ◌
round_lookup_overruns_example =
    round_lookup_overruns net (env_at 120) (at 120) (from 2 6000) (zeros (suc 4069)) (codes "Ida")
      server ida (codes "10.0.0.1") (zeros-IsNumber 4069) Ida
      (omega (arith, length-request (zeros (suc 4069)), length-zeros (suc 4069))) refl
      (omega (arith, length-found_Ida (zeros (suc 4069)), length-zeros (suc 4069))) known_Ida
      (omega arith) refl

register_then_lookup_example :
    (s1 : Server) × (s2 : Server) × (round net
        (env_at 120)
        (datagram (from 2 5001) (codes "PKT 1 REG Adam"))
        server
      ≡ ok s1)
    × (round net (env_at 140) (datagram (from 2 6000) (codes "PKT 1 LOOKUP Adam")) s1 ≡ ok s2)
    × (s2.network
        ≡ record { dest = from 2 5001; payload = codes "ACK 1 OK" }
          ∷ record { dest = from 2 6000; payload = codes "ACK 1 NICK Adam IP 10.0.0.2 PORT 5001" }
          ∷ [])
unfolding ◌-ℤ◌ decimal
register_then_lookup_example =
    register_then_lookup net (env_at 120) (env_at 140) (at 120) (at 140) (from 2 5001) (from 2 6000)
      (codes "1") (codes "1") (codes "Adam") (codes "10.0.0.2") 5001 server one one Adam
      (omega arith) (omega arith) (omega arith) (env_at-Works 120) (env_at-Works 140) (omega arith)
      address not_known

serve-ne-fault_example : serve net events server ≢ fault
serve-ne-fault_example =
    serve-ne-fault net events server server-IsRegistry (omega arith)
      ((refl, (omega arith, omega arith)), ((refl, (omega arith, omega arith)), tt))
