-- ===== src/ServerClient.antt =====
-- server_client.c and server_client_list.c: the clients that the server knows.
--
-- The list is the sequence that the linked list stands for, newest first (LinkedList/View.antt). A
-- pointer to a client that was found by nick is the first client of that nick.
use upush_chat.Base.{ℕ, Bool, not, Option, none, some, List, ◌∷◌, Bytes, if◌then◌else◌, length}
use upush_chat.Int.{ℤ, negsuc, ◌-ℤ◌}
use upush_chat.TimeFunctions.{Timeval}
use upush_chat.Strings.{same_string}
use upush_chat.Network.{Env}
use upush_chat.Sequence.{find_first, erase_first, get_last?, drop_last}

-- The address text is `none` when `strdup` of it failed, which `create_client` does not notice.
pub record ServerClient : Type 0 where
  pub nick : Bytes
  pub ip_address : Option Bytes
  pub port : ℕ
  pub last_heartbeat : Timeval

unfoldable pub create_client : Env → (nick ip : Bytes) → ℕ → Option ServerClient
create_client env nick ip port =
    if not env.client_block then none else if not env.nick_copy then none else elim env.now [
      | none ↦ none
      | some now ↦ some (record {
        nick = nick;
        ip_address = if env.ip_copy then some ip else none;
        port = port;
        last_heartbeat = now;
      })
    ]

-- The updates; `none` is the result -1.
unfoldable pub update_client_nick : Env → ServerClient → Bytes → Option ServerClient
update_client_nick env client new_nick =
    if env.nick_copy then some (record client { nick = new_nick }) else none

unfoldable pub update_client_ip_address : Env → ServerClient → Bytes → Option ServerClient
update_client_ip_address env client new_ip =
    if env.ip_copy then some (record client { ip_address = some new_ip }) else none

unfoldable pub update_client_port : ServerClient → ℕ → ServerClient
update_client_port client new_port = record client { port = new_port }

unfoldable pub update_client_last_heartbeat : Env → ServerClient → Option ServerClient
update_client_last_heartbeat env client = elim env.now [
  | none ↦ none
  | some now ↦ some (record client { last_heartbeat = now })
]

unfoldable pub get_seconds_since_last_heartbeat : Env → ServerClient → ℤ
unfolding ◌-ℤ◌
get_seconds_since_last_heartbeat env client = elim env.now [
  | none ↦ negsuc 0
  | some now ↦ now.tv_sec -ℤ client.last_heartbeat.tv_sec
]

abbrev pub server_client_has_same_nick : Bytes → ServerClient → Bool
server_client_has_same_nick other client = same_string client.nick other

unfoldable pub find_client_by_nick : Bytes → List ServerClient → Option ServerClient
find_client_by_nick nick = find_first (server_client_has_same_nick nick)

unfoldable pub dettach_client_from_list : ServerClient → List ServerClient → List ServerClient
dettach_client_from_list client = erase_first (server_client_has_same_nick client.nick)

-- `none` is the result -1.
unfoldable pub add_server_client_to_list :
    Env → ServerClient → List ServerClient → Option (List ServerClient)
add_server_client_to_list env client clients =
    if env.node_block then some (client ∷ clients) else none

-- The client next to the tail, and the list without it; an empty list is undefined, `none`.
unfoldable pub pop_client : List ServerClient → Option (ServerClient × List ServerClient)
pop_client clients = elim (get_last? clients) [
  | none ↦ none
  | some client ↦ some (client, drop_last clients)
]

unfoldable pub size_client_list : List ServerClient → ℕ
size_client_list clients = length clients
