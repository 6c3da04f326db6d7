-- ===== src/Server/Register.antt =====
-- What a registration does when the calls outside the program succeed.
use upush_chat.Base.{
  ℕ, ◌<◌, ◌≡◌, true, false, none, some, List, [], ◌∷◌, ◌++◌, arith, Bytes, codes, length,
  length-append,
}
use upush_chat.TimeFunctions.{Timeval}
use upush_chat.Strings.Laws.{same_string_iff}
use upush_chat.Common.{bufsize}
use upush_chat.Network.{SockaddrIn, Net, Env, get_ip_and_port, send_packet}
use upush_chat.Outcome.{ok, sprintf}
use upush_chat.ServerClient.{
  ServerClient, create_client, add_server_client_to_list, find_client_by_nick,
}
use upush_chat.Server.Clients.{find, replace}
use upush_chat.Server.Requests.{IsNumber, IsNick, request, round-register_client}
use upush_chat.Server.{
  Server, refresh_client, record_client, reply, register_client, datagram, round,
}

-- Every call outside the program succeeds, and the time is `now`.
pub record Works (env : Env) (now : Timeval) : Type 0 where
  pub clock : env.now ≡ some now
  pub client_block : env.client_block ≡ true
  pub nick_copy : env.nick_copy ≡ true
  pub ip_copy : env.ip_copy ≡ true
  pub node_block : env.node_block ≡ true
  pub not_lost : env.lost ≡ false
  pub sendto_works : env.sendto_works ≡ true

abbrev pub acknowledge : Bytes → Bytes
acknowledge number = codes "ACK " ++ number ++ codes " OK"

abbrev pub send : SockaddrIn → Bytes → Server → Server
send src text s = record s { network = s.network ++ record { dest = src; payload = text } ∷ [] }

pub sprintf-ok : (text : Bytes) → length text < bufsize → sprintf text ≡ ok text
unfolding sprintf
sprintf-ok text h = ground arith

pub reply-send :
    (env : Env) (now : Timeval) (src : SockaddrIn) (text : Bytes) (s : Server)
    → Works env now
    → reply env src text s ≡ ok (send src text s)
unfolding reply send_packet
reply-send env now src text s w = rw (w.not_lost, w.sendto_works)

-- The text of the answer takes up less room than the request.
acknowledge_fits :
    (number nick : Bytes)
    → length (request (codes "REG") number nick) < bufsize
    → length (acknowledge number) < bufsize
acknowledge_fits number nick h = omega (
  arith,
  length-append number (codes " OK"),
  length-append number (b' ' ∷ (codes "REG" ++ b' ' ∷ nick)),
)

refresh_client-keeps_ip :
    (env : Env) (now : Timeval) (tmp : ServerClient) (old ip : Bytes) (port : ℕ)
    → Works env now
    → tmp.ip_address ≡ some old
    → refresh_client env tmp ip port ≡ ok (record tmp { port = port; last_heartbeat = now })
unfolding refresh_client
refresh_client-keeps_ip env now tmp old ip port w e =
    ground (arith, same_string_iff old ip, w.clock, w.ip_copy)

module _ (net : Net) (env : Env) (now : Timeval) (src : SockaddrIn) (number nick ip : Bytes)
    (port : ℕ) (s : Server) (n : IsNumber number) (k : IsNick nick)
    (fits : length (request (codes "REG") number nick) < bufsize) where
  register_with :
      (cs : List ServerClient)
      → Works env now
      → get_ip_and_port net src ≡ some (ip, port)
      → record_client env nick ip port s.client_list ≡ ok cs
      → round net env (datagram src (request (codes "REG") number nick)) s
        ≡ ok (send src (acknowledge number) (record s { client_list = cs }))
  unfolding register_client
  register_with cs w from rec =
      rw
        (
          round-register_client net env src number nick s n k fits,
          from,
          rec,
          sprintf-ok (acknowledge number) (acknowledge_fits number nick fits),
        )
        (reply-send env now src (acknowledge number) _ w)

  -- When the calls outside the program succeed, a well-formed registration of a nick that is not
  -- known adds the client, with the address and port that the datagram came from and the time, and
  -- is acknowledged under its number.
  pub round_registers_new :
      Works env now
      → get_ip_and_port net src ≡ some (ip, port)
      → find nick s.client_list ≡ none
      → round net env (datagram src (request (codes "REG") number nick)) s
        ≡ ok (
            send src (acknowledge number) (record s {
              client_list =
                  record { nick = nick; ip_address = some ip; port = port; last_heartbeat = now }
                  ∷ s.client_list;
            }))
  unfolding record_client find_client_by_nick create_client add_server_client_to_list
  round_registers_new w from new =
      register_with _ w from
        (rw (new, record_client, w.client_block, w.nick_copy, w.clock, w.ip_copy, w.node_block))

  -- A well-formed registration that fits in the buffer, of a nick that is known with an address
  -- text, comes from an address that has a text and an allowed port, 1024 to 65535, and the calls
  -- outside the program succeed: the clock is read, the copies are made, and the reply is neither
  -- lost nor refused. Then the port that the datagram came from and the time are stored, and the
  -- registration is acknowledged; the address text stays the old one, whatever address the datagram
  -- came from.
  pub round_registers_known :
      (tmp : ServerClient) (old : Bytes)
      → Works env now
      → get_ip_and_port net src ≡ some (ip, port)
      → find nick s.client_list ≡ some tmp
      → tmp.ip_address ≡ some old
      → round net env (datagram src (request (codes "REG") number nick)) s
        ≡ ok (
            send src (acknowledge number) (record s {
              client_list =
                  replace nick (record tmp { port = port; last_heartbeat = now }) s.client_list;
            }))
  unfolding record_client find_client_by_nick
  round_registers_known tmp old w from known held =
      register_with _ w from
        (rw (known, record_client, refresh_client-keeps_ip env now tmp old ip port w held))
