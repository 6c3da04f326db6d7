-- ===== src/Server/Lookup.antt =====
-- What a look-up answers, and that a client that registered is found.
use upush_chat.Base.{
  ℕ, ◌≤◌, ◌<◌, ◌≡◌, refl, Bool, true, false, none, some, List, [], ◌∷◌, ◌++◌, arith, append_assoc,
  Bytes, codes, leb, length,
}
use upush_chat.Int.{pos, ◌-ℤ◌, ◌<ℤ◌, ltb_ℤ}
use upush_chat.TimeFunctions.{Timeval}
use upush_chat.Strings.Laws.{same_string_self}
use upush_chat.Common.{bufsize}
use upush_chat.Network.{SockaddrIn, Net, Env, get_ip_and_port}
use upush_chat.Outcome.{ok, fault, sprintf}
use upush_chat.ServerClient.{ServerClient, find_client_by_nick, get_seconds_since_last_heartbeat}
use upush_chat.Server.Clients.{find, nick-find}
use upush_chat.Server.Requests.{IsNumber, IsNick, request, round-lookup_client}
use upush_chat.Server.Register.{
  Works, send, sprintf-ok, reply-send, acknowledge, round_registers_new,
}
use upush_chat.Server.{Server, answer_lookup, lookup_client, not_found, found, datagram, round}

-- More than 30 seconds lie between the last heartbeat of the client and `now`.
abbrev pub IsLate : ServerClient → Timeval → Type 0
IsLate c now = pos 30 <ℤ now.tv_sec -ℤ c.last_heartbeat.tv_sec

late : Env → Timeval → ServerClient → Bool
late env now c = ltb_ℤ (pos 30) (get_seconds_since_last_heartbeat env c)

seconds :
    (env : Env) (now : Timeval) (c : ServerClient)
    → env.now ≡ some now
    → get_seconds_since_last_heartbeat env c ≡ now.tv_sec -ℤ c.last_heartbeat.tv_sec
unfolding get_seconds_since_last_heartbeat
seconds env now c e = rw e

module _ (net : Net) (env : Env) (now : Timeval) (src : SockaddrIn) (number nick : Bytes)
    (s : Server) (n : IsNumber number) (k : IsNick nick)
    (fits : length (request (codes "LOOKUP") number nick) < bufsize) (w : Works env now) where
  lookup_with :
      (text : Bytes) (cs : List ServerClient)
      → answer_lookup env number nick s.client_list ≡ ok (text, cs)
      → round net env (datagram src (request (codes "LOOKUP") number nick)) s
        ≡ ok (send src text (record s { client_list = cs }))
  unfolding lookup_client
  lookup_with text cs answer =
      rw (round-lookup_client net env src number nick s n k fits, answer)
        (reply-send env now src text _ w)

  -- A well-formed look-up of a nick that is not registered is answered NOT FOUND under its number,
  -- when that text fits in the buffer and the calls outside the program succeed; no client changes.
  pub round_lookup_unknown :
      length (not_found number) < bufsize
      → find nick s.client_list ≡ none
      → round net env (datagram src (request (codes "LOOKUP") number nick)) s
        ≡ ok (send src (not_found number) s)
  unfolding answer_lookup find_client_by_nick
  round_lookup_unknown room unknown =
      lookup_with _ s.client_list (rw (unknown, answer_lookup, sprintf-ok (not_found number) room))

  -- A well-formed look-up of a registered client that has not been silent for more than 30 seconds
  -- is answered with its address text and port, when that answer fits in the buffer and the calls
  -- outside the program succeed; no client changes.
  pub round_lookup_found :
      (tmp : ServerClient) (ip : Bytes)
      → length (found number nick ip tmp.port) < bufsize
      → find nick s.client_list ≡ some tmp
      → ¬ IsLate tmp now
      → tmp.ip_address ≡ some ip
      → round net env (datagram src (request (codes "LOOKUP") number nick)) s
        ≡ ok (send src (found number nick ip tmp.port) s)
  unfolding answer_lookup find_client_by_nick
  round_lookup_found tmp ip room known fresh held =
      let test : ltb_ℤ (pos 30) (now.tv_sec -ℤ tmp.last_heartbeat.tv_sec) ≡ false = ground arith in
      lookup_with _ s.client_list (
        rw (
          known,
          answer_lookup,
          seconds env now tmp w.clock,
          test,
          held,
          nick-find nick tmp s.client_list known,
          sprintf-ok (found number nick ip tmp.port) room,
        ))

-- When the clock is read, a well-formed look-up of a registered client that has an address text and
-- has not been silent for more than 30 seconds, in a request that fits in the buffer, overruns the
-- buffer of the answer, when that has 4096 bytes or more. Nothing else outside the program is asked
-- before that.
pub round_lookup_overruns :
    (net : Net) (env : Env) (now : Timeval) (src : SockaddrIn) (number nick : Bytes) (s : Server)
    (tmp : ServerClient) (ip : Bytes)
    → IsNumber number
    → IsNick nick
    → length (request (codes "LOOKUP") number nick) < bufsize
    → env.now ≡ some now
    → bufsize ≤ length (found number nick ip tmp.port)
    → find nick s.client_list ≡ some tmp
    → ¬ IsLate tmp now
    → tmp.ip_address ≡ some ip
    → round net env (datagram src (request (codes "LOOKUP") number nick)) s ≡ fault
unfolding lookup_client answer_lookup find_client_by_nick sprintf
round_lookup_overruns net env now src number nick s tmp ip n k fits clock long known fresh held =
    let test : ltb_ℤ (pos 30) (now.tv_sec -ℤ tmp.last_heartbeat.tv_sec) ≡ false = ground arith in
    let over : leb bufsize (length (found number nick ip tmp.port)) ≡ true = ground arith in
    rw (
      round-lookup_client net env src number nick s n k fits,
      known,
      answer_lookup,
      seconds env now tmp clock,
      test,
      held,
      nick-find nick tmp s.client_list known,
      over,
    )

-- After a well-formed registration of a new nick, a well-formed look-up of that nick no more than 30
-- seconds later, by whomever, is answered with the address and port that the registration came
-- from, when that address has a text and that port is allowed, 1024 to 65535, when both requests
-- and the answer fit in the buffer, and when the calls outside the program succeed.
pub register_then_lookup :
    (net : Net) (env env' : Env) (now now' : Timeval) (src asker : SockaddrIn)
    (number number' nick ip : Bytes) (port : ℕ) (s : Server)
    → IsNumber number
    → IsNumber number'
    → IsNick nick
    → length (request (codes "REG") number nick) < bufsize
    → length (request (codes "LOOKUP") number' nick) < bufsize
    → length (found number' nick ip port) < bufsize
    → Works env now
    → Works env' now'
    → ¬ (pos 30 <ℤ now'.tv_sec -ℤ now.tv_sec)
    → get_ip_and_port net src ≡ some (ip, port)
    → find nick s.client_list ≡ none
    → (s1 : Server) × (s2 : Server) × (round net env
          (datagram src (request (codes "REG") number nick))
          s
        ≡ ok s1)
      × (round net env' (datagram asker (request (codes "LOOKUP") number' nick)) s1 ≡ ok s2)
      × (s2.network
          ≡ s.network
            ++ record { dest = src; payload = acknowledge number }
              ∷ record { dest = asker; payload = found number' nick ip port }
              ∷ [])
register_then_lookup net env env' now now' src asker number number' nick ip port s n n' k f f' room
      w w' soon from new =
    let c : ServerClient = record {
      nick = nick;
      ip_address = some ip;
      port = port;
      last_heartbeat = now;
    } in
    let s1 : Server =
      send src (acknowledge number) (record s { client_list = c ∷ s.client_list }) in
    (
      s1,
      send asker (found number' nick ip port) s1,
      round_registers_new net env now src number nick ip port s n k f w from new,
      round_lookup_found net env' now' asker number' nick s1 n' k f' w' c ip room
          (rw (same_string_self nick)) soon refl,
      append_assoc s.network (record { dest = src; payload = acknowledge number } ∷ []) _,
    )
