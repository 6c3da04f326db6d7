-- ===== src/Client/LookUp.antt =====
-- A look-up from the request to the address that comes back, through both programs.
use upush_chat.Base.{
  ℕ, suc, ◌≤◌, ◌<◌, ◌≡◌, ◌≢◌, refl, sym, ap, ◌⊎◌, true, false, none, some, List, [], ◌∷◌, ◌++◌,
  append_assoc, arith, Bytes, codes, leb, length, All, Bool-cases, Option-cases, inl, inr,
}
use upush_chat.Int.{pos, ◌-ℤ◌, ◌<ℤ◌}
use upush_chat.TimeFunctions.{Timeval}
use upush_chat.Strings.{c_string, contains_string, decimal}
use upush_chat.Strings.Laws.{c_string_lem, length-decimal}
use upush_chat.Strings.Numbers.{decimal-digits, decimal-ne_nil}
use upush_chat.Common.{bufsize}
use upush_chat.Common.Words.{length-spaced, All-spaced}
use mathlib.Core.Path.{subst}
use upush_chat.Network.{
  IsAddressChar, SockaddrIn, Net, Env, is_same_address, get_ip_and_port, send_packet,
}
use upush_chat.Network.Laws.{is_same_address_self}
use upush_chat.Outcome.{ok, sprintf}
use upush_chat.Server.{Server, Event, round, found}
use upush_chat.Server.Requests.{IsNumber, IsNick, request}
use upush_chat.Server.Register.{Works, acknowledge, sprintf-ok}
use upush_chat.Server.Clients.{find}
use upush_chat.Server.Lookup.{register_then_lookup}
use upush_chat.Client.Characters.{digits-absent, address-absent}
use upush_chat.Client.Answer.{answer_words, found-spaced, found-no_ok, read_answer-found}
use upush_chat.Client.{World, Client, Wait, datagram, ◌>>=◌, send_to, next_message_number_server}
use upush_chat.Client.ToServer.{
  note_number, listen, send_blocking_lookup_message, lookup_attempts, lookup_user_on_server,
}

-- What a look-up passes over while it waits: a datagram that fits in the buffer, and is from
-- another address or contains OK.
abbrev pub Ignored : SockaddrIn → Wait → Type 0
Ignored server (datagram src bytes) =
    (length bytes < bufsize)
    × ((is_same_address (some src) (some server) ≡ false)
        ⊎ (contains_string (c_string bytes) (codes "OK") ≡ true))
Ignored server _ = ⊥

listen-answer :
    (others more : List Wait) (server : SockaddrIn) (text : Bytes) (w : World) (s : Client)
    → All (Ignored server) others
    → length text < bufsize
    → All (λ c. c ≢ 0) text
    → contains_string text (codes "OK") ≡ false
    → listen (others ++ datagram server text ∷ more) server w s ≡ ok (some text, s)
unfolding listen
listen-answer [] more server text w s h fits clean no_ok =
    let room : leb bufsize (length text) ≡ false = ground arith in
    rw (room, is_same_address_self server, c_string_lem text clean, no_ok) refl
listen-answer (Wait.select_fails ∷ others) more server text w s h fits clean no_ok = absurd h.0
listen-answer (Wait.recvfrom_fails ∷ others) more server text w s h fits clean no_ok = absurd h.0
listen-answer (datagram src bytes ∷ others) more server text w s ((room, passed), h) fits clean
      no_ok =
    let test : leb bufsize (length bytes) ≡ false = ground arith in
    let rest = listen-answer others more server text w s h fits clean no_ok in
    elim passed [
      | inl foreign ↦ rw (test, foreign) rest
      | inr beat ↦ elim (Bool-cases (is_same_address (some src) (some server))) [
        | inl same ↦ rw (test, same, beat) rest
        | inr foreign ↦ rw (test, foreign) rest
      ]
    ]

module _ (number nick ip : Bytes) (port : ℕ) (n : IsNumber number) (k : IsNick nick)
    (ip_chars : All IsAddressChar ip) where
  found-no_null : All (λ c. c ≢ 0) (found number nick ip port)
  found-no_null = subst (All (λ c. c ≢ 0)) (sym (found-spaced number nick ip port)) (
      All-spaced (λ c. c ≢ 0) (answer_words number nick ip) (decimal port) (omega arith)
        (
          omega arith,
          (
            digits-absent 0 number (inl (omega arith)) n.digits,
            (
              omega arith,
              (
                k.no_null,
                (
                  omega arith,
                  (address-absent 0 ip (λ e. cc) (inl (omega arith)) ip_chars, (omega arith, tt)),
                ),
              ),
            ),
          ),
        )
        (digits-absent 0 (decimal port) (inl (omega arith)) (decimal-digits port)))

  length-found :
      length number ≤ 5
      → length ip ≤ 15
      → port ≤ 65535
      → length (found number nick ip port) < bufsize
  length-found short ip_short fits = omega (
    arith,
    ap length (found-spaced number nick ip port),
    length-spaced (answer_words number nick ip) (decimal port),
    length-decimal port fits,
    k.short,
  )

-- The request of a look-up, as the server's theorems write it.
request_lem :
    (number nick : Bytes)
    → codes "PKT " ++ number ++ codes " LOOKUP " ++ nick ≡ request (codes "LOOKUP") number nick
request_lem number nick = simp (append_assoc)

length-request :
    (number nick : Bytes)
    → length number ≤ 5
    → length nick < 20
    → length (request (codes "LOOKUP") number nick) < bufsize
length-request number nick short k =
    omega (arith, length-spaced (codes "PKT" ∷ number ∷ codes "LOOKUP" ∷ []) nick)

-- The number of the next packet to the server.
abbrev pub next_number : Client → Bytes
next_number s = decimal (next_message_number_server s)

pub next_number-IsNumber : (s : Client) → IsNumber (next_number s)
next_number-IsNumber s = record {
  ne_nil = decimal-ne_nil (next_message_number_server s);
  digits = decimal-digits (next_message_number_server s);
}

pub length-next_number : (s : Client) → length (next_number s) ≤ 5
unfolding next_message_number_server
length-next_number s = length-decimal (next_message_number_server s) (ground arith)

-- The client after its request.
abbrev pub asked : Bytes → Client → Client
asked nick s = record s {
  network =
      s.network
      ++ record { dest = s.server_addr; payload = request (codes "LOOKUP") (next_number s) nick }
        ∷ [];
  calls = suc s.calls;
}

-- A look-up of a nick without the letters OK, whose request is sent, and that hears from the server,
-- behind what it passes over, the answer with the text of the address `a` and the port, returns
-- the nick and that address. The request and the number that the answer holds are noted.
pub lookup-found :
    (w : World) (s : Client) (nick ip : Bytes) (port a : ℕ) (others more : List Wait)
    → IsNick nick
    → contains_string nick (codes "OK") ≡ false
    → port ≤ 65535
    → w.net.inet_ntop a ≡ some ip
    → (w.env s.calls).lost ≡ false
    → (w.env s.calls).sendto_works ≡ true
    → w.waits (suc s.calls)
      ≡ others ++ datagram s.server_addr (found (next_number s) nick ip port) ∷ more
    → All (Ignored s.server_addr) others
    → lookup_user_on_server nick w s
      ≡ ok (
        some (
          some nick,
          record { sin_family = w.net.af_inet; sin_port = w.net.htons port; s_addr = a },
        ),
        note_number (found (next_number s) nick ip port) (asked nick s),
      )
unfolding lookup_user_on_server lookup_attempts send_blocking_lookup_message send_to send_packet
    ◌>>=◌
lookup-found w s nick ip port a others more k no_ok fits text kept works heard passed =
    let number = next_number s in
    let (ip_ne, ip_chars) = w.net.inet_ntop-chars a ip text in
    let n = next_number-IsNumber s in
    let small = length-request number nick (length-next_number s) k.short in
    let room : sprintf (request (codes "LOOKUP") number nick)
        ≡ ok (request (codes "LOOKUP") number nick) =
      sprintf-ok (request (codes "LOOKUP") number nick) small in
    let answer =
      listen-answer others more s.server_addr (found number nick ip port) w (asked nick s) passed
        (length-found number nick ip port n k ip_chars (length-next_number s)
          (w.net.length-inet_ntop a ip text) fits)
        (found-no_null number nick ip port n k ip_chars)
        (found-no_ok number nick ip port n k ip_ne ip_chars no_ok) in
    let read = read_answer-found number nick ip port a w (asked nick s) n k fits text in
    rw (request_lem number nick, room, kept, works, heard, answer, read) refl

get_ip_and_port-parts :
    (net : Net) (src : SockaddrIn) (ip : Bytes) (port : ℕ)
    → get_ip_and_port net src ≡ some (ip, port)
    → (net.inet_ntop src.s_addr ≡ some ip) × (port ≡ net.ntohs src.sin_port) × (port ≤ 65535)
unfolding get_ip_and_port
get_ip_and_port-parts net src ip port e = elim (Option-cases (net.inet_ntop src.s_addr)) [
  | inl missing ↦ ground arith
  | inr (text, there) ↦ (ground arith, ground arith, ground arith)
]

same_parts :
    (a b : SockaddrIn)
    → a.sin_family ≡ b.sin_family
    → a.sin_port ≡ b.sin_port
    → a.s_addr ≡ b.s_addr
    → a ≡ b
same_parts a b e f g = ground arith

note_number-network : (text : Bytes) (s : Client) → (note_number text s).network ≡ s.network
note_number-network text s = ground arith

-- After a well-formed registration, which fits in the buffer, of a new nick without the letters OK,
-- from an address of the internet family that has a text and an allowed port, 1024 or more, another
-- client that looks the nick up sends the server one request. When the server handles that very
-- packet no more than 30 seconds after the registration, its answer is one on which the look-up
-- returns that nick and the very address that the registration came from. The calls outside the
-- programs succeed, and what the client hears before the answer is passed over.
pub registered-lookup :
    (env env' : Env) (now now' : Timeval) (src asker : SockaddrIn) (number nick ip : Bytes)
    (port : ℕ) (server : Server) (w : World) (s : Client) (others more : List Wait)
    → IsNumber number
    → IsNick nick
    → contains_string nick (codes "OK") ≡ false
    → length (request (codes "REG") number nick) < bufsize
    → Works env now
    → Works env' now'
    → ¬ (pos 30 <ℤ now'.tv_sec -ℤ now.tv_sec)
    → src.sin_family ≡ w.net.af_inet
    → src.sin_port < 65536
    → get_ip_and_port w.net src ≡ some (ip, port)
    → find nick server.client_list ≡ none
    → (w.env s.calls).lost ≡ false
    → (w.env s.calls).sendto_works ≡ true
    → w.waits (suc s.calls)
      ≡ others ++ datagram s.server_addr (found (next_number s) nick ip port) ∷ more
    → All (Ignored s.server_addr) others
    → (server1 : Server) × (server2 : Server) × (t : Client) × (round w.net env
          (Event.datagram src (request (codes "REG") number nick))
          server
        ≡ ok server1)
      × (round w.net env'
            (Event.datagram asker (request (codes "LOOKUP") (next_number s) nick))
            server1
          ≡ ok server2)
      × (server2.network
          ≡ server.network
            ++ record { dest = src; payload = acknowledge number }
              ∷ record { dest = asker; payload = found (next_number s) nick ip port }
              ∷ [])
      × (lookup_user_on_server nick w s ≡ ok (some (some nick, src), t))
      × (t.network
          ≡ s.network
            ++ record {
              dest = s.server_addr;
              payload = request (codes "LOOKUP") (next_number s) nick;
            }
              ∷ [])
registered-lookup env env' now now' src asker number nick ip port server w s others more n k no_ok
      fits works works' soon family port_room from new kept sends heard passed =
    let number' = next_number s in
    let (text, port_eq, port_fits) = get_ip_and_port-parts w.net src ip port from in
    let (ip_ne, ip_chars) = w.net.inet_ntop-chars src.s_addr ip text in
    let n' = next_number-IsNumber s in
    let room =
      length-found number' nick ip port n' k ip_chars (length-next_number s)
        (w.net.length-inet_ntop src.s_addr ip text) port_fits in
    let request_fits = length-request number' nick (length-next_number s) k.short in
    let (server1, server2, registered, answered, sent) =
      register_then_lookup w.net env env' now now' src asker number number' nick ip port server n n'
        k fits request_fits room works works' soon from new in
    let back : w.net.htons port ≡ src.sin_port =
      rw port_eq (w.net.htons-ntohs src.sin_port port_room) in
    let addr : SockaddrIn = record {
      sin_family = w.net.af_inet;
      sin_port = w.net.htons port;
      s_addr = src.s_addr;
    } in
    let same = same_parts addr src (sym family) back refl in
    let heard_back =
      lookup-found w s nick ip port src.s_addr others more k no_ok port_fits text kept sends heard
        passed in
    (
      server1,
      server2,
      note_number (found number' nick ip port) (asked nick s),
      registered,
      answered,
      sent,
      rw (← same) heard_back,
      note_number-network (found number' nick ip port) (asked nick s),
    )
