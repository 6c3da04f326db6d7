-- ===== src/Server/Safety.antt =====
-- No run of the server over short ASCII datagrams ends in undefined behaviour.
use mathlib.Core.Path.{subst}
use upush_chat.Base.{
  ℕ, ◌+◌, ◌≤◌, ◌<◌, ◌≡◌, ◌≢◌, ap, true, false, List, [], ◌∷◌, arith, Bytes, codes, leb, length,
  length-append, All, Bool-cases, Option-cases, inl, inr,
}
use upush_chat.Int.{pos, ltb_ℤ}
use upush_chat.Strings.{c_string}
use upush_chat.Strings.Laws.{length-c_string, length-decimal}
use upush_chat.Common.{bufsize, parse_message}
use upush_chat.Common.Words.{room, room-parse_message}
use upush_chat.Common.Contents.{All-c_string, All-parse_message}
use upush_chat.Network.{SockaddrIn, Net, Env}
use upush_chat.Outcome.{ok, fault, ◌>>=◌, or_fault, sprintf}
use upush_chat.ServerClient.{
  ServerClient, find_client_by_nick, dettach_client_from_list, get_seconds_since_last_heartbeat,
}
use upush_chat.Server.Clients.{find, nick-find, All-erase, All-find}
use upush_chat.Server.Requests.{words, answer_cases, is_command_iff}
use upush_chat.Server.Ascii.{IsAscii, is_command-ne_none}
use upush_chat.Server.Register.{sprintf-ok}
use upush_chat.Server.Registry.{IsEntry, IsRegistry, round-IsRegistry}
use upush_chat.Server.Buffers.{
  HasAddress, IsText, Safe, Safe-bind, Safe-bind_eq, reply-Safe, register_client-Safe,
}
use upush_chat.Server.{
  Server, answer_lookup, lookup_client, not_found, found, is_command, is_reg_message,
  is_lookup_message, dispatch, starts_with_newline, Event, select_fails, recvfrom_fails, datagram,
  round, serve,
}

length-found :
    (number nick ip : Bytes) (port : ℕ)
    → length ip ≤ 15
    → port ≤ 65535
    → length (found number nick ip port) ≤ length number + length nick + 40
length-found number nick ip port short p = simp length-append (omega (arith, length-decimal port p))

found-Safe :
    (number nick : Bytes) (cs : List ServerClient) (tmp : ServerClient)
    → length number + length nick + 40 < bufsize
    → All HasAddress cs
    → IsText tmp.ip_address
    → tmp.port ≤ 65535
    → tmp.nick ≡ nick
    → Safe
        (λ (a : Bytes × List ServerClient). All HasAddress a.1)
        (do
          ip ← or_fault tmp.ip_address
          response ← sprintf (found number tmp.nick ip tmp.port)
          ok (response, cs))
found-Safe number nick cs tmp fits h text p e = elim (Option-cases tmp.ip_address) [
  | inl z ↦ absurd (rw z at text)
  | inr (ip, held) ↦
      let room : length (found number tmp.nick ip tmp.port) < bufsize =
        omega (arith, length-found number tmp.nick ip tmp.port (rw held at text) p, ap length e) in
      rw (held, sprintf-ok (found number tmp.nick ip tmp.port) room) h
]

answer_lookup-Safe :
    (env : Env) (number nick : Bytes) (cs : List ServerClient)
    → length number + length nick + 40 < bufsize
    → All HasAddress cs
    → All IsEntry cs
    → Safe (λ a. All HasAddress a.1) (answer_lookup env number nick cs)
unfolding answer_lookup find_client_by_nick dettach_client_from_list
answer_lookup-Safe env number nick cs fits h r =
    let P : Bytes × List ServerClient → Type 0 = λ a. All HasAddress a.1 in
    let none_fits : length (not_found number) < bufsize =
      omega (arith, length-append number (codes " NOT FOUND")) in
    elim (Option-cases (find nick cs)) [
      | inl new ↦
          rw (new, answer_lookup)
            (Safe-bind (λ _. Unit {0}) P (sprintf (not_found number)) _
              (rw (sprintf-ok (not_found number) none_fits) tt) (λ _ _. h))
      | inr (tmp, old) ↦
          elim (Bool-cases (ltb_ℤ (pos 30) (get_seconds_since_last_heartbeat env tmp))) [
            | inl late ↦
                rw (old, answer_lookup, late)
                  (Safe-bind (λ _. Unit {0}) P (sprintf (not_found number)) _
                    (rw (sprintf-ok (not_found number) none_fits) tt)
                    (λ _ _. All-erase HasAddress tmp.nick cs h))
            | inr fresh ↦
                let text = All-find HasAddress nick tmp cs h old in
                rw (old, answer_lookup, fresh)
                  (found-Safe number nick cs tmp fits h text (All-find IsEntry nick tmp cs r old).3
                    (nick-find nick tmp cs old))
          ]
    ]

lookup_client-Safe :
    (env : Env) (cmd number nick : Bytes) (src : SockaddrIn) (s : Server)
    → length number + length nick + 40 < bufsize
    → All HasAddress s.client_list
    → All IsEntry s.client_list
    → Safe (λ s'. All HasAddress s'.client_list) (lookup_client env (words cmd number nick) src s)
unfolding lookup_client
lookup_client-Safe env cmd number nick src s fits h r =
    Safe-bind (λ (a : Bytes × List ServerClient). All HasAddress a.1)
      (λ (s' : Server). All HasAddress s'.client_list) (answer_lookup env number nick s.client_list)
      _ (answer_lookup-Safe env number nick s.client_list fits h r)
      (λ a h'. reply-Safe env src a.0 _ h')

dispatch-Safe :
    (net : Net) (env : Env) (src : SockaddrIn) (parsed : List Bytes) (s : Server)
    → env.ip_copy ≡ true
    → room parsed < 4069
    → All (All IsAscii) parsed
    → All HasAddress s.client_list
    → All IsEntry s.client_list
    → Safe (λ s'. All HasAddress s'.client_list) (dispatch net env src parsed s)
unfolding dispatch is_reg_message is_lookup_message
dispatch-Safe net env src parsed s w short ascii h r =
    elim (answer_cases (is_command (codes "REG") parsed)) [
      | inl odd ↦ absurd (is_command-ne_none (codes "REG") parsed ascii odd)
      | inr (inl reg) ↦
          let (number, nick, e, _, _, _) = (is_command_iff _ parsed).0 reg in
          let size : room (words (codes "REG") number nick) < 4069 = rw e at short in
          rw reg
            (rw e (register_client-Safe net env (codes "REG") number nick src s w (omega arith) h))
      | inr (inr other) ↦ elim (answer_cases (is_command (codes "LOOKUP") parsed)) [
        | inl odd ↦ absurd (is_command-ne_none (codes "LOOKUP") parsed ascii odd)
        | inr (inl look) ↦
            let (number, nick, e, _, _, _) = (is_command_iff _ parsed).0 look in
            let size : room (words (codes "LOOKUP") number nick) < 4069 = rw e at short in
            rw (other, look)
              (rw e (lookup_client-Safe env (codes "LOOKUP") number nick src s (omega arith) h r))
        | inr (inr skipped) ↦ rw (other, skipped) h
      ]
    ]

-- A datagram of fewer than 4068 bytes, each of them ASCII.
abbrev pub IsShort : Event → Type 0
IsShort select_fails = Unit
IsShort recvfrom_fails = Unit
IsShort (datagram src bytes) = (length bytes < 4068) × All IsAscii bytes

round-Safe :
    (net : Net) (env : Env) (event : Event) (s : Server)
    → env.ip_copy ≡ true
    → IsShort event
    → All HasAddress s.client_list
    → IsRegistry s.client_list
    → Safe (λ s'. All HasAddress s'.client_list) (round net env event s)
unfolding round
round-Safe net env select_fails s w short h r = tt
round-Safe net env recvfrom_fails s w short h r = tt
round-Safe net env (datagram src bytes) s w short h r =
    elim (Bool-cases (starts_with_newline bytes)) [
      | inl skipped ↦ rw skipped h
      | inr text ↦
          let fits : leb bufsize (length bytes) ≡ false = ground (arith, short.0) in
          rw (text, fits)
            (dispatch-Safe net env src (parse_message (c_string bytes) 4) s w
              (omega (arith, short.0, room-parse_message (c_string bytes) 4, length-c_string bytes))
              (All-parse_message IsAscii (c_string bytes) 4 (All-c_string IsAscii bytes short.1)) h
              r.entries)
    ]

-- The events of a run that the next theorem is about: every datagram is ASCII and shorter than
-- 4068 bytes, and no copy of an address text fails.
abbrev pub IsOrdinary : Env × Event → Type 0
IsOrdinary (env, event) = (env.ip_copy ≡ true) × IsShort event

serve-Safe :
    (net : Net) (events : List (Env × Event)) (s : Server)
    → IsRegistry s.client_list
    → All HasAddress s.client_list
    → All IsOrdinary events
    → Safe (λ _. Unit {0}) (serve net events s)
unfolding serve
serve-Safe net [] s r h o = tt
serve-Safe net ((env, event) ∷ events) s r h o =
    Safe-bind_eq (λ (t : Server). All HasAddress t.client_list) (λ _. Unit {0})
      (round net env event s) _ (round-Safe net env event s o.0.0 o.0.1 h r)
      (λ t e h'. serve-Safe net events t (round-IsRegistry net env event s t r e) h' o.1)

-- From a registry in order, in which every client has an address text of at most 15 bytes, a run of
-- the server over ASCII datagrams of fewer than 4068 bytes, in which every copy of an address text
-- succeeds, meets no undefined behaviour: no buffer is overrun, no `NULL` is followed, and
-- `isdigit` is given no byte of 128 or more.
pub serve-ne-fault :
    (net : Net) (events : List (Env × Event)) (s : Server)
    → IsRegistry s.client_list
    → All HasAddress s.client_list
    → All IsOrdinary events
    → serve net events s ≢ fault
serve-ne-fault net events s r h o e = subst (Safe (λ _. Unit {0})) e (serve-Safe net events s r h o)
