-- ===== src/Server/Changes.antt =====
-- What each round of the server does to the list of clients: nothing, or a change under one nick.
use mathlib.Core.Path.{subst}
use upush_chat.Base.{
  ℕ, ◌≤◌, ◌<◌, ◌≡◌, sym, ◌∙◌, none, some, List, ◌∷◌, ◌++◌, arith, Bytes, codes, leb, length, All,
  Bool-cases, Option-cases, inl, inr, ◌⊎◌,
}
use upush_chat.Int.{ltb_ℤ, pos}
use upush_chat.Common.Nick.{IsNickChar}
use upush_chat.Common.{bufsize}
use upush_chat.Network.{SockaddrIn, Net, Env, get_ip_and_port, send_packet}
use upush_chat.Outcome.{ok, or_quit, or_fault, >>=-eq-ok, sprintf}
use upush_chat.ServerClient.{
  ServerClient, create_client, add_server_client_to_list, find_client_by_nick,
  dettach_client_from_list, get_seconds_since_last_heartbeat,
}
use upush_chat.Server.Clients.{find, erase, replace, nick-find}
use upush_chat.Server.Requests.{words, answer_cases, is_command_iff}
use upush_chat.Server.{
  Server, refresh_client, record_client, reply, register_client, answer_lookup, lookup_client,
  not_found, found, is_command, is_reg_message, is_lookup_message, dispatch, starts_with_newline,
  Event, select_fails, recvfrom_fails, datagram, round,
}

pub refresh_client_fields :
    (env : Env) (tmp c : ServerClient) (ip : Bytes) (port : ℕ)
    → refresh_client env tmp ip port ≡ ok c
    → (c.nick ≡ tmp.nick) × (c.port ≡ port)
unfolding refresh_client
refresh_client_fields env tmp c ip port e = ground arith

get_ip_and_port_range :
    (net : Net) (src : SockaddrIn) (ip : Bytes) (port : ℕ)
    → get_ip_and_port net src ≡ some (ip, port)
    → (1024 ≤ port) × (port ≤ 65535)
unfolding get_ip_and_port
get_ip_and_port_range net src ip port e = ground arith

pub create_client_fields :
    (env : Env) (nick ip : Bytes) (port : ℕ) (c : ServerClient)
    → create_client env nick ip port ≡ some c
    → (c.nick ≡ nick) × (c.port ≡ port)
unfolding create_client
create_client_fields env nick ip port c e = ground arith

-- A registration that succeeds adds a client with a new nick, or replaces the one of that nick.
pub data Recorded (nick : Bytes) (port : ℕ) (cs cs' : List ServerClient) : Type 0 where
  added :
      (c : ServerClient)
      → find nick cs ≡ none
      → cs' ≡ c ∷ cs
      → c.nick ≡ nick
      → c.port ≡ port
      → Recorded nick port cs cs'
  changed :
      (tmp c : ServerClient)
      → find nick cs ≡ some tmp
      → cs' ≡ replace nick c cs
      → c.nick ≡ nick
      → c.port ≡ port
      → Recorded nick port cs cs'

pub record_client-Recorded :
    (env : Env) (nick ip : Bytes) (port : ℕ) (cs cs' : List ServerClient)
    → record_client env nick ip port cs ≡ ok cs'
    → Recorded nick port cs cs'
unfolding find_client_by_nick record_client
record_client-Recorded env nick ip port cs cs' e = elim (Option-cases (find nick cs)) [
  | inl new ↦
      let e' = rw (new, record_client) at e in
      let (c, e1, e2) = >>=-eq-ok (or_quit (create_client env nick ip port)) _ e' in
      let made : create_client env nick ip port ≡ some c = ground arith in
      let (n, p) = create_client_fields env nick ip port c made in
      added c new (unfold add_server_client_to_list in ground arith) n p
  | inr (tmp, old) ↦
      let e' = rw (old, record_client) at e in
      let (c, e1, e2) = >>=-eq-ok (refresh_client env tmp ip port) _ e' in
      let (n, p) = refresh_client_fields env tmp c ip port e1 in
      changed tmp c old (cc) (n ∙ nick-find nick tmp cs old) p
]

reply-client_list :
    (env : Env) (src : SockaddrIn) (response : Bytes) (s s' : Server)
    → reply env src response s ≡ ok s'
    → s'.client_list ≡ s.client_list
unfolding reply
reply-client_list env src response s s' e =
    let (packets, _, e') = >>=-eq-ok (or_quit (send_packet env _)) _ e in cc

-- What a registration that succeeds has done to the list.
pub register_client-Recorded :
    (net : Net) (env : Env) (cmd number nick : Bytes) (src : SockaddrIn) (s s' : Server)
    → register_client net env (words cmd number nick) src s ≡ ok s'
    → (port : ℕ) × ((1024 ≤ port) × (port ≤ 65535))
      × Recorded nick port s.client_list s'.client_list
unfolding register_client
register_client-Recorded net env cmd number nick src s s' e =
    let ((ip, port), e1, f1) = >>=-eq-ok (or_quit (get_ip_and_port net src)) _ e in
    let (cs, e2, f2) = >>=-eq-ok (record_client env nick ip port s.client_list) _ f1 in
    let (response, e3, f3) = >>=-eq-ok (sprintf (codes "ACK " ++ number ++ codes " OK")) _ f2 in
    let known : get_ip_and_port net src ≡ some (ip, port) = ground arith in
    (
      port,
      get_ip_and_port_range net src ip port known,
      subst (Recorded nick port s.client_list) (sym (reply-client_list env src response _ s' f3))
          (record_client-Recorded env nick ip port s.client_list cs e2),
    )

-- A look-up that succeeds leaves the list, or erases the client of that nick.
pub answer_lookup-erase :
    (env : Env) (number nick response : Bytes) (cs cs' : List ServerClient)
    → answer_lookup env number nick cs ≡ ok (response, cs')
    → (cs' ≡ cs) ⊎ (cs' ≡ erase nick cs)
unfolding find_client_by_nick answer_lookup dettach_client_from_list
answer_lookup-erase env number nick response cs cs' e = elim (Option-cases (find nick cs)) [
  | inl new ↦
      let e' = rw (new, answer_lookup) at e in
      let (_, _, same) = >>=-eq-ok (sprintf (not_found number)) _ e' in inl cc
  | inr (tmp, old) ↦ elim (Bool-cases (ltb_ℤ (pos 30) (get_seconds_since_last_heartbeat env tmp))) [
    | inl late ↦
        let e' = rw (old, answer_lookup, late) at e in
        let (_, _, gone) = >>=-eq-ok (sprintf (not_found number)) _ e' in
        inr (cc (nick-find nick tmp cs old))
    | inr fresh ↦
        let e' = rw (old, answer_lookup, fresh) at e in
        let (ip, _, f) = >>=-eq-ok (or_fault tmp.ip_address) _ e' in
        let (_, _, same) = >>=-eq-ok (sprintf (found number tmp.nick ip tmp.port)) _ f in inl cc
  ]
]

-- One command that succeeds, as a change of the list under one nick.
pub data Change (cs : List ServerClient) : List ServerClient → Type 0 where
  keep : {cs' : List ServerClient} → cs' ≡ cs → Change cs cs'
  forget : {cs' : List ServerClient} (nick : Bytes) → cs' ≡ erase nick cs → Change cs cs'
  register :
      {cs' : List ServerClient} (nick : Bytes) (port : ℕ)
      → (length nick < 20) × All IsNickChar nick
      → (1024 ≤ port) × (port ≤ 65535)
      → Recorded nick port cs cs'
      → Change cs cs'

lookup_client-Change :
    (env : Env) (cmd number nick : Bytes) (src : SockaddrIn) (s s' : Server)
    → lookup_client env (words cmd number nick) src s ≡ ok s'
    → Change s.client_list s'.client_list
unfolding lookup_client
lookup_client-Change env cmd number nick src s s' e =
    let ((response, cs), e1, f1) = >>=-eq-ok (answer_lookup env number nick s.client_list) _ e in
    let same = reply-client_list env src response _ s' f1 in
    elim (answer_lookup-erase env number nick response s.client_list cs e1) [
      | inl k ↦ keep (same ∙ k)
      | inr k ↦ forget nick (same ∙ k)
    ]

dispatch-Change :
    (net : Net) (env : Env) (src : SockaddrIn) (parsed : List Bytes) (s s' : Server)
    → dispatch net env src parsed s ≡ ok s'
    → Change s.client_list s'.client_list
unfolding dispatch is_reg_message is_lookup_message
dispatch-Change net env src parsed s s' e = elim (answer_cases (is_command (codes "REG") parsed)) [
  | inl odd ↦ let end = rw odd at e in cc
  | inr (inl reg) ↦
      let (number, nick, w, _, short, chars) = (is_command_iff _ parsed).0 reg in
      let run : register_client net env (words (codes "REG") number nick) src s ≡ ok s' =
        rw (← w) (rw reg at e) in
      let (port, range, r) = register_client-Recorded net env _ number nick src s s' run in
      register nick port (short, chars) range r
  | inr (inr other) ↦ elim (answer_cases (is_command (codes "LOOKUP") parsed)) [
    | inl odd ↦ let end = rw (other, odd) at e in cc
    | inr (inl look) ↦
        let (number, nick, w, _, _, _) = (is_command_iff _ parsed).0 look in
        let run : lookup_client env (words (codes "LOOKUP") number nick) src s ≡ ok s' =
          rw (← w) (rw (other, look) at e) in
        lookup_client-Change env _ number nick src s s' run
    | inr (inr skipped) ↦ let end = rw (other, skipped) at e in keep cc
  ]
]

pub round-Change :
    (net : Net) (env : Env) (event : Event) (s s' : Server)
    → round net env event s ≡ ok s'
    → Change s.client_list s'.client_list
unfolding round
round-Change net env select_fails s s' e = cc
round-Change net env recvfrom_fails s s' e = cc
round-Change net env (datagram src bytes) s s' e = elim (Bool-cases (starts_with_newline bytes)) [
  | inl skipped ↦ keep (ground arith)
  | inr text ↦ elim (Bool-cases (leb bufsize (length bytes))) [
    | inl full ↦ absurd (ground arith)
    | inr fits ↦ dispatch-Change net env src _ s s' (rw (text, fits) at e)
  ]
]
