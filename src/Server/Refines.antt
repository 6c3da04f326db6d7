-- ===== src/Server/Refines.antt =====
-- The server over its list of clients does what the directory says.
use mathlib.Core.Path.{fun_ext}
use upush_chat.Base.{
  ℕ, ◌≡◌, refl, true, false, sym, ap, ◌∙◌, none, some, List, [], ◌∷◌, ◌++◌, arith, Bytes, codes,
  leb, length, Bool-cases, Option-cases, inl, inr,
}
use upush_chat.Int.{ltb_ℤ, pos}
use upush_chat.Strings.{c_string}
use upush_chat.Common.{bufsize, parse_message}
use upush_chat.Network.{SockaddrIn, Net, get_ip_and_port, Env, send_packet}
use upush_chat.Outcome.{ok, or_quit, or_fault, sprintf, entry, image, image-bind, image-after}
use upush_chat.ServerClient.{
  ServerClient, create_client, find_client_by_nick, add_server_client_to_list,
  dettach_client_from_list, get_seconds_since_last_heartbeat,
}
use upush_chat.Server.Clients.{find, erase, replace, find-replace, find-erase, nick-find, Distinct}
use upush_chat.Server.Changes.{create_client_fields, refresh_client_fields}
use upush_chat.Server.Requests.{answer_cases}
use upush_chat.Server.Registry.{IsRegistry, round-IsRegistry}
use upush_chat.Server.Directory.{Clients, Directory, put, enter, answer, respond, obey, step, steps}
use upush_chat.Server.{
  Server, refresh_client, record_client, reply, register_client, answer_lookup, lookup_client,
  not_found, found, is_reg_message, is_lookup_message, dispatch, starts_with_newline, Event,
  select_fails, recvfrom_fails, datagram, round, serve,
}

-- The list, as the look-up in it.
abbrev pub look : List ServerClient → Clients
look cs nick = find nick cs

abbrev pub view : Server → Directory
view s = record { clients = look s.client_list; network = s.network }

look-cons :
    (nick : Bytes) (c : ServerClient) (cs : List ServerClient)
    → c.nick ≡ nick
    → look (c ∷ cs) ≡ put nick (some c) (look cs)
look-cons nick c cs e = fun_ext λ j. rw e refl

look-replace :
    (nick : Bytes) (t c : ServerClient) (cs : List ServerClient)
    → c.nick ≡ nick
    → find nick cs ≡ some t
    → look (replace nick c cs) ≡ put nick (some c) (look cs)
look-replace nick t c cs e h = fun_ext λ j. find-replace nick j t c cs e h

look-erase :
    (nick : Bytes) (cs : List ServerClient)
    → Distinct cs
    → look (erase nick cs) ≡ put nick none (look cs)
look-erase nick cs d = fun_ext λ j. find-erase nick j cs d

record_client-enter :
    (env : Env) (nick ip : Bytes) (port : ℕ) (cs : List ServerClient)
    → image look (record_client env nick ip port cs) ≡ enter env nick ip port (look cs)
unfolding record_client enter find_client_by_nick add_server_client_to_list
record_client-enter env nick ip port cs = elim (Option-cases (find nick cs)) [
  | inl new ↦
      rw (new, record_client, enter)
        (image-after look (or_quit (create_client env nick ip port)) _ _ λ c made.
          let (n, p) = create_client_fields env nick ip port c (ground arith) in
          elim (Bool-cases env.node_block) [
            | inl room ↦ rw room (ap ok (look-cons nick c cs n))
            | inr full ↦ rw full refl
          ])
  | inr (tmp, old) ↦
      rw (old, record_client, enter)
        (image-after look (refresh_client env tmp ip port) _ _ λ c made.
          let (n, p) = refresh_client_fields env tmp c ip port made in
          ap ok (look-replace nick tmp c cs (n ∙ nick-find nick tmp cs old) old))
]

answer_lookup-answer :
    (env : Env) (number nick : Bytes) (cs : List ServerClient)
    → Distinct cs
    → image (λ p. (p.0, look p.1)) (answer_lookup env number nick cs)
      ≡ answer env number nick (look cs)
unfolding answer_lookup answer find_client_by_nick dettach_client_from_list
answer_lookup-answer env number nick cs d = elim (Option-cases (find nick cs)) [
  | inl new ↦
      rw (new, answer_lookup, answer)
        (image-after (λ p. (p.0, look p.1)) (sprintf (not_found number)) _ _ λ r _. refl)
  | inr (c, old) ↦ elim (Bool-cases (ltb_ℤ (pos 30) (get_seconds_since_last_heartbeat env c))) [
    | inl late ↦
        rw (old, answer_lookup, answer, late)
          (image-after (λ p. (p.0, look p.1)) (sprintf (not_found number)) _ _
            λ r _.
              ap (λ cs'. ok (r, cs'))
                (ap (λ n. look (erase n cs)) (nick-find nick c cs old) ∙ look-erase nick cs d))
    | inr heard ↦
        rw (old, answer_lookup, answer, heard)
          (image-after (λ p. (p.0, look p.1)) (or_fault c.ip_address) _ _
            λ ip _.
              image-after (λ p. (p.0, look p.1)) (sprintf (found number c.nick ip c.port)) _ _
                λ r _. refl)
  ]
]

reply-respond :
    (env : Env) (src : SockaddrIn) (response : Bytes) (s : Server)
    → image view (reply env src response s) ≡ respond env src response (view s)
unfolding reply respond
reply-respond env src response s =
    image-after view (or_quit (send_packet env _)) _ _ λ packets _. refl

module _ (net : Net) (env : Env) where
  register_client-obey :
      (src : SockaddrIn) (words : List Bytes) (s : Server)
      → is_reg_message words ≡ some true
      → image view (register_client net env words src s) ≡ obey net env src words (view s)
  unfolding register_client obey
  register_client-obey src words s reg = rw reg (
      image-after view (entry words 3) _ _ λ nick _.
        image-after view (entry words 1) _ _ λ number _.
          image-after view (or_quit (get_ip_and_port net src)) _ _ λ addr _.
            rw (← record_client-enter env nick addr.0 addr.1 s.client_list) (
              image-bind look view (record_client env nick addr.0 addr.1 s.client_list) _ _ λ cs _.
                image-after view (sprintf (codes "ACK " ++ number ++ codes " OK")) _ _
                  λ r _. reply-respond env src r (record s { client_list = cs })))

  lookup_client-obey :
      (src : SockaddrIn) (words : List Bytes) (s : Server)
      → Distinct s.client_list
      → is_reg_message words ≡ some false
      → is_lookup_message words ≡ some true
      → image view (lookup_client env words src s) ≡ obey net env src words (view s)
  unfolding lookup_client obey
  lookup_client-obey src words s d other asked =
      rw (other, asked)
        (image-after view (entry words 1) _ _ λ number _.
          image-after view (entry words 3) _ _ λ nick _.
            rw (← answer_lookup-answer env number nick s.client_list d) (
              image-bind (λ p. (p.0, look p.1)) view (answer_lookup env number nick s.client_list) _
                _ λ p _. reply-respond env src p.0 (record s { client_list = p.1 })))

  dispatch-obey :
      (src : SockaddrIn) (words : List Bytes) (s : Server)
      → Distinct s.client_list
      → image view (dispatch net env src words s) ≡ obey net env src words (view s)
  unfolding dispatch
  dispatch-obey src words s d = elim (answer_cases (is_reg_message words)) [
    | inl odd ↦ rw (odd, dispatch) (unfold obey in rw odd refl)
    | inr (inl reg) ↦ rw (reg, dispatch) (register_client-obey src words s reg)
    | inr (inr other) ↦ elim (answer_cases (is_lookup_message words)) [
      | inl odd ↦ rw (other, odd, dispatch) (unfold obey in rw (other, odd) refl)
      | inr (inl asked) ↦ rw (other, asked, dispatch) (lookup_client-obey src words s d other asked)
      | inr (inr skipped) ↦ rw (other, skipped, dispatch) (unfold obey in rw (other, skipped) refl)
    ]
  ]

  round-step :
      (event : Event) (s : Server)
      → Distinct s.client_list
      → image view (round net env event s) ≡ step net env event (view s)
  unfolding round step
  round-step select_fails s d = refl
  round-step recvfrom_fails s d = refl
  round-step (datagram src bytes) s d = elim (Bool-cases (starts_with_newline bytes)) [
    | inl skipped ↦ rw skipped refl
    | inr text ↦ elim (Bool-cases (leb bufsize (length bytes))) [
      | inl full ↦ rw (text, full) refl
      | inr fits ↦ rw (text, fits) (dispatch-obey src (parse_message (c_string bytes) 4) s d)
    ]
  ]

-- From a registry in order, every run of the server, whatever it hears and whichever calls fail,
-- ends as the run of the directory does: with the same client under each nick and the same packets
-- sent, by the end of the process, or in undefined behaviour.
pub serve_refines :
    (net : Net) (events : List (Env × Event)) (s : Server)
    → IsRegistry s.client_list
    → image view (serve net events s) ≡ steps net events (view s)
unfolding serve steps
serve_refines net [] s r = refl
serve_refines net ((env, event) ∷ events) s r = rw (← round-step net env event s r.distinct) (
    image-bind view view (round net env event s) _ _
      λ t e. serve_refines net events t (round-IsRegistry net env event s t r e))

-- From two registries in order that have the same client under each nick, and have sent the same
-- packets, the server runs alike, whatever the order of the two lists: it ends in the same way, and
-- has again the same client under each nick and the same packets sent.
pub serve_any_order :
    (net : Net) (events : List (Env × Event)) (s t : Server)
    → IsRegistry s.client_list
    → IsRegistry t.client_list
    → ((nick : Bytes) → find nick s.client_list ≡ find nick t.client_list)
    → s.network ≡ t.network
    → image view (serve net events s) ≡ image view (serve net events t)
serve_any_order net events s t rs rt same sent =
    let views : view s ≡ view t =
      ap (λ c. record { clients = c; network = s.network }) (fun_ext same)
      ∙ ap (λ n. record { clients = look t.client_list; network = n }) sent in
    serve_refines net events s rs
    ∙ ap (steps net events) views
    ∙ sym (serve_refines net events t rt)
