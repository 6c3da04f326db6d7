-- ===== src/Client/Connected.antt =====
-- When the client gets to its loop: the registration, and `main` as a whole.
use upush_chat.Base.{
  ◌<◌, ◌≡◌, ◌↔◌, refl, ap, ◌∙◌, subst, true, false, ◌||◌, some, List, [], ◌∷◌, ◌++◌, arith, Bytes,
  codes, length, if◌then◌else◌, Option-cases, inl, inr,
}
use upush_chat.Int.{ℤ, pos, negsuc, ltb_ℤ, eq_ℤ}
use upush_chat.TimeFunctions.{Timeval}
use upush_chat.Strings.{atoi, decimal}
use upush_chat.Common.Nick.{is_word_valid_nick_iff}
use upush_chat.Network.{Net, Packet, SockaddrIn, send_packet, set_values_in_IPv4_addr}
use upush_chat.Outcome.{sprintf}
use upush_chat.Startup.{
  Startup, goes_on, >>=-eq-goes_on, System, check_error_perror, check_zero_error_stderr,
  create_IPv4_udp_socket, bind_sockaddr_to_fd, try_to_set_loss_probability,
}
use upush_chat.Client.{World, Client, gettimeofday, send_to, ◌>>=◌, next_message_number_server}
use upush_chat.Client.ToServer.{send_reg_msg_to_server}
use upush_chat.Client.Start.{validate_input_params, set_up_socket, set_up_client, register, start}
use upush_chat.Client.Started.{
  Params, validate_input_params_iff, all_blocks, fresh, address_of, set_up_client-fresh,
  set_up_client-blocks,
}

socket_works :
    (net : Net) (sys : System)
    → (set_up_socket net sys ≡ goes_on tt) ↔ (eq_ℤ sys.socket (negsuc 0) ≡ false)
unfolding set_up_socket check_error_perror create_IPv4_udp_socket bind_sockaddr_to_fd
    set_values_in_IPv4_addr
socket_works net sys = ground arith

-- What reaches the network of the registration: nothing when it is lost.
abbrev pub registration : World → Bytes → SockaddrIn → List Packet
registration w nick addr =
    if (w.env 0).lost then [] else record { dest = addr; payload = codes "PKT 0 REG " ++ nick } ∷ []

abbrev pub connected : World → Bytes → ℤ → SockaddrIn → Timeval → Client
connected w nick timeout addr now = record (fresh nick timeout addr) {
  network = registration w nick addr;
  calls = 2;
  last_heartbeat_time = now;
}

register-connected :
    (w : World) (sys : System) (nick : Bytes) (timeout : ℤ) (addr : SockaddrIn) (now : Timeval)
    → length nick < 20
    → ((w.env 0).lost || (w.env 0).sendto_works) ≡ true
    → (eq_ℤ sys.first_select (negsuc 0) || eq_ℤ sys.first_select (pos 0)) ≡ false
    → (w.env 1).now ≡ some now
    → register w sys (fresh nick timeout addr) ≡ goes_on (connected w nick timeout addr now)
unfolding register send_reg_msg_to_server gettimeofday send_to send_packet sprintf
    check_error_perror check_zero_error_stderr next_message_number_server decimal ◌>>=◌
register-connected w sys nick timeout addr now short sent answered clock = ground arith

connected-register :
    (w : World) (sys : System) (nick : Bytes) (timeout : ℤ) (addr : SockaddrIn) (s : Client)
    → register w sys (fresh nick timeout addr) ≡ goes_on s
    → (now : Timeval) × (((w.env 0).lost || (w.env 0).sendto_works) ≡ true)
      × ((eq_ℤ sys.first_select (negsuc 0) || eq_ℤ sys.first_select (pos 0)) ≡ false)
      × ((w.env 1).now ≡ some now)
unfolding register send_reg_msg_to_server gettimeofday send_to send_packet sprintf
    check_error_perror check_zero_error_stderr next_message_number_server decimal ◌>>=◌
connected-register w sys nick timeout addr s e = elim (Option-cases (w.env 1).now) [
  | inl none_left ↦ ground arith
  | inr (now, clock) ↦ (now, ground arith, ground arith, clock)
]

-- The parameters are valid, and every call but `bind` succeeds.
pub record Connects (w : World) (sys : System) (argv : List Bytes) (loss : ℤ) (s : Client)
    : Type 0 where
  pub params : Params w.net argv
  pub socket : eq_ℤ sys.socket (negsuc 0) ≡ false
  pub blocks : all_blocks sys ≡ true
  pub sent : ((w.env 0).lost || (w.env 0).sendto_works) ≡ true
  pub answered : (eq_ℤ sys.first_select (negsuc 0) || eq_ℤ sys.first_select (pos 0)) ≡ false
  pub now : Timeval
  pub clock : (w.env 1).now ≡ some now
  pub same_loss : loss ≡ params.loss
  pub same_client :
      s ≡ connected w params.nick params.timeout (address_of w.net params.port params.addr) now

loss_set :
    (p_loss : Bytes) (loss : ℤ)
    → atoi p_loss ≡ some loss
    → ltb_ℤ loss (pos 0) ≡ false
    → ltb_ℤ (pos 100) loss ≡ false
    → try_to_set_loss_probability p_loss ≡ goes_on loss
unfolding try_to_set_loss_probability
loss_set p_loss loss e f g = ground arith

start-goes_on :
    (w : World) (sys : System) (program nick ip port_c timeout_c p_loss : Bytes) (loss : ℤ)
    (s0 s : Client)
    → (let argv = program ∷ nick ∷ ip ∷ port_c ∷ timeout_c ∷ p_loss ∷ [] in
        validate_input_params w.net argv ≡ goes_on tt
        → try_to_set_loss_probability p_loss ≡ goes_on loss
        → set_up_socket w.net sys ≡ goes_on tt
        → set_up_client w.net sys argv ≡ goes_on s0
        → register w sys s0 ≡ goes_on s
        → start w sys argv ≡ goes_on (loss, s))
unfolding start
start-goes_on w sys program nick ip port_c timeout_c p_loss loss s0 s a b c d e =
    rw (a, b, c, d, e) refl

same_parts :
    (l loss : ℤ) (t s : Client)
    → ◌≡◌ {A = Startup (ℤ × Client)} (goes_on (l, t)) (goes_on (loss, s))
    → (l ≡ loss) × (t ≡ s)
same_parts l loss t s e = (cc, cc)

goes_on-start :
    (w : World) (sys : System) (program nick ip port_c timeout_c p_loss : Bytes) (loss : ℤ)
    (s : Client)
    → (let argv = program ∷ nick ∷ ip ∷ port_c ∷ timeout_c ∷ p_loss ∷ [] in
        start w sys argv ≡ goes_on (loss, s)
        → (s0 : Client) × (validate_input_params w.net argv ≡ goes_on tt)
          × (try_to_set_loss_probability p_loss ≡ goes_on loss)
          × (set_up_socket w.net sys ≡ goes_on tt)
          × (set_up_client w.net sys argv ≡ goes_on s0)
          × (register w sys s0 ≡ goes_on s))
unfolding start
goes_on-start w sys program nick ip port_c timeout_c p_loss loss s e =
    let argv : List Bytes = program ∷ nick ∷ ip ∷ port_c ∷ timeout_c ∷ p_loss ∷ [] in
    let (_, valid, e1) = >>=-eq-goes_on (validate_input_params w.net argv) _ e in
    let (l, lost, e2) = >>=-eq-goes_on (try_to_set_loss_probability p_loss) _ e1 in
    let (_, bound, e3) = >>=-eq-goes_on (set_up_socket w.net sys) _ e2 in
    let (s0, up, e4) = >>=-eq-goes_on (set_up_client w.net sys argv) _ e3 in
    let (s1, reg, e5) = >>=-eq-goes_on (register w sys s0) _ e4 in
    let same : (l ≡ loss) × (s1 ≡ s) = same_parts l loss s1 s e5 in
    (s0, valid, lost ∙ ap goes_on same.0, bound, up, reg ∙ ap goes_on same.1)

connects :
    (w : World) (sys : System) (argv : List Bytes) (loss : ℤ) (s : Client)
    → Connects w sys argv loss s
    → start w sys argv ≡ goes_on (loss, s)
connects w sys argv loss s h =
    let p = h.params in
    let addr = address_of w.net p.port p.addr in
    let short = ((is_word_valid_nick_iff p.nick).0 p.valid_nick).0 in
    let valid =
      subst (λ a. validate_input_params w.net a ≡ goes_on tt) p.params
        ((validate_input_params_iff w.net argv).1 p) in
    let set =
      set_up_client-fresh w.net sys p.program p.nick p.ip p.port_c p.timeout_c p.p_loss p.addr
        p.port p.timeout p.addr_read p.port_read p.timeout_read h.blocks in
    let run =
      start-goes_on w sys p.program p.nick p.ip p.port_c p.timeout_c p.p_loss p.loss
        (fresh p.nick p.timeout addr) (connected w p.nick p.timeout addr h.now) valid
        (loss_set p.p_loss p.loss p.loss_read p.loss_least p.loss_most)
        ((socket_works w.net sys).1 h.socket) set
        (register-connected w sys p.nick p.timeout addr h.now short h.sent h.answered h.clock) in
    rw (p.params, h.same_loss, h.same_client) run

start-validated :
    (w : World) (sys : System) (argv : List Bytes) (loss : ℤ) (s : Client)
    → start w sys argv ≡ goes_on (loss, s)
    → validate_input_params w.net argv ≡ goes_on tt
unfolding start
start-validated w sys argv loss s e = (>>=-eq-goes_on (validate_input_params w.net argv) _ e).1

goes_on-same {ℓ} : {A : Type ℓ} {m : Startup A} {a b : A} → m ≡ goes_on a → m ≡ goes_on b → a ≡ b
goes_on-same e f = cc

start-Connects :
    (w : World) (sys : System) (argv : List Bytes) (loss : ℤ) (s : Client)
    → start w sys argv ≡ goes_on (loss, s)
    → Connects w sys argv loss s
start-Connects w sys argv loss s e =
    let p = (validate_input_params_iff w.net argv).0 (start-validated w sys argv loss s e) in
    let addr = address_of w.net p.port p.addr in
    let short = ((is_word_valid_nick_iff p.nick).0 p.valid_nick).0 in
    let (s0, _, lost, bound, up, reg) =
      goes_on-start w sys p.program p.nick p.ip p.port_c p.timeout_c p.p_loss loss s
        (subst (λ a. start w sys a ≡ goes_on (loss, s)) p.params e) in
    let blocks = set_up_client-blocks w.net sys _ s0 up in
    let set =
      set_up_client-fresh w.net sys p.program p.nick p.ip p.port_c p.timeout_c p.p_loss p.addr
        p.port p.timeout p.addr_read p.port_read p.timeout_read blocks in
    let reg_fresh = subst (λ c. register w sys c ≡ goes_on s) (goes_on-same up set) reg in
    let (now, sent, answered, clock) = connected-register w sys p.nick p.timeout addr s reg_fresh in
    record {
      params = p;
      socket = (socket_works w.net sys).0 bound;
      blocks = blocks;
      sent = sent;
      answered = answered;
      now = now;
      clock = clock;
      same_loss = goes_on-same lost (loss_set p.p_loss p.loss p.loss_read p.loss_least p.loss_most);
      same_client =
          goes_on-same reg_fresh
            (register-connected w sys p.nick p.timeout addr now short sent answered clock);
    }

-- The client gets to its loop just when its parameters are valid, all its blocks are allocated, the
-- socket is created, the registration is lost or sent, the first `select` reports something and the
-- clock is read; whether `bind` fails does not matter. It then has no contacts and blocks no nick,
-- and the registration under the number 0 is all that it has sent.
pub start_client_iff :
    (w : World) (sys : System) (argv : List Bytes) (loss : ℤ) (s : Client)
    → (start w sys argv ≡ goes_on (loss, s)) ↔ Connects w sys argv loss s
start_client_iff w sys argv loss s = (start-Connects w sys argv loss s, connects w sys argv loss s)
