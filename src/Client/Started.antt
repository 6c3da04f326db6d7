-- ===== src/Client/Started.antt =====
-- When the client starts, and what it has sent by then.
use upush_chat.Base.{
  ℕ, ◌≡◌, ◌↔◌, refl, sym, ap, ◌∙◌, subst, Bool, true, false, ◌&&◌, some, List, [], ◌∷◌, arith,
  Bytes, Option-cases, inl, inr,
}
use upush_chat.Int.{ℤ, pos, ltb_ℤ}
use upush_chat.Strings.{atoi}
use upush_chat.Common.{is_word_valid_nick}
use upush_chat.Network.{Net, SockaddrIn, set_values_in_IPv4_addr, to_uint16}
use upush_chat.Startup.{goes_on, System, create_list, malloc, check_null_error_stderr}
use upush_chat.Client.{Client}
use upush_chat.Client.Start.{
  validate_input_params, init_client_server, init_contact_list, init_blocked_nick_list,
  set_up_client,
}

-- The values of the parameters.
pub record Params (net : Net) (argv : List Bytes) : Type 0 where
  pub program : Bytes
  pub nick : Bytes
  pub ip : Bytes
  pub port_c : Bytes
  pub timeout_c : Bytes
  pub p_loss : Bytes
  pub addr : ℕ
  pub port : ℤ
  pub timeout : ℤ
  pub loss : ℤ
  pub params : argv ≡ program ∷ nick ∷ ip ∷ port_c ∷ timeout_c ∷ p_loss ∷ []
  pub valid_nick : is_word_valid_nick nick ≡ true
  pub addr_read : net.inet_pton ip ≡ some addr
  pub port_read : atoi port_c ≡ some port
  pub port_least : ltb_ℤ port (pos 1024) ≡ false
  pub port_most : ltb_ℤ (pos 65535) port ≡ false
  pub timeout_read : atoi timeout_c ≡ some timeout
  pub timeout_least : ltb_ℤ timeout (pos 0) ≡ false
  pub loss_read : atoi p_loss ≡ some loss
  pub loss_least : ltb_ℤ loss (pos 0) ≡ false
  pub loss_most : ltb_ℤ (pos 100) loss ≡ false

six_params :
    (net : Net) (argv : List Bytes)
    → validate_input_params net argv ≡ goes_on tt
    → (program nick ip port_c timeout_c p_loss : Bytes) × (argv
        ≡ program ∷ nick ∷ ip ∷ port_c ∷ timeout_c ∷ p_loss ∷ [])
unfolding validate_input_params
six_params net [] e = ground arith
six_params net (_ ∷ []) e = ground arith
six_params net (_ ∷ _ ∷ []) e = ground arith
six_params net (_ ∷ _ ∷ _ ∷ []) e = ground arith
six_params net (_ ∷ _ ∷ _ ∷ _ ∷ []) e = ground arith
six_params net (_ ∷ _ ∷ _ ∷ _ ∷ _ ∷ []) e = ground arith
six_params net (a ∷ b ∷ c ∷ d ∷ f ∷ g ∷ []) e = (a, b, c, d, f, g, refl)
six_params net (_ ∷ _ ∷ _ ∷ _ ∷ _ ∷ _ ∷ _ ∷ argv) e = ground arith

six-Params :
    (net : Net) (program nick ip port_c timeout_c p_loss : Bytes)
    → (let argv = program ∷ nick ∷ ip ∷ port_c ∷ timeout_c ∷ p_loss ∷ [] in
        validate_input_params net argv ≡ goes_on tt → Params net argv)
unfolding validate_input_params
six-Params net program nick ip port_c timeout_c p_loss e = elim (Option-cases (net.inet_pton ip)) [
  | inl f ↦ ground arith
  | inr (a, f) ↦ elim (Option-cases (atoi port_c)) [
    | inl g ↦ ground arith
    | inr (port, g) ↦ elim (Option-cases (atoi timeout_c)) [
      | inl h ↦ ground arith
      | inr (timeout, h) ↦ elim (Option-cases (atoi p_loss)) [
        | inl k ↦ ground arith
        | inr (loss, k) ↦ record {
          program = program;
          nick = nick;
          ip = ip;
          port_c = port_c;
          timeout_c = timeout_c;
          p_loss = p_loss;
          addr = a;
          port = port;
          timeout = timeout;
          loss = loss;
          params = refl;
          valid_nick = ground arith;
          addr_read = f;
          port_read = g;
          port_least = ground arith;
          port_most = ground arith;
          timeout_read = h;
          timeout_least = ground arith;
          loss_read = k;
          loss_least = ground arith;
          loss_most = ground arith;
        }
      ]
    ]
  ]
]

six_params-valid :
    (net : Net) (program nick ip port_c timeout_c p_loss : Bytes) (addr : ℕ) (port timeout loss : ℤ)
    → is_word_valid_nick nick ≡ true
    → net.inet_pton ip ≡ some addr
    → atoi port_c ≡ some port
    → ltb_ℤ port (pos 1024) ≡ false
    → ltb_ℤ (pos 65535) port ≡ false
    → atoi timeout_c ≡ some timeout
    → ltb_ℤ timeout (pos 0) ≡ false
    → atoi p_loss ≡ some loss
    → ltb_ℤ loss (pos 0) ≡ false
    → ltb_ℤ (pos 100) loss ≡ false
    → validate_input_params net (program ∷ nick ∷ ip ∷ port_c ∷ timeout_c ∷ p_loss ∷ [])
      ≡ goes_on tt
unfolding validate_input_params
six_params-valid net program nick ip port_c timeout_c p_loss addr port timeout loss a b c d e f g h
      i j =
    ground arith

pub validate_input_params_iff :
    (net : Net) (argv : List Bytes)
    → (validate_input_params net argv ≡ goes_on tt) ↔ Params net argv
validate_input_params_iff net argv = (
  λ e.
      let (program, nick, ip, port_c, timeout_c, p_loss, same) = six_params net argv e in
      subst (Params net) (sym same) (
        six-Params net program nick ip port_c timeout_c p_loss
          (subst (λ a. validate_input_params net a ≡ goes_on tt) same e)),
  λ h.
      ap (validate_input_params net) h.params
      ∙ six_params-valid net h.program h.nick h.ip h.port_c h.timeout_c h.p_loss h.addr h.port
          h.timeout h.loss h.valid_nick h.addr_read h.port_read h.port_least h.port_most
          h.timeout_read h.timeout_least h.loss_read h.loss_least h.loss_most,
)

-- The nine blocks of the client's variables.
abbrev pub all_blocks : System → Bool
all_blocks sys =
    sys.blocks 0
    && sys.blocks 1
    && (sys.blocks 2 && sys.blocks 3 && sys.blocks 4)
    && (sys.blocks 5 && sys.blocks 6 && sys.blocks 7)
    && sys.blocks 8

-- The client with its variables set.
abbrev pub fresh : (nick : Bytes) (timeout : ℤ) (server_addr : SockaddrIn) → Client
fresh nick timeout server_addr = record {
  client_nick = nick;
  timeout_sec = timeout;
  server_addr = server_addr;
  last_ack_received = 1;
  contact_list = [];
  blocked_list = [];
  last_heartbeat_time = record { tv_sec = pos 0; tv_usec = pos 0 };
  network = [];
  shown = [];
  calls = 0;
}

abbrev pub address_of : Net → ℤ → ℕ → SockaddrIn
address_of net port addr = record {
  sin_family = net.af_inet;
  sin_port = net.htons (to_uint16 port);
  s_addr = addr;
}

pub set_up_client-fresh :
    (net : Net) (sys : System) (program nick ip port_c timeout_c p_loss : Bytes) (addr : ℕ)
    (port timeout : ℤ)
    → net.inet_pton ip ≡ some addr
    → atoi port_c ≡ some port
    → atoi timeout_c ≡ some timeout
    → all_blocks sys ≡ true
    → set_up_client net sys (program ∷ nick ∷ ip ∷ port_c ∷ timeout_c ∷ p_loss ∷ [])
      ≡ goes_on (fresh nick timeout (address_of net port addr))
unfolding set_up_client init_client_server init_contact_list init_blocked_nick_list create_list
    malloc check_null_error_stderr set_values_in_IPv4_addr
set_up_client-fresh net sys program nick ip port_c timeout_c p_loss addr port timeout a b c d =
    ground arith

pub set_up_client-blocks :
    (net : Net) (sys : System) (argv : List Bytes) (s : Client)
    → set_up_client net sys argv ≡ goes_on s
    → all_blocks sys ≡ true
unfolding set_up_client init_client_server init_contact_list init_blocked_nick_list create_list
    malloc check_null_error_stderr set_values_in_IPv4_addr
set_up_client-blocks net sys argv s e = ground arith
