-- ===== src/Server/Started.antt =====
-- When the server starts, and how it ends when it does not.
use upush_chat.Base.{
  ℕ, ◌≤◌, ◌≡◌, ◌↔◌, refl, sym, ap, ◌∙◌, subst, true, false, ◌||◌, ◌&&◌, some, List, [], ◌∷◌, arith,
  Bytes, if◌then◌else◌, Option-cases, inl, inr,
}
use upush_chat.Int.{ℤ, pos, negsuc, ltb_ℤ, eq_ℤ}
use upush_chat.Strings.{atoi}
use upush_chat.Network.{Net, set_values_in_IPv4_addr, to_uint16}
use upush_chat.Startup.{
  goes_on, exits, faults, failure, System, create_list, malloc, check_error_perror,
  check_null_error_stderr, create_IPv4_udp_socket, bind_sockaddr_to_fd, try_to_set_loss_probability,
}
use upush_chat.Server.Start.{
  Ready, validate_input_params, quit_server, try_to_setup_and_bind_socket, init_server_client_list,
  start,
}

-- The parameters are a port and a percentage, and every call succeeds.
pub record Starts (net : Net) (sys : System) (argv : List Bytes) (ready : Ready) : Type 0 where
  pub program : Bytes
  pub port_c : Bytes
  pub p_loss : Bytes
  pub port : ℕ
  pub loss : ℕ
  pub params : argv ≡ program ∷ port_c ∷ p_loss ∷ []
  pub port_read : atoi port_c ≡ some (pos port)
  pub loss_read : atoi p_loss ≡ some (pos loss)
  pub port_least : 1024 ≤ port
  pub port_most : port ≤ 65535
  pub loss_most : loss ≤ 100
  pub socket : eq_ℤ sys.socket (negsuc 0) ≡ false
  pub bind : eq_ℤ sys.bind (negsuc 0) ≡ false
  pub list : sys.blocks 0 ≡ true
  pub head : sys.blocks 1 ≡ true
  pub tail : sys.blocks 2 ≡ true
  pub result : ready ≡ record {
    loss = pos loss;
    server_addr = record { sin_family = net.af_inet; sin_port = net.htons port; s_addr = 0 };
    server = record { client_list = []; network = [] };
  }

starts :
    (net : Net) (sys : System) (program port_c p_loss : Bytes) (port loss : ℕ)
    → atoi port_c ≡ some (pos port)
    → atoi p_loss ≡ some (pos loss)
    → 1024 ≤ port
    → port ≤ 65535
    → loss ≤ 100
    → eq_ℤ sys.socket (negsuc 0) ≡ false
    → eq_ℤ sys.bind (negsuc 0) ≡ false
    → sys.blocks 0 ≡ true
    → sys.blocks 1 ≡ true
    → sys.blocks 2 ≡ true
    → start net sys (program ∷ port_c ∷ p_loss ∷ [])
      ≡ goes_on (record {
        loss = pos loss;
        server_addr = record { sin_family = net.af_inet; sin_port = net.htons port; s_addr = 0 };
        server = record { client_list = []; network = [] };
      })
unfolding start validate_input_params try_to_set_loss_probability try_to_setup_and_bind_socket
    init_server_client_list create_list malloc check_error_perror check_null_error_stderr
    create_IPv4_udp_socket bind_sockaddr_to_fd set_values_in_IPv4_addr
starts net sys program port_c p_loss port loss e f l m n s b x y z = ground arith

started_three :
    (net : Net) (sys : System) (program port_c p_loss : Bytes) (port loss : ℤ) (ready : Ready)
    → atoi port_c ≡ some port
    → atoi p_loss ≡ some loss
    → start net sys (program ∷ port_c ∷ p_loss ∷ []) ≡ goes_on ready
    → (ltb_ℤ port (pos 1024) ≡ false)
      × (ltb_ℤ (pos 65535) port ≡ false)
      × (ltb_ℤ loss (pos 0) ≡ false)
      × (ltb_ℤ (pos 100) loss ≡ false)
      × (eq_ℤ sys.socket (negsuc 0) ≡ false)
      × (eq_ℤ sys.bind (negsuc 0) ≡ false)
      × (sys.blocks 0 ≡ true)
      × (sys.blocks 1 ≡ true)
      × (sys.blocks 2 ≡ true)
unfolding start validate_input_params try_to_set_loss_probability try_to_setup_and_bind_socket
    init_server_client_list create_list malloc check_error_perror check_null_error_stderr
    create_IPv4_udp_socket bind_sockaddr_to_fd set_values_in_IPv4_addr quit_server
started_three net sys program port_c p_loss port loss ready e f g = ground arith

read_params :
    (net : Net) (sys : System) (argv : List Bytes) (ready : Ready)
    → start net sys argv ≡ goes_on ready
    → (program port_c p_loss : Bytes) × (port loss : ℤ) × (argv ≡ program ∷ port_c ∷ p_loss ∷ [])
      × (atoi port_c ≡ some port)
      × (atoi p_loss ≡ some loss)
unfolding start validate_input_params try_to_set_loss_probability
read_params net sys [] ready e = ground arith
read_params net sys (_ ∷ []) ready e = ground arith
read_params net sys (_ ∷ _ ∷ []) ready e = ground arith
read_params net sys (program ∷ port_c ∷ p_loss ∷ []) ready e = elim (Option-cases (atoi port_c)) [
  | inl f ↦ ground arith
  | inr (port, f) ↦ elim (Option-cases (atoi p_loss)) [
    | inl g ↦ ground arith
    | inr (loss, g) ↦ (program, port_c, p_loss, port, loss, refl, f, g)
  ]
]
read_params net sys (_ ∷ _ ∷ _ ∷ _ ∷ argv) ready e = ground arith

between :
    (low high : ℕ) (i : ℤ)
    → ltb_ℤ i (pos low) ≡ false
    → ltb_ℤ (pos high) i ≡ false
    → (n : ℕ) × (i ≡ pos n) × (low ≤ n) × (n ≤ high)
between low high (pos n) e f = (n, refl, ground arith, ground arith)
between low high (negsuc n) e f = ground arith

started :
    (net : Net) (sys : System) (argv : List Bytes) (ready : Ready)
    → start net sys argv ≡ goes_on ready
    → Starts net sys argv ready
started net sys argv ready e =
    let (program, port_c, p_loss, port, loss, params, port_read, loss_read) =
      read_params net sys argv ready e in
    let e3 = subst (λ a. start net sys a ≡ goes_on ready) params e in
    let (a, b, c, d, socket, bind, list, head, tail) =
      started_three net sys program port_c p_loss port loss ready port_read loss_read e3 in
    let (p, p_eq, least, most) = between 1024 65535 port a b in
    let (l, l_eq, _, l_most) = between 0 100 loss c d in
    let run =
      starts net sys program port_c p_loss p l (port_read ∙ ap some p_eq) (loss_read ∙ ap some l_eq)
        least most l_most socket bind list head tail in
    record {
      program = program;
      port_c = port_c;
      p_loss = p_loss;
      port = p;
      loss = l;
      params = params;
      port_read = port_read ∙ ap some p_eq;
      loss_read = loss_read ∙ ap some l_eq;
      port_least = least;
      port_most = most;
      loss_most = l_most;
      socket = socket;
      bind = bind;
      list = list;
      head = head;
      tail = tail;
      result = let same = sym e3 ∙ run in cc;
    }

-- The server gets to its loop just when it has two parameters, a port from 1024 to 65535 and a loss
-- percentage up to 100, and the socket, `bind` and the three allocations of the registry succeed.
-- It then has that percentage, is bound to that port at every address of its host, and has an
-- empty registry.
pub start_server_iff :
    (net : Net) (sys : System) (argv : List Bytes) (ready : Ready)
    → (start net sys argv ≡ goes_on ready) ↔ Starts net sys argv ready
start_server_iff net sys argv ready = (
  started net sys argv ready,
  λ h.
      ap (start net sys) h.params
      ∙ starts net sys h.program h.port_c h.p_loss h.port h.loss h.port_read h.loss_read
          h.port_least h.port_most h.loss_most h.socket h.bind h.list h.head h.tail
      ∙ sym (ap goes_on h.result),
)

-- With two parameters that are read as numbers, the first thing that is wrong decides how the
-- server ends. A port or a percentage out of range ends in undefined behaviour, since the message
-- about it prints an entry that `argv` does not have, and so does a `bind` that fails, since the
-- registry is freed before it is created. Without a socket or the memory for the registry, the
-- server exits with a failure.
pub start_server_branches :
    (net : Net) (sys : System) (program port_c p_loss : Bytes) (port loss : ℤ)
    → atoi port_c ≡ some port
    → atoi p_loss ≡ some loss
    → start net sys (program ∷ port_c ∷ p_loss ∷ []) ≡ (
        if ltb_ℤ port (pos 1024)
          || ltb_ℤ (pos 65535) port
          || (ltb_ℤ loss (pos 0) || ltb_ℤ (pos 100) loss)
        then faults
        else if eq_ℤ sys.socket (negsuc 0)
        then exits failure
        else if eq_ℤ sys.bind (negsuc 0)
        then faults
        else if sys.blocks 0 && sys.blocks 1 && sys.blocks 2
        then goes_on (record {
          loss = loss;
          server_addr = record {
            sin_family = net.af_inet;
            sin_port = net.htons (to_uint16 port);
            s_addr = 0;
          };
          server = record { client_list = []; network = [] };
        })
        else exits failure)
unfolding start validate_input_params try_to_set_loss_probability try_to_setup_and_bind_socket
    init_server_client_list create_list malloc check_error_perror check_null_error_stderr
    create_IPv4_udp_socket bind_sockaddr_to_fd set_values_in_IPv4_addr quit_server
start_server_branches net sys program port_c p_loss port loss e f = ground arith
