-- ===== src/Client/Start.antt =====
-- upush_client.c: the parameters of the client, its registration and the wait for the server, up
-- to its loop.
use upush_chat.Base.{
  ℕ, not, ◌||◌, Option, none, some, List, [], Bytes, ◌==◌, length, get_elem?, if◌then◌else◌,
}
use upush_chat.Int.{ℤ, pos, ltb_ℤ}
use upush_chat.Strings.{atoi}
use upush_chat.Common.{is_word_valid_nick}
use upush_chat.Network.{Net, set_values_in_IPv4_addr}
use upush_chat.Outcome.{Outcome}
use upush_chat.BlockedNicks.{BlockedNick}
use upush_chat.Contacts.{Contact}
use upush_chat.Startup.{
  Startup, goes_on, exits, faults, success, failure, ◌>>=◌, ◌>>◌, or_fault, System, create_list,
  malloc, check_error_perror, check_zero_error_stderr, check_null_error_stderr,
  create_IPv4_udp_socket, bind_sockaddr_to_fd, try_to_set_loss_probability,
}
use upush_chat.Client.{World, Client, gettimeofday}
use upush_chat.Client.ToServer.{send_reg_msg_to_server}

unfoldable pub validate_input_params : Net → List Bytes → Startup (Unit {0})
unfolding is_word_valid_nick atoi
validate_input_params net argv = if not (length argv == 6) then exits success else do
  nick ← or_fault (get_elem? argv 1)
  if not (is_word_valid_nick nick) then exits success else do
    ip ← or_fault (get_elem? argv 2)
    elim (net.inet_pton ip) [
      | none ↦ exits success
      | some _ ↦ do
        port_c ← or_fault (get_elem? argv 3)
        port ← or_fault (atoi port_c)
        if ltb_ℤ port (pos 1024) || ltb_ℤ (pos 65535) port then exits success else do
          timeout_c ← or_fault (get_elem? argv 4)
          timeout ← or_fault (atoi timeout_c)
          if ltb_ℤ timeout (pos 0) then exits success else do
            p_loss ← or_fault (get_elem? argv 5)
            loss_probability ← or_fault (atoi p_loss)
            if ltb_ℤ loss_probability (pos 0) || ltb_ℤ (pos 100) loss_probability
                then exits success
                else goes_on tt
    ]

abbrev pub quit_client {ℓ} : {A : Type ℓ} → Startup A
quit_client = exits success

-- The socket and its address. After `bind`, the descriptor is tested again, and not the result.
unfoldable pub set_up_socket : Net → System → Startup (Unit {0})
unfolding check_error_perror create_IPv4_udp_socket set_values_in_IPv4_addr bind_sockaddr_to_fd
set_up_socket net sys =
    let fd = create_IPv4_udp_socket sys in
    if check_error_perror fd
    then exits failure
    else elim (set_values_in_IPv4_addr net none (pos 0)) [
      | none ↦ exits failure
      | some my_addr ↦
          let ret = bind_sockaddr_to_fd sys in
          if check_error_perror fd then exits failure else goes_on tt
    ]

-- `init_client_server`: the number of the acknowledgement that came last.
unfoldable pub init_client_server : System → Option ℕ
unfolding malloc check_null_error_stderr
init_client_server sys =
    if check_null_error_stderr (malloc sys 0)
    then none
    else if check_null_error_stderr (malloc sys 1)
    then none
    else some 1

unfoldable pub init_contact_list : System → Option (List Contact)
unfolding create_list
init_contact_list sys = create_list sys 2

unfoldable pub init_blocked_nick_list : System → Option (List BlockedNick)
unfolding create_list
init_blocked_nick_list sys = create_list sys 5

abbrev pub or_exit {ℓ} : {A : Type ℓ} → Option A → Startup A
or_exit none = exits failure
or_exit (some a) = goes_on a

abbrev pub or_quit {ℓ} : {A : Type ℓ} → Option A → Startup A
or_quit none = quit_client
or_quit (some a) = goes_on a

-- The global variables, with the time of the last heartbeat not written yet.
unfoldable pub set_up_client : Net → System → List Bytes → Startup Client
unfolding atoi init_client_server init_contact_list init_blocked_nick_list malloc
    check_null_error_stderr set_values_in_IPv4_addr
set_up_client net sys argv = do
  timeout_c ← or_fault (get_elem? argv 4)
  timeout_sec ← or_fault (atoi timeout_c)
  last_ack_received ← or_exit (init_client_server sys)
  contact_list ← or_exit (init_contact_list sys)
  blocked_list ← or_exit (init_blocked_nick_list sys)
  client_nick ← or_fault (get_elem? argv 1)
  if check_null_error_stderr (malloc sys 8) then quit_client else do
    ip ← or_fault (get_elem? argv 2)
    port_c ← or_fault (get_elem? argv 3)
    port ← or_fault (atoi port_c)
    server_addr ← or_quit (set_values_in_IPv4_addr net (some ip) port)
    goes_on (record {
      client_nick = client_nick;
      timeout_sec = timeout_sec;
      server_addr = server_addr;
      last_ack_received = last_ack_received;
      contact_list = contact_list;
      blocked_list = blocked_list;
      last_heartbeat_time = record { tv_sec = pos 0; tv_usec = pos 0 };
      network = [];
      shown = [];
      calls = 0;
    })

-- A handler of the loop that is called before the loop.
abbrev pub handled {ℓ} : {A : Type ℓ} → Outcome A → Startup A
handled (Outcome.ok a) = goes_on a
handled Outcome.quit = quit_client
handled Outcome.fault = faults

-- The registration, and the wait for something to read, which is left in the socket.
unfoldable pub register : World → System → Client → Startup Client
unfolding send_reg_msg_to_server check_error_perror check_zero_error_stderr gettimeofday
register w sys s = do
  (_, s) ← handled (send_reg_msg_to_server w s)
  if check_error_perror sys.first_select
      then quit_client
      else if check_zero_error_stderr sys.first_select
      then quit_client
      else (do
        (now, s) ← handled (gettimeofday w s)
        goes_on (record s { last_heartbeat_time = now }))

-- `main`, up to the loop: the percentage of packets that are lost, and the client.
unfoldable pub start : World → System → List Bytes → Startup (ℤ × Client)
unfolding validate_input_params try_to_set_loss_probability set_up_socket set_up_client register
start w sys argv = do
  validate_input_params w.net argv
  p_loss ← or_fault (get_elem? argv 5)
  loss ← try_to_set_loss_probability p_loss
  set_up_socket w.net sys
  s ← set_up_client w.net sys argv
  s ← register w sys s
  goes_on (loss, s)
