-- ===== src/Server/Start.antt =====
-- upush_server.c: the parameters and the socket of the server, up to its loop.
use upush_chat.Base.{
  not, ◌||◌, Option, none, some, List, [], Bytes, ◌==◌, length, get_elem?, if◌then◌else◌,
}
use upush_chat.Int.{ℤ, pos, ltb_ℤ}
use upush_chat.Strings.{atoi}
use upush_chat.Network.{Net, SockaddrIn, set_values_in_IPv4_addr}
use upush_chat.ServerClient.{ServerClient}
use upush_chat.Startup.{
  Startup, goes_on, exits, faults, success, failure, ◌>>=◌, ◌>>◌, or_fault, System, create_list,
  check_error_perror, create_IPv4_udp_socket, bind_sockaddr_to_fd, try_to_set_loss_probability,
}
use upush_chat.Server.{Server}

-- A port out of range is printed as `argv[3]`, which is `NULL`, and a loss probability out of
-- range as `argv[5]`, which stands behind the array.
unfoldable pub validate_input_params : List Bytes → Startup (Unit {0})
unfolding atoi
validate_input_params argv = if not (length argv == 3) then exits success else do
  port_c ← or_fault (get_elem? argv 1)
  port ← or_fault (atoi port_c)
  if ltb_ℤ port (pos 1024) || ltb_ℤ (pos 65535) port then faults else do
    p_loss ← or_fault (get_elem? argv 2)
    loss_probability ← or_fault (atoi p_loss)
    if ltb_ℤ loss_probability (pos 0) || ltb_ℤ (pos 100) loss_probability
        then faults
        else goes_on tt

-- The list is `NULL` until `init_server_client_list` has run; freeing it then reads `list->head`.
unfoldable pub quit_server {ℓ} : {A : Type ℓ} → Option (List ServerClient) → Startup A
quit_server none = faults
quit_server (some client_list) = exits success

-- The address that the socket is bound to.
unfoldable pub try_to_setup_and_bind_socket : Net → System → Bytes → Startup SockaddrIn
unfolding atoi check_error_perror create_IPv4_udp_socket set_values_in_IPv4_addr bind_sockaddr_to_fd
    quit_server
try_to_setup_and_bind_socket net sys port_c = do
  server_port ← or_fault (atoi port_c)
  if check_error_perror (create_IPv4_udp_socket sys)
      then exits failure
      else elim (set_values_in_IPv4_addr net none server_port) [
        | none ↦ exits failure
        | some server_addr ↦
            if check_error_perror (bind_sockaddr_to_fd sys)
            then quit_server none
            else goes_on server_addr
      ]

unfoldable pub init_server_client_list : System → Option (List ServerClient)
unfolding create_list
init_server_client_list sys = create_list sys 0

-- What the server has before its loop: the percentage of packets that it loses, its address and
-- its registry.
pub record Ready : Type 0 where
  pub loss : ℤ
  pub server_addr : SockaddrIn
  pub server : Server

-- `main`, up to the set of descriptors and the loop. The second test of `argc` repeats the first.
unfoldable pub start : Net → System → List Bytes → Startup Ready
unfolding validate_input_params try_to_set_loss_probability try_to_setup_and_bind_socket
    init_server_client_list
start net sys argv = do
  validate_input_params argv
  if not (length argv == 3) then exits success else do
    p_loss ← or_fault (get_elem? argv 2)
    loss ← try_to_set_loss_probability p_loss
    port_c ← or_fault (get_elem? argv 1)
    server_addr ← try_to_setup_and_bind_socket net sys port_c
    elim (init_server_client_list sys) [
      | none ↦ exits failure
      | some client_list ↦ goes_on (record {
        loss = loss;
        server_addr = server_addr;
        server = record { client_list = client_list; network = [] };
      })
    ]
