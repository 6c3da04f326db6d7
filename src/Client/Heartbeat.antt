-- ===== src/Client/Heartbeat.antt =====
-- A heartbeat through both programs: the registration that a client repeats, and its
-- acknowledgement.
use upush_chat.Base.{
  ℕ, zero, suc, ◌≤◌, ◌<◌, ◌≡◌, refl, ◌∙◌, false, some, [], ◌∷◌, ◌++◌, append_assoc, arith, Bytes,
  codes, length, leb, if◌then◌else◌, ◌==◌,
}
use upush_chat.TimeFunctions.{Timeval}
use upush_chat.Strings.{c_string, decimal, same_string}
use upush_chat.Strings.Laws.{same_string_self}
use upush_chat.Common.{bufsize, parse_message}
use upush_chat.Common.Words.{length-spaced}
use upush_chat.Network.{SockaddrIn, Env, get_ip_and_port}
use upush_chat.Network.Laws.{is_same_address_self}
use upush_chat.Outcome.{ok}
use upush_chat.Sequence.{get_last?}
use upush_chat.Sequence.Ends.{get_last?-append}
use upush_chat.ServerClient.{ServerClient}
use upush_chat.Server.{Server, Event, round}
use upush_chat.Server.Clients.{find, find-replace, nick-find}
use upush_chat.Server.Requests.{IsNick, request}
use upush_chat.Server.Register.{Works, acknowledge, sprintf-ok, round_registers_known}
use upush_chat.Client.{World, Client, ◌>>=◌, next_message_number_server}
use upush_chat.Client.ToServer.{send_reg_msg_to_server}
use upush_chat.Client.Receive.{handle_datagram, receive_from_server}
use upush_chat.Client.Packets.{ack_text, ack_fits}
use upush_chat.Client.Delivery.{Steady, sent, send_to-sent}
use upush_chat.Client.LookUp.{next_number, next_number-IsNumber, length-next_number}

reg_lem :
    (number nick : Bytes)
    → codes "PKT " ++ number ++ codes " REG " ++ nick ≡ request (codes "REG") number nick
reg_lem number nick = simp (append_assoc)

-- The heartbeat that the client sends next.
abbrev beat : Client → Bytes
beat s = request (codes "REG") (next_number s) s.client_nick

length-beat : (s : Client) → IsNick s.client_nick → length (beat s) < bufsize
length-beat s k = omega (
  arith,
  length-spaced (codes "PKT" ∷ next_number s ∷ codes "REG" ∷ []) s.client_nick,
  length-next_number s,
  k.short,
)

send_reg-sent :
    (w : World) (s : Client)
    → Steady w
    → IsNick s.client_nick
    → send_reg_msg_to_server w s ≡ ok (tt, sent s.server_addr (beat s) s)
unfolding send_reg_msg_to_server ◌>>=◌
send_reg-sent w s h k =
    rw
      (
        reg_lem (next_number s) s.client_nick,
        sprintf-ok (beat s) (length-beat s k),
        send_to-sent s.server_addr (beat s) w s h,
      )
      refl

abbrev noted : ℕ → Client → Client
noted n s = record s { last_ack_received = n }

ack_noted :
    (n : ℕ) (w : World) (s : Client)
    → n ≤ 1
    → receive_from_server (parse_message (c_string (ack_text n)) 3) w s ≡ ok (tt, noted n s)
unfolding receive_from_server parse_message c_string decimal same_string ◌>>=◌
ack_noted zero w s h = refl
ack_noted (suc zero) w s h = refl
ack_noted (suc (suc n)) w s h = absurd (omega arith)

ack_from_server :
    (n : ℕ) (w : World) (s : Client)
    → n ≤ 1
    → handle_datagram s.server_addr (ack_text n) w s ≡ ok (tt, noted n s)
unfolding handle_datagram ◌>>=◌
ack_from_server n w s h =
    let room : leb bufsize (length (ack_text n)) ≡ false = ground (arith, ack_fits n h) in
    rw (room, is_same_address_self s.server_addr) (ack_noted n w s h)

-- A client with a valid nick that the server knows, with an address text, sends a heartbeat, the
-- calls outside the programs succeed and nothing is lost, and the port that the heartbeat comes
-- from is allowed. Then the server stores that port and the time for the client and acknowledges,
-- and when the client has read the acknowledgement the number of its next packet to the server is
-- the other one.
pub heartbeat-acknowledged :
    (w : World) (env : Env) (now : Timeval) (src : SockaddrIn) (s : Client) (server : Server)
    (tmp : ServerClient) (old ip : Bytes) (port : ℕ)
    → Steady w
    → Works env now
    → IsNick s.client_nick
    → get_ip_and_port w.net src ≡ some (ip, port)
    → find s.client_nick server.client_list ≡ some tmp
    → tmp.ip_address ≡ some old
    → (t end : Client) × (server_end : Server) × (text answer : Bytes) × (send_reg_msg_to_server w s
        ≡ ok (tt, t))
      × (get_last? t.network ≡ some (record { dest = s.server_addr; payload = text }))
      × (round w.net env (Event.datagram src text) server ≡ ok server_end)
      × (get_last? server_end.network ≡ some (record { dest = src; payload = answer }))
      × (handle_datagram s.server_addr answer w t ≡ ok (tt, end))
      × (next_message_number_server end ≡ (if next_message_number_server s == 0 then 1 else 0))
      × (find s.client_nick server_end.client_list
          ≡ some (record tmp { port = port; last_heartbeat = now }))
heartbeat-acknowledged w env now src s server tmp old ip port h works k from known held =
    let n = next_message_number_server s in
    let small : n ≤ 1 = unfold next_message_number_server in ground arith in
    (
      sent s.server_addr (beat s) s,
      noted n (sent s.server_addr (beat s) s),
      _,
      beat s,
      acknowledge (next_number s),
      send_reg-sent w s h k,
      get_last?-append s.network _,
      round_registers_known w.net env now src (next_number s) s.client_nick ip port server
          (next_number-IsNumber s) k (length-beat s k) tmp old works from known held,
      get_last?-append server.network _,
      ack_from_server n w (sent s.server_addr (beat s) s) small,
      unfold next_message_number_server in refl,
      find-replace s.client_nick s.client_nick tmp _ server.client_list
            (nick-find s.client_nick tmp server.client_list known) known
          ∙ rw (same_string_self s.client_nick) refl,
    )
