-- ===== src/Client/Invariant.antt =====
-- What holds of the contacts after any run of the client.
use upush_chat.Base.{if◌then◌else◌, ◌≡◌, not, some, List, [], ◌∷◌, Bytes, codes, leb, All, length}
use mathlib.Core.Path.{subst}
use upush_chat.Int.{pos, ltb_ℤ, ◌+ℤ◌}
use upush_chat.Strings.{c_string, same_string}
use upush_chat.Common.{bufsize, parse_message}
use upush_chat.Network.{SockaddrIn, is_same_address}
use upush_chat.Outcome.{Outcome, entry}
use upush_chat.Client.{World, Client, pure, ◌>>=◌, get}
use upush_chat.Client.Input.{get_string}
use upush_chat.Client.Receive.{
  receive_message, receive_from_client, handle_datagram, Report, select_fails, nothing, typed,
  input_ended, recvfrom_fails, received, handle, select_failed, turn, run,
}
use upush_chat.Client.Queue.{IsContact}
use upush_chat.Client.Keeps.{
  After, Keeps, Any, >>=-Keeps, if-Keeps, pure-Keeps, quit-Keeps, undefined-Keeps, lift_call-Keeps,
  get-Keeps, modify-Keeps, gettimeofday-Keeps,
}
use upush_chat.Client.Sending.{send_reg-Keeps}
use upush_chat.Client.Turns.{resend_pending-Keeps}
use upush_chat.Client.Runs.{handle_input-Keeps, from_server-Keeps, ack-Keeps, message-Keeps}

from_client-Keeps :
    (parsed : List Bytes) (src : SockaddrIn) → Keeps (receive_from_client parsed src) Any
unfolding receive_from_client
from_client-Keeps [] src = pure-Keeps _ tt
from_client-Keeps (first ∷ rest) src =
    let addressed : (recipient : Bytes)
        → Keeps
            (do
              s ← get
              if not (same_string recipient s.client_nick)
                  then pure tt
                  else receive_message (first ∷ rest))
            Any =
      λ recipient. >>=-Keeps get-Keeps λ s _.
        if-Keeps (not (same_string recipient s.client_nick)) (λ _. pure-Keeps _ tt)
          (λ _. message-Keeps (first ∷ rest)) in
    if-Keeps (same_string first (codes "ACK")) (λ _. ack-Keeps (first ∷ rest) src)
      (λ _.
        >>=-Keeps (lift_call-Keeps (entry (first ∷ rest) 5)) (λ recipient _. addressed recipient))

datagram-Keeps : (src : SockaddrIn) (bytes : Bytes) → Keeps (handle_datagram src bytes) Any
unfolding handle_datagram
datagram-Keeps src bytes =
    if-Keeps (leb bufsize (length bytes)) (λ _. undefined-Keeps)
      λ _. >>=-Keeps get-Keeps λ s _.
        if-Keeps (is_same_address (some src) (some s.server_addr))
          (λ _. from_server-Keeps (parse_message (c_string bytes) 3))
          (λ _. from_client-Keeps (parse_message (c_string bytes) 8) src)

handle-Keeps : (report : Report) → Keeps (handle report) Any
unfolding handle
handle-Keeps select_fails = quit-Keeps
handle-Keeps nothing = pure-Keeps _ tt
handle-Keeps (typed line) = handle_input-Keeps (c_string (get_string line bufsize))
handle-Keeps (input_ended old) = >>=-Keeps (lift_call-Keeps _) λ buf _. handle_input-Keeps buf
handle-Keeps recvfrom_fails = quit-Keeps
handle-Keeps (received src bytes) = datagram-Keeps src bytes

turn-Keeps : (report : Report) → Keeps (turn report) Any
unfolding turn
turn-Keeps report =
    if-Keeps (select_failed report) (λ _. quit-Keeps)
      λ _. >>=-Keeps gettimeofday-Keeps λ now _. >>=-Keeps get-Keeps λ s _.
        if-Keeps (ltb_ℤ (s.last_heartbeat_time.tv_sec +ℤ pos 10) now.tv_sec)
          (λ _.
            >>=-Keeps gettimeofday-Keeps
              λ last _. >>=-Keeps (modify-Keeps _ (λ t i. i)) λ _ _. send_reg-Keeps)
          (λ _. >>=-Keeps resend_pending-Keeps λ _ _. handle-Keeps report)

run-Keeps : (reports : List Report) → Keeps (run reports) Any
unfolding run
run-Keeps [] = pure-Keeps tt tt
run-Keeps (report ∷ reports) = >>=-Keeps (turn-Keeps report) (λ _ _. run-Keeps reports)

-- Whatever the client hears and its user types, and whichever calls fail, in a run that does not
-- end the process every contact stays in order, if all were at the start: its packet number is 0
-- or 1, no message has been sent more than four times, only the oldest of a queue has been sent at
-- all, every text has fewer than 1400 characters, and a contact with a pending message has been
-- sent to.
pub run-IsContact :
    (w : World) (reports : List Report) (s t : Client)
    → All IsContact s.contact_list
    → run reports w s ≡ Outcome.ok (tt, t)
    → All IsContact t.contact_list
run-IsContact w reports s t i e = (subst (After Any) e ((run-Keeps reports).holds w s i)).0
