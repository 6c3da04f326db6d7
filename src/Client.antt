-- ===== src/Client.antt =====
-- The client of upush_client.c: its state, and what its functions meet outside the program.
--
-- client_server.c is the field `last_ack_received`, and the address of the server.
pub mod ToServer
pub mod Start
pub mod ToClient
pub mod Input
pub mod Loop
pub mod Receive
pub mod Queue
pub mod Keeps
pub mod Sending
pub mod Turns
pub mod Typed
pub mod Runs
pub mod Invariant
pub mod Receipt
pub mod Asking
pub mod Resends
pub mod Early
pub mod Acknowledging
pub mod Characters
pub mod Answer
pub mod LookUp
pub mod Heartbeat
pub mod Packets
pub mod Started
pub mod Connected
pub mod Delivery
pub mod Link
pub mod Exchange
pub mod Delivered
pub mod Leaves
pub mod Resent
pub mod Posted
pub mod FirstMessage
pub mod FirstContact
pub mod Acquainted
pub mod Rounds
pub mod Shown
pub mod Kept
pub mod Lossy
use upush_chat.Base.{
  ℕ, suc, ◌+◌, Bool, true, false, Option, none, some, List, [], ◌∷◌, ◌++◌, Bytes, ◌==◌,
  if◌then◌else◌,
}
use upush_chat.Int.{ℤ}
use upush_chat.TimeFunctions.{Timeval}
use upush_chat.Network.{SockaddrIn, Net, Packet, Env, send_packet}
use upush_chat.Outcome as Outcome
use upush_chat.Outcome.{Outcome}
use upush_chat.BlockedNicks.{BlockedNick}
use upush_chat.Contacts.{Contact}

-- What `select` and then `recvfrom` give in the wait of a look-up.
pub data Wait : Type 0 where
  select_fails : Wait
  recvfrom_fails : Wait
  datagram : SockaddrIn → Bytes → Wait

-- The calls outside the program are numbered as they are made: `env i` is what the call with the
-- number `i` meets, and `waits i` what is heard from then on until the timer runs out.
pub record World : Type 0 where
  pub net : Net
  pub env : ℕ → Env
  pub waits : ℕ → List Wait

-- `shown` holds the messages printed, with their senders; `calls` counts the calls outside.
pub record Client : Type 0 where
  pub client_nick : Bytes
  pub timeout_sec : ℤ
  pub server_addr : SockaddrIn
  pub last_ack_received : ℕ
  pub contact_list : List Contact
  pub blocked_list : List BlockedNick
  pub last_heartbeat_time : Timeval
  pub network : List Packet
  pub shown : List (Bytes × Bytes)
  pub calls : ℕ

abbrev pub Act : Type 0 → Type 0
Act A = World → Client → Outcome (A × Client)

abbrev pub pure : {A : Type 0} → A → Act A
pure a w s = Outcome.ok (a, s)

module _ {A B : Type 0} where
  abbrev pub go_on : World → Outcome (A × Client) → (A → Act B) → Outcome (B × Client)
  go_on w (Outcome.ok (a, s)) f = f a w s
  go_on w Outcome.quit f = Outcome.quit
  go_on w Outcome.fault f = Outcome.fault

  infixl 5 ◌>>=◌ ◌>>◌
  unfoldable pub ◌>>=◌ : Act A → (A → Act B) → Act B
  ◌>>=◌ m f w s = go_on w (m w s) f

  abbrev pub ◌>>◌ : Act A → Act B → Act B
  m >> k = m >>= λ _. k

module _ {A : Type 0} where
  abbrev pub quit_client : Act A
  quit_client w s = Outcome.quit

  abbrev pub undefined : Act A
  undefined w s = Outcome.fault

  abbrev pub lift : Outcome A → Act A
  lift (Outcome.ok a) w s = Outcome.ok (a, s)
  lift Outcome.quit w s = Outcome.quit
  lift Outcome.fault w s = Outcome.fault

abbrev pub get : Act Client
get w s = Outcome.ok (s, s)

abbrev pub get_net : Act Net
get_net w s = Outcome.ok (w.net, s)

abbrev pub get_waits : Act (List Wait)
get_waits w s = Outcome.ok (w.waits s.calls, s)

abbrev pub modify : (Client → Client) → Act (Unit {0})
modify f w s = Outcome.ok (tt, f s)

abbrev pub next_env : Act Env
next_env w s = Outcome.ok (w.env s.calls, record s { calls = suc s.calls })

-- Every caller of `gettimeofday` in the client quits when it fails.
unfoldable pub gettimeofday : Act Timeval
gettimeofday = do env ← next_env; elim env.now [ none ↦ quit_client | some t ↦ pure t ]

unfoldable pub malloc : Act Bool
malloc = do env ← next_env; pure env.node_block

-- `next` when there is memory, and `NULL` otherwise.
unfoldable pub allocated : {A : Type 0} → Act (Option A) → Act (Option A)
unfolding malloc
allocated next = do block ← malloc; if block then next else pure none

-- `send_packet` from the socket; `false` is the result -1.
unfoldable pub send_to : SockaddrIn → Bytes → Act Bool
unfolding send_packet
send_to dest payload = do
  env ← next_env
  elim (send_packet env (record { dest = dest; payload = payload })) [
    | none ↦ pure false
    | some packets ↦ do modify (λ s. record s { network = s.network ++ packets }); pure true
  ]

-- `next_message_number_server`
unfoldable pub next_message_number_server : Client → ℕ
next_message_number_server s = if s.last_ack_received == 0 then 1 else 0
