-- ===== src/Client/Leaves.antt =====
-- What a look-up leaves as it is in the client.
use upush_chat.Base.{
  ℕ, zero, suc, ◌≡◌, refl, ◌∙◌, Bool, true, false, not, Option, none, some, List, [], ◌∷◌, arith,
  Bytes, codes, leb, if◌then◌else◌, length,
}
use upush_chat.Strings.{c_string, contains_string}
use upush_chat.Common.{bufsize}
use upush_chat.Network.{SockaddrIn, is_same_address, set_values_in_IPv4_addr, send_packet}
use upush_chat.Outcome.{Outcome}
use upush_chat.Client.{
  World, Client, Act, Wait, pure, ◌>>=◌, go_on, quit_client, undefined, lift, get, get_net,
  get_waits, modify, send_to,
}
use upush_chat.Client.ToServer.{
  LookupResult, found_user, no_user, no_answer, listen, note_number, read_answer,
  send_blocking_lookup_message, lookup_attempts, lookup_user_on_server,
}

pub record Same (s t : Client) : Type 0 where
  pub contacts : t.contact_list ≡ s.contact_list
  pub nick : t.client_nick ≡ s.client_nick
  pub server : t.server_addr ≡ s.server_addr
  pub blocked : t.blocked_list ≡ s.blocked_list
  pub shown : t.shown ≡ s.shown

-- Where the action returns, the client is the same in these.
pub record Leaves {A : Type 0} (m : Act A) : Type 0 where
  pub holds : (w : World) (s t : Client) (a : A) → m w s ≡ Outcome.ok (a, t) → Same s t

pub returned :
    {A : Type 0} {a b : A} {s t : Client}
    → ◌≡◌ {A = Outcome (A × Client)} (Outcome.ok (a, s)) (Outcome.ok (b, t))
    → (b ≡ a) × (t ≡ s)
returned e = (cc, cc)

module _ {A B : Type 0} where
  go_on-eq-ok :
      (w : World) (o : Outcome (A × Client)) (f : A → Act B) (b : B) (t : Client)
      → go_on w o f ≡ Outcome.ok (b, t)
      → (a : A) × (u : Client) × (o ≡ Outcome.ok (a, u)) × (f a w u ≡ Outcome.ok (b, t))
  go_on-eq-ok w (Outcome.ok (a, u)) f b t e = (a, u, refl, e)
  go_on-eq-ok w Outcome.quit f b t e = cc
  go_on-eq-ok w Outcome.fault f b t e = cc

  -- A chain of two actions that returns has gone through both.
  pub bind-eq-ok :
      (m : Act A) (f : A → Act B) (w : World) (s t : Client) (b : B)
      → (m >>= f) w s ≡ Outcome.ok (b, t)
      → (a : A) × (u : Client) × (m w s ≡ Outcome.ok (a, u)) × (f a w u ≡ Outcome.ok (b, t))
  unfolding ◌>>=◌
  bind-eq-ok m f w s t b e = go_on-eq-ok w (m w s) f b t e

  pub >>=-Leaves :
      {m : Act A} {f : A → Act B} → Leaves m → ((a : A) → Leaves (f a)) → Leaves (m >>= f)
  >>=-Leaves {m} {f} h k = record {
    holds = λ w s t b e.
        let (a, u, first, rest) = bind-eq-ok m f w s t b e in
        let p = h.holds w s u a first in
        let q = (k a).holds w u t b rest in
        record {
          contacts = q.contacts ∙ p.contacts;
          nick = q.nick ∙ p.nick;
          server = q.server ∙ p.server;
          blocked = q.blocked ∙ p.blocked;
          shown = q.shown ∙ p.shown;
        };
  }

unmoved : {s t : Client} → t ≡ s → Same s t
unmoved e = record { contacts = cc; nick = cc; server = cc; blocked = cc; shown = cc }

module _ {A : Type 0} where
  if-Leaves : (b : Bool) {x y : Act A} → Leaves x → Leaves y → Leaves (if b then x else y)
  if-Leaves true h k = h
  if-Leaves false h k = k

  pure-Leaves : (a : A) → Leaves (pure a)
  pure-Leaves a = record { holds = λ w s t b e. unmoved (cc) }

  quit-Leaves : Leaves (quit_client {A = A})
  quit-Leaves = record { holds = λ w s t b e. absurd (cc) }

  undefined-Leaves : Leaves (undefined {A = A})
  undefined-Leaves = record { holds = λ w s t b e. absurd (cc) }

  lift-Leaves : (o : Outcome A) → Leaves (lift o)
  lift-Leaves (Outcome.ok a) = record { holds = λ w s t b e. unmoved (cc) }
  lift-Leaves Outcome.quit = record { holds = λ w s t b e. absurd (cc) }
  lift-Leaves Outcome.fault = record { holds = λ w s t b e. absurd (cc) }

  option-Leaves :
      {B : Type 0} (o : Option B) {x : Act A} {f : B → Act A}
      → Leaves x
      → ((b : B) → Leaves (f b))
      → Leaves (elim o [ none ↦ x | some b ↦ f b ])
  option-Leaves none h k = h
  option-Leaves (some b) h k = k b

  result-Leaves :
      (r : LookupResult) {x y : Act A} {f : Option Bytes → SockaddrIn → Act A}
      → Leaves x
      → ((nick : Option Bytes) (addr : SockaddrIn) → Leaves (f nick addr))
      → Leaves y
      → Leaves (elim r [ no_user ↦ x | found_user nick addr ↦ f nick addr | no_answer ↦ y ])
  result-Leaves no_user h k l = h
  result-Leaves (found_user nick addr) h k l = k nick addr
  result-Leaves no_answer h k l = l

get-Leaves : Leaves get
get-Leaves = record { holds = λ w s t b e. unmoved (cc) }

get_net-Leaves : Leaves get_net
get_net-Leaves = record { holds = λ w s t b e. unmoved (cc) }

get_waits-Leaves : Leaves get_waits
get_waits-Leaves = record { holds = λ w s t b e. unmoved (cc) }

note_number-Leaves : (inc_buf : Bytes) → Leaves (modify (note_number inc_buf))
note_number-Leaves inc_buf = record {
  holds = λ w s t b e. record {
    contacts = ground arith;
    nick = ground arith;
    server = ground arith;
    blocked = ground arith;
    shown = ground arith;
  };
}

send_to-Leaves : (dest : SockaddrIn) (payload : Bytes) → Leaves (send_to dest payload)
unfolding send_to send_packet ◌>>=◌
send_to-Leaves dest payload = record {
  holds = λ w s t b e. record {
    contacts = ground arith;
    nick = ground arith;
    server = ground arith;
    blocked = ground arith;
    shown = ground arith;
  };
}

listen-Leaves : (ws : List Wait) (server : SockaddrIn) → Leaves (listen ws server)
unfolding listen
listen-Leaves [] server = pure-Leaves _
listen-Leaves (Wait.select_fails ∷ ws) server = quit-Leaves
listen-Leaves (Wait.recvfrom_fails ∷ ws) server = pure-Leaves _
listen-Leaves (Wait.datagram src bytes ∷ ws) server =
    if-Leaves (leb bufsize (length bytes)) undefined-Leaves (
      if-Leaves (is_same_address (some src) (some server))
        (if-Leaves (contains_string (c_string bytes) (codes "OK")) (listen-Leaves ws server)
          (pure-Leaves (some (c_string bytes))))
        (listen-Leaves ws server))

read_answer-Leaves : (inc_buf : Bytes) → Leaves (read_answer inc_buf)
unfolding read_answer
read_answer-Leaves inc_buf = >>=-Leaves (note_number-Leaves inc_buf) λ _.
    if-Leaves (contains_string inc_buf (codes "NOT FOUND")) (pure-Leaves _) (
      >>=-Leaves (lift-Leaves _) λ nick. >>=-Leaves (lift-Leaves _) λ ip.
        >>=-Leaves (lift-Leaves _) λ text. >>=-Leaves (lift-Leaves _) λ port.
          >>=-Leaves get_net-Leaves λ net.
            option-Leaves (set_values_in_IPv4_addr net (some ip) port) (pure-Leaves _)
              (λ addr. pure-Leaves _))

blocking_lookup-Leaves : (message : Bytes) → Leaves (send_blocking_lookup_message message)
unfolding send_blocking_lookup_message
blocking_lookup-Leaves message = >>=-Leaves get-Leaves λ s. >>=-Leaves (send_to-Leaves _ _) λ sent.
    if-Leaves (not sent) (pure-Leaves _) (
      >>=-Leaves get_waits-Leaves λ ws.
        >>=-Leaves (listen-Leaves ws s.server_addr)
          λ answer. option-Leaves answer (pure-Leaves _) (λ inc_buf. read_answer-Leaves inc_buf))

lookup_attempts-Leaves : (k : ℕ) (out_buf : Bytes) → Leaves (lookup_attempts k out_buf)
unfolding lookup_attempts
lookup_attempts-Leaves zero out_buf = quit-Leaves
lookup_attempts-Leaves (suc k) out_buf = >>=-Leaves (blocking_lookup-Leaves out_buf) λ ret.
    result-Leaves ret (pure-Leaves none) (λ nick addr. pure-Leaves (some (nick, addr)))
      (lookup_attempts-Leaves k out_buf)

pub lookup_user_on_server-Leaves :
    (target_nick : Bytes) → Leaves (lookup_user_on_server target_nick)
unfolding lookup_user_on_server
lookup_user_on_server-Leaves target_nick =
    >>=-Leaves get-Leaves
      λ s. >>=-Leaves (lift-Leaves _) λ out_buf. lookup_attempts-Leaves 3 out_buf
