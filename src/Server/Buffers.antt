-- ===== src/Server/Buffers.antt =====
-- Which datagrams the server handles without overrunning a buffer or following `NULL`.
use mathlib.Core.Path.{subst}
use upush_chat.Base.{
  ℕ, ◌+◌, ◌≤◌, ◌<◌, ◌≡◌, refl, sym, true, Option, none, some, List, ◌∷◌, arith, Bytes, codes,
  length, length-append, All, Option-cases, inl, inr,
}
use upush_chat.Common.{bufsize}
use upush_chat.Network.{SockaddrIn, Net, Env, get_ip_and_port, send_packet}
use upush_chat.Outcome.{Outcome, ok, quit, fault, ◌>>=◌, or_quit, sprintf}
use upush_chat.ServerClient.{
  ServerClient, create_client, add_server_client_to_list, find_client_by_nick,
}
use upush_chat.Server.Clients.{find, All-replace, All-find}
use upush_chat.Server.Requests.{words}
use upush_chat.Server.Register.{acknowledge, sprintf-ok}
use upush_chat.Server.{Server, refresh_client, record_client, reply, register_client}

-- The address text is there, and as short as such a text is.
abbrev pub IsText : Option Bytes → Type 0
IsText none = ⊥
IsText (some ip) = length ip ≤ 15

abbrev pub HasAddress : ServerClient → Type 0
HasAddress c = IsText c.ip_address

-- A result that is no fault, and that satisfies `P` if it is a value.
abbrev pub Safe : {A : Type 0} → (A → Type 0) → Outcome A → Type 0
Safe P (ok a) = P a
Safe P quit = Unit
Safe P fault = ⊥

pub Safe-bind :
    {A B : Type 0} (P : A → Type 0) (Q : B → Type 0) (m : Outcome A) (f : A → Outcome B)
    → Safe P m
    → ((a : A) → P a → Safe Q (f a))
    → Safe Q (m >>= f)
Safe-bind P Q (ok a) f h k = k a h
Safe-bind P Q quit f h k = tt
Safe-bind P Q fault f h k = h

-- The same, where the continuation is told the result.
pub Safe-bind_eq :
    {A B : Type 0} (P : A → Type 0) (Q : B → Type 0) (m : Outcome A) (f : A → Outcome B)
    → Safe P m
    → ((a : A) → m ≡ ok a → P a → Safe Q (f a))
    → Safe Q (m >>= f)
Safe-bind_eq P Q (ok a) f h k = k a refl h
Safe-bind_eq P Q quit f h k = tt
Safe-bind_eq P Q fault f h k = h

pub Safe-or_quit :
    {A : Type 0} (P : A → Type 0) (o : Option A) → ((a : A) → o ≡ some a → P a) → Safe P (or_quit o)
Safe-or_quit P none h = tt
Safe-or_quit P (some a) h = h a refl

pub Safe-sprintf : (text : Bytes) → length text < bufsize → Safe (λ t. t ≡ text) (sprintf text)
Safe-sprintf text h = rw (sprintf-ok text h)

refresh_client-Safe :
    (env : Env) (tmp : ServerClient) (ip : Bytes) (port : ℕ)
    → HasAddress tmp
    → length ip ≤ 15
    → Safe (λ c. HasAddress c) (refresh_client env tmp ip port)
unfolding refresh_client
refresh_client-Safe env tmp ip port h short = ground arith

create_client-address :
    (env : Env) (nick ip : Bytes) (port : ℕ) (c : ServerClient)
    → env.ip_copy ≡ true
    → length ip ≤ 15
    → create_client env nick ip port ≡ some c
    → HasAddress c
unfolding create_client
create_client-address env nick ip port c w short e = ground arith

pub record_client-Safe :
    (env : Env) (nick ip : Bytes) (port : ℕ) (cs : List ServerClient)
    → env.ip_copy ≡ true
    → length ip ≤ 15
    → All HasAddress cs
    → Safe (All HasAddress) (record_client env nick ip port cs)
unfolding record_client find_client_by_nick
record_client-Safe env nick ip port cs w short h = elim (Option-cases (find nick cs)) [
  | inl new ↦
      rw (new, record_client)
        (Safe-bind HasAddress (All HasAddress) (or_quit (create_client env nick ip port)) _
          (Safe-or_quit HasAddress (create_client env nick ip port)
            (λ c e. create_client-address env nick ip port c w short e))
          (λ c ok_c. Safe-or_quit (All HasAddress) (add_server_client_to_list env c cs) (λ cs' e.
            unfold add_server_client_to_list in
            (let same : cs' ≡ c ∷ cs = ground arith in
              subst (All HasAddress) (sym same) (ok_c, h)))))
  | inr (tmp, old) ↦
      rw (old, record_client)
        (Safe-bind HasAddress (All HasAddress) (refresh_client env tmp ip port) _
          (refresh_client-Safe env tmp ip port (All-find HasAddress nick tmp cs h old) short)
          (λ c ok_c. All-replace HasAddress nick c cs ok_c h))
]

pub reply-Safe :
    (env : Env) (src : SockaddrIn) (text : Bytes) (s : Server)
    → All HasAddress s.client_list
    → Safe (λ s'. All HasAddress s'.client_list) (reply env src text s)
unfolding reply
reply-Safe env src text s h =
    Safe-bind (λ _. Unit {0}) (λ (s' : Server). All HasAddress s'.client_list)
      (or_quit (send_packet env _)) _ (Safe-or_quit (λ _. Unit {0}) (send_packet env _) (λ _ _. tt))
      (λ packets _. h)

get_ip_and_port_short :
    (net : Net) (src : SockaddrIn) (a : Bytes × ℕ)
    → get_ip_and_port net src ≡ some a
    → length a.0 ≤ 15
unfolding get_ip_and_port
get_ip_and_port_short net src (ip, port) e = elim (Option-cases (net.inet_ntop src.s_addr)) [
  | inl z ↦ absurd (ground arith)
  | inr (text, t) ↦
      let same : ip ≡ text = ground arith in rw same (net.length-inet_ntop src.s_addr text t)
]

pub register_client-Safe :
    (net : Net) (env : Env) (cmd number nick : Bytes) (src : SockaddrIn) (s : Server)
    → env.ip_copy ≡ true
    → length number + 7 < bufsize
    → All HasAddress s.client_list
    → Safe
        (λ s'. All HasAddress s'.client_list)
        (register_client net env (words cmd number nick) src s)
unfolding register_client
register_client-Safe net env cmd number nick src s w fits h =
    let Q : Server → Type 0 = λ s'. All HasAddress s'.client_list in
    let text = acknowledge number in
    let room : length text < bufsize = omega (arith, length-append number (codes " OK")) in
    Safe-bind (λ (a : Bytes × ℕ). length a.0 ≤ 15) Q (or_quit (get_ip_and_port net src)) _
      (Safe-or_quit (λ (a : Bytes × ℕ). length a.0 ≤ 15) (get_ip_and_port net src)
        (λ a e. get_ip_and_port_short net src a e))
      (λ a short.
        Safe-bind (All HasAddress) Q (record_client env nick a.0 a.1 s.client_list) _
          (record_client-Safe env nick a.0 a.1 s.client_list w short h)
          (λ cs h'.
            Safe-bind (λ _. Unit {0}) Q (sprintf text) _ (rw (sprintf-ok text room) tt)
              (λ t _. reply-Safe env src t _ h')))
