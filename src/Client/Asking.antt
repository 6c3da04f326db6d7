-- ===== src/Client/Asking.antt =====
-- How often a look-up asks the server.
use upush_chat.Base.{
  ℕ, zero, suc, ◌≤◌, ◌≡◌, refl, sym, ap, ◌∙◌, true, false, Option, none, some, List, [], ◌∷◌, ◌++◌,
  append_assoc, append-nil, arith, Bytes, codes, leb, length, Bool-cases, inl, inr, ◌⊎◌,
}
use upush_chat.Strings.{decimal}
use upush_chat.Common.{bufsize}
use upush_chat.Network.{SockaddrIn, send_packet}
use upush_chat.Outcome.{Outcome, sprintf}
use upush_chat.Client.{World, Client, Wait, pure, go_on, ◌>>=◌, send_to, next_message_number_server}
use upush_chat.Client.ToServer.{
  LookupResult, found_user, no_user, no_answer, listen, note_number, read_answer,
  send_blocking_lookup_message, lookup_attempts, lookup_user_on_server,
}

listen-same :
    (ws : List Wait) (server : SockaddrIn) (answer : Option Bytes) (w : World) (s t : Client)
    → listen ws server w s ≡ Outcome.ok (answer, t)
    → t ≡ s
unfolding listen
listen-same [] server answer w s t e = cc
listen-same (Wait.select_fails ∷ ws) server answer w s t e = cc
listen-same (Wait.recvfrom_fails ∷ ws) server answer w s t e = cc
listen-same (Wait.datagram src bytes ∷ ws) server answer w s t e =
    ground (arith, listen-same ws server answer w s t)

-- The network and the server stay as they are.
abbrev Silent : (s t : Client) → Type 0
Silent s t = (t.network ≡ s.network) × (t.server_addr ≡ s.server_addr)

note_number-Silent : (inc_buf : Bytes) (s : Client) → Silent s (note_number inc_buf s)
note_number-Silent inc_buf s = ground arith

read_answer-Silent :
    (inc_buf : Bytes) (r : LookupResult) (w : World) (s t : Client)
    → read_answer inc_buf w s ≡ Outcome.ok (r, t)
    → t ≡ note_number inc_buf s
unfolding read_answer ◌>>=◌
read_answer-Silent inc_buf r w s t e = ground arith

-- One packet `k` times.
abbrev pub copies {ℓ} : {A : Type ℓ} → ℕ → A → List A
copies zero x = []
copies (suc k) x = x ∷ copies k x

-- What the client hears after its request.
heard-Silent :
    (answer : Outcome (Option Bytes × Client)) (r : LookupResult) (w : World) (s t : Client)
    → ((a : Option Bytes) (u : Client) → answer ≡ Outcome.ok (a, u) → u ≡ s)
    → go_on w answer (λ a. elim a [ none ↦ pure no_answer | some inc_buf ↦ read_answer inc_buf ])
      ≡ Outcome.ok (r, t)
    → Silent s t
heard-Silent Outcome.quit r w s t h e = cc
heard-Silent Outcome.fault r w s t h e = cc
heard-Silent (Outcome.ok (none, u)) r w s t h e =
    let same = h none u refl in
    let out : t ≡ u = cc in (ap (λ c. c.network) (out ∙ same), ap (λ c. c.server_addr) (out ∙ same))
heard-Silent (Outcome.ok (some inc_buf, u)) r w s t h e =
    let same = h (some inc_buf) u refl in
    let read = read_answer-Silent inc_buf r w u t e in
    let (net, addr) = note_number-Silent inc_buf u in
    (
      ap (λ c. c.network) read ∙ net ∙ ap (λ c. c.network) same,
      ap (λ c. c.server_addr) read ∙ addr ∙ ap (λ c. c.server_addr) same,
    )

-- What is left of the look-up once the client has become `u`.
abbrev hear : World → Client → Outcome (LookupResult × Client)
hear w u =
    go_on w (listen (w.waits u.calls) u.server_addr w u)
      (λ a. elim a [ none ↦ pure no_answer | some inc_buf ↦ read_answer inc_buf ])

hear-Silent :
    (r : LookupResult) (w : World) (u t : Client) → hear w u ≡ Outcome.ok (r, t) → Silent u t
hear-Silent r w u t e =
    heard-Silent (listen (w.waits u.calls) u.server_addr w u) r w u t
      (λ a c. listen-same (w.waits u.calls) u.server_addr a w u c) e

abbrev called : Client → Client
called s = record s { calls = suc s.calls }

-- The request reached the network `k` times.
abbrev asked : ℕ → Bytes → Client → Client
asked k message s = record (called s) {
  network = s.network ++ copies k (record { dest = s.server_addr; payload = message });
}

blocking_lookup-lost :
    (message : Bytes) (w : World) (s : Client)
    → (w.env s.calls).lost ≡ true
    → send_blocking_lookup_message message w s ≡ hear w (asked 0 message s)
unfolding send_blocking_lookup_message send_to send_packet ◌>>=◌
blocking_lookup-lost message w s lost = rw lost refl

blocking_lookup-sent :
    (message : Bytes) (w : World) (s : Client)
    → (w.env s.calls).lost ≡ false
    → (w.env s.calls).sendto_works ≡ true
    → send_blocking_lookup_message message w s ≡ hear w (asked 1 message s)
unfolding send_blocking_lookup_message send_to send_packet ◌>>=◌
blocking_lookup-sent message w s kept works = rw (kept, works) refl

blocking_lookup-fails :
    (message : Bytes) (w : World) (s : Client)
    → (w.env s.calls).lost ≡ false
    → (w.env s.calls).sendto_works ≡ false
    → send_blocking_lookup_message message w s ≡ Outcome.ok (no_answer, called s)
unfolding send_blocking_lookup_message send_to send_packet ◌>>=◌
blocking_lookup-fails message w s kept fails = rw (kept, fails) refl

-- The request went out once at most.
blocking_lookup-once :
    (message : Bytes) (r : LookupResult) (w : World) (s t : Client)
    → send_blocking_lookup_message message w s ≡ Outcome.ok (r, t)
    → (k : ℕ) × (k ≤ 1)
      × (t.network ≡ s.network ++ copies k (record { dest = s.server_addr; payload = message }))
      × (t.server_addr ≡ s.server_addr)
blocking_lookup-once message r w s t e = elim (Bool-cases (w.env s.calls).lost) [
  | inl gone ↦
      let (net, addr) =
        hear-Silent r w (asked 0 message s) t (sym (blocking_lookup-lost message w s gone) ∙ e) in
      (0, omega arith, net, addr)
  | inr kept ↦ elim (Bool-cases (w.env s.calls).sendto_works) [
    | inl works ↦
        let (net, addr) =
          hear-Silent r w (asked 1 message s) t
            (sym (blocking_lookup-sent message w s kept works) ∙ e) in
        (1, omega arith, net, addr)
    | inr fails ↦
        let ended = sym (blocking_lookup-fails message w s kept fails) ∙ e in
        let same : t ≡ called s = cc in
        (
          0,
          omega arith,
          ap (λ c. c.network) same ∙ sym (append-nil s.network),
          ap (λ c. c.server_addr) same,
        )
  ]
]

abbrev Asked : ℕ → Bytes → (s t : Client) → Type 0
Asked n message s t =
    (k : ℕ) × (k ≤ n)
    × (t.network ≡ s.network ++ copies k (record { dest = s.server_addr; payload = message }))

copies-append {ℓ} :
    {A : Type ℓ} (k : ℕ) (x : A) (before : List A)
    → (before ++ copies 1 x) ++ copies k x ≡ before ++ copies (suc k) x
copies-append k x before = append_assoc before (x ∷ []) (copies k x)

Asked-again :
    (n j : ℕ) (message : Bytes) (s u t : Client)
    → j ≤ 1
    → u.network ≡ s.network ++ copies j (record { dest = s.server_addr; payload = message })
    → u.server_addr ≡ s.server_addr
    → Asked n message u t
    → Asked (suc n) message s t
Asked-again n zero message s u t small out same (k, few, more) =
    (k, omega arith, rw (more, out, same, append-nil) refl)
Asked-again n (suc zero) message s u t small out same (k, few, more) =
    (suc k, omega arith, rw (more, out, same) (copies-append k _ s.network))
Asked-again n (suc (suc j)) message s u t small out same asked = absurd (omega (arith, small))

-- One attempt, and what its result leads to.
abbrev attempts_after :
    ℕ
    → Bytes
    → World
    → Outcome (LookupResult × Client)
    → Outcome (Option (Option Bytes × SockaddrIn) × Client)
attempts_after n message w first = go_on w first (λ ret. elim ret [
  | no_user ↦ pure none
  | found_user nick addr ↦ pure (some (nick, addr))
  | no_answer ↦ lookup_attempts n message
])

lookup_attempts-next :
    (n : ℕ) (message : Bytes) (w : World) (s : Client)
    → lookup_attempts (suc n) message w s
      ≡ attempts_after n message w (send_blocking_lookup_message message w s)
unfolding lookup_attempts ◌>>=◌
lookup_attempts-next n message w s = refl

attempts_after-ends :
    (n : ℕ) (message : Bytes) (found : Option (Option Bytes × SockaddrIn)) (w : World) (t : Client)
    (first : Outcome (LookupResult × Client))
    → attempts_after n message w first ≡ Outcome.ok (found, t)
    → (r : LookupResult) × (u : Client) × (first ≡ Outcome.ok (r, u))
      × ((t ≡ u) ⊎ (lookup_attempts n message w u ≡ Outcome.ok (found, t)))
attempts_after-ends n message found w t Outcome.quit e = cc
attempts_after-ends n message found w t Outcome.fault e = cc
attempts_after-ends n message found w t (Outcome.ok (no_user, u)) e = (no_user, u, refl, inl (cc))
attempts_after-ends n message found w t (Outcome.ok (found_user nick addr, u)) e =
    (found_user nick addr, u, refl, inl (cc))
attempts_after-ends n message found w t (Outcome.ok (no_answer, u)) e = (no_answer, u, refl, inr e)

lookup_attempts-Asked :
    (n : ℕ) (message : Bytes) (found : Option (Option Bytes × SockaddrIn)) (w : World)
    (s t : Client)
    → lookup_attempts n message w s ≡ Outcome.ok (found, t)
    → Asked n message s t
unfolding lookup_attempts
lookup_attempts-Asked zero message found w s t e = cc
lookup_attempts-Asked (suc n) message found w s t e =
    let (r, u, first, rest) =
      attempts_after-ends n message found w t (send_blocking_lookup_message message w s)
        (sym (lookup_attempts-next n message w s) ∙ e) in
    let (j, small, out, same) = blocking_lookup-once message r w s u first in
    elim rest [
      | inl ended ↦ (j, omega arith, ap (λ c. c.network) ended ∙ out)
      | inr again ↦
          Asked-again n j message s u t small out same
            (lookup_attempts-Asked n message found w u t again)
    ]

-- The request of a look-up.
abbrev pub request_of : Bytes → Client → Bytes
request_of nick s =
    codes "PKT " ++ decimal (next_message_number_server s) ++ codes " LOOKUP " ++ nick

-- A look-up that returns has sent nothing but its request to the server, three times at most.
pub lookup_user_on_server-requests :
    (nick : Bytes) (found : Option (Option Bytes × SockaddrIn)) (w : World) (s t : Client)
    → lookup_user_on_server nick w s ≡ Outcome.ok (found, t)
    → (k : ℕ) × (k ≤ 3)
      × (t.network
          ≡ s.network ++ copies k (record { dest = s.server_addr; payload = request_of nick s }))
unfolding lookup_user_on_server sprintf ◌>>=◌
lookup_user_on_server-requests nick found w s t e =
    elim (Bool-cases (leb bufsize (length (request_of nick s)))) [
      | inl long ↦ ground arith
      | inr fits ↦ lookup_attempts-Asked 3 (request_of nick s) found w s t (ground arith)
    ]
