-- ===== src/Client/Resends.antt =====
-- How often a message that is not acknowledged is sent again.
use upush_chat.Base.{
  ℕ, zero, suc, ◌+◌, ◌-◌, ◌*◌, ◌≤◌, ◌<◌, ◌≡◌, refl, subst, false, Option, none, some, List, [], ◌∷◌,
  arith, length, ◌==◌, inr,
}
use upush_chat.Outcome.{or_fault}
use upush_chat.Outcome as Outcome
use upush_chat.Sequence.{get_last?, drop_last, update_last}
use upush_chat.Contacts.{Message, Contact, add_message_send_attempt, peek_message, pop_message}
use upush_chat.Client.{World, Client, pure, ◌>>=◌}
use upush_chat.Client.ToClient.{send_message_to_contact, drop_oldest, resend_message_to_contact}
use upush_chat.Client.Queue.{IsContact, IsQueue-get_last?, update_last-IsQueue}
use upush_chat.Client.Keeps.{
  InOrder, After, Keeps, >>=-Keeps, if-Keeps, lift-Keeps, lift_call-Keeps, pure-Keeps, quit-Keeps,
  get-Keeps, option-Keeps, gettimeofday-Keeps, send_to-Keeps,
}
use upush_chat.Client.Sending.{lookup-Keeps, or_fault-ok, drop_oldest-IsContact}

-- How often the messages of a queue may still be sent, and the contact then be given up.
abbrev pub weight : List Message → ℕ
weight [] = 0
weight (m ∷ q) = 5 - m.attempts + weight q

weight-update_last :
    (q : List Message) (m : Message)
    → get_last? q ≡ some m
    → m.attempts < 5
    → weight (update_last add_message_send_attempt q) < weight q
unfolding add_message_send_attempt
weight-update_last [] m e lt = cc
weight-update_last (x ∷ []) m e lt = ground arith
weight-update_last (x ∷ y ∷ q) m e lt = omega (arith, weight-update_last (y ∷ q) m e lt)

weight-drop_last :
    (q : List Message) (m : Message)
    → get_last? q ≡ some m
    → m.attempts < 5
    → weight (drop_last q) < weight q
weight-drop_last [] m e lt = cc
weight-drop_last (x ∷ []) m e lt = ground arith
weight-drop_last (x ∷ y ∷ q) m e lt = omega (arith, weight-drop_last (y ∷ q) m e lt)

weight-length : (q : List Message) → weight q ≤ 5 * length q
weight-length [] = omega arith
weight-length (m ∷ q) = omega (arith, weight-length q)

-- A contact in order, with less to send than `c`.
abbrev Lighter : Contact → Option Contact → Type 0
Lighter c none = Unit
Lighter c (some d) = IsContact d × (weight d.message_list < weight c.message_list)

after_sending-Lighter :
    (c : Contact) (m : Message)
    → IsContact c
    → get_last? c.message_list ≡ some m
    → m.attempts < 4
    → Keeps (send_message_to_contact c m) (λ d. Lighter c (some d))
unfolding send_message_to_contact
after_sending-Lighter c m h e lt = >>=-Keeps get-Keeps λ s _. >>=-Keeps (lift_call-Keeps _) λ buf _.
    >>=-Keeps gettimeofday-Keeps λ now _. >>=-Keeps (send_to-Keeps _ _) λ sent _.
      if-Keeps sent
        (λ _. pure-Keeps _ (
          record {
            number = h.number;
            queue = update_last-IsQueue c.message_list m h.queue e lt;
            sent = inr refl;
          },
          weight-update_last c.message_list m e (omega arith),
        ))
        (λ _. quit-Keeps)

sent-Lighter :
    (c : Contact) (m : Message)
    → IsContact c
    → get_last? c.message_list ≡ some m
    → (m.attempts == 4) ≡ false
    → Keeps (do d ← send_message_to_contact c m; pure (some d)) (Lighter c)
sent-Lighter c m h e ne =
    let few : m.attempts < 4 = ground (arith, IsQueue-get_last? c.message_list m h.queue e) in
    >>=-Keeps (after_sending-Lighter c m h e few) λ d l. pure-Keeps (some d) l

resend-Lighter : (c : Contact) → IsContact c → Keeps (resend_message_to_contact c) (Lighter c)
unfolding resend_message_to_contact peek_message pop_message
resend-Lighter c h =
    >>=-Keeps
      (lift-Keeps {Q = λ m. get_last? c.message_list ≡ some m}
        (or_fault (peek_message c.message_list)) (λ m e. or_fault-ok _ m e))
      λ m e.
        if-Keeps (m.attempts == 4) (λ _. pure-Keeps none tt)
          λ ne.
            if-Keeps (m.attempts == 2)
              (λ two. >>=-Keeps (lookup-Keeps c.nick) λ user _.
                option-Keeps user
                  (λ _.
                    pure-Keeps (some (drop_oldest c)) (
                      drop_oldest-IsContact c h,
                      weight-drop_last c.message_list m e (ground arith),
                    ))
                  (λ found _.
                    sent-Lighter (record c { addr = found.1 }) m
                      (record { number = h.number; queue = h.queue; sent = h.sent }) e ne))
              (λ _. sent-Lighter c m h e ne)

-- The contact `c` becomes `e` by `k` resends with no other change to it in between; the rest of
-- the client may change.
pub data Resends (w : World) : ℕ → Contact → Contact → Type 0 where
  stopped : {c : Contact} → Resends w zero c c
  resent :
      {k : ℕ} {c d e : Contact} (s t : Client)
      → InOrder s
      → resend_message_to_contact c w s ≡ Outcome.ok (some d, t)
      → Resends w k d e
      → Resends w (suc k) c e

resend_step-Lighter :
    (w : World) (c d : Contact) (s t : Client)
    → IsContact c
    → InOrder s
    → resend_message_to_contact c w s ≡ Outcome.ok (some d, t)
    → Lighter c (some d)
resend_step-Lighter w c d s t h i e =
    (subst (After (Lighter c)) e ((resend-Lighter c h).holds w s i)).1

Resends-weight :
    (w : World) (k : ℕ) (c e : Contact)
    → IsContact c
    → Resends w k c e
    → k + weight e.message_list ≤ weight c.message_list
Resends-weight w zero c e h stopped = omega arith
Resends-weight w (suc k) c e h (resent {d = d} s t i step rest) =
    let (k_d, lighter) = resend_step-Lighter w c d s t h i step in
    omega (arith, lighter, Resends-weight w k d e k_d rest)

-- A contact in order that is never acknowledged is sent to no more than five times per message of
-- its queue before it is given up: a chain of resends that keep it has no more steps.
pub Resends-length :
    (w : World) (k : ℕ) (c e : Contact)
    → IsContact c
    → Resends w k c e
    → k ≤ 5 * length c.message_list
Resends-length w k c e h r = omega (arith, Resends-weight w k c e h r, weight-length c.message_list)
