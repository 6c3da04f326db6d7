-- ===== src/Client/Early.antt =====
-- Messages that are not due yet are not sent again.
use upush_chat.Base.{
  ℕ, suc, ◌+◌, ◌≤◌, ◌<◌, ◌≡◌, refl, true, false, some, List, [], ◌∷◌, arith, length, All, ◌⊎◌, inl,
  inr,
}
use upush_chat.Int.{◌+ℤ◌, ltb_ℤ, pos}
use upush_chat.TimeFunctions.{Timeval}
use upush_chat.Outcome.{ok}
use upush_chat.Contacts.{Message, Contact}
use upush_chat.Client.{World, Client, ◌>>=◌, gettimeofday, malloc}
use upush_chat.Client.ToClient.{resend_if_due, resend_loop, resend_pending_messages}
use upush_chat.Client.Receive.{Report, select_failed, handle, turn}

-- The clock can be read at the calls from `first` on and before `last`.
pub record Reads (w : World) (first last : ℕ) : Type 0 where
  pub time : ℕ → Timeval
  pub clock : (i : ℕ) → first ≤ i → i < last → (w.env i).now ≡ some (time i)

-- There is memory for the two allocations of the iterator, behind call `k`.
abbrev pub HasRoom : World → ℕ → Type 0
HasRoom w k = ((w.env (suc k)).node_block ≡ true) × ((w.env (suc (suc k))).node_block ≡ true)

module _ (w : World) (first last : ℕ) (h : Reads w first last) where
  -- No message waits, or at no reading of the clock from call `first` on and before `last` has the
  -- timeout passed since the last one was sent.
  abbrev pub IsEarly : Client → Contact → Type 0
  IsEarly s c =
      (c.message_list ≡ [])
      ⊎ ((sent : Timeval) × (c.time_of_last_send ≡ some sent)
          × ((i : ℕ)
              → first ≤ i
              → i < last
              → ltb_ℤ (sent.tv_sec +ℤ s.timeout_sec) (h.time i).tv_sec ≡ false))

  abbrev at_call : ℕ → Client → Client
  at_call k s = record s { calls = k }

  -- At most one call is made.
  resend_if_due-early :
      (s : Client) (c : Contact) (q : List Message) (k : ℕ)
      → first ≤ k
      → k < last
      → IsEarly s (record c { message_list = q })
      → (n : ℕ) × ((k ≤ n) × (n ≤ k + 1))
        × (resend_if_due (record c { message_list = q }) w (at_call k s)
            ≡ ok (some (record c { message_list = q }), at_call n s))
  unfolding resend_if_due gettimeofday ◌>>=◌
  resend_if_due-early s c [] k after before early = (k, omega arith, refl)
  resend_if_due-early s c (m ∷ q) k after before (inl none_left) = absurd (cc)
  resend_if_due-early s c (m ∷ q) k after before (inr (last_send, sent, soon)) =
      (suc k, omega arith, rw (h.clock k after before, sent, soon k after before) refl)

  resend_loop-early :
      (s : Client) (cs : List Contact) (k : ℕ)
      → first ≤ k
      → k + length cs ≤ last
      → All (IsEarly s) cs
      → (n : ℕ) × (resend_loop cs w (at_call k s) ≡ ok (cs, at_call n s))
  unfolding resend_loop ◌>>=◌
  resend_loop-early s [] k after before early = (k, refl)
  resend_loop-early s (c ∷ cs) k after before early =
      let (n, steps, first_kept) =
        resend_if_due-early s c c.message_list k after (omega arith) early.0 in
      let (l, rest) =
        resend_loop-early s cs n (omega (arith, steps)) (omega (arith, steps)) early.1 in
      (l, rw (first_kept, rest) refl)

  -- While the timeout has not passed for any contact with messages waiting, nothing is sent again,
  -- and the contacts and the rest of the client stay as they are.
  resend_pending_messages-early :
      (s : Client) (cs : List Contact) (k : ℕ)
      → first ≤ k
      → k + 2 + length cs ≤ last
      → (w.env k).node_block ≡ true
      → (w.env (suc k)).node_block ≡ true
      → All (IsEarly s) cs
      → (n : ℕ) × (resend_pending_messages w (record s { contact_list = cs; calls = k })
          ≡ ok (tt, record s { contact_list = cs; calls = n }))
  unfolding resend_pending_messages malloc ◌>>=◌
  resend_pending_messages-early s [] k after before room room' early = (k, refl)
  resend_pending_messages-early s (c ∷ cs) k after before room room' early =
      let (n, rest) =
        resend_loop-early (record s { contact_list = c ∷ cs }) (c ∷ cs) (suc (suc k)) (omega arith)
          (omega arith) early in
      (n, rw (room, room', rest) refl)

-- The calls that a turn makes before it handles anything: the clock, two allocations, and the clock
-- once for each contact.
abbrev pub turn_end : Client → ℕ
turn_end s = s.calls + 3 + length s.contact_list

-- At the calls that a turn of the main loop makes before it handles anything, the clock can be read,
-- the two allocations of the iterator succeed, and by the clock neither the heartbeat nor a message
-- to any contact is due. Then a turn in which select does not fail sends nothing of its own: it
-- handles what select reported, and that is all that changes the client.
pub turn-early :
    (w : World) (report : Report) (s : Client) (h : Reads w s.calls (turn_end s))
    → HasRoom w s.calls
    → select_failed report ≡ false
    → ltb_ℤ (s.last_heartbeat_time.tv_sec +ℤ pos 10) (h.time s.calls).tv_sec ≡ false
    → All (IsEarly w s.calls (turn_end s) h s) s.contact_list
    → (n : ℕ) × (turn report w s ≡ handle report w (record s { calls = n }))
unfolding turn gettimeofday ◌>>=◌
turn-early w report s h room selected beating early =
    let (n, kept) =
      resend_pending_messages-early w s.calls (turn_end s) h s s.contact_list (suc s.calls)
        (omega arith) (omega arith) room.0 room.1 early in
    (n, rw (selected, h.clock s.calls (omega arith) (omega arith), beating, kept) refl)
