-- ===== src/Client/Receipt.antt =====
-- What a message from another client does.
use upush_chat.Base.{
  ◌≡◌, refl, true, ◌||◌, some, List, [], ◌∷◌, ◌++◌, Bytes, arith, inl, inr, Bool-cases,
  Option-cases, get_elem?, if◌then◌else◌,
}
use upush_chat.Int.{ℤ, eq_ℤ, eq_ℤ_iff}
use upush_chat.Outcome.{Outcome}
use upush_chat.BlockedNicks.{is_nick_blocked}
use upush_chat.Contacts.{Contact}
use upush_chat.Client.{World, Client, ◌>>=◌}
use upush_chat.Client.Receive.{take_message}

pub eq_ℤ_refl : (n : ℤ) → eq_ℤ n n ≡ true
eq_ℤ_refl n = (eq_ℤ_iff n n).1 refl

-- The message in `parsed` is taken under the number `n`: it becomes the last number received from
-- the sender, and the message is added to what is shown, unless the number is the last one
-- already or the sender is blocked; then nothing is shown.
pub take_message-shown :
    (n : ℤ) (text : Bytes) (parsed : List Bytes) (c : Contact) (w : World) (s : Client)
    → get_elem? parsed 7 ≡ some text
    → take_message n parsed c w s
      ≡ Outcome.ok (
        record c { last_pkt_received = n },
        record s {
          shown =
              if eq_ℤ n c.last_pkt_received || is_nick_blocked c.nick s.blocked_list
              then s.shown
              else s.shown ++ (c.nick, text) ∷ [];
        },
      )
unfolding take_message ◌>>=◌
take_message-shown n text parsed c w s e = elim (Bool-cases (eq_ℤ n c.last_pkt_received)) [
  | inl same ↦
      let old : n ≡ c.last_pkt_received = (eq_ℤ_iff n c.last_pkt_received).0 same in
      rw (same, old) refl
  | inr new ↦ elim (Bool-cases (is_nick_blocked c.nick s.blocked_list)) [
    | inl blocked ↦ rw (new, blocked) refl
    | inr free ↦ rw (new, free, e) refl
  ]
]

take_message-number :
    (n : ℤ) (parsed : List Bytes) (c d : Contact) (w : World) (s t : Client)
    → take_message n parsed c w s ≡ Outcome.ok (d, t)
    → d.last_pkt_received ≡ n
unfolding take_message ◌>>=◌
take_message-number n parsed c d w s t e = elim (Bool-cases (eq_ℤ n c.last_pkt_received)) [
  | inl same ↦
      let old : n ≡ c.last_pkt_received = (eq_ℤ_iff n c.last_pkt_received).0 same in ground arith
  | inr new ↦ elim (Bool-cases (is_nick_blocked c.nick s.blocked_list)) [
    | inl blocked ↦ ground arith
    | inr free ↦ elim (Option-cases (get_elem? parsed 7)) [
      | inl missing ↦ ground arith
      | inr (text, there) ↦ ground arith
    ]
  ]
]

-- A message that comes a second time, since its acknowledgement was lost, is not shown again:
-- taking a message under the number of the one before changes neither the sender nor the client.
pub take_message_twice :
    (n : ℤ) (parsed again : List Bytes) (c d : Contact) (w : World) (s t : Client)
    → take_message n parsed c w s ≡ Outcome.ok (d, t)
    → d.last_pkt_received ≡ n × take_message n again d w t ≡ Outcome.ok (d, t)
unfolding take_message ◌>>=◌
take_message_twice n parsed again c d w s t e =
    let last : d.last_pkt_received ≡ n = take_message-number n parsed c d w s t e in
    (last, rw (last, eq_ℤ_refl n) refl)
