-- ===== src/Client/Queue.antt =====
-- The queue of a contact: only its oldest message has been sent.
use mathlib.Core.Path.{subst}
use upush_chat.Base.{
  ◌≤◌, ◌<◌, ◌≡◌, refl, Bool, true, none, some, List, [], ◌∷◌, arith, length, is_some, All, ◌⊎◌, inl,
  inr, Bool-cases,
}
use upush_chat.Sequence.{get_last?, drop_last, update_last, find_first, update_first}
use upush_chat.Contacts.{Message, Contact, add_message_send_attempt, toggle_last_pkt_sent}

abbrev pub IsShort : Message → Type 0
IsShort m = length m.payload < 1400

-- A message that has not been sent.
abbrev pub IsNew : Message → Type 0
IsNew m = (m.attempts ≡ 0) × IsShort m

-- The oldest message was sent four times at most, the others not at all.
abbrev pub IsQueue : List Message → Type 0
IsQueue [] = Unit
IsQueue (m ∷ []) = (m.attempts ≤ 4) × IsShort m
IsQueue (m ∷ n ∷ q) = IsNew m × IsQueue (n ∷ q)

pub IsQueue-cons : (m : Message) (q : List Message) → IsNew m → IsQueue q → IsQueue (m ∷ q)
IsQueue-cons m [] new h = (rw new.0 (omega arith), new.1)
IsQueue-cons m (n ∷ q) new h = (new, h)

pub drop_last-IsNew : (q : List Message) → IsQueue q → All IsNew (drop_last q)
drop_last-IsNew [] h = tt
drop_last-IsNew (m ∷ []) h = tt
drop_last-IsNew (m ∷ n ∷ q) h = (h.0, drop_last-IsNew (n ∷ q) h.1)

pub All_new-IsQueue : (q : List Message) → All IsNew q → IsQueue q
All_new-IsQueue [] h = tt
All_new-IsQueue (m ∷ q) h = IsQueue-cons m q h.0 (All_new-IsQueue q h.1)

pub All-new-get_last? :
    (q : List Message) (m : Message) → All IsNew q → get_last? q ≡ some m → m.attempts ≡ 0
All-new-get_last? [] m h e = cc
All-new-get_last? (x ∷ []) m h e = ground arith
All-new-get_last? (x ∷ y ∷ q) m h e = All-new-get_last? (y ∷ q) m h.1 e

pub IsQueue-get_last? :
    (q : List Message) (m : Message) → IsQueue q → get_last? q ≡ some m → m.attempts ≤ 4
IsQueue-get_last? [] m h e = cc
IsQueue-get_last? (x ∷ []) m h e = ground arith
IsQueue-get_last? (x ∷ y ∷ q) m h e = IsQueue-get_last? (y ∷ q) m h.1 e

-- One more attempt at the oldest message, when it has had fewer than four.
pub update_last-IsQueue :
    (q : List Message) (m : Message)
    → IsQueue q
    → get_last? q ≡ some m
    → m.attempts < 4
    → IsQueue (update_last add_message_send_attempt q)
unfolding add_message_send_attempt
update_last-IsQueue [] m h e lt = tt
update_last-IsQueue (x ∷ []) m h e lt = ground arith
update_last-IsQueue (x ∷ y ∷ []) m h e lt = (h.0, update_last-IsQueue (y ∷ []) m h.1 e lt)
update_last-IsQueue (x ∷ y ∷ z ∷ q) m h e lt = (h.0, update_last-IsQueue (y ∷ z ∷ q) m h.1 e lt)

-- The packet numbers alternate between 0 and 1, and a contact with a pending message has been
-- sent to.
pub record IsContact (c : Contact) : Type 0 where
  pub number : c.last_pkt_sent ≤ 1
  pub queue : IsQueue c.message_list
  pub sent : (c.message_list ≡ []) ⊎ (is_some c.time_of_last_send ≡ true)

module _ {A : Type 0} (P : A → Type 0) (test : A → Bool) where
  pub All-find_first : (xs : List A) (a : A) → All P xs → find_first test xs ≡ some a → P a
  All-find_first [] a h e = cc
  All-find_first (x ∷ xs) a h e = elim (Bool-cases (test x)) [
    | inl hit ↦ subst P (ground arith) h.0
    | inr miss ↦ All-find_first xs a h.1 (ground arith)
  ]

  pub All-update_first :
      (xs : List A) (a : A) → P a → All P xs → All P (update_first test (λ _. a) xs)
  All-update_first [] a p h = tt
  All-update_first (x ∷ xs) a p h = ground (arith, All-update_first xs a p h.1)

pub get_last?-none : (q : List Message) → get_last? q ≡ none → q ≡ []
get_last?-none [] e = refl
get_last?-none (x ∷ []) e = cc
get_last?-none (x ∷ y ∷ q) e = let left : y ∷ q ≡ [] = get_last?-none (y ∷ q) e in cc

pub toggle-number : (c : Contact) → (toggle_last_pkt_sent c).last_pkt_sent ≤ 1
unfolding toggle_last_pkt_sent
toggle-number c = ground arith
