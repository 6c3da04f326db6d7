-- ===== src/BlockedNicks/Laws.antt =====
-- The block list is a set of nicknames.
use upush_chat.Base.{◌≡◌, refl, Bool, true, false, not, ◌&&◌, ◌||◌, List, [], ◌∷◌, arith, Bytes}
use upush_chat.Int.{pos}
use upush_chat.Strings.{same_string}
use upush_chat.Strings.Laws.{same_string_iff}
use upush_chat.Sequence.{erase_first}
use upush_chat.BlockedNicks.{
  BlockedNick, Blocks, create_blocked_nick, is_nick_blocked, add_blocked_nick, remove_blocked_nick,
  match_blocked_nick,
}

-- No nick stands in the list twice.
abbrev pub Distinct : List BlockedNick → Type 0
Distinct [] = Unit
Distinct (b ∷ bs) = (is_nick_blocked b.nick bs ≡ false) × Distinct bs

pub data Command : Type 0 where
  block : Blocks → Bytes → Command
  unblock : Bytes → Command

unfoldable pub perform : Command → List BlockedNick → List BlockedNick
unfolding add_blocked_nick remove_blocked_nick
perform (block blocks nick) list = (add_blocked_nick blocks nick list).1
perform (unblock nick) list = (remove_blocked_nick nick list).1

unfoldable pub perform_all : List Command → List BlockedNick → List BlockedNick
unfolding perform
perform_all [] list = list
perform_all (c ∷ cs) list = perform_all cs (perform c list)

-- The three allocations of an addition succeed.
abbrev pub works : Blocks → Bool
works b = b.nick_block && b.nick_copy && b.node_block

-- What a command means for the set of blocked nicks.
abbrev pub meaning : Command → (Bytes → Bool) → Bytes → Bool
meaning (block blocks nick) blocked j = blocked j || works blocks && same_string nick j
meaning (unblock nick) blocked j = blocked j && not (same_string nick j)

abbrev pub meaning_all : List Command → (Bytes → Bool) → Bytes → Bool
meaning_all [] blocked = blocked
meaning_all (c ∷ cs) blocked = meaning_all cs (meaning c blocked)

erase_blocked :
    (n j : Bytes) (bs : List BlockedNick)
    → Distinct bs
    → is_nick_blocked j (erase_first (match_blocked_nick n) bs)
      ≡ (is_nick_blocked j bs && not (same_string n j))
unfolding is_nick_blocked
erase_blocked n j [] d = ground arith
erase_blocked n j (b ∷ bs) d = ground (
  arith,
  erase_blocked n j bs d.1,
  same_string_iff b.nick n,
  same_string_iff b.nick j,
  same_string_iff n j,
  d.0,
)

erase_blocked-Distinct :
    (n : Bytes) (bs : List BlockedNick)
    → Distinct bs
    → Distinct (erase_first (match_blocked_nick n) bs)
erase_blocked-Distinct n [] d = tt
erase_blocked-Distinct n (b ∷ bs) d =
    ground (arith, erase_blocked-Distinct n bs d.1, erase_blocked n b.nick bs d.1)

perform-meaning :
    (c : Command) (bs : List BlockedNick) (j : Bytes)
    → Distinct bs
    → is_nick_blocked j (perform c bs) ≡ meaning c (λ i. is_nick_blocked i bs) j
unfolding perform add_blocked_nick create_blocked_nick is_nick_blocked remove_blocked_nick
perform-meaning (block blocks nick) bs j d = ground (arith, same_string_iff nick j)
perform-meaning (unblock nick) bs j d = erase_blocked nick j bs d

perform-Distinct : (c : Command) (bs : List BlockedNick) → Distinct bs → Distinct (perform c bs)
unfolding perform add_blocked_nick create_blocked_nick is_nick_blocked remove_blocked_nick
perform-Distinct (block blocks nick) bs d = ground arith
perform-Distinct (unblock nick) bs d = erase_blocked-Distinct nick bs d

perform-agrees :
    (c : Command) (bs : List BlockedNick) (blocked : Bytes → Bool)
    → Distinct bs
    → ((j : Bytes) → is_nick_blocked j bs ≡ blocked j)
    → (j : Bytes) → is_nick_blocked j (perform c bs) ≡ meaning c blocked j
perform-agrees (block blocks nick) bs blocked d same j =
    rw (perform-meaning (block blocks nick) bs j d, same j) refl
perform-agrees (unblock nick) bs blocked d same j =
    rw (perform-meaning (unblock nick) bs j d, same j) refl

-- From a list without duplicates that stands for the set `blocked`, any additions and removals
-- leave a list without duplicates, which stands for the set that these make of `blocked`: an
-- addition whose allocations fail changes nothing.
pub perform_all_refines :
    (cs : List Command) (bs : List BlockedNick) (blocked : Bytes → Bool)
    → Distinct bs
    → ((j : Bytes) → is_nick_blocked j bs ≡ blocked j)
    → Distinct (perform_all cs bs)
      × ((j : Bytes) → is_nick_blocked j (perform_all cs bs) ≡ meaning_all cs blocked j)
unfolding perform_all
perform_all_refines [] bs blocked d same = (d, same)
perform_all_refines (c ∷ cs) bs blocked d same =
    perform_all_refines cs (perform c bs) (meaning c blocked) (perform-Distinct c bs d)
      (perform-agrees c bs blocked d same)

-- What an addition and a removal return, and that a removal undoes the addition of a new nick.
pub add_then_remove_blocked_nick :
    (blocks : Blocks) (nick : Bytes) (bs : List BlockedNick)
    → is_nick_blocked nick bs ≡ false
    → works blocks ≡ true
    → ((add_blocked_nick blocks nick bs).0 ≡ pos 1)
      × (remove_blocked_nick nick (add_blocked_nick blocks nick bs).1 ≡ (1, bs))
unfolding add_blocked_nick create_blocked_nick is_nick_blocked remove_blocked_nick
add_then_remove_blocked_nick blocks nick bs new w = ground (arith, same_string_iff nick nick)
