-- ===== src/BlockedNicks.antt =====
-- blocked_nick.c and blocked_nick_list.c: the nicknames that the user has blocked.
--
-- The list is the sequence that the linked list stands for, newest first (LinkedList/View.antt).
pub mod Laws
use upush_chat.Base.{
  ℕ, Bool, true, false, not, Option, none, some, List, [], ◌∷◌, Bytes, if◌then◌else◌, length,
  is_some,
}
use upush_chat.Int.{ℤ, pos, negsuc}
use upush_chat.Strings.{same_string}
use upush_chat.Sequence.{find_first, erase_first}

pub record BlockedNick : Type 0 where
  pub nick : Bytes

-- Whether the allocation of the struct, of the copy of the nick, and of the list node succeed.
pub record Blocks : Type 0 where
  pub nick_block : Bool
  pub nick_copy : Bool
  pub node_block : Bool

unfoldable pub create_blocked_nick : Blocks → Bytes → Option BlockedNick
create_blocked_nick blocks nick =
    if not blocks.nick_block
    then none
    else if not blocks.nick_copy
    then none
    else some (record { nick = nick })

abbrev pub match_blocked_nick : Bytes → BlockedNick → Bool
match_blocked_nick other b = same_string b.nick other

unfoldable pub is_nick_blocked : Bytes → List BlockedNick → Bool
is_nick_blocked nick list = is_some (find_first (match_blocked_nick nick) list)

-- The result, and the list after the call.
unfoldable pub add_blocked_nick : Blocks → Bytes → List BlockedNick → ℤ × List BlockedNick
unfolding is_nick_blocked create_blocked_nick
add_blocked_nick blocks nick list =
    if is_nick_blocked nick list then (pos 0, list) else elim (create_blocked_nick blocks nick) [
      | none ↦ (negsuc 0, list)
      | some b ↦ if not blocks.node_block then (negsuc 0, list) else (pos 1, b ∷ list)
    ]

unfoldable pub remove_blocked_nick : Bytes → List BlockedNick → ℕ × List BlockedNick
remove_blocked_nick nick list = (
  if is_some (find_first (match_blocked_nick nick) list) then 1 else 0,
  erase_first (match_blocked_nick nick) list,
)

unfoldable pub get_blocked_nick_by_nick :
    Bytes → List BlockedNick → Option BlockedNick × List BlockedNick
get_blocked_nick_by_nick nick list =
    (find_first (match_blocked_nick nick) list, erase_first (match_blocked_nick nick) list)

unfoldable pub blocked_nick_list_size : List BlockedNick → ℕ
blocked_nick_list_size list = length list
