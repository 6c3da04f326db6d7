-- ===== src/Tests/OfCommon.antt =====
-- Messages, nicknames and times.
use upush_chat.Base.{
  ◌≤◌, ◌<◌, ◌≡◌, ◌↔◌, ◌⊎◌, refl, true, [], ◌∷◌, arith, Bytes, codes, length, All, false,
}
use upush_chat.Int.{pos, ◌≤ℤ◌}
use upush_chat.TimeFunctions.{Timeval, compare_time, set_time_difference, set_time_minus_time}
use upush_chat.TimeFunctions.Order.{IsNormal, IsBetween, set_time_difference-IsBetween}
use upush_chat.Common.{parse_message, is_word_valid_nick}
use upush_chat.Common.Pieces.{pieces, non_empty, take, take-parse_message}
use upush_chat.Common.Words.{room, room-parse_message, parse_message-spaced}
use upush_chat.Common.Nick.{IsNickChar, is_word_valid_nick_iff}

abbrev text : Bytes
text = codes "How many  elements do I get"

-- Spaces before a word are skipped, except in the remainder.
parse_three : parse_message text 3 ≡ codes "How" ∷ codes "many" ∷ codes " elements do I get" ∷ []
unfolding parse_message
parse_three = refl

parse_few : parse_message (codes "  ACK 1") 4 ≡ codes "ACK" ∷ codes "1" ∷ []
unfolding parse_message
parse_few = refl

room-parse_message_example : room (parse_message text 3) ≤ 28
room-parse_message_example = room-parse_message text 3

take-parse_message_example :
    take 2 (parse_message (codes " How  many elements ") 3)
    ≡ take 2 (non_empty (pieces (codes " How  many elements ")))
take-parse_message_example = take-parse_message (codes " How  many elements ") 2

cut : non_empty (pieces (codes " How  many")) ≡ codes "How" ∷ codes "many" ∷ []
unfolding pieces
cut = refl

parse_message-spaced_example :
    parse_message (codes "PKT 0 REG nick") 4
    ≡ codes "PKT" ∷ codes "0" ∷ codes "REG" ∷ codes "nick" ∷ []
parse_message-spaced_example =
    parse_message-spaced (codes "PKT") (codes "0" ∷ codes "REG" ∷ []) (codes "nick")
      (((λ e. cc), omega arith), (((λ e. cc), omega arith), (((λ e. cc), omega arith), tt)))
      (λ e. cc)

is_word_valid_nick_iff_example :
    (is_word_valid_nick (codes "Peter") ≡ true)
    ↔ ((length (codes "Peter") < 20) × All IsNickChar (codes "Peter"))
is_word_valid_nick_iff_example = is_word_valid_nick_iff (codes "Peter")

twenty_characters : is_word_valid_nick (codes "abcdefghijklmnopqrst") ≡ false
unfolding is_word_valid_nick
twenty_characters = refl

abbrev early : Timeval
early = record { tv_sec = pos 5; tv_usec = pos 900000 }

abbrev later : Timeval
later = record { tv_sec = pos 8; tv_usec = pos 100000 }

set_time_difference-IsBetween_example :
    let d = set_time_difference early later in
    IsNormal d × (pos 0 ≤ℤ d.tv_sec) × (IsBetween early d later ⊎ IsBetween later d early)
set_time_difference-IsBetween_example =
    set_time_difference-IsBetween early later (omega arith) (omega arith)

difference : set_time_difference early later ≡ record { tv_sec = pos 2; tv_usec = pos 200000 }
unfolding set_time_difference compare_time set_time_minus_time
difference = refl
