-- ===== src/Common/Nick.antt =====
-- Which words are nicknames, and which are numbers.
use upush_chat.Base.{
  ℕ, suc, ◌+◌, ◌≤◌, ◌<◌, ◌≡◌, ◌≢◌, ◌↔◌, true, some, [], ◌∷◌, arith, Bytes, leb, Bool-cases, inl,
  inr, length, All,
}
use upush_chat.Strings.{is_digit, is_ascii, is_blank}
use upush_chat.Common.{is_nick_char, nick_loop, is_word_valid_nick, number_loop, is_word_number}

-- A character of a nickname: ASCII, and neither a space, a tab nor a newline.
abbrev pub IsNickChar : ℕ → Type 0
IsNickChar c = (c < 128) × (c ≢ b' ') × (c ≢ b'\t') × (c ≢ b'\n')

is_nick_char_iff : (c : ℕ) → (is_nick_char c ≡ true) ↔ IsNickChar c
unfolding is_nick_char is_ascii is_blank
is_nick_char_iff c = ground arith

nick_loop_iff : (i : ℕ) (w : Bytes) → i + length w ≤ 20 → (nick_loop i w ≡ true) ↔ All IsNickChar w
unfolding nick_loop
nick_loop_iff i [] short = ground arith
nick_loop_iff i (c ∷ cs) short = ground (arith, is_nick_char_iff c, nick_loop_iff (suc i) cs)

-- A word is accepted as a nickname exactly when it has fewer than 20 characters and each is ASCII
-- and no space, tab or newline.
pub is_word_valid_nick_iff :
    (w : Bytes) → (is_word_valid_nick w ≡ true) ↔ ((length w < 20) × All IsNickChar w)
unfolding is_word_valid_nick
is_word_valid_nick_iff w = elim (Bool-cases (leb 20 (length w))) [
  | inl long ↦ rw long (ground arith)
  | inr short ↦ rw short (ground (arith, nick_loop_iff 0 w))
]

-- A word is accepted as a number exactly when it is there and each of its characters is a digit;
-- the empty word is accepted.
pub is_word_number_iff :
    (w : Bytes) → (is_word_number (some w) ≡ some true) ↔ All (λ c. (b'0' ≤ c) × (c ≤ b'9')) w
unfolding is_word_number number_loop is_digit
is_word_number_iff [] = ground arith
is_word_number_iff (c ∷ w) = ground (arith, is_word_number_iff w)
