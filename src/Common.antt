-- ===== src/Common.antt =====
-- common.c: parsing a message into words, and the tests on words.
pub mod Words
pub mod Pieces
pub mod Nick
pub mod Contents
use upush_chat.Base.{
  ℕ, zero, suc, ◌-◌, Bool, true, false, not, ◌&&◌, ◌||◌, Option, none, some, List, [], ◌∷◌, Bytes,
  codes, ◌==◌, ltb, leb, if◌then◌else◌, length,
}
use upush_chat.Strings.{strtok, is_digit, is_ascii, is_blank}

abbrev pub bufsize : ℕ
bufsize = 4096

abbrev pub space : Bytes
space = b' ' ∷ []

-- The words behind the first one: `n` of them by `strtok(NULL, " ")`, and then the remainder of
-- the message by `strtok(NULL, "")`. A call that returns `NULL` ends the list.
unfoldable pub next_words : ℕ → Bytes → List Bytes
unfolding strtok
next_words zero rest = elim (strtok [] rest) [ none ↦ [] | some (w, _) ↦ w ∷ [] ]
next_words (suc n) rest = elim (strtok space rest) [
  | none ↦ []
  | some (w, rest') ↦ w ∷ next_words n rest'
]

-- The list holds the entries of `parsed` that are words; its length is what the C function returns.
-- With room for `max_elems`, the entry behind the last word is `NULL`, and those behind that one
-- are not written.
unfoldable pub parse_message : Bytes → ℕ → List Bytes
unfolding strtok next_words
parse_message msg max_elems = if leb max_elems 1 then [] else elim (strtok space msg) [
  | none ↦ []
  | some (w, rest) ↦ w ∷ next_words (max_elems - 2) rest
]

-- The body of the loop of `is_word_valid_nick`, on one character.
unfoldable pub is_nick_char : ℕ → Bool
unfolding is_ascii is_blank
is_nick_char c =
    if not (is_ascii c)
    then false
    else if is_blank c
    then false
    else if c == b'\n'
    then false
    else true

-- The loop, from index `i` on.
unfoldable pub nick_loop : ℕ → Bytes → Bool
unfolding is_nick_char
nick_loop i [] = true
nick_loop i (c ∷ cs) =
    if leb 20 i then false else if is_nick_char c then nick_loop (suc i) cs else false

-- `strlen(word)` is taken before the test for `NULL`, so a word is never `NULL` here.
unfoldable pub is_word_valid_nick : Bytes → Bool
unfolding nick_loop
is_word_valid_nick word = if leb 20 (length word) then false else nick_loop 0 word

-- The loop of `is_word_number`. The result `none` is undefined behaviour: a byte of 128 and more is a
-- `char` that may be negative, and `isdigit` is called on the `char`.
unfoldable pub number_loop : Bytes → Option Bool
unfolding is_digit
number_loop [] = some true
number_loop (c ∷ cs) =
    if leb 128 c then none else if not (is_digit c) then some false else number_loop cs

-- The word `none` is `NULL`.
unfoldable pub is_word_number : Option Bytes → Option Bool
unfolding number_loop
is_word_number none = some false
is_word_number (some word) = number_loop word
