-- ===== src/Server/Ascii.antt =====
-- Words of ASCII characters are tested for a command without undefined behaviour.
use upush_chat.Base.{
  ℕ, ◌<◌, ◌≢◌, none, List, [], ◌∷◌, arith, Bytes, All, Option-cases, inl, inr, get_elem?,
}
use upush_chat.Common.{number_loop, is_word_number}
use upush_chat.Server.{is_command}

abbrev pub IsAscii : ℕ → Type 0
IsAscii c = c < 128

number_loop-ne_none : (w : Bytes) → All IsAscii w → number_loop w ≢ none
unfolding number_loop
number_loop-ne_none [] h = λ e. cc
number_loop-ne_none (c ∷ w) h = ground (arith, number_loop-ne_none w h.1)

second_word-ne_none :
    (parsed : List Bytes) → All (All IsAscii) parsed → is_word_number (get_elem? parsed 1) ≢ none
unfolding is_word_number
second_word-ne_none [] h = λ e. cc
second_word-ne_none (a ∷ []) h = λ e. cc
second_word-ne_none (a ∷ b ∷ r) h = number_loop-ne_none b h.1.0

pub is_command-ne_none :
    (cmd : Bytes) (parsed : List Bytes) → All (All IsAscii) parsed → is_command cmd parsed ≢ none
unfolding is_command
is_command-ne_none cmd parsed h e = elim (Option-cases (is_word_number (get_elem? parsed 1))) [
  | inl odd ↦ absurd (second_word-ne_none parsed h odd)
  | inr (number, tested) ↦ let end = rw tested at e in ground arith
]
