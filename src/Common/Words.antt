-- ===== src/Common/Words.antt =====
-- What `parse_message` makes of a message: how long its words are, and when it finds the words that
-- the message was put together from.
use upush_chat.Base.{
  ℕ, zero, suc, ◌+◌, ◌-◌, ◌≤◌, ◌≡◌, ◌≢◌, refl, ap, inl, inr, Bool, true, false, some, List, [], ◌∷◌,
  ◌++◌, arith, Bytes, leb, if◌then◌else◌, length, length-append, All, Option-cases, Bool-cases,
}
use upush_chat.Strings.Laws.{All-append}
use upush_chat.Strings.{strtok, strtok_at, skip, token, behind, has_byte}
use upush_chat.Common.{space, next_words, parse_message}

-- The bytes that the words take up, with one byte behind each.
abbrev pub room : List Bytes → ℕ
room [] = 0
room (w ∷ ws) = length w + 1 + room ws

abbrev is_empty : Bytes → Bool
is_empty [] = true
is_empty (_ ∷ _) = false

skip-length : (delims s : Bytes) → length (skip delims s) ≤ length s
unfolding skip
skip-length delims [] = omega arith
skip-length delims (c ∷ s) = ground (arith, skip-length delims s)

token-length :
    (delims s : Bytes)
    → length (token delims s)
        + length (behind delims s)
        + (if is_empty (behind delims s) then 0 else 1)
      ≤ length s
unfolding token behind
token-length delims [] = omega arith
token-length delims (c ∷ s) = ground (arith, token-length delims s)

strtok_at-length :
    (delims s : Bytes) {w rest : Bytes}
    → strtok_at delims s ≡ some (w, rest)
    → length w + length rest + (if is_empty rest then 0 else 1) ≤ length s
unfolding strtok_at
strtok_at-length delims [] e = cc
strtok_at-length delims (c ∷ s) e = ground (arith, token-length delims (c ∷ s))

strtok-length :
    (delims s : Bytes) {w rest : Bytes}
    → strtok delims s ≡ some (w, rest)
    → length w + length rest + (if is_empty rest then 0 else 1) ≤ length s
unfolding strtok
strtok-length delims s e =
    omega (arith, strtok_at-length delims (skip delims s) e, skip-length delims s)

next_words-nil : (n : ℕ) → next_words n [] ≡ []
unfolding next_words
next_words-nil zero = refl
next_words-nil (suc n) = refl

room-next_words : (n : ℕ) (rest : Bytes) → room (next_words n rest) ≤ length rest + 1
unfolding next_words
room-next_words zero rest = elim (Option-cases (strtok [] rest)) [
  | inl e ↦ rw (e, next_words) (omega arith)
  | inr ((w, r), e) ↦ rw (e, next_words) (omega (arith, strtok-length [] rest e))
]
room-next_words (suc n) rest = elim (Option-cases (strtok space rest)) [
  | inl e ↦ rw (e, next_words) (omega arith)
  | inr ((w, []), e) ↦
      rw (e, next_words) (rw (next_words-nil n) (omega (arith, strtok-length space rest e)))
  | inr ((w, c ∷ r), e) ↦
      rw (e, next_words) (omega (arith, strtok-length space rest e, room-next_words n (c ∷ r)))
]

-- The words, with a byte between each two, take up no more room than the message.
pub room-parse_message : (msg : Bytes) (n : ℕ) → room (parse_message msg n) ≤ length msg + 1
unfolding parse_message
room-parse_message msg n = elim (Bool-cases (leb n 1)) [
  | inl few ↦ rw few (omega arith)
  | inr enough ↦ rw enough (elim (Option-cases (strtok space msg)) [
    | inl e ↦ rw (e, parse_message) (omega arith)
    | inr ((w, []), e) ↦
        rw (e, parse_message)
          (rw (next_words-nil (n - 2)) (omega (arith, strtok-length space msg e)))
    | inr ((w, c ∷ r), e) ↦
        rw (e, parse_message)
          (omega (arith, strtok-length space msg e, room-next_words (n - 2) (c ∷ r)))
  ])
]

length-next_words : (n : ℕ) (rest : Bytes) → length (next_words n rest) ≤ n + 1
unfolding next_words
length-next_words zero rest = ground arith
length-next_words (suc n) rest = elim (Option-cases (strtok space rest)) [
  | inl e ↦ rw (e, next_words) (omega arith)
  | inr ((w, r), e) ↦ rw (e, next_words) (omega (arith, length-next_words n r))
]

-- `parse_message` writes no entry behind the `max_elems` that it is given.
pub length-parse_message : (msg : Bytes) (n : ℕ) → length (parse_message msg n) ≤ n
unfolding parse_message
length-parse_message msg n = elim (Bool-cases (leb n 1)) [
  | inl few ↦ rw few (omega arith)
  | inr enough ↦ rw enough (elim (Option-cases (strtok space msg)) [
    | inl e ↦ rw (e, parse_message) (omega arith)
    | inr ((w, r), e) ↦ rw (e, parse_message) (ground (arith, length-next_words (n - 2) r))
  ])
]

-- A word that `strtok` finds again: it is not empty and holds no space.
abbrev pub IsPlain : Bytes → Type 0
IsPlain w = (w ≢ []) × All (λ c. c ≢ b' ') w

token_word :
    (w s : Bytes)
    → All (λ c. c ≢ b' ') w
    → (token space (w ++ b' ' ∷ s) ≡ w) × (behind space (w ++ b' ' ∷ s) ≡ s)
unfolding token behind has_byte
token_word [] s h = (refl, refl)
token_word (c ∷ w) s h = ground (arith, token_word w s h.1)

strtok_word : (w s : Bytes) → IsPlain w → strtok space (w ++ b' ' ∷ s) ≡ some (w, s)
unfolding strtok strtok_at skip has_byte
strtok_word [] s h = absurd (h.0 refl)
strtok_word (c ∷ w) s h = ground (arith, token_word (c ∷ w) s h.1)

-- With no delimiters the rest of the string is one token.
token_all : (s : Bytes) → token [] s ≡ s
unfolding token has_byte
token_all [] = refl
token_all (c ∷ s) = ap (◌∷◌ c) (token_all s)

-- The words `ws`, a space behind each, and then `last`.
abbrev pub spaced : List Bytes → Bytes → Bytes
spaced [] last = last
spaced (w ∷ ws) last = w ++ b' ' ∷ spaced ws last

pub length-spaced :
    (ws : List Bytes) (last : Bytes) → length (spaced ws last) ≡ room ws + length last
length-spaced [] last = omega arith
length-spaced (w ∷ ws) last =
    omega (arith, length-append w (b' ' ∷ spaced ws last), length-spaced ws last)

-- Where a space and every byte of the words satisfy `P`, the message does.
pub All-spaced :
    (P : ℕ → Type 0) (ws : List Bytes) (last : Bytes)
    → P b' '
    → All (All P) ws
    → All P last
    → All P (spaced ws last)
All-spaced P [] last sp h k = k
All-spaced P (w ∷ ws) last sp h k = All-append P w _ h.0 (sp, All-spaced P ws last sp h.1 k)

next_words-spaced :
    (ws : List Bytes) (last : Bytes)
    → All IsPlain ws
    → last ≢ []
    → next_words (length ws) (spaced ws last) ≡ ws ++ last ∷ []
unfolding next_words
next_words-spaced [] [] plain ne = absurd (ne refl)
next_words-spaced [] (c ∷ s) plain ne = ap (λ t. t ∷ []) (token_all (c ∷ s))
next_words-spaced (w ∷ ws) last plain ne =
    rw (strtok_word w (spaced ws last) plain.0, next_words)
      (ap (◌∷◌ w) (next_words-spaced ws last plain.1 ne))

-- A message of plain words with one space between each two, and any text that is not empty behind
-- them, is parsed into these words and that text, when there is room for exactly as many.
pub parse_message-spaced :
    (w : Bytes) (ws : List Bytes) (last : Bytes)
    → All IsPlain (w ∷ ws)
    → last ≢ []
    → parse_message (spaced (w ∷ ws) last) (length ws + 2) ≡ w ∷ (ws ++ last ∷ [])
unfolding parse_message
parse_message-spaced w ws last plain ne =
    let enough : leb (length ws + 2) 1 ≡ false = ground arith in
    let left : length ws + 2 - 2 ≡ length ws = omega arith in
    rw (enough, strtok_word w (spaced ws last) plain.0, left, next_words-spaced ws last plain.1 ne)
