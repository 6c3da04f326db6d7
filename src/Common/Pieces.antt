-- ===== src/Common/Pieces.antt =====
-- `parse_message` against a cutting of the message at each of its spaces.
use upush_chat.Base.{
  ℕ, zero, suc, ◌-◌, ◌≡◌, refl, sym, ap, ◌∙◌, false, none, some, List, [], ◌∷◌, Bytes, ◌==◌, leb,
  if◌then◌else◌, arith, List-cases, Option-cases, Bool-cases, inl, inr,
}
use upush_chat.Strings.{strtok, strtok_at, skip, token, behind, has_byte}
use upush_chat.Common.{space, next_words, parse_message}

-- The pieces between the spaces, one more than there are spaces; a piece may be empty.
abbrev prepend : ℕ → List Bytes → List Bytes
prepend c [] = (c ∷ []) ∷ []
prepend c (p ∷ ps) = (c ∷ p) ∷ ps

unfoldable pub pieces : Bytes → List Bytes
pieces [] = [] ∷ []
pieces (c ∷ s) = if c == b' ' then [] ∷ pieces s else prepend c (pieces s)

abbrev pub non_empty : List Bytes → List Bytes
non_empty [] = []
non_empty ([] ∷ ps) = non_empty ps
non_empty ((c ∷ p) ∷ ps) = (c ∷ p) ∷ non_empty ps

abbrev pub take {ℓ} : {A : Type ℓ} → ℕ → List A → List A
take zero xs = []
take (suc n) [] = []
take (suc n) (x ∷ xs) = x ∷ take n xs

abbrev words : Bytes → List Bytes
words s = non_empty (pieces s)

-- The first piece is the token, and the others are those of what stands behind it.
first_piece :
    (s : Bytes)
    → (ps : List Bytes) × (pieces s ≡ token space s ∷ ps) × (non_empty ps ≡ words (behind space s))
unfolding pieces token behind has_byte
first_piece [] = ([], refl, refl)
first_piece (c ∷ s) = elim (Bool-cases (c == b' ')) [
  | inl delim ↦ (pieces s, rw delim refl, rw delim refl)
  | inr other ↦ let (ps, first, rest) = first_piece s in (ps, rw (other, first) refl, rw other rest)
]

words-skip : (s : Bytes) → words (skip space s) ≡ words s
unfolding pieces skip has_byte
words-skip [] = refl
words-skip (c ∷ s) = elim (Bool-cases (c == b' ')) [
  | inl delim ↦ rw delim (words-skip s)
  | inr other ↦ rw other (rw other refl)
]

-- What `skip` leaves starts with no space.
token-cons : (s : Bytes) (c : ℕ) (s' : Bytes) → skip space s ≡ c ∷ s' → (c == b' ') ≡ false
unfolding skip has_byte
token-cons [] c s' e = cc
token-cons (x ∷ s) c s' e = elim (Bool-cases (x == b' ')) [
  | inl delim ↦ token-cons s c s' (rw delim at e)
  | inr other ↦ let left = rw other at e in let same : x ≡ c = cc in rw (← same) other
]

-- The pieces of a string that starts with a token.
words-token :
    (c : ℕ) (s : Bytes)
    → (c == b' ') ≡ false
    → words (c ∷ s) ≡ token space (c ∷ s) ∷ words (behind space (c ∷ s))
unfolding token behind has_byte
words-token c s other =
    let (ps, first, rest) = first_piece (c ∷ s) in
    ap non_empty first ∙ rw (other) (ap (◌∷◌ (c ∷ token space s)) (rest ∙ rw other refl))

words_nil : (s : Bytes) → strtok space s ≡ none → words s ≡ []
unfolding strtok strtok_at
words_nil s e = elim (List-cases (skip space s)) [
  | inl nil ↦ sym (words-skip s) ∙ ap words nil ∙ unfold pieces in refl
  | inr (c, s', h) ↦ absurd (let some_word = rw h at e in cc)
]

words-strtok : (s w rest : Bytes) → strtok space s ≡ some (w, rest) → words s ≡ w ∷ words rest
unfolding strtok strtok_at
words-strtok s w rest e = elim (List-cases (skip space s)) [
  | inl nil ↦ absurd (let no_word = rw nil at e in cc)
  | inr (c, s', h) ↦
      let found = rw h at e in
      let same_w : token space (c ∷ s') ≡ w = cc in
      let same_rest : behind space (c ∷ s') ≡ rest = cc in
      sym (words-skip s)
      ∙ ap words h
      ∙ words-token c s' (token-cons s c s' h)
      ∙ ap (λ t. t ∷ words (behind space (c ∷ s'))) same_w
      ∙ ap (λ t. w ∷ words t) same_rest
]

take-next_words : (n : ℕ) (rest : Bytes) → take n (next_words n rest) ≡ take n (words rest)
unfolding next_words
take-next_words zero rest = refl
take-next_words (suc n) rest = elim (Option-cases (strtok space rest)) [
  | inl e ↦ rw (e, next_words, words_nil rest e) refl
  | inr ((w, rest'), e) ↦
      rw (e, next_words, words-strtok rest w rest' e) (ap (◌∷◌ w) (take-next_words n rest'))
]

-- The first words that `parse_message` returns, one less than it has room for, are the pieces of
-- the message between its spaces that are not empty, in order, as many as there are.
pub take-parse_message :
    (msg : Bytes) (n : ℕ) → take n (parse_message msg (suc n)) ≡ take n (non_empty (pieces msg))
unfolding parse_message
take-parse_message msg zero = refl
take-parse_message msg (suc n) =
    let enough : leb (suc (suc n)) 1 ≡ false = ground arith in
    let left : suc (suc n) - 2 ≡ n = omega arith in
    elim (Option-cases (strtok space msg)) [
      | inl e ↦ rw (enough, e, parse_message, words_nil msg e) refl
      | inr ((w, rest), e) ↦
          rw (enough, e, parse_message, left, words-strtok msg w rest e)
            (ap (◌∷◌ w) (take-next_words n rest))
    ]
