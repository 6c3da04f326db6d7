-- ===== src/Common/Contents.antt =====
-- The bytes of the words that `parse_message` finds are bytes of the message.
use upush_chat.Base.{
  ℕ, zero, suc, ◌-◌, ◌≡◌, ◌==◌, some, [], ◌∷◌, Bytes, leb, All, Bool-cases, Option-cases, inl, inr,
}
use upush_chat.Strings.{c_string, strtok, strtok_at, skip, token, behind, has_byte}
use upush_chat.Common.{space, next_words, parse_message}

module _ (P : ℕ → Type 0) where
  pub All-c_string : (s : Bytes) → All P s → All P (c_string s)
  unfolding c_string
  All-c_string [] h = tt
  All-c_string (c ∷ s) h = elim (Bool-cases (c == 0)) [
    | inl null ↦ rw null tt
    | inr other ↦ rw other (h.0, All-c_string s h.1)
  ]

  All-skip : (delims s : Bytes) → All P s → All P (skip delims s)
  unfolding skip
  All-skip delims [] h = tt
  All-skip delims (c ∷ s) h = elim (Bool-cases (has_byte delims c)) [
    | inl delim ↦ rw delim (All-skip delims s h.1)
    | inr other ↦ rw other h
  ]

  All-token : (delims s : Bytes) → All P s → All P (token delims s) × All P (behind delims s)
  unfolding token behind
  All-token delims [] h = (tt, tt)
  All-token delims (c ∷ s) h = elim (Bool-cases (has_byte delims c)) [
    | inl delim ↦ rw delim (tt, h.1)
    | inr other ↦ let (first, rest) = All-token delims s h.1 in rw other ((h.0, first), rest)
  ]

  All-strtok_at :
      (delims s : Bytes) {w rest : Bytes}
      → All P s
      → strtok_at delims s ≡ some (w, rest)
      → All P w × All P rest
  unfolding strtok_at
  All-strtok_at delims [] h e = cc
  All-strtok_at delims (c ∷ s) {w} {rest} h e =
      let first : token delims (c ∷ s) ≡ w = cc in
      let left : behind delims (c ∷ s) ≡ rest = cc in
      rw (← first, ← left) (All-token delims (c ∷ s) h)

  All-strtok :
      (delims s : Bytes) {w rest : Bytes}
      → All P s
      → strtok delims s ≡ some (w, rest)
      → All P w × All P rest
  unfolding strtok
  All-strtok delims s h e = All-strtok_at delims (skip delims s) (All-skip delims s h) e

  All-next_words : (n : ℕ) (s : Bytes) → All P s → All (All P) (next_words n s)
  unfolding next_words
  All-next_words zero s h = elim (Option-cases (strtok [] s)) [
    | inl e ↦ rw (e, next_words) tt
    | inr ((w, r), e) ↦ rw (e, next_words) ((All-strtok [] s h e).0, tt)
  ]
  All-next_words (suc n) s h = elim (Option-cases (strtok space s)) [
    | inl e ↦ rw (e, next_words) tt
    | inr ((w, r), e) ↦
        let (word, rest) = All-strtok space s h e in
        rw (e, next_words) (word, All-next_words n r rest)
  ]

  -- What every byte of the message satisfies, every byte of each of its words does.
  pub All-parse_message : (msg : Bytes) (n : ℕ) → All P msg → All (All P) (parse_message msg n)
  unfolding parse_message
  All-parse_message msg n h = elim (Bool-cases (leb n 1)) [
    | inl few ↦ rw few tt
    | inr enough ↦ rw enough (elim (Option-cases (strtok space msg)) [
      | inl e ↦ rw (e, parse_message) tt
      | inr ((w, r), e) ↦
          let (word, rest) = All-strtok space msg h e in
          rw (e, parse_message) (word, All-next_words (n - 2) r rest)
    ])
  ]
