-- ===== src/Client/Typed.antt =====
-- What the client accepts from the user.
use mathlib.Core.Path.{subst}
use mathlib.Core.Option.{some-injective}
use upush_chat.Base.{
  ◌≡◌, ◌<◌, ◌↔◌, true, not, Option, none, some, List, [], ◌∷◌, ◌++◌, arith, Bytes, leb,
  if◌then◌else◌, length, All, Bool-cases, inl, inr, ◌==◌, refl,
}
use upush_chat.Strings.{is_ascii}
use upush_chat.Common.{parse_message, is_word_valid_nick}
use upush_chat.Common.Nick.{IsNickChar, is_word_valid_nick_iff}
use upush_chat.Client.Input.{
  string_starts_with, message_loop, is_valid_client_message, parse_client_input,
}

message_loop-All : (m : Bytes) → message_loop m ≡ true → All (λ c. c < 128) m
unfolding message_loop is_ascii
message_loop-All [] e = tt
message_loop-All (c ∷ cs) e = ground (arith, message_loop-All cs)

valid_message :
    (m : Bytes) → is_valid_client_message m ≡ true → (length m < 1400) × All (λ c. c < 128) m
unfolding is_valid_client_message
valid_message m e = elim (Bool-cases (leb 1400 (length m))) [
  | inl long ↦ ground arith
  | inr short ↦ (ground arith, message_loop-All m (ground arith))
]

abbrev Fits : Bytes × Bytes → Type 0
Fits (n, m) = ((length n < 20) × All IsNickChar n) × (length m < 1400) × All (λ c. c < 128) m

checked : Bytes → Bytes → Option (Bytes × Bytes)
checked n m =
    if not (is_word_valid_nick n)
    then none
    else if not (is_valid_client_message m)
    then none
    else some (n, m)

checked-bounds :
    (a b n m : Bytes)
    → checked a b ≡ some (n, m)
    → ((length n < 20) × All IsNickChar n) × (length m < 1400) × All (λ c. c < 128) m
unfolding checked
checked-bounds a b n m e = elim (Bool-cases (is_word_valid_nick a)) [
  | inr bad ↦ ground arith
  | inl good ↦ elim (Bool-cases (is_valid_client_message b)) [
    | inr bad ↦ ground arith
    | inl fine ↦
        let same : some (a, b) ≡ some (n, m) = ground arith in
        subst Fits (some-injective _ _ same)
          ((is_word_valid_nick_iff a).0 good, (valid_message b fine).0, (valid_message b fine).1)
  ]
]

-- What is accepted fits the buffers: the nick is a valid one and so has fewer than 20 characters,
-- and the message has fewer than 1400, which are ASCII.
pub parse_client_input-bounds :
    (buf n m : Bytes)
    → parse_client_input buf ≡ some (n, m)
    → ((length n < 20) × All IsNickChar n) × (length m < 1400) × All (λ c. c < 128) m
unfolding parse_client_input checked
parse_client_input-bounds buf n m e = go (parse_message buf 2) e
  where
    go :
        (words : List Bytes)
        → elim words [ a ∷ b ∷ _ ↦ checked a b | _ ↦ none ] ≡ some (n, m)
        → ((length n < 20) × All IsNickChar n) × (length m < 1400) × All (λ c. c < 128) m
    go [] e = cc
    go (a ∷ []) e = cc
    go (a ∷ b ∷ rest) e = checked-bounds a b n m e

-- A line starts with another exactly when it is that one with something behind it.
pub string_starts_with_iff :
    (big sub : Bytes) → (string_starts_with big sub ≡ true) ↔ ((rest : Bytes) × (sub ++ rest ≡ big))
unfolding string_starts_with
string_starts_with_iff big [] = (λ _. (big, refl), λ _. refl)
string_starts_with_iff [] (c ∷ sub) = (λ e. cc, λ (rest, e). cc)
string_starts_with_iff (b ∷ big) (c ∷ sub) = elim (Bool-cases (b == c)) [
  | inr ne ↦ (λ e. ground arith, λ (rest, e). ground arith)
  | inl eq ↦ (
    λ e. let (rest, t) = (string_starts_with_iff big sub).0 (ground arith) in (rest, ground arith),
    λ (rest, e). rw eq ((string_starts_with_iff big sub).1 (rest, ground arith)),
  )
]
