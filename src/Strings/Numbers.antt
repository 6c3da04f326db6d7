-- ===== src/Strings/Numbers.antt =====
-- `atoi` reads back what `%d` prints.
use upush_chat.Base.{
  ℕ, zero, suc, ◌+◌, ◌-◌, ◌*◌, ◌/◌, ◌%◌, ◌≤◌, ◌<◌, ◌≡◌, ◌≢◌, refl, some, [], ◌∷◌, ◌++◌, arith,
  Bytes, ltb, All, Bool-cases, inl, inr,
}
use upush_chat.Int.{pos}
use upush_chat.Strings.{
  decimal_fuel, decimal, is_digit, is_space, skip_spaces, read_digits, read_signed, in_int, atoi,
}
use upush_chat.Strings.Laws.{All-append}

abbrev pub IsDigit : ℕ → Type 0
IsDigit c = (b'0' ≤ c) × (c ≤ b'9')

decimal_fuel-digits : (f n : ℕ) → All IsDigit (decimal_fuel f n)
unfolding decimal_fuel
decimal_fuel-digits zero n = tt
decimal_fuel-digits (suc f) n = elim (Bool-cases (ltb n 10)) [
  | inl small ↦ rw small (ground arith)
  | inr big ↦ rw big (
      All-append IsDigit (decimal_fuel f (n / 10)) _ (decimal_fuel-digits f (n / 10)) (omega arith))
]

pub decimal-digits : (n : ℕ) → All IsDigit (decimal n)
unfolding decimal
decimal-digits n = decimal_fuel-digits (suc n) n

append-ne_nil : (s : Bytes) (c : ℕ) → s ++ c ∷ [] ≢ []
append-ne_nil [] c e = cc
append-ne_nil (d ∷ s) c e = cc

pub decimal-ne_nil : (n : ℕ) → decimal n ≢ []
unfolding decimal decimal_fuel
decimal-ne_nil n e = elim (Bool-cases (ltb n 10)) [
  | inl small ↦ let one : (b'0' + n) ∷ [] ≡ [] = rw small at e in cc
  | inr big ↦ append-ne_nil (decimal_fuel n (n / 10)) (b'0' + n % 10) (rw big at e)
]

read_digits-append :
    (m : ℕ) (s t : Bytes) → All IsDigit s → read_digits m (s ++ t) ≡ read_digits (read_digits m s) t
unfolding read_digits is_digit
read_digits-append m [] t h = refl
read_digits-append m (c ∷ s) t h = ground (arith, read_digits-append (10 * m + (c - b'0')) s t h.1)

read_digit : (m c : ℕ) → IsDigit c → read_digits m (c ∷ []) ≡ 10 * m + (c - b'0')
unfolding read_digits is_digit
read_digit m c h = ground arith

read_decimal : (f n : ℕ) → n < f → read_digits 0 (decimal_fuel f n) ≡ n
unfolding decimal_fuel
read_decimal zero n h = absurd (omega arith)
read_decimal (suc f) n h = elim (Bool-cases (ltb n 10)) [
  | inl small ↦ rw small (rw (read_digit 0 (b'0' + n) (ground arith)) (omega arith))
  | inr big ↦
      rw
        (
          big,
          read_digits-append 0 (decimal_fuel f (n / 10)) ((b'0' + n % 10) ∷ [])
              (decimal_fuel-digits f (n / 10)),
          read_decimal f (n / 10) (ground arith),
        )
        (rw (read_digit (n / 10) (b'0' + n % 10) (omega arith)) (omega arith))
]

skip_digits : (c : ℕ) (s : Bytes) → IsDigit c → skip_spaces (c ∷ s) ≡ c ∷ s
unfolding skip_spaces is_space
skip_digits c s h = ground arith

read_signed-digits :
    (s : Bytes) → All IsDigit s → s ≢ [] → read_signed (skip_spaces s) ≡ pos (read_digits 0 s)
unfolding read_signed
read_signed-digits [] h ne = absurd (ne refl)
read_signed-digits (c ∷ s) h ne = rw (skip_digits c s h.0) (ground arith)

read_digits-decimal : (n : ℕ) → read_digits 0 (decimal n) ≡ n
unfolding decimal
read_digits-decimal n = read_decimal (suc n) n (omega arith)

pub atoi-decimal : (n : ℕ) → n ≤ 2147483647 → atoi (decimal n) ≡ some (pos n)
unfolding atoi in_int
atoi-decimal n h =
    rw (read_signed-digits (decimal n) (decimal-digits n) (decimal-ne_nil n), read_digits-decimal n)
      (ground arith)
