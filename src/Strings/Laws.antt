-- ===== src/Strings/Laws.antt =====
-- Comparison, null bytes and decimal digits.
use native.Mathlib.Nat.{pow-suc}
use upush_chat.Base.{
  ℕ, zero, suc, ◌+◌, ◌/◌, ◌^◌, ◌%◌, ◌≤◌, ◌<◌, ◌≡◌, ◌≢◌, ◌↔◌, refl, true, List, [], ◌∷◌, ◌++◌, arith,
  Bytes, length, length-append, All,
}
use upush_chat.Strings.{same_string, c_string, decimal_fuel, decimal}

pub same_string_iff : (a b : Bytes) → (same_string a b ≡ true) ↔ (a ≡ b)
unfolding same_string
same_string_iff (x ∷ a) (y ∷ b) = ground (arith, same_string_iff a b)
same_string_iff _ _ = ground arith

pub same_string_self : (a : Bytes) → same_string a a ≡ true
same_string_self a = (same_string_iff a a).1 refl

pub same_string_sym : (a b : Bytes) → same_string a b ≡ same_string b a
same_string_sym a b = ground (arith, same_string_iff a b, same_string_iff b a)

-- A text without null bytes is the string in the buffer that it fills.
pub c_string_lem : (s : Bytes) → All (λ c. c ≢ 0) s → c_string s ≡ s
unfolding c_string
c_string_lem [] h = refl
c_string_lem (c ∷ s) h = ground (arith, c_string_lem s h.1)

pub length-c_string : (s : Bytes) → length (c_string s) ≤ length s
unfolding c_string
length-c_string [] = omega arith
length-c_string (c ∷ s) = ground (arith, length-c_string s)

pub All-append {ℓ κ} :
    {A : Type ℓ} (P : A → Type κ) (xs ys : List A) → All P xs → All P ys → All P (xs ++ ys)
All-append P [] ys h k = k
All-append P (x ∷ xs) ys h k = (h.0, All-append P xs ys h.1 k)

-- A number below 10 ^ k has at most k digits.
length-decimal_fuel : (f k n : ℕ) → n < 10 ^ suc k → length (decimal_fuel f n) ≤ suc k
unfolding decimal_fuel
length-decimal_fuel zero k n h = omega arith
length-decimal_fuel (suc f) zero n h = ground arith
length-decimal_fuel (suc f) (suc k) n h =
    let small : n / 10 < 10 ^ suc k = omega (arith, pow-suc 10 (suc k)) in
    ground (
      arith,
      length-append (decimal_fuel f (n / 10)) ((48 + n % 10) ∷ []),
      length-decimal_fuel f k (n / 10) small,
    )

pub length-decimal : (n : ℕ) → n ≤ 65535 → length (decimal n) ≤ 5
unfolding decimal
length-decimal n h = length-decimal_fuel (suc n) 4 n (omega arith)
