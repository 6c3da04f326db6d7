-- ===== src/Strings/Search.antt =====
-- Where `strstr` finds nothing in a text of words.
use upush_chat.Base.{
  ℕ, ◌≡◌, ◌≢◌, refl, Bool, true, false, ◌||◌, [], ◌∷◌, ◌++◌, arith, Bytes, codes, ◌==◌, All,
  Bool-cases, inl, inr,
}
use upush_chat.Strings.{is_prefix, contains_string}

abbrev pub starts_with : Bytes → ℕ → Bool
starts_with [] d = false
starts_with (c ∷ s) d = d == c

-- "OK" is found in one of two words, or in neither.
pub contains-ok :
    (w s : Bytes)
    → contains_string (w ++ b' ' ∷ s) (codes "OK")
      ≡ (contains_string w (codes "OK") || contains_string s (codes "OK"))
unfolding contains_string is_prefix
contains-ok [] s = ground arith
contains-ok (c ∷ []) s = ground (arith, contains-ok [] s)
contains-ok (c ∷ d ∷ w) s = ground (arith, contains-ok (d ∷ w) s)

-- A byte that a text does not have is in no string found there.
pub contains-absent :
    (k : ℕ) (rest s : Bytes) → All (λ c. c ≢ k) s → contains_string s (k ∷ rest) ≡ false
unfolding contains_string is_prefix
contains-absent k rest [] h = refl
contains-absent k rest (c ∷ s) h = ground (arith, contains-absent k rest s h.1)

-- "T F" is found across a space only before an F.
pub contains-t_f :
    (w s : Bytes)
    → All (λ c. c ≢ b' ') w
    → starts_with s b'F' ≡ false
    → contains_string (w ++ b' ' ∷ s) (codes "T F") ≡ contains_string s (codes "T F")
unfolding contains_string is_prefix
contains-t_f [] s h f = ground arith
contains-t_f (c ∷ []) [] h f = ground arith
contains-t_f (c ∷ []) (e ∷ s) h f = ground arith
contains-t_f (c ∷ d ∷ w) s h f = ground (arith, contains-t_f (d ∷ w) s h.1)

is_prefix-not_found :
    (s : Bytes) → is_prefix (codes "NOT FOUND") s ≡ true → contains_string s (codes "T F") ≡ true
unfolding contains_string is_prefix
is_prefix-not_found [] e = ground arith
is_prefix-not_found (a ∷ []) e = ground arith
is_prefix-not_found (a ∷ b ∷ []) e = ground arith
is_prefix-not_found (a ∷ b ∷ c ∷ []) e = ground arith
is_prefix-not_found (a ∷ b ∷ c ∷ d ∷ []) e = ground arith
is_prefix-not_found (a ∷ b ∷ c ∷ d ∷ f ∷ s) e = ground arith

-- A text with "NOT FOUND" has "T F".
pub contains-not_found :
    (s : Bytes)
    → contains_string s (codes "T F") ≡ false
    → contains_string s (codes "NOT FOUND") ≡ false
unfolding contains_string is_prefix
contains-not_found [] e = refl
contains-not_found (c ∷ s) e = elim (Bool-cases (is_prefix (codes "NOT FOUND") (c ∷ s))) [
  | inl here ↦ cc (is_prefix-not_found (c ∷ s) here)
  | inr other ↦ ground (arith, contains-not_found s)
]
