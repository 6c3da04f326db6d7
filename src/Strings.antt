-- ===== src/Strings.antt =====
-- The functions of the C library on strings that the program calls. A string is the list of its
-- bytes up to the terminating null byte.
pub mod Laws
pub mod Numbers
pub mod Search
use upush_chat.Base.{
  ℕ, zero, suc, ◌+◌, ◌-◌, ◌*◌, ◌/◌, ◌%◌, Bool, true, false, ◌&&◌, ◌||◌, Option, none, some, List,
  [], ◌∷◌, ◌++◌, Bytes, ◌==◌, ltb, leb, if◌then◌else◌,
}
use upush_chat.Int.{ℤ, pos, negsuc, ◌-ℤ◌, ltb_ℤ}

-- The string in a buffer: what stands before the first null byte.
unfoldable pub c_string : Bytes → Bytes
c_string [] = []
c_string (c ∷ cs) = if c == 0 then [] else c ∷ c_string cs

-- `strcmp(a, b) == 0`
unfoldable pub same_string : Bytes → Bytes → Bool
same_string [] [] = true
same_string (a ∷ as') (b ∷ bs) = a == b && same_string as' bs
same_string _ _ = false

unfoldable pub is_prefix : Bytes → Bytes → Bool
is_prefix [] s = true
is_prefix (a ∷ p) [] = false
is_prefix (a ∷ p) (c ∷ s) = a == c && is_prefix p s

-- `strstr(s, sub) != NULL`
unfoldable pub contains_string : Bytes → Bytes → Bool
unfolding is_prefix
contains_string [] sub = is_prefix sub []
contains_string (c ∷ s) sub = is_prefix sub (c ∷ s) || contains_string s sub

unfoldable pub has_byte : Bytes → ℕ → Bool
has_byte [] c = false
has_byte (d ∷ ds) c = c == d || has_byte ds c

-- `strspn`: what is left behind the leading delimiters.
unfoldable pub skip : Bytes → Bytes → Bytes
unfolding has_byte
skip delims [] = []
skip delims (c ∷ s) = if has_byte delims c then skip delims s else c ∷ s

-- The token at the start of a string, and what stands behind the delimiter that ends it.
unfoldable pub token : Bytes → Bytes → Bytes
unfolding has_byte
token delims [] = []
token delims (c ∷ s) = if has_byte delims c then [] else c ∷ token delims s

unfoldable pub behind : Bytes → Bytes → Bytes
unfolding has_byte
behind delims [] = []
behind delims (c ∷ s) = if has_byte delims c then s else behind delims s

-- `strtok`: the next token, and the string that the next call goes on with; `none` is `NULL`.
unfoldable pub strtok_at : Bytes → Bytes → Option (Bytes × Bytes)
unfolding token behind
strtok_at delims [] = none
strtok_at delims (c ∷ s) = some (token delims (c ∷ s), behind delims (c ∷ s))

unfoldable pub strtok : Bytes → Bytes → Option (Bytes × Bytes)
unfolding skip strtok_at
strtok delims s = strtok_at delims (skip delims s)

unfoldable pub is_digit : ℕ → Bool
is_digit c = leb b'0' c && leb c b'9'

unfoldable pub is_ascii : ℕ → Bool
is_ascii c = ltb c 128

unfoldable pub is_blank : ℕ → Bool
is_blank c = c == b' ' || c == b'\t'

-- The digits that `%d` prints for a number that is not negative.
unfoldable pub decimal_fuel : ℕ → ℕ → Bytes
decimal_fuel zero n = []
decimal_fuel (suc k) n =
    let rest = decimal_fuel k (n / 10) in
    if ltb n 10 then (b'0' + n) ∷ [] else rest ++ (b'0' + n % 10) ∷ []

unfoldable pub decimal : ℕ → Bytes
unfolding decimal_fuel
decimal n = decimal_fuel (suc n) n

-- `%d`
unfoldable pub decimal_ℤ : ℤ → Bytes
unfolding decimal
decimal_ℤ (pos n) = decimal n
decimal_ℤ (negsuc n) = b'-' ∷ decimal (suc n)

-- `isspace`
unfoldable pub is_space : ℕ → Bool
is_space c = c == b' ' || leb 9 c && leb c 13

unfoldable pub skip_spaces : Bytes → Bytes
unfolding is_space
skip_spaces [] = []
skip_spaces (c ∷ s) = if is_space c then skip_spaces s else c ∷ s

-- The number that the leading digits go on to form behind `n`.
unfoldable pub read_digits : ℕ → Bytes → ℕ
unfolding is_digit
read_digits n [] = n
read_digits n (c ∷ s) = if is_digit c then read_digits (10 * n + (c - b'0')) s else n

unfoldable pub read_signed : Bytes → ℤ
unfolding read_digits ◌-ℤ◌
read_signed [] = pos 0
read_signed (c ∷ s) =
    if c == b'-'
    then pos 0 -ℤ pos (read_digits 0 s)
    else if c == b'+'
    then pos (read_digits 0 s)
    else pos (read_digits 0 (c ∷ s))

-- `none`: the number does not fit into an `int`, and the result of `atoi` is undefined.
unfoldable pub in_int : ℤ → Option ℤ
in_int n = if ltb_ℤ (pos 2147483647) n || ltb_ℤ n (negsuc 2147483647) then none else some n

unfoldable pub atoi : Bytes → Option ℤ
unfolding skip_spaces read_signed in_int
atoi s = in_int (read_signed (skip_spaces s))
