-- ===== src/Client/Input.antt =====
-- upush_client.c and common.c: what the user types.
use upush_chat.Base.{
  ℕ, ◌-◌, Bool, true, false, not, Option, none, some, [], ◌∷◌, Bytes, leb, if◌then◌else◌, length,
  ◌==◌,
}
use upush_chat.Strings.{is_ascii}
use upush_chat.Sequence.{get_last?, drop_last}
use upush_chat.Common.{parse_message, is_word_valid_nick}

-- `get_string` on a line of the input without its newline, at the size of the buffer. The line
-- holds no null byte.
unfoldable pub get_string : (line : Bytes) → (size : ℕ) → Bytes
get_string [] size = []
get_string (c ∷ cs) size =
    let rest = get_string cs (size - 1) in if leb size 1 then [] else c ∷ rest

-- `get_string` at the end of the input, where `fgets` leaves the buffer as it is. `none` is undefined
-- behaviour: an empty buffer is read at the index -1.
unfoldable pub get_string_at_end : (buf : Bytes) → Option Bytes
get_string_at_end buf = elim (get_last? buf) [
  | none ↦ none
  | some c ↦ some (if c == b'\n' then drop_last buf else buf)
]

unfoldable pub string_starts_with : (big_string sub_string : Bytes) → Bool
string_starts_with big [] = true
string_starts_with [] (c ∷ sub) = false
string_starts_with (b ∷ big) (c ∷ sub) = if not (b == c) then false else string_starts_with big sub

-- The loop of `is_valid_client_message`.
unfoldable pub message_loop : Bytes → Bool
unfolding is_ascii
message_loop [] = true
message_loop (c ∷ cs) = if not (is_ascii c) then false else message_loop cs

unfoldable pub is_valid_client_message : Bytes → Bool
unfolding message_loop
is_valid_client_message message = if leb 1400 (length message) then false else message_loop message

-- The recipient and the message; `none` is the result 0. Both fit into the buffers that `strncpy`
-- writes to, since the tests bound their lengths.
unfoldable pub parse_client_input : Bytes → Option (Bytes × Bytes)
unfolding parse_message is_word_valid_nick is_valid_client_message
parse_client_input buf = elim (parse_message buf 2) [
  | recipient_nick ∷ recipient_message ∷ _ ↦
      if not (is_word_valid_nick recipient_nick)
      then none
      else if not (is_valid_client_message recipient_message)
      then none
      else some (recipient_nick, recipient_message)
  | _ ↦ none
]
