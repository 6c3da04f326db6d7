-- ===== src/Client/Packets.antt =====
-- The text of a message and of its acknowledgement, and the words that are read from it.
use upush_chat.Base.{
  ℕ, zero, suc, ◌≤◌, ◌<◌, ◌≡◌, ◌≢◌, refl, List, [], ◌∷◌, ◌++◌, append_assoc, arith, Bytes, codes,
  length, All, inl,
}
use upush_chat.Strings.{c_string, decimal}
use upush_chat.Strings.Laws.{c_string_lem, length-decimal}
use upush_chat.Strings.Numbers.{decimal-digits, decimal-ne_nil}
use upush_chat.Common.{bufsize, parse_message}
use upush_chat.Common.Words.{spaced, parse_message-spaced, length-spaced, All-spaced}
use upush_chat.Contacts.{Message, Contact}
use upush_chat.Server.Requests.{IsNick}
use upush_chat.Client.Characters.{digits-absent, nick-no_space}
use upush_chat.Client.{Client}
use upush_chat.Client.ToClient.{packet_text}

-- The texts that a message may have, as the client accepts them.
abbrev pub IsText : Bytes → Type 0
IsText text = (text ≢ []) × All (λ c. c ≢ 0) text × (length text < 1400)

abbrev pub packet_words : Bytes → Bytes → Bytes → List Bytes
packet_words number from to =
    codes "PKT" ∷ number ∷ codes "FROM" ∷ from ∷ codes "TO" ∷ to ∷ codes "MSG" ∷ []

pub packet_text-spaced :
    (s : Client) (c : Contact) (m : Message)
    → packet_text s c m
      ≡ spaced (packet_words (decimal c.last_pkt_sent) s.client_nick c.nick) m.payload
packet_text-spaced s c m = simp (append_assoc)

-- The packet with the number `n`.
abbrev pub message : ℕ → Bytes → Bytes → Bytes → Bytes
message n from to text = spaced (packet_words (decimal n) from to) text

module _ (n : ℕ) (from to text : Bytes) (small : n ≤ 1) (f : IsNick from) (t : IsNick to)
    (x : IsText text) where
  number_ne : (k : ℕ) → k < b'0' → All (λ c. c ≢ k) (decimal n)
  number_ne k low = digits-absent k (decimal n) (inl low) (decimal-digits n)

  pub message-no_null : c_string (message n from to text) ≡ message n from to text
  message-no_null = c_string_lem _ (
      All-spaced (λ c. c ≢ 0) (packet_words (decimal n) from to) text (omega arith)
        (
          omega arith,
          (
            number_ne 0 (omega arith),
            (omega arith, (f.no_null, (omega arith, (t.no_null, (omega arith, tt))))),
          ),
        )
        x.1)

  pub length-message : length (message n from to text) < bufsize
  length-message = omega (
    arith,
    length-spaced (packet_words (decimal n) from to) text,
    length-decimal n (omega arith),
    f.short,
    t.short,
    x.2,
  )

  pub message-words :
      parse_message (message n from to text) 8
      ≡ codes "PKT" ∷ decimal n ∷ codes "FROM" ∷ from ∷ codes "TO" ∷ to ∷ codes "MSG" ∷ text ∷ []
  message-words =
      parse_message-spaced (codes "PKT")
        (decimal n ∷ codes "FROM" ∷ from ∷ codes "TO" ∷ to ∷ codes "MSG" ∷ []) text
        (
          (λ e. cc, omega arith),
          (
            (decimal-ne_nil n, number_ne b' ' (omega arith)),
            (
              (λ e. cc, omega arith),
              (
                (f.ne_nil, nick-no_space from f.chars),
                (
                  (λ e. cc, omega arith),
                  ((t.ne_nil, nick-no_space to t.chars), ((λ e. cc, omega arith), tt)),
                ),
              ),
            ),
          ),
        )
        x.0

-- The acknowledgement of the packet `n`.
abbrev pub ack_text : ℕ → Bytes
ack_text n = codes "ACK " ++ decimal n ++ codes " OK"

pub ack_words :
    (n : ℕ)
    → n ≤ 1
    → parse_message (c_string (ack_text n)) 8 ≡ codes "ACK" ∷ decimal n ∷ codes "OK" ∷ []
unfolding parse_message c_string decimal
ack_words zero h = refl
ack_words (suc zero) h = refl
ack_words (suc (suc n)) h = absurd (omega arith)

pub ack_fits : (n : ℕ) → n ≤ 1 → length (ack_text n) < bufsize
unfolding decimal
ack_fits zero h = omega arith
ack_fits (suc zero) h = omega arith
ack_fits (suc (suc n)) h = absurd (omega arith)
