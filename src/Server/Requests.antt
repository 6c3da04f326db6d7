-- ===== src/Server/Requests.antt =====
-- The requests that the server accepts, and how a well-formed one reaches its handler.
use upush_chat.Base.{
  ℕ, ◌≤◌, ◌<◌, ◌≡◌, ◌≢◌, ◌↔◌, refl, Bool, true, false, Option, none, List, [], ◌∷◌, arith, Bytes,
  codes, leb, length, All, some, ◌⊎◌, inl, inr,
}
use upush_chat.Strings.{same_string, c_string}
use upush_chat.Strings.Laws.{same_string_iff, c_string_lem, All-append}
use upush_chat.Common.{bufsize, parse_message, is_word_number, is_word_valid_nick}
use upush_chat.Common.Words.{IsPlain, spaced, parse_message-spaced}
use upush_chat.Common.Nick.{IsNickChar, is_word_valid_nick_iff, is_word_number_iff}
use upush_chat.Network.{SockaddrIn, Net, Env}
use upush_chat.Server.{
  Server, is_command, is_reg_message, is_lookup_message, register_client, lookup_client, dispatch,
  datagram, round,
}

abbrev pub IsDigit : ℕ → Type 0
IsDigit c = (b'0' ≤ c) × (c ≤ b'9')

pub record IsNumber (number : Bytes) : Type 0 where
  pub ne_nil : number ≢ []
  pub digits : All IsDigit number

pub record IsNick (nick : Bytes) : Type 0 where
  pub ne_nil : nick ≢ []
  pub short : length nick < 20
  pub chars : All IsNickChar nick
  pub no_null : All (λ c. c ≢ 0) nick

abbrev pub words : Bytes → Bytes → Bytes → List Bytes
words cmd number nick = codes "PKT" ∷ number ∷ cmd ∷ nick ∷ []

-- The ways in which `is_command` ends.
pub answer_cases : (o : Option Bool) → (o ≡ none) ⊎ ((o ≡ some true) ⊎ (o ≡ some false))
answer_cases none = inl refl
answer_cases (some true) = inr (inl refl)
answer_cases (some false) = inr (inr refl)

-- "PKT number cmd nick"
abbrev pub request : Bytes → Bytes → Bytes → Bytes
request cmd number nick = spaced (codes "PKT" ∷ number ∷ cmd ∷ []) nick

length_4 :
    (cmd : Bytes) (parsed : List Bytes) → is_command cmd parsed ≡ some true → length parsed ≡ 4
unfolding is_command
length_4 cmd parsed h = ground arith

command_words :
    (cmd w0 w1 w2 w3 : Bytes)
    → (is_command cmd (w0 ∷ w1 ∷ w2 ∷ w3 ∷ []) ≡ some true) ↔ (
        (w0 ≡ codes "PKT")
        × (is_word_number (some w1) ≡ some true)
        × (w2 ≡ cmd)
        × (is_word_valid_nick w3 ≡ true))
unfolding is_command
command_words cmd w0 w1 w2 w3 =
    ground (arith, same_string_iff w0 (codes "PKT"), same_string_iff w2 cmd)

abbrev pub Accepts : Bytes → List Bytes → Type 0
Accepts cmd parsed =
    (number : Bytes) × (nick : Bytes) × (parsed ≡ words cmd number nick)
    × All IsDigit number
    × (length nick < 20)
    × All IsNickChar nick

Accepts-words :
    (cmd : Bytes) (parsed : List Bytes) → is_command cmd parsed ≡ some true → Accepts cmd parsed
Accepts-words cmd [] h = absurd (omega (arith, length_4 cmd [] h))
Accepts-words cmd (a ∷ []) h = absurd (omega (arith, length_4 cmd (a ∷ []) h))
Accepts-words cmd (a ∷ b ∷ []) h = absurd (omega (arith, length_4 cmd (a ∷ b ∷ []) h))
Accepts-words cmd (a ∷ b ∷ c ∷ []) h = absurd (omega (arith, length_4 cmd (a ∷ b ∷ c ∷ []) h))
Accepts-words cmd (a ∷ b ∷ c ∷ d ∷ []) h =
    let (pkt, num, same, valid) = (command_words cmd a b c d).0 h in
    let (short, chars) = (is_word_valid_nick_iff d).0 valid in
    (b, d, cc, (is_word_number_iff b).0 num, short, chars)
Accepts-words cmd (a ∷ b ∷ c ∷ d ∷ e ∷ r) h =
    absurd (omega (arith, length_4 cmd (a ∷ b ∷ c ∷ d ∷ e ∷ r) h))

-- The words of a message are a command exactly when there are four, which read PKT, a number, the
-- command and a nickname.
pub is_command_iff :
    (cmd : Bytes) (parsed : List Bytes) → (is_command cmd parsed ≡ some true) ↔ Accepts cmd parsed
is_command_iff cmd parsed = (
  Accepts-words cmd parsed,
  λ (number, nick, e, digits, short, chars). rw e (
      (command_words cmd (codes "PKT") number cmd nick).1 (
        refl,
        (is_word_number_iff number).1 digits,
        refl,
        (is_word_valid_nick_iff nick).1 (short, chars),
      )),
)

digits-ne : (k : ℕ) (s : Bytes) → All IsDigit s → k < b'0' → All (λ c. c ≢ k) s
digits-ne k [] h z = tt
digits-ne k (c ∷ s) h z = (omega arith, digits-ne k s h.1 z)

pub words-is_command :
    (cmd number nick : Bytes)
    → IsNumber number
    → IsNick nick
    → is_command cmd (words cmd number nick) ≡ some true
words-is_command cmd number nick n w =
    (is_command_iff cmd (words cmd number nick)).1 (number, nick, refl, n.digits, w.short, w.chars)

parse_request :
    (cmd number nick : Bytes)
    → IsPlain cmd
    → All (λ c. c ≢ 0) cmd
    → IsNumber number
    → IsNick nick
    → parse_message (c_string (request cmd number nick)) 4 ≡ words cmd number nick
parse_request cmd number nick plain no_null n w =
    let clean : All (λ c. c ≢ 0) (request cmd number nick) =
      All-append _ (codes "PKT ") _ (omega arith) (
        All-append _ number _ (digits-ne 0 number n.digits (omega arith))
          (omega arith, All-append _ cmd _ no_null (omega arith, w.no_null))) in
    rw (c_string_lem (request cmd number nick) clean) (
      parse_message-spaced (codes "PKT") (number ∷ cmd ∷ []) nick
        (
          (λ e. cc, omega arith),
          ((n.ne_nil, digits-ne 32 number n.digits (omega arith)), (plain, tt)),
        )
        w.ne_nil)

not_reg :
    (number nick : Bytes)
    → All IsDigit number
    → is_command (codes "REG") (words (codes "LOOKUP") number nick) ≡ some false
unfolding is_command same_string
not_reg number nick digits = rw ((is_word_number_iff number).1 digits, is_command) (ground arith)

module _ (net : Net) (env : Env) (src : SockaddrIn) (number nick : Bytes) (s : Server)
    (n : IsNumber number) (w : IsNick nick) where
  -- A well-formed registration that fits in the buffer is handled as one.
  pub round-register_client :
      length (request (codes "REG") number nick) < bufsize
      → round net env (datagram src (request (codes "REG") number nick)) s
        ≡ register_client net env (words (codes "REG") number nick) src s
  unfolding round dispatch is_reg_message
  round-register_client fits =
      let e : leb bufsize (length (request (codes "REG") number nick)) ≡ false = ground arith in
      rw (
        e,
        parse_request (codes "REG") number nick (λ z. cc, omega arith) (omega arith) n w,
        words-is_command (codes "REG") number nick n w,
      )

  pub round-lookup_client :
      length (request (codes "LOOKUP") number nick) < bufsize
      → round net env (datagram src (request (codes "LOOKUP") number nick)) s
        ≡ lookup_client env (words (codes "LOOKUP") number nick) src s
  unfolding round dispatch is_reg_message is_lookup_message
  round-lookup_client fits =
      let e : leb bufsize (length (request (codes "LOOKUP") number nick)) ≡ false = ground arith in
      let no_reg : is_command (codes "REG") (words (codes "LOOKUP") number nick) ≡ some false =
        not_reg number nick n.digits in
      rw (
        e,
        parse_request (codes "LOOKUP") number nick (λ z. cc, omega arith) (omega arith) n w,
        no_reg,
        words-is_command (codes "LOOKUP") number nick n w,
      )
