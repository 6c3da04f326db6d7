-- ===== src/Client/Answer.antt =====
-- How the client reads the answer that the server gives to a look-up.
use upush_chat.Base.{
  ℕ, ◌%◌, ◌≤◌, ◌≡◌, ◌≢◌, refl, true, false, some, List, [], ◌∷◌, ◌++◌, append_assoc, arith, Bytes,
  codes, ltb, length, All, inl, inr,
}
use upush_chat.Strings.{is_prefix, contains_string, decimal}
use upush_chat.Strings.Numbers.{IsDigit, decimal-digits, decimal-ne_nil, atoi-decimal}
use upush_chat.Strings.Search.{
  starts_with, contains-ok, contains-absent, contains-t_f, contains-not_found,
}
use upush_chat.Common.{parse_message}
use upush_chat.Common.Words.{spaced, parse_message-spaced}
use upush_chat.Network.{set_values_in_IPv4_addr, IsAddressChar}
use upush_chat.Outcome.{ok}
use upush_chat.Server.{found}
use upush_chat.Server.Requests.{IsNumber, IsNick}
use upush_chat.Client.Characters.{digits-absent, address-absent, nick-no_space}
use upush_chat.Client.{World, Client, ◌>>=◌}
use upush_chat.Client.ToServer.{found_user, note_number, read_answer}

abbrev pub answer_words : Bytes → Bytes → Bytes → List Bytes
answer_words number nick ip =
    codes "ACK" ∷ number ∷ codes "NICK" ∷ nick ∷ codes "IP" ∷ ip ∷ codes "PORT" ∷ []

pub found-spaced :
    (number nick ip : Bytes) (port : ℕ)
    → found number nick ip port ≡ spaced (answer_words number nick ip) (decimal port)
found-spaced number nick ip port = simp (append_assoc)

ok-ack :
    (s : Bytes) → contains_string (codes "ACK " ++ s) (codes "OK") ≡ contains_string s (codes "OK")
unfolding contains_string is_prefix
ok-ack s = ground arith

ok-nick :
    (s : Bytes) → contains_string (codes "NICK " ++ s) (codes "OK") ≡ contains_string s (codes "OK")
unfolding contains_string is_prefix
ok-nick s = ground arith

ok-ip :
    (s : Bytes) → contains_string (codes "IP " ++ s) (codes "OK") ≡ contains_string s (codes "OK")
unfolding contains_string is_prefix
ok-ip s = ground arith

ok-port :
    (s : Bytes) → contains_string (codes "PORT " ++ s) (codes "OK") ≡ contains_string s (codes "OK")
unfolding contains_string is_prefix
ok-port s = ground arith

t_f-ack :
    (s : Bytes)
    → contains_string (codes "ACK " ++ s) (codes "T F") ≡ contains_string s (codes "T F")
unfolding contains_string is_prefix
t_f-ack s = ground arith

t_f-nick :
    (s : Bytes)
    → contains_string (codes "NICK " ++ s) (codes "T F") ≡ contains_string s (codes "T F")
unfolding contains_string is_prefix
t_f-nick s = ground arith

t_f-ip :
    (s : Bytes) → contains_string (codes "IP " ++ s) (codes "T F") ≡ contains_string s (codes "T F")
unfolding contains_string is_prefix
t_f-ip s = ground arith

starts-digits : (s : Bytes) → All IsDigit s → starts_with s b'F' ≡ false
starts-digits [] h = refl
starts-digits (c ∷ s) h = ground arith

module _ (number nick ip : Bytes) (port : ℕ) (n : IsNumber number) (k : IsNick nick)
    (ip_ne : ip ≢ []) (ip_chars : All IsAddressChar ip) where
  no_space_number : All (λ c. c ≢ b' ') number
  no_space_number = digits-absent b' ' number (inl (omega arith)) n.digits

  no_space_ip : All (λ c. c ≢ b' ') ip
  no_space_ip = address-absent b' ' ip (λ e. cc) (inl (omega arith)) ip_chars

  pub found-no_ok :
      contains_string nick (codes "OK") ≡ false
      → contains_string (found number nick ip port) (codes "OK") ≡ false
  found-no_ok h =
      let a =
        contains-absent b'O' (b'K' ∷ []) number
          (digits-absent b'O' number (inr (omega arith)) n.digits) in
      let b =
        contains-absent b'O' (b'K' ∷ []) ip
          (address-absent b'O' ip (λ e. cc) (inr (omega arith)) ip_chars) in
      let c =
        contains-absent b'O' (b'K' ∷ []) (decimal port)
          (digits-absent b'O' (decimal port) (inr (omega arith)) (decimal-digits port)) in
      rw (
        found-spaced number nick ip port,
        ok-ack _,
        contains-ok number _,
        a,
        ok-nick _,
        contains-ok nick _,
        h,
        ok-ip _,
        contains-ok ip _,
        b,
        ok-port _,
        c,
      )

  found-no_t_f : contains_string (found number nick ip port) (codes "T F") ≡ false
  found-no_t_f =
      let digits : starts_with (decimal port) b'F' ≡ false =
        starts-digits (decimal port) (decimal-digits port) in
      rw (
        found-spaced number nick ip port,
        t_f-ack _,
        contains-t_f number _ no_space_number refl,
        t_f-nick _,
        contains-t_f nick _ (nick-no_space nick k.chars) refl,
        t_f-ip _,
        contains-t_f ip _ no_space_ip refl,
        contains-t_f (codes "PORT") _ (omega arith) digits,
        contains-absent b'T' (codes " F") (decimal port)
            (digits-absent b'T' (decimal port) (inr (omega arith)) (decimal-digits port)),
      )

  found-words :
      parse_message (found number nick ip port) 8
      ≡ codes "ACK"
        ∷ number
        ∷ codes "NICK"
        ∷ nick
        ∷ codes "IP"
        ∷ ip
        ∷ codes "PORT"
        ∷ decimal port
        ∷ []
  found-words = rw (found-spaced number nick ip port) (
      parse_message-spaced (codes "ACK")
        (number ∷ codes "NICK" ∷ nick ∷ codes "IP" ∷ ip ∷ codes "PORT" ∷ []) (decimal port)
        (
          (λ e. cc, omega arith),
          (
            (n.ne_nil, no_space_number),
            (
              (λ e. cc, omega arith),
              (
                (k.ne_nil, nick-no_space nick k.chars),
                ((λ e. cc, omega arith), ((ip_ne, no_space_ip), ((λ e. cc, omega arith), tt))),
              ),
            ),
          ),
        )
        (decimal-ne_nil port))

-- The answer
pub read_answer-found :
    (number nick ip : Bytes) (port a : ℕ) (w : World) (s : Client)
    → IsNumber number
    → IsNick nick
    → port ≤ 65535
    → w.net.inet_ntop a ≡ some ip
    → read_answer (found number nick ip port) w s
      ≡ ok (
        found_user
            (some nick)
            (record { sin_family = w.net.af_inet; sin_port = w.net.htons port; s_addr = a }),
        note_number (found number nick ip port) s,
      )
unfolding read_answer ◌>>=◌ set_values_in_IPv4_addr
read_answer-found number nick ip port a w s n k fits text =
    let (ne, chars) = w.net.inet_ntop-chars a ip text in
    let there =
      contains-not_found (found number nick ip port)
        (found-no_t_f number nick ip port n k ne chars) in
    let words = found-words number nick ip port n k ne chars in
    let number_read = atoi-decimal port (omega arith) in
    let address = w.net.inet_pton-inet_ntop a ip text in
    let room : ltb (length nick) 21 ≡ true = ground (arith, k.short) in
    let port_fits : port % 65536 ≡ port = omega arith in
    ground (arith, there, words, number_read, address, room, port_fits)
