-- ===== src/Client/Characters.antt =====
-- Which bytes do not occur in digits, in the text of an address, and in a nickname.
use upush_chat.Base.{ℕ, ◌<◌, ◌≢◌, sym, ◌∙◌, ◌⊎◌, inl, inr, [], ◌∷◌, arith, Bytes, All}
use upush_chat.Strings.Numbers.{IsDigit}
use upush_chat.Common.Nick.{IsNickChar}
use upush_chat.Network.{IsAddressChar}

pub All-map : {P Q : ℕ → Type 0} (s : Bytes) → ((c : ℕ) → P c → Q c) → All P s → All Q s
All-map [] f h = tt
All-map (c ∷ s) f h = (f c h.0, All-map s f h.1)

pub digits-absent : (k : ℕ) (s : Bytes) → k < b'0' ⊎ b'9' < k → All IsDigit s → All (λ c. c ≢ k) s
digits-absent k s out h =
    All-map s (λ c d e. elim out [ inl low ↦ omega arith | inr high ↦ omega arith ]) h

pub address-absent :
    (k : ℕ) (s : Bytes) → k ≢ b'.' → k < b'0' ⊎ b'9' < k → All IsAddressChar s → All (λ c. c ≢ k) s
address-absent k s dot out h =
    All-map s
      (λ c d e. elim d [
        | inl digit ↦ elim out [ inl low ↦ omega arith | inr high ↦ omega arith ]
        | inr point ↦ dot (sym e ∙ point)
      ])
      h

pub nick-no_space : (s : Bytes) → All IsNickChar s → All (λ c. c ≢ b' ') s
nick-no_space s h = All-map s (λ c d. d.1) h
