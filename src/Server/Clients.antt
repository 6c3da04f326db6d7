-- ===== src/Server/Clients.antt =====
-- Finding, changing and erasing a client by its nick.
use mathlib.Core.Path.{subst}
use upush_chat.Base.{
  ◌≡◌, Option, none, some, List, [], ◌∷◌, arith, Bytes, if◌then◌else◌, All, Bool-cases, inl, inr,
}
use upush_chat.Strings.{same_string}
use upush_chat.Strings.Laws.{same_string_iff, same_string_sym}
use upush_chat.Sequence.{find_first, erase_first, update_first}
use upush_chat.ServerClient.{ServerClient, server_client_has_same_nick}

abbrev pub find : Bytes → List ServerClient → Option ServerClient
find nick = find_first (server_client_has_same_nick nick)

abbrev pub erase : Bytes → List ServerClient → List ServerClient
erase nick = erase_first (server_client_has_same_nick nick)

-- The client of that nick becomes `c`.
abbrev pub replace : Bytes → ServerClient → List ServerClient → List ServerClient
replace nick c = update_first (server_client_has_same_nick nick) (λ _. c)

-- No two clients have one nick.
abbrev pub Distinct : List ServerClient → Type 0
Distinct [] = Unit
Distinct (c ∷ cs) = (find c.nick cs ≡ none) × Distinct cs

pub nick-find :
    (nick : Bytes) (c : ServerClient) (cs : List ServerClient)
    → find nick cs ≡ some c
    → c.nick ≡ nick
nick-find nick c [] e = cc
nick-find nick c (x ∷ cs) e = ground (arith, nick-find nick c cs, same_string_iff x.nick nick)

-- After a change under one nick, the look-up of each nick.
pub find-replace :
    (n j : Bytes) (t c : ServerClient) (cs : List ServerClient)
    → c.nick ≡ n
    → find n cs ≡ some t
    → find j (replace n c cs) ≡ (if same_string n j then some c else find j cs)
find-replace n j t c [] e h = cc
find-replace n j t c (x ∷ cs) e h = ground (
  arith,
  find-replace n j t c cs e,
  same_string_iff x.nick n,
  same_string_iff x.nick j,
  same_string_iff n j,
  same_string_iff c.nick j,
)

pub find-erase :
    (n j : Bytes) (cs : List ServerClient)
    → Distinct cs
    → find j (erase n cs) ≡ (if same_string n j then none else find j cs)
find-erase n j [] d = ground arith
find-erase n j (x ∷ cs) d = ground (
  arith,
  find-erase n j cs d.1,
  same_string_iff x.nick n,
  same_string_iff x.nick j,
  same_string_iff n j,
  d.0,
)

-- A change that keeps the nick, and the loss of a client, keep the nicks distinct.
pub replace-Distinct :
    (n : Bytes) (t c : ServerClient) (cs : List ServerClient)
    → c.nick ≡ n
    → find n cs ≡ some t
    → Distinct cs
    → Distinct (replace n c cs)
replace-Distinct n t c [] e h d = tt
replace-Distinct n t c (x ∷ cs) e h d = elim (Bool-cases (same_string x.nick n)) [
  | inl hit ↦ rw hit (ground (arith, same_string_iff x.nick n))
  | inr miss ↦ rw miss (
      ground (
        arith,
        replace-Distinct n t c cs e,
        find-replace n x.nick t c cs e,
        same_string_sym n x.nick,
      ))
]

pub erase-Distinct : (n : Bytes) (cs : List ServerClient) → Distinct cs → Distinct (erase n cs)
erase-Distinct n [] d = tt
erase-Distinct n (x ∷ cs) d = ground (arith, erase-Distinct n cs d.1, find-erase n x.nick cs d.1)

module _ (P : ServerClient → Type 0) where
  pub All-replace :
      (n : Bytes) (c : ServerClient) (cs : List ServerClient)
      → P c
      → All P cs
      → All P (replace n c cs)
  All-replace n c [] p h = tt
  All-replace n c (x ∷ cs) p h = ground (arith, All-replace n c cs p h.1)

  pub All-erase : (n : Bytes) (cs : List ServerClient) → All P cs → All P (erase n cs)
  All-erase n [] h = tt
  All-erase n (x ∷ cs) h = ground (arith, All-erase n cs h.1)

  pub All-find :
      (n : Bytes) (c : ServerClient) (cs : List ServerClient) → All P cs → find n cs ≡ some c → P c
  All-find n c [] h e = cc
  All-find n c (x ∷ cs) h e = elim (Bool-cases (same_string x.nick n)) [
    | inl hit ↦ subst P (ground arith) h.0
    | inr miss ↦ All-find n c cs h.1 (ground arith)
  ]
