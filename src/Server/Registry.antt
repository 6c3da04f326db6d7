-- ===== src/Server/Registry.antt =====
-- What holds of the registry after any run of the server.
use mathlib.Core.Path.{subst}
use upush_chat.Base.{ℕ, ◌≤◌, ◌<◌, ◌≡◌, ◌≢◌, sym, ◌∙◌, ap, List, [], ◌∷◌, arith, Bytes, length, All}
use upush_chat.Strings.Laws.{same_string_iff}
use upush_chat.Common.Nick.{IsNickChar}
use upush_chat.Network.{Net, Env}
use upush_chat.Outcome.{ok, >>=-eq-ok}
use upush_chat.ServerClient.{ServerClient}
use upush_chat.Server.Clients.{
  find, find-erase, find-replace, Distinct, replace-Distinct, erase-Distinct, All-replace,
  All-erase,
}
use upush_chat.Server.Changes.{
  Recorded, added, changed, Change, keep, forget, register, round-Change,
}
use upush_chat.Server.{Server, Event, round, serve}

-- A client that may stand in the registry.
abbrev pub IsEntry : ServerClient → Type 0
IsEntry c = (length c.nick < 20) × All IsNickChar c.nick × (1024 ≤ c.port) × (c.port ≤ 65535)

-- Every client has a valid nick and port, and no two have one nick.
pub record IsRegistry (cs : List ServerClient) : Type 0 where
  pub distinct : Distinct cs
  pub entries : All IsEntry cs

Recorded-IsRegistry :
    {nick : Bytes} {port : ℕ} {cs cs' : List ServerClient}
    → Recorded nick port cs cs'
    → (length nick < 20) × All IsNickChar nick
    → (1024 ≤ port) × (port ≤ 65535)
    → IsRegistry cs
    → IsRegistry cs'
Recorded-IsRegistry {cs} (added c new e n p) valid range r = subst IsRegistry (sym e) (record {
  distinct = (rw n new, r.distinct);
  entries = ((rw n valid.0, rw n valid.1, rw p range.0, rw p range.1), r.entries);
})
Recorded-IsRegistry {nick} {cs} (changed tmp c old e n p) valid range r =
    subst IsRegistry (sym e) (record {
      distinct = replace-Distinct nick tmp c cs n old r.distinct;
      entries =
          All-replace IsEntry nick c cs (rw n valid.0, rw n valid.1, rw p range.0, rw p range.1)
            r.entries;
    })

Change-IsRegistry : {cs cs' : List ServerClient} → Change cs cs' → IsRegistry cs → IsRegistry cs'
Change-IsRegistry (keep e) r = subst IsRegistry (sym e) r
Change-IsRegistry {cs} (forget nick e) r = subst IsRegistry (sym e) (record {
  distinct = erase-Distinct nick cs r.distinct;
  entries = All-erase IsEntry nick cs r.entries;
})
Change-IsRegistry (register nick port valid range rec) r = Recorded-IsRegistry rec valid range r

pub round-IsRegistry :
    (net : Net) (env : Env) (event : Event) (s s' : Server)
    → IsRegistry s.client_list
    → round net env event s ≡ ok s'
    → IsRegistry s'.client_list
round-IsRegistry net env event s s' r e = Change-IsRegistry (round-Change net env event s s' e) r

-- Whatever datagrams the server receives and whichever calls fail, in a run that does not end the
-- process every client it knows has a valid nick and a port from 1024 to 65535, and no two have
-- one nick, if this held at the start.
pub serve-IsRegistry :
    (net : Net) (events : List (Env × Event)) (s s' : Server)
    → IsRegistry s.client_list
    → serve net events s ≡ ok s'
    → IsRegistry s'.client_list
unfolding serve
serve-IsRegistry net [] s s' r e =
    let same : s'.client_list ≡ s.client_list = ground arith in subst IsRegistry (sym same) r
serve-IsRegistry net ((env, event) ∷ events) s s' r e =
    let (t, e1, e2) = >>=-eq-ok (round net env event s) _ e in
    serve-IsRegistry net events t s' (round-IsRegistry net env event s t r e1) e2

Change-find_other :
    {cs cs' : List ServerClient}
    → Change cs cs'
    → IsRegistry cs
    → (nick : Bytes) × ((j : Bytes) → j ≢ nick → find j cs' ≡ find j cs)
Change-find_other (keep e) r = ([], λ j ne. ap (find j) e)
Change-find_other {cs} (forget nick e) r = (
  nick,
  λ j ne. ap (find j) e ∙ ground (arith, find-erase nick j cs r.distinct, same_string_iff nick j),
)
Change-find_other {cs} (register nick port valid range (added c new e n p)) r =
    (nick, λ j ne. ap (find j) e ∙ ground (arith, same_string_iff c.nick j))
Change-find_other {cs} (register nick port valid range (changed tmp c old e n p)) r = (
  nick,
  λ j ne.
      ap (find j) e ∙ ground (arith, find-replace nick j tmp c cs n old, same_string_iff nick j),
)

-- A round that does not end the process, from a registry in order, changes the look-up of one nick
-- at most.
pub round-find_other :
    (net : Net) (env : Env) (event : Event) (s s' : Server)
    → IsRegistry s.client_list
    → round net env event s ≡ ok s'
    → (nick : Bytes) × ((j : Bytes) → j ≢ nick → find j s'.client_list ≡ find j s.client_list)
round-find_other net env event s s' r e = Change-find_other (round-Change net env event s s' e) r
