-- ===== src/Client/Keeps.antt =====
-- Which actions of the client keep every contact in order.
use upush_chat.Base.{
  ◌≡◌, refl, Bool, true, false, Option, none, some, Option-cases, Bytes, if◌then◌else◌, All,
  Bool-cases, inl, inr,
}
use upush_chat.Network.{SockaddrIn, send_packet}
use upush_chat.Outcome.{Outcome}
use upush_chat.Client.{
  World, Client, Act, pure, ◌>>=◌, go_on, quit_client, undefined, lift, get, modify, gettimeofday,
  malloc, allocated, send_to, get_net, get_waits,
}
use upush_chat.Client.Queue.{IsContact}

abbrev pub InOrder : Client → Type 0
InOrder s = All IsContact s.contact_list

-- The client is in order, and the result satisfies `Q`, unless the process has ended.
abbrev pub After : {A : Type 0} → (A → Type 0) → Outcome (A × Client) → Type 0
After Q (Outcome.ok (a, s)) = InOrder s × Q a
After Q Outcome.quit = Unit
After Q Outcome.fault = Unit

pub record Keeps {A : Type 0} (m : Act A) (Q : A → Type 0) : Type 0 where
  pub holds : (w : World) (s : Client) → InOrder s → After Q (m w s)

abbrev pub Any : {A : Type 0} → A → Type 0
Any a = Unit

module _ {A B : Type 0} {f : A → Act B} {Q : A → Type 0} {R : B → Type 0} where
  go_on-After :
      (w : World) (o : Outcome (A × Client))
      → After Q o
      → ((a : A) → Q a → Keeps (f a) R)
      → After R (go_on w o f)
  go_on-After w (Outcome.ok (a, s)) h k = (k a h.1).holds w s h.0
  go_on-After w Outcome.quit h k = tt
  go_on-After w Outcome.fault h k = tt

  pub >>=-Keeps : {m : Act A} → Keeps m Q → ((a : A) → Q a → Keeps (f a) R) → Keeps (m >>= f) R
  unfolding ◌>>=◌
  >>=-Keeps {m} h k = record { holds = λ w s i. go_on-After w (m w s) (h.holds w s i) k }

module _ {A : Type 0} {Q : A → Type 0} where
  pub if-Keeps :
      (b : Bool) {x y : Act A}
      → (b ≡ true → Keeps x Q)
      → (b ≡ false → Keeps y Q)
      → Keeps (if b then x else y) Q
  if-Keeps true h k = h refl
  if-Keeps false h k = k refl

  pub lift-Keeps : (o : Outcome A) → ((a : A) → o ≡ Outcome.ok a → Q a) → Keeps (lift o) Q
  lift-Keeps (Outcome.ok a) h = record { holds = λ w s i. (i, h a refl) }
  lift-Keeps Outcome.quit h = record { holds = λ w s i. tt }
  lift-Keeps Outcome.fault h = record { holds = λ w s i. tt }

  pub pure-Keeps : (a : A) → Q a → Keeps (pure a) Q
  pure-Keeps a q = record { holds = λ w s i. (i, q) }

  pub quit-Keeps : Keeps quit_client Q
  quit-Keeps = record { holds = λ w s i. tt }

  pub undefined-Keeps : Keeps undefined Q
  undefined-Keeps = record { holds = λ w s i. tt }

pub lift_call-Keeps : {A : Type 0} (o : Outcome A) → Keeps (lift o) Any
lift_call-Keeps o = lift-Keeps o (λ _ _. tt)

pub get-Keeps : Keeps get InOrder
get-Keeps = record { holds = λ w s i. (i, i) }

pub get_net-Keeps : Keeps get_net Any
get_net-Keeps = record { holds = λ w s i. (i, tt) }

pub get_waits-Keeps : Keeps get_waits Any
get_waits-Keeps = record { holds = λ w s i. (i, tt) }

pub modify-Keeps :
    (f : Client → Client) → ((s : Client) → InOrder s → InOrder (f s)) → Keeps (modify f) Any
modify-Keeps f h = record { holds = λ w s i. (h s i, tt) }

module _ {A B : Type 0} {Q : A → Type 0} where
  pub option-Keeps :
      (o : Option B) {x : Act A} {f : B → Act A}
      → (o ≡ none → Keeps x Q)
      → ((b : B) → o ≡ some b → Keeps (f b) Q)
      → Keeps (elim o [ none ↦ x | some b ↦ f b ]) Q
  option-Keeps none h k = h refl
  option-Keeps (some b) h k = k b refl

pub gettimeofday-Keeps : Keeps gettimeofday Any
unfolding gettimeofday ◌>>=◌
gettimeofday-Keeps = record {
  holds = λ w s i. elim (Option-cases (w.env s.calls).now) [
    | inl e ↦ rw e tt
    | inr (t, e) ↦ rw e (i, tt)
  ];
}

pub malloc-Keeps : Keeps malloc Any
unfolding malloc ◌>>=◌
malloc-Keeps = record { holds = λ w s i. (i, tt) }

pub allocated-Keeps :
    {A : Type 0} (Q : A → Type 0) (next : Act (Option A))
    → Keeps next (λ o. (a : A) → o ≡ some a → Q a)
    → Keeps (allocated next) (λ o. (a : A) → o ≡ some a → Q a)
unfolding allocated
allocated-Keeps Q next h =
    >>=-Keeps malloc-Keeps λ block _. if-Keeps block (λ _. h) (λ _. pure-Keeps none (λ a e. cc))

pub send_to-Keeps : (dest : SockaddrIn) (payload : Bytes) → Keeps (send_to dest payload) Any
unfolding send_to send_packet ◌>>=◌
send_to-Keeps dest payload = record {
  holds = λ w s i. elim (Bool-cases (w.env s.calls).lost) [
    | inl lost ↦ rw lost (i, tt)
    | inr kept ↦ elim (Bool-cases (w.env s.calls).sendto_works) [
      | inl e ↦ rw (kept, e) (i, tt)
      | inr e ↦ rw (kept, e) (i, tt)
    ]
  ];
}
