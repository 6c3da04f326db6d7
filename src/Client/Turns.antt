-- ===== src/Client/Turns.antt =====
-- The turns of the client's main loop keep every contact in order.
use mathlib.Core.Path.{subst}
use mathlib.Core.Option.{some-injective}
use upush_chat.Base.{
  ◌≤◌, ◌<◌, ◌≡◌, refl, Bool, true, false, not, ◌&&◌, Option, none, some, List, [], ◌∷◌, arith,
  Bytes, All, inl, inr, length, ◌==◌,
}
use upush_chat.Int.{ltb_ℤ, ◌+ℤ◌}
use upush_chat.Network.{SockaddrIn}
use upush_chat.BlockedNicks.{is_nick_blocked}
use upush_chat.Contacts.{
  Message, Contact, add_message_to_contact_message_list, match_nick, find_contact_by_nick,
}
use upush_chat.Client.{Act}
use upush_chat.Client.ToClient.{resend_if_due, keep_contact, resend_loop, resend_pending_messages}
use upush_chat.Client.Loop.{
  set_contacts, create_message, create_message_list, create_contact, contact_from_lookup, post,
  write_to,
}
use upush_chat.Client.Queue.{IsContact, IsNew, IsQueue-cons, All-find_first, All-update_first}
use upush_chat.Client.Keeps.{
  Keeps, Any, >>=-Keeps, if-Keeps, option-Keeps, pure-Keeps, quit-Keeps, lift_call-Keeps, get-Keeps,
  modify-Keeps, gettimeofday-Keeps, malloc-Keeps, allocated-Keeps,
}
use upush_chat.Client.Sending.{lookup-Keeps, send_next-Keeps, Kept, resend-Keeps}

pub list-Keeps :
    {A B : Type 0} {Q : A → Type 0} (l : List B) {x : Act A} {f : B → List B → Act A}
    → (l ≡ [] → Keeps x Q)
    → ((b : B) (bs : List B) → l ≡ b ∷ bs → Keeps (f b bs) Q)
    → Keeps (elim l [ [] ↦ x | b ∷ bs ↦ f b bs ]) Q
list-Keeps [] h k = h refl
list-Keeps (b ∷ bs) h k = k b bs refl

resend_if_due-Keeps : (c : Contact) → IsContact c → Keeps (resend_if_due c) Kept
unfolding resend_if_due
resend_if_due-Keeps c h =
    list-Keeps c.message_list (λ _. pure-Keeps (some c) h)
      λ m q _. >>=-Keeps gettimeofday-Keeps λ now _. >>=-Keeps (lift_call-Keeps _) λ last _.
        >>=-Keeps get-Keeps λ s _.
          if-Keeps (ltb_ℤ (last.tv_sec +ℤ s.timeout_sec) now.tv_sec) (λ _. resend-Keeps c h)
            (λ _. pure-Keeps (some c) h)

keep-All :
    (o : Option Contact) (cs : List Contact)
    → Kept o
    → All IsContact cs
    → All IsContact (keep_contact o cs)
keep-All none cs k h = h
keep-All (some c) cs k h = (k, h)

resend_loop-Keeps : (cs : List Contact) → All IsContact cs → Keeps (resend_loop cs) (All IsContact)
unfolding resend_loop
resend_loop-Keeps [] h = pure-Keeps [] tt
resend_loop-Keeps (c ∷ cs) h =
    >>=-Keeps (resend_if_due-Keeps c h.0)
      λ kept k. >>=-Keeps (resend_loop-Keeps cs h.1) λ rest r. pure-Keeps _ (keep-All kept rest k r)

pub resend_pending-Keeps : Keeps resend_pending_messages Any
unfolding resend_pending_messages
resend_pending-Keeps = >>=-Keeps get-Keeps λ s i.
    list-Keeps s.contact_list (λ _. pure-Keeps _ tt)
      λ c cs e. >>=-Keeps malloc-Keeps λ block _.
        if-Keeps (not block) (λ _. quit-Keeps)
          λ _. >>=-Keeps malloc-Keeps λ block' _.
            if-Keeps (not block') (λ _. quit-Keeps)
              λ _.
                >>=-Keeps (resend_loop-Keeps (c ∷ cs) (subst (All IsContact) e i))
                  λ contacts h. modify-Keeps _ (λ _ _. h)

create_message-Keeps :
    (payload : Bytes)
    → length payload < 1400
    → Keeps (create_message payload) (λ o. (m : Message) → o ≡ some m → IsNew m)
unfolding create_message
create_message-Keeps payload short =
    allocated-Keeps IsNew _ (allocated-Keeps IsNew _ (pure-Keeps _ (λ m e. ground arith)))

length-nil : {A : Type 0} (q : List A) → (length q == 0) ≡ true → q ≡ []
length-nil [] e = refl
length-nil (x ∷ q) e = ground arith

module _ (m : Message) (c : Contact) (new : IsNew m) (h : IsContact c) where
  added-IsNew :
      (block : Bool)
      → (block && length c.message_list == 0) ≡ true
      → All IsNew (add_message_to_contact_message_list block m c).message_list
  unfolding add_message_to_contact_message_list
  added-IsNew true e = rw (length-nil c.message_list e) (new, tt)
  added-IsNew false e = cc

  added-IsContact :
      (block : Bool)
      → (block && length c.message_list == 0) ≡ false
      → IsContact (add_message_to_contact_message_list block m c)
  unfolding add_message_to_contact_message_list
  added-IsContact true e = record {
    number = h.number;
    queue = IsQueue-cons m c.message_list new h.queue;
    sent = elim h.sent [ inl nil ↦ ground arith | inr t ↦ inr t ];
  }
  added-IsContact false e = h

  added-number : (block : Bool) → (add_message_to_contact_message_list block m c).last_pkt_sent ≤ 1
  unfolding add_message_to_contact_message_list
  added-number true = h.number
  added-number false = h.number

post-Keeps :
    (payload : Bytes) (c : Contact)
    → length payload < 1400
    → IsContact c
    → Keeps (post payload c) IsContact
unfolding post
post-Keeps payload c short h = >>=-Keeps (create_message-Keeps payload short) λ new new-IsNew.
    option-Keeps new (λ _. quit-Keeps)
      λ m e. >>=-Keeps malloc-Keeps λ block _.
        if-Keeps (block && length c.message_list == 0)
          (λ first.
            send_next-Keeps _ (added-number m c (new-IsNew m e) h block)
              (added-IsNew m c (new-IsNew m e) h block first))
          (λ later. pure-Keeps _ (added-IsContact m c (new-IsNew m e) h block later))

create_message_list-Keeps :
    Keeps create_message_list (λ o. (l : List Message) → o ≡ some l → l ≡ [])
unfolding create_message_list
create_message_list-Keeps =
    allocated-Keeps (λ l. l ≡ []) _
      (allocated-Keeps (λ l. l ≡ []) _
        (allocated-Keeps (λ l. l ≡ []) _
          (allocated-Keeps (λ l. l ≡ []) _ (pure-Keeps _ (λ l e. ground arith)))))

create_contact-Keeps :
    (nick : Bytes) (addr : SockaddrIn)
    → Keeps (create_contact nick addr) (λ o. (c : Contact) → o ≡ some c → IsContact c)
unfolding create_contact
create_contact-Keeps nick addr = allocated-Keeps IsContact _ (
    allocated-Keeps IsContact _ (
      allocated-Keeps IsContact _ (
        >>=-Keeps create_message_list-Keeps λ list nil.
          option-Keeps list (λ _. pure-Keeps none (λ c e. cc))
            λ l e. allocated-Keeps IsContact _ (
              pure-Keeps _ (λ c same. subst IsContact (some-injective _ _ same) (record {
                number = omega arith;
                queue = rw (nil l e) tt;
                sent = inl (nil l e);
              }))))))

pub contact_from_lookup-Keeps :
    (buf : Option Bytes) (addr : SockaddrIn) → Keeps (contact_from_lookup buf addr) IsContact
unfolding contact_from_lookup
contact_from_lookup-Keeps buf addr = >>=-Keeps (lift_call-Keeps _) λ nick _.
    >>=-Keeps (create_contact-Keeps nick addr)
      λ contact h. option-Keeps contact (λ _. quit-Keeps) (λ c e. pure-Keeps c (h c e))

pub set_contacts-Keeps :
    (f : List Contact → List Contact)
    → ((cs : List Contact) → All IsContact cs → All IsContact (f cs))
    → Keeps (set_contacts f) Any
set_contacts-Keeps f h = modify-Keeps _ (λ s i. h s.contact_list i)

pub write_to-Keeps :
    (nick message : Bytes) → length message < 1400 → Keeps (write_to nick message) Any
unfolding write_to find_contact_by_nick
write_to-Keeps nick message short = >>=-Keeps get-Keeps λ s i.
    if-Keeps (is_nick_blocked nick s.blocked_list) (λ _. pure-Keeps _ tt)
      λ _.
        option-Keeps (find_contact_by_nick nick s.contact_list)
          (λ _. >>=-Keeps (lookup-Keeps nick) λ user _.
            option-Keeps user (λ _. pure-Keeps _ tt)
              λ found _. >>=-Keeps (contact_from_lookup-Keeps found.0 found.1) λ recipient h.
                >>=-Keeps malloc-Keeps λ block _.
                  if-Keeps (not block) (λ _. quit-Keeps)
                    λ _.
                      >>=-Keeps (post-Keeps message recipient short h)
                        λ c k. set_contacts-Keeps _ (λ cs r. (k, r)))
          (λ recipient e.
            >>=-Keeps
              (post-Keeps message recipient short
                (All-find_first IsContact (match_nick nick) s.contact_list recipient i e))
              λ c k.
                set_contacts-Keeps _
                  (λ cs r. All-update_first IsContact (match_nick nick) cs c k r))
