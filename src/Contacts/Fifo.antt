-- ===== src/Contacts/Fifo.antt =====
-- The queue of messages of a contact, compared with a first-in first-out queue.
use upush_chat.Base.{
  Bool, true, false, Option, none, some, List, [], ◌∷◌, ◌++◌, ◌≡◌, refl, sym, ap, ◌∙◌, inl, inr,
}
use upush_chat.Sequence.{get_last?, drop_last}
use upush_chat.Sequence.Ends.{reverse, reverse-last, get_last?-cases}
use upush_chat.Contacts.{
  Message, Contact, peek_message, pop_message, add_message_to_contact_message_list,
}

-- What is done to a queue; `arrive` has the result of the allocation of the list node.
pub data QueueStep : Type 0 where
  arrive : Bool → Message → QueueStep
  leave : QueueStep

-- A message that leaves before what comes of the later steps.
abbrev first_out : {A : Type 0} → Message → Option (List Message × A) → Option (List Message × A)
first_out m none = none
first_out m (some (ms, rest)) = some (m ∷ ms, rest)

-- The contact after the steps, with the messages that left; `none` is undefined behaviour.
unfoldable pub perform : List QueueStep → Contact → Option (List Message × Contact)
unfolding add_message_to_contact_message_list peek_message pop_message
perform [] c = some ([], c)
perform (arrive node_block m ∷ steps) c =
    perform steps (add_message_to_contact_message_list node_block m c)
perform (leave ∷ steps) c =
    let rest = perform steps (record c { message_list = pop_message c.message_list }) in
    elim (peek_message c.message_list) [ none ↦ none | some m ↦ first_out m rest ]

-- The same for a queue that is written oldest first.
abbrev pub fifo : List QueueStep → List Message → Option (List Message × List Message)
fifo [] q = some ([], q)
fifo (arrive true m ∷ steps) q = fifo steps (q ++ m ∷ [])
fifo (arrive false m ∷ steps) q = fifo steps q
fifo (leave ∷ steps) [] = none
fifo (leave ∷ steps) (m ∷ q) = first_out m (fifo steps q)

-- What is seen of the result.
abbrev pub seen : Option (List Message × Contact) → Option (List Message × List Message)
seen none = none
seen (some (ms, c)) = some (ms, reverse c.message_list)

seen-first_out :
    (m : Message) (rest : Option (List Message × Contact))
    → seen (first_out m rest) ≡ first_out m (seen rest)
seen-first_out m none = refl
seen-first_out m (some (ms, c)) = refl

perform-none :
    (steps : List QueueStep) (c : Contact)
    → get_last? c.message_list ≡ none
    → perform (leave ∷ steps) c ≡ none
unfolding perform peek_message
perform-none steps c e = rw (e, perform) refl

perform-leave :
    (steps : List QueueStep) (c : Contact) (m : Message)
    → get_last? c.message_list ≡ some m
    → perform (leave ∷ steps) c
      ≡ first_out m (perform steps (record c { message_list = drop_last c.message_list }))
unfolding perform peek_message pop_message
perform-leave steps c m e = rw (e, perform) refl

-- Messages leave the queue of a contact in the order in which they arrived: any steps on it give
-- the messages, and leave the queue, that a first-in first-out queue gives and leaves; an arrival
-- without memory changes nothing, and to take one from the empty queue is undefined.
pub perform-fifo :
    (steps : List QueueStep) (c : Contact)
    → seen (perform steps c) ≡ fifo steps (reverse c.message_list)
unfolding perform
perform-fifo [] c = refl
perform-fifo (arrive true m ∷ steps) c =
    perform-fifo steps (add_message_to_contact_message_list true m c)
perform-fifo (arrive false m ∷ steps) c = perform-fifo steps c
perform-fifo (leave ∷ steps) c = elim (get_last?-cases c.message_list) [
  | inl empty ↦ rw (perform-none steps c (ap get_last? empty), ap reverse empty) refl
  | inr (m, last) ↦
      let rest : Contact = record c { message_list = drop_last c.message_list } in
      ap seen (perform-leave steps c m last)
      ∙ seen-first_out m (perform steps rest)
      ∙ ap (first_out m) (perform-fifo steps rest)
      ∙ ap (fifo (leave ∷ steps)) (sym (reverse-last c.message_list m last))
]
