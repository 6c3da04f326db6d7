-- ===== src/Contacts/Iterator.antt =====
-- contact_list.c: the iterator over the contacts, and taking a contact off the list, over the memory
-- of the linked list. A contact is its data pointer.
use upush_chat.Base.{ℕ, Option, none, some, ◌==◌, if◌then◌else◌}
use upush_chat.Memory.{Ptr, null, Cmd, pure, ◌>>=◌}
use upush_chat.LinkedList.{
  BaseLinkedList, BaseIterator, get_base_iterator, base_iterator_has_next, base_iterator_next,
  pop_on_match,
}

pub record ContactIterator : Type 0 where
  pub iterator : BaseIterator

-- `block` and `base_block` are what `malloc` returns for the two structs.
unfoldable pub get_contact_iterator :
    (block base_block : Ptr) → BaseLinkedList → Cmd (Option ContactIterator)
unfolding get_base_iterator
get_contact_iterator block base_block contact_list = if block == null then pure none else do
  base ← get_base_iterator base_block contact_list
  elim base [ none ↦ pure none | some it ↦ pure (some (record { iterator = it })) ]

unfoldable pub contact_iterator_next : ContactIterator → Cmd (Ptr × ContactIterator)
unfolding base_iterator_next
contact_iterator_next it = do
  (tmp, base) ← base_iterator_next it.iterator
  pure (tmp, record { iterator = base })

unfoldable pub contact_iterator_has_next : ContactIterator → ℕ
unfolding base_iterator_has_next
contact_iterator_has_next it = base_iterator_has_next it.iterator

abbrev pub is_same_contact : Ptr → Ptr → ℕ
is_same_contact first second = if first == second then 1 else 0

-- `n` is the fuel of the loop of `ll_pop_on_match`.
unfoldable pub dettach_contact_from_contact_list : (n : ℕ) → BaseLinkedList → Ptr → Cmd Ptr
unfolding pop_on_match
dettach_contact_from_contact_list n contact_list contact =
    pop_on_match is_same_contact contact n contact_list
