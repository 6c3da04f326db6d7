-- ===== src/LinkedList.antt =====
-- base_linked_list.c: a doubly linked list between two sentinels, over an explicit memory.
--
-- A `node_t` is a `Node`. The `void *` that it carries is an address too, and is never followed
-- here; a call of a callback (`fptr`, `free`) is recorded in `Mem.calls`. The list header and the
-- iterator are values, so their own `malloc` shows only in its failure branch, and their `free`
-- not at all. A loop runs on fuel, the argument `k` of a function.
pub mod Shape
pub mod Walk
pub mod Detach
pub mod Remove
pub mod Insert
pub mod Ends
pub mod Release
pub mod View
pub mod Iterate
use upush_chat.Base.{ℕ, zero, suc, ◌+◌, Bool, Option, none, some, ◌==◌, if◌then◌else◌, ltb}
use upush_chat.Memory.{
  Ptr, null, Run, out_of_fuel, Cmd, pure, ◌>>=◌, ◌>>◌, load, set_next, set_prev, set_datum, malloc,
  free, call_back,
}

pub record BaseLinkedList : Type 0 where
  pub head : Ptr
  pub tail : Ptr

unfoldable pub create_base_linked_list : (list head tail : Ptr) → Cmd (Option BaseLinkedList)
unfolding malloc free set_next set_prev set_datum
create_base_linked_list list head tail = if list == null then pure none else do
  malloc head
  if head == null then pure none else do
    malloc tail
    if tail == null then (do free head; pure none) else do
      set_next head tail
      set_prev head null
      set_datum head null
      set_prev tail head
      set_next tail null
      set_datum tail null
      pure (some (record { head = head; tail = tail }))

unfoldable pub insert_node_between : (left middle right : Ptr) → Cmd (Unit {0})
unfolding set_next set_prev
insert_node_between left middle right = do
  set_next middle right
  set_prev middle left
  set_next left middle
  set_prev right middle

-- 1 when the node was added, and `none` for -1
unfoldable pub add_node : (fresh : Ptr) → BaseLinkedList → Ptr → Cmd (Option ℕ)
unfolding malloc set_datum insert_node_between load
add_node fresh list d = do
  malloc fresh
  if fresh == null then pure none else do
    set_datum fresh d
    h ← load list.head
    insert_node_between list.head fresh h.next
    pure (some 1)

unfoldable pub dettach_node : Ptr → Cmd (Unit {0})
unfolding load set_next set_prev
dettach_node p = do
  n ← load p
  set_prev n.next n.prev
  n ← load p
  set_next n.prev n.next
  set_next p null
  set_prev p null

unfoldable pub each_loop : ℕ → (tail tmp : Ptr) → Cmd (Unit {0})
unfolding load
each_loop zero tail tmp = λ _. out_of_fuel
each_loop (suc k) tail tmp =
    if tmp == tail then pure tt else do n ← load tmp; call_back n.datum; each_loop k tail n.next

unfoldable pub do_on_each : ℕ → BaseLinkedList → Cmd (Unit {0})
unfolding each_loop load
do_on_each k list = do h ← load list.head; each_loop k list.tail h.next

unfoldable pub size_loop : ℕ → (tail tmp count : ℕ) → Cmd ℕ
unfolding load
size_loop zero tail tmp count = λ _. out_of_fuel
size_loop (suc k) tail tmp count =
    if tmp == tail then pure count else do n ← load tmp; size_loop k tail n.next (count + 1)

unfoldable pub base_list_size : ℕ → BaseLinkedList → Cmd ℕ
unfolding size_loop load
base_list_size k list = do h ← load list.head; size_loop k list.tail h.next 0

module _ (cmp : Ptr → Ptr → ℕ) (other : Ptr) where
  -- `(*cmp)(data, otherData) == 1`
  abbrev pub matches : Ptr → Bool
  matches d = cmp d other == 1

  unfoldable pub contains_loop : ℕ → (tail tmp : Ptr) → Cmd ℕ
  unfolding load
  contains_loop zero tail tmp = λ _. out_of_fuel
  contains_loop (suc k) tail tmp =
      if tmp == tail
      then pure 0
      else do n ← load tmp; if matches n.datum then pure 1 else contains_loop k tail n.next

  unfoldable pub contains_matching_data : ℕ → BaseLinkedList → Cmd ℕ
  unfolding contains_loop load
  contains_matching_data k list = do h ← load list.head; contains_loop k list.tail h.next

  unfoldable pub find_loop : ℕ → (tail tmp : Ptr) → Cmd Ptr
  unfolding load
  find_loop zero tail tmp = λ _. out_of_fuel
  find_loop (suc k) tail tmp =
      if tmp == tail
      then pure null
      else do n ← load tmp; if matches n.datum then pure n.datum else find_loop k tail n.next

  unfoldable pub find_by_matching_data : ℕ → BaseLinkedList → Cmd Ptr
  unfolding find_loop load
  find_by_matching_data k list = do h ← load list.head; find_loop k list.tail h.next

  -- the body of the `if` of `ll_remove_on_match`
  unfoldable pub remove_here : Ptr → Cmd ℕ
  unfolding dettach_node load free
  remove_here tmp = do dettach_node tmp; n ← load tmp; call_back n.datum; free tmp; pure 1

  unfoldable pub remove_loop : ℕ → (tail tmp : Ptr) → Cmd ℕ
  unfolding load
  remove_loop zero tail tmp = λ _. out_of_fuel
  remove_loop (suc k) tail tmp =
      if tmp == tail
      then pure 0
      else do n ← load tmp; if matches n.datum then remove_here tmp else remove_loop k tail n.next

  unfoldable pub remove_on_match : ℕ → BaseLinkedList → Cmd ℕ
  unfolding remove_loop load
  remove_on_match k list = do h ← load list.head; remove_loop k list.tail h.next

  -- the body of the `if` of `ll_pop_on_match`
  unfoldable pub pop_here : Ptr → Cmd Ptr
  unfolding dettach_node load free
  pop_here tmp = do dettach_node tmp; n ← load tmp; free tmp; pure n.datum

  unfoldable pub pop_loop : ℕ → (tail tmp : Ptr) → Cmd Ptr
  unfolding load
  pop_loop zero tail tmp = λ _. out_of_fuel
  pop_loop (suc k) tail tmp =
      if tmp == tail
      then pure null
      else do n ← load tmp; if matches n.datum then pop_here tmp else pop_loop k tail n.next

  unfoldable pub pop_on_match : ℕ → BaseLinkedList → Cmd Ptr
  unfolding pop_loop load
  pop_on_match k list = do h ← load list.head; pop_loop k list.tail h.next

-- The loop of `ll_free_linked_list`.
unfoldable pub free_loop : ℕ → (tail node : Ptr) → Cmd (Unit {0})
unfolding load dettach_node free
free_loop zero tail tmp = λ _. out_of_fuel
free_loop (suc k) tail tmp = if tmp == tail then pure tt else do
  n ← load tmp
  dettach_node tmp
  n' ← load tmp
  call_back n'.datum
  free tmp
  free_loop k tail n.next

unfoldable pub free_linked_list : ℕ → BaseLinkedList → Cmd (Unit {0})
unfolding base_list_size free_loop load free
free_linked_list k list = do
  size ← base_list_size k list
  if ltb 0 size then (do h ← load list.head; free_loop k list.tail h.next) else pure tt
  free list.head
  free list.tail

unfoldable pub pop_node : BaseLinkedList → Cmd Ptr
unfolding load dettach_node free
pop_node list = do
  t ← load list.tail
  dettach_node t.prev
  n ← load t.prev
  free t.prev
  pure n.datum

unfoldable pub peek : ℕ → BaseLinkedList → Cmd Ptr
unfolding base_list_size load
peek k list = do
  size ← base_list_size k list
  if ltb 0 size then (do t ← load list.tail; n ← load t.prev; pure n.datum) else pure null

pub record BaseIterator : Type 0 where
  pub tail : Ptr
  pub current : Ptr

-- `block` is what `malloc` returns for the iterator.
unfoldable pub get_base_iterator : (block : Ptr) → BaseLinkedList → Cmd (Option BaseIterator)
unfolding load
get_base_iterator block list =
    if block == null
    then pure none
    else do h ← load list.head; pure (some (record { current = h.next; tail = list.tail }))

unfoldable pub base_iterator_has_next : BaseIterator → ℕ
base_iterator_has_next it = if it.current == it.tail then 0 else 1

unfoldable pub base_iterator_next : BaseIterator → Cmd (Ptr × BaseIterator)
unfolding load
base_iterator_next it = do n ← load it.current; pure (n.datum, record it { current = n.next })
