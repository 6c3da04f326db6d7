-- ===== src/LinkedList/Iterate.antt =====
-- The iterator: it hands out the data of each node once, in order, and then says that it is done.
use upush_chat.Base.{
  ℕ, zero, suc, ◌<◌, ◌≡◌, ◌≢◌, refl, false, none, some, List, [], ◌∷◌, arith, ◌==◌, if◌then◌else◌,
  length,
}
use upush_chat.Memory.{Ptr, null, Mem, Cmd, ok, out_of_fuel, pure, ◌>>=◌}
use upush_chat.LinkedList.{
  BaseLinkedList, BaseIterator, get_base_iterator, base_iterator_has_next, base_iterator_next,
}
use upush_chat.LinkedList.Shape.{Nodes, first, closed, contents, Linked, IsList}
use upush_chat.LinkedList.Walk.{at_tail, not_tail, load-first, load_head}

-- The loop that the program writes around an iterator: while it has a next element, take it.
pub drain : ℕ → BaseIterator → Cmd (List Ptr)
drain zero it = λ _. out_of_fuel
drain (suc k) it =
    if base_iterator_has_next it == 0
    then pure []
    else do (d, it') ← base_iterator_next it; ds ← drain k it'; pure (d ∷ ds)

drain-contents :
    (k : ℕ) (m : Mem) (prev t : Ptr) (xs : Nodes)
    → Linked m.cells prev null (closed xs t)
    → length xs < k
    → drain k (record { current = first xs t; tail = t }) m ≡ ok (contents xs) m
unfolding drain base_iterator_has_next base_iterator_next
drain-contents zero m prev t xs s fuel = absurd (omega arith)
drain-contents (suc k) m prev t [] s fuel = rw (at_tail t)
drain-contents (suc k) m prev t ((p, d) ∷ xs) s fuel = rw (
  not_tail m prev p t d xs s,
  load-first m prev p t d xs s,
  drain-contents k m p t xs s.3 (omega arith),
)

-- With fuel above the length of the list, an iterator over it, taken until it has no next element,
-- yields the data of the nodes in order and changes nothing; with no memory for it there is none.
pub get_base_iterator-drain :
    (k : ℕ) (m : Mem) (l : BaseLinkedList) (xs : Nodes) (block : Ptr)
    → IsList m.cells l xs
    → length xs < k
    → (get_base_iterator null l m ≡ ok none m)
      × (block ≢ null
          → (it : BaseIterator) × (get_base_iterator block l m ≡ ok (some it) m)
            × (drain k it m ≡ ok (contents xs) m))
unfolding get_base_iterator
get_base_iterator-drain k m l xs block is fuel = (
  refl,
  λ ne.
      let got : (block == null) ≡ false = ground arith in
      (
        record { current = first xs l.tail; tail = l.tail },
        rw (got, load_head k m l xs is fuel),
        drain-contents k m l.head l.tail xs is.3 fuel,
      ),
)
