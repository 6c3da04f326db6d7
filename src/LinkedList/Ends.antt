-- ===== src/LinkedList/Ends.antt =====
-- The tail end of the list: `ll_pop_node` and `ll_peek`.
use upush_chat.Base.{ℕ, suc, ◌<◌, ◌≡◌, ◌≢◌, refl, some, [], ◌∷◌, arith, length, true, false, ltb}
use upush_chat.Memory.{Ptr, null, Node, node, Mem, ok, fault, load, put, set_next, set_prev}
use upush_chat.Sequence.{get_last?, drop_last}
use upush_chat.LinkedList.{BaseLinkedList, dettach_node, pop_here, pop_node, peek}
use upush_chat.LinkedList.Shape.{Nodes, Cells, has, last, closed, Linked, IsList}
use upush_chat.LinkedList.Walk.{load-ok, datum_or_null, base_list_size-length}
use upush_chat.LinkedList.Remove.{Left, Left-cons, Leaves, pop_here_lem}

-- The tail sentinel points back at the last node.
cells_tail :
    (h : Cells) (prev t : Ptr) (xs : Nodes)
    → Linked h prev null (closed xs t)
    → (h t ≡ some (node null (last prev xs) null)) × (t ≢ null)
cells_tail h prev t [] s = (s.0, s.1)
cells_tail h prev t ((p, d) ∷ xs) s = cells_tail h p t xs s.3

drop_last-sub : (xs : Nodes) (p : Ptr) → has p xs ≡ false → has p (drop_last xs) ≡ false
drop_last-sub [] p o = refl
drop_last-sub (x ∷ []) p o = refl
drop_last-sub ((a, _) ∷ y ∷ xs) p o = ground (arith, drop_last-sub (y ∷ xs) p)

-- The steps of `ll_pop_node` on the last node.
pop_last_lem :
    (m : Mem) (prev a da b db t : Ptr) (xs : Nodes)
    → Linked m.cells prev null ((a, da) ∷ (b, db) ∷ closed xs t)
    → (g : Cells) × (pop_here (λ _ _. 0) null (last b xs) m
        ≡ ok (datum_or_null (get_last? ((b, db) ∷ xs))) (record m { cells = g }))
      × Left m.cells g prev a da t ((b, db) ∷ xs) (drop_last ((b, db) ∷ xs))
pop_last_lem m prev a da b db t [] s = pop_here_lem (λ _ _. 0) null m prev a da b db t [] s
pop_last_lem m prev a da b db t ((c, dc) ∷ xs) s =
    let (g, run, left) = pop_last_lem m a b db c dc t xs s.3 in
    (
      g,
      run,
      Left-cons m.cells g prev a da b db t ((c, dc) ∷ xs) (drop_last ((c, dc) ∷ xs)) s
          (drop_last-sub ((c, dc) ∷ xs)) left,
    )

load-last :
    (m : Mem) (prev b db t : Ptr) (xs : Nodes)
    → Linked m.cells prev null ((b, db) ∷ closed xs t)
    → (n : Node) × (load (last b xs) m ≡ ok n m)
      × (n.datum ≡ datum_or_null (get_last? ((b, db) ∷ xs)))
load-last m prev b db t [] s = (_, load-ok m b s.0 s.1, refl)
load-last m prev b db t ((c, dc) ∷ xs) s = load-last m b c dc t xs s.3

module _ (m : Mem) (l : BaseLinkedList) where
  load_tail :
      (xs : Nodes) → IsList m.cells l xs → load l.tail m ≡ ok (node null (last l.head xs) null) m
  load_tail xs is = let (e, ne) = cells_tail m.cells l.head l.tail xs is.3 in load-ok m l.tail e ne

  -- On a list that is not empty `ll_pop_node` returns the data of the node next to the tail; the
  -- list is left without that node, which is freed, and no address outside the list changes.
  pub pop_node-drop_last :
      (x : Ptr × Ptr) (xs : Nodes)
      → IsList m.cells l (x ∷ xs)
      → (g : Cells) × (pop_node l m
          ≡ ok (datum_or_null (get_last? (x ∷ xs))) (record m { cells = g }))
        × Leaves m g l (x ∷ xs) (drop_last (x ∷ xs))
  unfolding pop_node pop_here
  pop_node-drop_last (b, db) xs is =
      rw (load_tail ((b, db) ∷ xs) is) (pop_last_lem m null l.head null b db l.tail xs is)

  -- On an empty list `ll_pop_node` follows `NULL`.
  pub pop_node_empty : IsList m.cells l [] → pop_node l m ≡ fault
  unfolding pop_node dettach_node load set_next set_prev put
  pop_node_empty is = ground arith

  -- On a list, with fuel above its length, `ll_peek` returns the data of the node next to the tail,
  -- `NULL` for the empty list, and changes nothing.
  pub peek-get_last? :
      (k : ℕ) (xs : Nodes)
      → IsList m.cells l xs
      → length xs < k
      → peek k l m ≡ ok (datum_or_null (get_last? xs)) m
  unfolding peek
  peek-get_last? k [] is fuel = rw (base_list_size-length k m l [] is fuel)
  peek-get_last? k ((b, db) ∷ xs) is fuel =
      let (n, e, d) = load-last m l.head b db l.tail xs is.3 in
      let some_nodes : ltb 0 (suc (length xs)) ≡ true = ground arith in
      rw (
        base_list_size-length k m l ((b, db) ∷ xs) is fuel,
        some_nodes,
        load_tail ((b, db) ∷ xs) is,
        e,
        d,
      )
