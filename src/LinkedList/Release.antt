-- ===== src/LinkedList/Release.antt =====
-- `ll_free_linked_list`.
use mathlib.Core.Path.{subst}
use upush_chat.Base.{
  sym, ℕ, zero, suc, ◌<◌, ◌≡◌, ◌≢◌, refl, ap, ◌∙◌, none, some, List, [], ◌∷◌, ◌++◌, append_assoc,
  append-nil, arith, length, true, false, ltb, Bool-cases, inl, inr,
}
use upush_chat.Memory.{Ptr, null, node, Mem, ok, ◌>>◌, put, free}
use upush_chat.LinkedList.{BaseLinkedList, free_loop, free_linked_list}
use upush_chat.LinkedList.Shape.{
  Nodes, Cells, has, first, closed, contents, Linked, IsList, SameOutside, has-closed, has-append,
  not-has-cons,
}
use upush_chat.LinkedList.Walk.{
  load-ok, called, at_tail, not_tail, load-first, load_head, base_list_size-length,
}
use upush_chat.LinkedList.Detach.{dettach_node-Detached}
use upush_chat.LinkedList.Remove.{Left, Left-here, Left-refl, free-ok}

only_first : (p b d : Ptr) (xs : Nodes) → has p ((b, d) ∷ xs) ≡ true → has p xs ≡ false → p ≡ b
only_first p b d xs i o = ground arith

not-has-cons_back :
    (b a d : Ptr) (xs : Nodes) → a ≢ b → has b xs ≡ false → has b ((a, d) ∷ xs) ≡ false
not-has-cons_back b a d xs ne o = ground arith

-- The first node went, then all the others.
Left-trans :
    (h g g' : Cells) (prev a da b db t : Ptr) (xs : Nodes)
    → has b ((a, da) ∷ closed xs t) ≡ false
    → Left h g prev a da t ((b, db) ∷ xs) xs
    → Left g g' prev a da t xs []
    → Left h g' prev a da t ((b, db) ∷ xs) []
Left-trans h g g' prev a da b db t xs out r s = record {
  chain = s.chain;
  freed = λ p i o. elim (Bool-cases (has p xs)) [
    | inl e ↦ s.freed p e refl
    | inr e ↦
        let clear =
          subst (λ q. has q ((a, da) ∷ closed xs t) ≡ false) (sym (only_first p b db xs i e)) out in
        s.same p clear ∙ r.freed p i e
  ];
  same = λ p o. s.same p (ground arith) ∙ r.same p o;
}

free_loop_lem :
    (k : ℕ) (m : Mem) (prev a da t : Ptr) (xs : Nodes)
    → Linked m.cells prev null ((a, da) ∷ closed xs t)
    → length xs < k
    → (g : Cells) × (free_loop k t (first xs t) m
        ≡ ok tt (called (record m { cells = g }) (contents xs)))
      × Left m.cells g prev a da t xs []
unfolding free_loop
free_loop_lem zero m prev a da t xs s fuel = absurd (omega arith)
free_loop_lem (suc k) m prev a da t [] s fuel =
    (m.cells, rw (at_tail t, append-nil), Left-refl m.cells prev a da t [] s)
free_loop_lem (suc k) m prev a da t ((b, db) ∷ xs) s fuel =
    let (g, dt) = dettach_node-Detached m prev a da b db t xs s in
    let m' : Mem = record m { cells = g } in
    let m'' : Mem = called (record m { cells = put g b none }) (db ∷ []) in
    let here = Left-here m g prev a da b db t xs s dt in
    let apart =
      not-has-cons_back b a da (closed xs t) (not-has-cons a b db (closed xs t) s.2).0 s.3.2 in
    let (g', run, left) = free_loop_lem k m'' prev a da t xs here.chain (omega arith) in
    (
      g',
      rw
          (
            not_tail m a b t db xs s.3,
            load-first m a b t db xs s.3,
            dt.0,
            load-ok m' b dt.2 s.3.1,
            free-ok (called m' (db ∷ [])) b dt.2 s.3.1,
          )
          (run
            ∙ ap (λ c. ok tt (record m { cells = g'; calls = c }))
                (append_assoc m.calls (db ∷ []) (contents xs))),
      Left-trans m.cells (put g b none) g' prev a da b db t xs apart here left,
    )

-- What freeing the whole list comes to: every node and both sentinels are given back, no other
-- address changes, and the callback ran once on the data of each node, in order.
abbrev pub Released : Mem → BaseLinkedList → Nodes → Mem → Type 0
Released m l xs m' =
    ((p : Ptr) → has p ((l.head, null) ∷ closed xs l.tail) ≡ true → m'.cells p ≡ none)
    × SameOutside ((l.head, null) ∷ closed xs l.tail) m.cells m'.cells
    × (m'.calls ≡ m.calls ++ contents xs)

-- The two sentinels go last.
sentinels-Released :
    (m : Mem) (g : Cells) (l : BaseLinkedList) (xs : Nodes)
    → Left m.cells g null l.head null l.tail xs []
    → (calls : List Ptr) → calls ≡ m.calls ++ contents xs
    → (m' : Mem) × ((do free l.head; free l.tail) (record { cells = g; calls = calls }) ≡ ok tt m')
      × Released m l xs m'
sentinels-Released m g l xs left calls e' =
    let s = left.chain in
    let m1 : Mem = record { cells = g; calls = calls } in
    let m2 : Mem = record m1 { cells = put g l.head none } in
    let e : m2.cells l.tail ≡ some (node null l.head null) = unfold put in ground arith in
    (
      record m2 { cells = put m2.cells l.tail none },
      rw (free-ok m1 l.head s.0 s.1, free-ok m2 l.tail e s.3.1),
      (
        λ p i. unfold put in ground (arith, left.freed p, has-append p xs ((l.tail, null) ∷ [])),
        λ p o. unfold put in ground (arith, left.same p o, has-closed p l.tail xs),
        e',
      ),
    )

-- On a list, with fuel above its length, `ll_free_linked_list` ends without a fault, so it frees no
-- address twice; every node and both sentinels are freed, no other address changes, and the
-- callback is given the data of each node, once and in order.
pub free_linked_list-Released :
    (k : ℕ) (m : Mem) (l : BaseLinkedList) (xs : Nodes)
    → IsList m.cells l xs
    → length xs < k
    → (m' : Mem) × (free_linked_list k l m ≡ ok tt m') × Released m l xs m'
unfolding free_linked_list
free_linked_list-Released k m l [] is fuel = rw (base_list_size-length k m l [] is fuel) (
    sentinels-Released m m.cells l [] (Left-refl m.cells null l.head null l.tail [] is) m.calls
      (sym (append-nil m.calls)))
free_linked_list-Released k m l (x ∷ xs) is fuel =
    let (g, run, left) = free_loop_lem k m null l.head null l.tail (x ∷ xs) is fuel in
    let some_nodes : ltb 0 (suc (length xs)) ≡ true = ground arith in
    rw
      (
        base_list_size-length k m l (x ∷ xs) is fuel,
        some_nodes,
        load_head k m l (x ∷ xs) is fuel,
        run,
      )
      (sentinels-Released m g l (x ∷ xs) left _ refl)
