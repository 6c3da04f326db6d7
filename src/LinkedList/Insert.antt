-- ===== src/LinkedList/Insert.antt =====
-- `ll_create_base_linked_list` and `ll_add_node`.
use upush_chat.Base.{
  ◌≡◌, ◌≢◌, refl, ◌⊎◌, inl, inr, false, none, some, [], ◌∷◌, arith, ◌==◌, Bool-cases,
}
use upush_chat.Memory.{Ptr, null, node, blank, Mem, ok, put}
use upush_chat.LinkedList.{BaseLinkedList, create_base_linked_list, add_node}
use upush_chat.LinkedList.Shape.{
  Nodes, Cells, has, first, closed, Linked, IsList, SameOutside, Linked-frame, not-has-cons,
}

-- The cells after `ll_add_node` put the node `f` between `a` and `c`.
abbrev inserted : Cells → (a f c pa da d qc dc : Ptr) → Cells
inserted h a f c pa da d qc dc =
    put
      (put
        (put (put (put (put h f (some blank)) f (some (node null null d))) f (some (node c null d)))
          f (some (node c a d)))
        a (some (node f pa da)))
      c (some (node qc f dc))

add_node-inserted :
    (m : Mem) (l : BaseLinkedList) (f c d qc dc : Ptr)
    → m.cells l.head ≡ some (node c null null)
    → m.cells c ≡ some (node qc l.head dc)
    → l.head ≢ null
    → c ≢ null
    → f ≢ null
    → l.head ≢ c
    → f ≢ l.head
    → f ≢ c
    → add_node f l d m
      ≡ ok (some 1) (record m { cells = inserted m.cells l.head f c null null d qc dc })
unfolding add_node put
add_node-inserted m l f c d qc dc ha hc za zc zf ac fa fc = ground arith

-- An address that holds no node is not in the list.
pub not-has_of_none :
    (h : Cells) (f prev stop : Ptr) (xs : Nodes)
    → Linked h prev stop xs
    → h f ≡ none
    → has f xs ≡ false
not-has_of_none h f prev stop [] s e = refl
not-has_of_none h f prev stop ((p, d) ∷ xs) s e = ground (arith, not-has_of_none h f p stop xs s.3)

inserted-Linked :
    (h : Cells) (prev a da f d c dc : Ptr) (post : Nodes)
    → Linked h prev null ((a, da) ∷ (c, dc) ∷ post)
    → f ≢ null
    → has f ((a, da) ∷ (c, dc) ∷ post) ≡ false
    → let g = inserted h a f c prev da d (first post null) dc in
      Linked g prev null ((a, da) ∷ (f, d) ∷ (c, dc) ∷ post)
      × SameOutside ((f, d) ∷ (a, da) ∷ (c, dc) ∷ post) h g
unfolding put
inserted-Linked h prev a da f d c dc post s ne out = (
  (
    ground arith,
    s.1,
    ground arith,
    (
      ground arith,
      ne,
      (not-has-cons f a da ((c, dc) ∷ post) out).1,
      (ground arith, s.3.1, s.3.2, Linked-frame h _ c null post s.3.3 (λ x i. ground arith)),
    ),
  ),
  λ x o. ground arith,
)

module _ (m : Mem) (l : BaseLinkedList) (f d : Ptr) where
  add_next :
      (c dc : Ptr) (post : Nodes)
      → Linked m.cells null null ((l.head, null) ∷ (c, dc) ∷ post)
      → f ≢ null
      → m.cells f ≡ none
      → (g : Cells) × (add_node f l d m ≡ ok (some 1) (record m { cells = g }))
        × Linked g null null ((l.head, null) ∷ (f, d) ∷ (c, dc) ∷ post)
        × SameOutside ((f, d) ∷ (l.head, null) ∷ (c, dc) ∷ post) m.cells g
  add_next c dc post s ne unused =
      let out = not-has_of_none m.cells f null null ((l.head, null) ∷ (c, dc) ∷ post) s unused in
      let apart = not-has-cons f l.head null ((c, dc) ∷ post) out in
      let (chain, same) = inserted-Linked m.cells null l.head null f d c dc post s ne out in
      (
        _,
        add_node-inserted m l f c d (first post null) dc s.0 s.3.0 s.1 s.3.1 ne
            (not-has-cons l.head c dc post s.2).0 apart.0 (not-has-cons f c dc post apart.1).0,
        chain,
        same,
      )

  -- On a list, with an unused address from `malloc`, `ll_add_node` returns 1, puts the new node in
  -- front of the others, and changes no address but those of the list and the new one.
  pub add_node-cons :
      (xs : Nodes)
      → IsList m.cells l xs
      → f ≢ null
      → m.cells f ≡ none
      → (g : Cells) × (add_node f l d m ≡ ok (some 1) (record m { cells = g }))
        × IsList g l ((f, d) ∷ xs)
        × SameOutside ((f, d) ∷ (l.head, null) ∷ closed xs l.tail) m.cells g
  add_node-cons [] s ne unused = add_next l.tail null [] s ne unused
  add_node-cons ((c, dc) ∷ xs) s ne unused = add_next c dc (closed xs l.tail) s ne unused

-- With memory exhausted `ll_add_node` returns -1 and changes nothing.
pub add_node-null : (m : Mem) (l : BaseLinkedList) (d : Ptr) → add_node null l d m ≡ ok none m
unfolding add_node
add_node-null m l d = refl

-- When `malloc` gives three blocks, two different ones for the sentinels,
-- `ll_create_base_linked_list` makes an empty list and writes only to the sentinels.
pub create_base_linked_list-IsList :
    (m : Mem) (list head tail : Ptr)
    → list ≢ null
    → head ≢ null
    → tail ≢ null
    → head ≢ tail
    → (g : Cells) × (create_base_linked_list list head tail m
        ≡ ok (some (record { head = head; tail = tail })) (record m { cells = g }))
      × IsList g (record { head = head; tail = tail }) []
      × SameOutside ((head, null) ∷ (tail, null) ∷ []) m.cells g
unfolding create_base_linked_list put
create_base_linked_list-IsList m list head tail zl zh zt apart = (
  put
      (put
        (put
          (put
            (put
              (put (put (put m.cells head (some blank)) tail (some blank)) head
                (some (node tail null null)))
              head (some (node tail null null)))
            head (some (node tail null null)))
          tail (some (node null head null)))
        tail (some (node null head null)))
      tail (some (node null head null)),
  ground arith,
  (ground arith, zh, ground arith, (ground arith, zt, refl, tt)),
  λ a o. ground arith,
)

-- When one of the three blocks is not there and the first sentinel's address was unused,
-- `ll_create_base_linked_list` returns `NULL` and memory is as before: no block is kept.
pub create_base_linked_list-null :
    (m : Mem) (list head tail : Ptr)
    → (list ≡ null) ⊎ (head ≡ null) ⊎ (tail ≡ null)
    → m.cells head ≡ none
    → (g : Cells) × (create_base_linked_list list head tail m ≡ ok none (record m { cells = g }))
      × ((a : Ptr) → g a ≡ m.cells a)
unfolding create_base_linked_list put
create_base_linked_list-null m list head tail z unused = elim (Bool-cases (list == null)) [
  | inl e ↦ (m.cells, ground arith, λ a. refl)
  | inr e ↦ elim (Bool-cases (head == null)) [
    | inl e' ↦ (m.cells, ground arith, λ a. refl)
    | inr e' ↦ (put (put m.cells head (some blank)) head none, ground arith, λ a. ground arith)
  ]
]
