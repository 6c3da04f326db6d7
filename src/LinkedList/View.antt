-- ===== src/LinkedList/View.antt =====
-- The list as its clients see it: the sequence of the objects that the data pointers stand for.
use upush_chat.Base.{
  ℕ, ◌<◌, ◌≡◌, ◌≢◌, refl, ap, Bool, Option, none, some, List, [], ◌∷◌, map, arith, ◌==◌,
  if◌then◌else◌, length, All,
}
use upush_chat.Memory.{Ptr, null, Mem, ok}
use upush_chat.Sequence.{find_first, erase_first, get_last?, drop_last}
use upush_chat.LinkedList.{BaseLinkedList, matches, find_by_matching_data, pop_on_match, pop_node}
use upush_chat.LinkedList.Shape.{Nodes, Cells, IsList}
use upush_chat.LinkedList.Walk.{hit, datum_or_null, find_by_matching_data-find_first}
use upush_chat.LinkedList.Remove.{pop_on_match-erase_first}
use upush_chat.LinkedList.Ends.{pop_node-drop_last}

module _ {A : Type 0} (object : Ptr → A) where
  abbrev pub view : Nodes → List A
  view xs = map (λ n. object n.1) xs

  -- What a pointer that a list function returned stands for.
  abbrev pub pointed : Ptr → Option A
  pointed p = if p == null then none else some (object p)

  pub view-drop_last : (xs : Nodes) → view (drop_last xs) ≡ drop_last (view xs)
  view-drop_last [] = refl
  view-drop_last (x ∷ []) = refl
  view-drop_last (x ∷ y ∷ xs) = ap (◌∷◌ (object x.1)) (view-drop_last (y ∷ xs))

  pub view-get_last? :
      (xs : Nodes)
      → All (λ n. n.1 ≢ null) xs
      → pointed (datum_or_null (get_last? xs)) ≡ get_last? (view xs)
  view-get_last? [] h = refl
  view-get_last? ((p, d) ∷ []) h = ground arith
  view-get_last? (x ∷ y ∷ xs) h = view-get_last? (y ∷ xs) h.1

  module _ (cmp : Ptr → Ptr → ℕ) (other : Ptr) (test : A → Bool)
      (agrees : (d : Ptr) → matches cmp other d ≡ test (object d)) where
    view-erase_first :
        (xs : Nodes) → view (erase_first (hit cmp other) xs) ≡ erase_first test (view xs)
    view-erase_first [] = refl
    view-erase_first ((p, d) ∷ xs) = ground (arith, agrees d, view-erase_first xs)

    view-find_first :
        (xs : Nodes)
        → All (λ n. n.1 ≢ null) xs
        → pointed (datum_or_null (find_first (hit cmp other) xs)) ≡ find_first test (view xs)
    view-find_first [] h = refl
    view-find_first ((p, d) ∷ xs) h = ground (arith, agrees d, view-find_first xs h.1)

    module _ (k : ℕ) (m : Mem) (l : BaseLinkedList) (xs : Nodes) (is : IsList m.cells l xs)
        (data_ne_null : All (λ n. n.1 ≢ null) xs) (fuel : length xs < k) where
      -- `ll_find_by_matching_data` finds the first object of the sequence that passes the test which
      -- the comparison makes, and changes nothing.
      pub find_by_matching_data_refines :
          (p : Ptr) × (find_by_matching_data cmp other k l m ≡ ok p m)
          × (pointed p ≡ find_first test (view xs))
      find_by_matching_data_refines = (
        _,
        find_by_matching_data-find_first k m l xs is fuel cmp other,
        view-find_first xs data_ne_null,
      )

      -- Seen as the sequence of the objects behind its data pointers, none of which is `NULL`, a list
      -- loses in `ll_pop_on_match` the first object that passes the test which the comparison makes;
      -- the pointer returned is that object's, or `NULL` if there is none. The fuel is above the
      -- length of the list.
      pub pop_on_match_refines :
          (p : Ptr) × (g : Cells) × (ys : Nodes) × (pop_on_match cmp other k l m
            ≡ ok p (record m { cells = g }))
          × IsList g l ys
          × (pointed p ≡ find_first test (view xs))
          × (view ys ≡ erase_first test (view xs))
      pop_on_match_refines =
          let (g, run, left) = pop_on_match-erase_first cmp other k m l xs is fuel in
          (_, g, _, run, left.chain, view-find_first xs data_ne_null, view-erase_first xs)

  -- `ll_pop_node` takes the last object of the sequence off.
  pub pop_node_refines :
      (m : Mem) (l : BaseLinkedList) (x : Ptr × Ptr) (xs : Nodes)
      → IsList m.cells l (x ∷ xs)
      → All (λ n. n.1 ≢ null) (x ∷ xs)
      → (p : Ptr) × (g : Cells) × (ys : Nodes) × (pop_node l m ≡ ok p (record m { cells = g }))
        × IsList g l ys
        × (pointed p ≡ get_last? (view (x ∷ xs)))
        × (view ys ≡ drop_last (view (x ∷ xs)))
  pop_node_refines m l x xs is ne =
      let (g, run, left) = pop_node-drop_last m l x xs is in
      (_, g, _, run, left.chain, view-get_last? (x ∷ xs) ne, view-drop_last (x ∷ xs))
