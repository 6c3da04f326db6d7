-- ===== src/Tests/OfLists.antt =====
-- A list of two nodes, at the addresses 4 and 3 between the sentinels 1 and 2.
use upush_chat.Base.{ℕ, ◌+◌, ◌≡◌, refl, none, some, [], ◌∷◌, ◌++◌, arith, ◌==◌, if◌then◌else◌}
use upush_chat.Memory.{Ptr, node, Mem, Run, ok, fault, pure, ◌>>=◌, put}
use upush_chat.LinkedList.{
  BaseLinkedList, add_node, pop_on_match, remove_on_match, pop_node, peek, free_linked_list,
}
use upush_chat.LinkedList.Shape.{Nodes, Cells, IsList, SameOutside}
use upush_chat.LinkedList.Walk.{called}
use upush_chat.LinkedList.Insert.{add_node-cons}
use upush_chat.LinkedList.Remove.{Leaves, remove_on_match-erase_first}
use upush_chat.LinkedList.Ends.{pop_node-drop_last, pop_node_empty}
use upush_chat.LinkedList.Release.{Released, free_linked_list-Released}
use upush_chat.Contacts.Iterator.{ContactIterator, get_contact_iterator}
use upush_chat.Contacts.Sweep.{sweep, sweep-IsList}
use upush_chat.LinkedList.View.{view, pointed, pop_on_match_refines}

abbrev list : BaseLinkedList
list = record { head = 1; tail = 2 }

abbrev nodes : Nodes
nodes = (4, 11) ∷ (3, 10) ∷ []

mem : Mem
unfolding put
mem = record {
  cells =
      put
        (put (put (put (λ _. none) 1 (some (node 4 0 0))) 4 (some (node 3 1 11))) 3
          (some (node 2 4 10)))
        2 (some (node 0 3 0));
  calls = [];
}

empty_mem : Mem
unfolding put
empty_mem = record {
  cells = put (put (λ _. none) 1 (some (node 2 0 0))) 2 (some (node 0 1 0));
  calls = [];
}

mem-IsList : IsList mem.cells list nodes
unfolding mem
mem-IsList = ground arith

empty_mem-IsList : IsList empty_mem.cells list []
unfolding empty_mem
empty_mem-IsList = ground arith

-- `otherData` points at what is looked for; here the data pointers themselves are compared.
abbrev same_pointer : Ptr → Ptr → ℕ
same_pointer d other = if d == other then 1 else 0

add_node-cons_example :
    (g : Cells) × (add_node 5 list 12 mem ≡ ok (some 1) (record mem { cells = g }))
    × IsList g list ((5, 12) ∷ nodes)
    × SameOutside ((5, 12) ∷ (1, 0) ∷ (nodes ++ (2, 0) ∷ [])) mem.cells g
unfolding mem
add_node-cons_example = add_node-cons mem list 5 12 nodes mem-IsList (omega arith) refl

remove_on_match-erase_first_example :
    (g : Cells) × (remove_on_match same_pointer 11 3 list mem
      ≡ ok 1 (called (record mem { cells = g }) (11 ∷ [])))
    × Leaves mem g list nodes ((3, 10) ∷ [])
remove_on_match-erase_first_example =
    remove_on_match-erase_first same_pointer 11 3 mem list nodes mem-IsList (omega arith)

pop_node-drop_last_example :
    (g : Cells) × (pop_node list mem ≡ ok 10 (record mem { cells = g }))
    × Leaves mem g list nodes ((4, 11) ∷ [])
pop_node-drop_last_example = pop_node-drop_last mem list (4, 11) ((3, 10) ∷ []) mem-IsList

pop_node_empty_example : pop_node list empty_mem ≡ fault
pop_node_empty_example = pop_node_empty empty_mem list empty_mem-IsList

free_linked_list-Released_example :
    (m' : Mem) × (free_linked_list 3 list mem ≡ ok tt m') × Released mem list nodes m'
free_linked_list-Released_example =
    free_linked_list-Released 3 mem list nodes mem-IsList (omega arith)

sweep-IsList_example :
    (g : Cells) × (it : ContactIterator) × (get_contact_iterator 6 7 list mem ≡ ok (some it) mem)
    × (sweep 3 3 (λ d. d == 10) list it mem ≡ ok (11 ∷ 10 ∷ []) (record mem { cells = g }))
    × IsList g list ((3, 10) ∷ [])
sweep-IsList_example =
    sweep-IsList 3 3 (λ d. d == 10) mem list nodes 6 7 (omega arith) (omega arith) mem-IsList
      ((omega arith, tt), (tt, tt)) (omega arith) (omega arith)

abbrev object : Ptr → ℕ
object p = p + 100

pop_on_match_refines_example :
    (p : Ptr) × (g : Cells) × (ys : Nodes) × (pop_on_match same_pointer 11 3 list mem
      ≡ ok p (record mem { cells = g }))
    × IsList g list ys
    × (pointed object p ≡ some 111)
    × (view object ys ≡ 110 ∷ [])
pop_on_match_refines_example =
    pop_on_match_refines object same_pointer 11 (λ a. a == 111) (λ d. ground arith) 3 mem list nodes
      mem-IsList (omega arith) (omega arith)

-- A run adds a node, takes the oldest one off and looks at the one behind it.
queue : Run (Ptr × Ptr)
unfolding mem add_node pop_node peek
queue = (add_node 5 list 12 >>= λ _. pop_node list >>= λ d. peek 4 list >>= λ e. pure (d, e)) mem

queue_result : (m' : Mem) × (queue ≡ ok (10, 11) m')
unfolding queue
queue_result = (_, refl)
