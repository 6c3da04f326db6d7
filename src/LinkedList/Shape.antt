-- ===== src/LinkedList/Shape.antt =====
-- What it means that a memory holds a linked list, and how a write leaves the rest of it alone.
use upush_chat.Base.{
  ◌≡◌, ◌≢◌, refl, Bool, true, false, ◌||◌, Option, some, List, [], ◌∷◌, ◌++◌, arith, ◌==◌, map,
}
use upush_chat.Memory.{Ptr, null, Node, node, put}
use upush_chat.LinkedList.{BaseLinkedList}

-- Address and data pointer of each node, in order.
abbrev pub Nodes : Type 0
Nodes = List (Ptr × Ptr)

abbrev pub has : Ptr → Nodes → Bool
has a [] = false
has a ((p, _) ∷ xs) = a == p || has a xs

-- The address that a pointer to `xs` holds, when `stop` stands behind `xs`.
abbrev pub first : Nodes → Ptr → Ptr
first [] stop = stop
first ((p, _) ∷ xs) stop = p

abbrev pub last : Ptr → Nodes → Ptr
last prev [] = prev
last prev ((p, _) ∷ xs) = last p xs

abbrev pub contents : Nodes → List Ptr
contents = map λ n. n.1

abbrev pub Cells : Type 0
Cells = Ptr → Option Node

-- The nodes of `xs` are allocated at distinct addresses and linked both ways, with `prev` before
-- the first one and `stop` behind the last one.
abbrev pub Linked : Cells → Ptr → Ptr → Nodes → Type 0
Linked h prev stop [] = Unit
Linked h prev stop ((p, d) ∷ xs) =
    (h p ≡ some (node (first xs stop) prev d))
    × (p ≢ null)
    × (has p xs ≡ false)
    × Linked h p stop xs

abbrev pub closed : Nodes → Ptr → Nodes
closed xs tail = xs ++ (tail, null) ∷ []

-- The list `l` holds the nodes `xs`, between its sentinels.
abbrev pub IsList : Cells → BaseLinkedList → Nodes → Type 0
IsList h l xs = Linked h null null ((l.head, null) ∷ closed xs l.tail)

-- `g` differs from `h` at most at the addresses of `xs`.
abbrev pub SameOutside : Nodes → Cells → Cells → Type 0
SameOutside xs h g = (a : Ptr) → has a xs ≡ false → g a ≡ h a

pub first-closed : (xs : Nodes) (t : Ptr) (stop : Ptr) → first (closed xs t) stop ≡ first xs t
first-closed [] t stop = refl
first-closed (x ∷ xs) t stop = refl

-- A chain survives any change that spares its own addresses.
pub Linked-frame :
    (h g : Cells) (prev stop : Ptr) (xs : Nodes)
    → Linked h prev stop xs
    → ((a : Ptr) → has a xs ≡ true → g a ≡ h a)
    → Linked g prev stop xs
Linked-frame h g prev stop [] s same = tt
Linked-frame h g prev stop ((p, d) ∷ xs) s same =
    ground (arith, same p, Linked-frame h g p stop xs s.3 (λ a i. same a (ground arith)))

pub Linked-put :
    (h : Cells) (prev stop : Ptr) (xs : Nodes) (p : Ptr) (c : Option Node)
    → Linked h prev stop xs
    → has p xs ≡ false
    → Linked (put h p c) prev stop xs
unfolding put
Linked-put h prev stop xs p c s out =
    Linked-frame h (put h p c) prev stop xs s (λ a i. ground arith)

pub has-append : (a : Ptr) (xs ys : Nodes) → has a (xs ++ ys) ≡ (has a xs || has a ys)
has-append a [] ys = refl
has-append a ((p, d) ∷ xs) ys = ground (arith, has-append a xs ys)

pub has-closed :
    (a t : Ptr) (xs : Nodes) → has a (closed xs t) ≡ false → (has a xs ≡ false) × ((a == t) ≡ false)
has-closed a t xs out = ground (arith, has-append a xs ((t, null) ∷ []))

pub not-has-cons :
    (a b d : Ptr) (xs : Nodes) → has a ((b, d) ∷ xs) ≡ false → (a ≢ b) × (has a xs ≡ false)
not-has-cons a b d xs out = ground arith
