-- ===== src/LinkedList/Remove.antt =====
-- `ll_pop_on_match` and `ll_remove_on_match`: the first match leaves the list.
use upush_chat.Base.{
  ℕ, zero, suc, ◌<◌, ◌≡◌, ◌≢◌, refl, ◌∙◌, inl, inr, true, false, Option, none, some, List, [], ◌∷◌,
  append-nil, arith, if◌then◌else◌, Bool-cases, length, is_some,
}
use upush_chat.Memory.{Ptr, null, Node, Mem, ok, put, free}
use upush_chat.Sequence.{find_first, erase_first}
use upush_chat.LinkedList.{
  BaseLinkedList, matches, pop_here, pop_loop, pop_on_match, remove_here, remove_loop,
  remove_on_match,
}
use upush_chat.LinkedList.Shape.{
  Nodes, Cells, has, first, closed, Linked, IsList, SameOutside, Linked-put, has-append, has-closed,
}
use upush_chat.LinkedList.Walk.{
  load-ok, datum_or_null, called, at_tail, not_tail, load-first, load_head, hit,
}
use upush_chat.LinkedList.Detach.{Detached, dettach_node-Detached}

pub free-ok :
    (m : Mem) (p : Ptr) {n : Node}
    → m.cells p ≡ some n
    → p ≢ null
    → free p m ≡ ok tt (record m { cells = put m.cells p none })
unfolding free
free-ok m p e ne = rw (load-ok m p e ne)

-- In the memory `g` the nodes `ys`, some of the `xs` of `h`, are left behind the node `a`, and
-- the others are freed.
pub record Left (h g : Cells) (prev a da t : Ptr) (xs ys : Nodes) : Type 0 where
  pub chain : Linked g prev null ((a, da) ∷ closed ys t)
  pub freed : (p : Ptr) → has p xs ≡ true → has p ys ≡ false → g p ≡ none
  pub same : SameOutside ((a, da) ∷ closed xs t) h g

-- Detached and then freed, the node behind `a` is gone.
pub Left-here :
    (m : Mem) (g : Cells) (prev a da b db t : Ptr) (xs : Nodes)
    → Linked m.cells prev null ((a, da) ∷ (b, db) ∷ closed xs t)
    → Detached m prev a da b db t xs g
    → Left m.cells (put g b none) prev a da t ((b, db) ∷ xs) xs
Left-here m g prev a da b db t xs s dt = record {
  chain = Linked-put g prev null ((a, da) ∷ closed xs t) b none dt.1 (ground arith);
  freed = λ p i o. unfold put in ground arith;
  same = λ p o. unfold put in ground (arith, dt.3 p);
}

has-closed_sub :
    (a t : Ptr) (xs ys : Nodes)
    → (has a xs ≡ false → has a ys ≡ false)
    → has a (closed xs t) ≡ false
    → has a (closed ys t) ≡ false
has-closed_sub a t xs ys sub out =
    ground (arith, has-closed a t xs out, has-append a ys ((t, null) ∷ []))

pub Left-cons :
    (h g : Cells) (prev a da b db t : Ptr) (xs ys : Nodes)
    → Linked h prev null ((a, da) ∷ (b, db) ∷ closed xs t)
    → ((p : Ptr) → has p xs ≡ false → has p ys ≡ false)
    → Left h g a b db t xs ys
    → Left h g prev a da t ((b, db) ∷ xs) ((b, db) ∷ ys)
Left-cons h g prev a da b db t xs ys s sub r = record {
  chain = (
    r.same a s.2 ∙ s.0,
    s.1,
    has-closed_sub a t ((b, db) ∷ xs) ((b, db) ∷ ys) (λ o. ground (arith, sub a)) s.2,
    r.chain,
  );
  freed = λ p i o. r.freed p (ground arith) (ground arith);
  same = λ p o. r.same p (ground arith);
}

pub Left-refl :
    (h : Cells) (prev a da t : Ptr) (xs : Nodes)
    → Linked h prev null ((a, da) ∷ closed xs t)
    → Left h h prev a da t xs xs
Left-refl h prev a da t xs s = record { chain = s; freed = λ p i o. cc; same = λ p o. refl }

-- What the callback is given.
abbrev pub data_of : Option (Ptr × Ptr) → List Ptr
data_of none = []
data_of (some n) = n.1 ∷ []

module _ (cmp : Ptr → Ptr → ℕ) (other : Ptr) where
  erase_first-sub :
      (xs : Nodes) (p : Ptr) → has p xs ≡ false → has p (erase_first (hit cmp other) xs) ≡ false
  erase_first-sub [] p o = refl
  erase_first-sub ((q, d) ∷ xs) p o = ground (arith, erase_first-sub xs p)

  pub pop_here_lem :
      (m : Mem) (prev a da b db t : Ptr) (xs : Nodes)
      → Linked m.cells prev null ((a, da) ∷ (b, db) ∷ closed xs t)
      → (g : Cells) × (pop_here cmp other b m ≡ ok db (record m { cells = g }))
        × Left m.cells g prev a da t ((b, db) ∷ xs) xs
  unfolding pop_here
  pop_here_lem m prev a da b db t xs s =
      let (g, dt) = dettach_node-Detached m prev a da b db t xs s in
      let m' : Mem = record m { cells = g } in
      (
        put g b none,
        rw (dt.0, load-ok m' b dt.2 s.3.1, free-ok m' b dt.2 s.3.1),
        Left-here m g prev a da b db t xs s dt,
      )

  remove_here_lem :
      (m : Mem) (prev a da b db t : Ptr) (xs : Nodes)
      → Linked m.cells prev null ((a, da) ∷ (b, db) ∷ closed xs t)
      → (g : Cells) × (remove_here cmp other b m ≡ ok 1 (called (record m { cells = g }) (db ∷ [])))
        × Left m.cells g prev a da t ((b, db) ∷ xs) xs
  unfolding remove_here
  remove_here_lem m prev a da b db t xs s =
      let (g, dt) = dettach_node-Detached m prev a da b db t xs s in
      let m' : Mem = record m { cells = g } in
      (
        put g b none,
        rw (dt.0, load-ok m' b dt.2 s.3.1, free-ok (called m' (db ∷ [])) b dt.2 s.3.1),
        Left-here m g prev a da b db t xs s dt,
      )

  pop_loop_lem :
      (k : ℕ) (m : Mem) (prev a da t : Ptr) (xs : Nodes)
      → Linked m.cells prev null ((a, da) ∷ closed xs t)
      → length xs < k
      → (g : Cells) × (pop_loop cmp other k t (first xs t) m
          ≡ ok (datum_or_null (find_first (hit cmp other) xs)) (record m { cells = g }))
        × Left m.cells g prev a da t xs (erase_first (hit cmp other) xs)
  unfolding pop_loop
  pop_loop_lem zero m prev a da t xs s fuel = absurd (omega arith)
  pop_loop_lem (suc k) m prev a da t [] s fuel =
      (m.cells, rw (at_tail t), Left-refl m.cells prev a da t [] s)
  pop_loop_lem (suc k) m prev a da t ((b, db) ∷ xs) s fuel =
      rw (not_tail m a b t db xs s.3, load-first m a b t db xs s.3)
        (elim (Bool-cases (matches cmp other db)) [
          | inl e ↦ rw e (pop_here_lem m prev a da b db t xs s)
          | inr e ↦
              let (g, run, left) = pop_loop_lem k m a b db t xs s.3 (omega arith) in
              rw e (g, run, Left-cons m.cells g prev a da b db t xs _ s (erase_first-sub xs) left)
        ])

  remove_loop_lem :
      (k : ℕ) (m : Mem) (prev a da t : Ptr) (xs : Nodes)
      → Linked m.cells prev null ((a, da) ∷ closed xs t)
      → length xs < k
      → let found = find_first (hit cmp other) xs in
        (g : Cells) × (remove_loop cmp other k t (first xs t) m
          ≡ ok (if is_some found then 1 else 0) (called (record m { cells = g }) (data_of found)))
        × Left m.cells g prev a da t xs (erase_first (hit cmp other) xs)
  unfolding remove_loop
  remove_loop_lem zero m prev a da t xs s fuel = absurd (omega arith)
  remove_loop_lem (suc k) m prev a da t [] s fuel =
      (m.cells, rw (at_tail t, append-nil), Left-refl m.cells prev a da t [] s)
  remove_loop_lem (suc k) m prev a da t ((b, db) ∷ xs) s fuel =
      rw (not_tail m a b t db xs s.3, load-first m a b t db xs s.3)
        (elim (Bool-cases (matches cmp other db)) [
          | inl e ↦ rw e (remove_here_lem m prev a da b db t xs s)
          | inr e ↦
              let (g, run, left) = remove_loop_lem k m a b db t xs s.3 (omega arith) in
              rw e (g, run, Left-cons m.cells g prev a da b db t xs _ s (erase_first-sub xs) left)
        ])

-- What a list operation leaves of `l`: it held `xs`, now it holds `ys`, the nodes that left are
-- freed, and nothing else in memory has changed.
abbrev pub Leaves : Mem → Cells → BaseLinkedList → Nodes → Nodes → Type 0
Leaves m g l = Left m.cells g null l.head null l.tail

module _ (cmp : Ptr → Ptr → ℕ) (other : Ptr) (k : ℕ) (m : Mem) (l : BaseLinkedList) (xs : Nodes)
    (is : IsList m.cells l xs) (fuel : length xs < k) where
  -- On a list, with fuel above its length, `ll_pop_on_match` returns the data of the first node
  -- whose data matches, or `NULL`; the list is left without that node, which is freed, and no
  -- address outside the list changes.
  pub pop_on_match-erase_first :
      (g : Cells) × (pop_on_match cmp other k l m
        ≡ ok (datum_or_null (find_first (hit cmp other) xs)) (record m { cells = g }))
      × Leaves m g l xs (erase_first (hit cmp other) xs)
  unfolding pop_on_match
  pop_on_match-erase_first =
      rw (load_head k m l xs is fuel)
        (pop_loop_lem cmp other k m null l.head null l.tail xs is fuel)

  -- On a list, with fuel above its length, `ll_remove_on_match` returns 1 if there is a node whose
  -- data matches and 0 otherwise; the callback is given the data of the first such node, once, the
  -- list is left without that node, which is freed, and no address outside the list changes.
  pub remove_on_match-erase_first :
      let found = find_first (hit cmp other) xs in
      (g : Cells) × (remove_on_match cmp other k l m
        ≡ ok (if is_some found then 1 else 0) (called (record m { cells = g }) (data_of found)))
      × Leaves m g l xs (erase_first (hit cmp other) xs)
  unfolding remove_on_match
  remove_on_match-erase_first =
      rw (load_head k m l xs is fuel)
        (remove_loop_lem cmp other k m null l.head null l.tail xs is fuel)
