-- ===== src/LinkedList/Walk.antt =====
-- The functions that walk the list and change nothing but the record of callbacks.
use upush_chat.Base.{
  ℕ, zero, suc, ◌+◌, ◌<◌, ◌≡◌, ◌≢◌, ap, ◌∙◌, inl, inr, Bool, true, false, Option, none, some, List,
  [], ◌∷◌, ◌++◌, append_assoc, append-nil, arith, ◌==◌, if◌then◌else◌, Bool-cases, length, is_some,
}
use upush_chat.Memory.{Ptr, null, Node, node, Mem, ok, load}
use upush_chat.Sequence.{find_first}
use upush_chat.LinkedList.{
  BaseLinkedList, each_loop, do_on_each, size_loop, base_list_size, matches, contains_loop,
  contains_matching_data, find_loop, find_by_matching_data,
}
use upush_chat.LinkedList.Shape.{
  Nodes, first, closed, contents, Linked, IsList, first-closed, has-closed,
}

pub load-ok : (m : Mem) (p : Ptr) {n : Node} → m.cells p ≡ some n → p ≢ null → load p m ≡ ok n m
unfolding load
load-ok m p e ne = ground arith

-- The data pointer of the node found, `NULL` for none.
abbrev pub datum_or_null : Option (Ptr × Ptr) → Ptr
datum_or_null none = null
datum_or_null (some n) = n.1

-- The memory after a callback ran on each of `ds`.
abbrev pub called : Mem → List Ptr → Mem
called m ds = record m { calls = m.calls ++ ds }

-- The test of each loop at the end of the list, and before it.
pub at_tail : (t : Ptr) → (t == t) ≡ true
at_tail t = ground arith

module _ (m : Mem) (prev p t d : Ptr) (xs : Nodes)
    (s : Linked m.cells prev null (closed ((p, d) ∷ xs) t)) where
  pub not_tail : (p == t) ≡ false
  not_tail = (has-closed p t xs s.2).1

  pub load-first : load p m ≡ ok (node (first xs t) prev d) m
  load-first = rw (← first-closed xs t null) (load-ok m p s.0 s.1)

size_loop_lem :
    (k : ℕ) (m : Mem) (prev t c : Ptr) (xs : Nodes)
    → Linked m.cells prev null (closed xs t)
    → length xs < k
    → size_loop k t (first xs t) c m ≡ ok (c + length xs) m
unfolding size_loop
size_loop_lem zero m prev t c xs s fuel = absurd (omega arith)
size_loop_lem (suc k) m prev t c [] s fuel = rw (at_tail t) (ap (λ n. ok n m) (omega arith))
size_loop_lem (suc k) m prev t c ((p, d) ∷ xs) s fuel =
    rw (not_tail m prev p t d xs s, load-first m prev p t d xs s)
      (size_loop_lem k m p t (c + 1) xs s.3 (omega arith) ∙ ap (λ n. ok n m) (omega arith))

each_loop_lem :
    (k : ℕ) (m : Mem) (prev t : Ptr) (xs : Nodes)
    → Linked m.cells prev null (closed xs t)
    → length xs < k
    → each_loop k t (first xs t) m ≡ ok tt (called m (contents xs))
unfolding each_loop
each_loop_lem zero m prev t xs s fuel = absurd (omega arith)
each_loop_lem (suc k) m prev t [] s fuel = rw (at_tail t, append-nil)
each_loop_lem (suc k) m prev t ((p, d) ∷ xs) s fuel =
    rw (not_tail m prev p t d xs s, load-first m prev p t d xs s)
      (each_loop_lem k (called m (d ∷ [])) p t xs s.3 (omega arith)
        ∙ ap (λ l. ok tt (record m { calls = l })) (append_assoc m.calls (d ∷ []) (contents xs)))

module _ (cmp : Ptr → Ptr → ℕ) (other : Ptr) where
  -- Does the node's data match?
  abbrev pub hit : Ptr × Ptr → Bool
  hit n = matches cmp other n.1

  find_loop_lem :
      (k : ℕ) (m : Mem) (prev t : Ptr) (xs : Nodes)
      → Linked m.cells prev null (closed xs t)
      → length xs < k
      → find_loop cmp other k t (first xs t) m ≡ ok (datum_or_null (find_first hit xs)) m
  unfolding find_loop
  find_loop_lem zero m prev t xs s fuel = absurd (omega arith)
  find_loop_lem (suc k) m prev t [] s fuel = rw (at_tail t)
  find_loop_lem (suc k) m prev t ((p, d) ∷ xs) s fuel =
      rw (not_tail m prev p t d xs s, load-first m prev p t d xs s)
        (elim (Bool-cases (matches cmp other d)) [
          | inl e ↦ rw e
          | inr e ↦ rw e (find_loop_lem k m p t xs s.3 (omega arith))
        ])

  contains_loop_lem :
      (k : ℕ) (m : Mem) (prev t : Ptr) (xs : Nodes)
      → Linked m.cells prev null (closed xs t)
      → length xs < k
      → contains_loop cmp other k t (first xs t) m
        ≡ ok (if is_some (find_first hit xs) then 1 else 0) m
  unfolding contains_loop
  contains_loop_lem zero m prev t xs s fuel = absurd (omega arith)
  contains_loop_lem (suc k) m prev t [] s fuel = rw (at_tail t)
  contains_loop_lem (suc k) m prev t ((p, d) ∷ xs) s fuel =
      rw (not_tail m prev p t d xs s, load-first m prev p t d xs s)
        (elim (Bool-cases (matches cmp other d)) [
          | inl e ↦ rw e
          | inr e ↦ rw e (contains_loop_lem k m p t xs s.3 (omega arith))
        ])

module _ (k : ℕ) (m : Mem) (l : BaseLinkedList) (xs : Nodes) (is : IsList m.cells l xs)
    (fuel : length xs < k) where
  pub load_head : load l.head m ≡ ok (node (first xs l.tail) null null) m
  load_head = rw (← first-closed xs l.tail null) (load-ok m l.head is.0 is.1)

  -- On a list, with fuel above its length, `ll_base_list_size` returns the number of nodes between
  -- the sentinels and changes nothing.
  pub base_list_size-length : base_list_size k l m ≡ ok (length xs) m
  unfolding base_list_size
  base_list_size-length =
      rw load_head (size_loop_lem k m l.head l.tail 0 xs is.3 fuel ∙ ap (λ n. ok n m) (omega arith))

  -- On a list, with fuel above its length, `ll_do_on_each` calls the function on the data of each
  -- node, once and in order, and changes nothing itself.
  pub do_on_each-contents : do_on_each k l m ≡ ok tt (called m (contents xs))
  unfolding do_on_each
  do_on_each-contents = rw load_head (each_loop_lem k m l.head l.tail xs is.3 fuel)

  -- On a list, with fuel above its length, `ll_find_by_matching_data` returns the data of the first
  -- node whose data matches, `NULL` if there is none, and changes nothing.
  pub find_by_matching_data-find_first :
      (cmp : Ptr → Ptr → ℕ) (other : Ptr)
      → find_by_matching_data cmp other k l m ≡ ok (datum_or_null (find_first (hit cmp other) xs)) m
  unfolding find_by_matching_data
  find_by_matching_data-find_first cmp other =
      rw load_head (find_loop_lem cmp other k m l.head l.tail xs is.3 fuel)

  pub contains_matching_data-find_first :
      (cmp : Ptr → Ptr → ℕ) (other : Ptr)
      → contains_matching_data cmp other k l m
        ≡ ok (if is_some (find_first (hit cmp other) xs) then 1 else 0) m
  unfolding contains_matching_data
  contains_matching_data-find_first cmp other =
      rw load_head (contains_loop_lem cmp other k m l.head l.tail xs is.3 fuel)
