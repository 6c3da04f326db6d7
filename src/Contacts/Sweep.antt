-- ===== src/Contacts/Sweep.antt =====
-- A loop around an iterator that takes elements off the list as it goes, as the loop of
-- `resend_pending_messages` does with the contacts that it gives up.
use upush_chat.Base.{
  ℕ, zero, suc, ◌<◌, ◌≡◌, ◌≢◌, refl, sym, subst, Bool, false, some, List, [], ◌∷◌, ◌++◌,
  append_assoc, arith, ◌==◌, if◌then◌else◌, length, length-append, All, Bool-cases, inl, inr,
}
use upush_chat.Memory.{Ptr, null, Mem, ok, out_of_fuel, Cmd, pure, ◌>>=◌, ◌>>◌}
use upush_chat.Sequence.{erase_first}
use upush_chat.LinkedList.{
  BaseLinkedList, base_iterator_has_next, base_iterator_next, get_base_iterator,
}
use upush_chat.Contacts.Iterator.{
  ContactIterator, get_contact_iterator, contact_iterator_next, contact_iterator_has_next,
  is_same_contact, dettach_contact_from_contact_list,
}
use upush_chat.LinkedList.Shape.{Nodes, Cells, first, last, closed, contents, Linked, IsList}
use upush_chat.LinkedList.Walk.{at_tail, not_tail, load-first, load_head, hit}
use upush_chat.LinkedList.Remove.{pop_on_match-erase_first}

-- `n` is the fuel of `ll_pop_on_match`. Each contact that is not kept is taken off the list before
-- the iterator goes on; what was visited is returned.
pub sweep : (k n : ℕ) → (Ptr → Bool) → BaseLinkedList → ContactIterator → Cmd (List Ptr)
sweep zero n keep l it = λ _. out_of_fuel
sweep (suc k) n keep l it = if contact_iterator_has_next it == 0 then pure [] else do
  (d, it') ← contact_iterator_next it
  if keep d then pure null else dettach_contact_from_contact_list n l d
  ds ← sweep k n keep l it'
  pure (d ∷ ds)

-- The nodes whose data are kept.
abbrev pub kept : (Ptr → Bool) → Nodes → Nodes
kept keep [] = []
kept keep ((p, d) ∷ xs) = if keep d then (p, d) ∷ kept keep xs else kept keep xs

-- No two nodes carry the same data pointer.
abbrev pub Different : Nodes → Type 0
Different [] = Unit
Different ((p, d) ∷ xs) = All (λ n. n.1 ≢ d) xs × Different xs

All-at : (P : Ptr × Ptr → Type 0) (done xs : Nodes) (n : Ptr × Ptr) → All P (done ++ n ∷ xs) → P n
All-at P [] xs n h = h.0
All-at P (x ∷ done) xs n h = All-at P done xs n h.1

Different-before :
    (done xs : Nodes) (p d : Ptr) → Different (done ++ (p, d) ∷ xs) → All (λ n. n.1 ≢ d) done
Different-before [] xs p d h = tt
Different-before ((q, e) ∷ done) xs p d h =
    (λ eq. All-at (λ n. n.1 ≢ e) done xs (p, d) h.0 (sym eq), Different-before done xs p d h.1)

All-without :
    (P : Ptr × Ptr → Type 0) (done xs : Nodes) (n : Ptr × Ptr)
    → All P (done ++ n ∷ xs)
    → All P (done ++ xs)
All-without P [] xs n h = h.1
All-without P (x ∷ done) xs n h = (h.0, All-without P done xs n h.1)

Different-without :
    (done xs : Nodes) (n : Ptr × Ptr) → Different (done ++ n ∷ xs) → Different (done ++ xs)
Different-without [] xs n h = h.1
Different-without ((q, e) ∷ done) xs n h =
    (All-without (λ n. n.1 ≢ e) done xs n h.0, Different-without done xs n h.1)

erase_first-there :
    (done xs : Nodes) (p d : Ptr)
    → All (λ n. n.1 ≢ d) done
    → erase_first (hit is_same_contact d) (done ++ (p, d) ∷ xs) ≡ done ++ xs
erase_first-there [] xs p d h = ground arith
erase_first-there ((q, e) ∷ done) xs p d h = ground (arith, erase_first-there done xs p d h.1)

-- What stands behind a part of a chain is a chain.
Linked-behind :
    (h : Cells) (prev stop : Ptr) (done xs : Nodes)
    → Linked h prev stop (done ++ xs)
    → Linked h (last prev done) stop xs
Linked-behind h prev stop [] xs s = s
Linked-behind h prev stop ((p, d) ∷ done) xs s = Linked-behind h p stop done xs s.3

rest-Linked :
    (h : Cells) (l : BaseLinkedList) (done xs : Nodes)
    → IsList h l (done ++ xs)
    → Linked h (last l.head done) null (closed xs l.tail)
rest-Linked h l done xs is =
    Linked-behind h l.head null done (closed xs l.tail)
      (subst (Linked h l.head null) (append_assoc done xs ((l.tail, null) ∷ [])) is.3)

abbrev pub iterator_at : Nodes → BaseLinkedList → ContactIterator
iterator_at xs l = record { iterator = record { current = first xs l.tail; tail = l.tail } }

-- What a sweep over `xs` does when the elements `done` were kept before.
abbrev Swept : (k n : ℕ) → (Ptr → Bool) → Mem → BaseLinkedList → (done xs : Nodes) → Type 0
Swept k n keep m l done xs =
    (g : Cells) × (sweep k n keep l (iterator_at xs l) m
      ≡ ok (contents xs) (record m { cells = g }))
    × IsList g l (done ++ kept keep xs)

sweep-kept :
    (k n : ℕ) (keep : Ptr → Bool) (m : Mem) (l : BaseLinkedList) (done xs : Nodes)
    → IsList m.cells l (done ++ xs)
    → Different (done ++ xs)
    → length xs < k
    → length (done ++ xs) < n
    → Swept k n keep m l done xs
unfolding sweep contact_iterator_has_next contact_iterator_next base_iterator_has_next
    base_iterator_next dettach_contact_from_contact_list
sweep-kept zero n keep m l done xs is diff fuel room = absurd (omega (arith, fuel))
sweep-kept (suc k) n keep m l done [] is diff fuel room = (m.cells, rw (at_tail l.tail) refl, is)
sweep-kept (suc k) n keep m l done ((p, d) ∷ xs) is diff fuel room =
    let s = rest-Linked m.cells l done ((p, d) ∷ xs) is in
    rw
      (
        not_tail m (last l.head done) p l.tail d xs s,
        load-first m (last l.head done) p l.tail d xs s,
      )
      (elim (Bool-cases (keep d)) [
        | inl yes_keep ↦
            let assoc = append_assoc done ((p, d) ∷ []) xs in
            let (g, run, left) =
              sweep-kept k n keep m l (done ++ (p, d) ∷ []) xs
                (subst (IsList m.cells l) (sym assoc) is) (subst Different (sym assoc) diff)
                (omega (arith, fuel)) (subst (λ ys. length ys < n) (sym assoc) room) in
            rw (yes_keep, run)
              (g, refl, subst (IsList g l) (append_assoc done ((p, d) ∷ []) (kept keep xs)) left)
        | inr no_keep ↦
            let (g, popped, left) =
              pop_on_match-erase_first is_same_contact d n m l (done ++ (p, d) ∷ xs) is room in
            let gone = erase_first-there done xs p d (Different-before done xs p d diff) in
            let (h, run, rest) =
              sweep-kept k n keep (record m { cells = g }) l done xs
                (subst (IsList g l) gone left.chain) (Different-without done xs (p, d) diff)
                (omega (arith, fuel))
                (omega (arith, room, length-append done ((p, d) ∷ xs), length-append done xs)) in
            rw (no_keep, popped, run) (h, refl, rest)
      ])

-- On a list of contacts whose data pointers differ, with memory for the iterator and with fuel
-- above the length of the list, a loop that takes every contact from the iterator, and takes off the
-- list those that are not to be kept, visits each contact once and in order, and leaves the list of
-- those to be kept: taking off the contact that the iterator has just returned does not disturb it.
pub sweep-IsList :
    (k n : ℕ) (keep : Ptr → Bool) (m : Mem) (l : BaseLinkedList) (xs : Nodes)
    (block base_block : Ptr)
    → block ≢ null
    → base_block ≢ null
    → IsList m.cells l xs
    → Different xs
    → length xs < k
    → length xs < n
    → (g : Cells) × (it : ContactIterator) × (get_contact_iterator block base_block l m
        ≡ ok (some it) m)
      × (sweep k n keep l it m ≡ ok (contents xs) (record m { cells = g }))
      × IsList g l (kept keep xs)
unfolding get_contact_iterator get_base_iterator
sweep-IsList k n keep m l xs block base_block ne base_ne is diff fuel room =
    let (g, run, left) = sweep-kept k n keep m l [] xs is diff fuel room in
    let got : (block == null) ≡ false = ground arith in
    let base_got : (base_block == null) ≡ false = ground arith in
    (g, iterator_at xs l, rw (got, base_got, load_head n m l xs is room) refl, run, left)
