-- ===== src/Sequence.antt =====
-- The sequence that a linked list stands for, newest element first: what a client of the list
-- sees. LinkedList/ proves that the functions of base_linked_list.c compute these.
pub mod Ends
use upush_chat.Base.{Bool, Option, none, some, List, [], ◌∷◌, if◌then◌else◌}

module _ {ℓ} {A : Type ℓ} where
  module _ (test : A → Bool) where
    -- The first element that passes the test.
    abbrev pub find_first : List A → Option A
    find_first [] = none
    find_first (x ∷ xs) = if test x then some x else find_first xs

    -- The sequence without that element.
    abbrev pub erase_first : List A → List A
    erase_first [] = []
    erase_first (x ∷ xs) = if test x then xs else x ∷ erase_first xs

    -- The sequence with that element changed in place.
    abbrev pub update_first : (A → A) → List A → List A
    update_first f [] = []
    update_first f (x ∷ xs) = if test x then f x ∷ xs else x ∷ update_first f xs

  -- The element next to the tail, and what stands before it.
  abbrev pub get_last? : List A → Option A
  get_last? [] = none
  get_last? (x ∷ []) = some x
  get_last? (x ∷ y ∷ xs) = get_last? (y ∷ xs)

  abbrev pub drop_last : List A → List A
  drop_last [] = []
  drop_last (x ∷ []) = []
  drop_last (x ∷ y ∷ xs) = x ∷ drop_last (y ∷ xs)

  -- The element next to the tail, changed in place.
  abbrev pub update_last : (A → A) → List A → List A
  update_last f [] = []
  update_last f (x ∷ []) = f x ∷ []
  update_last f (x ∷ y ∷ xs) = x ∷ update_last f (y ∷ xs)
