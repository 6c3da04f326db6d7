-- ===== src/Sequence/Ends.antt =====
-- The last element of a sequence, and the element that a search finds.
use upush_chat.Base.{
  ◌⊎◌, subst, ◌+◌, ◌≡◌, refl, ap, Bool, true, some, List, [], ◌∷◌, ◌++◌, arith, length, map, All,
  Bool-cases, inl, inr,
}
use upush_chat.Sequence.{find_first, update_first, get_last?, drop_last}

module _ {ℓ} {A : Type ℓ} where
  abbrev pub reverse : List A → List A
  reverse [] = []
  reverse (x ∷ xs) = reverse xs ++ x ∷ []

  pub get_last?-append : (xs : List A) (x : A) → get_last? (xs ++ x ∷ []) ≡ some x
  get_last?-append [] x = refl
  get_last?-append (y ∷ []) x = refl
  get_last?-append (y ∷ z ∷ xs) x = get_last?-append (z ∷ xs) x

  pub get_last?-cons :
      (y : A) (xs : List A) (x : A) → get_last? xs ≡ some x → get_last? (y ∷ xs) ≡ some x
  get_last?-cons y [] x e = cc
  get_last?-cons y (z ∷ xs) x e = e

  pub drop_last-cons :
      (y : A) (xs : List A) (x : A) → get_last? xs ≡ some x → drop_last (y ∷ xs) ≡ y ∷ drop_last xs
  drop_last-cons y [] x e = cc
  drop_last-cons y (z ∷ xs) x e = refl

  pub length-drop_last :
      (xs : List A) (x : A) → get_last? xs ≡ some x → length xs ≡ length (drop_last xs) + 1
  length-drop_last (y ∷ []) x e = refl
  length-drop_last (y ∷ z ∷ xs) x e =
      let rest = length-drop_last (z ∷ xs) x e in omega (arith, rest)
  length-drop_last [] x e = cc

  pub reverse-last :
      (xs : List A) (x : A) → get_last? xs ≡ some x → reverse xs ≡ x ∷ reverse (drop_last xs)
  reverse-last [] x e = cc
  reverse-last (y ∷ []) x e = cc
  reverse-last (y ∷ z ∷ xs) x e = ap (λ r. r ++ y ∷ []) (reverse-last (z ∷ xs) x e)

  pub get_last?-cases : (xs : List A) → (xs ≡ []) ⊎ ((x : A) × (get_last? xs ≡ some x))
  get_last?-cases [] = inl refl
  get_last?-cases (x ∷ []) = inr (x, refl)
  get_last?-cases (x ∷ y ∷ xs) = elim (get_last?-cases (y ∷ xs)) [ inl e ↦ cc | inr h ↦ inr h ]

  module _ {κ} (P : A → Type κ) where
    pub All-drop_last : (xs : List A) → All P xs → All P (drop_last xs)
    All-drop_last [] h = tt
    All-drop_last (x ∷ []) h = tt
    All-drop_last (x ∷ y ∷ xs) h = (h.0, All-drop_last (y ∷ xs) h.1)

    pub All-get_last? : (xs : List A) (x : A) → get_last? xs ≡ some x → All P xs → P x
    All-get_last? [] x e h = cc
    All-get_last? (y ∷ []) x e h = let eq : y ≡ x = cc in subst P eq h.0
    All-get_last? (y ∷ z ∷ xs) x e h = All-get_last? (z ∷ xs) x e h.1

  module _ (test : A → Bool) where
    pub find_first-true : (xs : List A) (x : A) → find_first test xs ≡ some x → test x ≡ true
    find_first-true [] x e = cc
    find_first-true (y ∷ xs) x e = elim (Bool-cases (test y)) [
      | inl hit ↦ ground arith
      | inr miss ↦ find_first-true xs x (ground arith)
    ]

    pub find_first-update_first :
        (xs : List A) (x y : A)
        → find_first test xs ≡ some x
        → test y ≡ true
        → find_first test (update_first test (λ _. y) xs) ≡ some y
    find_first-update_first [] x y e h = cc
    find_first-update_first (z ∷ xs) x y e h = elim (Bool-cases (test z)) [
      | inl hit ↦ ground arith
      | inr miss ↦ let rest = find_first-update_first xs x y (ground arith) h in ground arith
    ]

module _ {ℓ κ} {A : Type ℓ} {B : Type κ} (f : A → B) where
  pub get_last?-map :
      (xs : List A) (x : A) → get_last? xs ≡ some x → get_last? (map f xs) ≡ some (f x)
  get_last?-map [] x e = cc
  get_last?-map (y ∷ []) x e = ground arith
  get_last?-map (y ∷ z ∷ xs) x e = get_last?-map (z ∷ xs) x e

  pub drop_last-map : (xs : List A) → map f (drop_last xs) ≡ drop_last (map f xs)
  drop_last-map [] = refl
  drop_last-map (x ∷ []) = refl
  drop_last-map (x ∷ y ∷ xs) = ap (λ r. f x ∷ r) (drop_last-map (y ∷ xs))
