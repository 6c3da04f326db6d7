-- ===== src/Client/Shown.antt =====
-- What the receiver of messages has shown, and what it has not.
use upush_chat.Base.{
  ◌≡◌, refl, sym, ap, ◌∙◌, Bool, true, false, if◌then◌else◌, some, List, [], ◌∷◌, ◌++◌,
  append_assoc, append-nil, Bytes, map,
}
use upush_chat.Sequence.{get_last?, drop_last}
use upush_chat.Sequence.Ends.{reverse, reverse-last, drop_last-cons}

-- The texts that the receiver has not shown, when it has had the oldest one or not.
abbrev pub unseen : Bool → List Bytes → List Bytes
unseen old texts = if old then drop_last texts else texts

-- The texts with their sender, oldest first.
abbrev pub signed : Bytes → List Bytes → List (Bytes × Bytes)
signed nick texts = map (λ x. (nick, x)) (reverse texts)

pub shown-next :
    (old : Bool) (before : List (Bytes × Bytes)) (nick other x : Bytes) (ps rest : List Bytes)
    → other ≡ nick
    → rest ≡ drop_last ps
    → get_last? ps ≡ some x
    → (if old then before else before ++ (nick, x) ∷ []) ++ signed other rest
      ≡ before ++ signed nick (unseen old ps)
shown-next true before nick other x ps rest same left oldest = rw (same, left) refl
shown-next false before nick other x ps rest same left oldest =
    rw (same, left, reverse-last ps x oldest) (append_assoc before ((nick, x) ∷ []) _)

pub unseen-nil : (old : Bool) → unseen old [] ≡ []
unseen-nil true = refl
unseen-nil false = refl

map-append {ℓ κ} :
    {A : Type ℓ} {B : Type κ} (f : A → B) (xs ys : List A) → map f (xs ++ ys) ≡ map f xs ++ map f ys
map-append f [] ys = refl
map-append f (x ∷ xs) ys = ap (λ r. f x ∷ r) (map-append f xs ys)

pub signed-cons :
    (nick text : Bytes) (ps : List Bytes)
    → signed nick (text ∷ ps) ≡ signed nick ps ++ (nick, text) ∷ []
signed-cons nick text ps =
    map-append {A = Bytes} {B = Bytes × Bytes} (λ x. (nick, x)) (reverse ps) (text ∷ [])

-- What the receiver shows of the oldest text when it comes.
pub shown-received :
    (old : Bool) (before : List (Bytes × Bytes)) (nick x : Bytes) (ps : List Bytes)
    → get_last? ps ≡ some x
    → (if old then before else before ++ (nick, x) ∷ []) ++ signed nick (drop_last ps)
      ≡ before ++ signed nick (unseen old ps)
shown-received old before nick x ps oldest =
    shown-next old before nick nick x ps (drop_last ps) refl refl oldest

pub unseen-cons :
    (old : Bool) (text x : Bytes) (ps : List Bytes)
    → get_last? ps ≡ some x
    → unseen old (text ∷ ps) ≡ text ∷ unseen old ps
unseen-cons true text x ps e = drop_last-cons text ps x e
unseen-cons false text x ps e = refl

-- A text more in the queue is one more to be shown in the end.
pub shown-typed :
    (old : Bool) (before after : List (Bytes × Bytes)) (nick text x : Bytes) (ps all : List Bytes)
    → get_last? ps ≡ some x
    → after ++ signed nick (unseen old ps) ≡ before ++ signed nick all
    → after ++ signed nick (unseen old (text ∷ ps)) ≡ before ++ signed nick (text ∷ all)
shown-typed old before after nick text x ps all oldest e =
    ap (λ q. after ++ signed nick q) (unseen-cons old text x ps oldest)
    ∙ ap (λ q. after ++ q) (signed-cons nick text (unseen old ps))
    ∙ sym (append_assoc after (signed nick (unseen old ps)) ((nick, text) ∷ []))
    ∙ ap (λ q. q ++ (nick, text) ∷ []) e
    ∙ append_assoc before (signed nick all) ((nick, text) ∷ [])
    ∙ ap (λ q. before ++ q) (sym (signed-cons nick text all))

pub shown-first :
    (old : Bool) (before after : List (Bytes × Bytes)) (nick text : Bytes) (ps all : List Bytes)
    → ps ≡ []
    → after ++ signed nick (unseen old ps) ≡ before ++ signed nick all
    → after ++ signed nick (text ∷ []) ≡ before ++ signed nick (text ∷ all)
shown-first old before after nick text ps all empty e =
    let none_left : unseen old ps ≡ [] = ap (unseen old) empty ∙ unseen-nil old in
    let same : after ≡ before ++ signed nick all =
      sym (append-nil after) ∙ sym (ap (λ q. after ++ signed nick q) none_left) ∙ e in
    ap (λ q. q ++ (nick, text) ∷ []) same
    ∙ append_assoc before (signed nick all) ((nick, text) ∷ [])
    ∙ ap (λ q. before ++ q) (sym (signed-cons nick text all))
