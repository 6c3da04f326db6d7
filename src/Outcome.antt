-- ===== src/Outcome.antt =====
-- How a handler of the server or the client ends, and what it meets outside the program.
use upush_chat.Base.{
  ℕ, ◌≡◌, refl, Option, none, some, List, Bytes, leb, if◌then◌else◌, length, get_elem?,
}
use upush_chat.Common.{bufsize}

-- `quit` is the end of the process by `quit_server`, `quit_client` or `exit`; `fault` is undefined
-- behaviour: `NULL` or an unwritten pointer is followed, or a buffer is overrun.
pub data Outcome {ℓ} (A : Type ℓ) : Type ℓ where
  ok : A → Outcome A
  quit : Outcome A
  fault : Outcome A

infixl 5 ◌>>=◌ ◌>>◌
abbrev pub ◌>>=◌ {ℓ κ} : {A : Type ℓ} {B : Type κ} → Outcome A → (A → Outcome B) → Outcome B
ok a >>= f = f a
quit >>= f = quit
fault >>= f = fault

abbrev pub ◌>>◌ {ℓ} : {B : Type ℓ} → Outcome (Unit {0}) → Outcome B → Outcome B
m >> k = m >>= λ _. k

module _ {ℓ} {A : Type ℓ} where
  abbrev pub or_quit : Option A → Outcome A
  or_quit none = quit
  or_quit (some a) = ok a

  abbrev pub or_fault : Option A → Outcome A
  or_fault none = fault
  or_fault (some a) = ok a

  pub >>=-eq-ok {κ} :
      {B : Type κ} (first : Outcome A) (rest : A → Outcome B) {end : B}
      → (first >>= rest) ≡ ok end
      → (mid : A) × (first ≡ ok mid) × (rest mid ≡ ok end)
  >>=-eq-ok quit rest e = cc
  >>=-eq-ok fault rest e = cc
  >>=-eq-ok (ok mid) rest e = (mid, refl, e)

abbrev pub image {ℓ κ} : {A : Type ℓ} {B : Type κ} → (A → B) → Outcome A → Outcome B
image f (ok a) = ok (f a)
image f quit = quit
image f fault = fault

pub image-bind {ℓ κ μ ν} :
    {A : Type ℓ} {B : Type κ} {C : Type μ} {D : Type ν} (f : A → B) (g : C → D) (m : Outcome A)
    (k : A → Outcome C) (k' : B → Outcome D)
    → ((a : A) → m ≡ ok a → image g (k a) ≡ k' (f a))
    → image g (m >>= k) ≡ (image f m >>= k')
image-bind f g (ok a) k k' h = h a refl
image-bind f g quit k k' h = refl
image-bind f g fault k k' h = refl

pub image-after {ℓ κ ν} :
    {A : Type ℓ} {B : Type κ} {C : Type ν} (g : B → C) (m : Outcome A) (k : A → Outcome B)
    (k' : A → Outcome C)
    → ((a : A) → m ≡ ok a → image g (k a) ≡ k' a)
    → image g (m >>= k) ≡ (m >>= k')
image-after g (ok a) k k' h = h a refl
image-after g quit k k' h = refl
image-after g fault k k' h = refl

-- `parsed[i]`, where only the entries that hold a word may be followed.
abbrev pub entry : List Bytes → ℕ → Outcome Bytes
entry parsed i = or_fault (get_elem? parsed i)

-- `sprintf` of the text into a buffer of `BUFSIZE` bytes.
unfoldable pub sprintf : Bytes → Outcome Bytes
sprintf text = if leb bufsize (length text) then fault else ok text
