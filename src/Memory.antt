-- ===== src/Memory.antt =====
-- The memory that the linked list works in, and the commands of C that read and write it.
--
-- `Mem.cells` gives the node at an address. `Mem.calls` records the data handed to a callback. A
-- result of `malloc` is an argument, `null` when memory is exhausted.
use upush_chat.Base.{ℕ, Option, none, some, List, [], ◌∷◌, ◌++◌, ◌==◌, if◌then◌else◌}

abbrev pub Ptr : Type 0
Ptr = ℕ

abbrev pub null : Ptr
null = 0

pub record Node : Type 0 where
  pub next : Ptr
  pub prev : Ptr
  pub datum : Ptr

abbrev pub node : (next prev datum : Ptr) → Node
node q p d = record { next = q; prev = p; datum = d }

pub record Mem : Type 0 where
  pub cells : Ptr → Option Node
  pub calls : List Ptr

-- `fault` is a read or write through `NULL` or through an address that holds no node.
pub data Run (A : Type 0) : Type 0 where
  ok : A → Mem → Run A
  fault : Run A
  out_of_fuel : Run A

abbrev pub Cmd : Type 0 → Type 0
Cmd A = Mem → Run A

abbrev pub pure : {A : Type 0} → A → Cmd A
pure a m = ok a m

module _ {A B : Type 0} where
  abbrev pub continue_with : Run A → (A → Cmd B) → Run B
  continue_with (ok a m) f = f a m
  continue_with fault f = fault
  continue_with out_of_fuel f = out_of_fuel

  infixl 5 ◌>>=◌ ◌>>◌
  abbrev pub ◌>>=◌ : Cmd A → (A → Cmd B) → Cmd B
  c >>= f = λ m. continue_with (c m) f

  abbrev pub ◌>>◌ : Cmd A → Cmd B → Cmd B
  c >> d = c >>= λ _. d

-- The cells after address `p` is given the contents `c`; `none` gives the address back.
unfoldable pub put : (Ptr → Option Node) → Ptr → Option Node → Ptr → Option Node
put cells p c a = if a == p then c else cells a

abbrev pub store : Ptr → Option Node → Cmd (Unit {0})
store p c m = ok tt (record m { cells = put m.cells p c })

unfoldable pub load : Ptr → Cmd Node
load p m = if p == null then fault else elim (m.cells p) [ none ↦ fault | some n ↦ ok n m ]

-- `p->next = q`, `p->prev = q` and `p->data = d`
unfoldable pub set_next : Ptr → Ptr → Cmd (Unit {0})
unfolding load
set_next p q = do n ← load p; store p (some (record n { next = q }))

unfoldable pub set_prev : Ptr → Ptr → Cmd (Unit {0})
unfolding load
set_prev p q = do n ← load p; store p (some (record n { prev = q }))

unfoldable pub set_datum : Ptr → Ptr → Cmd (Unit {0})
unfolding load
set_datum p d = do n ← load p; store p (some (record n { datum = d }))

-- What a fresh block holds is overwritten before it is read.
abbrev pub blank : Node
blank = node null null null

unfoldable pub malloc : Ptr → Cmd (Unit {0})
malloc p m = if p == null then ok tt m else store p (some blank) m

unfoldable pub free : Ptr → Cmd (Unit {0})
unfolding load
free p = do load p; store p none

abbrev pub call_back : Ptr → Cmd (Unit {0})
call_back d m = ok tt (record m { calls = m.calls ++ d ∷ [] })
