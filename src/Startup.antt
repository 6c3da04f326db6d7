-- ===== src/Startup.antt =====
-- common.c and send_packet.c: what both programs do before their loops, and how that may end.
use upush_chat.Base.{
  ℕ, ◌+◌, ◌≡◌, refl, Bool, true, false, ◌||◌, Option, none, some, List, [], Bytes, if◌then◌else◌,
}
use upush_chat.Int.{ℤ, pos, negsuc, eq_ℤ, ltb_ℤ}
use upush_chat.Strings.{atoi}

pub data ExitStatus : Type 0 where
  success : ExitStatus
  failure : ExitStatus

-- `faults` is undefined behaviour: `NULL` or what stands behind `argv` is used as a string, a
-- number does not fit into an `int`, or a list that was not created is freed.
pub data Startup {ℓ} (A : Type ℓ) : Type ℓ where
  goes_on : A → Startup A
  exits : ExitStatus → Startup A
  faults : Startup A

infixl 5 ◌>>=◌ ◌>>◌
abbrev pub ◌>>=◌ {ℓ κ} : {A : Type ℓ} {B : Type κ} → Startup A → (A → Startup B) → Startup B
goes_on a >>= f = f a
exits status >>= f = exits status
faults >>= f = faults

abbrev pub ◌>>◌ {ℓ} : {B : Type ℓ} → Startup (Unit {0}) → Startup B → Startup B
m >> k = m >>= λ _. k

abbrev pub or_fault {ℓ} : {A : Type ℓ} → Option A → Startup A
or_fault none = faults
or_fault (some a) = goes_on a

pub >>=-eq-goes_on {ℓ κ} :
    {A : Type ℓ} {B : Type κ} (first : Startup A) (rest : A → Startup B) {end : B}
    → (first >>= rest) ≡ goes_on end
    → (mid : A) × (first ≡ goes_on mid) × (rest mid ≡ goes_on end)
>>=-eq-goes_on (goes_on mid) rest e = (mid, refl, e)
>>=-eq-goes_on (exits status) rest e = cc
>>=-eq-goes_on faults rest e = cc

-- What the calls return: the descriptor of the socket, `bind`, the allocations as they are
-- numbered, and the first `select`.
pub record System : Type 0 where
  pub socket : ℤ
  pub bind : ℤ
  pub blocks : ℕ → Bool
  pub first_select : ℤ

unfoldable pub check_error_perror : ℤ → Bool
check_error_perror res = if eq_ℤ res (negsuc 0) then true else false

unfoldable pub check_zero_error_stderr : ℤ → Bool
check_zero_error_stderr res = if eq_ℤ res (pos 0) then true else false

-- `none` is `NULL`.
unfoldable pub check_null_error_stderr {ℓ} : {A : Type ℓ} → Option A → Bool
check_null_error_stderr none = true
check_null_error_stderr (some a) = false

unfoldable pub create_IPv4_udp_socket : System → ℤ
create_IPv4_udp_socket sys = sys.socket

unfoldable pub bind_sockaddr_to_fd : System → ℤ
bind_sockaddr_to_fd sys = sys.bind

-- The loss probability in percent; the code divides it by 100.
unfoldable pub try_to_set_loss_probability : Bytes → Startup ℤ
unfolding atoi
try_to_set_loss_probability p_loss = do
  loss_int ← or_fault (atoi p_loss)
  if ltb_ℤ loss_int (pos 0) || ltb_ℤ (pos 100) loss_int then exits failure else goes_on loss_int

-- `malloc` under the number `i`.
unfoldable pub malloc : System → ℕ → Option (Unit {0})
malloc sys i = if sys.blocks i then some tt else none

-- `ll_create_base_linked_list`, by the allocations from the number `i` on: the list is empty.
unfoldable pub create_list {ℓ} : {A : Type ℓ} → System → ℕ → Option (List A)
unfolding malloc check_null_error_stderr
create_list sys i =
    if check_null_error_stderr (malloc sys i)
    then none
    else if check_null_error_stderr (malloc sys (i + 1))
    then none
    else if check_null_error_stderr (malloc sys (i + 2))
    then none
    else some []

-- `toggle_binary`, which nothing calls.
unfoldable pub toggle_binary : ℤ → ℤ
toggle_binary number =
    let first = if eq_ℤ number (pos 0) then pos 1 else number in
    if eq_ℤ first (pos 1) then pos 0 else first
