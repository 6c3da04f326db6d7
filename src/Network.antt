-- ===== src/Network.antt =====
-- Addresses, packets and send_packet.c. What the operating system provides is the parameter `Net`.
pub mod Laws
use upush_chat.Base.{
  ◌%◌, ◌-◌, ◌≢◌, ◌⊎◌, All, ℕ, ◌≤◌, ◌<◌, ◌≡◌, Bool, true, false, not, ◌||◌, Option, none, some, List,
  [], ◌∷◌, Bytes, ◌==◌, ltb, if◌then◌else◌, length,
}
use upush_chat.Int.{ℤ, pos, negsuc}
use upush_chat.TimeFunctions.{Timeval}

-- `sin_port` is in network byte order.
pub record SockaddrIn : Type 0 where
  pub sin_family : ℕ
  pub sin_port : ℕ
  pub s_addr : ℕ

abbrev pub IsAddressChar : ℕ → Type 0
IsAddressChar c = ((b'0' ≤ c) × (c ≤ b'9')) ⊎ (c ≡ b'.')

-- The functions of the socket library. `inet_ntop` and `inet_pton` are taken at `AF_INET`; `none`
-- stands for `NULL` and for the result 0.
pub record Net : Type 0 where
  pub af_inet : ℕ
  pub htons : ℕ → ℕ
  pub ntohs : ℕ → ℕ
  pub inet_ntop : ℕ → Option Bytes
  pub inet_pton : Bytes → Option ℕ
  -- Ports have 16 bits, and the two conversions undo each other.
  pub ntohs_lt : (p : ℕ) → ntohs p < 65536
  pub htons-ntohs : (p : ℕ) → p < 65536 → htons (ntohs p) ≡ p
  -- The text of an address has at most 15 characters, digits and dots, and is read back as that
  -- address.
  pub length-inet_ntop : (a : ℕ) (text : Bytes) → inet_ntop a ≡ some text → length text ≤ 15
  pub inet_ntop-chars :
      (a : ℕ) (text : Bytes) → inet_ntop a ≡ some text → (text ≢ []) × All IsAddressChar text
  pub inet_pton-inet_ntop :
      (a : ℕ) (text : Bytes) → inet_ntop a ≡ some text → inet_pton text ≡ some a

-- `none` is `NULL`.
unfoldable pub is_same_address : Option SockaddrIn → Option SockaddrIn → Bool
is_same_address none b = false
is_same_address (some a) none = false
is_same_address (some a) (some b) =
    if not (a.sin_family == b.sin_family)
    then false
    else if not (a.sin_port == b.sin_port)
    then false
    else if not (a.s_addr == b.s_addr)
    then false
    else true

-- `get_ip_and_port_from_sockaddr_in`; `none` is the result 0.
unfoldable pub get_ip_and_port : Net → SockaddrIn → Option (Bytes × ℕ)
get_ip_and_port net src = elim (net.inet_ntop src.s_addr) [
  | none ↦ none
  | some ip_address ↦
      let client_port = net.ntohs src.sin_port in
      if ltb client_port 1024 || ltb 65535 client_port then none else some (ip_address, client_port)
]

pub record Packet : Type 0 where
  pub dest : SockaddrIn
  pub payload : Bytes

-- What the calls that one round of a handler makes return: the time (`none` for -1), whether each
-- allocation succeeds, whether the packet is drawn to be lost, and whether `sendto` succeeds.
pub record Env : Type 0 where
  pub now : Option Timeval
  pub client_block : Bool
  pub nick_copy : Bool
  pub ip_copy : Bool
  pub node_block : Bool
  pub lost : Bool
  pub sendto_works : Bool

-- The packets that reach the network; `none` is the result -1.
unfoldable pub send_packet : Env → Packet → Option (List Packet)
send_packet env packet =
    if env.lost then some [] else if env.sendto_works then some (packet ∷ []) else none

-- `(uint16_t) port`
abbrev pub to_uint16 : ℤ → ℕ
to_uint16 (pos n) = n % 65536
to_uint16 (negsuc n) = 65535 - n % 65536

-- The address `NULL` stands for every address of the host, `INADDR_ANY`, which is 0. `none` is the
-- result 0, that the text is no address; the result -1, for an unknown family, does not occur.
unfoldable pub set_values_in_IPv4_addr : Net → Option Bytes → ℤ → Option SockaddrIn
set_values_in_IPv4_addr net none port =
    some (record { sin_family = net.af_inet; sin_port = net.htons (to_uint16 port); s_addr = 0 })
set_values_in_IPv4_addr net (some ip) port = elim (net.inet_pton ip) [
  | none ↦ none
  | some a ↦
      some (record { sin_family = net.af_inet; sin_port = net.htons (to_uint16 port); s_addr = a })
]
