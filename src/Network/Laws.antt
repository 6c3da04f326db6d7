-- ===== src/Network/Laws.antt =====
-- Addresses compared with themselves.
use upush_chat.Base.{◌≡◌, true, some, arith}
use upush_chat.Network.{SockaddrIn, is_same_address}

pub is_same_address_self : (a : SockaddrIn) → is_same_address (some a) (some a) ≡ true
unfolding is_same_address
is_same_address_self a = ground arith
