-- ===== src/Server/Main.antt =====
-- upush_server.c: the whole program, from its parameters through its loop.
use upush_chat.Base.{
  ℕ, ◌≤◌, ◌<◌, ◌≡◌, ◌≢◌, false, some, List, [], ◌∷◌, arith, Bytes, All, not, if◌then◌else◌, ◌||◌,
  ◌&&◌, Bool-cases, inl, inr,
}
use upush_chat.Int.{ℤ, pos, negsuc, eq_ℤ, ltb_ℤ}
use upush_chat.Strings.{atoi}
use upush_chat.Network.{Net, Env}
use upush_chat.Outcome.{Outcome, ok, quit, fault, ◌>>◌}
use upush_chat.Startup.{Startup, goes_on, exits, faults, System}
use upush_chat.Server.{Server, Event, serve}
use upush_chat.Server.Start.{Ready, start}
use upush_chat.Server.Started.{start_server_branches}
use upush_chat.Server.Safety.{IsOrdinary, serve-ne-fault}

-- `FD_SET` of a descriptor in a set of `fd_setsize` of them: outside of the set the behaviour is
-- undefined.
unfoldable pub fd_set : ℕ → ℤ → Outcome (Unit {0})
fd_set fd_setsize fd = if ltb_ℤ fd (pos 0) || not (ltb_ℤ fd (pos fd_setsize)) then fault else ok tt

-- What follows on the start: the socket is put into the set that `select` watches, and the loop
-- runs.
abbrev pub go_on_serving : Net → System → ℕ → List (Env × Event) → Startup Ready → Outcome Server
go_on_serving net sys fd_setsize events (goes_on ready) = do
  fd_set fd_setsize sys.socket
  serve net events ready.server
go_on_serving net sys fd_setsize events (exits status) = quit
go_on_serving net sys fd_setsize events faults = fault

-- `fd_setsize` is the system's `FD_SETSIZE`.
unfoldable pub main : Net → System → ℕ → List Bytes → List (Env × Event) → Outcome Server
unfolding start serve fd_set
main net sys fd_setsize argv events = go_on_serving net sys fd_setsize events (start net sys argv)

-- What `socket` returns: -1, or a descriptor that is in the set.
abbrev pub IsDescriptor : ℕ → ℤ → Type 0
IsDescriptor fd_setsize (pos fd) = fd < fd_setsize
IsDescriptor fd_setsize (negsuc k) = k ≡ 0

fd_set-descriptor :
    (fd_setsize : ℕ) (fd : ℤ)
    → IsDescriptor fd_setsize fd
    → eq_ℤ fd (negsuc 0) ≡ false
    → fd_set fd_setsize fd ≡ ok tt
unfolding fd_set
fd_set-descriptor fd_setsize (pos fd) h e = ground arith
fd_set-descriptor fd_setsize (negsuc k) h e = ground arith

module _ (net : Net) (sys : System) (program port_c p_loss : Bytes) (port loss fd_setsize : ℕ)
    (events : List (Env × Event)) where
  -- The server is started with a port from 1024 to 65535 and a loss percentage up to 100, its socket,
  -- if there is one, is a descriptor below `FD_SETSIZE`, and bind succeeds. Whether or not there is
  -- a socket and memory for the registry, over ASCII datagrams of fewer than 4068 bytes, with every
  -- copy of an address text succeeding, the program meets no undefined behaviour from its first
  -- line on.
  pub main-ne-fault :
      atoi port_c ≡ some (pos port)
      → atoi p_loss ≡ some (pos loss)
      → 1024 ≤ port
      → port ≤ 65535
      → loss ≤ 100
      → IsDescriptor fd_setsize sys.socket
      → eq_ℤ sys.bind (negsuc 0) ≡ false
      → All IsOrdinary events
      → main net sys fd_setsize (program ∷ port_c ∷ p_loss ∷ []) events ≢ fault
  unfolding main
  main-ne-fault p l least most percent descriptor bound ordinary e =
      let in_range : (ltb_ℤ (pos port) (pos 1024)
            || ltb_ℤ (pos 65535) (pos port)
            || (ltb_ℤ (pos loss) (pos 0) || ltb_ℤ (pos 100) (pos loss)))
          ≡ false =
        ground arith in
      let run =
        rw
          (
            start_server_branches net sys program port_c p_loss (pos port) (pos loss) p l,
            in_range,
            bound,
          )
          at e in
      let served =
        serve-ne-fault net events (record { client_list = []; network = [] })
          (record { distinct = tt; entries = tt }) tt ordinary in
      elim (Bool-cases (eq_ℤ sys.socket (negsuc 0))) [
        | inl failed ↦ let ended = rw failed at run in cc
        | inr created ↦ elim (Bool-cases (sys.blocks 0 && sys.blocks 1 && sys.blocks 2)) [
          | inl room ↦
              let watched = fd_set-descriptor fd_setsize sys.socket descriptor created in
              served (rw watched at (rw (created, room) at run))
          | inr full ↦ let ended = rw (created, full) at run in cc
        ]
      ]
