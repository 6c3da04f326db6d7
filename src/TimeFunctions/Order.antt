-- ===== src/TimeFunctions/Order.antt =====
-- The order and the differences of times.
use upush_chat.Base.{◌+◌, ◌*◌, ◌≡◌, ◌↔◌, ◌⊎◌, arith, Bool-cases, inl, inr}
use upush_chat.Int.{pos, negsuc, ◌≤ℤ◌, ◌<ℤ◌, eq_ℤ, pos_part, neg_part}
use upush_chat.TimeFunctions.{
  Timeval, compare_time, set_time_minus_time, set_time_difference, set_smallest_time,
}

-- The microseconds stand between 0 and a million.
abbrev pub IsNormal : Timeval → Type 0
IsNormal t = (pos 0 ≤ℤ t.tv_usec) × (t.tv_usec <ℤ pos 1000000)

-- The lexicographic order on seconds and microseconds.
abbrev pub Before : Timeval → Timeval → Type 0
Before s t = (s.tv_sec <ℤ t.tv_sec) ⊎ ((s.tv_sec ≡ t.tv_sec) × (s.tv_usec <ℤ t.tv_usec))

-- `d` is the time from `s` to `t`, counted in microseconds on both sides.
abbrev pub IsBetween : Timeval → Timeval → Timeval → Type 0
IsBetween s d t =
    pos_part s.tv_sec * 1000000
      + pos_part s.tv_usec
      + (pos_part d.tv_sec * 1000000 + pos_part d.tv_usec)
      + (neg_part t.tv_sec * 1000000 + neg_part t.tv_usec)
    ≡ neg_part s.tv_sec * 1000000
      + neg_part s.tv_usec
      + (neg_part d.tv_sec * 1000000 + neg_part d.tv_usec)
      + (pos_part t.tv_sec * 1000000 + pos_part t.tv_usec)

-- `compare_time` is 1, -1 or 0 exactly when the first time is later, earlier, or the same.
pub compare_time-Before :
    (s t : Timeval)
    → ((compare_time s t ≡ pos 1) ↔ Before t s)
      × ((compare_time s t ≡ negsuc 0) ↔ Before s t)
      × ((compare_time s t ≡ pos 0) ↔ (s ≡ t))
unfolding compare_time
compare_time-Before s t = ground arith

set_time_minus_time-IsBetween :
    (s t : Timeval)
    → IsNormal s
    → IsNormal t
    → IsNormal (set_time_minus_time t s) × IsBetween s (set_time_minus_time t s) t
unfolding set_time_minus_time
set_time_minus_time-IsBetween s t ns nt = ground arith

set_time_minus_time_nonneg :
    (s t : Timeval) → ¬ Before t s → pos 0 ≤ℤ (set_time_minus_time t s).tv_sec
unfolding set_time_minus_time
set_time_minus_time_nonneg s t h = ground arith

-- The difference of two normal times is normal, its seconds are not negative, and added to one of
-- the two times it gives the other.
pub set_time_difference-IsBetween :
    (s t : Timeval)
    → IsNormal s
    → IsNormal t
    → let d = set_time_difference s t in
      IsNormal d × (pos 0 ≤ℤ d.tv_sec) × (IsBetween s d t ⊎ IsBetween t d s)
unfolding set_time_difference
set_time_difference-IsBetween s t ns nt = elim (Bool-cases (eq_ℤ (compare_time s t) (pos 1))) [
  | inl e ↦ rw e (
      let (n, b) = set_time_minus_time-IsBetween t s nt ns in
      (n, set_time_minus_time_nonneg t s (unfold compare_time in ground arith), inr b))
  | inr e ↦ rw e (
      let (n, b) = set_time_minus_time-IsBetween s t ns nt in
      (n, set_time_minus_time_nonneg s t (unfold compare_time in ground arith), inl b))
]

-- `set_smallest_time` stores a time that neither argument is before, and says which one it is.
pub set_smallest_time-Before :
    (s t : Timeval)
    → let (b, which) = set_smallest_time s t in
      ¬ Before s b × ¬ Before t b × (((b ≡ s) × (which ≡ pos 1)) ⊎ ((b ≡ t) × (which ≡ pos 2)))
unfolding set_smallest_time
set_smallest_time-Before s t = ground arith
