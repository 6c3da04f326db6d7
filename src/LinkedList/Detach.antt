-- ===== src/LinkedList/Detach.antt =====
-- `ll_dettach_node` on a node between two others.
use upush_chat.Base.{◌≡◌, ◌≢◌, some, [], ◌∷◌, arith}
use upush_chat.Memory.{Ptr, null, node, Mem, ok, load, put, set_next, set_prev}
use upush_chat.LinkedList.{dettach_node}
use upush_chat.LinkedList.Shape.{
  Nodes, Cells, first, closed, Linked, SameOutside, Linked-frame, not-has-cons,
}

-- The cells after the node `b` between `a` and `c` is detached: `pa`, `da` and `qc`, `dc` are the
-- predecessor and data of `a` and the successor and data of `c`.
abbrev pub detached : Cells → (a b c pa da db qc dc : Ptr) → Cells
detached h a b c pa da db qc dc =
    put
      (put (put (put h c (some (node qc a dc))) a (some (node c pa da))) b (some (node null a db)))
      b (some (node null null db))

module _ (m : Mem) (a b c pa da db qc dc : Ptr) (ha : m.cells a ≡ some (node b pa da))
    (hb : m.cells b ≡ some (node c a db)) (hc : m.cells c ≡ some (node qc b dc)) (za : a ≢ null)
    (zb : b ≢ null) (zc : c ≢ null) (ab : a ≢ b) (ac : a ≢ c) (bc : b ≢ c) where
  pub dettach_node-detached :
      dettach_node b m ≡ ok tt (record m { cells = detached m.cells a b c pa da db qc dc })
  unfolding dettach_node load set_next set_prev put
  dettach_node-detached = ground arith

-- The chain closes over the gap, and the detached node points nowhere.
detached-Linked :
    (h : Cells) (prev a da b db c dc : Ptr) (post : Nodes)
    → Linked h prev null ((a, da) ∷ (b, db) ∷ (c, dc) ∷ post)
    → let g = detached h a b c prev da db (first post null) dc in
      Linked g prev null ((a, da) ∷ (c, dc) ∷ post)
      × (g b ≡ some (node null null db))
      × SameOutside ((a, da) ∷ (b, db) ∷ (c, dc) ∷ post) h g
unfolding put
detached-Linked h prev a da b db c dc post s = (
  (
    ground arith,
    s.1,
    ground arith,
    (ground arith, s.3.3.1, s.3.3.2, Linked-frame h _ c null post s.3.3.3 (λ x i. ground arith)),
  ),
  ground arith,
  λ x out. ground arith,
)

-- What holds once the node `b` behind `a` is detached, with `xs` between it and the tail `t`.
abbrev pub Detached : Mem → (prev a da b db t : Ptr) → Nodes → Cells → Type 0
Detached m prev a da b db t xs g =
    (dettach_node b m ≡ ok tt (record m { cells = g }))
    × Linked g prev null ((a, da) ∷ closed xs t)
    × (g b ≡ some (node null null db))
    × SameOutside ((a, da) ∷ (b, db) ∷ closed xs t) m.cells g

detach_next :
    (m : Mem) (prev a da b db c dc : Ptr) (post : Nodes)
    → Linked m.cells prev null ((a, da) ∷ (b, db) ∷ (c, dc) ∷ post)
    → dettach_node b m
      ≡ ok tt (record m { cells = detached m.cells a b c prev da db (first post null) dc })
detach_next m prev a da b db c dc post s =
    dettach_node-detached m a b c prev da db (first post null) dc s.0 s.3.0 s.3.3.0 s.1 s.3.1
      s.3.3.1 (not-has-cons a b db ((c, dc) ∷ post) s.2).0
      (not-has-cons a c dc post (not-has-cons a b db ((c, dc) ∷ post) s.2).1).0
      (not-has-cons b c dc post s.3.2).0

pub dettach_node-Detached :
    (m : Mem) (prev a da b db t : Ptr) (xs : Nodes)
    → Linked m.cells prev null ((a, da) ∷ (b, db) ∷ closed xs t)
    → (g : Cells) × Detached m prev a da b db t xs g
dettach_node-Detached m prev a da b db t [] s =
    let (chain, gone, same) = detached-Linked m.cells prev a da b db t null [] s in
    (_, (detach_next m prev a da b db t null [] s, chain, gone, same))
dettach_node-Detached m prev a da b db t ((c, dc) ∷ xs) s =
    let (chain, gone, same) = detached-Linked m.cells prev a da b db c dc (closed xs t) s in
    (_, (detach_next m prev a da b db c dc (closed xs t) s, chain, gone, same))
