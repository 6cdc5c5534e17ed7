-- ===== src/Attention/Places.antt =====
-- Where the simple kernel writes.
use insist.Base.{
  ℕ, ◌+◌, ◌*◌, ◌/◌, ◌%◌, ◌≤◌, ◌<◌, ◌≡◌, refl, sym, ap, subst, ◌∙◌, arith, false, ltb, ◌==◌,
  if◌then◌else◌, if-cases, ltb→lt,
}
use insist.Base.Loops.{for_below, for_below-keeps, for_below-reaches}
use insist.Base.Arrays.{write}
use insist.Floats.{Floats}
use insist.Attention.{warp_size, max_d, max_d_per_lane, Shape, bh_base, write_back}
use insist.Attention.Simple.{keys, flash_attention_simple_kernel, launch}
use insist.Attention.Formula.{cell, cell-eq, cell-apart}

module _ (fl : Floats) (sh : Shape) (q k v : ℕ → fl.Float) where
  open fl use {Float, over}

  -- What a lane has for its cell `t`.
  unfoldable pub lane_result : (b h i lane t : ℕ) → Float
  lane_result b h i lane t = let s = keys fl sh q k v (bh_base sh b h) i lane in over (s.acc t) s.l

  -- One round of a lane's loop over its cells.
  store : (b h i lane t : ℕ) → (ℕ → Float) → ℕ → Float
  store b h i lane t out =
      if ltb (lane + t * warp_size) sh.dim
      then write (bh_base sh b h + i * sh.dim + (lane + t * warp_size)) (lane_result b h i lane t)
          out
      else out

  launch_stores :
      (batches : ℕ) (o : ℕ → Float)
      → launch fl sh q k v batches o
        ≡ (for_below batches λ b. for_below sh.heads λ h.
              for_below sh.rows
                λ i. for_below warp_size λ lane. for_below max_d_per_lane (store b h i lane))
            o
  unfolding launch flash_attention_simple_kernel write_back store lane_result
  launch_stores batches o = refl

  module _ {κ} (P : (ℕ → Float) → Type κ) (batches : ℕ)
      (keep : (b h i lane t : ℕ) (u : ℕ → Float)
        → b < batches
        → h < sh.heads
        → i < sh.rows
        → t < max_d_per_lane
        → lane + t * warp_size < sh.dim
        → P u
        → P (write (cell sh b h i (lane + t * warp_size)) (lane_result b h i lane t) u)) where
    store-keeps :
        (b h i lane t : ℕ) (u : ℕ → Float)
        → b < batches
        → h < sh.heads
        → i < sh.rows
        → t < max_d_per_lane
        → P u
        → P (store b h i lane t u)
    unfolding store
    store-keeps b h i lane t u hb hh hi ht p =
        if-cases P (ltb (lane + t * warp_size) sh.dim)
          (λ inside.
            subst (λ (x : ℕ). P (write x (lane_result b h i lane t) u))
              (sym (cell-eq sh b h i (lane + t * warp_size)))
              (keep b h i lane t u hb hh hi ht (ltb→lt _ _ inside) p))
          (λ _. p)

    lane-keeps :
        (b h i lane : ℕ) (u : ℕ → Float)
        → b < batches
        → h < sh.heads
        → i < sh.rows
        → P u
        → P (for_below max_d_per_lane (store b h i lane) u)
    lane-keeps b h i lane u hb hh hi p =
        for_below-keeps P max_d_per_lane (store b h i lane) u
          (λ t w ht. store-keeps b h i lane t w hb hh hi ht) p

    row-keeps :
        (b h i : ℕ) (u : ℕ → Float)
        → b < batches
        → h < sh.heads
        → i < sh.rows
        → P u
        → P (for_below warp_size (λ lane. for_below max_d_per_lane (store b h i lane)) u)
    row-keeps b h i u hb hh hi p =
        for_below-keeps P warp_size _ u (λ lane w _. lane-keeps b h i lane w hb hh hi) p

    head-keeps :
        (b h : ℕ) (u : ℕ → Float)
        → b < batches
        → h < sh.heads
        → P u
        → P (
            (for_below sh.rows
                λ i. for_below warp_size λ lane. for_below max_d_per_lane (store b h i lane))
              u)
    head-keeps b h u hb hh p =
        for_below-keeps P sh.rows _ u (λ i w hi. row-keeps b h i w hb hh hi) p

    batch-keeps :
        (b : ℕ) (u : ℕ → Float)
        → b < batches
        → P u
        → P (
            (for_below sh.heads λ h.
                for_below sh.rows
                  λ i. for_below warp_size λ lane. for_below max_d_per_lane (store b h i lane))
              u)
    batch-keeps b u hb p = for_below-keeps P sh.heads _ u (λ h w hh. head-keeps b h w hb hh) p

    -- What every write keeps, the launch keeps.
    pub launch-keeps : (o : ℕ → Float) → P o → P (launch fl sh q k v batches o)
    launch-keeps o p =
        subst P (sym (launch_stores batches o))
          (for_below-keeps P batches _ o (λ b w hb. batch-keeps b w hb) p)

    -- What one write brings about, too.
    pub launch-reaches :
        (b h i lane t : ℕ) (o : ℕ → Float)
        → b < batches
        → h < sh.heads
        → i < sh.rows
        → lane < warp_size
        → t < max_d_per_lane
        → lane + t * warp_size < sh.dim
        → ((u : ℕ → Float)
            → P (write (cell sh b h i (lane + t * warp_size)) (lane_result b h i lane t) u))
        → P (launch fl sh q k v batches o)
    launch-reaches b h i lane t o hb hh hi hl ht inside reach =
        subst P (sym (launch_stores batches o)) (
          for_below-reaches P b batches _ o hb (λ b' w hb'. batch-keeps b' w hb')
            λ o1.
              for_below-reaches P h sh.heads _ o1 hh (λ h' w hh'. head-keeps b h' w hb hh')
                λ o2.
                  for_below-reaches P i sh.rows _ o2 hi (λ i' w hi'. row-keeps b h i' w hb hh hi')
                    λ o3.
                      for_below-reaches P lane warp_size _ o3 hl
                        (λ lane' w _. lane-keeps b h i lane' w hb hh hi)
                        λ o4.
                          for_below-reaches P t max_d_per_lane _ o4 ht
                            (λ t' w ht'. store-keeps b h i lane t' w hb hh hi ht') λ u. stored u)
      where
        stored : (u : ℕ → Float) → P (store b h i lane t u)
        stored u =
            unfold store in
            if-cases P (ltb (lane + t * warp_size) sh.dim)
              (λ _.
                subst (λ (x : ℕ). P (write x (lane_result b h i lane t) u))
                  (sym (cell-eq sh b h i (lane + t * warp_size))) (reach u))
              (λ out. absurd (ground (arith, out)))

  -- If the lanes have the values of a table, the launch fills the array with the table.
  pub launch-table :
      (table : (b h i d : ℕ) → Float)
      → ((b h i lane t : ℕ)
          → t < max_d_per_lane
          → lane + t * warp_size < sh.dim
          → lane_result b h i lane t ≡ table b h i (lane + t * warp_size))
      → sh.dim ≤ max_d
      → (batches b h i d : ℕ) (o : ℕ → Float) → b < batches
      → h < sh.heads
      → i < sh.rows
      → d < sh.dim
      → launch fl sh q k v batches o (cell sh b h i d) ≡ table b h i d
  unfolding write
  launch-table table agrees narrow batches b h i d o hb hh hi hd =
      launch-reaches Right batches
        (λ b' h' i' lane t u hb' hh' hi' ht inside p.
          if-cases (λ a. a ≡ table b h i d)
            (cell sh b h i d == cell sh b' h' i' (lane + t * warp_size))
            (λ hit.
              agrees b' h' i' lane t ht inside
              ∙ same b' h' i' (lane + t * warp_size) (
                  cell-apart sh b h i d b' h' i' (lane + t * warp_size) hh hi hd hh' hi' inside
                    (ground (arith, hit))))
            (λ _. p))
        b h i (d % warp_size) (d / warp_size) o hb hh hi (omega arith) (omega arith) (omega arith)
        (λ u.
          if-cases (λ a. a ≡ table b h i d)
            (cell sh b h i d == cell sh b h i (d % warp_size + d / warp_size * warp_size))
            (λ _.
              agrees b h i (d % warp_size) (d / warp_size) (omega arith) (omega arith)
              ∙ ap (table b h i) (omega arith))
            (λ out. absurd (missed out)))
    where
      Right : (ℕ → Float) → Type 0
      Right u = u (cell sh b h i d) ≡ table b h i d

      column : d ≡ d % warp_size + d / warp_size * warp_size
      column = omega arith

      missed :
          (cell sh b h i d == cell sh b h i (d % warp_size + d / warp_size * warp_size)) ≡ false → ⊥
      missed out = ground (arith, out, ap (cell sh b h i) column)

      same :
          (b' h' i' d' : ℕ)
          → (b ≡ b') × (h ≡ h') × (i ≡ i') × (d ≡ d')
          → table b' h' i' d' ≡ table b h i d
      same b' h' i' d' (eb, eh, ei, ed) =
          ap (λ (x : ℕ). table x h' i' d') (sym eb)
          ∙ ap (λ (x : ℕ). table b x i' d') (sym eh)
          ∙ ap (λ (x : ℕ). table b h x d') (sym ei)
          ∙ ap (table b h i) (sym ed)
