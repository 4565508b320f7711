-- ===== src/ControlNode/Cluster/Rebalanced.antt =====
-- The whole of re_balance, on the map that the processes are together.
use distributed_rocks_db_tes.Prelude.{
  ℕ, zero, suc, ◌+◌, ◌-◌, ◌≡◌, refl, sym, ap, ◌∙◌, true, some, List, [], ◌∷◌, ◌++◌, length, arith,
  ◌<◌, length-append, subst, append_assoc,
}
use distributed_rocks_db_tes.Prelude.Bytes.{Bytes, codes}
use distributed_rocks_db_tes.HandleBuff.{to_int}
use distributed_rocks_db_tes.Rocks.{Rocks, IsRocks}
use distributed_rocks_db_tes.Rocks.Entries.{Rows, on, off, next, first, is_on}
use distributed_rocks_db_tes.ControlNode.ControlMeta.{ControlMeta, int_text, show}
use distributed_rocks_db_tes.ControlNode.ControlImpl.{get_size, meta_at, ControlImpl}
use distributed_rocks_db_tes.ControlNode.ControlImpl.Balance.{
  Share, sum_sizes, show_from, show_meta, re_balance, pass_up, pass_down,
}
use distributed_rocks_db_tes.ControlNode.ControlImpl.Ends.{get_size_any}
use distributed_rocks_db_tes.ControlNode.Cluster.{
  Shard, meta_of, meta_row, metas, IsShard, IsCluster,
}
use distributed_rocks_db_tes.ControlNode.Cluster.Shards.{All-here, node_at-here}
use distributed_rocks_db_tes.ControlNode.Cluster.Search.{meta_at-row}
use distributed_rocks_db_tes.ControlNode.Cluster.Sides.{asked-IsCluster}
use distributed_rocks_db_tes.ControlNode.Cluster.Counts.{entries, IsSame, IsSame-trans}
use distributed_rocks_db_tes.ControlNode.Cluster.Passes.{last_shard, pass_up_from, pass_down_from}

one_less : (n : ℕ) → suc n - 1 ≡ n
one_less n = omega arith

-- What a process adds to the text.
abbrev with_line : Bytes → ℕ → ControlMeta → Bytes
with_line text size m = text ++ (codes "size == " ++ (int_text size ++ ((10 ∷ []) ++ show m)))

module _ {Db Iterator : Type 0} (r : Rocks Db Iterator) (laws : IsRocks r) where
  open laws use {position}

  sum_sizes-IsCluster :
      (share : Share) (before after : List Shard) (total : ℕ) {c : ControlImpl Db}
      → IsCluster r laws (before ++ after) c
      → (c' : ControlImpl Db) × (n : ℕ) × (sum_sizes r share (length after) (length before) total c
          ≡ some (c', n))
        × IsCluster r laws (before ++ after) c'
  unfolding sum_sizes
  sum_sizes-IsCluster share before [] total {c} h = (c, total, refl, h)
  sum_sizes-IsCluster share before (s ∷ after) total h =
      let (c1, size, e1, g1, only1) =
        get_size_any r laws (h.reached (length before) s (node_at-here before s after)) in
      let whole : (before ++ (s ∷ [])) ++ after ≡ before ++ (s ∷ after) =
        append_assoc before (s ∷ []) after in
      let h1 = asked-IsCluster r laws before s after h g1 only1 in
      let (c2, n, e2, h2) =
        sum_sizes-IsCluster share (before ++ (s ∷ [])) after (to_int (total + size))
          (subst (λ (l : List Shard). IsCluster r laws l c1) (sym whole) h1) in
      (
        c2,
        n,
        rw e1 (
            subst
              (λ (k : ℕ).
                sum_sizes r share (length after) k (to_int (total + size)) c1 ≡ some (c2, n))
              (length-append before (s ∷ [])) e2),
        subst (λ (l : List Shard). IsCluster r laws l c2) whole h2,
      )

  show_off :
      (fuel : ℕ) (it : Iterator) (rows : Rows) (text : Bytes) (c : ControlImpl Db)
      → position it ≡ off rows
      → show_from r (suc fuel) it text c ≡ some (c, text)
  unfolding show_from is_on
  show_off fuel it rows text c p = rw (laws.valid_lem it ∙ ap is_on p, show_from) refl

  show_step :
      (fuel : ℕ) (it : Iterator) (text : Bytes) (m : ControlMeta) (size : ℕ) (c c1 : ControlImpl Db)
      → r.valid it ≡ true
      → meta_at r it ≡ some m
      → get_size r m.virtual_fd c ≡ some (c1, size)
      → show_from r (suc fuel) it text c ≡ show_from r fuel (r.next it) (with_line text size m) c1
  unfolding show_from
  show_step fuel it text m size c c1 valid at asked = rw (valid, at, asked, show_from) refl

  -- The loop of show_meta, from the metadata of a process on.
  show_on :
      (fuel : ℕ) (before : List Shard) (s : Shard) (after : List Shard) (b : Rows) (it : Iterator)
      (text : Bytes) {c : ControlImpl Db}
      → position it ≡ on b (meta_row (length before) s) (metas (suc (length before)) after)
      → length after < fuel
      → IsCluster r laws (before ++ (s ∷ after)) c
      → (c' : ControlImpl Db) × (text' : Bytes) × (show_from r (suc fuel) it text c
          ≡ some (c', text'))
        × IsCluster r laws (before ++ (s ∷ after)) c'
  unfolding is_on next
  show_on zero before s after b it text p enough h = absurd (omega (arith, enough))
  show_on (suc fuel) before s [] b it text {c} p enough h =
      let n : ℕ = length before in
      let (c1, size, e1, g1, only1) =
        get_size_any r laws (h.reached n s (node_at-here before s [])) in
      let q =
        meta_at-row r laws it b [] n s p (All-here IsShard before s [] h.are_shards)
          (omega (arith, h.few, length-append before (s ∷ []))) in
      (
        c1,
        with_line text size (meta_of n s),
        show_step (suc fuel) it text (meta_of n s) size c c1 (laws.valid_lem it ∙ ap is_on p) q e1
            ∙ (show_off fuel (r.next it) _ (with_line text size (meta_of n s)) c1
                (laws.position-next it b (meta_row n s) [] p)),
        asked-IsCluster r laws before s [] h g1 only1,
      )
  show_on (suc fuel) before s (t ∷ after) b it text {c} p enough h =
      let n : ℕ = length before in
      let (c1, size, e1, g1, only1) =
        get_size_any r laws (h.reached n s (node_at-here before s (t ∷ after))) in
      let h1 = asked-IsCluster r laws before s (t ∷ after) h g1 only1 in
      let q =
        meta_at-row r laws it b _ n s p (All-here IsShard before s (t ∷ after) h.are_shards)
          (omega (arith, h.few, length-append before (s ∷ (t ∷ after)))) in
      let whole : (before ++ (s ∷ [])) ++ (t ∷ after) ≡ before ++ (s ∷ (t ∷ after)) =
        append_assoc before (s ∷ []) (t ∷ after) in
      let size_front : length (before ++ (s ∷ [])) ≡ suc n =
        omega (arith, length-append before (s ∷ [])) in
      let place : position (r.next it)
          ≡ on (meta_row n s ∷ b) (meta_row (length (before ++ (s ∷ []))) t)
              (metas (suc (length (before ++ (s ∷ [])))) after) =
        laws.position-next it b (meta_row n s) (metas (suc n) (t ∷ after)) p
        ∙ ap (λ (k : ℕ). on (meta_row n s ∷ b) (meta_row k t) (metas (suc k) after))
            (sym size_front) in
      let (c2, text', e2, h2) =
        show_on fuel (before ++ (s ∷ [])) t after (meta_row n s ∷ b) (r.next it)
          (with_line text size (meta_of n s)) place (omega (arith, enough))
          (subst (λ (l : List Shard). IsCluster r laws l c1) (sym whole) h1) in
      (
        c2,
        text',
        show_step (suc fuel) it text (meta_of n s) size c c1 (laws.valid_lem it ∙ ap is_on p) q e1
            ∙ e2,
        subst (λ (l : List Shard). IsCluster r laws l c2) whole h2,
      )

  show_meta-IsCluster :
      (fuel : ℕ) (s : Shard) (after : List Shard) {c : ControlImpl Db}
      → length (s ∷ after) < fuel
      → IsCluster r laws (s ∷ after) c
      → (c' : ControlImpl Db) × (text : Bytes) × (show_meta r fuel c ≡ some (c', text))
        × IsCluster r laws (s ∷ after) c'
  unfolding show_meta first
  show_meta-IsCluster zero s after enough h = absurd (omega (arith, enough))
  show_meta-IsCluster (suc fuel) s after {c} enough h =
      show_on fuel [] s after [] (r.seek_to_first (r.new_iterator c.meta_db.db)) []
        (laws.position-seek_to_first _
          ∙ ap first (laws.rows_of-new_iterator c.meta_db.db ∙ h.has_metas))
        (omega (arith, enough)) h

  shown :
      (fuel : ℕ) (shards : List Shard) {c : ControlImpl Db}
      → length shards < fuel
      → IsCluster r laws shards c
      → (c' : ControlImpl Db) × (text : Bytes) × (show_meta r fuel c ≡ some (c', text))
        × IsCluster r laws shards c'
  shown fuel [] enough h = absurd (h.not_empty refl)
  shown fuel (s ∷ after) enough h = show_meta-IsCluster fuel s after enough h

  module _ (share : Share) (fuel : ℕ) where
    re_balance_steps :
        (n total : ℕ) (c c1 c2 c3 c4 : ControlImpl Db) (text : Bytes)
        → sum_sizes r share (suc n) 0 0 c ≡ some (c1, total)
        → pass_up r share n fuel 0 total (suc n) c1 ≡ some (c2, true)
        → pass_down r share n fuel total (suc n) c2 ≡ some (c3, true)
        → show_meta r fuel c3 ≡ some (c4, text)
        → re_balance r share fuel (suc n) c ≡ some c4
    unfolding re_balance
    re_balance_steps n total c c1 c2 c3 c4 text e1 e2 e3 e4 =
        rw (e1, one_less n, e2, one_less n, e3, e4) refl

    -- Where the processes are one map, and the fuel is more than there are processes and more than
    -- there are entries, re_balance ends, and the processes are then the same map.
    pub re_balance-IsCluster :
        (shards : List Shard) {c : ControlImpl Db}
        → IsCluster r laws shards c
        → entries shards < fuel
        → length shards < fuel
        → (c' : ControlImpl Db) × (shards' : List Shard) × (re_balance r share fuel
              (length shards)
              c
            ≡ some c')
          × IsCluster r laws shards' c'
          × IsSame shards shards'
    re_balance-IsCluster [] h enough enough' = absurd (h.not_empty refl)
    re_balance-IsCluster (s ∷ after) {c} h enough enough' =
        let (c1, total, e1, h1) = sum_sizes-IsCluster share [] (s ∷ after) 0 h in
        let (c2, shards2, e2, h2, same2) =
          pass_up_from r laws share total (suc (length after)) fuel [] s after h1 enough in
        let (front, t, p, q) = last_shard (length after) shards2 same2.same_count in
        let (c3, shards3, e3, h3, same3) =
          pass_down_from r laws share total (suc (length after)) fuel (length after) front t [] q
            (subst (λ (l : List Shard). IsCluster r laws l c2) p h2)
            (omega (arith, enough, same2.bounded, ap entries p)) in
        let same : IsSame (s ∷ after) shards3 =
          IsSame-trans same2 (subst (λ (l : List Shard). IsSame l shards3) (sym p) same3) in
        let (c4, text, e4, h4) = shown fuel shards3 (omega (arith, enough', same.same_count)) h3 in
        (
          c4,
          shards3,
          re_balance_steps (length after) total c c1 c2 c3 c4 text e1 e2 e3 e4,
          h4,
          same,
        )
