-- ===== src/ControlNode/Cluster/Exchanged.antt =====
-- A change of two processes beside each other leaves the processes one map.
use distributed_rocks_db_tes.ControlNode.ControlImpl.Changes.{meta_rows}
use distributed_rocks_db_tes.Prelude.{
  ℕ, suc, ◌≡◌, ◌≢◌, sym, ap, ◌∙◌, subst, List, [], ◌∷◌, ◌++◌, length, All, arith, inl, inr,
  length-append,
}
use distributed_rocks_db_tes.Rocks.{Rocks, IsRocks}
use distributed_rocks_db_tes.ControlNode.ControlImpl.{ControlImpl, node_at}
use distributed_rocks_db_tes.ControlNode.ControlImpl.Requests.{Reaches}
use distributed_rocks_db_tes.ControlNode.ControlImpl.Moves.{Moved}
use distributed_rocks_db_tes.ControlNode.Cluster.{
  Shard, meta_of, metas, IsShard, IsBelow, AreOrdered, IsCluster,
}
use distributed_rocks_db_tes.ControlNode.Cluster.Shards.{All-set, node_at-here, ordered-set}
use distributed_rocks_db_tes.ControlNode.Cluster.Changed.{
  same_or_other, same_reached, kept_reached, append-not_nil,
}
use distributed_rocks_db_tes.ControlNode.Cluster.Pairs.{
  behind, node_at-second, node_at-neither, ordered-pair, metas-pair, metas-pair_down,
  ordered-second, length-pair, not_first_of, not_second_of,
}

module _ {Db Iterator : Type 0} (r : Rocks Db Iterator) (laws : IsRocks r) (before : List Shard)
    (s t s' t' : Shard) (after : List Shard) {c c' : ControlImpl Db} where
  -- The two processes in the middle changed, their metadata with them.
  set_pair-IsCluster :
      IsCluster r laws (before ++ (s ∷ (t ∷ after))) c
      → meta_rows r laws c' ≡ metas 0 (before ++ (s' ∷ (t' ∷ after)))
      → IsShard s'
      → IsShard t'
      → Reaches r laws c' (length before) s'.stored []
      → Reaches r laws c' (suc (length before)) t'.stored []
      → ((other : ℕ)
          → other ≢ length before
          → other ≢ suc (length before)
          → node_at other c'.virtual_fd_2_net_file ≡ node_at other c.virtual_fd_2_net_file)
      → AreOrdered (before ++ (s' ∷ (t' ∷ after)))
      → IsCluster r laws (before ++ (s' ∷ (t' ∷ after))) c'
  set_pair-IsCluster h renewed shard shard' first second others order = record {
    has_metas = renewed;
    reached = λ i u p. elim (same_or_other i (length before)) [
      | inl same ↦
          same_reached r laws (before ++ (s' ∷ (t' ∷ after))) (node_at-here before s' (t' ∷ after))
            first same p
      | inr not_first ↦ elim (same_or_other i (suc (length before))) [
        | inl same ↦
            same_reached r laws (before ++ (s' ∷ (t' ∷ after)))
              (node_at-second before s t s' t' after) second same p
        | inr not_second ↦
            kept_reached r laws
              (h.reached i u (node_at-neither before s t s' t' after i not_first not_second ∙ p))
              (others i not_first not_second) first.send_room first.receive_room
      ]
    ];
    no_more =
        ap (λ (n : ℕ). node_at n c'.virtual_fd_2_net_file)
          (length-pair before s' t' after ∙ sym (length-pair before s t after))
        ∙ others (length (before ++ (s ∷ (t ∷ after))))
            (λ p.
              not_first_of (length before) (length after) (sym (length-pair before s t after) ∙ p))
            (λ p.
              not_second_of (length before) (length after) (sym (length-pair before s t after) ∙ p))
        ∙ h.no_more;
    are_shards = subst (All IsShard) (behind before s t s' t' after t') (
        All-set IsShard (before ++ (s' ∷ [])) t t' after
          (subst (All IsShard) (sym (behind before s t s' t' after t))
            (All-set IsShard before s s' (t ∷ after) h.are_shards shard))
          shard');
    are_ordered = order;
    not_empty = append-not_nil before s' (t' ∷ after);
    few = omega (
      arith,
      h.few,
      length-append before (s ∷ (t ∷ after)),
      length-append before (s' ∷ (t' ∷ after)),
    );
  }

  -- A round moved an entry to the process behind.
  pub moved_up-IsCluster :
      (it beside : Iterator)
      → IsCluster r laws (before ++ (s ∷ (t ∷ after))) c
      → r.key it ≡ s.low
      → r.key beside ≡ t.low
      → IsShard s'
      → IsShard t'
      → Reaches r laws c' (length before) s'.stored []
      → Reaches r laws c' (suc (length before)) t'.stored []
      → Moved r laws it beside
          (meta_of (length before) s')
          (meta_of (suc (length before)) t')
          (length before)
          (suc (length before))
          c
          c'
      → All (λ u. IsBelow u s') before
      → All (IsBelow s') (t ∷ after)
      → All (λ u. IsBelow u t') (before ++ (s' ∷ []))
      → All (IsBelow t') after
      → IsCluster r laws (before ++ (s' ∷ (t' ∷ after))) c'
  moved_up-IsCluster it beside h at at' shard shard' first second moved below above below' above' =
      set_pair-IsCluster h
        (moved.new_metas
          ∙ (rw (at, at', h.has_metas)
              (metas-pair before s t s' t' after below above below' above' h.are_ordered)))
        shard shard' first second moved.same_others
        (ordered-pair before s t s' t' after below above below' above' h.are_ordered)

  -- A round moved an entry to the process before.
  pub moved_down-IsCluster :
      (it beside : Iterator)
      → IsCluster r laws (before ++ (s ∷ (t ∷ after))) c
      → r.key it ≡ t.low
      → r.key beside ≡ s.low
      → IsShard s'
      → IsShard t'
      → Reaches r laws c' (length before) s'.stored []
      → Reaches r laws c' (suc (length before)) t'.stored []
      → Moved r laws it beside
          (meta_of (suc (length before)) t')
          (meta_of (length before) s')
          (suc (length before))
          (length before)
          c
          c'
      → All (λ u. IsBelow u t') (before ++ (s ∷ []))
      → All (IsBelow t') after
      → All (λ u. IsBelow u s') before
      → All (IsBelow s') (t' ∷ after)
      → IsCluster r laws (before ++ (s' ∷ (t' ∷ after))) c'
  moved_down-IsCluster it beside h at at' shard shard' first second moved below above below'
        above' =
      set_pair-IsCluster h
        (moved.new_metas
          ∙ (rw (at, at', h.has_metas)
              (metas-pair_down before s t s' t' after below above below' above' h.are_ordered)))
        shard shard' first second (λ other p q. moved.same_others other q p)
        (ordered-set before s s' (t' ∷ after)
          (ordered-second before s t s' t' after below above h.are_ordered) below' above')
