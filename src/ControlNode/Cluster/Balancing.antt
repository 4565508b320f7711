-- ===== src/ControlNode/Cluster/Balancing.antt =====
-- A round of the balancing, on the map that the processes are together.
use distributed_rocks_db_tes.Prelude.{
  suc, ◌≡◌, sym, subst, true, some, List, [], ◌∷◌, ◌++◌, length, All, arith,
}
use distributed_rocks_db_tes.Prelude.Bytes.{Bytes, lt_bytes, lt_bytes_trans}
use distributed_rocks_db_tes.Rocks.{Rocks, IsRocks}
use distributed_rocks_db_tes.Rocks.Entries.{Entry, Rows, IsSorted, insert, erase}
use distributed_rocks_db_tes.ControlNode.ControlImpl.{ControlImpl, find}
use distributed_rocks_db_tes.ControlNode.ControlImpl.Requests.{Reaches}
use distributed_rocks_db_tes.ControlNode.ControlImpl.Balance.{move}
use distributed_rocks_db_tes.ControlNode.ControlImpl.Moves.{move-Reaches}
use distributed_rocks_db_tes.ControlNode.Cluster.{
  Shard, meta_of, value_at, IsHeld, IsShard, IsBelow, IsCluster,
}
use distributed_rocks_db_tes.ControlNode.Cluster.Shards.{
  All-map, All-here, node_at-here, ordered-before, ordered-after,
}
use distributed_rocks_db_tes.ControlNode.Cluster.Texts.{
  All-erase, min_key-IsText, max_key-IsText, put-IsSendable, del-IsSendable,
}
use distributed_rocks_db_tes.ControlNode.Cluster.Neighbours.{
  All-after, ordered-rest, All-snoc, other_number,
}
use distributed_rocks_db_tes.ControlNode.Cluster.Beside.{find_pair}
use distributed_rocks_db_tes.ControlNode.Cluster.Pairs.{node_at-second}
use distributed_rocks_db_tes.ControlNode.Cluster.Exchanged.{moved_up-IsCluster}
use distributed_rocks_db_tes.ControlNode.Cluster.Announced.{announced}
use distributed_rocks_db_tes.ControlNode.Cluster.Leaving.{
  IsLeaving, last-IsHeld, last_below, arriving-All, leaving-IsShard, arriving-IsShard,
  leaving-IsBelow, leaving-IsBelow_after, arriving-IsBelow_after, IsBelow-leaving, IsBelow-arriving,
  moved_values,
}

module _ {Db Iterator : Type 0} (r : Rocks Db Iterator) (laws : IsRocks r) {c : ControlImpl Db}
    (before : List Shard) (s t : Shard) (after : List Shard) (x e : Entry) (xs : Rows)
    (h : IsCluster r laws (before ++ (s ∷ (t ∷ after))) c)
    (stored : s.stored ≡ x ∷ (xs ++ (e ∷ []))) where
  giver_lem : IsShard s
  giver_lem = All-here IsShard before s (t ∷ after) h.are_shards

  taker_lem : IsShard t
  taker_lem = (All-after IsShard before s (t ∷ after) h.are_shards).0

  reaches_s : Reaches r laws c (length before) s.stored []
  reaches_s = h.reached (length before) s (node_at-here before s (t ∷ after))

  reaches_t : Reaches r laws c (suc (length before)) t.stored []
  reaches_t = h.reached (suc (length before)) t (node_at-second before s t s t after)

  giver_order : IsSorted s.stored
  giver_order =
      subst IsSorted reaches_s.holds.has_data
        (laws.rows-IsSorted reaches_s.node.store_data.db_handle.db)

  taker_order : IsSorted t.stored
  taker_order =
      subst IsSorted reaches_t.holds.has_data
        (laws.rows-IsSorted reaches_t.node.store_data.db_handle.db)

  behind_giver : All (IsBelow s) (t ∷ after)
  behind_giver = ordered-after before s (t ∷ after) h.are_ordered

  pub leaving : IsLeaving s t e
  leaving = record {
    least = x;
    between = xs;
    stored = stored;
    sorted = giver_order;
    sorted_next = taker_order;
    shard = giver_lem;
    shard_next = taker_lem;
    below = behind_giver.0;
  }

  behind_taker : All (IsBelow t) after
  behind_taker = (ordered-rest before s (t ∷ after) h.are_ordered).0

  above : All (λ (u : Shard). lt_bytes e.key u.low ≡ true) (t ∷ after)
  above =
      let first = last_below s t e leaving in
      (
        first,
        All-map (λ u (p : IsBelow t u). lt_bytes_trans e.key t.low u.low first p.0) after
            behind_taker,
      )

  held : IsHeld s.low e
  held = last-IsHeld s t e leaving

  left_lem : All (IsHeld s.low) (erase e.key s.stored)
  left_lem = All-erase (IsHeld s.low) e.key s.stored giver_lem.held

  taken_lem : All (IsHeld e.key) (insert e.key e.value t.stored)
  taken_lem = arriving-All s t e leaving

  abbrev s' : Shard
  s' = announced (erase e.key s.stored) s

  abbrev t' : Shard
  t' = announced (insert e.key e.value t.stored) t

  fewer_lem : IsShard s'
  fewer_lem = leaving-IsShard s t e leaving

  more_lem : IsShard t'
  more_lem = arriving-IsShard s t e leaving

  pub round :
      (c' : ControlImpl Db) × (move r r.next (length before) (suc (length before)) e.key e.value c
        ≡ some (c', true))
      × IsCluster r laws (before ++ (s' ∷ (t' ∷ after))) c'
  round =
      let (found, row, found', row') = find_pair r laws e.key before s t after h held.3 above in
      let befores = ordered-before before s (t ∷ after) h.are_ordered in
      let (c', e', g, k, moved) =
        move-Reaches r laws r.next e.key e.value (meta_of (length before) s)
          (meta_of (suc (length before)) t) (other_number (length before))
          (λ p. other_number (length before) (sym p)) reaches_s reaches_t
          (del-IsSendable e.key s.low s.stored held.0 held.2 left_lem)
          (
            (min_key-IsText s.low (erase e.key s.stored) left_lem).0,
            (max_key-IsText s.low (erase e.key s.stored) left_lem).0,
          )
          (put-IsSendable e.key e.value e.key t.stored held.0 held.1 taken_lem
            (All-map (λ (y : Entry) (p : IsHeld t.low y). p.2) t.stored taker_lem.held))
          (
            (min_key-IsText e.key (insert e.key e.value t.stored) taken_lem).0,
            (max_key-IsText e.key (insert e.key e.value t.stored) taken_lem).0,
          )
          found found' (omega (arith, fewer_lem.low_text.1, fewer_lem.high_text.1))
          (omega (arith, more_lem.low_text.1, more_lem.high_text.1)) in
      (
        c',
        e',
        moved_up-IsCluster r laws before s t s' t' after (find r e.key c) (r.next (find r e.key c))
            h row row' fewer_lem more_lem g k moved (IsBelow-leaving s t e leaving before befores)
            (leaving-IsBelow_after s t e leaving (t ∷ after) behind_giver)
            (All-snoc (λ u. IsBelow u t') before s' (IsBelow-arriving s t e leaving before befores)
              (leaving-IsBelow s t e leaving))
            (arriving-IsBelow_after s t e leaving after behind_taker),
      )

  -- Where the processes are one map and a process has two entries or more, a round that moves its
  -- largest entry to the process behind succeeds, and the processes are then the same map. The range
  -- that the metadata has for each process has the keys of that process within it again.
  pub move-IsCluster :
      (c' : ControlImpl Db) × (shards' : List Shard) × (move r r.next
          (length before)
          (suc (length before))
          e.key
          e.value
          c
        ≡ some (c', true))
      × IsCluster r laws shards' c'
      × ((j : Bytes) → value_at j shards' ≡ value_at j (before ++ (s ∷ (t ∷ after))))
  move-IsCluster =
      let (c', p, g) = round in
      (c', before ++ (s' ∷ (t' ∷ after)), p, g, λ j. moved_values s t e leaving j after before)
