-- ===== src/ControlNode/Cluster/Descending.antt =====
-- A round of the balancing towards the process before, on the map that the processes are together.
use distributed_rocks_db_tes.Prelude.{
  append_assoc, suc, ◌≡◌, sym, subst, true, some, List, [], ◌∷◌, ◌++◌, length, All, arith,
}
use distributed_rocks_db_tes.Rocks.{Rocks, IsRocks}
use distributed_rocks_db_tes.Rocks.Entries.{Entry, Rows, IsSorted, insert, erase}
use distributed_rocks_db_tes.ControlNode.ControlImpl.{ControlImpl, find}
use distributed_rocks_db_tes.ControlNode.ControlImpl.Requests.{Reaches}
use distributed_rocks_db_tes.ControlNode.ControlImpl.Balance.{move}
use distributed_rocks_db_tes.ControlNode.ControlImpl.Moves.{move-Reaches}
use distributed_rocks_db_tes.ControlNode.Cluster.{
  lt_bytes, AreOrdered, Shard, meta_of, IsHeld, IsShard, IsBelow, IsCluster,
}
use distributed_rocks_db_tes.ControlNode.Cluster.Shards.{
  All-map, All-before, All-here, node_at-here, ordered-before, ordered-after,
}
use distributed_rocks_db_tes.ControlNode.Cluster.Texts.{
  min_key-IsText, max_key-IsText, put-IsSendable, del-IsSendable,
}
use distributed_rocks_db_tes.ControlNode.Cluster.Neighbours.{
  All-after, ordered-rest, All-snoc, other_number,
}
use distributed_rocks_db_tes.ControlNode.Cluster.Beside.{find_pair_down}
use distributed_rocks_db_tes.ControlNode.Cluster.Pairs.{node_at-second}
use distributed_rocks_db_tes.ControlNode.Cluster.Exchanged.{moved_down-IsCluster}
use distributed_rocks_db_tes.ControlNode.Cluster.Announced.{announced}
use distributed_rocks_db_tes.ControlNode.Cluster.Yielding.{
  IsYielding, first-IsHeld, taking-All, yielding-All, taking-IsShard, yielding-IsShard,
  taking-IsBelow, taking-IsBelow_after, yielding-IsBelow_after, IsBelow-yielding, IsBelow-taking,
}

module _ {Db Iterator : Type 0} (r : Rocks Db Iterator) (laws : IsRocks r) {c : ControlImpl Db}
    (before : List Shard) (t s : Shard) (after : List Shard) (e y : Entry) (ys : Rows)
    (h : IsCluster r laws (before ++ (t ∷ (s ∷ after))) c) (stored : s.stored ≡ e ∷ (y ∷ ys)) where
  taker_lem : IsShard t
  taker_lem = All-here IsShard before t (s ∷ after) h.are_shards

  giver_lem : IsShard s
  giver_lem = (All-after IsShard before t (s ∷ after) h.are_shards).0

  reaches_t : Reaches r laws c (length before) t.stored []
  reaches_t = h.reached (length before) t (node_at-here before t (s ∷ after))

  reaches_s : Reaches r laws c (suc (length before)) s.stored []
  reaches_s = h.reached (suc (length before)) s (node_at-second before t s t s after)

  taker_order : IsSorted t.stored
  taker_order =
      subst IsSorted reaches_t.holds.has_data
        (laws.rows-IsSorted reaches_t.node.store_data.db_handle.db)

  giver_order : IsSorted s.stored
  giver_order =
      subst IsSorted reaches_s.holds.has_data
        (laws.rows-IsSorted reaches_s.node.store_data.db_handle.db)

  behind_taker : All (IsBelow t) (s ∷ after)
  behind_taker = ordered-after before t (s ∷ after) h.are_ordered

  behind_giver : All (IsBelow s) after
  behind_giver = (ordered-rest before t (s ∷ after) h.are_ordered).0

  before_giver : All (λ u. IsBelow u s) before
  before_giver =
      All-before (λ u. IsBelow u s) before t []
        (ordered-before (before ++ (t ∷ [])) s after
          (subst AreOrdered (sym (append_assoc before (t ∷ []) (s ∷ after))) h.are_ordered))

  pub yielding : IsYielding t s e
  yielding = record {
    second = y;
    others = ys;
    stored = stored;
    sorted = giver_order;
    sorted_before = taker_order;
    shard = giver_lem;
    shard_before = taker_lem;
    below = behind_taker.0;
  }

  held : IsHeld s.low e
  held = first-IsHeld t s e yielding

  above : All (λ (u : Shard). lt_bytes e.key u.low ≡ true) after
  above =
      All-map
        (λ u (p : IsBelow s u).
          (subst (All (λ (z : Entry). lt_bytes z.key u.low ≡ true)) stored p.1).0)
        after behind_giver

  abbrev t' : Shard
  t' = announced (insert e.key e.value t.stored) t

  abbrev s' : Shard
  s' = announced (erase e.key s.stored) s

  left_lem : All (IsHeld s.low) (erase e.key s.stored)
  left_lem = yielding-All t s e yielding

  taken_lem : All (IsHeld t.low) (insert e.key e.value t.stored)
  taken_lem = taking-All t s e yielding

  fewer_lem : IsShard s'
  fewer_lem = yielding-IsShard t s e yielding

  more_lem : IsShard t'
  more_lem = taking-IsShard t s e yielding

  -- A round that moves the smallest entry of a process to the process before succeeds, and the
  -- processes are one map.
  pub round_down :
      (c' : ControlImpl Db) × (move r r.prev (suc (length before)) (length before) e.key e.value c
        ≡ some (c', true))
      × IsCluster r laws (before ++ (t' ∷ (s' ∷ after))) c'
  round_down =
      let (found, row, found', row') =
        find_pair_down r laws e.key before t s after h held.3 above in
      let befores = ordered-before before t (s ∷ after) h.are_ordered in
      let (c', e', g, k, moved) =
        move-Reaches r laws r.prev e.key e.value (meta_of (suc (length before)) s)
          (meta_of (length before) t) (λ p. other_number (length before) (sym p))
          (other_number (length before)) reaches_s reaches_t
          (del-IsSendable e.key s.low s.stored held.0 held.2 left_lem)
          (
            (min_key-IsText s.low (erase e.key s.stored) left_lem).0,
            (max_key-IsText s.low (erase e.key s.stored) left_lem).0,
          )
          (put-IsSendable e.key e.value t.low t.stored held.0 held.1 taken_lem
            (All-map (λ (z : Entry) (p : IsHeld t.low z). p.2) t.stored taker_lem.held))
          (
            (min_key-IsText t.low (insert e.key e.value t.stored) taken_lem).0,
            (max_key-IsText t.low (insert e.key e.value t.stored) taken_lem).0,
          )
          found found' (omega (arith, fewer_lem.low_text.1, fewer_lem.high_text.1))
          (omega (arith, more_lem.low_text.1, more_lem.high_text.1)) in
      (
        c',
        e',
        moved_down-IsCluster r laws before t s t' s' after (find r e.key c)
            (r.prev (find r e.key c)) h row row' more_lem fewer_lem k g moved
            (All-snoc (λ u. IsBelow u s') before t
              (IsBelow-yielding t s e yielding before before_giver)
              (IsBelow-yielding t s e yielding (t ∷ []) (behind_taker.0, tt)).0)
            (yielding-IsBelow_after t s e yielding after behind_giver)
            (IsBelow-taking t s e yielding before befores)
            (taking-IsBelow t s e yielding, taking-IsBelow_after t s e yielding after behind_giver),
      )
