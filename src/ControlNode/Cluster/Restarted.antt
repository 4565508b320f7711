-- ===== src/ControlNode/Cluster/Restarted.antt =====
-- The constructor of control_impl on metadata that is there already, with the storage processes of a
-- former run or others with the same entries.
use distributed_rocks_db_tes.Prelude.{
  ℕ, zero, suc, ◌+◌, ◌*◌, ◌≡◌, ◌≢◌, refl, sym, ap, ◌∙◌, subst, true, false, none, some, List, [],
  ◌∷◌, length, arith, ◌<◌, ◌≤◌, leb, ◌^◌, ◌==◌,
}
use distributed_rocks_db_tes.Prelude.Bytes.{Bytes}
use distributed_rocks_db_tes.HandleBuff.{max_line, to_int}
use distributed_rocks_db_tes.Rocks.{Rocks, IsRocks}
use distributed_rocks_db_tes.DbHandle.{DbHandle, open_handle}
use distributed_rocks_db_tes.DbHandle.Counts.{get_num_lem}
use distributed_rocks_db_tes.StoreNode.StoreImpl.{StoreImpl}
use distributed_rocks_db_tes.StoreNode.StoreImpl.Commits.{Holds}
use distributed_rocks_db_tes.ControlNode.ControlImpl.{ControlImpl, node_at}
use distributed_rocks_db_tes.ControlNode.ControlImpl.Start.{add_meta, add_nodes, open_control}
use distributed_rocks_db_tes.ControlNode.ControlImpl.Changes.{meta_rows}
use distributed_rocks_db_tes.ControlNode.Cluster.{Shard, metas, IsCluster}
use distributed_rocks_db_tes.ControlNode.Cluster.Changed.{some_inj}

length-metas : (i : ℕ) (shards : List Shard) → length (metas i shards) ≡ length shards
length-metas i [] = refl
length-metas i (s ∷ shards) = ap suc (length-metas (suc i) shards)

length_zero : (shards : List Shard) → length shards ≡ 0 → shards ≡ []
length_zero [] p = refl
length_zero (s ∷ shards) p = absurd (omega (arith, p))

not_zero : (n : ℕ) → n ≢ 0 → n < 2 ^ 32 → (to_int n == 0) ≡ false
not_zero n h small = ground (arith, h, small)

module _ {Db Iterator : Type 0} (r : Rocks Db Iterator) (laws : IsRocks r) where
  open laws use {rows}

  -- Each node holds the entries of the process at its place, and has an empty log.
  abbrev pub AreHolding : List (StoreImpl Db) → List Shard → Type 0
  AreHolding [] [] = Unit {0}
  AreHolding (node ∷ nodes) (s ∷ shards) = Holds r laws node s.stored [] × AreHolding nodes shards
  AreHolding [] (s ∷ shards) = ⊥
  AreHolding (node ∷ nodes) [] = ⊥

  holding_node :
      (i : ℕ) (nodes : List (StoreImpl Db)) (shards : List Shard) (s : Shard)
      → AreHolding nodes shards
      → node_at i shards ≡ some s
      → (node : StoreImpl Db) × (node_at i nodes ≡ some node) × Holds r laws node s.stored []
  unfolding node_at
  holding_node i [] [] s h p = absurd cc
  holding_node i [] (t ∷ shards) s h p = absurd h
  holding_node i (node ∷ nodes) [] s h p = absurd h
  holding_node zero (node ∷ nodes) (t ∷ shards) s h p =
      (node, refl, subst (λ (u : Shard). Holds r laws node u.stored []) (some_inj p) h.0)
  holding_node (suc i) (node ∷ nodes) (t ∷ shards) s h p = holding_node i nodes shards s h.1 p

  no_node :
      (nodes : List (StoreImpl Db)) (shards : List Shard)
      → AreHolding nodes shards
      → node_at (length shards) nodes ≡ none
  unfolding node_at
  no_node [] [] h = refl
  no_node [] (t ∷ shards) h = absurd h
  no_node (node ∷ nodes) [] h = absurd h
  no_node (node ∷ nodes) (t ∷ shards) h = no_node nodes shards h.1

  -- With metadata there already the loop writes none.
  add_nodes-kept :
      (room i : ℕ) (nodes : List (StoreImpl Db)) (s : DbHandle Db × Bytes)
      → 4 * (i + length nodes) ≤ room
      → add_nodes r room false i nodes s ≡ some s
  unfolding add_nodes add_meta
  add_nodes-kept room i [] s wide = refl
  add_nodes-kept room i (node ∷ nodes) s wide =
      let inside : leb (4 * (i + 1)) room ≡ true = ground (arith, wide) in
      rw inside (add_nodes-kept room (i + 1) nodes s (omega (arith, wide)))

  -- Where the processes are one map, and the database of the metadata opens with what the control process
  -- has stored there, a control process that is started anew, with nodes that hold the entries of the
  -- processes and have empty logs, is at the same map. Its buffers have their full size, malloc gives it
  -- four bytes for each node, and the loop that counts the metadata may take more rounds than there are
  -- processes.
  pub restart-IsCluster :
      (shards : List Shard) {c : ControlImpl Db} (fuel : ℕ) (room : ℕ → ℕ)
      (first second third path : Bytes) (nodes : List (StoreImpl Db)) (db : Db)
      → IsCluster r laws shards c
      → AreHolding nodes shards
      → r.open_db path ≡ some db
      → rows db ≡ meta_rows r laws c
      → length shards < fuel
      → 4 * length nodes ≤ room (length nodes)
      → length second ≡ max_line
      → length third ≡ max_line
      → (c' : ControlImpl Db) × (open_control r fuel room (first, second, third) path nodes
          ≡ some c')
        × IsCluster r laws shards c'
  unfolding open_control open_handle
  restart-IsCluster shards {c} fuel room first second third path nodes db h hold opens same enough
        wide full full' =
      let meta_db : DbHandle Db = record { db = db } in
      let has : rows db ≡ metas 0 shards = same ∙ h.has_metas in
      let count : length (rows db) ≡ length shards = ap length has ∙ length-metas 0 shards in
      let counted = get_num_lem r laws meta_db fuel (omega (arith, enough, count)) in
      let some_shards : length (rows db) ≢ 0 =
        λ p. h.not_empty (length_zero shards (sym count ∙ p)) in
      let old : (to_int (length (rows db)) == 0) ≡ false =
        not_zero (length (rows db)) some_shards (omega (arith, h.few, count)) in
      (
        record {
          meta_db = meta_db;
          send_buff = second;
          receive_buff = third;
          virtual_fd_2_net_file = nodes;
        },
        rw (opens, counted, old)
            (rw
              (add_nodes-kept (room (length nodes)) 0 nodes (meta_db, first) (omega (arith, wide)))
              refl),
        record {
          has_metas = has;
          reached = λ i s p.
              let (node, at, holds) = holding_node i nodes shards s hold p in
              record {
                node = node;
                has_node = at;
                holds = holds;
                send_room = full;
                receive_room = full';
              };
          no_more = no_node nodes shards hold;
          are_shards = h.are_shards;
          are_ordered = h.are_ordered;
          not_empty = h.not_empty;
          few = h.few;
        },
      )
