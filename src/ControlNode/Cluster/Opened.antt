-- ===== src/ControlNode/Cluster/Opened.antt =====
-- The constructor of control_impl makes the processes one map, where none of them has an entry and the
-- database of the metadata is empty.
use distributed_rocks_db_tes.Prelude.{
  append-nil, ℕ, zero, suc, ◌+◌, ◌*◌, ◌≡◌, ◌≢◌, refl, sym, ap, ◌∙◌, subst, true, none, some, List,
  [], ◌∷◌, ◌++◌, length, arith, ◌<◌, ◌≤◌, All, leb, append_assoc,
}
use distributed_rocks_db_tes.Prelude.Bytes.{
  Bytes, lt_bytes, eq_bytes_iff, lt_bytes_irrefl, lt_bytes_trans,
}
use distributed_rocks_db_tes.HandleBuff.{max_line, start_of, whole}
use distributed_rocks_db_tes.HandleBuff.Writes.{advance, length-whole-advance}
use distributed_rocks_db_tes.Rocks.{Rocks, IsRocks}
use distributed_rocks_db_tes.Rocks.Entries.{Entry, Rows, insert}
use distributed_rocks_db_tes.DbHandle
use distributed_rocks_db_tes.DbHandle.{DbHandle, open_handle, to_string}
use distributed_rocks_db_tes.DbHandle.Rows.{rows-put_handle}
use distributed_rocks_db_tes.DbHandle.Counts.{get_num_lem}
use distributed_rocks_db_tes.StoreNode.StoreImpl.{StoreImpl}
use distributed_rocks_db_tes.StoreNode.StoreImpl.Commits.{Holds}
use distributed_rocks_db_tes.StoreNode.StoreImpl.Messages.{take-advance}
use distributed_rocks_db_tes.ControlNode.ControlMeta.Codec.{
  meta_bytes, meta_size, to_slice-fits, length-meta_bytes,
}
use distributed_rocks_db_tes.ControlNode.ControlImpl.{ControlImpl, node_at}
use distributed_rocks_db_tes.ControlNode.ControlImpl.Start.{
  first_meta, add_meta, add_nodes, open_control,
}
use distributed_rocks_db_tes.ControlNode.Cluster.{Shard, meta_row, metas, IsCluster}
use distributed_rocks_db_tes.ControlNode.Cluster.Changed.{some_inj}
use distributed_rocks_db_tes.ControlNode.Cluster.Fresh.{
  digit, fresh_shard, fresh, length-fresh, lt_bytes-digits, fresh-IsShard, fresh-AreOrdered,
  fresh-not_nil,
}

insert-last :
    (k v : Bytes) (xs : Rows)
    → All (λ (x : Entry). lt_bytes x.key k ≡ true) xs
    → insert k v xs ≡ xs ++ (record { key = k; value = v } ∷ [])
unfolding insert
insert-last k v [] h = refl
insert-last k v (x ∷ xs) h =
    ground
      (arith, insert-last k v xs, eq_bytes_iff k x.key, lt_bytes_irrefl k, lt_bytes_trans k x.key k)

-- Keys below that of process `i`, its own among them, are below that of the next.
rows-next :
    (i : ℕ) (xs : Rows)
    → suc i < 9
    → All (λ (x : Entry). lt_bytes x.key (to_string (i + 1)) ≡ true) xs
    → All
        (λ (x : Entry). lt_bytes x.key (to_string (suc i + 1)) ≡ true)
        (xs ++ (meta_row i (fresh_shard i) ∷ []))
rows-next i [] small h = (lt_bytes-digits i (suc i) (omega arith) small, tt)
rows-next i (x ∷ xs) small h = (
  lt_bytes_trans x.key (to_string (i + 1)) (to_string (suc i + 1)) h.0
      (lt_bytes-digits i (suc i) (omega arith) small),
  rows-next i xs small h.1,
)

length-digit : (i : ℕ) → i < 9 → length (to_string (i + 1)) ≡ 1
length-digit i h = ap length (digit i h)

module _ {Db Iterator : Type 0} (r : Rocks Db Iterator) (laws : IsRocks r) where
  open laws use {rows}

  -- One node.
  add_meta-rows :
      (i : ℕ) (meta_db : DbHandle Db) (send_buff : Bytes) (xs : Rows)
      → i < 9
      → rows meta_db.db ≡ xs
      → length send_buff ≡ max_line
      → All (λ (x : Entry). lt_bytes x.key (to_string (i + 1)) ≡ true) xs
      → (meta_db' : DbHandle Db) × (send_buff' : Bytes) × (add_meta r true i (meta_db, send_buff)
          ≡ some (meta_db', send_buff'))
        × (rows meta_db'.db ≡ xs ++ (meta_row i (fresh_shard i) ∷ []))
        × (length send_buff' ≡ max_line)
  unfolding add_meta
  add_meta-rows i meta_db send_buff xs small e room below =
      let size : meta_size (first_meta i) ≡ 16 = omega (arith, length-digit i small) in
      let bytes : Bytes = meta_bytes (first_meta i) in
      let end = whole (advance bytes (start_of send_buff)) in
      (
        DbHandle.put r (to_string (i + 1)) bytes meta_db,
        end,
        rw
            (
              to_slice-fits (first_meta i) (start_of send_buff) (omega (arith, size))
                  (omega (arith, size, room)),
              take-advance bytes send_buff (meta_size (first_meta i))
                  (length-meta_bytes (first_meta i)) (omega (arith, size)),
            )
            refl,
        rows-put_handle r laws (to_string (i + 1)) bytes meta_db
            ∙ ap (insert (to_string (i + 1)) bytes) e
            ∙ insert-last (to_string (i + 1)) bytes xs below,
        length-whole-advance bytes (start_of send_buff)
              (omega (arith, size, room, length-meta_bytes (first_meta i)))
            ∙ room,
      )

  add_nodes-step :
      (room i : ℕ) (node : StoreImpl Db) (nodes : List (StoreImpl Db)) (s s1 : DbHandle Db × Bytes)
      → 4 * suc i ≤ room
      → add_meta r true i s ≡ some s1
      → add_nodes r room true i (node ∷ nodes) s ≡ add_nodes r room true (suc i) nodes s1
  unfolding add_nodes
  add_nodes-step room i node nodes s s1 wide e =
      let inside : leb (4 * (i + 1)) room ≡ true = ground (arith, wide) in
      let next_number : i + 1 ≡ suc i = omega arith in
      rw (inside, e) (ap (λ (n : ℕ). add_nodes r room true n nodes s1) next_number)

  -- The loop.
  add_nodes-rows :
      (room i : ℕ) (nodes : List (StoreImpl Db)) (meta_db : DbHandle Db) (send_buff : Bytes)
      (xs : Rows)
      → i + length nodes ≤ 9
      → 4 * (i + length nodes) ≤ room
      → rows meta_db.db ≡ xs
      → length send_buff ≡ max_line
      → (0 < length nodes → All (λ (x : Entry). lt_bytes x.key (to_string (i + 1)) ≡ true) xs)
      → (meta_db' : DbHandle Db) × (send_buff' : Bytes) × (add_nodes r room true i nodes
            (meta_db, send_buff)
          ≡ some (meta_db', send_buff'))
        × (rows meta_db'.db ≡ xs ++ metas i (fresh i (length nodes)))
  unfolding add_nodes
  add_nodes-rows room i [] meta_db send_buff xs few wide e full below =
      (meta_db, send_buff, refl, e ∙ sym (append-nil xs))
  add_nodes-rows room i (node ∷ nodes) meta_db send_buff xs few wide e full below =
      let lower = below (omega arith) in
      let (db1, buff1, p, q, full1) =
        add_meta-rows i meta_db send_buff xs (omega (arith, few)) e full lower in
      let (db2, buff2, p', q') =
        add_nodes-rows room (suc i) nodes db1 buff1 (xs ++ (meta_row i (fresh_shard i) ∷ []))
          (omega (arith, few)) (omega (arith, wide)) q full1
          (λ more. rows-next i xs (omega (arith, few, more)) lower) in
      (
        db2,
        buff2,
        add_nodes-step room i node nodes (meta_db, send_buff) (db1, buff1) (omega (arith, wide)) p
            ∙ p',
        q'
            ∙ append_assoc xs (meta_row i (fresh_shard i) ∷ [])
                (metas (suc i) (fresh (suc i) (length nodes))),
      )

  node_of :
      (i k : ℕ) (nodes : List (StoreImpl Db)) (s : Shard)
      → All (λ (n : StoreImpl Db). Holds r laws n [] []) nodes
      → node_at i (fresh k (length nodes)) ≡ some s
      → (node : StoreImpl Db) × (node_at i nodes ≡ some node) × Holds r laws node s.stored []
  unfolding node_at
  node_of i k [] s h p = absurd cc
  node_of zero k (node ∷ nodes) s h p =
      (node, refl, subst (λ (t : Shard). Holds r laws node t.stored []) (some_inj p) h.0)
  node_of (suc i) k (node ∷ nodes) s h p = node_of i (suc k) nodes s h.1 p

  node_at-length : (nodes : List (StoreImpl Db)) → node_at (length nodes) nodes ≡ none
  unfolding node_at
  node_at-length [] = refl
  node_at-length (node ∷ nodes) = node_at-length nodes

  -- Where the metadata's database opens empty, the constructor succeeds with from one to nine nodes that
  -- hold nothing, if malloc gives it four bytes for each, and the processes are then one map, of no
  -- entries. The buffers have their full size, and the loop that counts the metadata may take a round.
  pub open_control-IsCluster :
      (fuel : ℕ) (room : ℕ → ℕ) (first second third path : Bytes) (nodes : List (StoreImpl Db))
      (db : Db)
      → 0 < fuel
      → 4 * length nodes ≤ room (length nodes)
      → length first ≡ max_line
      → length second ≡ max_line
      → length third ≡ max_line
      → r.open_db path ≡ some db
      → rows db ≡ []
      → All (λ (n : StoreImpl Db). Holds r laws n [] []) nodes
      → length nodes ≢ 0
      → length nodes ≤ 9
      → (c : ControlImpl Db) × (open_control r fuel room (first, second, third) path nodes ≡ some c)
        × IsCluster r laws (fresh 0 (length nodes)) c
  unfolding open_control open_handle
  open_control-IsCluster fuel room first second third path nodes db enough wide full full2 full3
        opens empty hold some_node few =
      let meta_db : DbHandle Db = record { db = db } in
      let (db', buff', e, has_metas) =
        add_nodes-rows (room (length nodes)) 0 nodes meta_db first [] (omega (arith, few))
          (omega (arith, wide)) empty full (λ more. tt) in
      let counted = get_num_lem r laws meta_db fuel (omega (arith, enough, ap length empty)) in
      let c : ControlImpl Db = record {
        meta_db = db';
        send_buff = second;
        receive_buff = third;
        virtual_fd_2_net_file = nodes;
      } in
      (
        c,
        rw (opens, counted, empty) (rw e refl),
        record {
          has_metas = has_metas;
          reached = λ i s p.
              let (node, at, holds) = node_of i 0 nodes s hold p in
              record {
                node = node;
                has_node = at;
                holds = holds;
                send_room = full2;
                receive_room = full3;
              };
          no_more = rw (length-fresh 0 (length nodes)) (node_at-length nodes);
          are_shards = fresh-IsShard 0 (length nodes) (omega (arith, few));
          are_ordered = fresh-AreOrdered 0 (length nodes) (omega (arith, few));
          not_empty = fresh-not_nil 0 (length nodes) some_node;
          few = omega (arith, few, length-fresh 0 (length nodes));
        },
      )
