-- ===== src/ControlNode/ControlImpl/Start.antt =====
-- The constructor of my_code/control_node/control_impl.
--
-- The connections are given, each as the process behind it. virtual_fd_2_real_fd is read in this
-- constructor alone, to make the connections, and is left out; for store_node_count, which the balancing
-- reads, stands the length of the list of processes. `room` is what malloc gives of bytes for a
-- size, which may be more than was asked for: the array of connections is asked for with one byte for
-- each node, and each element has four. A write past its room is `none`.
use distributed_rocks_db_tes.Prelude.{
  ℕ, ◌+◌, ◌*◌, ◌==◌, leb, Bool, true, false, Option, none, some, List, [], ◌∷◌, if◌then◌else◌,
  length, take, ◌>>=◌,
}
use distributed_rocks_db_tes.Prelude.Bytes.{Bytes}
use distributed_rocks_db_tes.HandleBuff.{start_of, whole, to_size}
use distributed_rocks_db_tes.Rocks.{Rocks}
use distributed_rocks_db_tes.DbHandle
use distributed_rocks_db_tes.DbHandle.{DbHandle, open_handle, get_num, to_string}
use distributed_rocks_db_tes.StoreNode.StoreImpl.{StoreImpl}
use distributed_rocks_db_tes.ControlNode.ControlMeta
use distributed_rocks_db_tes.ControlNode.ControlMeta.{ControlMeta, meta_of_parts}
use distributed_rocks_db_tes.ControlNode.ControlImpl.{ControlImpl}

-- sizeof(net_file)
abbrev pub net_file_size : ℕ
net_file_size = 4

-- The metadata of a node that has no entries yet.
abbrev pub first_meta : ℕ → ControlMeta
first_meta i = meta_of_parts (to_string (i + 1)) (to_string (i + 1)) i

module _ {Db Iterator : Type 0} (r : Rocks Db Iterator) where
  -- The metadata of node `i` by way of the send buffer, where there was none at all.
  unfoldable pub add_meta : Bool → ℕ → DbHandle Db × Bytes → Option (DbHandle Db × Bytes)
  add_meta false i s = some s
  add_meta true i (meta_db, send_buff) = do
    (end, size) ← ControlMeta.to_slice (first_meta i) (start_of send_buff)
    some
        (DbHandle.put r (first_meta i).min_str (take (to_size size) (whole end)) meta_db, whole end)

  -- The loop over the nodes, from node `i` on.
  unfoldable pub add_nodes :
      ℕ → Bool → ℕ → List (StoreImpl Db) → DbHandle Db × Bytes → Option (DbHandle Db × Bytes)
  add_nodes room fresh i [] s = some s
  add_nodes room fresh i (node ∷ nodes) s = do
    s' ← if leb (net_file_size * (i + 1)) room then add_meta fresh i s else none
    add_nodes room fresh (i + 1) nodes s'

  -- `buffs` are the allocations of the buffers: that which the loop writes to, and those that stay.
  unfoldable pub open_control :
      ℕ → (ℕ → ℕ) → Bytes × Bytes × Bytes → Bytes → List (StoreImpl Db) → Option (ControlImpl Db)
  open_control fuel room buffs control_meta_path store_nodes = do
    meta_db ← open_handle r control_meta_path
    size ← get_num r fuel meta_db
    (meta_db', used) ←
        add_nodes (room (length store_nodes)) (size == 0) 0 store_nodes (meta_db, buffs.0)
    some (record {
      meta_db = meta_db';
      send_buff = buffs.1;
      receive_buff = buffs.2;
      virtual_fd_2_net_file = store_nodes;
    })
