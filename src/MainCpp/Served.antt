-- ===== src/MainCpp/Served.antt =====
-- The control process of my_code/main_cpp/control_node.cpp with its three storage processes, from an
-- empty start to "quit".
use mathlib.Core.Path.{fun_ext}
use distributed_rocks_db_tes.Prelude.{
  ap, ℕ, ◌≡◌, ◌∙◌, none, some, List, [], map, length, arith, ◌<◌, ◌≤◌, All, Option,
}
use distributed_rocks_db_tes.Prelude.Bytes.{Bytes, codes}
use distributed_rocks_db_tes.HandleBuff.{max_line}
use distributed_rocks_db_tes.Rocks.{Rocks, IsRocks}
use distributed_rocks_db_tes.StoreNode.StoreImpl.{StoreImpl}
use distributed_rocks_db_tes.StoreNode.StoreImpl.Commits.{Holds}
use distributed_rocks_db_tes.ControlNode.ControlImpl.{ControlImpl}
use distributed_rocks_db_tes.ControlNode.ControlImpl.Balance.{Share}
use distributed_rocks_db_tes.ControlNode.ControlImpl.Inputs.{Command, session}
use distributed_rocks_db_tes.ControlNode.Cluster.{Shard, value_at, IsCluster}
use distributed_rocks_db_tes.ControlNode.Cluster.Fresh.{fresh, value_at-fresh}
use distributed_rocks_db_tes.ControlNode.Cluster.Opened.{open_control-IsCluster}
use distributed_rocks_db_tes.ControlNode.Cluster.Executed.{IsTyped}
use distributed_rocks_db_tes.ControlNode.Cluster.Session.{told, replay, session-IsCluster}
use distributed_rocks_db_tes.MainCpp.{store_locations, control_main}

module _ {Db Iterator : Type 0} (r : Rocks Db Iterator) (laws : IsRocks r) where
  -- Where the database of the metadata opens empty and none of the three storage processes holds an
  -- entry, the control process, started on what a user types up to "quit", ends: each get has printed
  -- the value that its key has by then on the map that the commands before it make of the empty one, or
  -- the empty string, and the processes are the map that all commands make. A put and a del change their
  -- key alone; a del of the empty key, a get, a test and a word that starts no command change nothing.
  -- No key or value has a NUL or more than 20000 bytes, no key that is put is empty, and the string of a
  -- test has at most 40946 bytes. The buffers have their full size, malloc gives the array of connections
  -- twelve bytes, and each loop may take more than three rounds and more than there are commands.
  pub control_main-IsCluster :
      (share : Share) (rounds : ℕ) (room : ℕ → ℕ) (first second third : Bytes)
      (at : Bytes × ℕ → StoreImpl Db) (db : Db) (commands : List Command)
      → 3 < rounds
      → length commands < rounds
      → 12 ≤ room 3
      → length first ≡ max_line
      → length second ≡ max_line
      → length third ≡ max_line
      → r.open_db (codes "control_meta") ≡ some db
      → IsRocks.rows laws db ≡ []
      → All (λ (location : Bytes × ℕ). Holds r laws (at location) [] []) store_locations
      → All IsTyped commands
      → (c : ControlImpl Db) × (shards : List Shard) × (control_main r share rounds room
            (first, second, third)
            at
            (session commands)
          ≡ some (c, told commands (λ k. none)))
        × IsCluster r laws shards c
        × ((j : Bytes) → value_at j shards ≡ replay commands (λ k. none) j)
  unfolding control_main
  control_main-IsCluster share rounds room first second third at db commands three enough wide full
        full2 full3 opens empty hold typed =
      let nodes : List (StoreImpl Db) = map at store_locations in
      let (c1, e1, h1) =
        open_control-IsCluster r laws rounds room first second third (codes "control_meta") nodes db
          (omega (arith, three)) wide full full2 full3 opens empty
          (hold.0, (hold.1.0, (hold.1.1.0, tt))) (λ p. cc) (omega arith) in
      let (c2, shards, e2, h2, values) =
        session-IsCluster r laws share rounds commands (fresh 0 3) typed h1 (omega (arith, enough))
          three in
      (
        c2,
        shards,
        rw (e1, e2)
            (ap (λ (m : Bytes → Option Bytes). some (c2, told commands m))
              (fun_ext (λ k. value_at-fresh k 0 3))),
        h2,
        λ j.
            values j
            ∙ ap (λ (m : Bytes → Option Bytes). replay commands m j)
                (fun_ext (λ k. value_at-fresh k 0 3)),
      )
