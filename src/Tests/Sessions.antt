-- ===== src/Tests/Sessions.antt =====
-- Examples for the whole program: storage processes and a control process that start, and a user.
use distributed_rocks_db_tes.Prelude.{
  sym, if◌then◌else◌, ◌<◌, ◌++◌, All, ℕ, ◌*◌, ◌≡◌, refl, some, none, List, [], ◌∷◌, arith,
}
use distributed_rocks_db_tes.Prelude.Bytes.{Bytes, codes, eq_bytes}
use distributed_rocks_db_tes.HandleBuff.{max_line}
use distributed_rocks_db_tes.Rocks.Reference.{
  memory_with, memory_with-IsRocks, MemoryDb, memory, memory-IsRocks,
}
use distributed_rocks_db_tes.StoreNode.StoreData.Size.{IsSized}
use distributed_rocks_db_tes.StoreNode.StoreImpl.{StoreImpl, open_store}
use distributed_rocks_db_tes.StoreNode.StoreImpl.Commits.{Holds}
use distributed_rocks_db_tes.StoreNode.StoreImpl.Opened.{open_store-Holds}
use distributed_rocks_db_tes.ControlNode.ControlImpl.{ControlImpl}
use distributed_rocks_db_tes.ControlNode.ControlImpl.Run.{Wanted, wanted_by, run}
use distributed_rocks_db_tes.ControlNode.ControlImpl.Inputs.{Command, session}
use distributed_rocks_db_tes.ControlNode.ControlImpl.Start.{open_control}
use distributed_rocks_db_tes.ControlNode.Cluster.{metas, Shard, value_at, IsCluster}
use distributed_rocks_db_tes.ControlNode.Cluster.Fresh.{fresh}
use distributed_rocks_db_tes.ControlNode.Cluster.Opened.{open_control-IsCluster}
use distributed_rocks_db_tes.ControlNode.Cluster.Restarted.{restart-IsCluster}
use distributed_rocks_db_tes.ControlNode.Cluster.Session.{told, replay, session-IsCluster}
use distributed_rocks_db_tes.ControlNode.Cluster.Executed.{IsTyped}
use distributed_rocks_db_tes.MainCpp.{control_main, put_words}
use distributed_rocks_db_tes.MainCpp.Script.{control_main-put_words}
use distributed_rocks_db_tes.DbHandle.{to_string}
use distributed_rocks_db_tes.ConstValues.{quit_word}
use distributed_rocks_db_tes.MainCpp.Served.{control_main-IsCluster}
use distributed_rocks_db_tes.Tests.Samples.{zeros, length-zeros, empty}
use distributed_rocks_db_tes.Tests.Balance.{control}
use distributed_rocks_db_tes.Tests.Cluster.{never, shards, control-IsCluster}

abbrev room : ℕ → ℕ
room n = 8 * n

abbrev idle : StoreImpl MemoryDb
idle = record {
  store_data = record { db_handle = record { db = empty }; size = 0 };
  store_log = record { db_handle = record { db = empty }; buff = zeros max_line };
  receive_buff = zeros max_line;
  send_buff = zeros max_line;
}

idle-Holds : Holds memory memory-IsRocks idle [] []
idle-Holds = record {
  has_data = refl;
  has_log = refl;
  log_room = length-zeros max_line;
  receive_room = length-zeros max_line;
  send_room = length-zeros max_line;
}

-- A user stores two entries, mistypes a command, deletes one of the entries, asks for the other, and
-- has a string printed.
abbrev commands : List Command
commands =
    Command.put (codes "c") (codes "v")
    ∷ Command.put (codes "a") (codes "w")
    ∷ Command.unknown (codes "gte")
    ∷ Command.del (codes "c")
    ∷ Command.get (codes "a")
    ∷ Command.test_with (codes "hello")
    ∷ []

commands-IsTyped : All IsTyped commands
unfolding eq_bytes wanted_by
commands-IsTyped = (
  ((omega arith, omega arith), (omega arith, omega arith), (λ p. cc)),
  (
    ((omega arith, omega arith), (omega arith, omega arith), (λ p. cc)),
    ((refl, refl), ((omega arith, omega arith), ((omega arith, omega arith), (omega arith, tt)))),
  ),
)

open_store-Holds_example :
    (s : StoreImpl MemoryDb) × (open_store memory 1
        (zeros max_line, zeros max_line, zeros max_line)
        (codes "data6666")
        (codes "log6666")
      ≡ some s)
    × Holds memory memory-IsRocks s [] []
    × IsSized memory memory-IsRocks s.store_data
open_store-Holds_example =
    open_store-Holds memory memory-IsRocks 1 (zeros max_line) (zeros max_line) (zeros max_line)
      (codes "data6666") (codes "log6666") empty empty refl refl tt (omega arith)
      (length-zeros max_line) (length-zeros max_line) (length-zeros max_line)

open_control-IsCluster_example :
    (c : ControlImpl MemoryDb) × (open_control memory 1 room
        (zeros max_line, zeros max_line, zeros max_line)
        (codes "control_meta")
        (idle ∷ idle ∷ [])
      ≡ some c)
    × IsCluster memory memory-IsRocks (fresh 0 2) c
open_control-IsCluster_example =
    open_control-IsCluster memory memory-IsRocks 1 room (zeros max_line) (zeros max_line)
      (zeros max_line) (codes "control_meta") (idle ∷ idle ∷ []) empty (omega arith) (omega arith)
      (length-zeros max_line) (length-zeros max_line) (length-zeros max_line) refl refl
      (idle-Holds, (idle-Holds, tt)) (λ p. cc) (omega arith)

session-IsCluster_example :
    (c' : ControlImpl MemoryDb) × (shards' : List Shard) × (run memory never 11 Wanted.command
        (session commands)
        control
      ≡ some (c', told commands (λ k. value_at k shards)))
    × IsCluster memory memory-IsRocks shards' c'
    × ((j : Bytes) → value_at j shards' ≡ replay commands (λ k. value_at k shards) j)
session-IsCluster_example =
    session-IsCluster memory memory-IsRocks never 11 commands shards commands-IsTyped
      control-IsCluster (omega arith) (omega arith)

control_main-IsCluster_example :
    (c : ControlImpl MemoryDb) × (shards' : List Shard) × (control_main memory never 7 room
        (zeros max_line, zeros max_line, zeros max_line)
        (λ location. idle)
        (session commands)
      ≡ some (c, told commands (λ k. none)))
    × IsCluster memory memory-IsRocks shards' c
    × ((j : Bytes) → value_at j shards' ≡ replay commands (λ k. none) j)
control_main-IsCluster_example =
    control_main-IsCluster memory memory-IsRocks never 7 room (zeros max_line) (zeros max_line)
      (zeros max_line) (λ location. idle) empty commands (omega arith) (omega arith) (omega arith)
      (length-zeros max_line) (length-zeros max_line) (length-zeros max_line) refl refl
      (idle-Holds, (idle-Holds, (idle-Holds, tt))) commands-IsTyped

control_main-put_words_example :
    (c : ControlImpl MemoryDb) × (shards' : List Shard) × (control_main memory never 7 room
        (zeros max_line, zeros max_line, zeros max_line)
        (λ location. idle)
        (put_words 5 0 ++ (quit_word ∷ []))
      ≡ some (c, []))
    × IsCluster memory memory-IsRocks shards' c
    × ((n : ℕ) → n < 5 → value_at (to_string n) shards' ≡ some (to_string 1))
control_main-put_words_example =
    control_main-put_words memory memory-IsRocks never 7 room (zeros max_line) (zeros max_line)
      (zeros max_line) (λ location. idle) empty 5 (omega arith) (omega arith) (omega arith)
      (length-zeros max_line) (length-zeros max_line) (length-zeros max_line) refl refl
      (idle-Holds, (idle-Holds, (idle-Holds, tt)))

-- A control process that has stored its metadata, and is started again on them.
abbrev old_metas : MemoryDb
old_metas = (metas 0 (fresh 0 1), (tt, tt))

abbrev at_location : Bytes → MemoryDb
at_location location = if eq_bytes location (codes "old") then old_metas else empty

idle_again-Holds : Holds (memory_with at_location) (memory_with-IsRocks at_location) idle [] []
idle_again-Holds = record {
  has_data = refl;
  has_log = refl;
  log_room = length-zeros max_line;
  receive_room = length-zeros max_line;
  send_room = length-zeros max_line;
}

first_run :
    (c : ControlImpl MemoryDb) × (open_control
        (memory_with at_location)
        1
        room
        (zeros max_line, zeros max_line, zeros max_line)
        (codes "new")
        (idle ∷ [])
      ≡ some c)
    × IsCluster (memory_with at_location) (memory_with-IsRocks at_location) (fresh 0 1) c
unfolding eq_bytes
first_run =
    open_control-IsCluster (memory_with at_location) (memory_with-IsRocks at_location) 1 room
      (zeros max_line) (zeros max_line) (zeros max_line) (codes "new") (idle ∷ []) empty
      (omega arith) (omega arith) (length-zeros max_line) (length-zeros max_line)
      (length-zeros max_line) refl refl (idle_again-Holds, tt) (λ p. cc) (omega arith)

restart-IsCluster_example :
    (c' : ControlImpl MemoryDb) × (open_control
        (memory_with at_location)
        2
        room
        (zeros max_line, zeros max_line, zeros max_line)
        (codes "old")
        (idle ∷ [])
      ≡ some c')
    × IsCluster (memory_with at_location) (memory_with-IsRocks at_location) (fresh 0 1) c'
unfolding eq_bytes
restart-IsCluster_example =
    restart-IsCluster (memory_with at_location) (memory_with-IsRocks at_location) (fresh 0 1) 2 room
      (zeros max_line) (zeros max_line) (zeros max_line) (codes "old") (idle ∷ []) old_metas
      first_run.2 (idle_again-Holds, tt) refl (sym first_run.2.has_metas) (omega arith)
      (omega arith) (length-zeros max_line) (length-zeros max_line)
