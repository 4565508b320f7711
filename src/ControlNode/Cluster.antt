-- ===== src/ControlNode/Cluster.antt =====
-- The storage processes and the metadata of the control process (my_code/control_node) as one map: each
-- process has the keys of a range, the ranges follow one another, and the metadata lists their lower ends.
pub mod Shards
pub mod Values
pub mod Counts
pub mod Search
pub mod Texts
pub mod Changed
pub mod Neighbours
pub mod Located
pub mod Serving
pub mod Beside
pub mod Pairs
pub mod Exchanged
pub mod Announced
pub mod Leaving
pub mod Balancing
pub mod Relieving
pub mod Yielding
pub mod Descending
pub mod Sides
pub mod Passes
pub mod Rebalanced
pub mod Connections
pub mod Executed
pub mod Session
pub mod Fresh
pub mod Opened
pub mod Restarted
use distributed_rocks_db_tes.Prelude.{
  ℕ, suc, ◌≡◌, ◌≢◌, ◌≤◌, ◌<◌, ◌^◌, true, false, Option, none, some, List, [], ◌∷◌, length, All,
}
use distributed_rocks_db_tes.Prelude.Bytes.{Bytes, lt_bytes}
use distributed_rocks_db_tes.HandleBuff.{max_line}
use distributed_rocks_db_tes.HandleBuff.RoundTrip.{NoNul}
use distributed_rocks_db_tes.Rocks.{Rocks, IsRocks}
use distributed_rocks_db_tes.Rocks.Entries.{Entry, Rows, lookup}
use distributed_rocks_db_tes.ControlNode.ControlMeta.{ControlMeta}
use distributed_rocks_db_tes.ControlNode.ControlMeta.Codec.{meta_bytes}
use distributed_rocks_db_tes.ControlNode.ControlImpl.{ControlImpl, node_at}
use distributed_rocks_db_tes.ControlNode.ControlImpl.Requests.{Reaches}
use distributed_rocks_db_tes.ControlNode.ControlImpl.Changes.{meta_rows}

-- A process: the range that the metadata has for it, and its entries.
pub record Shard : Type 0 where
  pub low : Bytes
  pub high : Bytes
  pub stored : Rows

abbrev pub meta_of : ℕ → Shard → ControlMeta
meta_of i s = record { min_str = s.low; max_str = s.high; virtual_fd = i }

abbrev pub meta_row : ℕ → Shard → Entry
meta_row i s = record { key = s.low; value = meta_bytes (meta_of i s) }

-- The metadata of the processes from number `i` on.
abbrev pub metas : ℕ → List Shard → Rows
metas i [] = []
metas i (s ∷ ss) = meta_row i s ∷ metas (suc i) ss

-- The value of a key at whichever process has it.
abbrev pub or_else : Option Bytes → Option Bytes → Option Bytes
or_else none other = other
or_else (some value) other = some value

unfoldable pub value_at : Bytes → List Shard → Option Bytes
value_at k [] = none
value_at k (s ∷ ss) = or_else (lookup k s.stored) (value_at k ss)

-- Two strings of this length, framed, fit every message with room to spare.
abbrev pub max_text : ℕ
max_text = 20000

abbrev pub IsText : Bytes → Type 0
IsText s = NoNul s × (length s ≤ max_text)

-- An entry that a process with this lower end of its range may have.
abbrev pub IsHeld : Bytes → Entry → Type 0
IsHeld low e = IsText e.key × IsText e.value × (e.key ≢ []) × (lt_bytes e.key low ≡ false)

-- An entry that is not above this upper end of a range.
abbrev pub IsAtMost : Bytes → Entry → Type 0
IsAtMost high e = lt_bytes high e.key ≡ false

-- A process whose keys are all within its range.
pub record IsShard (s : Shard) : Type 0 where
  pub low_text : IsText s.low
  pub high_text : IsText s.high
  pub held : All (IsHeld s.low) s.stored
  pub capped : All (IsAtMost s.high) s.stored

-- All of `s` is below `t`.
abbrev pub IsBelow : Shard → Shard → Type 0
IsBelow s t =
    (lt_bytes s.low t.low ≡ true) × All (λ (e : Entry). lt_bytes e.key t.low ≡ true) s.stored

abbrev pub AreOrdered : List Shard → Type 0
AreOrdered [] = Unit {0}
AreOrdered (s ∷ ss) = All (IsBelow s) ss × AreOrdered ss

-- The state of the control process and of the processes it reaches, between two commands.
pub record IsCluster {Db Iterator : Type 0} (r : Rocks Db Iterator) (laws : IsRocks r)
    (shards : List Shard) (c : ControlImpl Db) : Type 0 where
  pub has_metas : meta_rows r laws c ≡ metas 0 shards
  pub reached : (i : ℕ) (s : Shard) → node_at i shards ≡ some s → Reaches r laws c i s.stored []
  pub no_more : node_at (length shards) c.virtual_fd_2_net_file ≡ none
  pub are_shards : All IsShard shards
  pub are_ordered : AreOrdered shards
  pub not_empty : shards ≢ []
  pub few : length shards < 2 ^ 32
