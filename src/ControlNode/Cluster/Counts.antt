-- ===== src/ControlNode/Cluster/Counts.antt =====
-- How many processes there are, and how many entries they have between them.
use distributed_rocks_db_tes.Prelude.{
  ℕ, suc, ◌+◌, ◌≡◌, refl, ◌∙◌, List, [], ◌∷◌, ◌++◌, length, arith, ◌≤◌,
}
use distributed_rocks_db_tes.Prelude.Bytes.{Bytes}
use distributed_rocks_db_tes.Rocks.Entries.{Rows, insert, erase}
use distributed_rocks_db_tes.ControlNode.Cluster.{Shard, value_at}
use distributed_rocks_db_tes.ControlNode.Cluster.Shards.{length-set}

-- The number of entries of all processes.
abbrev pub entries : List Shard → ℕ
entries [] = 0
entries (s ∷ ss) = length s.stored + entries ss

-- As many processes, which are the same map and have no more entries.
pub record IsSame (shards shards' : List Shard) : Type 0 where
  pub same_count : length shards' ≡ length shards
  pub bounded : entries shards' ≤ entries shards
  pub same_values : (k : Bytes) → value_at k shards' ≡ value_at k shards

pub IsSame-refl : (shards : List Shard) → IsSame shards shards
IsSame-refl shards = record { same_count = refl; bounded = omega arith; same_values = λ k. refl }

pub IsSame-trans :
    {one two three : List Shard} → IsSame one two → IsSame two three → IsSame one three
IsSame-trans a b = record {
  same_count = b.same_count ∙ a.same_count;
  bounded = omega (arith, a.bounded, b.bounded);
  same_values = λ k. b.same_values k ∙ a.same_values k;
}

-- As many processes, with at most one entry more.
abbrev pub IsOneMore : List Shard → List Shard → Type 0
IsOneMore shards shards' =
    (length shards' ≡ length shards) × (entries shards' ≤ suc (entries shards))

pub entries-append : (xs ys : List Shard) → entries (xs ++ ys) ≡ entries xs + entries ys
entries-append [] ys = omega arith
entries-append (x ∷ xs) ys = omega (arith, entries-append xs ys)

pub length-insert : (k v : Bytes) (rows : Rows) → length (insert k v rows) ≤ suc (length rows)
unfolding insert
length-insert k v [] = omega arith
length-insert k v (e ∷ rows) = ground (arith, length-insert k v rows)

pub length-erase : (k : Bytes) (rows : Rows) → length (erase k rows) ≤ length rows
unfolding erase
length-erase k [] = omega arith
length-erase k (e ∷ rows) = ground (arith, length-erase k rows)

-- A change of one process by at most one entry.
pub set-IsOneMore :
    (before : List Shard) (s s' : Shard) (after : List Shard)
    → length s'.stored ≤ suc (length s.stored)
    → IsOneMore (before ++ (s ∷ after)) (before ++ (s' ∷ after))
set-IsOneMore before s s' after h = (
  length-set before s' s after,
  omega (arith, h, entries-append before (s ∷ after), entries-append before (s' ∷ after)),
)
