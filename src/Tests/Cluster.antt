-- ===== src/Tests/Cluster.antt =====
-- Examples for the processes as one map: two of them, the first with three entries.
use distributed_rocks_db_tes.Prelude.{
  false, true, ℕ, zero, suc, ◌≡◌, refl, subst, some, none, List, [], ◌∷◌, arith, if◌then◌else◌,
}
use distributed_rocks_db_tes.Prelude.Bytes.{Bytes, codes, lt_bytes, eq_bytes}
use distributed_rocks_db_tes.Rocks.Reference.{MemoryDb, memory, memory-IsRocks}
use distributed_rocks_db_tes.Rocks.Entries.{lookup}
use distributed_rocks_db_tes.ControlNode.ControlImpl.{ControlImpl, node_at, get, put, del}
use distributed_rocks_db_tes.ControlNode.ControlImpl.Requests.{Reaches}
use distributed_rocks_db_tes.ControlNode.ControlImpl.Balance.{Share, move, re_balance}
use distributed_rocks_db_tes.ControlNode.Cluster.Balancing.{move-IsCluster}
use distributed_rocks_db_tes.ControlNode.Cluster.Counts.{IsOneMore, IsSame}
use distributed_rocks_db_tes.ControlNode.Cluster.Rebalanced.{re_balance-IsCluster}
use distributed_rocks_db_tes.ControlNode.Cluster.{Shard, value_at, IsShard, IsCluster}
use distributed_rocks_db_tes.ControlNode.Cluster.Serving.{
  get-IsCluster, put-IsCluster, del-IsCluster,
}
use distributed_rocks_db_tes.ControlNode.Cluster.Changed.{some_inj}
use distributed_rocks_db_tes.Tests.Samples.{three_rows}
use distributed_rocks_db_tes.Tests.Balance.{one_row, control, low-Reaches, high-Reaches}

abbrev pub low_shard : Shard
low_shard = record { low = codes "b"; high = codes "f"; stored = three_rows }

abbrev high_shard : Shard
high_shard = record { low = codes "h"; high = codes "h"; stored = one_row }

abbrev pub shards : List Shard
shards = low_shard ∷ high_shard ∷ []

each_reached :
    (i : ℕ) (s : Shard)
    → node_at i shards ≡ some s
    → Reaches memory memory-IsRocks control i s.stored []
unfolding node_at
each_reached zero s p =
    subst (λ (t : Shard). Reaches memory memory-IsRocks control 0 t.stored []) (some_inj p)
      low-Reaches
each_reached (suc zero) s p =
    subst (λ (t : Shard). Reaches memory memory-IsRocks control 1 t.stored []) (some_inj p)
      high-Reaches
each_reached (suc (suc i)) s p = absurd cc

low-IsShard : IsShard low_shard
unfolding lt_bytes
low-IsShard = record {
  low_text = omega arith;
  high_text = omega arith;
  held = (
    (omega arith, omega arith, (λ p. cc), refl),
    (
      (omega arith, omega arith, (λ p. cc), refl),
      ((omega arith, omega arith, (λ p. cc), refl), tt),
    ),
  );
  capped = (refl, (refl, (refl, tt)));
}

high-IsShard : IsShard high_shard
unfolding lt_bytes
high-IsShard = record {
  low_text = omega arith;
  high_text = omega arith;
  held = ((omega arith, omega arith, (λ p. cc), refl), tt);
  capped = (refl, tt);
}

pub control-IsCluster : IsCluster memory memory-IsRocks shards control
unfolding lt_bytes node_at
control-IsCluster = record {
  has_metas = refl;
  reached = each_reached;
  no_more = refl;
  are_shards = (low-IsShard, (high-IsShard, tt));
  are_ordered = (((refl, (refl, (refl, (refl, tt)))), tt), (tt, tt));
  not_empty = λ p. cc;
  few = omega arith;
}

get-IsCluster_example :
    (c' : ControlImpl MemoryDb) × (get memory (codes "h") control ≡ some (c', codes "w"))
    × IsCluster memory memory-IsRocks shards c'
unfolding value_at lookup eq_bytes
get-IsCluster_example =
    get-IsCluster memory memory-IsRocks control-IsCluster (codes "h") (omega arith, omega arith)

put-IsCluster_example :
    (c' : ControlImpl MemoryDb) × (shards' : List Shard) × (put memory
        (codes "g")
        (codes "v")
        control
      ≡ some (c'))
    × IsCluster memory memory-IsRocks shards' c'
    × IsOneMore shards shards'
    × ((j : Bytes)
        → value_at j shards'
          ≡ (if eq_bytes j (codes "g") then some (codes "v") else value_at j shards))
put-IsCluster_example =
    put-IsCluster memory memory-IsRocks control-IsCluster (codes "g") (omega arith, omega arith)
      (codes "v") (omega arith, omega arith) (λ p. cc)

del-IsCluster_example :
    (c' : ControlImpl MemoryDb) × (shards' : List Shard) × (del memory (codes "d") control
      ≡ some (c'))
    × IsCluster memory memory-IsRocks shards' c'
    × IsOneMore shards shards'
    × ((j : Bytes)
        → value_at j shards' ≡ (if eq_bytes j (codes "d") then none else value_at j shards))
del-IsCluster_example =
    del-IsCluster memory memory-IsRocks control-IsCluster (codes "d") (omega arith, omega arith)
      (λ p. cc)

move-IsCluster_example :
    (c' : ControlImpl MemoryDb) × (shards' : List Shard) × (move memory memory.next 0 1
        (codes "f")
        (codes "z")
        control
      ≡ some (c', true))
    × IsCluster memory memory-IsRocks shards' c'
    × ((j : Bytes) → value_at j shards' ≡ value_at j shards)
move-IsCluster_example =
    move-IsCluster memory memory-IsRocks [] low_shard high_shard []
      (record { key = codes "b"; value = codes "x" })
      (record { key = codes "f"; value = codes "z" })
      (record { key = codes "d"; value = codes "yy" } ∷ []) control-IsCluster refl

abbrev pub never : Share
never s total_size count = false

re_balance-IsCluster_example :
    (c' : ControlImpl MemoryDb) × (shards' : List Shard) × (re_balance memory never 5 2 control
      ≡ some c')
    × IsCluster memory memory-IsRocks shards' c'
    × IsSame shards shards'
re_balance-IsCluster_example =
    re_balance-IsCluster memory memory-IsRocks never 5 shards control-IsCluster (omega arith)
      (omega arith)
