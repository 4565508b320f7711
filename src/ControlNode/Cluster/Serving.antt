-- ===== src/ControlNode/Cluster/Serving.antt =====
-- A get, a put and a del of the control process, on the map that the processes are together.
use distributed_rocks_db_tes.Prelude.{
  ◌≡◌, ◌≢◌, sym, subst, some, none, List, [], ◌∷◌, ◌++◌, if◌then◌else◌,
}
use distributed_rocks_db_tes.Prelude.Bytes.{Bytes, eq_bytes}
use distributed_rocks_db_tes.Rocks.{Rocks, IsRocks}
use distributed_rocks_db_tes.DbHandle.{value_or_empty}
use distributed_rocks_db_tes.ControlNode.ControlImpl.{ControlImpl, get, put, del}
use distributed_rocks_db_tes.ControlNode.Cluster.{Shard, value_at, IsText, IsCluster}
use distributed_rocks_db_tes.ControlNode.Cluster.Counts.{IsOneMore}
use distributed_rocks_db_tes.ControlNode.Cluster.Search.{IsFound, find-IsFound}
use distributed_rocks_db_tes.ControlNode.Cluster.Texts.{with_entry, without_key}
use distributed_rocks_db_tes.ControlNode.Cluster.Located.{
  get_at, put_at, del_at, put_values, del_values, put_more, del_more,
}

module _ {Db Iterator : Type 0} (r : Rocks Db Iterator) (laws : IsRocks r) {c : ControlImpl Db}
    {shards : List Shard} (h : IsCluster r laws shards c) (key : Bytes)
    (key_text : IsText key) where
  found : IsFound r laws key c shards
  found = find-IsFound r laws key h

  whole : IsCluster r laws (found.before ++ (found.here ∷ found.after)) c
  whole = subst (λ (l : List Shard). IsCluster r laws l c) found.whole h

  -- Where the processes are one map, a get of a key with no NUL, of at most 20000 bytes, answers with
  -- the value that the map has for the key, or with the empty string if it has none, and the processes
  -- are the same map afterwards.
  pub get-IsCluster :
      (c' : ControlImpl Db) × (get r key c ≡ some (c', value_or_empty (value_at key shards)))
      × IsCluster r laws shards c'
  get-IsCluster =
      let f = found in
      let (c', e, g) =
        get_at r laws key f.before f.here f.after whole f.above f.within f.found f.row_key
          key_text in
      (c', rw f.whole e, subst (λ (l : List Shard). IsCluster r laws l c') (sym f.whole) g)

  -- Where the processes are one map, a put of a key that is not empty ends, where key and value have no
  -- NUL and at most 20000 bytes; the processes are then the map in which the key has the value and
  -- every other key what it had, and are as many, with at most one entry more. The range that the
  -- metadata has for each process has the keys of that process within it again.
  pub put-IsCluster :
      (value : Bytes)
      → IsText value
      → key ≢ []
      → (c' : ControlImpl Db) × (shards' : List Shard) × (put r key value c ≡ some c')
        × IsCluster r laws shards' c'
        × IsOneMore shards shards'
        × ((j : Bytes)
            → value_at j shards' ≡ (if eq_bytes j key then some value else value_at j shards))
  put-IsCluster value value_text some_key =
      let f = found in
      let (c', e, g) =
        put_at r laws key f.before f.here f.after whole f.above f.within f.found f.row_key key_text
          value value_text some_key in
      (
        c',
        f.before ++ (with_entry key value f.here ∷ f.after),
        e,
        g,
        subst
            (λ (l : List Shard). IsOneMore l (f.before ++ (with_entry key value f.here ∷ f.after)))
            (sym f.whole)
            (put_more r laws key f.before f.here f.after whole f.above f.within value),
        λ j.
            rw f.whole
              (put_values r laws key f.before f.here f.after whole f.above f.within value j),
      )

  -- Where the processes are one map, a del of a key that is not empty, with no NUL and of at most 20000
  -- bytes, ends; the processes are then the map in which the key has no value and every other key what
  -- it had, and are as many, with at most one entry more. The range that the metadata has for each
  -- process has the keys of that process within it again.
  pub del-IsCluster :
      key ≢ []
      → (c' : ControlImpl Db) × (shards' : List Shard) × (del r key c ≡ some c')
        × IsCluster r laws shards' c'
        × IsOneMore shards shards'
        × ((j : Bytes) → value_at j shards' ≡ (if eq_bytes j key then none else value_at j shards))
  del-IsCluster some_key =
      let f = found in
      let (c', e, g) =
        del_at r laws key f.before f.here f.after whole f.above f.within f.found f.row_key key_text
          some_key in
      (
        c',
        f.before ++ (without_key key f.here ∷ f.after),
        e,
        g,
        subst (λ (l : List Shard). IsOneMore l (f.before ++ (without_key key f.here ∷ f.after)))
            (sym f.whole) (del_more r laws key f.before f.here f.after whole f.above f.within),
        λ j. rw f.whole (del_values r laws key f.before f.here f.after whole f.above f.within j),
      )
