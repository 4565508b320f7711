-- ===== src/ControlNode/Cluster/Located.antt =====
-- A get, a put and a del where the process is known at which the search of the metadata stops.
use distributed_rocks_db_tes.Prelude.{
  ◌≡◌, ◌≢◌, refl, sym, ap, ◌∙◌, subst, true, false, some, none, List, [], ◌∷◌, ◌++◌, length, All,
  arith, if◌then◌else◌, inl, inr, ◌⊎◌, ◌≤◌,
}
use distributed_rocks_db_tes.Prelude.Bytes.{Bytes, eq_bytes, lt_bytes, min_bytes, max_bytes}
use distributed_rocks_db_tes.HandleBuff.{max_line}
use distributed_rocks_db_tes.Rocks.{Rocks, IsRocks}
use distributed_rocks_db_tes.Rocks.Entries.{Entry, IsSorted, lookup, lookup-insert, lookup-erase}
use distributed_rocks_db_tes.DbHandle.{value_or_empty}
use distributed_rocks_db_tes.ControlNode.ControlMeta.{ControlMeta}
use distributed_rocks_db_tes.ControlNode.ControlMeta.Codec.{meta_size}
use distributed_rocks_db_tes.ControlNode.ControlImpl.{ControlImpl, find, meta_at, get, put, del}
use distributed_rocks_db_tes.ControlNode.ControlImpl.Requests.{Reaches}
use distributed_rocks_db_tes.ControlNode.ControlImpl.Questions.{get-Reaches}
use distributed_rocks_db_tes.ControlNode.ControlImpl.Commands.{
  Settled, reaching, put-Settled, del-Settled,
}
use distributed_rocks_db_tes.ControlNode.Cluster.{
  Shard, meta_of, value_at, IsText, IsHeld, IsShard, IsBelow, IsCluster,
}
use distributed_rocks_db_tes.ControlNode.Cluster.Shards.{
  All-map, All-here, node_at-here, ordered-before, ordered-after,
}
use distributed_rocks_db_tes.ControlNode.Cluster.Values.{
  none_before, none_after, value_at-here, value_at-set,
}
use distributed_rocks_db_tes.ControlNode.Cluster.Counts.{
  IsOneMore, set-IsOneMore, length-insert, length-erase,
}
use distributed_rocks_db_tes.ControlNode.Cluster.Texts.{
  lookup-All, min_key-IsText, no-IsText, put-IsSendable, del-IsSendable, with_entry, without_key,
  with_entry-IsShard, without_key-IsShard, least_lem,
}
use distributed_rocks_db_tes.ControlNode.Cluster.Changed.{changed-IsCluster, settled-IsCluster}
use distributed_rocks_db_tes.ControlNode.Cluster.Neighbours.{
  All-after, still-IsBelow, with_entry-IsBelow, without_key-IsBelow,
}

module _ {Db Iterator : Type 0} (r : Rocks Db Iterator) (laws : IsRocks r) (key : Bytes)
    (before : List Shard) (s : Shard) (after : List Shard) {c : ControlImpl Db}
    (h : IsCluster r laws (before ++ (s ∷ after)) c)
    (above : All (λ (t : Shard). lt_bytes key t.low ≡ true) after)
    (within : (before ≡ []) ⊎ (lt_bytes key s.low ≡ false)) where
  shard : IsShard s
  shard = All-here IsShard before s after h.are_shards

  there : Reaches r laws c (length before) s.stored []
  there = h.reached (length before) s (node_at-here before s after)

  in_order : IsSorted s.stored
  in_order =
      subst IsSorted there.holds.has_data (laws.rows-IsSorted there.node.store_data.db_handle.db)

  befores : All (λ t. IsBelow t s) before
  befores = ordered-before before s after h.are_ordered

  afters : All (IsBelow s) after
  afters = ordered-after before s after h.are_ordered

  nones_before : All (λ (t : Shard). lookup key t.stored ≡ none) before
  nones_before = elim within [
    | inl first ↦ subst (λ (l : List Shard). All (λ t. lookup key t.stored ≡ none) l) (sym first) tt
    | inr below ↦ none_before key s before below befores
  ]

  nones_after : All (λ (t : Shard). lookup key t.stored ≡ none) after
  nones_after = none_after key after above (All-after IsShard before s after h.are_shards)

  found_value : value_at key (before ++ (s ∷ after)) ≡ lookup key s.stored
  found_value = value_at-here key s after nones_after before nones_before

  module _ (found : meta_at r (find r key c) ≡ some (meta_of (length before) s))
      (row_key : r.key (find r key c) ≡ s.low) (key_text : IsText key) where
    pub get_at :
        (c' : ControlImpl Db) × (get r key c
          ≡ some (c', value_or_empty (value_at key (before ++ (s ∷ after)))))
        × IsCluster r laws (before ++ (s ∷ after)) c'
    get_at =
        let value_text =
          lookup-All IsText key s.stored no-IsText
            (All-map (λ (e : Entry) (p : IsHeld s.low e). p.1) s.stored shard.held) in
        let (c', e, g, only) =
          get-Reaches r laws key (meta_of (length before) s) found there key_text.0 value_text.0
            (omega (arith, key_text.1)) (omega (arith, value_text.1)) in
        (
          c',
          rw found_value e,
          changed-IsCluster r laws before s s after h
              (ap (λ d. IsRocks.rows laws d.db) only.same_meta ∙ h.has_metas) g only.same_others
              shard befores afters,
        )

    pub put_at :
        (value : Bytes)
        → IsText value
        → key ≢ []
        → (c' : ControlImpl Db) × (put r key value c ≡ some c')
          × IsCluster r laws (before ++ (with_entry key value s ∷ after)) c'
    put_at value value_text some_key =
        let s' : Shard = with_entry key value s in
        let shard' : IsShard s' =
          with_entry-IsShard key value s key_text value_text some_key shard in
        let (c', e, settled) =
          put-Settled r laws key value (meta_of (length before) s) found there
            (put-IsSendable key value s'.low s.stored key_text value_text shard'.held
              (All-map (λ (x : Entry) (p : IsHeld s.low x). p.2) s.stored shard.held))
            (omega (arith, shard'.low_text.1, shard'.high_text.1)) in
        (
          c',
          e,
          settled-IsCluster r laws before s s' after (find r key c) h row_key settled shard'
              (still-IsBelow before s s'
                (elim within [
                  | inl first ↦ inl first
                  | inr below ↦ inr (unfold min_bytes in rw below refl)
                ])
                befores)
              (with_entry-IsBelow key value s after above afters),
        )

    pub del_at :
        key ≢ []
        → (c' : ControlImpl Db) × (del r key c ≡ some c')
          × IsCluster r laws (before ++ (without_key key s ∷ after)) c'
    del_at some_key =
        let s' : Shard = without_key key s in
        let shard' : IsShard s' = without_key-IsShard key s key_text shard in
        let m : ControlMeta = meta_of (length before) s in
        let least = least_lem s.low s'.stored shard'.held in
        let narrowed : reaching key s'.stored m ≡ meta_of (length before) s' =
          ap
            (λ (low : Bytes). record {
              min_str = low;
              max_str = max_bytes s.high key;
              virtual_fd = length before;
            })
            least in
        let low_text = min_key-IsText s.low s'.stored shard'.held in
        let (c', e, settled) =
          del-Settled r laws key m found there
            (del-IsSendable key s.low s.stored key_text some_key shard'.held) low_text.0
            (subst (λ (x : ControlMeta). meta_size x ≤ max_line) (sym narrowed)
              (omega (arith, shard'.low_text.1, shard'.high_text.1))) in
        (
          c',
          e,
          settled-IsCluster r laws before s s' after (find r key c) h row_key
              (subst
                (λ (x : ControlMeta).
                  Settled r laws (find r key c) x (length before) s'.stored c c')
                narrowed settled)
              shard' (still-IsBelow before s s' (inr refl) befores)
              (without_key-IsBelow key s after afters),
        )

  pub put_more :
      (value : Bytes)
      → IsOneMore (before ++ (s ∷ after)) (before ++ (with_entry key value s ∷ after))
  put_more value =
      set-IsOneMore before s (with_entry key value s) after (length-insert key value s.stored)

  pub del_more : IsOneMore (before ++ (s ∷ after)) (before ++ (without_key key s ∷ after))
  del_more =
      set-IsOneMore before s (without_key key s) after (omega (arith, length-erase key s.stored))

  -- The key alone changes its value.
  pub put_values :
      (value j : Bytes)
      → value_at j (before ++ (with_entry key value s ∷ after))
        ≡ (if eq_bytes j key then some value else value_at j (before ++ (s ∷ after)))
  put_values value j =
      value_at-set key s after nones_after (with_entry key value s) (some value) j
        (lookup-insert key j value s.stored) before nones_before

  pub del_values :
      (j : Bytes)
      → value_at j (before ++ (without_key key s ∷ after))
        ≡ (if eq_bytes j key then none else value_at j (before ++ (s ∷ after)))
  del_values j =
      value_at-set key s after nones_after (without_key key s) none j
        (lookup-erase key j s.stored in_order) before nones_before
