-- ===== src/ControlNode/Cluster/Changed.antt =====
-- A change of one process and of its metadata leaves the processes one map.
use distributed_rocks_db_tes.Prelude.{
  ◌+◌, suc, length-append, ℕ, ◌≡◌, ◌≢◌, sym, ap, ◌∙◌, subst, true, some, List, [], ◌∷◌, ◌++◌,
  length, All, arith, Bool-cases, inl, inr, ◌⊎◌, ◌==◌,
}
use distributed_rocks_db_tes.Prelude.Bytes.{Bytes, lt_bytes}
use distributed_rocks_db_tes.HandleBuff.{max_line}
use distributed_rocks_db_tes.Rocks.{Rocks, IsRocks}
use distributed_rocks_db_tes.Rocks.Entries.{Rows, Entry, Above, insert, erase}
use distributed_rocks_db_tes.ControlNode.ControlMeta.Codec.{meta_bytes}
use distributed_rocks_db_tes.ControlNode.ControlImpl.{ControlImpl, node_at}
use distributed_rocks_db_tes.ControlNode.ControlImpl.Requests.{Reaches}
use distributed_rocks_db_tes.ControlNode.ControlImpl.Changes.{meta_rows}
use distributed_rocks_db_tes.ControlNode.ControlImpl.Commands.{Settled}
use distributed_rocks_db_tes.ControlNode.Cluster.{
  Shard, meta_of, meta_row, metas, IsShard, IsBelow, AreOrdered, IsCluster,
}
use distributed_rocks_db_tes.ControlNode.Cluster.Shards.{
  All-map, All-set, node_at-here, node_at-elsewhere, length-set, metas-append, insert-erase,
  ordered-before, ordered-set,
}

pub same_or_other : (i n : ℕ) → (i ≡ n) ⊎ (i ≢ n)
same_or_other i n = elim (Bool-cases (i == n)) [
  | inl same ↦ inl (ground arith)
  | inr other ↦ inr (ground arith)
]

pub some_inj {ℓ} : {A : Type ℓ} {a b : A} → some a ≡ some b → a ≡ b
some_inj p = cc

pub append-not_nil {ℓ} : {A : Type ℓ} (xs : List A) (y : A) (ys : List A) → xs ++ (y ∷ ys) ≢ []
append-not_nil [] y ys p = cc
append-not_nil (x ∷ xs) y ys p = cc

pub metas-before :
    (k : Bytes) (i : ℕ) (before : List Shard)
    → All (λ (t : Shard). lt_bytes t.low k ≡ true) before
    → All (λ (x : Entry). lt_bytes x.key k ≡ true) (metas i before)
metas-before k i [] h = tt
metas-before k i (t ∷ before) h = (h.0, metas-before k _ before h.1)

pub metas-after :
    (k : Bytes) (i : ℕ) (after : List Shard)
    → All (λ (t : Shard). lt_bytes k t.low ≡ true) after
    → Above k (metas i after)
metas-after k i [] h = tt
metas-after k i (t ∷ after) h = (h.0, metas-after k _ after h.1)

pub metas-split_at : (xs ys : List Shard) → metas 0 (xs ++ ys) ≡ metas 0 xs ++ metas (length xs) ys
metas-split_at xs ys = metas-append 0 xs ys ∙ ap (λ (n : ℕ). metas 0 xs ++ metas n ys) (omega arith)

-- The metadata under the lower end of the process in the middle gives way to its new metadata.
pub metas-set :
    (before : List Shard) (s s' : Shard) (after : List Shard)
    → AreOrdered (before ++ (s ∷ after))
    → All (λ t. IsBelow t s') before
    → All (IsBelow s') after
    → insert s'.low
        (meta_bytes (meta_of (length before) s'))
        (erase s.low (metas 0 (before ++ (s ∷ after))))
      ≡ metas 0 (before ++ (s' ∷ after))
metas-set before s s' after order below above =
    let lows = ordered-before before s after order in
    rw (metas-split_at before (s ∷ after), metas-split_at before (s' ∷ after))
      (insert-erase (metas 0 before) (meta_row (length before) s) (metas _ after) s'.low _
        (metas-before s.low 0 before (All-map (λ t (p : IsBelow t s). p.0) before lows))
        (metas-before s'.low 0 before (All-map (λ t (p : IsBelow t s'). p.0) before below))
        (metas-after s'.low _ after (All-map (λ t (p : IsBelow s' t). p.0) after above)))

module _ {Db Iterator : Type 0} (r : Rocks Db Iterator) (laws : IsRocks r)
    {c' : ControlImpl Db} where
  -- A process that is reached is reached by a number that is the same.
  pub same_reached :
      (shards : List Shard) {n i : ℕ} {u v : Shard}
      → node_at n shards ≡ some u
      → Reaches r laws c' n u.stored []
      → i ≡ n
      → node_at i shards ≡ some v
      → Reaches r laws c' i v.stored []
  same_reached shards {n} {v = v} here there same at =
      subst (λ (k : ℕ). Reaches r laws c' k v.stored []) (sym same)
        (subst (λ (w : Shard). Reaches r laws c' n w.stored [])
          (some_inj (sym here ∙ ap (λ (k : ℕ). node_at k shards) (sym same) ∙ at)) there)

  -- A process that did not change is reached as before.
  pub kept_reached :
      {c : ControlImpl Db} {i : ℕ} {stored : Rows}
      → Reaches r laws c i stored []
      → node_at i c'.virtual_fd_2_net_file ≡ node_at i c.virtual_fd_2_net_file
      → length c'.send_buff ≡ max_line
      → length c'.receive_buff ≡ max_line
      → Reaches r laws c' i stored []
  kept_reached was same send receive = record {
    node = was.node;
    has_node = same ∙ was.has_node;
    holds = was.holds;
    send_room = send;
    receive_room = receive;
  }

not_here : (n m : ℕ) → n + suc m ≢ n
not_here n m p = omega (arith, p)

module _ {Db Iterator : Type 0} (r : Rocks Db Iterator) (laws : IsRocks r) (before : List Shard)
    (s s' : Shard) (after : List Shard) {c c' : ControlImpl Db} where
  reached_after :
      IsCluster r laws (before ++ (s ∷ after)) c
      → Reaches r laws c' (length before) s'.stored []
      → ((other : ℕ)
          → other ≢ length before
          → node_at other c'.virtual_fd_2_net_file ≡ node_at other c.virtual_fd_2_net_file)
      → (i : ℕ) (t : Shard) → node_at i (before ++ (s' ∷ after)) ≡ some t
      → Reaches r laws c' i t.stored []
  reached_after h there others i t at = elim (same_or_other i (length before)) [
    | inl same ↦
        same_reached r laws (before ++ (s' ∷ after)) (node_at-here before s' after) there same at
    | inr other ↦
        let was = h.reached i t (node_at-elsewhere i before s s' after other ∙ at) in
        kept_reached r laws was (others i other) there.send_room there.receive_room
  ]

  -- The process in the middle changed, its place among the others and its metadata with it.
  pub changed-IsCluster :
      IsCluster r laws (before ++ (s ∷ after)) c
      → meta_rows r laws c' ≡ metas 0 (before ++ (s' ∷ after))
      → Reaches r laws c' (length before) s'.stored []
      → ((other : ℕ)
          → other ≢ length before
          → node_at other c'.virtual_fd_2_net_file ≡ node_at other c.virtual_fd_2_net_file)
      → IsShard s'
      → All (λ t. IsBelow t s') before
      → All (IsBelow s') after
      → IsCluster r laws (before ++ (s' ∷ after)) c'
  changed-IsCluster h renewed there others shard below above = record {
    has_metas = renewed;
    reached = reached_after h there others;
    no_more =
        ap (λ (n : ℕ). node_at n c'.virtual_fd_2_net_file) (sym (length-set before s s' after))
        ∙ others (length (before ++ (s ∷ after))) (λ p.
          not_here (length before) (length after) (sym (length-append before (s ∷ after)) ∙ p))
        ∙ h.no_more;
    are_shards = All-set IsShard before s s' after h.are_shards shard;
    are_ordered = ordered-set before s s' after h.are_ordered below above;
    not_empty = append-not_nil before s' after;
    few = omega (arith, h.few, length-set before s s' after);
  }

  -- So does a command that settles.
  pub settled-IsCluster :
      (it : Iterator)
      → IsCluster r laws (before ++ (s ∷ after)) c
      → r.key it ≡ s.low
      → Settled r laws it (meta_of (length before) s') (length before) s'.stored c c'
      → IsShard s'
      → All (λ t. IsBelow t s') before
      → All (IsBelow s') after
      → IsCluster r laws (before ++ (s' ∷ after)) c'
  settled-IsCluster it h at settled shard below above =
      changed-IsCluster h
        ((settled.new_meta
          ∙ (rw (at, h.has_metas) (metas-set before s s' after h.are_ordered below above))))
        settled.reaches settled.same_others shard below above
