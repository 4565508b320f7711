-- ===== src/ControlNode/Cluster/Connections.antt =====
-- There are as many connections as processes, so that re_balance is called with the right count.
use distributed_rocks_db_tes.Prelude.{
  ℕ, zero, suc, ◌≡◌, ◌≢◌, refl, sym, ap, none, some, List, [], ◌∷◌, length, arith, ◌<◌, subst,
}
use distributed_rocks_db_tes.Rocks.{Rocks, IsRocks}
use distributed_rocks_db_tes.ControlNode.ControlImpl.{ControlImpl, node_at}
use distributed_rocks_db_tes.ControlNode.ControlImpl.Balance.{Share, re_balance}
use distributed_rocks_db_tes.ControlNode.ControlImpl.Run.{balance}
use distributed_rocks_db_tes.ControlNode.Cluster.{Option, Shard, IsCluster}
use distributed_rocks_db_tes.ControlNode.Cluster.Counts.{entries, IsSame}
use distributed_rocks_db_tes.ControlNode.Cluster.Rebalanced.{re_balance-IsCluster}

module _ {ℓ} {A : Type ℓ} where
  some_not_none : {m : Option A} {x : A} → m ≡ some x → m ≢ none
  some_not_none p q = cc

  node_at-small : (i : ℕ) (xs : List A) → i < length xs → (x : A) × (node_at i xs ≡ some x)
  unfolding node_at
  node_at-small i [] h = absurd (omega (arith, h))
  node_at-small zero (x ∷ xs) h = (x, refl)
  node_at-small (suc i) (x ∷ xs) h = node_at-small i xs (omega (arith, h))

  node_at-end :
      (n : ℕ) (xs : List A)
      → ((i : ℕ) → i < n → node_at i xs ≢ none)
      → node_at n xs ≡ none
      → length xs ≡ n
  unfolding node_at
  node_at-end zero [] h g = refl
  node_at-end (suc n) [] h g = absurd (h zero (omega arith) refl)
  node_at-end zero (x ∷ xs) h g = absurd cc
  node_at-end (suc n) (x ∷ xs) h g =
      ap suc (node_at-end n xs (λ i p. h (suc i) (omega (arith, p))) g)

module _ {Db Iterator : Type 0} (r : Rocks Db Iterator) (laws : IsRocks r) where
  connections :
      (shards : List Shard) {c : ControlImpl Db}
      → IsCluster r laws shards c
      → length c.virtual_fd_2_net_file ≡ length shards
  connections shards {c} h =
      node_at-end (length shards) c.virtual_fd_2_net_file
        (λ i p. let (s, at) = node_at-small i shards p in some_not_none (h.reached i s at).has_node)
        h.no_more

  -- The balancing behind a put and a del.
  pub balance-IsCluster :
      (share : Share) (rounds : ℕ) (shards : List Shard) {c : ControlImpl Db}
      → IsCluster r laws shards c
      → entries shards < rounds
      → length shards < rounds
      → (c' : ControlImpl Db) × (shards' : List Shard) × (balance r share rounds c ≡ some c')
        × IsCluster r laws shards' c'
        × IsSame shards shards'
  balance-IsCluster share rounds shards {c} h enough enough' =
      subst
        (λ (n : ℕ).
          (c' : ControlImpl Db) × (shards' : List Shard) × (re_balance r share rounds n c ≡ some c')
          × IsCluster r laws shards' c'
          × IsSame shards shards')
        (sym (connections shards h))
        (re_balance-IsCluster r laws share rounds shards h enough enough')
