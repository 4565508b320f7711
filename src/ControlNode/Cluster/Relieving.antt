-- ===== src/ControlNode/Cluster/Relieving.antt =====
-- The loop of re_balance that relieves a process, on the map that the processes are together.
--
-- What the loop needs of its direction is the record IsSide; Cluster/Sides has both directions.
use distributed_rocks_db_tes.Prelude.{
  ℕ, zero, suc, ◌≡◌, refl, true, false, Option, some, List, [], length, arith, ◌<◌, leb, Bool-cases,
  inl, inr,
}
use distributed_rocks_db_tes.Prelude.Bytes.{Bytes}
use distributed_rocks_db_tes.Rocks.{Rocks, IsRocks}
use distributed_rocks_db_tes.ControlNode.ControlImpl.{ControlImpl}
use distributed_rocks_db_tes.ControlNode.ControlImpl.Requests.{OnlyNode, Reaches}
use distributed_rocks_db_tes.ControlNode.ControlImpl.Balance.{Share, relieve, not_too_much, move}
use distributed_rocks_db_tes.ControlNode.ControlImpl.Questions.{get_store_less_or_equal_one-Reaches}
use distributed_rocks_db_tes.ControlNode.ControlImpl.Ends.{get_size_any}
use distributed_rocks_db_tes.ControlNode.Cluster.{Shard, IsCluster}
use distributed_rocks_db_tes.ControlNode.Cluster.Counts.{IsSame, IsSame-refl, IsSame-trans}

module _ {Db Iterator : Type 0} (r : Rocks Db Iterator) (laws : IsRocks r) where
  abbrev pub Pick : Type 0
  Pick = ℕ → ControlImpl Db → Option (ControlImpl Db × Bytes × Bytes)

  -- One round from a giver with two entries or more.
  pub record Turned (pick : Pick) (along : Iterator → Iterator) (i j : ℕ)
      (placed : Shard → Shard → List Shard) (s t : Shard) (c : ControlImpl Db) : Type 0 where
    pub asked : ControlImpl Db
    pub key : Bytes
    pub value : Bytes
    pub moved : ControlImpl Db
    pub giver : Shard
    pub taker : Shard
    pub picks : pick i c ≡ some (asked, key, value)
    pub moves : move r along i j key value asked ≡ some (moved, true)
    pub is_cluster : IsCluster r laws (placed giver taker) moved
    pub shorter : suc (length giver.stored) ≡ length s.stored
    pub same : IsSame (placed s t) (placed giver taker)

  -- A direction of the balancing, between a giver and a taker at their places among the processes.
  pub record IsSide (pick : Pick) (along : Iterator → Iterator) (i j : ℕ)
      (placed : Shard → Shard → List Shard) : Type 0 where
    pub reaches :
        (s t : Shard) (c : ControlImpl Db)
        → IsCluster r laws (placed s t) c
        → Reaches r laws c i s.stored []
    pub stays :
        (s t : Shard) (c c' : ControlImpl Db)
        → IsCluster r laws (placed s t) c
        → Reaches r laws c' i s.stored []
        → OnlyNode i c c'
        → IsCluster r laws (placed s t) c'
    pub turns :
        (s t : Shard) (c : ControlImpl Db)
        → IsCluster r laws (placed s t) c
        → leb (length s.stored) 1 ≡ false
        → Turned pick along i j placed s t c

  module _ (share : Share) (total_size count : ℕ) (pick : Pick) (along : Iterator → Iterator)
      (i j : ℕ) (placed : Shard → Shard → List Shard) (side : IsSide pick along i j placed) where
    -- The loop ends, in at most one round more than the giver has entries.
    pub relieve_lem :
        (fuel : ℕ) (s t : Shard) (c : ControlImpl Db)
        → IsCluster r laws (placed s t) c
        → length s.stored < fuel
        → (c' : ControlImpl Db) × (s' : Shard) × (t' : Shard) × (relieve r share pick along fuel i j
              total_size count c
            ≡ some (c', true))
          × IsCluster r laws (placed s' t') c'
          × IsSame (placed s t) (placed s' t')
    unfolding relieve not_too_much
    relieve_lem zero s t c h enough = absurd (omega (arith, enough))
    relieve_lem (suc fuel) s t c h enough =
        let (c1, size, e1, g1, only1) = get_size_any r laws (side.reaches s t c h) in
        let h1 = side.stays s t c c1 h g1 only1 in
        let (c2, e2, g2, only2) = get_store_less_or_equal_one-Reaches r laws g1 in
        let h2 = side.stays s t c1 c2 h1 g2 only2 in
        elim (Bool-cases (share size total_size count)) [
          | inl fair ↦ (c1, s, t, rw (e1, fair) refl, h1, IsSame-refl (placed s t))
          | inr unfair ↦ elim (Bool-cases (leb (length s.stored) 1)) [
            | inl few ↦ (c2, s, t, rw (e1, unfair, e2, few) refl, h2, IsSame-refl (placed s t))
            | inr many ↦
                let turn = side.turns s t c2 h2 many in
                let (c', s', t', e, g, same) =
                  relieve_lem fuel turn.giver turn.taker turn.moved turn.is_cluster
                    (omega (arith, enough, turn.shorter)) in
                (
                  c',
                  s',
                  t',
                  rw (e1, unfair, e2, many, turn.picks, turn.moves) e,
                  g,
                  IsSame-trans turn.same same,
                )
          ]
        ]
