-- ===== src/ControlNode/Cluster/Passes.antt =====
-- The two passes of re_balance over the processes, on the map that the processes are together.
use distributed_rocks_db_tes.Prelude.{
  ℕ, zero, suc, ◌≡◌, refl, sym, ap, ◌∙◌, true, some, List, [], ◌∷◌, ◌++◌, length, arith, ◌<◌,
  length-append, subst, append_assoc,
}
use distributed_rocks_db_tes.Rocks.{Rocks, IsRocks}
use distributed_rocks_db_tes.ControlNode.ControlImpl.{ControlImpl, get_max_store, get_min_store}
use distributed_rocks_db_tes.ControlNode.ControlImpl.Balance.{relieve, Share, pass_up, pass_down}
use distributed_rocks_db_tes.ControlNode.Cluster.{Shard, IsCluster}
use distributed_rocks_db_tes.ControlNode.Cluster.Sides.{plus_one, up-IsSide, down-IsSide}
use distributed_rocks_db_tes.ControlNode.Cluster.Counts.{
  entries, IsSame, IsSame-refl, IsSame-trans, entries-append,
}
use distributed_rocks_db_tes.ControlNode.Cluster.Relieving.{relieve_lem}

-- The last process of a list that is not empty.
pub last_shard :
    (n : ℕ) (ss : List Shard)
    → length ss ≡ suc n
    → (front : List Shard) × (t : Shard) × (ss ≡ front ++ (t ∷ [])) × (length front ≡ n)
last_shard n [] h = absurd (omega (arith, h))
last_shard zero (s ∷ []) h = ([], s, refl, refl)
last_shard zero (s ∷ (t ∷ ss)) h = absurd (omega (arith, h))
last_shard (suc n) (s ∷ ss) h =
    let (front, t, p, q) = last_shard n ss (omega (arith, h)) in
    (s ∷ front, t, ap (λ (l : List Shard). s ∷ l) p, ap suc q)

module _ {Db Iterator : Type 0} (r : Rocks Db Iterator) (laws : IsRocks r) where
  module _ (share : Share) (total_size count fuel : ℕ) where
    pub pass_up_from :
        (before : List Shard) (s : Shard) (after : List Shard) {c : ControlImpl Db}
        → IsCluster r laws (before ++ (s ∷ after)) c
        → entries (before ++ (s ∷ after)) < fuel
        → (c' : ControlImpl Db) × (shards' : List Shard) × (pass_up r share
              (length after)
              fuel
              (length before)
              total_size
              count
              c
            ≡ some (c', true))
          × IsCluster r laws shards' c'
          × IsSame (before ++ (s ∷ after)) shards'
    unfolding pass_up
    pass_up_from before s [] {c} h enough =
        (c, before ++ (s ∷ []), refl, h, IsSame-refl (before ++ (s ∷ [])))
    pass_up_from before s (t ∷ after) {c} h enough =
        let (c1, s', t', e1, h1, same) =
          relieve_lem r laws share total_size count (get_max_store r) r.next (length before)
            (suc (length before)) (λ s t. before ++ (s ∷ (t ∷ after)))
            (up-IsSide r laws before after) fuel s t c h
            (omega (arith, enough, entries-append before (s ∷ (t ∷ after)))) in
        let whole : (before ++ (s' ∷ [])) ++ (t' ∷ after) ≡ before ++ (s' ∷ (t' ∷ after)) =
          append_assoc before (s' ∷ []) (t' ∷ after) in
        let (c2, shards', e2, h2, same') =
          pass_up_from (before ++ (s' ∷ [])) t' after
            (subst (λ (l : List Shard). IsCluster r laws l c1) (sym whole) h1)
            (omega (arith, enough, same.bounded, ap entries whole)) in
        (
          c2,
          shards',
          rw (plus_one (length before), e1)
              (subst
                (λ (k : ℕ).
                  pass_up r share (length after) fuel k total_size count c1 ≡ some (c2, true))
                (length-append before (s' ∷ [])) e2),
          h2,
          IsSame-trans same (subst (λ (l : List Shard). IsSame l shards') whole same'),
        )

    -- Where the processes are one map, the first pass of re_balance ends, with more fuel than there are
    -- entries, and the processes are then the same map.
    pub pass_up-IsCluster :
        (s : Shard) (after : List Shard) {c : ControlImpl Db}
        → IsCluster r laws (s ∷ after) c
        → entries (s ∷ after) < fuel
        → (c' : ControlImpl Db) × (shards' : List Shard) × (pass_up r share
              (length after)
              fuel
              0
              total_size
              count
              c
            ≡ some (c', true))
          × IsCluster r laws shards' c'
          × IsSame (s ∷ after) shards'
    pass_up-IsCluster s after h enough = pass_up_from [] s after h enough

    pub pass_down_from :
        (n : ℕ) (before : List Shard) (s : Shard) (after : List Shard) {c : ControlImpl Db}
        → length before ≡ n
        → IsCluster r laws (before ++ (s ∷ after)) c
        → entries (before ++ (s ∷ after)) < fuel
        → (c' : ControlImpl Db) × (shards' : List Shard) × (pass_down r share n fuel total_size
              count c
            ≡ some (c', true))
          × IsCluster r laws shards' c'
          × IsSame (before ++ (s ∷ after)) shards'
    unfolding pass_down
    pass_down_from zero before s after {c} size h enough =
        (c, before ++ (s ∷ after), refl, h, IsSame-refl (before ++ (s ∷ after)))
    pass_down_from (suc n) before s after {c} size h enough =
        let (front, t, p, q) = last_shard n before size in
        let whole : before ++ (s ∷ after) ≡ front ++ (t ∷ (s ∷ after)) =
          ap (λ (l : List Shard). l ++ (s ∷ after)) p ∙ append_assoc front (t ∷ []) (s ∷ after) in
        let (c1, s', t', e1, h1, same) =
          relieve_lem r laws share total_size count (get_min_store r) r.prev (suc (length front))
            (length front) (λ s t. front ++ (t ∷ (s ∷ after))) (down-IsSide r laws front after) fuel
            s t c (subst (λ (l : List Shard). IsCluster r laws l c) whole h)
            (omega (arith, enough, ap entries whole, entries-append front (t ∷ (s ∷ after)))) in
        let (c2, shards', e2, h2, same') =
          pass_down_from n front t' (s' ∷ after) q h1
            (omega (arith, enough, same.bounded, ap entries whole)) in
        (
          c2,
          shards',
          rw
              (subst
                (λ (k : ℕ).
                  relieve r share (get_min_store r) r.prev fuel (suc k) k total_size count c
                  ≡ some (c1, true))
                q e1)
              e2,
          h2,
          subst (λ (l : List Shard). IsSame l shards') (sym whole) (IsSame-trans same same'),
        )

    -- The second pass as well.
    pub pass_down-IsCluster :
        (before : List Shard) (s : Shard) {c : ControlImpl Db}
        → IsCluster r laws (before ++ (s ∷ [])) c
        → entries (before ++ (s ∷ [])) < fuel
        → (c' : ControlImpl Db) × (shards' : List Shard) × (pass_down r share
              (length before)
              fuel
              total_size
              count
              c
            ≡ some (c', true))
          × IsCluster r laws shards' c'
          × IsSame (before ++ (s ∷ [])) shards'
    pass_down-IsCluster before s h enough = pass_down_from (length before) before s [] refl h enough
