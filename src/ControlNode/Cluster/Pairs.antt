-- ===== src/ControlNode/Cluster/Pairs.antt =====
-- Two processes beside each other among the others: their places, their metadata and their order.
use distributed_rocks_db_tes.Prelude.{
  ◌+◌, ℕ, suc, ◌≡◌, ◌≢◌, sym, ap, ◌∙◌, subst, some, List, [], ◌∷◌, ◌++◌, length, All, arith,
  length-append, append_assoc,
}
use distributed_rocks_db_tes.Rocks.Entries.{insert, erase}
use distributed_rocks_db_tes.ControlNode.ControlMeta.Codec.{meta_bytes}
use distributed_rocks_db_tes.ControlNode.ControlImpl.{node_at}
use distributed_rocks_db_tes.ControlNode.Cluster.{Shard, meta_of, metas, IsBelow, AreOrdered}
use distributed_rocks_db_tes.ControlNode.Cluster.Shards.{
  node_at-here, node_at-elsewhere, ordered-set,
}
use distributed_rocks_db_tes.ControlNode.Cluster.Changed.{metas-set}

module _ (before : List Shard) (s t s' t' : Shard) (after : List Shard) where
  pub behind : (u : Shard) → (before ++ (s' ∷ [])) ++ (u ∷ after) ≡ before ++ (s' ∷ (u ∷ after))
  behind u = append_assoc before (s' ∷ []) (u ∷ after)

  length-behind : length (before ++ (s' ∷ [])) ≡ suc (length before)
  length-behind = omega (arith, length-append before (s' ∷ []))

  pub node_at-second : node_at (suc (length before)) (before ++ (s' ∷ (t' ∷ after))) ≡ some t'
  node_at-second =
      subst (λ (l : List Shard). node_at (suc (length before)) l ≡ some t') (behind t')
        (subst (λ (n : ℕ). node_at n ((before ++ (s' ∷ [])) ++ (t' ∷ after)) ≡ some t')
          length-behind (node_at-here (before ++ (s' ∷ [])) t' after))

  pub node_at-neither :
      (i : ℕ)
      → i ≢ length before
      → i ≢ suc (length before)
      → node_at i (before ++ (s ∷ (t ∷ after))) ≡ node_at i (before ++ (s' ∷ (t' ∷ after)))
  node_at-neither i not_first not_second =
      node_at-elsewhere i before s s' (t ∷ after) not_first
      ∙ ap (node_at i) (sym (behind t))
      ∙ node_at-elsewhere i (before ++ (s' ∷ [])) t t' after (λ p. not_second (p ∙ length-behind))
      ∙ ap (node_at i) (behind t')

  module _ (below : All (λ u. IsBelow u s') before) (above : All (IsBelow s') (t ∷ after))
      (below' : All (λ u. IsBelow u t') (before ++ (s' ∷ [])))
      (above' : All (IsBelow t') after) where
    ordered-between :
        AreOrdered (before ++ (s ∷ (t ∷ after))) → AreOrdered ((before ++ (s' ∷ [])) ++ (t ∷ after))
    ordered-between order =
        subst AreOrdered (sym (behind t)) (ordered-set before s s' (t ∷ after) order below above)

    pub ordered-pair :
        AreOrdered (before ++ (s ∷ (t ∷ after))) → AreOrdered (before ++ (s' ∷ (t' ∷ after)))
    ordered-pair order =
        subst AreOrdered (behind t')
          (ordered-set (before ++ (s' ∷ [])) t t' after (ordered-between order) below' above')

    pub metas-pair :
        AreOrdered (before ++ (s ∷ (t ∷ after)))
        → insert t'.low (meta_bytes (meta_of (suc (length before)) t')) (
            erase t.low (
              insert s'.low
                (meta_bytes (meta_of (length before) s'))
                (erase s.low (metas 0 (before ++ (s ∷ (t ∷ after)))))))
          ≡ metas 0 (before ++ (s' ∷ (t' ∷ after)))
    metas-pair order =
        rw
          (
            metas-set before s s' (t ∷ after) order below above,
            ← length-behind,
            ← behind t,
            ← behind t',
          )
          (metas-set (before ++ (s' ∷ [])) t t' after (ordered-between order) below' above')

  -- The same, where the second process is changed before the first.
  module _ (below : All (λ u. IsBelow u t') (before ++ (s ∷ [])))
      (above : All (IsBelow t') after) where
    front : (u : Shard) → (before ++ (s ∷ [])) ++ (u ∷ after) ≡ before ++ (s ∷ (u ∷ after))
    front u = append_assoc before (s ∷ []) (u ∷ after)

    length-front : length (before ++ (s ∷ [])) ≡ suc (length before)
    length-front = omega (arith, length-append before (s ∷ []))

    pub ordered-second :
        AreOrdered (before ++ (s ∷ (t ∷ after))) → AreOrdered (before ++ (s ∷ (t' ∷ after)))
    ordered-second order = subst AreOrdered (front t') (
        ordered-set (before ++ (s ∷ [])) t t' after (subst AreOrdered (sym (front t)) order) below
          above)

    pub metas-pair_down :
        All (λ u. IsBelow u s') before
        → All (IsBelow s') (t' ∷ after)
        → AreOrdered (before ++ (s ∷ (t ∷ after)))
        → insert s'.low (meta_bytes (meta_of (length before) s')) (
            erase s.low (
              insert t'.low
                (meta_bytes (meta_of (suc (length before)) t'))
                (erase t.low (metas 0 (before ++ (s ∷ (t ∷ after)))))))
          ≡ metas 0 (before ++ (s' ∷ (t' ∷ after)))
    metas-pair_down below' above' order =
        rw (← length-front, ← front t)
          (rw
            (
              metas-set (before ++ (s ∷ [])) t t' after (subst AreOrdered (sym (front t)) order)
                  below above,
              front t',
            )
            (metas-set before s s' (t' ∷ after) (ordered-second order) below' above'))

pub length-pair :
    (before : List Shard) (s t : Shard) (after : List Shard)
    → length (before ++ (s ∷ (t ∷ after))) ≡ length before + suc (suc (length after))
length-pair before s t after = length-append before (s ∷ (t ∷ after))

pub not_first_of : (n m : ℕ) → n + suc (suc m) ≢ n
not_first_of n m p = omega (arith, p)

pub not_second_of : (n m : ℕ) → n + suc (suc m) ≢ suc n
not_second_of n m p = omega (arith, p)
