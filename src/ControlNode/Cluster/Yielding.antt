-- ===== src/ControlNode/Cluster/Yielding.antt =====
-- The smallest entry of a process leaves it for the process before: the ranges of both, and the map.
use distributed_rocks_db_tes.ControlNode.Cluster.Announced.{
  announced, announced_low, announced-IsShard, announced-IsBelow, announced-above, IsBelow-higher,
  not_above,
}
use distributed_rocks_db_tes.ControlNode.Cluster.{Shard, IsShard, IsBelow, IsHeld, value_at}
use distributed_rocks_db_tes.ControlNode.Cluster.Shards.{All-map}
use distributed_rocks_db_tes.ControlNode.Cluster.Values.{lt_of_not_lt, lookup-All_below}
use distributed_rocks_db_tes.ControlNode.Cluster.Texts.{All-insert, All-erase}
use distributed_rocks_db_tes.Prelude.{
  suc, length, arith, ◌≡◌, ap, ◌∙◌, subst, true, some, List, [], ◌∷◌, ◌++◌, All, Bool-cases, inl,
  inr, refl,
}
use distributed_rocks_db_tes.Prelude.Bytes.{
  Bytes, eq_bytes, lt_bytes, eq_bytes_iff, eq_bytes_refl, lt_bytes_trans,
}
use distributed_rocks_db_tes.Rocks.Entries.{
  Entry, Rows, Above, IsSorted, insert, erase, lookup, lookup-insert, lookup-erase, insert-IsSorted,
  erase-IsSorted,
}

-- The entry `e` is the first of two or more of `s`, and all of `t` is below `s`.
pub record IsYielding (t s : Shard) (e : Entry) : Type 0 where
  pub second : Entry
  pub others : Rows
  pub stored : s.stored ≡ e ∷ (second ∷ others)
  pub sorted : IsSorted s.stored
  pub sorted_before : IsSorted t.stored
  pub shard : IsShard s
  pub shard_before : IsShard t
  pub below : IsBelow t s

module _ (t s : Shard) (e : Entry) (yielding : IsYielding t s e) where
  open yielding use {second, others, stored, sorted, sorted_before, shard, shard_before, below}

  abbrev t' : Shard
  t' = announced (insert e.key e.value t.stored) t

  abbrev s' : Shard
  s' = announced (erase e.key s.stored) s

  order : Above e.key (second ∷ others)
  order = (subst IsSorted stored sorted).0

  left : erase e.key s.stored ≡ second ∷ others
  unfolding erase
  left = ap (erase e.key) stored ∙ rw (eq_bytes_refl e.key) refl

  pub shorter_down : suc (length (erase e.key s.stored)) ≡ length s.stored
  shorter_down = omega (arith, ap length left, ap length stored)

  first_value : lookup e.key s.stored ≡ some e.value
  unfolding lookup
  first_value = ap (lookup e.key) stored ∙ rw (eq_bytes_refl e.key) refl

  stored_lem : All (IsHeld s.low) (e ∷ (second ∷ others))
  stored_lem = subst (All (IsHeld s.low)) stored shard.held

  pub first-IsHeld : IsHeld s.low e
  first-IsHeld = stored_lem.0

  before_first : lt_bytes t.low e.key ≡ true
  before_first = lt_of_not_lt t.low s.low e.key below.0 first-IsHeld.3

  taken_below : All (λ (y : Entry). lt_bytes y.key e.key ≡ true) t.stored
  taken_below =
      All-map
        (λ (y : Entry) (p : lt_bytes y.key s.low ≡ true).
          lt_of_not_lt y.key s.low e.key p first-IsHeld.3)
        t.stored below.1

  pub taking-All : All (IsHeld t.low) (insert e.key e.value t.stored)
  taking-All =
      All-insert (IsHeld t.low) e.key e.value t.stored
        (first-IsHeld.0, first-IsHeld.1, first-IsHeld.2, not_above t.low e.key before_first)
        shard_before.held

  pub yielding-All : All (IsHeld s.low) (erase e.key s.stored)
  yielding-All = All-erase (IsHeld s.low) e.key s.stored shard.held

  pub taking-IsShard : IsShard t'
  taking-IsShard =
      announced-IsShard t.low t (insert e.key e.value t.stored) shard_before
        (insert-IsSorted e.key e.value t.stored sorted_before) taking-All

  pub yielding-IsShard : IsShard s'
  yielding-IsShard =
      announced-IsShard s.low s (erase e.key s.stored) shard (erase-IsSorted e.key s.stored sorted)
        yielding-All

  s_low : s'.low ≡ second.key
  s_low =
      ap (λ (rows : Rows). (announced rows s).low) left
      ∙ announced_low s second others stored_lem.1.0.2

  -- What was below the first key stays below the second process.
  below_second : (k : Bytes) → lt_bytes k e.key ≡ true → lt_bytes k s'.low ≡ true
  below_second k p = ap (lt_bytes k) s_low ∙ lt_bytes_trans k e.key second.key p order.0

  pub taking-IsBelow : IsBelow t' s'
  taking-IsBelow =
      announced-IsBelow s' t (insert e.key e.value t.stored) (below_second t.low before_first) (
        All-insert (λ (y : Entry). lt_bytes y.key s'.low ≡ true) e.key e.value t.stored
          (ap (lt_bytes e.key) s_low ∙ order.0)
          (All-map (λ (y : Entry). below_second y.key) t.stored taken_below))

  pub taking-IsBelow_after : (after : List Shard) → All (IsBelow s) after → All (IsBelow t') after
  taking-IsBelow_after after h =
      All-map
        (λ u (p : IsBelow s u).
          announced-IsBelow u t (insert e.key e.value t.stored)
            (lt_bytes_trans t.low s.low u.low below.0 p.0)
            (All-insert (λ (y : Entry). lt_bytes y.key u.low ≡ true) e.key e.value t.stored
              (subst (All (λ (y : Entry). lt_bytes y.key u.low ≡ true)) stored p.1).0
              (All-map
                (λ (y : Entry) (q : lt_bytes y.key s.low ≡ true).
                  lt_bytes_trans y.key s.low u.low q p.0)
                t.stored below.1)))
        after h

  pub yielding-IsBelow_after : (after : List Shard) → All (IsBelow s) after → All (IsBelow s') after
  yielding-IsBelow_after after h =
      All-map
        (λ u (p : IsBelow s u).
          announced-IsBelow u s (erase e.key s.stored) p.0
            (All-erase (λ (y : Entry). lt_bytes y.key u.low ≡ true) e.key s.stored p.1))
        after h

  pub IsBelow-yielding :
      (before : List Shard) → All (λ u. IsBelow u s) before → All (λ u. IsBelow u s') before
  IsBelow-yielding before h =
      All-map (λ u. IsBelow-higher u s s' (announced-above s (erase e.key s.stored) yielding-All))
        before h

  pub IsBelow-taking :
      (before : List Shard) → All (λ u. IsBelow u t) before → All (λ u. IsBelow u t') before
  IsBelow-taking before h =
      All-map
        (λ u. IsBelow-higher u t t' (announced-above t (insert e.key e.value t.stored) taking-All))
        before h

  pub moved_down_values :
      (j : Bytes) (after : List Shard) (before : List Shard)
      → value_at j (before ++ (t' ∷ (s' ∷ after))) ≡ value_at j (before ++ (t ∷ (s ∷ after)))
  unfolding value_at
  moved_down_values j after [] =
      rw (lookup-erase e.key j s.stored sorted, lookup-insert e.key j e.value t.stored)
        (elim (Bool-cases (eq_bytes j e.key)) [
          | inl same ↦
              let p : j ≡ e.key = (eq_bytes_iff j e.key).0 same in
              rw
                (
                  same,
                  ap (λ (k : Bytes). lookup k t.stored) p
                      ∙ lookup-All_below e.key t.stored taken_below,
                  ap (λ (k : Bytes). lookup k s.stored) p ∙ first_value,
                )
                refl
          | inr other ↦ rw other refl
        ])
  moved_down_values j after (u ∷ before) = rw (moved_down_values j after before)
