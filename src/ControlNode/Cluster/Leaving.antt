-- ===== src/ControlNode/Cluster/Leaving.antt =====
-- The largest entry of a process leaves it for the process behind: the ranges of both, and the map.
use mathlib.Core.Path.{ap₂}
use distributed_rocks_db_tes.Prelude.{
  suc, length, length-append, arith, ◌≡◌, refl, sym, ap, ◌∙◌, subst, true, some, List, [], ◌∷◌,
  ◌++◌, All, Bool-cases, inl, inr,
}
use distributed_rocks_db_tes.Prelude.Bytes.{
  Bytes, eq_bytes, lt_bytes, eq_bytes_iff, lt_bytes_irrefl, lt_bytes_trans,
}
use distributed_rocks_db_tes.Rocks.Entries.{
  Entry, Rows, Above, IsSorted, insert, erase, lookup, lookup-insert, lookup-erase, insert-IsSorted,
  erase-IsSorted,
}
use distributed_rocks_db_tes.StoreNode.StoreImpl.Ranges.{not-is_empty}
use distributed_rocks_db_tes.ControlNode.Cluster.{Shard, value_at, IsHeld, IsShard, IsBelow}
use distributed_rocks_db_tes.ControlNode.Cluster.Shards.{All-map, All-here}
use distributed_rocks_db_tes.ControlNode.Cluster.Values.{lt_of_not_lt}
use distributed_rocks_db_tes.ControlNode.Cluster.Texts.{All-insert, All-erase}
use distributed_rocks_db_tes.ControlNode.Cluster.Announced.{
  announced, announced_low, announced-IsShard, below_last, erase-last, lookup-last,
  min_key_of-insert_first, IsBelow-higher, not_above,
}

-- The entry `e` is the last of two or more of `s`, and all of `s` is below `t`.
pub record IsLeaving (s t : Shard) (e : Entry) : Type 0 where
  pub least : Entry
  pub between : Rows
  pub stored : s.stored ≡ least ∷ (between ++ (e ∷ []))
  pub sorted : IsSorted s.stored
  pub sorted_next : IsSorted t.stored
  pub shard : IsShard s
  pub shard_next : IsShard t
  pub below : IsBelow s t

module _ (s t : Shard) (e : Entry) (leaving : IsLeaving s t e) where
  open leaving use {least, between, stored, sorted, sorted_next, shard, shard_next, below}

  abbrev s' : Shard
  s' = announced (erase e.key s.stored) s

  abbrev t' : Shard
  t' = announced (insert e.key e.value t.stored) t

  lows_first : All (λ (y : Entry). lt_bytes y.key e.key ≡ true) (least ∷ between)
  lows_first = below_last (least ∷ between) e (subst IsSorted stored sorted)

  left : erase e.key s.stored ≡ least ∷ between
  left = ap (erase e.key) stored ∙ erase-last (least ∷ between) e lows_first

  pub shorter : suc (length (erase e.key s.stored)) ≡ length s.stored
  shorter = omega (arith, ap length left, ap length stored, length-append between (e ∷ []))

  pub last_value : lookup e.key s.stored ≡ some e.value
  last_value = ap (lookup e.key) stored ∙ lookup-last (least ∷ between) e lows_first

  stored_lem : All (IsHeld s.low) (least ∷ (between ++ (e ∷ [])))
  stored_lem = subst (All (IsHeld s.low)) stored shard.held

  pub last-IsHeld : IsHeld s.low e
  last-IsHeld = All-here (IsHeld s.low) (least ∷ between) e [] stored_lem

  pub last_below : lt_bytes e.key t.low ≡ true
  last_below =
      All-here (λ (y : Entry). lt_bytes y.key t.low ≡ true) (least ∷ between) e []
        (subst (All (λ (y : Entry). lt_bytes y.key t.low ≡ true)) stored below.1)

  behind_last : Above e.key t.stored
  behind_last =
      All-map (λ (y : Entry) (p : IsHeld t.low y). lt_of_not_lt e.key t.low y.key last_below p.3)
        t.stored shard_next.held

  s_low : s'.low ≡ least.key
  s_low =
      ap (λ (rows : Rows). (announced rows s).low) left
      ∙ announced_low s least between stored_lem.0.2

  t_low : t'.low ≡ e.key
  t_low =
      rw (
        min_key_of-insert_first e.key e.value t.stored behind_last,
        not-is_empty e.key last-IsHeld.2,
      )

  pub arriving-All : All (IsHeld e.key) (insert e.key e.value t.stored)
  arriving-All =
      All-insert (IsHeld e.key) e.key e.value t.stored
        (last-IsHeld.0, last-IsHeld.1, last-IsHeld.2, lt_bytes_irrefl e.key)
        (All-map
          (λ (y : Entry) (p : IsHeld t.low y).
            (p.0, p.1, p.2, not_above e.key y.key (lt_of_not_lt e.key t.low y.key last_below p.3)))
          t.stored shard_next.held)

  pub leaving-IsShard : IsShard s'
  leaving-IsShard =
      announced-IsShard s.low s (erase e.key s.stored) shard (erase-IsSorted e.key s.stored sorted)
        (All-erase (IsHeld s.low) e.key s.stored shard.held)

  pub arriving-IsShard : IsShard t'
  arriving-IsShard =
      announced-IsShard e.key t (insert e.key e.value t.stored) shard_next
        (insert-IsSorted e.key e.value t.stored sorted_next) arriving-All

  pub leaving-IsBelow : IsBelow s' t'
  leaving-IsBelow = (
    ap₂ lt_bytes s_low t_low ∙ lows_first.0,
    subst (λ (l : Bytes). All (λ (y : Entry). lt_bytes y.key l ≡ true) (erase e.key s.stored))
        (sym t_low)
        (subst (All (λ (y : Entry). lt_bytes y.key e.key ≡ true)) (sym left) lows_first),
  )

  pub leaving-IsBelow_after : (after : List Shard) → All (IsBelow s) after → All (IsBelow s') after
  leaving-IsBelow_after after h =
      All-map
        (λ u (p : IsBelow s u). (
          ap (λ (l : Bytes). lt_bytes l u.low) s_low
              ∙ (subst (All (λ (y : Entry). lt_bytes y.key u.low ≡ true)) stored p.1).0,
          All-erase (λ (y : Entry). lt_bytes y.key u.low ≡ true) e.key s.stored p.1,
        ))
        after h

  pub arriving-IsBelow_after : (after : List Shard) → All (IsBelow t) after → All (IsBelow t') after
  arriving-IsBelow_after after h =
      All-map
        (λ u (p : IsBelow t u).
          let first : lt_bytes e.key u.low ≡ true =
            lt_bytes_trans e.key t.low u.low last_below p.0 in
          (
            ap (λ (l : Bytes). lt_bytes l u.low) t_low ∙ first,
            All-insert (λ (y : Entry). lt_bytes y.key u.low ≡ true) e.key e.value t.stored first
                p.1,
          ))
        after h

  pub IsBelow-leaving :
      (before : List Shard) → All (λ u. IsBelow u s) before → All (λ u. IsBelow u s') before
  IsBelow-leaving before h =
      All-map
        (λ u. IsBelow-higher u s s' (ap (λ (l : Bytes). lt_bytes l s.low) s_low ∙ stored_lem.0.3))
        before h

  pub IsBelow-arriving :
      (before : List Shard) → All (λ u. IsBelow u s) before → All (λ u. IsBelow u t') before
  IsBelow-arriving before h =
      All-map
        (λ u. IsBelow-higher u s t' (ap (λ (l : Bytes). lt_bytes l s.low) t_low ∙ last-IsHeld.3))
        before h

  pub moved_values :
      (j : Bytes) (after : List Shard) (before : List Shard)
      → value_at j (before ++ (s' ∷ (t' ∷ after))) ≡ value_at j (before ++ (s ∷ (t ∷ after)))
  unfolding value_at
  moved_values j after [] =
      rw (lookup-erase e.key j s.stored sorted, lookup-insert e.key j e.value t.stored)
        (elim (Bool-cases (eq_bytes j e.key)) [
          | inl same ↦
              rw
                (
                  same,
                  ap (λ (k : Bytes). lookup k s.stored) ((eq_bytes_iff j e.key).0 same)
                      ∙ last_value,
                )
                refl
          | inr other ↦ rw other refl
        ])
  moved_values j after (u ∷ before) = rw (moved_values j after before)
