-- ===== src/ControlNode/Cluster/Values.antt =====
-- The value of a key in a list of processes, where their ranges follow one another.
use distributed_rocks_db_tes.Prelude.{
  ◌≡◌, refl, ap, ◌∙◌, true, false, Option, none, some, List, [], ◌∷◌, ◌++◌, All, arith,
  if◌then◌else◌, Bool-cases, inl, inr,
}
use distributed_rocks_db_tes.Prelude.Bytes.{
  Bytes, lt_bytes, eq_bytes, eq_bytes_iff, lt_bytes_irrefl, lt_bytes_trans, lt_bytes_total,
}
use distributed_rocks_db_tes.Rocks.Entries.{Entry, Rows, Above, lookup, lookup-Above}
use distributed_rocks_db_tes.ControlNode.Cluster.{
  Shard, or_else, value_at, IsHeld, IsShard, IsBelow,
}
use distributed_rocks_db_tes.ControlNode.Cluster.Shards.{All-map}

pub lt_of_not_lt :
    (a b k : Bytes) → lt_bytes a b ≡ true → lt_bytes k b ≡ false → lt_bytes a k ≡ true
lt_of_not_lt a b k h g = elim (Bool-cases (lt_bytes b k)) [
  | inl above ↦ lt_bytes_trans a b k h above
  | inr same ↦ rw (lt_bytes_total k b g same) h
]

pub not-lt_of_lt :
    (a b k : Bytes) → lt_bytes k b ≡ true → lt_bytes a b ≡ false → lt_bytes k a ≡ true
not-lt_of_lt a b k h g = elim (Bool-cases (lt_bytes b a)) [
  | inl above ↦ lt_bytes_trans k b a h above
  | inr same ↦ rw (lt_bytes_total a b g same) h
]

pub lookup-All_below :
    (k : Bytes) (rows : Rows)
    → All (λ (e : Entry). lt_bytes e.key k ≡ true) rows
    → lookup k rows ≡ none
unfolding lookup
lookup-All_below k [] h = refl
lookup-All_below k (e ∷ rows) h =
    ground (arith, lookup-All_below k rows, eq_bytes_iff k e.key, lt_bytes_irrefl k)

-- No process before the one where a key is searched has the key.
pub none_before :
    (k : Bytes) (s : Shard) (before : List Shard)
    → lt_bytes k s.low ≡ false
    → All (λ t. IsBelow t s) before
    → All (λ (t : Shard). lookup k t.stored ≡ none) before
none_before k s before h b =
    All-map
      (λ (t : Shard) (below : IsBelow t s). lookup-All_below k t.stored (
        All-map (λ (e : Entry) (p : lt_bytes e.key s.low ≡ true). lt_of_not_lt e.key s.low k p h)
          t.stored below.1))
      before b

pub held-Above : (k : Bytes) (s : Shard) → lt_bytes k s.low ≡ true → IsShard s → Above k s.stored
held-Above k s h g =
    All-map (λ (e : Entry) (p : IsHeld s.low e). not-lt_of_lt e.key s.low k h p.3) s.stored g.held

-- No process after it has the key.
pub none_after :
    (k : Bytes) (after : List Shard)
    → All (λ (t : Shard). lt_bytes k t.low ≡ true) after
    → All IsShard after
    → All (λ (t : Shard). lookup k t.stored ≡ none) after
none_after k [] h g = tt
none_after k (t ∷ after) h g =
    (lookup-Above k t.stored (held-Above k t h.0 g.0), none_after k after h.1 g.1)

or_else-none : (o : Option Bytes) → or_else o none ≡ o
or_else-none none = refl
or_else-none (some v) = refl

value_at-none :
    (k : Bytes) (ss : List Shard)
    → All (λ (t : Shard). lookup k t.stored ≡ none) ss
    → value_at k ss ≡ none
unfolding value_at
value_at-none k [] h = refl
value_at-none k (s ∷ ss) h = rw h.0 (value_at-none k ss h.1)

module _ (k : Bytes) (s : Shard) (after : List Shard)
    (nowhere_after : All (λ (t : Shard). lookup k t.stored ≡ none) after) where
  -- The value is that of the process where the key is searched.
  pub value_at-here :
      (before : List Shard)
      → All (λ (t : Shard). lookup k t.stored ≡ none) before
      → value_at k (before ++ (s ∷ after)) ≡ lookup k s.stored
  unfolding value_at
  value_at-here [] h = rw (value_at-none k after nowhere_after) (or_else-none (lookup k s.stored))
  value_at-here (t ∷ before) h = rw h.0 (value_at-here before h.1)

  -- A change of the key there changes the key alone.
  pub value_at-set :
      (s' : Shard) (new : Option Bytes) (j : Bytes)
      → lookup j s'.stored ≡ (if eq_bytes j k then new else lookup j s.stored)
      → (before : List Shard) → All (λ (t : Shard). lookup k t.stored ≡ none) before
      → value_at j (before ++ (s' ∷ after))
        ≡ (if eq_bytes j k then new else value_at j (before ++ (s ∷ after)))
  unfolding value_at
  value_at-set s' new j e [] h = elim (Bool-cases (eq_bytes j k)) [
    | inl same ↦ rw (
      e,
      same,
      ap (λ (x : Bytes). value_at x after) ((eq_bytes_iff j k).0 same)
          ∙ value_at-none k after nowhere_after,
      or_else-none new,
    )
    | inr other ↦ rw (e, other)
  ]
  value_at-set s' new j e (t ∷ before) h = elim (Bool-cases (eq_bytes j k)) [
    | inl same ↦ rw (
      value_at-set s' new j e before h.1,
      same,
      ap (λ (x : Bytes). lookup x t.stored) ((eq_bytes_iff j k).0 same) ∙ h.0,
    )
    | inr other ↦ rw (value_at-set s' new j e before h.1, other)
  ]
