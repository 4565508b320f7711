-- ===== src/ControlNode/Cluster/Neighbours.antt =====
-- The order of the processes where one of them changed.
use distributed_rocks_db_tes.Prelude.{
  arith, ◌≢◌, ◌≡◌, sym, subst, true, List, [], ◌∷◌, ◌++◌, All, inl, inr, ◌⊎◌,
}
use distributed_rocks_db_tes.Prelude.Bytes.{Bytes, lt_bytes}
use distributed_rocks_db_tes.Rocks.Entries.{Entry}
use distributed_rocks_db_tes.ControlNode.Cluster.{suc, ℕ, AreOrdered, Shard, IsBelow}
use distributed_rocks_db_tes.ControlNode.Cluster.Shards.{All-map}
use distributed_rocks_db_tes.ControlNode.Cluster.Texts.{
  All-insert, All-erase, min_bytes-either, with_entry, without_key,
}

pub All-after {ℓ κ} :
    {A : Type ℓ} (P : A → Type κ) (xs : List A) (y : A) (ys : List A)
    → All P (xs ++ (y ∷ ys))
    → All P ys
All-after P [] y ys h = h.1
All-after P (x ∷ xs) y ys h = All-after P xs y ys h.1

-- The lower end is the same, or no process comes before.
pub still-IsBelow :
    (before : List Shard) (s s' : Shard)
    → (before ≡ []) ⊎ (s'.low ≡ s.low)
    → All (λ t. IsBelow t s) before
    → All (λ t. IsBelow t s') before
still-IsBelow before s s' (inl first) h =
    subst (λ (l : List Shard). All (λ t. IsBelow t s') l) (sym first) tt
still-IsBelow before s s' (inr same) h =
    All-map
      (λ t (p : IsBelow t s).
        subst
          (λ (l : Bytes).
            (lt_bytes t.low l ≡ true) × All (λ (e : Entry). lt_bytes e.key l ≡ true) t.stored)
          (sym same) p)
      before h

pub with_entry-IsBelow :
    (key value : Bytes) (s : Shard) (after : List Shard)
    → All (λ (t : Shard). lt_bytes key t.low ≡ true) after
    → All (IsBelow s) after
    → All (IsBelow (with_entry key value s)) after
with_entry-IsBelow key value s [] h g = tt
with_entry-IsBelow key value s (t ∷ after) h g = (
  (
    min_bytes-either (λ (x : Bytes). lt_bytes x t.low ≡ true) s.low key g.0.0 h.0,
    All-insert (λ (e : Entry). lt_bytes e.key t.low ≡ true) key value s.stored h.0 g.0.1,
  ),
  with_entry-IsBelow key value s after h.1 g.1,
)

pub without_key-IsBelow :
    (key : Bytes) (s : Shard) (after : List Shard)
    → All (IsBelow s) after
    → All (IsBelow (without_key key s)) after
without_key-IsBelow key s after g =
    All-map
      (λ (t : Shard) (p : IsBelow s t).
        (p.0, All-erase (λ (e : Entry). lt_bytes e.key t.low ≡ true) key s.stored p.1))
      after g

pub ordered-rest :
    (before : List Shard) (s : Shard) (after : List Shard)
    → AreOrdered (before ++ (s ∷ after))
    → AreOrdered after
ordered-rest [] s after h = h.1
ordered-rest (u ∷ before) s after h = ordered-rest before s after h.1

pub All-snoc {ℓ κ} :
    {A : Type ℓ} (P : A → Type κ) (xs : List A) (y : A) → All P xs → P y → All P (xs ++ (y ∷ []))
All-snoc P [] y h p = (p, tt)
All-snoc P (x ∷ xs) y h p = (h.0, All-snoc P xs y h.1 p)

pub other_number : (n : ℕ) → suc n ≢ n
other_number n p = omega (arith, p)
