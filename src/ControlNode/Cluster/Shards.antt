-- ===== src/ControlNode/Cluster/Shards.antt =====
-- Lists of processes: one of them, those before it and those after it, and what a change of it does.
use distributed_rocks_db_tes.Prelude.{
  ℕ, zero, suc, ◌+◌, ◌≡◌, ◌≢◌, refl, ap, true, some, List, [], ◌∷◌, ◌++◌, length, All, arith,
}
use distributed_rocks_db_tes.Prelude.Bytes.{
  Bytes, lt_bytes, eq_bytes_iff, eq_bytes_refl, lt_bytes_irrefl, lt_bytes_trans,
}
use distributed_rocks_db_tes.Rocks.Entries.{Entry, Rows, Above, insert, erase}
use distributed_rocks_db_tes.ControlNode.ControlImpl.{node_at}
use distributed_rocks_db_tes.ControlNode.Cluster.{Shard, meta_row, metas, IsBelow, AreOrdered}

pub All-map {ℓ κ μ} :
    {A : Type ℓ} {P : A → Type κ} {Q : A → Type μ}
    → ((x : A) → P x → Q x)
    → (xs : List A) → All P xs
    → All Q xs
All-map f [] h = tt
All-map f (x ∷ xs) h = (f x h.0, All-map f xs h.1)

module _ {ℓ κ} {A : Type ℓ} (P : A → Type κ) where
  pub All-before : (xs : List A) (y : A) (ys : List A) → All P (xs ++ (y ∷ ys)) → All P xs
  All-before [] y ys h = tt
  All-before (x ∷ xs) y ys h = (h.0, All-before xs y ys h.1)

  pub All-here : (xs : List A) (y : A) (ys : List A) → All P (xs ++ (y ∷ ys)) → P y
  All-here [] y ys h = h.0
  All-here (x ∷ xs) y ys h = All-here xs y ys h.1

  pub All-set :
      (xs : List A) (y z : A) (ys : List A) → All P (xs ++ (y ∷ ys)) → P z → All P (xs ++ (z ∷ ys))
  All-set [] y z ys h p = (p, h.1)
  All-set (x ∷ xs) y z ys h p = (h.0, All-set xs y z ys h.1 p)

module _ {ℓ} {A : Type ℓ} where
  pub node_at-here :
      (xs : List A) (y : A) (ys : List A) → node_at (length xs) (xs ++ (y ∷ ys)) ≡ some y
  unfolding node_at
  node_at-here [] y ys = refl
  node_at-here (x ∷ xs) y ys = node_at-here xs y ys

  pub node_at-elsewhere :
      (i : ℕ) (xs : List A) (y z : A) (ys : List A)
      → i ≢ length xs
      → node_at i (xs ++ (y ∷ ys)) ≡ node_at i (xs ++ (z ∷ ys))
  unfolding node_at
  node_at-elsewhere zero [] y z ys h = absurd (h refl)
  node_at-elsewhere (suc i) [] y z ys h = refl
  node_at-elsewhere zero (x ∷ xs) y z ys h = refl
  node_at-elsewhere (suc i) (x ∷ xs) y z ys h = node_at-elsewhere i xs y z ys (λ p. h (ap suc p))

  pub length-set :
      (xs : List A) (y z : A) (ys : List A) → length (xs ++ (y ∷ ys)) ≡ length (xs ++ (z ∷ ys))
  length-set [] y z ys = refl
  length-set (x ∷ xs) y z ys = ap suc (length-set xs y z ys)

pub metas-append :
    (i : ℕ) (xs ys : List Shard) → metas i (xs ++ ys) ≡ metas i xs ++ metas (i + length xs) ys
metas-append i [] ys = ap (λ (n : ℕ). metas n ys) (omega arith)
metas-append i (x ∷ xs) ys =
    rw (metas-append (suc i) xs ys)
      (ap (λ (n : ℕ). meta_row i x ∷ (metas (suc i) xs ++ metas n ys)) (omega arith))

-- A place in the metadata is that of a process.
pub metas-split :
    (i : ℕ) (shards : List Shard) (xs : Rows) (e : Entry) (a : Rows)
    → xs ++ (e ∷ a) ≡ metas i shards
    → (before : List Shard) × (s : Shard) × (after : List Shard) × (n : ℕ) × (n ≡ i + length before)
      × (shards ≡ before ++ (s ∷ after))
      × (e ≡ meta_row n s)
      × (xs ≡ metas i before)
      × (a ≡ metas (suc n) after)
metas-split i [] [] e a h = absurd cc
metas-split i [] (x ∷ xs) e a h = absurd cc
metas-split i (s ∷ ss) [] e a h = ([], s, ss, i, omega arith, refl, cc, refl, cc)
metas-split i (s ∷ ss) (x ∷ xs) e a h =
    let (before, t, after, n, m, p, q, u, w) = metas-split (suc i) ss xs e a (cc) in
    (s ∷ before, t, after, n, omega (arith, m), ap (λ (l : List Shard). s ∷ l) p, q, cc, w)

-- The metadata of one process is replaced, under a key between those of its neighbours.
pub insert-erase :
    (xs : Rows) (e : Entry) (a : Rows) (k v : Bytes)
    → All (λ (x : Entry). lt_bytes x.key e.key ≡ true) xs
    → All (λ (x : Entry). lt_bytes x.key k ≡ true) xs
    → Above k a
    → insert k v (erase e.key (xs ++ (e ∷ a))) ≡ xs ++ (record { key = k; value = v } ∷ a)
unfolding insert erase
insert-erase [] e [] k v h g f = rw (eq_bytes_refl e.key)
insert-erase [] e (y ∷ a) k v h g f = rw (eq_bytes_refl e.key, f.0)
insert-erase (x ∷ xs) e a k v h g f = ground (
  arith,
  insert-erase xs e a k v,
  eq_bytes_iff e.key x.key,
  eq_bytes_iff k x.key,
  lt_bytes_irrefl e.key,
  lt_bytes_irrefl k,
  lt_bytes_trans k x.key k,
)

pub ordered-before :
    (before : List Shard) (s : Shard) (after : List Shard)
    → AreOrdered (before ++ (s ∷ after))
    → All (λ t. IsBelow t s) before
ordered-before [] s after h = tt
ordered-before (t ∷ before) s after h =
    (All-here (IsBelow t) before s after h.0, ordered-before before s after h.1)

pub ordered-after :
    (before : List Shard) (s : Shard) (after : List Shard)
    → AreOrdered (before ++ (s ∷ after))
    → All (IsBelow s) after
ordered-after [] s after h = h.0
ordered-after (t ∷ before) s after h = ordered-after before s after h.1

pub ordered-set :
    (before : List Shard) (s s' : Shard) (after : List Shard)
    → AreOrdered (before ++ (s ∷ after))
    → All (λ t. IsBelow t s') before
    → All (IsBelow s') after
    → AreOrdered (before ++ (s' ∷ after))
ordered-set [] s s' after h f g = (g, h.1)
ordered-set (t ∷ before) s s' after h f g =
    (All-set (IsBelow t) before s s' after h.0 f.0, ordered-set before s s' after h.1 f.1 g)
