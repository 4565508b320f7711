-- ===== src/ControlNode/Cluster/Announced.antt =====
-- The range that a process announces, and the entries of one that loses its last.
use distributed_rocks_db_tes.Prelude.{
  ◌≡◌, ◌≢◌, refl, sym, subst, Bool, true, false, some, [], ◌∷◌, ◌++◌, All, arith, if◌then◌else◌,
}
use distributed_rocks_db_tes.Prelude.Bytes.{
  Bytes, lt_bytes, is_empty, eq_bytes_iff, eq_bytes_refl, lt_bytes_irrefl, lt_bytes_trans,
}
use distributed_rocks_db_tes.Rocks.Entries.{Entry, Rows, Above, IsSorted, insert, erase, lookup}
use distributed_rocks_db_tes.Rocks.Extremes.{min_key_of, max_key_of, max_from}
use distributed_rocks_db_tes.StoreNode.StoreImpl.Ranges.{not-is_empty}
use distributed_rocks_db_tes.ControlNode.Cluster.{Shard, IsText, IsHeld, IsAtMost, IsShard, IsBelow}
use distributed_rocks_db_tes.ControlNode.Cluster.Shards.{All-map, All-here}
use distributed_rocks_db_tes.ControlNode.Cluster.Values.{lt_of_not_lt}
use distributed_rocks_db_tes.ControlNode.Cluster.Texts.{min_key-IsText, max_key-IsText}

-- The process with these entries, its range what it then announces.
abbrev pub announced : Rows → Shard → Shard
announced rows s = record {
  low = if is_empty (min_key_of rows) then s.low else min_key_of rows;
  high = if is_empty (max_key_of rows) then s.high else max_key_of rows;
  stored = rows;
}

pub if_else {ℓ κ} :
    {A : Type ℓ} (P : A → Type κ) (a b : A) (test : Bool) → P a → P b → P (if test then a else b)
if_else P a b true p q = p
if_else P a b false p q = q

pub not_above : (a b : Bytes) → lt_bytes a b ≡ true → lt_bytes b a ≡ false
not_above a b h = ground (arith, lt_bytes_trans a b a, lt_bytes_irrefl a)

not_below_smallest :
    (low : Bytes) (e : Entry) (rows : Rows)
    → All (IsHeld low) rows
    → Above e.key rows
    → All (IsHeld e.key) rows
not_below_smallest low e [] h a = tt
not_below_smallest low e (y ∷ rows) h a = (
  (
    h.0.0,
    h.0.1,
    h.0.2,
    ground (arith, a.0, lt_bytes_trans e.key y.key e.key, lt_bytes_irrefl e.key),
  ),
  not_below_smallest low e rows h.1 a.1,
)

pub announced_low :
    (s : Shard) (e : Entry) (rows : Rows) → e.key ≢ [] → (announced (e ∷ rows) s).low ≡ e.key
unfolding min_key_of
announced_low s e rows h = rw (not-is_empty e.key h)

-- The entries are then in the range.
pub announced-All :
    (low : Bytes) (s : Shard) (rows : Rows)
    → IsSorted rows
    → All (IsHeld low) rows
    → All (IsHeld (announced rows s).low) rows
announced-All low s [] h a = tt
announced-All low s (e ∷ rows) h a =
    subst (λ (l : Bytes). All (IsHeld l) (e ∷ rows)) (sym (announced_low s e rows a.0.2))
      ((a.0.0, a.0.1, a.0.2, lt_bytes_irrefl e.key), not_below_smallest low e rows a.1 h.0)

IsAtMost-last :
    (k : Bytes) (rows : Rows)
    → Above k rows
    → IsSorted rows
    → (lt_bytes (max_from k rows) k ≡ false) × All (IsAtMost (max_from k rows)) rows
IsAtMost-last k [] a h = (lt_bytes_irrefl k, tt)
IsAtMost-last k (e ∷ rows) a h =
    let (last, rest) = IsAtMost-last e.key rows h.0 h.1 in
    let up : lt_bytes (max_from e.key rows) k ≡ false =
      ground (arith, last, a.0, lt_bytes_trans (max_from e.key rows) k e.key) in
    (up, (last, rest))

-- The empty key is below none.
not_above_empty : (high k : Bytes) → lt_bytes [] k ≡ false → lt_bytes high k ≡ false
unfolding lt_bytes
not_above_empty [] [] h = refl
not_above_empty (x ∷ high) [] h = refl
not_above_empty high (y ∷ k) h = absurd cc

IsAtMost-or :
    (last high : Bytes) (rows : Rows)
    → All (IsAtMost last) rows
    → All (IsAtMost (if is_empty last then high else last)) rows
unfolding is_empty
IsAtMost-or [] high rows h =
    All-map (λ (e : Entry) (p : IsAtMost [] e). not_above_empty high e.key p) rows h
IsAtMost-or (x ∷ last) high rows h = h

-- No key is above the range that is announced.
announced-IsAtMost :
    (s : Shard) (rows : Rows) → IsSorted rows → All (IsAtMost (announced rows s).high) rows
unfolding max_key_of
announced-IsAtMost s [] h = tt
announced-IsAtMost s (e ∷ rows) h =
    IsAtMost-or (max_from e.key rows) s.high (e ∷ rows) (IsAtMost-last e.key rows h.0 h.1)

pub announced-IsShard :
    (low : Bytes) (s : Shard) (rows : Rows)
    → IsShard s
    → IsSorted rows
    → All (IsHeld low) rows
    → IsShard (announced rows s)
announced-IsShard low s rows h sorted held = record {
  low_text =
      if_else IsText s.low (min_key_of rows) (is_empty (min_key_of rows)) h.low_text
        (min_key-IsText low rows held);
  high_text =
      if_else IsText s.high (max_key_of rows) (is_empty (max_key_of rows)) h.high_text
        (max_key-IsText low rows held);
  held = announced-All low s rows sorted held;
  capped = announced-IsAtMost s rows sorted;
}

pub below_last :
    (xs : Rows) (e : Entry)
    → IsSorted (xs ++ (e ∷ []))
    → All (λ (y : Entry). lt_bytes y.key e.key ≡ true) xs
below_last [] e h = tt
below_last (x ∷ xs) e h =
    (All-here (λ (y : Entry). lt_bytes x.key y.key ≡ true) xs e [] h.0, below_last xs e h.1)

pub erase-last :
    (xs : Rows) (e : Entry)
    → All (λ (y : Entry). lt_bytes y.key e.key ≡ true) xs
    → erase e.key (xs ++ (e ∷ [])) ≡ xs
unfolding erase
erase-last [] e h = rw (eq_bytes_refl e.key)
erase-last (x ∷ xs) e h =
    ground (arith, erase-last xs e, eq_bytes_iff e.key x.key, lt_bytes_irrefl e.key)

pub lookup-last :
    (xs : Rows) (e : Entry)
    → All (λ (y : Entry). lt_bytes y.key e.key ≡ true) xs
    → lookup e.key (xs ++ (e ∷ [])) ≡ some e.value
unfolding lookup
lookup-last [] e h = rw (eq_bytes_refl e.key)
lookup-last (x ∷ xs) e h =
    ground (arith, lookup-last xs e, eq_bytes_iff e.key x.key, lt_bytes_irrefl e.key)

pub min_key_of-insert_first :
    (k v : Bytes) (rows : Rows) → Above k rows → min_key_of (insert k v rows) ≡ k
unfolding min_key_of insert
min_key_of-insert_first k v [] h = refl
min_key_of-insert_first k v (e ∷ rows) h = rw h.0

pub IsBelow-higher : (u s s' : Shard) → lt_bytes s'.low s.low ≡ false → IsBelow u s → IsBelow u s'
IsBelow-higher u s s' h b = (
  lt_of_not_lt u.low s.low s'.low b.0 h,
  All-map (λ (e : Entry) (p : lt_bytes e.key s.low ≡ true). lt_of_not_lt e.key s.low s'.low p h)
      u.stored b.1,
)

-- Where the range and the entries are below `b`, so is the range announced.
announced-below :
    (b : Bytes) (s : Shard) (rows : Rows)
    → lt_bytes s.low b ≡ true
    → All (λ (e : Entry). lt_bytes e.key b ≡ true) rows
    → lt_bytes (announced rows s).low b ≡ true
unfolding min_key_of is_empty
announced-below b s [] p h = p
announced-below b s (e ∷ rows) p h =
    if_else (λ (l : Bytes). lt_bytes l b ≡ true) s.low e.key (is_empty e.key) p h.0

pub announced-IsBelow :
    (u s : Shard) (rows : Rows)
    → lt_bytes s.low u.low ≡ true
    → All (λ (e : Entry). lt_bytes e.key u.low ≡ true) rows
    → IsBelow (announced rows s) u
announced-IsBelow u s rows p h = (announced-below u.low s rows p h, h)

-- The range that is announced starts no lower than that of before.
pub announced-above :
    (s : Shard) (rows : Rows)
    → All (IsHeld s.low) rows
    → lt_bytes (announced rows s).low s.low ≡ false
unfolding min_key_of is_empty
announced-above s [] h = lt_bytes_irrefl s.low
announced-above s (e ∷ rows) h =
    if_else (λ (l : Bytes). lt_bytes l s.low ≡ false) s.low e.key (is_empty e.key)
      (lt_bytes_irrefl s.low) h.0.3
